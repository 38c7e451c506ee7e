-- ===== src/Errors/Classes.antt =====
-- The classes of internal/orchestrator/errors.go, from the sentinels inside an error.
use mxlrcgo_svc.Common.{
  Bool, ◌||◌, ◌&&◌, ◌≡◌, refl, none, some, ◌==◌, if◌then◌else◌, arith, List, [], ◌∷◌, ◌++◌, any,
}
use mxlrcgo_svc.Errors.{
  Sentinel, unauthorized, rate_limited, not_found, no_lyrics, truncated_response,
  token_renewal_required, lane_unavailable, canceled, deadline_exceeded, no_rows, tag, Err,
  sentinel, other, wrapped, joined, errors_is, is_benign_miss, OutcomeClass, success, benign_miss,
  transport, auth_rate_limit, unavailable, classify_outcome,
}

-- The sentinels at the leaves of an error, from left to right.
abbrev pub leaves : Err → List Sentinel
leaves (sentinel s) = s ∷ []
leaves (other m) = []
leaves (wrapped m e) = leaves e
leaves (joined a b) = leaves a ++ leaves b

-- What a leaf answers to: itself, and a renewal also to `ErrUnauthorized`.
abbrev pub answers : Sentinel → Sentinel → Bool
answers s t = tag s == tag t || (tag s == tag token_renewal_required && tag t == tag unauthorized)

any-append {ℓ} :
    {A : Type ℓ} (p : A → Bool) (xs ys : List A) → any p (xs ++ ys) ≡ (any p xs || any p ys)
any-append p [] ys = refl
any-append p (x ∷ xs) ys = ground (arith, any-append p xs ys)

pub errors_is-leaves : (e : Err) (t : Sentinel) → errors_is e t ≡ any (λ s. answers s t) (leaves e)
unfolding errors_is
errors_is-leaves (sentinel s) t = ground arith
errors_is-leaves (other m) t = refl
errors_is-leaves (wrapped m e) t = errors_is-leaves e t
errors_is-leaves (joined a b) t = ground (
  arith,
  errors_is-leaves a t,
  errors_is-leaves b t,
  any-append (λ s. answers s t) (leaves a) (leaves b),
)

-- The class that one sentinel stands for.
abbrev pub class_of : Sentinel → OutcomeClass
class_of lane_unavailable = unavailable
class_of token_renewal_required = auth_rate_limit
class_of unauthorized = auth_rate_limit
class_of rate_limited = auth_rate_limit
class_of truncated_response = auth_rate_limit
class_of not_found = benign_miss
class_of no_lyrics = benign_miss
class_of canceled = transport
class_of deadline_exceeded = transport
class_of no_rows = transport

-- Of two classes found in one error, the one that decides.
abbrev pub decides : OutcomeClass → OutcomeClass → OutcomeClass
decides unavailable _ = unavailable
decides auth_rate_limit unavailable = unavailable
decides auth_rate_limit _ = auth_rate_limit
decides benign_miss unavailable = unavailable
decides benign_miss auth_rate_limit = auth_rate_limit
decides benign_miss _ = benign_miss
decides _ c = c

abbrev pub class_of_leaves : List Sentinel → OutcomeClass
class_of_leaves [] = transport
class_of_leaves (s ∷ ss) = decides (class_of s) (class_of_leaves ss)

class_by_tests : List Sentinel → OutcomeClass
class_by_tests ss =
    if any (λ s. answers s lane_unavailable) ss
    then unavailable
    else if any (λ s. answers s token_renewal_required) ss
        || any (λ s. answers s unauthorized) ss
        || any (λ s. answers s rate_limited) ss
        || any (λ s. answers s truncated_response) ss
    then auth_rate_limit
    else if any (λ s. answers s not_found) ss || any (λ s. answers s no_lyrics) ss
    then benign_miss
    else transport

class_by_tests-leaves : (ss : List Sentinel) → class_by_tests ss ≡ class_of_leaves ss
unfolding class_by_tests
class_by_tests-leaves [] = refl
class_by_tests-leaves (unauthorized ∷ ss) = ground (arith, class_by_tests-leaves ss)
class_by_tests-leaves (_ ∷ ss) = ground (arith, class_by_tests-leaves ss)

-- `ClassifyOutcome` depends on the sentinels inside an error alone, however they are wrapped or
-- joined: it is a success for no error, and else the least certain of the classes that the
-- sentinels stand for (an open lane before an auth or rate-limit signal before a benign miss), and
-- transport where none of them says anything.
pub classify_outcome-leaves :
    (e : Err)
    → (classify_outcome (some e) ≡ class_of_leaves (leaves e)) × (classify_outcome none ≡ success)
unfolding classify_outcome is_benign_miss class_by_tests
classify_outcome-leaves e = (
  rw
      (
        errors_is-leaves e lane_unavailable,
        errors_is-leaves e token_renewal_required,
        errors_is-leaves e unauthorized,
        errors_is-leaves e rate_limited,
        errors_is-leaves e truncated_response,
        errors_is-leaves e not_found,
        errors_is-leaves e no_lyrics,
      )
      (class_by_tests-leaves (leaves e)),
  refl,
)
