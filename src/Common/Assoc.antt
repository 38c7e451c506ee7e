-- ===== src/Common/Assoc.antt =====
-- Go maps keyed by strings, as association lists in the order in which a `range` loop visits them.
use Prim.Native.Nat.{suc, ◌≤◌}
use Prim.Native.String.{String}
use mathlib.Core.Path.{◌≡◌, refl}
use mathlib.Core.Bool.{Bool}
use mathlib.Core.Option.{Option, none, some}
use mathlib.Core.List.{List, [], ◌∷◌}
use native.Mathlib.Omega.{arith}
use text.Mathlib.Text.{◌==◌ as str_eq}
use text.Mathlib.TextEquality.{eq_iff}
use mxlrcgo_svc.Common.Tests.{if◌then◌else◌, is_some}
use mxlrcgo_svc.Common.Lists.{length, keep}

module _ {ℓ} {V : Type ℓ} where
  unfoldable pub lookup : String → List (String × V) → Option V
  lookup k [] = none
  lookup k ((j, v) ∷ m) = if str_eq j k then some v else lookup k m

  -- `m[k] = v`: a key that is there keeps its place.
  unfoldable pub put : String → V → List (String × V) → List (String × V)
  put k v [] = (k, v) ∷ []
  put k v ((j, w) ∷ m) = if str_eq j k then (j, v) ∷ m else (j, w) ∷ put k v m

  unfoldable pub delete : String → List (String × V) → List (String × V)
  delete k [] = []
  delete k ((j, w) ∷ m) = if str_eq j k then delete k m else (j, w) ∷ delete k m

  pub lookup-put :
      (k j : String) (v : V) (m : List (String × V))
      → lookup j (put k v m) ≡ (if str_eq k j then some v else lookup j m)
  unfolding lookup put
  lookup-put k j v [] = refl
  lookup-put k j v ((i, w) ∷ m) =
      ground (arith, eq_iff k j, eq_iff i k, eq_iff i j, lookup-put k j v m)

  pub lookup-delete :
      (k j : String) (m : List (String × V))
      → lookup j (delete k m) ≡ (if str_eq k j then none else lookup j m)
  unfolding lookup delete
  lookup-delete k j [] = ground arith
  lookup-delete k j ((i, w) ∷ m) =
      ground (arith, eq_iff k j, eq_iff i k, eq_iff i j, lookup-delete k j m)

  pub length-delete-le : (k : String) (m : List (String × V)) → length (delete k m) ≤ length m
  unfolding delete
  length-delete-le k [] = omega arith
  length-delete-le k ((j, w) ∷ m) = ground (arith, length-delete-le k m)

  pub length-put :
      (k : String) (v : V) (m : List (String × V))
      → length (put k v m) ≡ (if is_some (lookup k m) then length m else suc (length m))
  unfolding lookup put
  length-put k v [] = refl
  length-put k v ((j, w) ∷ m) = ground (arith, length-put k v m)

  -- Every key stands once.
  abbrev pub Unique : List (String × V) → Type ℓ
  Unique [] = Unit
  Unique ((j, w) ∷ m) = (lookup j m ≡ none) × Unique m

  pub put-Unique : (k : String) (v : V) (m : List (String × V)) → Unique m → Unique (put k v m)
  unfolding put
  put-Unique k v [] u = (unfold lookup in refl, tt)
  put-Unique k v ((j, w) ∷ m) u =
      ground (arith, put-Unique k v m u.1, lookup-put k j v m, eq_iff k j, eq_iff j k)

  pub delete-Unique : (k : String) (m : List (String × V)) → Unique m → Unique (delete k m)
  unfolding delete
  delete-Unique k [] u = u
  delete-Unique k ((j, w) ∷ m) u = ground (arith, delete-Unique k m u.1, lookup-delete k j m)

  pub lookup-keep-none :
      (p : String × V → Bool) (k : String) (m : List (String × V))
      → lookup k m ≡ none
      → lookup k (keep p m) ≡ none
  unfolding lookup
  lookup-keep-none p k [] e = e
  lookup-keep-none p k ((j, w) ∷ m) e = ground (arith, lookup-keep-none p k m)

  pub keep-Unique : (p : String × V → Bool) (m : List (String × V)) → Unique m → Unique (keep p m)
  keep-Unique p [] u = u
  keep-Unique p ((j, w) ∷ m) u = ground (arith, keep-Unique p m u.1, lookup-keep-none p j m u.0)
