-- ===== src/Orchestrator/Mode.antt =====
-- internal/orchestrator/orchestrator.go: the orchestrator over its lanes, and the choice of the mode.
use mxlrcgo_svc.Common.{
  ℕ, suc, ◌+◌, ◌≡◌, refl, ap, String, true, false, not, ◌&&◌, ◌||◌, Option, none, some, ◌⊎◌, inl,
  inr, List, [], ◌∷◌, ◌++◌, map, str_eq, length, if◌then◌else◌, arith, Bool-cases,
}
use mathlib.Core.Option
use mxlrcgo_svc.Common.Int.{ℤ, pos, positive}
use mxlrcgo_svc.Models.{Song}
use mxlrcgo_svc.Errors.{Err}
use mxlrcgo_svc.Orchestrator.Suitability.{ScriptGuard}
use mxlrcgo_svc.Orchestrator.Lane.{Lane, Turn}
use mxlrcgo_svc.Orchestrator.Ordered.{Visit, find_ordered}
use mxlrcgo_svc.Orchestrator.Parallel.{Arrival, find_parallel}

abbrev pub mode_ordered : String
mode_ordered = "ordered"

abbrev pub mode_parallel : String
mode_parallel = "parallel"

-- Two seconds, in nanoseconds.
abbrev pub default_race_wait : ℤ
default_race_wait = pos 2_000_000_000

pub record Orchestrator : Type 0 where
  pub lanes : List Lane
  pub guard : Option ScriptGuard
  pub mode : String
  pub race_wait : ℤ

pub data NewError : Type 0 where
  unsupported_mode : String → NewError
  no_lanes : NewError
  nil_lane : ℕ → NewError

-- The lanes, or the index of the first that is nil.
check_lanes : ℕ → List (Option Lane) → ℕ ⊎ List Lane
check_lanes i [] = inr []
check_lanes i (none ∷ ls) = inl i
check_lanes i (some l ∷ ls) = elim (check_lanes (suc i) ls) [
  | inl j ↦ inl j
  | inr owned ↦ inr (l ∷ owned)
]

build : String → ℕ ⊎ List Lane → NewError ⊎ Orchestrator
build mode (inl i) = inl (nil_lane i)
build mode (inr []) = inl no_lanes
build mode (inr (l ∷ ls)) =
    inr (record { lanes = l ∷ ls; guard = none; mode = mode; race_wait = default_race_wait })

unfoldable pub new : String → List (Option Lane) → NewError ⊎ Orchestrator
unfolding check_lanes build
new mode lanes =
    let mode = if str_eq mode "" then mode_ordered else mode in
    if not (str_eq mode mode_ordered) && not (str_eq mode mode_parallel)
    then inl (unsupported_mode mode)
    else build mode (check_lanes 0 lanes)

unfoldable pub set_guard : ScriptGuard → Orchestrator → Orchestrator
set_guard g o = record o { guard = some g }

unfoldable pub lane_names : Orchestrator → List String
lane_names o = map (λ l. l.name) o.lanes

unfoldable pub set_race_wait : ℤ → Orchestrator → Orchestrator
set_race_wait d o = if positive d then record o { race_wait = d } else o

-- What happens around one dispatch: the context's `Err()` at the start and behind the loop, the
-- turn of each lane with the context's `Err()` before it, and the arrivals of a race with the lanes
-- as the race leaves them.
pub record Events : Type 0 where
  pub first_err : Option Err
  pub last_err : Option Err
  pub turns : ℕ → Option Err × Turn
  pub arrivals : List Arrival
  pub raced : List Lane

abbrev pub visits : ℕ → (ℕ → Option Err × Turn) → List Lane → List Visit
visits i turns [] = []
visits i turns (l ∷ ls) =
    let (e, t) = turns i in record { lane = l; ctx_err = e; turn = t } ∷ visits (suc i) turns ls

-- The lanes and the reply, or `none` while a race still waits.
unfoldable pub find_lyrics : Orchestrator → Events → Option (List Lane × Song × Option Err)
find_lyrics o ev =
    if str_eq o.mode mode_parallel
    then Option.map (λ (reply : Song × Option Err). (ev.raced, reply.0, reply.1))
        (find_parallel o.guard (length o.lanes) ev.first_err ev.arrivals)
    else (let out = find_ordered o.guard ev.last_err (visits 0 ev.turns o.lanes) in
        some (out.lanes, out.song, out.err))

check_lanes-some :
    (i : ℕ) (ls : List Lane) (rest : List (Option Lane))
    → (check_lanes i (map some ls) ≡ inr ls)
      × (check_lanes i (map some ls ++ none ∷ rest) ≡ inl (i + length ls))
unfolding check_lanes
check_lanes-some i [] rest = (refl, ap inl (omega arith))
check_lanes-some i (l ∷ ls) rest =
    let ih = check_lanes-some (suc i) ls rest in (rw (ih.0), rw (ih.1) (ap inl (omega arith)))

-- The default mode is written out.
abbrev pub effective : String → String
effective mode = if str_eq mode "" then mode_ordered else mode

known_mode :
    (mode : String)
    → (str_eq mode "" || str_eq mode mode_ordered || str_eq mode mode_parallel) ≡ true
    → not (str_eq (effective mode) mode_ordered) && not (str_eq (effective mode) mode_parallel)
      ≡ false
known_mode mode h = elim (Bool-cases (str_eq mode "")) [
  | inl blank ↦ rw blank
  | inr given ↦ rw given (ground (arith, h, given))
]

-- With a known mode (or none, which is the ordered one) an orchestrator is built exactly over the
-- lanes given, in their order, with no guard and the default upgrade window; an empty list is refused,
-- and so is a list with a nil lane, at the index of the first one.
pub new-lanes :
    (mode : String) (l : Lane) (ls : List Lane) (rest : List (Option Lane))
    → (str_eq mode "" || str_eq mode mode_ordered || str_eq mode mode_parallel) ≡ true
    → (new mode (map some (l ∷ ls))
        ≡ inr (record {
          lanes = l ∷ ls;
          guard = none;
          mode = effective mode;
          race_wait = default_race_wait;
        }))
      × (new mode (map some (l ∷ ls) ++ none ∷ rest) ≡ inl (nil_lane (length (l ∷ ls))))
      × (new mode [] ≡ inl no_lanes)
unfolding new build
new-lanes mode l ls rest h =
    let known : not (str_eq (effective mode) mode_ordered)
          && not (str_eq (effective mode) mode_parallel)
        ≡ false =
      known_mode mode h in
    let (owned, nil) = check_lanes-some 0 (l ∷ ls) rest in
    (
      rw known (rw owned),
      rw known (rw nil (ap (λ i. inl (nil_lane i)) (omega arith))),
      unfold check_lanes in rw known,
    )
