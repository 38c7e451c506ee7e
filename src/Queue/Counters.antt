-- ===== src/Queue/Counters.antt =====
-- The outcome tables of internal/queue/queue.go, by provider lane: `provider_outcomes` with
-- `RecordProviderHit` and `RecordProviderMiss`, and `lane_attempts` with `RecordLaneAttempts`.
pub mod Attribution
mod Examples
use mxlrcgo_svc.Common.{
  ℕ, suc, ◌+◌, ◌≡◌, refl, ap, sym, ◌∙◌, String, Bool, true, false, not, ◌&&◌, Option, none, some,
  List, [], ◌∷◌, ◌==◌, ==_iff, str_eq, eq_iff, any, map, if◌then◌else◌, arith, Bool-cases, inl, inr,
}
use mxlrcgo_svc.Common.Assoc.{lookup, put, lookup-put}
use mxlrcgo_svc.Models.{LaneAttempt}

pub record Counts : Type 0 where
  pub hits : ℕ
  pub misses : ℕ

-- The counts of a lane, zero where it has no row.
abbrev pub counts_or_zero : Option Counts → Counts
counts_or_zero none = record { hits = 0; misses = 0 }
counts_or_zero (some c) = c

abbrev pub counts_of : String → List (String × Counts) → Counts
counts_of lane t = counts_or_zero (lookup lane t)

unfoldable pub record_provider_hit : String → List (String × Counts) → List (String × Counts)
record_provider_hit lane t =
    if str_eq lane ""
    then t
    else put lane (record (counts_of lane t) { hits = suc (counts_of lane t).hits }) t

unfoldable pub record_provider_miss : String → List (String × Counts) → List (String × Counts)
record_provider_miss lane t =
    if str_eq lane ""
    then t
    else put lane (record (counts_of lane t) { misses = suc (counts_of lane t).misses }) t

-- A row of `lane_attempts`, apart from its key.
pub record AttemptRow : Type 0 where
  pub queue_id : ℕ
  pub lane : String
  pub hit : Bool
  pub attempted_at : ℕ

abbrev pub is_row : ℕ → String → AttemptRow → Bool
is_row i lane r = (r.queue_id == i) && str_eq r.lane lane

-- `INSERT … ON CONFLICT(queue_id, lane) DO UPDATE`.
unfoldable pub upsert_attempt : ℕ → String → Bool → ℕ → List AttemptRow → List AttemptRow
upsert_attempt i lane hit at [] =
    record { queue_id = i; lane = lane; hit = hit; attempted_at = at } ∷ []
upsert_attempt i lane hit at (r ∷ rows) =
    if is_row i lane r
    then record r { hit = hit; attempted_at = at } ∷ rows
    else r ∷ upsert_attempt i lane hit at rows

unfoldable pub record_lane_attempts : ℕ → ℕ → List LaneAttempt → List AttemptRow → List AttemptRow
record_lane_attempts at i [] rows = rows
record_lane_attempts at i (a ∷ attempts) rows =
    let rest = record_lane_attempts at i attempts in
    if str_eq a.lane "" then rest rows else rest (upsert_attempt i a.lane a.hit at rows)

-- The hit and the time that the table has for a lane of a queue row.
unfoldable pub attempt_of : ℕ → String → List AttemptRow → Option (Bool × ℕ)
attempt_of i lane [] = none
attempt_of i lane (r ∷ rows) =
    if is_row i lane r then some (r.hit, r.attempted_at) else attempt_of i lane rows
