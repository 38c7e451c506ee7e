-- ===== src/Queue/Calls.antt =====
-- The queue of internal/queue/queue.go under any sequence of calls.
use mxlrcgo_svc.Common.{ℕ, String, Bool, false, Option, none, some, List, [], ◌∷◌, ◌==◌}
use mxlrcgo_svc.Common.Int.{ℤ}
use mxlrcgo_svc.Models.{Inputs}
use mxlrcgo_svc.Queue.{Row, InstrumentalTelemetry, Store, DbQueue}
use mxlrcgo_svc.Queue.Enqueue.{enqueue, cleanup}
use mxlrcgo_svc.Queue.Claim.{dequeue}
use mxlrcgo_svc.Queue.Results.{complete, release, fail, defer_miss, retire_miss}
use mxlrcgo_svc.Queue.Cancel.{cancel_by_library}
use mxlrcgo_svc.Queue.Recheck.{
  recheck_deferred, recheck_retired, Retried, retried, retry, clear_done,
}
use mxlrcgo_svc.Queue.Stamps.{
  set_provider_lane, set_instrumental_result, set_outcome_type, reset_instrumental,
}

-- A call with its arguments and its reading of the clock.
pub data Call : Type 0 where
  enqueues : Inputs → ℤ → ℕ → ℕ → Call
  cleans : Inputs → Call
  dequeues : (ℕ → ℕ) → ℕ → Call
  completes : ℕ → ℕ → Call
  releases : ℕ → Call
  fails : ℕ → ℕ → String → Call
  defers : ℕ → ℕ → ℤ → String → Call
  retires : ℕ → ℕ → Call
  rechecks_deferred : ℕ → Option ℕ → Call
  rechecks_retired : ℕ → Option ℕ → Call
  retries : ℕ → ℕ → Call
  clears : Call
  cancels : ℕ → Call
  sets_provider_lane : ℕ → String → Call
  sets_instrumental : ℕ → ℕ → InstrumentalTelemetry → Call
  sets_outcome : ℕ → String → Call
  resets_instrumental : ℕ → ℕ → Call

-- Whether the call is a worker's report on the row.
abbrev pub reports_on : ℕ → Call → Bool
reports_on i (completes now j) = i == j
reports_on i (releases j) = i == j
reports_on i (fails now j cause) = i == j
reports_on i (defers now j after cause) = i == j
reports_on i (retires now j) = i == j
reports_on i _ = false

-- A call that finds no row leaves the tables alone.
abbrev pub store_after : Store → Option (Store × Row) → Store
store_after st none = st
store_after st (some (st', r)) = st'

abbrev pub store_retried : Store → Retried → Store
store_retried st (retried st' r) = st'
store_retried st _ = st

module _ (normalize_key : String → String) (q : DbQueue) where
  unfoldable pub step : Store → Call → Store
  step st (enqueues inputs priority now created) =
      (enqueue normalize_key q inputs priority now created st).0
  step st (cleans inputs) = (cleanup normalize_key inputs st).0
  step st (dequeues draw now) = store_after st (dequeue q draw now st)
  step st (completes now i) = store_after st (complete now i st)
  step st (releases i) = store_after st (release i st)
  step st (fails now i cause) = store_after st (fail q now i cause st)
  step st (defers now i after cause) = store_after st (defer_miss now i after cause st)
  step st (retires now i) = store_after st (retire_miss now i st)
  step st (rechecks_deferred now library) = (recheck_deferred now library st).0
  step st (rechecks_retired now library) = (recheck_retired now library st).0
  step st (retries now i) = store_retried st (retry now i st)
  step st clears = (clear_done st).0
  step st (cancels library) = (cancel_by_library library st).0
  step st (sets_provider_lane i lane) = set_provider_lane i lane st
  step st (sets_instrumental i result tel) = set_instrumental_result i result tel st
  step st (sets_outcome i outcome_type) = set_outcome_type i outcome_type st
  step st (resets_instrumental now i) = (reset_instrumental now i st).0

  unfoldable pub run : Store → List Call → Store
  run st [] = st
  run st (c ∷ cs) = run (step st c) cs
