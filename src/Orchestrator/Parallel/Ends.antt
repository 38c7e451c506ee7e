-- ===== src/Orchestrator/Parallel/Ends.antt =====
-- Parallel mode of internal/orchestrator/parallel.go: the collector waits for no more than the lanes.
use mxlrcgo_svc.Common.{
  ℕ, suc, ◌<◌, ◌≤◌, ◌≡◌, refl, true, Option, none, some, ◌⊎◌, inl, inr, List, [], ◌∷◌, ◌==◌,
  is_some, arith, Bool-cases,
}
use mxlrcgo_svc.Models.{no_song}
use mxlrcgo_svc.Errors.{Err}
use mxlrcgo_svc.Orchestrator.Suitability.{ScriptGuard}
use mxlrcgo_svc.Orchestrator.Parallel.{
  Arrival, cancels, arrives, elapses, Race, Reply, commit_held, settle, after_result, on_timer,
  select, collect, start, find_parallel,
}
use mxlrcgo_svc.Orchestrator.Parallel.Collector.{seen, is_synced, pass, select-pass, select-synced}

-- How many of the arrivals are results.
abbrev pub arrived : List Arrival → ℕ
arrived [] = 0
arrived (arrives res ctx_err ∷ rest) = suc (arrived rest)
arrived (cancels e ∷ rest) = arrived rest
arrived (elapses ctx_err ∷ rest) = arrived rest

after_result-cases :
    (lanes : ℕ) (ctx_err : Option Err) (r : Race)
    → (after_result lanes ctx_err r ≡ inl r × 0 < r.pending)
      ⊎ (after_result lanes ctx_err r ≡ inr (settle lanes ctx_err r))
unfolding after_result
after_result-cases lanes ctx_err r = elim (Bool-cases (r.pending == 0)) [
  | inl z ↦ inr (rw z)
  | inr p ↦ inl (rw p, ground arith)
]

-- A timer that is not armed delivers nothing, and one that is armed ends the race.
elapses-cases :
    (guard : Option ScriptGuard) (lanes : ℕ) (ctx_err : Option Err) (r : Race)
    → (select guard lanes r (elapses ctx_err) ≡ inl r)
      ⊎ ((reply : Reply) × select guard lanes r (elapses ctx_err) ≡ inr reply)
unfolding select on_timer
elapses-cases guard lanes ctx_err r = elim (Bool-cases r.upgrade) [
  | inr u ↦ inl (rw u)
  | inl u ↦ inr (commit_or_fail ctx_err, armed ctx_err u)
]
  where
    commit_or_fail : Option Err → Reply
    commit_or_fail (some e) = (no_song, some e)
    commit_or_fail none = commit_held r

    armed :
        (c : Option Err)
        → r.upgrade ≡ true
        → select guard lanes r (elapses c) ≡ inr (commit_or_fail c)
    armed (some e) u = rw u
    armed none u = rw u

collect-ends :
    (guard : Option ScriptGuard) (lanes : ℕ) (arrivals : List Arrival) (r : Race)
    → 0 < r.pending
    → r.pending ≤ arrived arrivals
    → is_some (collect guard lanes r arrivals) ≡ true
unfolding collect
collect-ends guard lanes [] r z n = absurd (omega arith)
collect-ends guard lanes (cancels e ∷ rest) r z n = unfold select in refl
collect-ends guard lanes (elapses ctx_err ∷ rest) r z n =
    elim (elapses-cases guard lanes ctx_err r) [
      | inl waits ↦ rw (waits, collect) (collect-ends guard lanes rest r z n)
      | inr (reply, ends) ↦ rw (ends, collect)
    ]
collect-ends guard lanes (arrives res ctx_err ∷ rest) r z n =
    elim (Bool-cases (is_synced (seen guard res))) [
      | inl wins ↦ rw (select-synced guard lanes ctx_err res r wins, collect)
      | inr low ↦
          rw (select-pass guard lanes ctx_err res r low, collect)
            (elim (after_result-cases lanes ctx_err (pass guard res r)) [
              | inl (waits, p) ↦
                  rw (waits, collect)
                    (collect-ends guard lanes rest (pass guard res r) p (omega arith))
              | inr ends ↦ rw (ends, collect)
            ])
    ]

-- Once each of the lanes has delivered one result, in any order and with timer and cancellation
-- events anywhere between them, the dispatch has returned.
pub find_parallel-ends :
    (guard : Option ScriptGuard) (lanes : ℕ) (ctx_err : Option Err) (arrivals : List Arrival)
    → 0 < lanes
    → lanes ≤ arrived arrivals
    → is_some (find_parallel guard lanes ctx_err arrivals) ≡ true
unfolding find_parallel start
find_parallel-ends guard lanes none arrivals z n =
    collect-ends guard lanes arrivals (start lanes) z n
find_parallel-ends guard lanes (some e) arrivals z n = refl
