-- ===== src/Queue/Failures.antt =====
-- What a worker's report does to the row that it holds, in internal/queue/queue.go.
use mxlrcgo_svc.Common.{
  ℕ, suc, ◌+◌, ◌≡◌, ◌<◌, ◌≤◌, refl, ap, ◌∙◌, String, true, none, some, arith, min, ◌^◌, ◌*◌, ◌/◌,
}
use mxlrcgo_svc.Common.Int.{ℤ, pos, int64_max}
use mxlrcgo_svc.Queue.{
  processing, failed, has_status, Row, Store, DbQueue, format_time, update, find, by_id, in_status,
  set_row, update_returning,
}
use mxlrcgo_svc.Queue.Results.{complete, release, fail, defer_miss, retire_miss}
use mxlrcgo_svc.Queue.Recheck.{not_retryable, retry, after_retry}
use mxlrcgo_svc.Backoff.{geometric}
use mxlrcgo_svc.Circuit.{add_time}
use mxlrcgo_svc.Backoff.Exact.{geometric-schedule, schedule}
use mxlrcgo_svc.Queue.Results.{failed_row}
use mxlrcgo_svc.Queue.Lookup.{find-in_status, find-updated}

scheduled :
    (now attempts base cap : ℕ)
    → 0 < base
    → 0 < cap
    → add_time now (schedule (pos (suc attempts)) (pos base) (pos cap))
      ≡ now + min (base * 2 ^ attempts) cap
scheduled now attempts base cap pb pm = ground arith

wait :
    (now attempts base cap : ℕ)
    → 0 < base
    → 0 < cap
    → cap ≤ int64_max
    → add_time now (geometric (pos (suc attempts)) (pos base) (pos cap))
      ≡ now + min (base * 2 ^ attempts) cap
wait now attempts base cap pb pm h =
    ap (add_time now) (geometric-schedule (pos (suc attempts)) (pos base) (pos cap) h).0
    ∙ scheduled now attempts base cap pb pm

-- A failed attempt waits by the schedule: with base and cap positive and the cap within int64, the
-- processing row with `attempts` failures so far comes back, in the table too, as failed, with one
-- attempt more and its misses unchanged, and its next attempt is min (base * 2 ^ attempts) cap from
-- now, cut to whole seconds.
pub fail-wait :
    (q : DbQueue) (st : Store) (now i base cap : ℕ) (cause : String) (r : Row)
    → find (by_id i) st.rows ≡ some r
    → has_status processing r.status ≡ true
    → q.base_backoff ≡ pos base
    → q.max_backoff ≡ pos cap
    → 0 < base
    → 0 < cap
    → cap ≤ int64_max
    → (st' : Store) × (s : Row) × (fail q now i cause st ≡ some (st', s))
      × (find (by_id i) st'.rows ≡ some s)
      × (s.attempts ≡ suc r.attempts)
      × (s.miss_count ≡ r.miss_count)
      × (s.status ≡ failed)
      × (s.next_attempt_at ≡ (now + min (base * 2 ^ r.attempts) cap) / 1_000_000_000)
unfolding fail update_returning
fail-wait q st now i base cap cause r e busy b m pb pm h = (
  record st { rows = update (in_status i processing) (failed_row q now cause) st.rows },
  failed_row q now cause r,
  ap (set_row (in_status i processing) (failed_row q now cause) st)
      (find-in_status i processing st.rows r e busy),
  find-updated i processing (failed_row q now cause) st.rows r (λ x. refl) e busy,
  refl,
  refl,
  refl,
  ap format_time (
      ap (λ z. add_time now (geometric (pos (suc r.attempts)) z q.max_backoff)) b
      ∙ ap (λ z. add_time now (geometric (pos (suc r.attempts)) (pos base) z)) m
      ∙ wait now r.attempts base cap pb pm h),
)

-- A late report is lost. If a row is neither processing nor failed (no row with its id is), every
-- report on it (complete, release, fail, defer, retire) finds no row, and a retry is refused as not
-- retryable.
pub reports_lost :
    (q : DbQueue) (st : Store) (now i : ℕ) (after : ℤ) (cause : String) (r : Row)
    → find (in_status i processing) st.rows ≡ none
    → find (in_status i failed) st.rows ≡ none
    → find (by_id i) st.rows ≡ some r
    → (complete now i st ≡ none)
      × (release i st ≡ none)
      × (fail q now i cause st ≡ none)
      × (defer_miss now i after cause st ≡ none)
      × (retire_miss now i st ≡ none)
      × (retry now i st ≡ not_retryable)
unfolding complete release fail defer_miss retire_miss retry after_retry update_returning
reports_lost q st now i after cause r p f e = (rw p, rw p, rw p, rw p, rw p, rw f (rw e))
