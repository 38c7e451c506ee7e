-- ===== src/Queue/Stamps.antt =====
-- The columns that the worker stamps on a row of internal/queue/queue.go before it is completed,
-- and the reset of an instrumental verdict.
use mxlrcgo_svc.Common.{
  ℕ, String, Bool, false, ◌&&◌, Option, none, some, ◌==◌, str_eq, count_if, if◌then◌else◌,
}
use mxlrcgo_svc.Queue.{
  pending, done, deferred, has_status, priority_miss, Row, InstrumentalTelemetry, Store,
  format_time, update, by_id, update_returning, is_linked,
}

-- `UPDATE work_queue SET … WHERE id = i`, whatever the row's status.
abbrev pub stamp : ℕ → (Row → Row) → Store → Store
stamp i f st = record st { rows = update (by_id i) f st.rows }

unfoldable pub set_provider_lane : ℕ → String → Store → Store
set_provider_lane i lane st =
    if str_eq lane "" then st else stamp i (λ r. record r { provider_lane = some lane }) st

unfoldable pub set_instrumental_result : ℕ → ℕ → InstrumentalTelemetry → Store → Store
set_instrumental_result i result tel st =
    stamp i (λ r. record r { instrumental_result = some result; telemetry = some tel }) st

unfoldable pub set_outcome_type : ℕ → String → Store → Store
set_outcome_type i outcome_type st = stamp i (λ r. record r { outcome_type = some outcome_type }) st

abbrev pub flagged : Option ℕ → Bool
flagged none = false
flagged (some n) = n == 1

-- `WHERE id = i AND instrumental_result = 1 AND status = 'done'`.
abbrev pub is_resettable : ℕ → Row → Bool
is_resettable i r = (r.id == i) && flagged r.instrumental_result && has_status done r.status

abbrev pub reset_row : ℕ → Row → Row
reset_row now r = record r {
  status = deferred;
  priority = priority_miss;
  instrumental_result = none;
  outcome_type = none;
  completed_at = none;
  telemetry = none;
  last_error = "";
  next_attempt_at = format_time now;
}

-- The writeback of the scan results, and the number of rows.
abbrev pub after_reset : ℕ → Store → Option (Store × Row) → Store × ℕ
after_reset i st none = (st, 0)
after_reset i st (some (st', r)) = (
  record st' {
    scans =
        update (λ s. is_linked st.links i s && has_status done s.status)
          (λ s. record s { status = pending }) st.scans;
  },
  1,
)

unfoldable pub reset_instrumental : ℕ → ℕ → Store → Store × ℕ
reset_instrumental now i st =
    after_reset i st (update_returning (is_resettable i) (reset_row now) st)

unfoldable pub count_instrumental : Store → ℕ
count_instrumental st = count_if (λ r. flagged r.instrumental_result) st.rows
