-- ===== src/Queue/Results.antt =====
-- What a worker reports of a row that it holds, in internal/queue/queue.go.
use mxlrcgo_svc.Common.{ℕ, suc, String, not, ◌&&◌, Option, none, some}
use mxlrcgo_svc.Common.Int.{ℤ, pos}
use mxlrcgo_svc.Backoff.{geometric}
use mxlrcgo_svc.Circuit.{add_time}
use mxlrcgo_svc.Queue.{
  pending, processing, done, failed, deferred, has_status, priority_miss, miss_limit_reached_error,
  Row, Store, DbQueue, format_time, update, in_status, update_returning, is_linked,
}

-- The linked rows of `scan_results` that are not done become done.
abbrev pub finish_scans : ℕ → Store → Store
finish_scans i st = record st {
  scans =
      update (λ s. is_linked st.links i s && not (has_status done s.status))
        (λ s. record s { status = done }) st.scans;
}

abbrev pub finished : ℕ → Option (Store × Row) → Option (Store × Row)
finished i none = none
finished i (some (st, r)) = some (finish_scans i st, r)

abbrev pub completed_row : ℕ → Row → Row
completed_row now r = record r {
  status = done;
  completed_at = some (format_time now);
  last_error = "";
}

unfoldable pub complete : ℕ → ℕ → Store → Option (Store × Row)
complete now i st = finished i (update_returning (in_status i processing) (completed_row now) st)

abbrev pub released_row : Row → Row
released_row r = record r { status = pending; last_error = "" }

unfoldable pub release : ℕ → Store → Option (Store × Row)
release i st = update_returning (in_status i processing) released_row st

-- `cause` is the error's text, "" for a nil error.
abbrev pub failed_row : DbQueue → ℕ → String → Row → Row
failed_row q now cause r = record r {
  status = failed;
  attempts = suc r.attempts;
  next_attempt_at =
      format_time (add_time now (geometric (pos (suc r.attempts)) q.base_backoff q.max_backoff));
  last_error = cause;
}

unfoldable pub fail : DbQueue → ℕ → ℕ → String → Store → Option (Store × Row)
fail q now i cause st = update_returning (in_status i processing) (failed_row q now cause) st

abbrev pub deferred_row : ℕ → ℤ → String → Row → Row
deferred_row now retry_after cause r = record r {
  status = deferred;
  miss_count = suc r.miss_count;
  priority = priority_miss;
  next_attempt_at = format_time (add_time now retry_after);
  last_error = cause;
}

unfoldable pub defer_miss : ℕ → ℕ → ℤ → String → Store → Option (Store × Row)
defer_miss now i retry_after cause st =
    update_returning (in_status i processing) (deferred_row now retry_after cause) st

abbrev pub retired_row : ℕ → Row → Row
retired_row now r = record r {
  status = done;
  completed_at = some (format_time now);
  last_error = miss_limit_reached_error;
}

unfoldable pub retire_miss : ℕ → ℕ → Store → Option (Store × Row)
retire_miss now i st = finished i (update_returning (in_status i processing) (retired_row now) st)
