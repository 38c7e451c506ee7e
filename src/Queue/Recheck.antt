-- ===== src/Queue/Recheck.antt =====
-- What an operator does to rows that no worker holds, in internal/queue/queue.go.
use mxlrcgo_svc.Common.{
  ℕ, Bool, true, not, ◌&&◌, Option, none, some, keep, count_if, any, ◌==◌, str_eq, if◌then◌else◌,
  is_some,
}
use mxlrcgo_svc.Queue.{
  pending, processing, done, failed, deferred, has_status, priority_miss, miss_limit_reached_error,
  Row, ScanRow, Store, format_time, update, find, by_id, in_status, update_returning, is_linked,
}

-- `recheckLibraryClause`: the row has a linked scan result of the library.
abbrev pub in_library : Option ℕ → Store → Row → Bool
in_library none st r = true
in_library (some l) st r = any (λ s. is_linked st.links r.id s && (s.library_id == l)) st.scans

unfoldable pub recheck_deferred : ℕ → Option ℕ → Store → Store × ℕ
recheck_deferred now library st =
    let p : Row → Bool = (λ r. has_status deferred r.status && in_library library st r) in
    (
      record st { rows = update p (λ r. record r { next_attempt_at = format_time now }) st.rows },
      count_if p st.rows,
    )

abbrev pub is_retired : Row → Bool
is_retired r = has_status done r.status && str_eq r.last_error miss_limit_reached_error

abbrev pub of_library : Option ℕ → ScanRow → Bool
of_library none s = true
of_library (some l) s = s.library_id == l

abbrev pub revived : ℕ → Row → Row
revived now r = record r {
  status = deferred;
  priority = priority_miss;
  next_attempt_at = format_time now;
  last_error = "";
  completed_at = none;
}

-- The writeback over the ids of the revived rows sets a scan result that is linked to any of them.
unfoldable pub recheck_retired : ℕ → Option ℕ → Store → Store × ℕ
recheck_retired now library st =
    let p : Row → Bool = (λ r. is_retired r && in_library library st r) in
    (
      record st {
        rows = update p (revived now) st.rows;
        scans =
            update
              (λ s.
                any (λ r. is_linked st.links r.id s) (keep p st.rows)
                && has_status done s.status
                && of_library library s)
              (λ s. record s { status = pending }) st.scans;
      },
      count_if p st.rows,
    )

unfoldable pub count_recheck_deferred : Option ℕ → Store → ℕ
count_recheck_deferred library st =
    count_if (λ r. has_status deferred r.status && in_library library st r) st.rows

unfoldable pub count_recheck_retired : Option ℕ → Store → ℕ
count_recheck_retired library st = count_if (λ r. is_retired r && in_library library st r) st.rows

-- `Retry`: the row and the tables, or why not.
pub data Retried : Type 0 where
  retried : Store → Row → Retried
  no_rows not_retryable : Retried

abbrev pub retried_row : ℕ → Row → Row
retried_row now r = record r {
  status = pending;
  attempts = 0;
  next_attempt_at = format_time now;
  last_error = "";
}

unfoldable pub after_retry : ℕ → Store → Option (Store × Row) → Retried
after_retry i st none = if is_some (find (by_id i) st.rows) then not_retryable else no_rows
after_retry i st (some (st', r)) =
    retried
      (record st' {
        scans =
            update (λ s. is_linked st.links i s && has_status processing s.status)
              (λ s. record s { status = pending }) st.scans;
      })
      r

unfoldable pub retry : ℕ → ℕ → Store → Retried
unfolding after_retry
retry now i st = after_retry i st (update_returning (in_status i failed) (retried_row now) st)

-- The foreign key deletes the links of the rows that go.
unfoldable pub clear_done : Store → Store × ℕ
clear_done st =
    let gone : Row → Bool = (λ r. has_status done r.status) in
    (
      record st {
        rows = keep (λ r. not (gone r)) st.rows;
        links = keep (λ l. not (any (λ r. r.id == l.0) (keep gone st.rows))) st.links;
      },
      count_if gone st.rows,
    )

unfoldable pub count_done : Store → ℕ
count_done st = count_if (λ r. has_status done r.status) st.rows
