-- ===== src/Queue/Cancel.antt =====
-- `CancelByLibrary` and `CountCancelByLibrary` of internal/queue/queue.go. A path holds no NUL, so
-- two output-path keys are equal when both of their parts are.
pub mod Paths
pub mod Rows
mod Examples
use mxlrcgo_svc.Common.{
  ℕ, suc, String, Bool, true, false, not, ◌&&◌, ◌||◌, Option, none, some, List, [], ◌∷◌, ltb, ◌==◌,
  str_eq, any, keep, count_if, length, if◌then◌else◌,
}
use mxlrcgo_svc.Models.{OutputPath}
use mxlrcgo_svc.Queue.{
  Status, pending, failed, deferred, has_status, Work, Row, ScanRow, Store, is_linked,
}
use mxlrcgo_svc.Queue.Recheck.{in_library}

abbrev same_path : OutputPath → OutputPath → Bool
same_path p p' = str_eq p.outdir p'.outdir && str_eq p.filename p'.filename

-- The rows that a scan result of the library is linked to, and that no worker holds.
abbrev pub is_candidate : ℕ → Store → Row → Bool
is_candidate library st r =
    (has_status pending r.status || has_status failed r.status || has_status deferred r.status)
    && in_library (some library) st r

-- `keepSetForRow`: a linked scan result of another library wants the path.
abbrev pub is_kept : ℕ → Store → ℕ → OutputPath → Bool
is_kept library st i p =
    any (λ s. is_linked st.links i s && not (s.library_id == library) && same_path s.output p)
      st.scans

abbrev pub filtered : ℕ → Store → Row → List OutputPath
filtered library st r = keep (is_kept library st r.id) r.work.output_paths

abbrev pub deletes : ℕ → Store → Row → Bool
deletes library st r = is_candidate library st r && (length (filtered library st r) == 0)

abbrev pub shrinks : ℕ → Store → Row → Bool
shrinks library st r =
    is_candidate library st r
    && not (length (filtered library st r) == 0)
    && not (length (filtered library st r) == length r.work.output_paths)

abbrev pub shrunk : ℕ → Store → Row → Row
shrunk library st r = record r { work = record r.work { output_paths = filtered library st r } }

-- The loop over the candidates: each row is deleted, updated or left.
unfoldable pub cancel_rows : ℕ → Store → List Row → List Row
cancel_rows library st [] = []
cancel_rows library st (r ∷ rows) =
    if deletes library st r
    then cancel_rows library st rows
    else (if shrinks library st r then shrunk library st r else r) ∷ cancel_rows library st rows

-- The numbers of rows that are deleted and that are updated.
unfoldable pub count_cancel_by_library : ℕ → Store → ℕ × ℕ
count_cancel_by_library library st =
    (count_if (deletes library st) st.rows, count_if (shrinks library st) st.rows)

unfoldable pub cancel_by_library : ℕ → Store → Store × (ℕ × ℕ)
cancel_by_library library st = (
  record st {
    rows = cancel_rows library st st.rows;
    links = keep (λ l. not (any (λ r. r.id == l.0) (keep (deletes library st) st.rows))) st.links;
  },
  count_cancel_by_library library st,
)
