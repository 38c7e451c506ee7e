-- ===== src/Queue/Cancel/Rows.antt =====
-- A cancellation by library as a step of the table of internal/queue/queue.go.
use mxlrcgo_svc.Common.{
  ℕ, ◌≡◌, refl, Bool, true, false, ◌&&◌, ◌||◌, none, inl, inr, List, [], ◌∷◌, arith, Bool-cases,
}
use mxlrcgo_svc.Queue.{Status, pending, processing, failed, deferred, has_status, Row, Store}
use mxlrcgo_svc.Queue.Calls.{cancels}
use mxlrcgo_svc.Queue.Cancel.{deletes, shrinks, shrunk, cancel_rows, cancel_by_library}
use mxlrcgo_svc.Queue.Effects.{Follows, ends, keeps, drops, stay, Next}
use mxlrcgo_svc.Queue.Steps.{untouched}

cancel-free :
    (b c : Bool) (s : Status)
    → (((has_status pending s || has_status failed s || has_status deferred s) && b) && c) ≡ true
    → has_status processing s ≡ false
cancel-free b c s h = ground arith

cancel_rows-Follows :
    (library : ℕ) (st : Store) (rows : List Row)
    → Follows (cancels library) none rows (cancel_rows library st rows)
unfolding cancel_rows
cancel_rows-Follows library st [] = ends
cancel_rows-Follows library st (r ∷ rows) = elim (Bool-cases (deletes library st r)) [
  | inl goes ↦ rw goes (drops (cancel-free _ _ r.status goes) (cancel_rows-Follows library st rows))
  | inr left ↦ rw left (elim (Bool-cases (shrinks library st r)) [
    | inl cut ↦ rw cut (
        keeps (untouched (cancels library) (shrunk library st) r refl refl refl refl)
          (cancel_rows-Follows library st rows))
    | inr whole ↦ rw whole (keeps (stay (cancels library) r) (cancel_rows-Follows library st rows))
  ])
]

pub cancel-Next :
    (library : ℕ) (st : Store) → Next (cancels library) st (cancel_by_library library st).0
unfolding cancel_by_library
cancel-Next library st = record {
  added = none;
  rows = cancel_rows-Follows library st st.rows;
  new = refl;
}
