-- ===== src/Queue/TableSteps.antt =====
-- What the calls of internal/queue/queue.go over many rows do to the table, by the moves of the
-- diagram.
use mxlrcgo_svc.Common.{
  ℕ, ◌≡◌, refl, subst, String, Bool, true, false, not, ◌&&◌, ◌||◌, Option, none, some, inl, inr,
  List, [], ◌∷◌, arith, Bool-cases,
}
use mxlrcgo_svc.Common.Int.{ℤ}
use mxlrcgo_svc.Models.{Inputs}
use mxlrcgo_svc.Queue.{
  Status, pending, processing, done, failed, deferred, has_status, Row, Store, DbQueue, format_time,
  find,
}
use mxlrcgo_svc.Queue.Enqueue.{enqueue, cleanup, refresh, has_key, excluded, upsert}
use mxlrcgo_svc.Queue.Recheck.{recheck_deferred, recheck_retired, clear_done}
use mxlrcgo_svc.Queue.Calls.{Call, enqueues, cleans, rechecks_deferred, rechecks_retired, clears}
use mxlrcgo_svc.Queue.Recheck.{revived, is_retired, in_library}
use mxlrcgo_svc.Queue.Effects.{
  Move, revives, IsNext, Next, HasNoKey, append-Follows, update-Follows, keep-Follows,
  has_status_eq,
}
use mxlrcgo_svc.Queue.Steps.{untouched}

retired-free :
    (r : Row) (b : Bool) → (is_retired r && b) ≡ true → has_status processing r.status ≡ false
retired-free r b h = ground arith

none-HasNoKey :
    (r : Row) (rows : List Row)
    → find (has_key r.artist_key r.title_key) rows ≡ none
    → HasNoKey r rows
none-HasNoKey r [] h = tt
none-HasNoKey r (x ∷ rows) h = elim (Bool-cases (has_key r.artist_key r.title_key x)) [
  | inl taken ↦ absurd (ground arith)
  | inr free ↦ (free, none-HasNoKey r rows (ground arith))
]

upsert-Next :
    (c : Call) (new : Row) (scan : ℕ) (st : Store) (o : Option Row)
    → find (has_key new.artist_key new.title_key) st.rows ≡ o
    → new.status ≡ pending
    → new.id ≡ st.next_id
    → Next c st (upsert new scan st o).0
unfolding upsert refresh
upsert-Next c new scan st none h p e = record {
  added = some new;
  rows = append-Follows c st.rows new;
  new = (p, e, refl, none-HasNoKey new st.rows h);
}
upsert-Next c new scan st (some old) h p e = record {
  added = none;
  rows =
      update-Follows c (has_key new.artist_key new.title_key) (refresh new) st.rows
        (λ r k. untouched c (refresh new) r refl refl refl refl);
  new = refl;
}

revived-IsNext :
    (c : Call) (now : ℕ) (b : Bool) (r : Row)
    → (is_retired r && b) ≡ true
    → IsNext c r (revived now r)
revived-IsNext c now b r h = record {
  same_id = refl;
  same_artist = refl;
  same_title = refl;
  moved = subst (λ x. Move x deferred) (has_status_eq done r.status (ground arith)) revives;
  held = inl (retired-free r b h);
}

pub recheck_retired-Next :
    (now : ℕ) (library : Option ℕ) (st : Store)
    → Next (rechecks_retired now library) st (recheck_retired now library st).0
unfolding recheck_retired
recheck_retired-Next now library st = record {
  added = none;
  rows =
      update-Follows (rechecks_retired now library) (λ r. is_retired r && in_library library st r)
        (revived now) st.rows
        (λ r h. revived-IsNext (rechecks_retired now library) now (in_library library st r) r h);
  new = refl;
}

pub enqueue-Next :
    (normalize_key : String → String) (q : DbQueue) (inputs : Inputs) (priority : ℤ)
    (now created : ℕ) (st : Store)
    → Next
        (enqueues inputs priority now created)
        st
        (enqueue normalize_key q inputs priority now created st).0
unfolding enqueue
enqueue-Next normalize_key q inputs priority now created st =
    let new = excluded normalize_key q inputs priority now created st.next_id in
    upsert-Next (enqueues inputs priority now created) new inputs.scan_result_id st
      (find (has_key new.artist_key new.title_key) st.rows) refl refl refl

-- A row that may be removed is not processing.
removable-free :
    (b : Bool) (s : Status)
    → not (b && (has_status pending s || has_status failed s || has_status deferred s)) ≡ false
    → has_status processing s ≡ false
removable-free b s h = ground arith

pub cleanup-Next :
    (normalize_key : String → String) (inputs : Inputs) (st : Store)
    → Next (cleans inputs) st (cleanup normalize_key inputs st).0
unfolding cleanup
cleanup-Next normalize_key inputs st = record {
  added = none;
  rows = keep-Follows (cleans inputs) _ st.rows (λ r h. removable-free _ r.status h);
  new = refl;
}

pub recheck_deferred-Next :
    (now : ℕ) (library : Option ℕ) (st : Store)
    → Next (rechecks_deferred now library) st (recheck_deferred now library st).0
unfolding recheck_deferred
recheck_deferred-Next now library st = record {
  added = none;
  rows =
      update-Follows (rechecks_deferred now library) _
        (λ r. record r { next_attempt_at = format_time now }) st.rows
        (λ r h.
          untouched (rechecks_deferred now library)
            (λ r. record r { next_attempt_at = format_time now }) r refl refl refl refl);
  new = refl;
}

done-free : (s : Status) → not (has_status done s) ≡ false → has_status processing s ≡ false
done-free s h = ground arith

pub clear_done-Next : (st : Store) → Next clears st (clear_done st).0
unfolding clear_done
clear_done-Next st = record {
  added = none;
  rows = keep-Follows clears _ st.rows (λ r h. done-free r.status h);
  new = refl;
}
