-- ===== src/Queue/Steps.antt =====
-- What each call of internal/queue/queue.go does to the table, by the moves of the diagram.
use mxlrcgo_svc.Common.{
  ℕ, ◌≡◌, refl, sym, ap, subst, ◌∙◌, true, ◌||◌, Option, none, some, inl, inr, ◌==◌, arith,
  Bool-cases, ==_iff, is_some,
}
use mxlrcgo_svc.Queue.{
  Status, pending, processing, done, failed, deferred, has_status, Row, Store, DbQueue, format_time,
  find, by_id, in_status, set_row, update_returning,
}
use mxlrcgo_svc.Queue.Claim.{dequeue, claimed, is_ready}
use mxlrcgo_svc.Queue.Claim.Order.{dequeue-cases}
use mxlrcgo_svc.Queue.Recheck.{retry, after_retry, retried_row}
use mxlrcgo_svc.Queue.Calls.{Call, dequeues, retries, reports_on, store_after, store_retried}
use mxlrcgo_svc.Queue.Results.{finished, finish_scans}
use mxlrcgo_svc.Queue.Effects.{
  Move, stays, claims_pending, claims_failed, claims_deferred, retries_it, IsNext, same-Next, Next,
  IsNew, has_status_eq, set_row-Next, UniqueIds, update_row-Follows,
}

-- A worker's report moves a row that is processing.
pub reported :
    (c : Call) (i : ℕ) (t : Status) (f : Row → Row) (r : Row)
    → in_status i processing r ≡ true
    → reports_on i c ≡ true
    → (f r).id ≡ r.id
    → (f r).artist_key ≡ r.artist_key
    → (f r).title_key ≡ r.title_key
    → (f r).status ≡ t
    → Move processing t
    → IsNext c r (f r)
reported c i t f r h told id_eq a_eq t_eq s_eq m = record {
  same_id = id_eq;
  same_artist = a_eq;
  same_title = t_eq;
  moved =
      subst (λ x. Move x (f r).status) (has_status_eq processing r.status (ground arith))
        (subst (λ x. Move processing x) (sym s_eq) m);
  held = inr (inr (subst (λ x. reports_on x c ≡ true) (sym (ground arith)) told));
}

-- Any other call moves a row that is not processing, or leaves its status alone.
pub untouched :
    (c : Call) (f : Row → Row) (r : Row)
    → (f r).id ≡ r.id
    → (f r).artist_key ≡ r.artist_key
    → (f r).title_key ≡ r.title_key
    → (f r).status ≡ r.status
    → IsNext c r (f r)
untouched c f r id_eq a_eq t_eq s_eq = record {
  same_id = id_eq;
  same_artist = a_eq;
  same_title = t_eq;
  moved = subst (λ x. Move r.status x) (sym s_eq) stays;
  held = elim (Bool-cases (has_status processing r.status)) [
    | inl busy ↦ inr (inl (ap (has_status processing) s_eq ∙ busy))
    | inr free ↦ inl free
  ];
}

claim-Move :
    (s : Status)
    → (has_status pending s || has_status failed s || has_status deferred s) ≡ true
    → Move s processing
claim-Move pending h = claims_pending
claim-Move failed h = claims_failed
claim-Move deferred h = claims_deferred
claim-Move done h = absurd (cc)
claim-Move processing h = absurd (cc)

finished-Next :
    (c : Call) (i : ℕ) (st : Store) (o : Option (Store × Row))
    → Next c st (store_after st o)
    → Next c st (store_after st (finished i o))
finished-Next c i st none h = h
finished-Next c i st (some (st', r)) h = record {
  added = h.added;
  rows = h.rows;
  new = new_after h.added h.new;
}
  where
    new_after : (o : Option Row) → IsNew st st' o → IsNew st (finish_scans i st') o
    new_after none n = n
    new_after (some r) n = n

-- A report by a transaction that finishes the linked scan results, or by one that does not.
pub report-Next :
    (c : Call) (i : ℕ) (f : Row → Row) (st : Store)
    → ((r : Row) → in_status i processing r ≡ true → IsNext c r (f r))
    → Next c st (store_after st (update_returning (in_status i processing) f st))
      × Next c st (store_after st (finished i (update_returning (in_status i processing) f st)))
unfolding update_returning
report-Next c i f st h =
    let o = find (in_status i processing) st.rows in
    let plain = set_row-Next c (in_status i processing) f st o h in
    (plain, finished-Next c i st (set_row (in_status i processing) f st o) plain)

claimed-IsNext : (c : Call) (now : ℕ) (r : Row) → is_ready now r ≡ true → IsNext c r (claimed r)
claimed-IsNext c now r h = record {
  same_id = refl;
  same_artist = refl;
  same_title = refl;
  moved = claim-Move r.status (ground arith);
  held = inr (inl refl);
}

pub dequeue-Next :
    (q : DbQueue) (draw : ℕ → ℕ) (now : ℕ) (st : Store)
    → UniqueIds st.rows
    → Next (dequeues draw now) st (store_after st (dequeue q draw now st))
dequeue-Next q draw now st u = elim (dequeue-cases q draw now st) [
  | inl idle ↦ rw (idle, store_after) (same-Next (dequeues draw now) st)
  | inr (r, i, ready, e) ↦
      rw (e, store_after)
        (record {
          added = none;
          rows =
              update_row-Follows (dequeues draw now) claimed r st.rows u i
                (claimed-IsNext (dequeues draw now) (format_time now) r ready);
          new = refl;
        })
]

pub itself : (i : ℕ) → (i == i) ≡ true
itself i = (==_iff i i).1 refl

after_retry-Next :
    (c : Call) (i : ℕ) (st : Store) (o : Option (Store × Row))
    → Next c st (store_after st o)
    → Next c st (store_retried st (after_retry i st o))
unfolding after_retry
after_retry-Next c i st none h = elim (Bool-cases (is_some (find (by_id i) st.rows))) [
  | inl known ↦ rw (known, store_retried) h
  | inr unknown ↦ rw (unknown, store_retried) h
]
after_retry-Next c i st (some (st', r)) h = record {
  added = h.added;
  rows = h.rows;
  new = new_after h.added h.new;
}
  where
    new_after :
        (o : Option Row)
        → IsNew st st' o
        → IsNew st (store_retried st (after_retry i st (some (st', r)))) o
    new_after none n = n
    new_after (some x) n = n

again :
    (now i : ℕ) (r : Row)
    → in_status i failed r ≡ true
    → IsNext (retries now i) r (retried_row now r)
again now i r h = record {
  same_id = refl;
  same_artist = refl;
  same_title = refl;
  moved = subst (λ x. Move x pending) (has_status_eq failed r.status (ground arith)) retries_it;
  held = inl (ground arith);
}

pub retry-Next :
    (now i : ℕ) (st : Store) → Next (retries now i) st (store_retried st (retry now i st))
unfolding retry update_returning
retry-Next now i st =
    let o = find (in_status i failed) st.rows in
    after_retry-Next (retries now i) i st (set_row (in_status i failed) (retried_row now) st o)
      (set_row-Next (retries now i) (in_status i failed) (retried_row now) st o (again now i))
