-- ===== src/Queue/StampSteps.antt =====
-- What the stamps on a row of internal/queue/queue.go do to the table, by the moves of the diagram.
use mxlrcgo_svc.Common.{
  ℕ, ◌≡◌, refl, subst, String, true, Option, none, some, inl, inr, str_eq, arith, Bool-cases,
}
use mxlrcgo_svc.Queue.{
  done, deferred, Row, InstrumentalTelemetry, Store, find, by_id, set_row, update_returning,
}
use mxlrcgo_svc.Queue.Calls.{
  Call, sets_provider_lane, sets_instrumental, sets_outcome, resets_instrumental, store_after,
}
use mxlrcgo_svc.Queue.Stamps.{
  stamp, set_provider_lane, set_instrumental_result, set_outcome_type, is_resettable, reset_row,
  after_reset, reset_instrumental,
}
use mxlrcgo_svc.Queue.Effects.{
  Move, revives, IsNext, same-Next, Next, IsNew, has_status_eq, set_row-Next, update-Follows,
}
use mxlrcgo_svc.Queue.Steps.{untouched}

stamp-Next :
    (c : Call) (i : ℕ) (f : Row → Row) (st : Store)
    → ((r : Row) → IsNext c r (f r))
    → Next c st (stamp i f st)
stamp-Next c i f st h = record {
  added = none;
  rows = update-Follows c (by_id i) f st.rows (λ r m. h r);
  new = refl;
}

pub set_provider_lane-Next :
    (i : ℕ) (lane : String) (st : Store)
    → Next (sets_provider_lane i lane) st (set_provider_lane i lane st)
unfolding set_provider_lane
set_provider_lane-Next i lane st = elim (Bool-cases (str_eq lane "")) [
  | inl empty ↦ rw empty (same-Next (sets_provider_lane i lane) st)
  | inr named ↦ rw named (
      stamp-Next (sets_provider_lane i lane) i (λ r. record r { provider_lane = some lane }) st
        (λ r.
          untouched (sets_provider_lane i lane) (λ r. record r { provider_lane = some lane }) r refl
            refl refl refl))
]

pub set_instrumental_result-Next :
    (i result : ℕ) (tel : InstrumentalTelemetry) (st : Store)
    → Next (sets_instrumental i result tel) st (set_instrumental_result i result tel st)
unfolding set_instrumental_result
set_instrumental_result-Next i result tel st =
    let f : Row → Row =
      (λ r. record r { instrumental_result = some result; telemetry = some tel }) in
    stamp-Next (sets_instrumental i result tel) i f st
      (λ r. untouched (sets_instrumental i result tel) f r refl refl refl refl)

pub set_outcome_type-Next :
    (i : ℕ) (outcome_type : String) (st : Store)
    → Next (sets_outcome i outcome_type) st (set_outcome_type i outcome_type st)
unfolding set_outcome_type
set_outcome_type-Next i outcome_type st =
    let f : Row → Row = (λ r. record r { outcome_type = some outcome_type }) in
    stamp-Next (sets_outcome i outcome_type) i f st
      (λ r. untouched (sets_outcome i outcome_type) f r refl refl refl refl)

reset-IsNext :
    (c : Call) (now i : ℕ) (r : Row) → is_resettable i r ≡ true → IsNext c r (reset_row now r)
reset-IsNext c now i r h = record {
  same_id = refl;
  same_artist = refl;
  same_title = refl;
  moved = subst (λ x. Move x deferred) (has_status_eq done r.status (ground arith)) revives;
  held = inl (ground arith);
}

after_reset-Next :
    (c : Call) (i : ℕ) (st : Store) (o : Option (Store × Row))
    → Next c st (store_after st o)
    → Next c st (after_reset i st o).0
after_reset-Next c i st none h = h
after_reset-Next c i st (some (st', r)) h = record {
  added = h.added;
  rows = h.rows;
  new = new_after h.added h.new;
}
  where
    new_after : (o : Option Row) → IsNew st st' o → IsNew st (after_reset i st (some (st', r))).0 o
    new_after none n = n
    new_after (some x) n = n

pub reset_instrumental-Next :
    (now i : ℕ) (st : Store) → Next (resets_instrumental now i) st (reset_instrumental now i st).0
unfolding reset_instrumental update_returning
reset_instrumental-Next now i st =
    let c = resets_instrumental now i in
    let o = find (is_resettable i) st.rows in
    after_reset-Next c i st (set_row (is_resettable i) (reset_row now) st o)
      (set_row-Next c (is_resettable i) (reset_row now) st o (reset-IsNext c now i))
