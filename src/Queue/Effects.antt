-- ===== src/Queue/Effects.antt =====
-- What a call does to the rows of internal/queue/queue.go: it updates them one by one, removes some,
-- or adds one. Everything that is said of all calls rests on this.
use mxlrcgo_svc.Common.{
  ℕ, suc, ◌≡◌, refl, sym, ap, subst, Bool, true, false, Option, none, some, ◌⊎◌, inl, inr, List, [],
  ◌∷◌, ◌++◌, ◌==◌, keep, arith, All, Bool-cases, ==_iff,
}
use mxlrcgo_svc.Queue.{
  Status, pending, processing, done, failed, deferred, has_status, Row, Store, update, by_id,
  set_row,
}
use mxlrcgo_svc.Queue.Enqueue.{has_key}
use mxlrcgo_svc.Queue.Claim.Order.{IsIn}
use mxlrcgo_svc.Queue.Calls.{Call, reports_on, store_after}

-- The moves of a row's status.
pub data Move : Status → Status → Type 0 where
  stays : {s : Status} → Move s s
  claims_pending : Move pending processing
  claims_failed : Move failed processing
  claims_deferred : Move deferred processing
  finishes : Move processing done
  releases_it : Move processing pending
  fails_it : Move processing failed
  defers_it : Move processing deferred
  revives : Move done deferred
  retries_it : Move failed pending

-- A row before and after: the same row, by a move of the diagram; a processing row moves only if
-- the call reports on it.
pub record IsNext (c : Call) (r s : Row) : Type 0 where
  pub same_id : s.id ≡ r.id
  pub same_artist : s.artist_key ≡ r.artist_key
  pub same_title : s.title_key ≡ r.title_key
  pub moved : Move r.status s.status
  pub held :
      (has_status processing r.status ≡ false)
      ⊎ (has_status processing s.status ≡ true)
      ⊎ (reports_on r.id c ≡ true)

-- The table before and after, with the row that is added at its end, if any. Only a row that no
-- worker holds goes.
pub data Follows (c : Call) : Option Row → List Row → List Row → Type 0 where
  ends : Follows c none [] []
  adds : {r : Row} → Follows c (some r) [] (r ∷ [])
  keeps :
      {o : Option Row} {r s : Row} {rows after : List Row}
      → IsNext c r s
      → Follows c o rows after
      → Follows c o (r ∷ rows) (s ∷ after)
  drops :
      {o : Option Row} {r : Row} {rows after : List Row}
      → has_status processing r.status ≡ false
      → Follows c o rows after
      → Follows c o (r ∷ rows) after

abbrev pub HasNoKey : Row → List Row → Type 0
HasNoKey r rows = All (λ x. has_key r.artist_key r.title_key x ≡ false) rows

-- A row that is added is pending, under the next id, with keys that no row has.
abbrev pub IsNew : Store → Store → Option Row → Type 0
IsNew st after none = after.next_id ≡ st.next_id
IsNew st after (some r) =
    (r.status ≡ pending)
    × (r.id ≡ st.next_id)
    × (after.next_id ≡ suc st.next_id)
    × HasNoKey r st.rows

-- The tables before and after a call.
pub record Next (c : Call) (st after : Store) : Type 0 where
  pub added : Option Row
  pub rows : Follows c added st.rows after.rows
  pub new : IsNew st after added

pub stay : (c : Call) (r : Row) → IsNext c r r
stay c r = record {
  same_id = refl;
  same_artist = refl;
  same_title = refl;
  moved = stays;
  held = elim (Bool-cases (has_status processing r.status)) [
    | inl busy ↦ inr (inl busy)
    | inr free ↦ inl free
  ];
}

pub same-Follows : (c : Call) (rows : List Row) → Follows c none rows rows
same-Follows c [] = ends
same-Follows c (r ∷ rows) = keeps (stay c r) (same-Follows c rows)

pub append-Follows :
    (c : Call) (rows : List Row) (r : Row) → Follows c (some r) rows (rows ++ r ∷ [])
append-Follows c [] r = adds
append-Follows c (x ∷ rows) r = keeps (stay c x) (append-Follows c rows r)

pub update-Follows :
    (c : Call) (p : Row → Bool) (f : Row → Row) (rows : List Row)
    → ((r : Row) → p r ≡ true → IsNext c r (f r))
    → Follows c none rows (update p f rows)
update-Follows c p f [] h = ends
update-Follows c p f (r ∷ rows) h = elim (Bool-cases (p r)) [
  | inl met ↦ rw met (keeps (h r met) (update-Follows c p f rows h))
  | inr unmet ↦ rw unmet (keeps (stay c r) (update-Follows c p f rows h))
]

pub keep-Follows :
    (c : Call) (p : Row → Bool) (rows : List Row)
    → ((r : Row) → p r ≡ false → has_status processing r.status ≡ false)
    → Follows c none rows (keep p rows)
keep-Follows c p [] h = ends
keep-Follows c p (r ∷ rows) h = elim (Bool-cases (p r)) [
  | inl stays_in ↦ rw stays_in (keeps (stay c r) (keep-Follows c p rows h))
  | inr goes ↦ rw goes (drops (h r goes) (keep-Follows c p rows h))
]

pub has_status_eq : (s t : Status) → has_status s t ≡ true → s ≡ t
has_status_eq s t h = ground arith

pub same-Next : (c : Call) (st : Store) → Next c st st
same-Next c st = record { added = none; rows = same-Follows c st.rows; new = refl }

pub set_row-Next :
    (c : Call) (p : Row → Bool) (f : Row → Row) (st : Store) (o : Option Row)
    → ((r : Row) → p r ≡ true → IsNext c r (f r))
    → Next c st (store_after st (set_row p f st o))
set_row-Next c p f st none h = same-Next c st
set_row-Next c p f st (some r) h = record {
  added = none;
  rows = update-Follows c p f st.rows h;
  new = refl;
}

abbrev pub HasNoId : ℕ → List Row → Type 0
HasNoId i rows = All (λ r. (r.id == i) ≡ false) rows

-- No row clashes with a later one.
abbrev pub Unique : (Row → Row → Bool) → List Row → Type 0
Unique clash [] = Unit
Unique clash (r ∷ rows) = All (λ x. clash r x ≡ false) rows × Unique clash rows

-- The primary key, and the unique index on the normalised keys.
abbrev pub UniqueIds : List Row → Type 0
UniqueIds rows = Unique (λ r x. x.id == r.id) rows

abbrev pub UniqueKeys : List Row → Type 0
UniqueKeys rows = Unique (λ r x. has_key r.artist_key r.title_key x) rows

update-none :
    (c : Call) (i : ℕ) (f : Row → Row) (rows : List Row)
    → HasNoId i rows
    → Follows c none rows (update (by_id i) f rows)
update-none c i f [] h = ends
update-none c i f (r ∷ rows) h = rw (h.0) (keeps (stay c r) (update-none c i f rows h.1))

has_other_id :
    (i : ℕ) (r : Row) (rows : List Row) → HasNoId i rows → IsIn r rows → (i == r.id) ≡ false
has_other_id i r [] h e = absurd e
has_other_id i r (x ∷ rows) h (inl e) = ground (arith, ap (λ y. y.id) e, h.0)
has_other_id i r (x ∷ rows) h (inr e) = has_other_id i r rows h.1 e

-- An update by the id of a row changes that row alone.
pub update_row-Follows :
    (c : Call) (f : Row → Row) (r : Row) (rows : List Row)
    → UniqueIds rows
    → IsIn r rows
    → IsNext c r (f r)
    → Follows c none rows (update (by_id r.id) f rows)
update_row-Follows c f r [] u i h = absurd i
update_row-Follows c f r (x ∷ rows) u (inl e) h =
    let itself : (r.id == r.id) ≡ true = (==_iff r.id r.id).1 refl in
    let others : HasNoId r.id rows = subst (λ y. HasNoId y.id rows) (sym e) u.0 in
    subst (λ y. Follows c none (y ∷ rows) (update (by_id r.id) f (y ∷ rows))) e
      (rw itself (keeps h (update-none c r.id f rows others)))
update_row-Follows c f r (x ∷ rows) u (inr i) h =
    rw (has_other_id x.id r rows u.0 i) (keeps (stay c x) (update_row-Follows c f r rows u.1 i h))
