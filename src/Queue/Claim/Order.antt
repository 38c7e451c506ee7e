-- ===== src/Queue/Claim/Order.antt =====
-- Which row `Dequeue` of internal/queue/queue.go claims.
use mxlrcgo_svc.Common.{
  ℕ, ◌+◌, ◌≡◌, refl, sym, ap, subst, ◌∙◌, Bool, true, false, not, ◌&&◌, ◌||◌, none, some, List, [],
  ◌∷◌, ltb, leb, map, ◌==◌, keep, if◌then◌else◌, arith, ◌⊎◌, inl, inr, Bool-cases,
}
use mxlrcgo_svc.Common.Int.{ltb_ℤ, leb_ℤ, pos_part, neg_part}
use mxlrcgo_svc.Queue.{processing, Row, Store, DbQueue, format_time, by_id, update}
use mxlrcgo_svc.Queue.Claim.{is_ready, comes_before, pick, first, claimed, claim, dequeue}

-- A row is in a table.
abbrev pub IsIn : Row → List Row → Type 0
IsIn x [] = ⊥
IsIn x (r ∷ rows) = (x ≡ r) ⊎ IsIn x rows

keep-IsIn :
    (p : Row → Bool) (x : Row) (rows : List Row) → IsIn x rows → p x ≡ true → IsIn x (keep p rows)
keep-IsIn p x [] i h = absurd i
keep-IsIn p x (r ∷ rows) (inl e) h = elim (Bool-cases (p r)) [
  | inl kept ↦ rw kept (inl e)
  | inr cut ↦ absurd (cc)
]
keep-IsIn p x (r ∷ rows) (inr i) h = elim (Bool-cases (p r)) [
  | inl kept ↦ rw kept (inr (keep-IsIn p x rows i h))
  | inr cut ↦ rw cut (keep-IsIn p x rows i h)
]

keep_sound :
    (p : Row → Bool) (x : Row) (rows : List Row) → IsIn x (keep p rows) → IsIn x rows × (p x ≡ true)
keep_sound p x [] h = absurd h
keep_sound p x (r ∷ rows) h = elim (Bool-cases (p r)) [
  | inl kept ↦ elim (subst (λ b. IsIn x (if b then r ∷ keep p rows else keep p rows)) kept h) [
    | inl e ↦ (inl e, ap p e ∙ kept)
    | inr i ↦ (inr (keep_sound p x rows i).0, (keep_sound p x rows i).1)
  ]
  | inr cut ↦
      let i =
        keep_sound p x rows
          (subst (λ b. IsIn x (if b then r ∷ keep p rows else keep p rows)) cut h) in
      (inr i.0, i.1)
]

comes_before_irrefl : (b : Bool) (draw : ℕ → ℕ) (r : Row) → comes_before b draw r r ≡ false
comes_before_irrefl b draw r = ground arith

-- The order's converse is transitive: it is a strict weak order.
ranks_trans :
    (xp xn sp sn rp rn : ℕ) (k l m : Bool)
    → (ltb (sp + xn) (xp + sn) || (not (ltb (xp + sn) (sp + xn)) && k)) ≡ false
    → (ltb (rp + sn) (sp + rn) || (not (ltb (sp + rn) (rp + sn)) && l)) ≡ false
    → (k ≡ true) ⊎ (l ≡ true) ⊎ (m ≡ false)
    → (ltb (rp + xn) (xp + rn) || (not (ltb (xp + rn) (rp + xn)) && m)) ≡ false
ranks_trans xp xn sp sn rp rn k l m hx hs d = ground arith

later_trans :
    (a b c i j k : ℕ)
    → ((ltb a b || ((a == b) && ltb i j)) ≡ true)
      ⊎ ((ltb b c || ((b == c) && ltb j k)) ≡ true)
      ⊎ ((ltb a c || ((a == c) && ltb i k)) ≡ false)
later_trans a b c i j k = ground arith

drawn_trans : (a b c : ℕ) → (ltb a b ≡ true) ⊎ (ltb b c ≡ true) ⊎ (ltb a c ≡ false)
drawn_trans a b c = ground arith

pub comes_before_trans :
    (b : Bool) (draw : ℕ → ℕ) (x s r : Row)
    → comes_before b draw x s ≡ false
    → comes_before b draw s r ≡ false
    → comes_before b draw x r ≡ false
comes_before_trans true draw x s r hx hs =
    ranks_trans (pos_part x.priority) (neg_part x.priority) (pos_part s.priority)
      (neg_part s.priority) (pos_part r.priority) (neg_part r.priority) _ _ _ hx hs
      (drawn_trans (draw x.id) (draw s.id) (draw r.id))
comes_before_trans false draw x s r hx hs =
    ranks_trans (pos_part x.priority) (neg_part x.priority) (pos_part s.priority)
      (neg_part s.priority) (pos_part r.priority) (neg_part r.priority) _ _ _ hx hs
      (later_trans x.created_at s.created_at r.created_at x.id s.id r.id)

pub comes_before_asym :
    (b : Bool) (draw : ℕ → ℕ) (s r : Row)
    → comes_before b draw s r ≡ true
    → comes_before b draw r s ≡ false
comes_before_asym b draw s r h = ground arith

-- A table that has a row has a first one, and none comes before it.
least :
    (b : Bool) (draw : ℕ → ℕ) (r : Row) (rows : List Row)
    → (s : Row) × (first (comes_before b draw) (r ∷ rows) ≡ some s)
      × IsIn s (r ∷ rows)
      × ((x : Row) → IsIn x (r ∷ rows) → comes_before b draw x s ≡ false)
unfolding first
least b draw r [] = (r, refl, inl refl, alone)
  where
    alone : (x : Row) → IsIn x (r ∷ []) → comes_before b draw x r ≡ false
    alone x (inl e) = ap (λ y. comes_before b draw y r) e ∙ comes_before_irrefl b draw r
    alone x (inr i) = absurd i
least b draw r (next ∷ rows) =
    let (s, e, i, l) = least b draw next rows in
    elim (Bool-cases (comes_before b draw s r)) [
      | inl ahead ↦ (s, rw (e, pick) (rw ahead), inr i, below s l ahead)
      | inr behind ↦ (r, rw (e, pick) (rw behind), inl refl, above s l behind)
    ]
  where
    below :
        (s : Row)
        → ((x : Row) → IsIn x (next ∷ rows) → comes_before b draw x s ≡ false)
        → comes_before b draw s r ≡ true
        → (x : Row) → IsIn x (r ∷ next ∷ rows)
        → comes_before b draw x s ≡ false
    below s l ahead x (inl e) =
        ap (λ y. comes_before b draw y s) e ∙ comes_before_asym b draw s r ahead
    below s l ahead x (inr i) = l x i

    above :
        (s : Row)
        → ((x : Row) → IsIn x (next ∷ rows) → comes_before b draw x s ≡ false)
        → comes_before b draw s r ≡ false
        → (x : Row) → IsIn x (r ∷ next ∷ rows)
        → comes_before b draw x r ≡ false
    above s l behind x (inl e) = ap (λ y. comes_before b draw y r) e ∙ comes_before_irrefl b draw r
    above s l behind x (inr i) = comes_before_trans b draw x s r (l x i) behind

first-least :
    (b : Bool) (draw : ℕ → ℕ) (x : Row) (rows : List Row)
    → IsIn x rows
    → (r : Row) × (first (comes_before b draw) rows ≡ some r)
      × IsIn r rows
      × (comes_before b draw x r ≡ false)
first-least b draw x [] i = absurd i
first-least b draw x (r ∷ rows) i = let (s, e, j, l) = least b draw r rows in (s, e, j, l x i)

comes_before-priority :
    (b : Bool) (draw : ℕ → ℕ) (x r : Row)
    → comes_before b draw x r ≡ false
    → leb_ℤ x.priority r.priority ≡ true
comes_before-priority b draw x r h = ground arith

-- The order of service, by itself: r has the higher priority, or the same one and no higher a draw
-- (shuffled), or the same one and an earlier time, or no higher an id at the same time.
abbrev pub is_first : Bool → (ℕ → ℕ) → Row → Row → Bool
is_first shuffled draw r x =
    ltb_ℤ x.priority r.priority
    || (leb_ℤ x.priority r.priority
        && (if shuffled
            then leb (draw r.id) (draw x.id)
            else ltb r.created_at x.created_at || (r.created_at == x.created_at && leb r.id x.id)))

comes_before-first :
    (randomized : Bool) (draw : ℕ → ℕ) (x r : Row)
    → comes_before randomized draw x r ≡ false
    → is_first randomized draw r x ≡ true
comes_before-first true draw x r h = ground arith
comes_before-first false draw x r h = ground arith

-- If any row is ready, `Dequeue` claims one, r: a ready row of the table, served before or along with
-- every ready row x: r has a higher priority than x, or the same one and, with shuffling on, no
-- higher a draw; with it off, r was created before x, or at the same time and has no higher an id.
-- The row comes back with the status processing and is else as it was; in the table the rows with
-- its id get that status, and nothing else changes.
pub dequeue-highest :
    (q : DbQueue) (draw : ℕ → ℕ) (now : ℕ) (st : Store) (x : Row)
    → IsIn x st.rows
    → is_ready (format_time now) x ≡ true
    → (r : Row) × IsIn r st.rows
      × (is_ready (format_time now) r ≡ true)
      × (dequeue q draw now st
          ≡ some (
            record st {
              rows =
                  map (λ y. if y.id == r.id then record y { status = processing } else y) st.rows;
            },
            record r { status = processing },
          ))
      × (leb_ℤ x.priority r.priority ≡ true)
      × (is_first q.randomized draw r x ≡ true)
unfolding dequeue claim
dequeue-highest q draw now st x i h =
    let ready = is_ready (format_time now) in
    let (r, e, j, l) =
      first-least q.randomized draw x (keep ready st.rows) (keep-IsIn ready x st.rows i h) in
    let (k, g) = keep_sound ready r st.rows j in
    (
      r,
      k,
      g,
      ap (claim st) e,
      comes_before-priority q.randomized draw x r l,
      comes_before-first q.randomized draw x r l,
    )

-- `Dequeue` claims nothing, or a ready row of the table.
pub dequeue-cases :
    (q : DbQueue) (draw : ℕ → ℕ) (now : ℕ) (st : Store)
    → (dequeue q draw now st ≡ none)
      ⊎ ((r : Row) × IsIn r st.rows
          × (is_ready (format_time now) r ≡ true)
          × (dequeue q draw now st
              ≡ some (record st { rows = update (by_id r.id) claimed st.rows }, claimed r)))
unfolding dequeue claim first
dequeue-cases q draw now st = by_ready (keep ready st.rows) refl
  where
    ready : Row → Bool
    ready = is_ready (format_time now)

    by_ready :
        (rs : List Row)
        → keep ready st.rows ≡ rs
        → (dequeue q draw now st ≡ none)
          ⊎ ((r : Row) × IsIn r st.rows
              × (is_ready (format_time now) r ≡ true)
              × (dequeue q draw now st
                  ≡ some (record st { rows = update (by_id r.id) claimed st.rows }, claimed r)))
    by_ready [] e = inl (ap (λ rs. claim st (first (comes_before q.randomized draw) rs)) e)
    by_ready (x ∷ rs) e =
        let (r, f, j, l) = least q.randomized draw x rs in
        let (k, g) = keep_sound ready r st.rows (subst (IsIn r) (sym e) j) in
        inr (
          r,
          k,
          g,
          ap (λ rs. claim st (first (comes_before q.randomized draw) rs)) e ∙ ap (claim st) f,
        )
