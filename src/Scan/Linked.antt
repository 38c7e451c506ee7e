-- ===== src/Scan/Linked.antt =====
-- The loop of internal/scan/enqueuer.go and the links of the work queue: what a result that is
-- being processed has in the queue.
use mxlrcgo_svc.Common.{
  ℕ, suc, ◌≡◌, refl, sym, ap, ◌∙◌, subst, String, Bool, true, false, not, ◌&&◌, ◌||◌, Option, none,
  some, inl, inr, List, [], ◌∷◌, ◌++◌, ◌==◌, ltb, any, All, All-imp, if◌then◌else◌, arith,
  Bool-cases, ==_iff,
}
use mxlrcgo_svc.Queue.{Status, processing, has_status, ScanRow, Store, Row, update, find, by_id}
use mxlrcgo_svc.Queue.Enqueue.{upsert, refresh, link, has_key}
use mxlrcgo_svc.Scan.{set_status}

module _ {ℓ} {A : Type ℓ} where
  pub any-imp :
      (p q : A → Bool) (xs : List A)
      → ((x : A) → p x ≡ true → q x ≡ true)
      → any p xs ≡ true
      → any q xs ≡ true
  any-imp p q [] f h = h
  any-imp p q (x ∷ xs) f h = elim (Bool-cases (p x)) [
    | inl met ↦ rw (f x met) refl
    | inr unmet ↦ ground (arith, unmet, h, any-imp p q xs f)
  ]

  pub All-update :
      (P : A → Type 0) (Q : A → Type 0) (p : A → Bool) (f : A → A) (xs : List A)
      → ((x : A) → P x → Q (if p x then f x else x))
      → All P xs
      → All Q (update p f xs)
  All-update P Q p f [] step h = tt
  All-update P Q p f (x ∷ xs) step (h, hs) = (step x h, All-update P Q p f xs step hs)

-- The result is linked to a row of the queue.
abbrev pub linked : Store → ℕ → Bool
linked st i = any (λ l. (l.1 == i) && any (by_id l.0) st.rows) st.links

-- Nothing is processing that the queue does not know of.
abbrev pub IsAccounted : Store → Type 0
IsAccounted st = All (λ s. (not (has_status processing s.status) || linked st s.id) ≡ true) st.scans

-- The same but for one result.
abbrev pub IsAccountedBut : ℕ → Store → Type 0
IsAccountedBut i st =
    All (λ s. ((s.id == i) || (not (has_status processing s.status) || linked st s.id)) ≡ true)
      st.scans

pub or_true : (a b : Bool) → b ≡ true → (a || b) ≡ true
or_true true b h = refl
or_true false b h = h

pub IsAccounted-IsAccountedBut : (i : ℕ) (st : Store) → IsAccounted st → IsAccountedBut i st
IsAccounted-IsAccountedBut i st h = All-imp _ _ st.scans (λ s k. or_true (s.id == i) _ k) h

pub reserved-IsAccountedBut :
    (fault : Option String) (i : ℕ) (status : Status) (st : Store)
    → IsAccounted st
    → IsAccountedBut i (set_status fault i status st).0
unfolding set_status
reserved-IsAccountedBut (some m) i status st h = IsAccounted-IsAccountedBut i st h
reserved-IsAccountedBut none i status st h =
    All-update _ _ (λ s. s.id == i) _ st.scans
      (λ s k. elim (Bool-cases (s.id == i)) [
        | inl here ↦ rw here (rw here refl)
        | inr there ↦
            rw there
              (or_true (s.id == i) (not (has_status processing s.status) || linked st s.id) k)
      ])
      h

pub settled-IsAccounted :
    (i : ℕ) (status : Status) (st : Store)
    → has_status processing status ≡ false
    → IsAccountedBut i st
    → IsAccounted (set_status none i status st).0
unfolding set_status
settled-IsAccounted i status st off h =
    All-update _ _ (λ s. s.id == i) _ st.scans
      (λ s k. elim (Bool-cases (s.id == i)) [
        | inl here ↦ rw here (rw off refl)
        | inr there ↦ rw there (
            subst (λ b. (b || (not (has_status processing s.status) || linked st s.id)) ≡ true)
              there k)
      ])
      h

-- What an enqueue keeps: ids in the table, and the pairs of the links.
row-kept :
    (j : ℕ) (k : Row → Bool) (new : Row) (rows : List Row)
    → any (by_id j) rows ≡ true
    → any (by_id j) (update k (refresh new) rows) ≡ true
row-kept j k new [] h = h
row-kept j k new (x ∷ rows) h =
    let same : by_id j (if k x then refresh new x else x) ≡ by_id j x = elim (Bool-cases (k x)) [
      | inl met ↦ rw met (unfold refresh in refl)
      | inr unmet ↦ rw unmet refl
    ] in
    elim (Bool-cases (by_id j x)) [
      | inl here ↦ rw (same ∙ here) refl
      | inr there ↦
          rw (same ∙ there)
            (row-kept j k new rows (subst (λ b. (b || any (by_id j) rows) ≡ true) there h))
    ]

row-added :
    (j : ℕ) (new : Row) (rows : List Row)
    → any (by_id j) rows ≡ true
    → any (by_id j) (rows ++ new ∷ []) ≡ true
row-added j new [] h = absurd (cc)
row-added j new (x ∷ rows) h = ground (arith, h, row-added j new rows)

row-new : (new : Row) (rows : List Row) → any (by_id new.id) (rows ++ new ∷ []) ≡ true
row-new new [] = ground arith
row-new new (x ∷ rows) = ground (arith, row-new new rows)

link-kept :
    (p : ℕ × ℕ → Bool) (i scan : ℕ) (links : List (ℕ × ℕ))
    → any p links ≡ true
    → any p (link i scan links) ≡ true
link-kept p i scan links h = ground (arith, h)

link-made :
    (i scan : ℕ) (links : List (ℕ × ℕ))
    → ltb 0 scan ≡ true
    → any (λ l. (l.0 == i) && (l.1 == scan)) (link i scan links) ≡ true
link-made i scan links h = ground (arith, h)

found-any :
    (k : Row → Bool) (rows : List Row) (old : Row)
    → find k rows ≡ some old
    → any (by_id old.id) rows ≡ true
found-any k [] old e = absurd (cc)
found-any k (x ∷ rows) old e = elim (Bool-cases (k x)) [
  | inl here ↦
      let same : some x ≡ some old = ap (λ b. if b then some x else find k rows) (sym here) ∙ e in
      subst (λ (o : Option Row). any (by_id (or_row old o).id) (x ∷ rows) ≡ true) same
        (ground arith)
  | inr there ↦
      or_true (by_id old.id x) _
        (found-any k rows old (ap (λ b. if b then some x else find k rows) (sym there) ∙ e))
]
  where
    or_row : Row → Option Row → Row
    or_row r none = r
    or_row r (some x) = x

-- An enqueue for the result `i`, by the rows that it leaves and the row that it links.
queued-IsAccounted :
    (i id next : ℕ) (rows : List Row) (st : Store)
    → ltb 0 i ≡ true
    → any (by_id id) rows ≡ true
    → ((j : ℕ) → any (by_id j) st.rows ≡ true → any (by_id j) rows ≡ true)
    → IsAccountedBut i st
    → IsAccounted (record st { rows = rows; next_id = next; links = link id i st.links })
queued-IsAccounted i id next rows st positive here kept h =
    All-imp _ _ st.scans
      (λ s k. elim (Bool-cases (s.id == i)) [
        | inl same ↦
            or_true (not (has_status processing s.status)) (linked st' s.id)
              (subst (λ j. linked st' j ≡ true) (sym ((==_iff s.id i).0 same)) made)
        | inr other ↦ still s (
            subst (λ b. (b || (not (has_status processing s.status) || linked st s.id)) ≡ true)
              other k)
      ])
      h
  where
    st' : Store
    st' = record st { rows = rows; next_id = next; links = link id i st.links }

    made : linked st' i ≡ true
    made =
        any-imp _ _ (link id i st.links) (λ l m. ground (arith, m, entry l))
          (link-made id i st.links positive)
      where
        entry : (l : ℕ × ℕ) → (l.0 == id) ≡ true → any (by_id l.0) rows ≡ true
        entry l m = subst (λ j. any (by_id j) rows ≡ true) (sym ((==_iff l.0 id).0 m)) here

    linked_still : (j : ℕ) → linked st j ≡ true → linked st' j ≡ true
    linked_still j m =
        link-kept _ id i st.links (any-imp _ _ st.links (λ l n. ground (arith, n, kept l.0)) m)

    still :
        (s : ScanRow)
        → (not (has_status processing s.status) || linked st s.id) ≡ true
        → (not (has_status processing s.status) || linked st' s.id) ≡ true
    still s k = elim (Bool-cases (linked st s.id)) [
      | inl m ↦ or_true (not (has_status processing s.status)) _ (linked_still s.id m)
      | inr m ↦ ground (arith, k, m)
    ]

pub upsert-IsAccounted :
    (new : Row) (i : ℕ) (st : Store)
    → ltb 0 i ≡ true
    → IsAccountedBut i st
    → (o : Option Row) → find (has_key new.artist_key new.title_key) st.rows ≡ o
    → IsAccounted (upsert new i st o).0
unfolding upsert
upsert-IsAccounted new i st positive h none e =
    queued-IsAccounted i new.id (suc st.next_id) (st.rows ++ new ∷ []) st positive
      (row-new new st.rows) (λ j. row-added j new st.rows) h
upsert-IsAccounted new i st positive h (some old) e =
    let k = has_key new.artist_key new.title_key in
    queued-IsAccounted i old.id st.next_id (update k (refresh new) st.rows) st positive
      (row-kept old.id k new st.rows (found-any k st.rows old e)) (λ j. row-kept j k new st.rows) h
