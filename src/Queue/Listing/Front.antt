-- ===== src/Queue/Listing/Front.antt =====
-- `List` and `Dequeue` of internal/queue/queue.go agree on what comes first.
use mxlrcgo_svc.Common.{
  ℕ, ◌≡◌, refl, sym, ap, ◌∙◌, Bool, false, some, inl, inr, List, [], ◌∷◌, keep, if◌then◌else◌,
  arith, All, All-imp, Bool-cases,
}
use mxlrcgo_svc.Common.Int.{pos}
use mxlrcgo_svc.Queue.{Row, Store, DbQueue, format_time, find}
use mxlrcgo_svc.Queue.Claim.{is_ready, comes_before, pick, first, claim, dequeue}
use mxlrcgo_svc.Queue.Claim.Order.{comes_before_trans, comes_before_asym}
use mxlrcgo_svc.Queue.Listing.{insert, sort, is_listed, list_items}

abbrev before : Row → Row → Bool
before = comes_before false (λ i. 0)

-- No row comes before the head.
abbrev IsSorted : List Row → Type 0
IsSorted [] = Unit
IsSorted (r ∷ rows) = All (λ x. before x r ≡ false) rows × IsSorted rows

insert-All :
    (P : Row → Type 0) (r : Row) (rows : List Row) → P r → All P rows → All P (insert r rows)
unfolding insert
insert-All P r [] p h = (p, tt)
insert-All P r (s ∷ rows) p h = elim (Bool-cases (before s r)) [
  | inl ahead ↦ rw ahead (h.0, insert-All P r rows p h.1)
  | inr behind ↦ rw behind (p, h)
]

insert-IsSorted : (r : Row) (rows : List Row) → IsSorted rows → IsSorted (insert r rows)
unfolding insert
insert-IsSorted r [] h = (tt, tt)
insert-IsSorted r (s ∷ rows) h = elim (Bool-cases (before s r)) [
  | inl ahead ↦ rw ahead (
    insert-All (λ x. before x s ≡ false) r rows (comes_before_asym false (λ i. 0) s r ahead) h.0,
    insert-IsSorted r rows h.1,
  )
  | inr behind ↦
      rw behind (
        (behind, All-imp _ _ rows (λ x k. comes_before_trans false (λ i. 0) x s r k behind) h.0),
        h,
      )
]

sort-IsSorted : (rows : List Row) → IsSorted (sort rows)
unfolding sort
sort-IsSorted [] = tt
sort-IsSorted (r ∷ rows) = insert-IsSorted r (sort rows) (sort-IsSorted rows)

-- No row that is found comes before one that no row comes before.
find-behind :
    (p : Row → Bool) (r : Row) (rows : List Row)
    → All (λ x. before x r ≡ false) rows
    → pick before r (find p rows) ≡ some r
find-behind p r [] h = refl
find-behind p r (x ∷ rows) h = elim (Bool-cases (p x)) [
  | inl met ↦ rw met (rw (h.0))
  | inr unmet ↦ rw unmet (find-behind p r rows h.1)
]

find-insert :
    (p : Row → Bool) (r : Row) (rows : List Row)
    → IsSorted rows
    → find p (insert r rows) ≡ (if p r then pick before r (find p rows) else find p rows)
unfolding insert
find-insert p r [] h = ground arith
find-insert p r (s ∷ rows) h = elim (Bool-cases (before s r)) [
  | inl ahead ↦ rw ahead (ground (arith, ahead, find-insert p r rows h.1))
  | inr behind ↦
      let all = All-imp _ _ rows (λ x k. comes_before_trans false (λ i. 0) x s r k behind) h.0 in
      let back = find-behind p r (s ∷ rows) (behind, all) in
      elim (Bool-cases (p r)) [
        | inl met ↦ rw behind (rw met (sym back))
        | inr unmet ↦ rw behind (rw unmet)
      ]
]

find-sort : (p : Row → Bool) (rows : List Row) → find p (sort rows) ≡ first before (keep p rows)
unfolding sort first
find-sort p [] = refl
find-sort p (r ∷ rows) =
    let ih = find-sort p rows in
    let step = find-insert p r (sort rows) (sort-IsSorted rows) in
    elim (Bool-cases (p r)) [
      | inl met ↦
          step
          ∙ ap (λ b. if b then pick before r (find p (sort rows)) else find p (sort rows)) met
          ∙ ap (pick before r) ih
          ∙ sym (ap (λ b. first before (if b then r ∷ keep p rows else keep p rows)) met)
      | inr unmet ↦
          step
          ∙ ap (λ b. if b then pick before r (find p (sort rows)) else find p (sort rows)) unmet
          ∙ ih
          ∙ sym (ap (λ b. first before (if b then r ∷ keep p rows else keep p rows)) unmet)
    ]

keep-all : (rows : List Row) → keep (is_listed "") rows ≡ rows
keep-all [] = refl
keep-all (r ∷ rows) = ap (λ rest. r ∷ rest) (keep-all rows)

-- The listing shows the order of work. Without shuffling, what `Dequeue` claims is the first row of
-- the unfiltered, unlimited `List` that is ready, and it claims nothing if none is.
pub list-dequeue :
    (q : DbQueue) (draw : ℕ → ℕ) (now : ℕ) (st : Store)
    → q.randomized ≡ false
    → dequeue q draw now st
      ≡ claim st (
          find (is_ready (format_time now)) (list_items (record { status = ""; limit = pos 0 }) st))
unfolding dequeue list_items
list-dequeue q draw now st h =
    let ready = is_ready (format_time now) in
    ap (λ b. claim st (first (comes_before b draw) (keep ready st.rows))) h
    ∙ ap (claim st) (sym (find-sort ready st.rows))
    ∙ ap (λ rows. claim st (find ready (sort rows))) (sym (keep-all st.rows))
