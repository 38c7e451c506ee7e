-- ===== src/Queue/Lookup.antt =====
-- The row that a lookup finds in a table of internal/queue/queue.go, behind an update or an insertion.
use mathlib.Core.Option
use mxlrcgo_svc.Common.{
  ℕ, ◌≡◌, sym, ap, ◌∙◌, Bool, true, Option, none, some, inl, inr, List, [], ◌∷◌, ◌++◌, ◌==◌,
  if◌then◌else◌, arith, Bool-cases,
}
use mxlrcgo_svc.Queue.{Status, has_status, Row, update, find, by_id, in_status}

pub find-update :
    (k p : Row → Bool) (f : Row → Row) (rows : List Row) (r : Row)
    → ((x : Row) → k (f x) ≡ k x)
    → find k rows ≡ some r
    → find k (update p f rows) ≡ some (if p r then f r else r)
find-update k p f [] r h e = absurd (cc)
find-update k p f (x ∷ rows) r h e =
    let after : Row → Row = (λ y. if p y then f y else y) in
    let same : k (after x) ≡ k x = elim (Bool-cases (p x)) [
      | inl met ↦ rw met (h x)
      | inr unmet ↦ rw unmet
    ] in
    elim (Bool-cases (k x)) [
      | inl here ↦
          rw (same ∙ here)
            (ap (Option.map after) (ap (λ b. if b then some x else find k rows) (sym here) ∙ e))
      | inr there ↦
          rw (same ∙ there) (
            find-update k p f rows r h
              (ap (λ b. if b then some x else find k rows) (sym there) ∙ e))
    ]

abbrev pub passes : (Row → Bool) → Option Row → Bool
passes k none = true
passes k (some r) = k r

pub find_sound : (k : Row → Bool) (rows : List Row) (r : Row) → find k rows ≡ some r → k r ≡ true
find_sound k [] r e = absurd (cc)
find_sound k (x ∷ rows) r e = elim (Bool-cases (k x)) [
  | inl here ↦
      sym (ap (passes k) (ap (λ b. if b then some x else find k rows) (sym here) ∙ e)) ∙ here
  | inr there ↦ find_sound k rows r (ap (λ b. if b then some x else find k rows) (sym there) ∙ e)
]

pub find-append :
    (i : ℕ) (rows : List Row) (r x : Row)
    → find (by_id i) rows ≡ some r
    → find (by_id i) (rows ++ x ∷ []) ≡ some r
find-append i [] r x e = absurd (cc)
find-append i (y ∷ rows) r x e = elim (Bool-cases (y.id == i)) [
  | inl here ↦ rw here (ground arith)
  | inr there ↦ rw there (find-append i rows r x (ground arith))
]

-- The row with an id, if its status is the one asked for, is the row that the guarded lookup finds.
pub find-in_status :
    (i : ℕ) (t : Status) (rows : List Row) (r : Row)
    → find (by_id i) rows ≡ some r
    → has_status t r.status ≡ true
    → find (in_status i t) rows ≡ some r
find-in_status i t [] r e h = absurd (cc)
find-in_status i t (x ∷ rows) r e h = elim (Bool-cases (x.id == i)) [
  | inl here ↦
      let same : some x ≡ some r =
        ap (λ b. if b then some x else find (by_id i) rows) (sym here) ∙ e in
      let held : has_status t x.status ≡ true = ap (passes (λ y. has_status t y.status)) same ∙ h in
      rw here (rw held same)
  | inr there ↦ rw there (
      find-in_status i t rows r
        (ap (λ b. if b then some x else find (by_id i) rows) (sym there) ∙ e) h)
]

-- The row after a guarded update that it meets.
pub find-updated :
    (i : ℕ) (t : Status) (f : Row → Row) (rows : List Row) (r : Row)
    → ((x : Row) → (f x).id ≡ x.id)
    → find (by_id i) rows ≡ some r
    → has_status t r.status ≡ true
    → find (by_id i) (update (in_status i t) f rows) ≡ some (f r)
find-updated i t f rows r same e h =
    let here : by_id i r ≡ true = find_sound (by_id i) rows r e in
    find-update (by_id i) (in_status i t) f rows r (λ x. ap (λ j. j == i) (same x)) e
    ∙ ap some (rw (here, in_status) (rw h))
