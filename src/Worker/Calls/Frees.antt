-- ===== src/Worker/Calls/Frees.antt =====
-- A report frees a row of internal/queue/queue.go: behind it no worker holds the row.
use mxlrcgo_svc.Common.{
  ℕ, ◌≡◌, refl, sym, subst, String, Bool, true, false, Option, none, some, inl, inr, List, [], ◌∷◌,
  ◌==◌, ==_iff, arith, All, Bool-cases, any, is_some,
}
use mxlrcgo_svc.Queue.{
  processing, has_status, Row, Store, DbQueue, update, find, by_id, in_status, set_row,
  update_returning,
}
use mxlrcgo_svc.Queue.Results.{
  complete, completed_row, release, released_row, fail, failed_row, defer_miss, deferred_row,
  retire_miss, retired_row, finished,
}
use mxlrcgo_svc.Queue.Calls.{
  Call, completes, releases, fails, defers, retires, reports_on, store_after, step,
}

-- No worker holds the row.
abbrev pub NotHeld : ℕ → List Row → Type 0
NotHeld i rows = All (λ x. in_status i processing x ≡ false) rows

-- A worker holds the row.
abbrev pub Held : ℕ → List Row → Type 0
Held i rows = any (in_status i processing) rows ≡ true

find-any : (p : Row → Bool) (rows : List Row) → any p rows ≡ true → is_some (find p rows) ≡ true
find-any p [] h = h
find-any p (r ∷ rows) h = elim (Bool-cases (p r)) [
  | inl met ↦ rw met
  | inr unmet ↦ rw unmet (find-any p rows (ground (arith, h, unmet)))
]

set_row-some :
    (i : ℕ) (p : Row → Bool) (f : Row → Row) (st : Store) (o : Option Row)
    → is_some o ≡ true
    → (is_some (set_row p f st o) ≡ true) × (is_some (finished i (set_row p f st o)) ≡ true)
set_row-some i p f st none h = (h, h)
set_row-some i p f st (some r) h = (refl, refl)

-- A report on a row that is held finds it.
pub Held-found :
    (i : ℕ) (f : Row → Row) (st : Store)
    → Held i st.rows
    → (is_some (update_returning (in_status i processing) f st) ≡ true)
      × (is_some (finished i (update_returning (in_status i processing) f st)) ≡ true)
unfolding update_returning
Held-found i f st h =
    set_row-some i (in_status i processing) f st (find (in_status i processing) st.rows)
      (find-any (in_status i processing) st.rows h)

-- A stamp lets a row be held.
pub stamp-Held :
    (i j : ℕ) (f : Row → Row) (rows : List Row)
    → ((r : Row) → ((f r).id ≡ r.id) × ((f r).status ≡ r.status))
    → Held i rows
    → Held i (update (by_id j) f rows)
stamp-Held i j f [] h k = k
stamp-Held i j f (r ∷ rows) h k = elim (Bool-cases (in_status i processing r)) [
  | inl held ↦ elim (Bool-cases (by_id j r)) [
    | inl met ↦ ground (arith, h r, met, held)
    | inr unmet ↦ ground (arith, unmet, held)
  ]
  | inr other ↦ let ih = stamp-Held i j f rows h (ground (arith, k, other)) in ground (arith, ih)
]

find-none : (p : Row → Bool) (rows : List Row) → find p rows ≡ none → All (λ x. p x ≡ false) rows
find-none p [] h = tt
find-none p (r ∷ rows) h = elim (Bool-cases (p r)) [
  | inl met ↦ absurd (ground (arith, h, met))
  | inr unmet ↦ (unmet, find-none p rows (ground (arith, h, unmet)))
]

update-NotHeld :
    (i : ℕ) (f : Row → Row) (rows : List Row)
    → ((r : Row) → has_status processing (f r).status ≡ false)
    → NotHeld i (update (in_status i processing) f rows)
update-NotHeld i f [] h = tt
update-NotHeld i f (r ∷ rows) h = elim (Bool-cases (in_status i processing r)) [
  | inl met ↦ rw met (ground (arith, h r), update-NotHeld i f rows h)
  | inr unmet ↦ rw unmet (unmet, update-NotHeld i f rows h)
]

-- A transaction that finishes the linked scan results, or a statement that does not.
updated-NotHeld :
    (i j : ℕ) (f : Row → Row) (st : Store) (o : Option Row)
    → (i == j) ≡ true
    → find (in_status j processing) st.rows ≡ o
    → ((r : Row) → has_status processing (f r).status ≡ false)
    → NotHeld i (store_after st (set_row (in_status j processing) f st o)).rows
      × NotHeld i (store_after st (finished j (set_row (in_status j processing) f st o))).rows
updated-NotHeld i j f st none same e h =
    let free =
      subst (λ k. NotHeld k st.rows) (sym ((==_iff i j).0 same))
        (find-none (in_status j processing) st.rows e) in
    (free, free)
updated-NotHeld i j f st (some r) same e h =
    let free =
      subst (λ k. NotHeld k (update (in_status j processing) f st.rows)) (sym ((==_iff i j).0 same))
        (update-NotHeld j f st.rows h) in
    (free, free)

module _ (normalize_key : String → String) (q : DbQueue) where
  pub report-NotHeld :
      (i : ℕ) (st : Store) (c : Call)
      → reports_on i c ≡ true
      → NotHeld i (step normalize_key q st c).rows
  unfolding step complete release fail defer_miss retire_miss update_returning
  report-NotHeld i st (completes now j) h =
      (updated-NotHeld i j (completed_row now) st _ h refl (λ r. refl)).1
  report-NotHeld i st (releases j) h = (updated-NotHeld i j released_row st _ h refl (λ r. refl)).0
  report-NotHeld i st (fails now j cause) h =
      (updated-NotHeld i j (failed_row q now cause) st _ h refl (λ r. refl)).0
  report-NotHeld i st (defers now j after cause) h =
      (updated-NotHeld i j (deferred_row now after cause) st _ h refl (λ r. refl)).0
  report-NotHeld i st (retires now j) h =
      (updated-NotHeld i j (retired_row now) st _ h refl (λ r. refl)).1
  report-NotHeld i st _ h = absurd (cc)
