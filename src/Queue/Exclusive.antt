-- ===== src/Queue/Exclusive.antt =====
-- A claimed row of internal/queue/queue.go has one worker.
use mxlrcgo_svc.Common.{
  ℕ, ◌≡◌, ◌<◌, refl, sym, ap, subst, ◌∙◌, String, true, false, not, ◌||◌, Option, none, some, inl,
  inr, List, [], ◌∷◌, ◌==◌, arith, All, any, ==_iff, Bool-cases,
}
use mxlrcgo_svc.Queue.{
  processing, has_status, Row, Store, DbQueue, format_time, update, by_id, in_status,
}
use mxlrcgo_svc.Queue.Claim.{dequeue, claimed, is_ready}
use mxlrcgo_svc.Queue.Calls.{Call, dequeues, reports_on, store_after, step, run}
use mxlrcgo_svc.Queue.Effects.{IsNext, Follows, ends, adds, keeps, drops, IsNew}
use mxlrcgo_svc.Queue.Diagram.{step-Next}
use mxlrcgo_svc.Queue.Claim.Order.{IsIn, dequeue-cases}
use mxlrcgo_svc.Queue.Sound.{IsSound, step-IsSound}

-- Every row with the id is processing.
abbrev IsHeld : ℕ → Row → Type 0
IsHeld i r = (not (r.id == i) || has_status processing r.status) ≡ true

abbrev IsOther : ℕ → Option Row → Type 0
IsOther i none = Unit
IsOther i (some x) = (x.id == i) ≡ false

next-IsHeld :
    (c : Call) (i : ℕ) (r s : Row) → IsNext c r s → reports_on i c ≡ false → IsHeld i r → IsHeld i s
next-IsHeld c i r s k silent h = elim (Bool-cases (s.id == i)) [
  | inr other ↦ ground arith
  | inl same ↦
      let id_eq : r.id ≡ i = omega (arith, k.same_id, (==_iff s.id i).0 same) in
      let busy : has_status processing r.status ≡ true = ground (arith, (==_iff r.id i).1 id_eq) in
      elim k.held [
        | inl free ↦ absurd (ground arith)
        | inr (inl still) ↦ ground arith
        | inr (inr told) ↦ absurd (ground (arith, ap (λ j. reports_on j c) id_eq))
      ]
]

Follows-IsHeld :
    (c : Call) (i : ℕ) {o : Option Row} {rows after : List Row}
    → Follows c o rows after
    → reports_on i c ≡ false
    → IsOther i o
    → All (IsHeld i) rows
    → All (IsHeld i) after × (any (by_id i) after ≡ any (by_id i) rows)
Follows-IsHeld c i ends silent n h = (tt, refl)
Follows-IsHeld c i adds silent n h = ((ground arith, tt), ground arith)
Follows-IsHeld c i (keeps {r = r} {s = s} k f) silent n h =
    let ih = Follows-IsHeld c i f silent n h.1 in
    ((next-IsHeld c i r s k silent h.0, ih.0), ground (arith, ih.1, k.same_id))
Follows-IsHeld c i (drops {r = r} d f) silent n h =
    let ih = Follows-IsHeld c i f silent n h.1 in (ih.0, ground (arith, ih.1, h.0, d))

claimed-IsHeld : (i : ℕ) (rows : List Row) → All (IsHeld i) (update (by_id i) claimed rows)
claimed-IsHeld i [] = tt
claimed-IsHeld i (r ∷ rows) = (ground arith, claimed-IsHeld i rows)

claimed-any :
    (r : Row) (rows : List Row)
    → IsIn r rows
    → any (by_id r.id) (update (by_id r.id) claimed rows) ≡ true
claimed-any r [] i = absurd i
claimed-any r (x ∷ rows) (inl e) = ground (arith, ap (λ y. y.id) e)
claimed-any r (x ∷ rows) (inr i) = ground (arith, claimed-any r rows i)

held-other :
    (i now : ℕ) (s : Row) (rows : List Row)
    → IsIn s rows
    → All (IsHeld i) rows
    → is_ready now s ≡ true
    → (s.id == i) ≡ false
held-other i now s [] k h ready = absurd k
held-other i now s (x ∷ rows) (inl e) h ready =
    let held : IsHeld i s = subst (IsHeld i) (sym e) h.0 in ground arith
held-other i now s (x ∷ rows) (inr k) h ready = held-other i now s rows k h.1 ready

held-processing :
    (i : ℕ) (rows : List Row)
    → All (IsHeld i) rows
    → any (by_id i) rows ≡ true
    → any (in_status i processing) rows ≡ true
held-processing i [] h a = a
held-processing i (r ∷ rows) h a = ground (arith, held-processing i rows h.1)

record IsClaimed (i : ℕ) (st : Store) : Type 0 where
  sound : IsSound st
  held : All (IsHeld i) st.rows
  present : any (by_id i) st.rows ≡ true
  below : i < st.next_id

new-IsOther :
    (i : ℕ) (st after : Store) (o : Option Row)
    → IsNew st after o
    → i < st.next_id
    → IsOther i o × (i < after.next_id)
new-IsOther i st after none n l = (tt, omega (arith, n))
new-IsOther i st after (some x) n l = (ground (arith, n.1), omega (arith, n.2))

IsIn-below : (r : Row) (n : ℕ) (rows : List Row) → IsIn r rows → All (λ x. x.id < n) rows → r.id < n
IsIn-below r n [] i h = absurd i
IsIn-below r n (x ∷ rows) (inl e) h = subst (λ y. y.id < n) (sym e) h.0
IsIn-below r n (x ∷ rows) (inr i) h = IsIn-below r n rows i h.1

abbrev id_after : Option (Store × Row) → ℕ
id_after none = 0
id_after (some (st, r)) = r.id

module _ (normalize_key : String → String) (q : DbQueue) where
  step-IsClaimed :
      (i : ℕ) (st : Store) (c : Call)
      → reports_on i c ≡ false
      → IsClaimed i st
      → IsClaimed i (step normalize_key q st c)
  step-IsClaimed i st c silent k =
      let n = step-Next normalize_key q st c k.sound.ids in
      let (other, low) = new-IsOther i st (step normalize_key q st c) n.added n.new k.below in
      let (held, same) = Follows-IsHeld c i n.rows silent other k.held in
      record {
        sound = step-IsSound normalize_key q st c k.sound;
        held = held;
        present = same ∙ k.present;
        below = low;
      }

  run-IsClaimed :
      (i : ℕ) (st : Store) (cs : List Call)
      → All (λ c. reports_on i c ≡ false) cs
      → IsClaimed i st
      → IsClaimed i (run normalize_key q st cs)
  unfolding run
  run-IsClaimed i st [] silent k = k
  run-IsClaimed i st (c ∷ cs) silent k =
      run-IsClaimed i (step normalize_key q st c) cs silent.1 (step-IsClaimed i st c silent.0 k)

  dequeue-IsClaimed :
      (draw : ℕ → ℕ) (now : ℕ) (st st' : Store) (r : Row)
      → IsSound st
      → dequeue q draw now st ≡ some (st', r)
      → IsClaimed r.id st'
  unfolding step
  dequeue-IsClaimed draw now st st' r s e = elim (dequeue-cases q draw now st) [
    | inl idle ↦ absurd (cc)
    | inr (x, i, ready, f) ↦
        let sound =
          subst (λ o. IsSound (store_after st o)) f
            (step-IsSound normalize_key q st (dequeues draw now) s) in
        let claim : IsClaimed x.id (record st { rows = update (by_id x.id) claimed st.rows }) =
          record {
            sound = sound;
            held = claimed-IsHeld x.id st.rows;
            present = claimed-any x st.rows i;
            below = IsIn-below x st.next_id st.rows i s.below;
          } in
        subst (λ o. IsClaimed (id_after o) (store_after st o)) (sym f ∙ e) claim
  ]

  dequeue-other :
      (i : ℕ) (draw : ℕ → ℕ) (now : ℕ) (st st' : Store) (s : Row)
      → IsClaimed i st
      → dequeue q draw now st ≡ some (st', s)
      → (s.id == i) ≡ false
  dequeue-other i draw now st st' s k e = elim (dequeue-cases q draw now st) [
    | inl idle ↦ absurd (cc)
    | inr (x, j, ready, f) ↦
        subst (λ o. (id_after o == i) ≡ false) (sym f ∙ e)
          (held-other i (format_time now) x st.rows j k.held ready)
  ]

  -- A claimed row has one worker. After a dequeue has handed out `r`, whatever calls follow (enqueues
  -- of the same track, dequeues by other workers, clean-ups, re-checks, retries, reports on other
  -- rows), as long as none reports on `r`: the row is still in the table and processing, and a
  -- further dequeue hands out another row.
  pub run-exclusive :
      (st st' st'' : Store) (draw draw' : ℕ → ℕ) (now now' : ℕ) (r s : Row) (cs : List Call)
      → IsSound st
      → dequeue q draw now st ≡ some (st', r)
      → All (λ c. reports_on r.id c ≡ false) cs
      → dequeue q draw' now' (run normalize_key q st' cs) ≡ some (st'', s)
      → ((s.id == r.id) ≡ false)
        × (any (in_status r.id processing) (run normalize_key q st' cs).rows ≡ true)
  run-exclusive st st' st'' draw draw' now now' r s cs sound e silent f =
      let k = run-IsClaimed r.id st' cs silent (dequeue-IsClaimed draw now st st' r sound e) in
      (
        dequeue-other r.id draw' now' (run normalize_key q st' cs) st'' s k f,
        held-processing r.id (run normalize_key q st' cs).rows k.held k.present,
      )
