-- ===== src/Queue/Cooldown.antt =====
-- How enqueues treat a row of internal/queue/queue.go that waits for its next attempt.
use mxlrcgo_svc.Common.{
  ℕ, ◌≡◌, refl, sym, ap, subst, ◌∙◌, String, true, false, ◌||◌, Option, none, some, ◌⊎◌, inl, inr,
  List, [], ◌∷◌, if◌then◌else◌, arith, All, Bool-cases,
}
use mxlrcgo_svc.Common.Int.{ℤ, leb_ℤ}
use mxlrcgo_svc.Models.{Inputs}
use mxlrcgo_svc.Queue.{failed, deferred, has_status, Row, Store, DbQueue, format_time, find, by_id}
use mxlrcgo_svc.Queue.Enqueue.{enqueue, refresh, has_key, excluded}
use mxlrcgo_svc.Queue.Claim.{is_ready}
use mxlrcgo_svc.Queue.{priority_webhook}
use mxlrcgo_svc.Queue.Enqueue.{upsert}
use mxlrcgo_svc.Queue.Lookup.{find-update, find_sound, find-append}

-- A row that waits is as it was, apart from the columns that an enqueue refreshes; a failed row's
-- priority may rise.
pub record IsWaiting (r s : Row) : Type 0 where
  pub same_id : s.id ≡ r.id
  pub same_status : s.status ≡ r.status
  pub same_wait : s.next_attempt_at ≡ r.next_attempt_at
  pub same_counts : (s.attempts ≡ r.attempts) × (s.miss_count ≡ r.miss_count)
  pub same_priority : (has_status failed r.status ≡ true) ⊎ (s.priority ≡ r.priority)

waits_on : (r : Row) → IsWaiting r r
waits_on r = record {
  same_id = refl;
  same_status = refl;
  same_wait = refl;
  same_counts = (refl, refl);
  same_priority = inr refl;
}

refresh-IsWaiting :
    (new r : Row)
    → (has_status deferred r.status || has_status failed r.status) ≡ true
    → leb_ℤ priority_webhook new.priority ≡ false
    → IsWaiting r (refresh new r)
unfolding refresh
refresh-IsWaiting new r w h = record {
  same_id = refl;
  same_status = refl;
  same_wait = ground (arith, w, h);
  same_counts = (refl, refl);
  same_priority = ground arith;
}

upsert-IsWaiting :
    (i : ℕ) (new : Row) (scan : ℕ) (st : Store) (o : Option Row) (r : Row)
    → find (by_id i) st.rows ≡ some r
    → (has_status deferred r.status || has_status failed r.status) ≡ true
    → leb_ℤ priority_webhook new.priority ≡ false
    → (s : Row) × (find (by_id i) (upsert new scan st o).0.rows ≡ some s) × IsWaiting r s
unfolding upsert
upsert-IsWaiting i new scan st none r e w h = (r, find-append i st.rows r new e, waits_on r)
upsert-IsWaiting i new scan st (some old) r e w h =
    let p = has_key new.artist_key new.title_key in
    let found = find-update (by_id i) p (refresh new) st.rows r (λ x. unfold refresh in refl) e in
    elim (Bool-cases (p r)) [
      | inl met ↦ (
        refresh new r,
        found ∙ ap some (ap (λ b. if b then refresh new r else r) met),
        refresh-IsWaiting new r w h,
      )
      | inr unmet ↦
          (r, found ∙ ap some (ap (λ b. if b then refresh new r else r) unmet), waits_on r)
    ]

IsWaiting-trans : (r s t : Row) → IsWaiting r s → IsWaiting s t → IsWaiting r t
IsWaiting-trans r s t a b = record {
  same_id = b.same_id ∙ a.same_id;
  same_status = b.same_status ∙ a.same_status;
  same_wait = b.same_wait ∙ a.same_wait;
  same_counts = (b.same_counts.0 ∙ a.same_counts.0, b.same_counts.1 ∙ a.same_counts.1);
  same_priority = elim a.same_priority [
    | inl f ↦ inl f
    | inr e ↦ elim b.same_priority [
      | inl f ↦ inl (ap (has_status failed) (sym a.same_status) ∙ f)
      | inr g ↦ inr (g ∙ e)
    ]
  ];
}

-- The row `r` behind a webhook's enqueue of `new`.
abbrev IsWoken : Row → Row → Store × Row → Type 0
IsWoken new r (st, s) =
    (find (has_key new.artist_key new.title_key) st.rows ≡ some s)
    × (s.id ≡ r.id)
    × (s.status ≡ r.status)
    × (s.priority ≡ new.priority)
    × (is_ready new.next_attempt_at s ≡ true)

upsert-IsWoken :
    (new : Row) (scan : ℕ) (st : Store) (r : Row)
    → find (has_key new.artist_key new.title_key) st.rows ≡ some r
    → (has_status deferred r.status || has_status failed r.status) ≡ true
    → leb_ℤ priority_webhook new.priority ≡ true
    → IsWoken new r (upsert new scan st (some r))
unfolding upsert refresh
upsert-IsWoken new scan st r e w h =
    let key = has_key new.artist_key new.title_key in
    (
      find-update key key (refresh new) st.rows r (λ x. refl) e
          ∙ ap some (ap (λ b. if b then refresh new r else r) (find_sound key st.rows r e)),
      refl,
      refl,
      rw h,
      ground (arith, w, h),
    )

-- The arguments of an enqueue, with its readings of the clocks.
abbrev pub Demand : Type 0
Demand = Inputs × ℤ × ℕ × ℕ

module _ (normalize_key : String → String) (q : DbQueue) where
  unfoldable pub enqueue_all : Store → List Demand → Store
  enqueue_all st [] = st
  enqueue_all st ((inputs, priority, now, created) ∷ es) =
      enqueue_all (enqueue normalize_key q inputs priority now created st).0 es

  enqueue-IsWaiting :
      (i : ℕ) (inputs : Inputs) (priority : ℤ) (now created : ℕ) (st : Store) (r : Row)
      → find (by_id i) st.rows ≡ some r
      → (has_status deferred r.status || has_status failed r.status) ≡ true
      → leb_ℤ priority_webhook priority ≡ false
      → (s : Row) × (find (by_id i) (enqueue normalize_key q inputs priority now created st).0.rows
          ≡ some s)
        × IsWaiting r s
  unfolding enqueue
  enqueue-IsWaiting i inputs priority now created st r e w h =
      let new = excluded normalize_key q inputs priority now created st.next_id in
      upsert-IsWaiting i new inputs.scan_result_id st
        (find (has_key new.artist_key new.title_key) st.rows) r e w h

  -- A library scan does not shorten a wait. Whatever is enqueued with less than the webhook's
  -- priority, however often and for whichever tracks, a deferred or failed row keeps its status, the
  -- time of its next attempt and its counts, and a deferred row also its priority.
  pub enqueue_all-IsWaiting :
      (i : ℕ) (st : Store) (es : List Demand) (r : Row)
      → find (by_id i) st.rows ≡ some r
      → (has_status deferred r.status || has_status failed r.status) ≡ true
      → All (λ e. leb_ℤ priority_webhook e.1 ≡ false) es
      → (s : Row) × (find (by_id i) (enqueue_all st es).rows ≡ some s) × IsWaiting r s
  unfolding enqueue_all
  enqueue_all-IsWaiting i st [] r e w h = (r, e, waits_on r)
  enqueue_all-IsWaiting i st ((inputs, priority, now, created) ∷ es) r e w h =
      let (s, f, a) = enqueue-IsWaiting i inputs priority now created st r e w h.0 in
      let (t, g, b) =
        enqueue_all-IsWaiting i (enqueue normalize_key q inputs priority now created st).0 es s f
          (subst (λ x. (has_status deferred x || has_status failed x) ≡ true) (sym a.same_status) w)
          h.1 in
      (t, g, IsWaiting-trans r s t a b)

  -- A webhook's enqueue of a track whose row is deferred or failed ends its wait: the row, still in
  -- that status and under its id, is ready at once, with the priority given.
  pub enqueue-webhook :
      (st : Store) (inputs : Inputs) (priority : ℤ) (now created : ℕ) (r : Row)
      → find
          (has_key (normalize_key inputs.track.artist_name) (normalize_key inputs.track.track_name))
          st.rows
        ≡ some r
      → (has_status deferred r.status || has_status failed r.status) ≡ true
      → leb_ℤ priority_webhook priority ≡ true
      → let (st', s) = enqueue normalize_key q inputs priority now created st in
        (find
            (has_key
              (normalize_key inputs.track.artist_name)
              (normalize_key inputs.track.track_name))
            st'.rows
          ≡ some s)
        × (s.id ≡ r.id)
        × (s.status ≡ r.status)
        × (s.priority ≡ priority)
        × (is_ready (format_time now) s ≡ true)
  unfolding enqueue
  enqueue-webhook st inputs priority now created r e w h =
      let new = excluded normalize_key q inputs priority now created st.next_id in
      subst (λ o. IsWoken new r (upsert new inputs.scan_result_id st o)) (sym e)
        (upsert-IsWoken new inputs.scan_result_id st r e w h)
