-- ===== src/Scan/Fates.antt =====
-- What `EnqueuePending` of internal/scan/enqueuer.go may turn the status of a result into.
use mxlrcgo_svc.Common.{
  ℕ, suc, ◌≡◌, refl, sym, ap, ◌∙◌, subst, String, Bool, true, ◌&&◌, ◌||◌, Option, none, some, inl,
  inr, List, [], ◌∷◌, ◌==◌, ==_iff, any, keep, All, All-imp, All-keep, is_some, arith, Bool-cases,
}
use mxlrcgo_svc.Common.Int.{ℤ, pos}
use mxlrcgo_svc.Models.{Inputs}
use mxlrcgo_svc.Errors.{Err}
use mxlrcgo_svc.Normalize.{duration_bucket}
use mxlrcgo_svc.Cache
use mxlrcgo_svc.Cache.{CacheRepo}
use mxlrcgo_svc.Cache.Reads.{lookup-answer, answer, lookup-cache_stats}
use mxlrcgo_svc.Queue.{
  Status, pending, processing, done, has_status, ScanRow, Row, Store, DbQueue, find,
}
use mxlrcgo_svc.Queue.Enqueue.{enqueue, upsert, excluded, has_key}
use mxlrcgo_svc.Scan.{
  ScanResult, Tables, Turn, Step, hit, queued, stopped, Summary, set_status, scan_inputs, restore,
  go_on, hand_over, submit, after_reserve, after_cache, ask_cache, with_turn, enqueue_one,
  enqueue_loop, list_pending,
}
use mxlrcgo_svc.Scan.Linked.{any-imp, All-update, or_true}

module _ {ℓ} {A : Type ℓ} where
  -- An entry that passes its own test is found by it.
  All-any :
      (p : A → A → Bool) (Q : A → Type 0) (xs : List A)
      → ((x : A) → Q x → p x x ≡ true)
      → All (λ x. Q x → any (p x) xs ≡ true) xs
  All-any p Q [] own = tt
  All-any p Q (x ∷ xs) own = (
    λ h. rw (own x h) refl,
    All-imp _ _ xs (λ y k h. or_true (p y x) _ (k h)) (All-any p Q xs own),
  )

  kept-All : (p : A → Bool) (xs : List A) → All (λ x. p x ≡ true) (keep p xs)
  kept-All p [] = tt
  kept-All p (x ∷ xs) = elim (Bool-cases (p x)) [
    | inl kept ↦ rw kept (kept, kept-All p xs)
    | inr cut ↦ rw cut (kept-All p xs)
  ]

has_status_refl : (s : Status) → has_status s s ≡ true
has_status_refl s = ground arith

module _ (normalize_key : String → String) where
  -- The cache of these tables has lyrics for the result.
  abbrev pub is_cached : Tables → ScanResult → Bool
  is_cached s d =
      is_some
        (Cache.lookup normalize_key d.track.artist_name d.track.track_name
          (duration_bucket (pos d.track.track_length)) s.cache).1

  -- Whether the result `i` of the tables may come to stand at the status: it had it, or it is being
  -- processed, or it is done and the cache has its lyrics.
  abbrev pub may_be : Tables → ℕ → Status → Bool
  may_be s i status =
      any (λ x. (x.id == i) && has_status status x.status) s.store.scans
      || has_status processing status
      || (has_status done status && any (λ d. (d.id == i) && is_cached s d) s.details)

  abbrev pub IsPlaced : Tables → ScanRow → Type 0
  IsPlaced s r = may_be s r.id r.status ≡ true

  -- Between the rounds that start from the tables `s`.
  abbrev pub Keeps : Tables → Tables → Type 0
  Keeps s t = All (IsPlaced s) t.store.scans × (t.cache.rows ≡ s.cache.rows)

  pub start-Keeps : (s : Tables) → Keeps s s
  start-Keeps s = (
    All-imp _ _ s.store.scans (λ r k. rw (k tt) refl)
        (All-any (λ r x. (x.id == r.id) && has_status r.status x.status) (λ r. Unit) s.store.scans
          (λ r u. ground (arith, has_status_refl r.status))),
    refl,
  )

  set_status-IsPlaced :
      (s : Tables) (fault : Option String) (i : ℕ) (status : Status) (st : Store)
      → may_be s i status ≡ true
      → All (IsPlaced s) st.scans
      → All (IsPlaced s) (set_status fault i status st).0.scans
  unfolding set_status
  set_status-IsPlaced s (some m) i status st may h = h
  set_status-IsPlaced s none i status st may h =
      All-update _ _ (λ x. x.id == i) _ st.scans
        (λ x k. elim (Bool-cases (x.id == i)) [
          | inl here ↦
              rw here (subst (λ j. may_be s j status ≡ true) (sym ((==_iff x.id i).0 here)) may)
          | inr there ↦ rw there k
        ])
        h

  upsert-scans :
      (new : Row) (i : ℕ) (st : Store) (o : Option Row) → (upsert new i st o).0.scans ≡ st.scans
  unfolding upsert
  upsert-scans new i st none = refl
  upsert-scans new i st (some old) = refl

  -- A result of the listing: it was pending, and it is one of the tables' results.
  abbrev WasPending : Tables → ScanResult → Type 0
  WasPending s res = any (λ x. (x.id == res.id) && has_status pending x.status) s.store.scans ≡ true

  abbrev IsOf : Tables → ScanResult → Type 0
  IsOf s res =
      is_cached s res ≡ true → any (λ d. (d.id == res.id) && is_cached s d) s.details ≡ true

  pub list_pending-WasPending :
      (library : ℕ) (s : Tables) → All (WasPending s) (list_pending library s)
  unfolding list_pending
  list_pending-WasPending library s =
      All-imp _ _ _ (λ d k. any-imp _ _ s.store.scans (λ x m. ground (arith, m)) k)
        (kept-All _ s.details)

  pub list_pending-IsOf : (library : ℕ) (s : Tables) → All (IsOf s) (list_pending library s)
  unfolding list_pending
  list_pending-IsOf library s = All-keep _ _ s.details (
      All-any (λ res d. (d.id == res.id) && is_cached s d) (λ d. is_cached s d ≡ true) s.details
        (λ d h. ground (arith, h)))

  -- A lookup answers by the rows of the cache alone.
  lookup-same :
      (artist title : String) (b : ℕ) (c c' : CacheRepo)
      → c'.rows ≡ c.rows
      → (Cache.lookup normalize_key artist title b c').1
        ≡ (Cache.lookup normalize_key artist title b c).1
  lookup-same artist title b c c' e =
      lookup-answer normalize_key artist title b c'
      ∙ ap
          (λ rows.
            answer (Cache.read (normalize_key artist) (normalize_key title) b rows)
              (Cache.read (normalize_key artist) (normalize_key title) 0 rows))
          e
      ∙ sym (lookup-answer normalize_key artist title b c)

  module _ (q : DbQueue) (priority : ℤ) (detect : Bool) (s : Tables) where
    restore-Keeps :
        (t : Turn) (res : ScanResult) (s' : Tables) (cause : Err)
        → WasPending s res
        → Keeps s s'
        → Keeps s (restore t res.id s' cause).0
    unfolding restore
    restore-Keeps t res s' cause was h =
        (set_status-IsPlaced s t.restore_fault res.id pending s'.store (rw was refl) h.0, h.1)

    submit-Keeps :
        (t : Turn) (res : ScanResult) (s' : Tables) (o : Option Inputs)
        → WasPending s res
        → Keeps s s'
        → Keeps s (submit normalize_key q priority detect t res s' o).0
    submit-Keeps t res s' none was h = restore-Keeps t res s' _ was h
    submit-Keeps t res s' (some inputs) was h = pushed t.enqueue_fault
      where
        given : Inputs
        given = record inputs { detect_instrumental = some detect }

        pushed :
            (fault : Option String)
            → Keeps s (hand_over normalize_key q priority detect t res s' fault inputs).0
        pushed (some m) = restore-Keeps t res s' _ was h
        pushed none =
            let new = excluded normalize_key q given priority t.now t.created s'.store.next_id in
            let old = find (has_key new.artist_key new.title_key) s'.store.rows in
            unfold enqueue in
            (
              subst (All (IsPlaced s)) (sym (upsert-scans new inputs.scan_result_id s'.store old))
                  h.0,
              h.1,
            )

    reserve-Keeps :
        (t : Turn) (res : ScanResult) (s' : Tables) (o : Store × Option Err)
        → WasPending s res
        → Keeps s (record s' { store = o.0 })
        → Keeps s
            (after_reserve normalize_key q priority detect t res (record s' { store = o.0 }) o.1).0
    reserve-Keeps t res s' (st, some e) was h = h
    reserve-Keeps t res s' (st, none) was h =
        submit-Keeps t res (record s' { store = st }) (scan_inputs res) was h

    enqueue_one-Keeps :
        (t : Turn) (res : ScanResult) (s' : Tables)
        → WasPending s res
        → IsOf s res
        → Keeps s s'
        → Keeps s (enqueue_one normalize_key q priority detect t res s').0
    unfolding enqueue_one
    enqueue_one-Keeps t res s' was own h = timed t.ctx_err
      where
        bucket : ℕ
        bucket = duration_bucket (pos res.track.track_length)

        cached :
            (c : CacheRepo) (found : Option String)
            → (is_some found ≡ true → is_cached s res ≡ true)
            → c.rows ≡ s.cache.rows
            → Keeps s (after_cache normalize_key q priority detect t res s' (c, found)).0
        cached c (some lyrics) hits same = (
          set_status-IsPlaced s t.done_fault res.id done s'.store (ground (arith, own (hits refl)))
              h.0,
          same,
        )
        cached c none hits same =
            reserve-Keeps t res (record s' { cache = c })
              (set_status t.reserve_fault res.id processing s'.store) was
              (
                set_status-IsPlaced s t.reserve_fault res.id processing s'.store (ground arith) h.0,
                same,
              )

        asked :
            (fault : Option String)
            → Keeps s (ask_cache normalize_key q priority detect t res s' fault).0
        asked (some m) = h
        asked none =
            let artist = res.track.artist_name in
            let title = res.track.track_name in
            let out = Cache.lookup normalize_key artist title bucket s'.cache in
            cached out.0 out.1
              (λ k.
                subst (λ o. is_some o ≡ true) (lookup-same artist title bucket s.cache s'.cache h.1)
                  k)
              ((lookup-cache_stats normalize_key artist title bucket s'.cache).1 ∙ h.1)

        timed : (e : Option Err) → Keeps s (with_turn normalize_key q priority detect t res s' e).0
        timed (some e) = h
        timed none = asked t.lookup_fault

    go_on-Keeps :
        (o : Tables × Step) (rest : Tables → Summary)
        → Keeps s o.0
        → ((s' : Tables) → Keeps s s' → Keeps s (rest s').tables)
        → Keeps s (go_on o rest).tables
    go_on-Keeps (s', hit) rest h ih = ih s' h
    go_on-Keeps (s', queued) rest h ih = ih s' h
    go_on-Keeps (s', stopped e) rest h ih = h

    pub enqueue_loop-Keeps :
        (turns : ℕ → Turn) (i : ℕ) (results : List ScanResult) (s' : Tables)
        → All (WasPending s) results
        → All (IsOf s) results
        → Keeps s s'
        → Keeps s (enqueue_loop normalize_key q priority detect turns i results s').tables
    unfolding enqueue_loop
    enqueue_loop-Keeps turns i [] s' was own h = h
    enqueue_loop-Keeps turns i (res ∷ results) s' was own h =
        go_on-Keeps (enqueue_one normalize_key q priority detect (turns i) res s') _
          (enqueue_one-Keeps (turns i) res s' was.0 own.0 h)
          (λ t k. enqueue_loop-Keeps turns (suc i) results t was.1 own.1 k)
