-- ===== src/Scan/Pending.antt =====
-- What `EnqueuePending` of internal/scan/enqueuer.go does to every pending result.
use mxlrcgo_svc.Common.{
  ℕ, suc, ◌≡◌, refl, sym, subst, String, Bool, true, false, not, Option, none, some, inl, inr, List,
  [], ◌∷◌, ◌==◌, ltb, any, All, All-keep, if◌then◌else◌, arith, Bool-cases,
}
use mxlrcgo_svc.Common.Int.{ℤ, pos}
use mxlrcgo_svc.Models.{Inputs}
use mxlrcgo_svc.Errors.{Err}
use mxlrcgo_svc.Normalize.{duration_bucket}
use mxlrcgo_svc.Cache
use mxlrcgo_svc.Cache.{CacheRepo}
use mxlrcgo_svc.Queue.{pending, processing, done, Store, DbQueue, update, find}
use mxlrcgo_svc.Queue.Enqueue.{enqueue, upsert, excluded, has_key}
use mxlrcgo_svc.Scan.{
  ScanResult, Enqueuer, Library, Tables, Turn, Step, hit, queued, stopped, Summary, set_status,
  scan_inputs, restore, go_on, hand_over, submit, after_reserve, after_cache, ask_cache, with_turn,
  enqueue_one, enqueue_loop, enqueue_pending, list_pending, listed, live,
}
use mxlrcgo_svc.Scan.Fates.{
  IsPlaced, start-Keeps, list_pending-WasPending, list_pending-IsOf, enqueue_loop-Keeps,
}
use mxlrcgo_svc.Scan.Linked.{
  IsAccounted, IsAccountedBut, IsAccounted-IsAccountedBut, reserved-IsAccountedBut,
  settled-IsAccounted, upsert-IsAccounted,
}

update-none {ℓ} :
    {A : Type ℓ} (p : A → Bool) (f : A → A) (xs : List A) → any p xs ≡ false → update p f xs ≡ xs
update-none p f [] h = refl
update-none p f (x ∷ xs) h = ground (arith, h, update-none p f xs)

pub if-keeps {ℓ} :
    {A : Type ℓ} (P : A → Type 0) (b : Bool) (x y : A) → P x → P y → P (if b then x else y)
if-keeps P true x y h k = h
if-keeps P false x y h k = k

abbrev id_or : ℕ → Option Inputs → ℕ
id_or i none = i
id_or i (some inputs) = inputs.scan_result_id

scan_inputs-id : (res : ScanResult) → id_or res.id (scan_inputs res) ≡ res.id
unfolding scan_inputs
scan_inputs-id res = either _ _ refl
  where
    either :
        (b : Bool) (inputs : Inputs)
        → inputs.scan_result_id ≡ res.id
        → id_or res.id (if b then none else some inputs) ≡ res.id
    either true inputs h = refl
    either false inputs h = h

finished-IsAccounted :
    (fault : Option String) (i : ℕ) (st : Store)
    → IsAccounted st
    → IsAccounted (set_status fault i done st).0
finished-IsAccounted (some m) i st h = unfold set_status in h
finished-IsAccounted none i st h =
    settled-IsAccounted i done st refl (IsAccounted-IsAccountedBut i st h)

restored-IsAccounted :
    (t : Turn) (i : ℕ) (s : Tables) (cause : Err)
    → t.restore_fault ≡ none
    → IsAccountedBut i s.store
    → IsAccounted (restore t i s cause).0.store
unfolding restore
restored-IsAccounted t i s cause sound h =
    subst (λ f. IsAccounted (set_status f i pending s.store).0) (sym sound)
      (settled-IsAccounted i pending s.store refl h)

module _ (normalize_key : String → String) (q : DbQueue) (priority : ℤ) (detect : Bool) where
  submit-IsAccounted :
      (t : Turn) (res : ScanResult) (s : Tables) (o : Option Inputs)
      → t.restore_fault ≡ none
      → ltb 0 res.id ≡ true
      → id_or res.id o ≡ res.id
      → IsAccountedBut res.id s.store
      → IsAccounted (submit normalize_key q priority detect t res s o).0.store
  submit-IsAccounted t res s none sound positive same h = restored-IsAccounted t res.id s _ sound h
  submit-IsAccounted t res s (some inputs) sound positive same h = pushed t.enqueue_fault
    where
      given : Inputs
      given = record inputs { detect_instrumental = some detect }

      pushed :
          (fault : Option String)
          → IsAccounted (hand_over normalize_key q priority detect t res s fault inputs).0.store
      pushed (some m) = restored-IsAccounted t res.id s _ sound h
      pushed none =
          let new = excluded normalize_key q given priority t.now t.created s.store.next_id in
          let old = find (has_key new.artist_key new.title_key) s.store.rows in
          unfold enqueue in
          subst (λ i. IsAccounted (upsert new i s.store old).0) (sym same)
            (upsert-IsAccounted new res.id s.store positive h old refl)

  reserve-IsAccounted :
      (fault : Option String) (t : Turn) (res : ScanResult) (s : Tables) (c : CacheRepo)
      → t.restore_fault ≡ none
      → ltb 0 res.id ≡ true
      → IsAccounted s.store
      → let (st, e) = set_status fault res.id processing s.store in
        IsAccounted
          (after_reserve normalize_key q priority detect t res
            (record s { store = st; cache = c })
            e).0.store
  unfolding set_status
  reserve-IsAccounted (some m) t res s c sound positive h = h
  reserve-IsAccounted none t res s c sound positive h =
      elim (Bool-cases (any (λ r. r.id == res.id) s.store.scans)) [
        | inl known ↦ rw known (
            submit-IsAccounted t res _ (scan_inputs res) sound positive (scan_inputs-id res)
              (reserved-IsAccountedBut none res.id processing s.store h))
        | inr unknown ↦ rw unknown (
            subst (λ scans. IsAccounted (record s.store { scans = scans }))
              (sym (update-none (λ r. r.id == res.id) _ s.store.scans unknown)) h)
      ]

  enqueue_one-IsAccounted :
      (t : Turn) (res : ScanResult) (s : Tables)
      → t.restore_fault ≡ none
      → ltb 0 res.id ≡ true
      → IsAccounted s.store
      → IsAccounted (enqueue_one normalize_key q priority detect t res s).0.store
  unfolding enqueue_one
  enqueue_one-IsAccounted t res s sound positive h = timed t.ctx_err
    where
      cached :
          (o : CacheRepo × Option String)
          → IsAccounted (after_cache normalize_key q priority detect t res s o).0.store
      cached (c, some lyrics) = finished-IsAccounted t.done_fault res.id s.store h
      cached (c, none) = reserve-IsAccounted t.reserve_fault t res s c sound positive h

      asked :
          (fault : Option String)
          → IsAccounted (ask_cache normalize_key q priority detect t res s fault).0.store
      asked (some m) = h
      asked none = cached (
          Cache.lookup normalize_key res.track.artist_name res.track.track_name
            (duration_bucket (pos res.track.track_length)) s.cache)

      timed :
          (e : Option Err)
          → IsAccounted (with_turn normalize_key q priority detect t res s e).0.store
      timed (some e) = h
      timed none = asked t.lookup_fault

  go_on-IsAccounted :
      (o : Tables × Step) (rest : Tables → Summary)
      → IsAccounted o.0.store
      → ((s : Tables) → IsAccounted s.store → IsAccounted (rest s).tables.store)
      → IsAccounted (go_on o rest).tables.store
  go_on-IsAccounted (s, hit) rest h ih = ih s h
  go_on-IsAccounted (s, queued) rest h ih = ih s h
  go_on-IsAccounted (s, stopped e) rest h ih = h

  enqueue_loop-IsAccounted :
      (turns : ℕ → Turn) (i : ℕ) (results : List ScanResult) (s : Tables)
      → ((j : ℕ) → (turns j).restore_fault ≡ none)
      → All (λ d. ltb 0 d.id ≡ true) results
      → IsAccounted s.store
      → IsAccounted (enqueue_loop normalize_key q priority detect turns i results s).tables.store
  unfolding enqueue_loop
  enqueue_loop-IsAccounted turns i [] s sound positive h = h
  enqueue_loop-IsAccounted turns i (res ∷ results) s sound positive h =
      go_on-IsAccounted (enqueue_one normalize_key q priority detect (turns i) res s) _
        (enqueue_one-IsAccounted (turns i) res s (sound i) positive.0 h)
        (λ s' h'. enqueue_loop-IsAccounted turns (suc i) results s' sound positive.1 h')

module _ (normalize_key : String → String) (q : DbQueue) where
  -- No scan result gets stuck or lost. If every result that is being processed has a row in the work
  -- queue, that is still so behind `EnqueuePending`, wherever it stops and whatever fails on the way,
  -- apart from the write that would take a reservation back. And a result that is not being processed
  -- then has the status that its id had before, or it is done and the cache has its lyrics: a pending
  -- result without a row in the queue and without lyrics in the cache is pending again. The ids of
  -- the results are positive.
  pub enqueue_pending-IsAccounted :
      (e : Enqueuer) (lib : Library) (turns : ℕ → Turn) (first_err : Option Err)
      (list_fault : Option String) (s : Tables)
      → ((j : ℕ) → (turns j).restore_fault ≡ none)
      → All (λ d. ltb 0 d.id ≡ true) s.details
      → IsAccounted s.store
      → let after =
          (enqueue_pending normalize_key q e lib turns first_err list_fault s).tables.store in
        IsAccounted after × All (IsPlaced normalize_key s) after.scans
  unfolding enqueue_pending
  enqueue_pending-IsAccounted e lib turns first_err list_fault s sound positive h =
      if-keeps AccountedBy (not e.results) _ _ still (
        if-keeps AccountedBy (not e.cache) _ _ still
          (if-keeps AccountedBy (not e.queue) _ _ still (alive first_err)))
    where
      AccountedBy : Summary → Type 0
      AccountedBy out =
          IsAccounted out.tables.store × All (IsPlaced normalize_key s) out.tables.store.scans

      still : IsAccounted s.store × All (IsPlaced normalize_key s) s.store.scans
      still = (h, (start-Keeps normalize_key s).0)

      go : (fault : Option String) → AccountedBy (listed normalize_key q e lib turns fault s)
      go (some m) = still
      go none =
          let results = list_pending lib.id s in
          (
            enqueue_loop-IsAccounted normalize_key q e.priority _ turns 0 results s sound
                (unfold list_pending in All-keep _ _ s.details positive) h,
            (enqueue_loop-Keeps normalize_key q e.priority _ s turns 0 results s
                (list_pending-WasPending normalize_key lib.id s)
                (list_pending-IsOf normalize_key lib.id s) (start-Keeps normalize_key s)).0,
          )

      alive : (err : Option Err) → AccountedBy (live normalize_key q e lib turns list_fault s err)
      alive (some err) = still
      alive none = go list_fault
