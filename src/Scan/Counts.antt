-- ===== src/Scan/Counts.antt =====
-- What `EnqueuePending` of internal/scan/enqueuer.go counts.
use mxlrcgo_svc.Common.{
  ℕ, suc, ◌+◌, ◌≡◌, refl, String, Bool, not, Option, none, some, List, [], ◌∷◌, length, arith,
}
use mxlrcgo_svc.Common.Int.{ℤ}
use mxlrcgo_svc.Errors.{Err}
use mxlrcgo_svc.Queue.{DbQueue}
use mxlrcgo_svc.Scan.{
  ScanResult, Enqueuer, Library, Tables, Turn, Step, hit, queued, stopped, Summary, go_on,
  enqueue_one, enqueue_loop, enqueue_pending, list_pending, listed, live,
}
use mxlrcgo_svc.Scan.Pending.{if-keeps}

module _ (normalize_key : String → String) (q : DbQueue) (priority : ℤ) (detect : Bool) where
  -- The counts of the loop, if it runs to its end.
  go_on-counts :
      (n : ℕ) (o : Tables × Step) (rest : Tables → Summary)
      → ((s : Tables) → (rest s).err ≡ none → (rest s).enqueued + (rest s).cache_hits ≡ n)
      → (go_on o rest).err ≡ none
      → (go_on o rest).enqueued + (go_on o rest).cache_hits ≡ suc n
  go_on-counts n (s, hit) rest ih e = omega (arith, ih s e)
  go_on-counts n (s, queued) rest ih e = omega (arith, ih s e)
  go_on-counts n (s, stopped err) rest ih e = absurd (cc)

  enqueue_loop-counts :
      (turns : ℕ → Turn) (i : ℕ) (results : List ScanResult) (s : Tables)
      → let out = enqueue_loop normalize_key q priority detect turns i results s in
        out.err ≡ none → out.enqueued + out.cache_hits ≡ length results
  unfolding enqueue_loop
  enqueue_loop-counts turns i [] s e = refl
  enqueue_loop-counts turns i (res ∷ results) s e =
      go_on-counts (length results) (enqueue_one normalize_key q priority detect (turns i) res s) _
        (λ s' e'. enqueue_loop-counts turns (suc i) results s' e') e

module _ (normalize_key : String → String) (q : DbQueue) where
  -- Unless `EnqueuePending` returns an error, it has handled every pending result of the library: the
  -- number that it enqueued and the number of cache hits make up their number.
  pub enqueue_pending-counts :
      (e : Enqueuer) (lib : Library) (turns : ℕ → Turn) (first_err : Option Err)
      (list_fault : Option String) (s : Tables)
      → let out = enqueue_pending normalize_key q e lib turns first_err list_fault s in
        out.err ≡ none → out.enqueued + out.cache_hits ≡ length (list_pending lib.id s)
  unfolding enqueue_pending
  enqueue_pending-counts e lib turns first_err list_fault s =
      if-keeps Counts (not e.results) _ _ (λ k. absurd (cc))
        (if-keeps Counts (not e.cache) _ _ (λ k. absurd (cc))
          (if-keeps Counts (not e.queue) _ _ (λ k. absurd (cc)) (alive first_err)))
    where
      Counts : Summary → Type 0
      Counts out = out.err ≡ none → out.enqueued + out.cache_hits ≡ length (list_pending lib.id s)

      go : (fault : Option String) → Counts (listed normalize_key q e lib turns fault s)
      go (some m) k = absurd (cc)
      go none k =
          enqueue_loop-counts normalize_key q e.priority _ turns 0 (list_pending lib.id s) s k

      alive : (err : Option Err) → Counts (live normalize_key q e lib turns list_fault s err)
      alive (some err) k = absurd (cc)
      alive none k = go list_fault k
