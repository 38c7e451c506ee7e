-- ===== src/Worker/Settles.antt =====
-- What becomes of the row that `RunOnce` of internal/worker/worker.go claims.
use mxlrcgo_svc.Common.{
  ℕ, ◌≡◌, refl, sym, ap, subst, String, Bool, true, false, Option, none, some, ◌⊎◌, inl, inr, List,
  [], ◌∷◌, arith, All,
}
use mxlrcgo_svc.Models.{Song}
use mxlrcgo_svc.Errors.{Err}
use mxlrcgo_svc.Orchestrator.Lane.{Lane}
use mxlrcgo_svc.Queue.{Row, Store, DbQueue, update, by_id}
use mxlrcgo_svc.Queue.Claim.{dequeue, claimed}
use mxlrcgo_svc.Queue.Claim.Order.{IsIn, dequeue-cases}
use mxlrcgo_svc.Queue.Calls.{Call, run}
use mxlrcgo_svc.Worker.{Worker, lanes}
use mxlrcgo_svc.Worker.Services.{Services, Round, RunResult, processed, queue_empty, returned}
use mxlrcgo_svc.Worker.Reports.{in_queue}
use mxlrcgo_svc.Worker.Song.{with_lanes, ask_lanes}
use mxlrcgo_svc.Worker.Once.{after_dequeue, after_gate, with_context, run_once}
use mxlrcgo_svc.Worker.Calls.{concerns, Settles, SettledBy, IsQuiet}
use mxlrcgo_svc.Worker.Calls.Frees.{NotHeld, Held}
use mxlrcgo_svc.Worker.Calls.Rounds.{process-Settles}

claimed-Held :
    (r : Row) (rows : List Row) → IsIn r rows → Held r.id (update (by_id r.id) claimed rows)
claimed-Held r [] i = absurd i
claimed-Held r (x ∷ rows) (inl e) = ground (arith, ap (λ y. y.id) e)
claimed-Held r (x ∷ rows) (inr i) = ground (arith, claimed-Held r rows i)

abbrev HeldIn : Option (Store × Row) → Type 0
HeldIn none = Unit
HeldIn (some (st, r)) = Held r.id st.rows

dequeue-HeldIn :
    (q : DbQueue) (draw : ℕ → ℕ) (now : ℕ) (st : Store) → HeldIn (dequeue q draw now st)
dequeue-HeldIn q draw now st = elim (dequeue-cases q draw now st) [
  | inl idle ↦ subst HeldIn (sym idle) tt
  | inr (r, i, ready, e) ↦ subst HeldIn (sym e) (claimed-Held r st.rows i)
]

quiet-NotHeld :
    (out : RunResult) (i : ℕ) (rows : List Row)
    → SettledBy out i rows
    → IsQuiet out
    → NotHeld i rows
quiet-NotHeld processed i rows h k = h
quiet-NotHeld queue_empty i rows h k = h
quiet-NotHeld (returned e) i rows h k = absurd k

module _ (normalize_key : String → String) (encode : Song → String) (decode : String → Option Song)
    (error_text : Err → String) (q : DbQueue) where
  -- The queue is left alone, or a row is claimed and settled.
  abbrev Claims : Round → Store → Worker × Services × RunResult → Type 0
  Claims r before out =
      (out.1.queue ≡ before)
      ⊎ ((st : Store) × (item : Row) × (dequeue q r.draw r.claim.now before ≡ some (st, item))
          × Settles normalize_key q r.first.fault item.id st out)

  after_dequeue-Claims :
      (fault : Option String) (w : Worker) (r : Round) (s : Services) (o : Option (Store × Row))
      → dequeue q r.draw r.claim.now s.queue ≡ o
      → Claims r s.queue (after_dequeue normalize_key encode decode error_text q fault w r s o)
  after_dequeue-Claims (some m) w r s o e = inl refl
  after_dequeue-Claims none w r s none e = inl refl
  after_dequeue-Claims none w r s (some (st, item)) e = inr (
    st,
    item,
    e,
    process-Settles normalize_key encode decode error_text q w r (in_queue s st) item,
  )

  after_gate-Claims :
      (w : Worker) (r : Round) (s : Services) (o : List Lane × Bool)
      → Claims r s.queue (after_gate normalize_key encode decode error_text q w r s o)
  after_gate-Claims w r s (ls, true) = inl refl
  after_gate-Claims w r s (ls, false) =
      after_dequeue-Claims r.claim.fault (with_lanes w ls) r s
        (dequeue q r.draw r.claim.now s.queue) refl

  with_context-Claims :
      (e : Option Err) (w : Worker) (r : Round) (s : Services)
      → Claims r s.queue (with_context normalize_key encode decode error_text q e w r s)
  with_context-Claims (some e) w r s = inl refl
  with_context-Claims none w r s = after_gate-Claims w r s (ask_lanes r.gate_now 0 (lanes w))

  -- A round refines the queue's own steps, whatever the providers, the cache, the verifier, the guard,
  -- the detector, the writer and the database do: it leaves the queue alone, or it claims a row and
  -- then makes only calls of the queue that stamp that row or report on it.
  pub run_once-calls :
      (w : Worker) (r : Round) (s : Services)
      → let (w', s', result) = run_once normalize_key encode decode error_text q w r s in
        (s'.queue ≡ s.queue)
        ⊎ ((st : Store) × (item : Row) × (cs : List Call) × (dequeue q r.draw r.claim.now s.queue
              ≡ some (st, item))
            × All (λ c. concerns item.id c ≡ true) cs
            × (s'.queue ≡ run normalize_key q st cs))
  unfolding run_once
  run_once-calls w r s = elim (with_context-Claims r.ctx_err w r s) [
    | inl same ↦ inl same
    | inr (st, item, e, k) ↦ inr (st, item, k.reach.calls, e, k.reach.concern, k.reach.runs)
  ]

  -- The same where the database takes the first report: the claimed row is then let go of.
  pub run_once-free :
      (w : Worker) (r : Round) (s : Services)
      → r.first.fault ≡ none
      → let (w', s', result) = run_once normalize_key encode decode error_text q w r s in
        (s'.queue ≡ s.queue)
        ⊎ ((st : Store) × (item : Row) × (cs : List Call) × (dequeue q r.draw r.claim.now s.queue
              ≡ some (st, item))
            × All (λ c. concerns item.id c ≡ true) cs
            × (s'.queue ≡ run normalize_key q st cs)
            × NotHeld item.id s'.queue.rows)
  unfolding run_once
  run_once-free w r s reported = elim (with_context-Claims r.ctx_err w r s) [
    | inl same ↦ inl same
    | inr (st, item, e, k) ↦
        let held : Held item.id st.rows =
          subst HeldIn e (dequeue-HeldIn q r.draw r.claim.now s.queue) in
        inr (
          st,
          item,
          k.reach.calls,
          e,
          k.reach.concern,
          k.reach.runs,
          quiet-NotHeld (with_context normalize_key encode decode error_text q r.ctx_err w r s).2
              item.id
              (with_context normalize_key encode decode error_text q r.ctx_err w r s).1.queue.rows
              k.settled (k.quiet reported held),
        )
  ]

  claimed-Settles :
      (w : Worker) (r : Round) (s : Services) (st : Store) (item : Row)
      → r.ctx_err ≡ none
      → (ask_lanes r.gate_now 0 (lanes w)).1 ≡ false
      → r.claim.fault ≡ none
      → dequeue q r.draw r.claim.now s.queue ≡ some (st, item)
      → Settles normalize_key q r.first.fault item.id st
          (run_once normalize_key encode decode error_text q w r s)
  unfolding run_once
  claimed-Settles w r s st item live gate sound e =
      let ls = (ask_lanes r.gate_now 0 (lanes w)).0 in
      subst
        (λ c.
          Settles normalize_key q r.first.fault item.id st
            (with_context normalize_key encode decode error_text q c w r s))
        (sym live)
        (subst
          (λ b.
            Settles normalize_key q r.first.fault item.id st
              (after_gate normalize_key encode decode error_text q w r s (ls, b)))
          (sym gate)
          (subst
            (λ f. Settles normalize_key q r.first.fault item.id st (
              after_dequeue normalize_key encode decode error_text q f (with_lanes w ls) r s
                (dequeue q r.draw r.claim.now s.queue)))
            (sym sound)
            (subst
              (λ o. Settles normalize_key q r.first.fault item.id st (
                after_dequeue normalize_key encode decode error_text q none (with_lanes w ls) r s
                  o))
              (sym e)
              (process-Settles normalize_key encode decode error_text q (with_lanes w ls) r
                (in_queue s st) item))))

  -- No row is stranded. When a round claims a row and then returns nil or `errQueueEmpty`, no worker
  -- holds the row any more, whatever failed on the way: a row is left processing only with an error.
  pub run_once-SettledBy :
      (w : Worker) (r : Round) (s : Services) (st : Store) (item : Row)
      → r.ctx_err ≡ none
      → (ask_lanes r.gate_now 0 (lanes w)).1 ≡ false
      → r.claim.fault ≡ none
      → dequeue q r.draw r.claim.now s.queue ≡ some (st, item)
      → let (w', s', result) = run_once normalize_key encode decode error_text q w r s in
        SettledBy result item.id s'.queue.rows
  run_once-SettledBy w r s st item live gate sound e =
      (claimed-Settles w r s st item live gate sound e).settled

  -- A round that claims a row always settles it: if the context is live, a lane is not open and the
  -- database takes the claim and the report, then `RunOnce` returns nil or `errQueueEmpty` (no other
  -- error), and no worker holds the row any more, whatever the cache, the providers, the verifier, the
  -- guard, the detector and the writer do.
  pub run_once-NotHeld :
      (w : Worker) (r : Round) (s : Services) (st : Store) (item : Row)
      → r.ctx_err ≡ none
      → (ask_lanes r.gate_now 0 (lanes w)).1 ≡ false
      → r.claim.fault ≡ none
      → r.first.fault ≡ none
      → dequeue q r.draw r.claim.now s.queue ≡ some (st, item)
      → let (w', s', result) = run_once normalize_key encode decode error_text q w r s in
        NotHeld item.id s'.queue.rows × IsQuiet result
  run_once-NotHeld w r s st item live gate sound reported e =
      let k = claimed-Settles w r s st item live gate sound e in
      let held : Held item.id st.rows =
        subst HeldIn e (dequeue-HeldIn q r.draw r.claim.now s.queue) in
      let quiet = k.quiet reported held in
      (
        quiet-NotHeld (run_once normalize_key encode decode error_text q w r s).2 item.id
            (run_once normalize_key encode decode error_text q w r s).1.queue.rows k.settled quiet,
        quiet,
      )
