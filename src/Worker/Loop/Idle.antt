-- ===== src/Worker/Loop/Idle.antt =====
-- What the loop of internal/worker/worker.go leaves of the rows that it claims.
use mxlrcgo_svc.Common.{
  ℕ, ◌≡◌, refl, sym, subst, String, Bool, true, false, not, ◌||◌, Option, none, some, inl, inr,
  List, [], ◌∷◌, ◌==◌, ltb, is_some, str_eq, All, arith, Bool-cases,
}
use mxlrcgo_svc.Models.{Song}
use mxlrcgo_svc.Errors.{Err}
use mxlrcgo_svc.Queue.{
  processing, has_status, Row, Store, DbQueue, update, by_id, in_status, set_row, update_returning,
}
use mxlrcgo_svc.Queue.Claim.{dequeue, claimed}
use mxlrcgo_svc.Queue.Claim.Order.{dequeue-cases}
use mxlrcgo_svc.Queue.Results.{
  finished, complete, completed_row, release, released_row, fail, failed_row, defer_miss,
  deferred_row, retire_miss, retired_row,
}
use mxlrcgo_svc.Queue.Stamps.{set_provider_lane, set_instrumental_result, set_outcome_type}
use mxlrcgo_svc.Queue.Calls.{
  Call, completes, releases, fails, defers, retires, sets_provider_lane, sets_instrumental,
  sets_outcome, store_after, step, run,
}
use mxlrcgo_svc.Worker.{Worker}
use mxlrcgo_svc.Worker.Services.{Services, Round, RunResult, processed, queue_empty, returned}
use mxlrcgo_svc.Worker.Once.{run_once}
use mxlrcgo_svc.Worker.Calls.{concerns}
use mxlrcgo_svc.Worker.Calls.Frees.{NotHeld}
use mxlrcgo_svc.Worker.Settles.{run_once-free}
use mxlrcgo_svc.Worker.Loop.{Pass, LoopOut, paused, after_round, run_loop}

-- No worker holds any row.
abbrev pub NoneHeld : List Row → Type 0
NoneHeld rows = All (λ r. has_status processing r.status ≡ false) rows

-- A worker holds no row but those with this id.
abbrev HeldBut : ℕ → List Row → Type 0
HeldBut i rows = All (λ r. ((r.id == i) || not (has_status processing r.status)) ≡ true) rows

update-HeldBut :
    (i : ℕ) (p : Row → Bool) (f : Row → Row) (rows : List Row)
    → ((r : Row) → p r ≡ true → ((f r).id == i) ≡ true)
    → HeldBut i rows
    → HeldBut i (update p f rows)
update-HeldBut i p f [] own h = tt
update-HeldBut i p f (r ∷ rows) own h = elim (Bool-cases (p r)) [
  | inl met ↦ rw met (ground (arith, own r met), update-HeldBut i p f rows own h.1)
  | inr unmet ↦ rw unmet (h.0, update-HeldBut i p f rows own h.1)
]

-- A report finds the row, with or without the scan results, or leaves the table alone.
reported-HeldBut :
    (i j k : ℕ) (f : Row → Row) (st : Store) (o : Option Row)
    → (i == j) ≡ true
    → ((r : Row) → (f r).id ≡ r.id)
    → HeldBut i st.rows
    → HeldBut i (store_after st (set_row (in_status j processing) f st o)).rows
      × HeldBut i (store_after st (finished k (set_row (in_status j processing) f st o))).rows
reported-HeldBut i j k f st none same keeps h = (h, h)
reported-HeldBut i j k f st (some r) same keeps h =
    let after =
      update-HeldBut i (in_status j processing) f st.rows
        (λ x met. ground (arith, met, same, keeps x)) h in
    (after, after)

stamped-HeldBut :
    (i j : ℕ) (f : Row → Row) (st : Store)
    → (i == j) ≡ true
    → ((r : Row) → (f r).id ≡ r.id)
    → HeldBut i st.rows
    → HeldBut i (update (by_id j) f st.rows)
stamped-HeldBut i j f st same keeps h =
    update-HeldBut i (by_id j) f st.rows (λ x met. ground (arith, met, same, keeps x)) h

module _ (normalize_key : String → String) (q : DbQueue) where
  step-HeldBut :
      (i : ℕ) (st : Store) (c : Call)
      → concerns i c ≡ true
      → HeldBut i st.rows
      → HeldBut i (step normalize_key q st c).rows
  unfolding step complete release fail defer_miss retire_miss update_returning set_provider_lane
      set_instrumental_result set_outcome_type
  step-HeldBut i st (completes now j) own h =
      (reported-HeldBut i j j (completed_row now) st _ own (λ r. refl) h).1
  step-HeldBut i st (releases j) own h =
      (reported-HeldBut i j j released_row st _ own (λ r. refl) h).0
  step-HeldBut i st (fails now j cause) own h =
      (reported-HeldBut i j j (failed_row q now cause) st _ own (λ r. refl) h).0
  step-HeldBut i st (defers now j after cause) own h =
      (reported-HeldBut i j j (deferred_row now after cause) st _ own (λ r. refl) h).0
  step-HeldBut i st (retires now j) own h =
      (reported-HeldBut i j j (retired_row now) st _ own (λ r. refl) h).1
  step-HeldBut i st (sets_provider_lane j lane) own h = elim (Bool-cases (str_eq lane "")) [
    | inl no_lane ↦ rw no_lane h
    | inr lane_given ↦ rw lane_given (stamped-HeldBut i j _ st own (λ r. refl) h)
  ]
  step-HeldBut i st (sets_instrumental j result tel) own h =
      stamped-HeldBut i j _ st own (λ r. refl) h
  step-HeldBut i st (sets_outcome j outcome) own h = stamped-HeldBut i j _ st own (λ r. refl) h
  step-HeldBut i st _ own h = absurd (cc)

  run-HeldBut :
      (i : ℕ) (st : Store) (cs : List Call)
      → All (λ c. concerns i c ≡ true) cs
      → HeldBut i st.rows
      → HeldBut i (run normalize_key q st cs).rows
  unfolding run
  run-HeldBut i st [] own h = h
  run-HeldBut i st (c ∷ cs) own h =
      run-HeldBut i (step normalize_key q st c) cs own.1 (step-HeldBut i st c own.0 h)

NoneHeld-HeldBut : (i : ℕ) (rows : List Row) → NoneHeld rows → HeldBut i rows
NoneHeld-HeldBut i [] h = tt
NoneHeld-HeldBut i (r ∷ rows) h = (ground (arith, h.0), NoneHeld-HeldBut i rows h.1)

HeldBut-NoneHeld : (i : ℕ) (rows : List Row) → HeldBut i rows → NotHeld i rows → NoneHeld rows
HeldBut-NoneHeld i [] h k = tt
HeldBut-NoneHeld i (r ∷ rows) h k = (ground (arith, h.0, k.0), HeldBut-NoneHeld i rows h.1 k.1)

abbrev HeldButIn : Option (Store × Row) → Type 0
HeldButIn none = Unit
HeldButIn (some (st, r)) = HeldBut r.id st.rows

-- A claim holds one more row.
dequeue-HeldBut :
    (q : DbQueue) (draw : ℕ → ℕ) (now : ℕ) (st : Store)
    → NoneHeld st.rows
    → HeldButIn (dequeue q draw now st)
dequeue-HeldBut q draw now st h = elim (dequeue-cases q draw now st) [
  | inl idle ↦ subst HeldButIn (sym idle) tt
  | inr (r, i, ready, e) ↦ subst HeldButIn (sym e) (
      update-HeldBut r.id (by_id r.id) claimed st.rows (λ x met. met)
        (NoneHeld-HeldBut r.id st.rows h))
]

-- A property of the services behind the loop.
abbrev Ends : (Services → Type 0) → LoopOut → Type 0
Ends P out = P out.1

paused-Ends :
    (P : Services → Type 0) (e : Option Err) (w : Worker) (s : Services) (rest : LoopOut)
    → P s
    → Ends P rest
    → Ends P (paused e w s rest)
paused-Ends P none w s rest h k = k
paused-Ends P (some e) w s rest h k = h

after_round-Ends :
    (P : Services → Type 0) (paced : Bool) (p : Pass) (out : Worker × Services × RunResult)
    (rest : LoopOut)
    → P out.1
    → Ends P rest
    → Ends P (after_round paced p out rest)
after_round-Ends P paced p (w, s, queue_empty) rest h k = h
after_round-Ends P paced p (w, s, returned e) rest h k = h
after_round-Ends P paced p (w, s, processed) rest h k = elim (Bool-cases (is_some p.ended)) [
  | inl over ↦ rw over h
  | inr live ↦ elim (Bool-cases (ltb 0 w.consecutive_failures || not paced)) [
    | inl on ↦ rw live (rw on k)
    | inr waits ↦ rw live (rw waits (paused-Ends P p.pause w s rest h k))
  ]
]

module _ (normalize_key : String → String) (encode : Song → String) (decode : String → Option Song)
    (error_text : Err → String) (q : DbQueue) where
  run_once-NoneHeld :
      (w : Worker) (r : Round) (s : Services)
      → r.first.fault ≡ none
      → NoneHeld s.queue.rows
      → NoneHeld (run_once normalize_key encode decode error_text q w r s).1.queue.rows
  run_once-NoneHeld w r s reported h =
      elim (run_once-free normalize_key encode decode error_text q w r s reported) [
        | inl same ↦ subst (λ st. NoneHeld st.rows) (sym same) h
        | inr (st, item, cs, claim, own, ran, free) ↦
            HeldBut-NoneHeld item.id _
              (subst (λ st'. HeldBut item.id st'.rows) (sym ran)
                (run-HeldBut normalize_key q item.id st cs own
                  (subst HeldButIn claim (dequeue-HeldBut q r.draw r.claim.now s.queue h))))
              free
      ]

  -- The loop lets go of whatever it claims. If no row is being processed when `Run` or `RunPaced`
  -- starts and the database takes the worker's first report of every round, then no row is being
  -- processed behind any number of passes, however they end: in an empty queue, open circuits, an
  -- error, a cancelled context, a pause that is cut off, or with passes still to come.
  pub run_loop-NoneHeld :
      (paced : Bool) (ps : List Pass) (w : Worker) (s : Services)
      → All (λ p. p.round.first.fault ≡ none) ps
      → NoneHeld s.queue.rows
      → NoneHeld (run_loop normalize_key encode decode error_text q paced ps w s).1.queue.rows
  unfolding run_loop
  run_loop-NoneHeld paced [] w s sound h = h
  run_loop-NoneHeld paced (p ∷ ps) w s sound h =
      let out = run_once normalize_key encode decode error_text q w p.round s in
      let free = run_once-NoneHeld w p.round s sound.0 h in
      let rest = run_loop-NoneHeld paced ps out.0 out.1 sound.1 free in
      let round =
        after_round-Ends (λ t. NoneHeld t.queue.rows) paced p out
          (run_loop normalize_key encode decode error_text q paced ps out.0 out.1) free rest in
      elim (Bool-cases (ltb 0 w.consecutive_failures)) [
        | inr clean ↦ rw clean round
        | inl failing ↦ elim (Bool-cases (is_some p.slept)) [
          | inl over ↦ rw failing (rw over h)
          | inr live ↦ rw failing (rw live round)
        ]
      ]
