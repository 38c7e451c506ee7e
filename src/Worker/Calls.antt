-- ===== src/Worker/Calls.antt =====
-- What a round of internal/worker/worker.go does to the queue, as calls of the queue.
pub mod Frees
pub mod Stamps
pub mod Reports
pub mod Misses
pub mod Rounds
use mxlrcgo_svc.Common.{
  ℕ, ◌≡◌, refl, sym, ap, ◌∙◌, subst, String, Bool, true, false, not, Option, none, some, ◌⊎◌, inl,
  inr, List, [], ◌∷◌, ◌++◌, ◌==◌, ==_iff, str_eq, if◌then◌else◌, All, All-append, Bool-cases,
  is_some,
}
use mxlrcgo_svc.Models.{Song, OutputPath}
use mxlrcgo_svc.Errors.{Err, wrapped, errors_is, no_rows}
use mxlrcgo_svc.Queue.{Row, InstrumentalTelemetry, Store, DbQueue}
use mxlrcgo_svc.Queue.Results
use mxlrcgo_svc.Queue.Results.{release, released_row, completed_row, failed_row}
use mxlrcgo_svc.Queue.Calls.{
  Call, completes, releases, fails, defers, retires, sets_provider_lane, sets_instrumental,
  sets_outcome, reports_on, store_after, step, run,
}
use mxlrcgo_svc.Worker.{Worker}
use mxlrcgo_svc.Worker.Services.{
  Services, Report, Round, RunResult, processed, queue_empty, returned, record_hit, record_attempts,
  record_misses, told, write_outputs,
}
use mxlrcgo_svc.Worker.Reports.{
  in_queue, result_of, with_queue, release_item, release_after_throttle, fail, fail_complete,
  after_complete, complete_item, unless_moved_on, requeue_deferred,
}
use mxlrcgo_svc.Worker.Calls.Frees.{NotHeld, Held, Held-found, report-NotHeld}
use mxlrcgo_svc.Worker.Misses.{stamp_result, stamp_outcome}

-- Behind a call of the queue that did not fail no worker holds the row.
abbrev pub FreeBy : ℕ → Option Err × Store → Type 0
FreeBy i (none, st) = NotHeld i st.rows
FreeBy i (some e, st) = errors_is e no_rows ≡ true → NotHeld i st.rows

-- Behind a round that returns no error no worker holds the row.
abbrev pub SettledBy : RunResult → ℕ → List Row → Type 0
SettledBy processed i rows = NotHeld i rows
SettledBy queue_empty i rows = NotHeld i rows
SettledBy (returned e) i rows = Unit

pub free-settles :
    (out : RunResult) (i : ℕ) (rows : List Row) → NotHeld i rows → SettledBy out i rows
free-settles processed i rows h = h
free-settles queue_empty i rows h = h
free-settles (returned e) i rows h = tt

abbrev pub IsQuiet : RunResult → Type 0
IsQuiet processed = Unit
IsQuiet queue_empty = Unit
IsQuiet (returned e) = ⊥

-- A stamp on the row, or a report on it.
abbrev pub concerns : ℕ → Call → Bool
concerns i (completes now j) = i == j
concerns i (releases j) = i == j
concerns i (fails now j cause) = i == j
concerns i (defers now j after cause) = i == j
concerns i (retires now j) = i == j
concerns i (sets_provider_lane j lane) = i == j
concerns i (sets_instrumental j result tel) = i == j
concerns i (sets_outcome j outcome) = i == j
concerns i _ = false

pub itself : (i : ℕ) → (i == i) ≡ true
itself i = (==_iff i i).1 refl

module _ (normalize_key : String → String) (q : DbQueue) where
  -- The second tables come from the first by calls that concern the row.
  pub record Reaches (i : ℕ) (st st' : Store) : Type 0 where
    pub calls : List Call
    pub concern : All (λ c. concerns i c ≡ true) calls
    pub runs : st' ≡ run normalize_key q st calls

  pub stays_at : (i : ℕ) (st : Store) → Reaches i st st
  unfolding run
  stays_at i st = record { calls = []; concern = tt; runs = refl }

  pub by_call :
      (i : ℕ) (st : Store) (c : Call)
      → concerns i c ≡ true
      → Reaches i st (step normalize_key q st c)
  unfolding run
  by_call i st c h = record { calls = c ∷ []; concern = (h, tt); runs = refl }

  run-append :
      (st : Store) (cs ds : List Call)
      → run normalize_key q st (cs ++ ds) ≡ run normalize_key q (run normalize_key q st cs) ds
  unfolding run
  run-append st [] ds = refl
  run-append st (c ∷ cs) ds = run-append (step normalize_key q st c) cs ds

  pub Reaches-trans : (i : ℕ) (a b c : Store) → Reaches i a b → Reaches i b c → Reaches i a c
  Reaches-trans i a b c h k = record {
    calls = h.calls ++ k.calls;
    concern = All-append _ h.calls k.calls h.concern k.concern;
    runs =
        k.runs
        ∙ ap (λ st. run normalize_key q st k.calls) h.runs
        ∙ sym (run-append a h.calls k.calls);
  }

  -- Stamps on the row, which let it be held.
  pub record Stamped (i : ℕ) (st st' : Store) : Type 0 where
    pub reach : Reaches i st st'
    pub holds : Held i st.rows → Held i st'.rows

  pub Stamped-trans : (i : ℕ) (a b c : Store) → Stamped i a b → Stamped i b c → Stamped i a c
  Stamped-trans i a b c h k = record {
    reach = Reaches-trans i a b c h.reach k.reach;
    holds = λ held. k.holds (h.holds held);
  }

  pub not-Stamped : (i : ℕ) (st : Store) → Stamped i st st
  not-Stamped i st = record { reach = stays_at i st; holds = λ held. held }

  -- A report on the row, which fails only by the database's fault or if the row is not held.
  pub record Told (i : ℕ) (fault : Option String) (st : Store) (o : Option Err × Store)
      : Type 0 where
    pub reach : Reaches i st o.1
    pub free : FreeBy i o
    pub quiet : fault ≡ none → Held i st.rows → o.0 ≡ none

  pub told-Told :
      (i : ℕ) (c : Call) (fault : Option String) (st : Store) (o : Option (Store × Row))
      → concerns i c ≡ true
      → reports_on i c ≡ true
      → step normalize_key q st c ≡ store_after st o
      → (Held i st.rows → is_some o ≡ true)
      → Told i fault st (told fault st o)
  unfolding errors_is
  told-Told i c (some m) st o h k e held = record {
    reach = stays_at i st;
    free = λ is_no_rows. absurd (cc);
    quiet = λ sound here. absurd (cc);
  }
  told-Told i c none st none h k e held = record {
    reach = stays_at i st;
    free = λ is_no_rows. subst (λ x. NotHeld i x.rows) e (report-NotHeld normalize_key q i st c k);
    quiet = λ sound here. absurd (let none_is : false ≡ true = held here in cc);
  }
  told-Told i c none st (some (st', r)) h k e held = record {
    reach = subst (Reaches i st) e (by_call i st c h);
    free = subst (λ x. NotHeld i x.rows) e (report-NotHeld normalize_key q i st c k);
    quiet = λ sound here. refl;
  }

  -- A part of a round: calls on the row, the last of them a report unless an error comes back; and
  -- none does if the row is held and the database takes the report.
  pub record Settles (fault : Option String) (i : ℕ) (st : Store)
      (out : Worker × Services × RunResult) : Type 0 where
    pub reach : Reaches i st out.1.queue
    pub settled : SettledBy out.2 i out.1.queue.rows
    pub quiet : fault ≡ none → Held i st.rows → IsQuiet out.2

  pub after :
      (fault : Option String) (i : ℕ) (a b : Store) (out : Worker × Services × RunResult)
      → Stamped i a b
      → Settles fault i b out
      → Settles fault i a out
  after fault i a b out h k = record {
    reach = Reaches-trans i a b out.1.queue h.reach k.reach;
    settled = k.settled;
    quiet = λ sound held. k.quiet sound (h.holds held);
  }

  -- What follows a report that failed.
  pub after_error :
      (fault second : Option String) (i : ℕ) (a b : Store) (e : Err)
      (out : Worker × Services × RunResult)
      → Told i fault a (some e, b)
      → Settles second i b out
      → Settles fault i a out
  after_error fault second i a b e out h k = record {
    reach = Reaches-trans i a b out.1.queue h.reach k.reach;
    settled = k.settled;
    quiet = λ sound held. absurd (cc (h.quiet sound held));
  }

  pub IsQuiet-result :
      (good : RunResult) (m : String) (e : Option Err)
      → IsQuiet good
      → e ≡ none
      → IsQuiet (result_of good m e)
  IsQuiet-result good m none g h = g
  IsQuiet-result good m (some e) g h = absurd (cc)
