-- ===== src/Worker/Examples.antt =====
-- Runs of internal/worker/worker.go.
mod Outcomes
use mxlrcgo_svc.Common.{
  ℕ, ◌≡◌, refl, String, Bool, true, false, Option, none, some, ◌⊎◌, inl, inr, List, [], ◌∷◌, ◌==◌,
  All, arith,
}
use mxlrcgo_svc.Common.Int.{pos, negsuc}
use mxlrcgo_svc.Models.{Song, no_song, no_track, Lines, OutputPath}
use mxlrcgo_svc.Errors.{Err, sentinel, other, rate_limited, not_found, canceled}
use mxlrcgo_svc.Cache
use mxlrcgo_svc.Circuit.{allow}
use mxlrcgo_svc.Queue.{Row, Store, pending, processing}
use mxlrcgo_svc.Queue.Claim.{dequeue, claimed}
use mxlrcgo_svc.Queue.Calls.{Call, run}
use mxlrcgo_svc.Queue.Sound.{IsSound}
use mxlrcgo_svc.Queue.Examples.{plain_key, ordered_queue, row, store_of}
use mxlrcgo_svc.Worker.{Worker, new, lanes}
use mxlrcgo_svc.Worker.Settings.{
  Setting, providers_mode, race_wait, circuit_backoff, fallback_providers, guard, configure_all,
}
use mxlrcgo_svc.Worker.Wiring.{IsWired}
use mxlrcgo_svc.Worker.Wiring.Setters.{new-IsWired}
use mxlrcgo_svc.Worker.Services.{Services, Report, Round, RunResult}
use mxlrcgo_svc.Worker.Song.{ask_lanes}
use mxlrcgo_svc.Worker.Once.{run_once}
use mxlrcgo_svc.Worker.Calls.{concerns, SettledBy, IsQuiet}
use mxlrcgo_svc.Worker.Calls.Frees.{NotHeld}
use mxlrcgo_svc.Worker.Loop.{Pass, run_loop}
use mxlrcgo_svc.Worker.Loop.Idle.{NoneHeld, run_loop-NoneHeld}
use mxlrcgo_svc.Worker.Settles.{run_once-calls, run_once-SettledBy, run_once-NotHeld}

-- A guard and a second lane first, and then the window that the lane takes over.
abbrev settings : List Setting
settings =
    guard (some (record { accept = λ s. true; enabled = true }))
    ∷ providers_mode "roulette"
    ∷ fallback_providers (some ("petitlyrics", none) ∷ none ∷ [])
    ∷ circuit_backoff (pos 5_000_000_000) (negsuc 0)
    ∷ providers_mode "parallel"
    ∷ race_wait (pos 0)
    ∷ []

new-IsWired_example : IsWired (configure_all (new none) settings)
new-IsWired_example = new-IsWired none settings

abbrev pub worker : Worker
unfolding new
worker = new none

abbrev pub text_of : Err → String
text_of e = "failed"

abbrev pub encoded : Song → String
encoded s = s.lyrics_body

abbrev pub undecoded : String → Option Song
undecoded text = none

abbrev pub taken_at_nine : Report
taken_at_nine = record { now = 9_000_000_000; fault = none }

-- A provider's lyrics.
abbrev pub lyrics : Song
lyrics = record no_song { lyrics_body = "la la" }

abbrev pub round : Option Err → Round
round e = record {
  ctx_err = none;
  gate_now = λ i. 8_000_000_000;
  draw = λ i. 0;
  claim = record { now = 60_000_000_000; fault = none };
  lookup_fault = none;
  events = record {
    first_err = none;
    last_err = none;
    turns = λ i. (none, record { asked = 1; answered = 2; song = lyrics; err = e });
    arrivals = [];
    raced = [];
  };
  cancel = sentinel canceled;
  fetched_at = 7;
  attempted_at = 7;
  confidence = pos 4607182418800017408;
  verified = inr true;
  detected = inl (other "no sidecar");
  encode_fault = none;
  store_fault = none;
  write_fault = λ p. none;
  lost = record {
    hit = false;
    misses = λ l. false;
    lane = false;
    attempts = false;
    instrumental = false;
    outcome = false;
  };
  first = taken_at_nine;
  second = taken_at_nine;
}

abbrev pub services : Services
services = record {
  queue = store_of (row 1 pending);
  cache = Cache.new;
  outcomes = [];
  attempts = [];
  written = [];
}

gate_open : (e : Option Err) → (ask_lanes (round e).gate_now 0 (lanes worker)).1 ≡ false
unfolding ask_lanes allow worker
gate_open e = refl

run_once-calls_example :
    let (w, s, result) =
      run_once plain_key encoded undecoded text_of ordered_queue worker (round none) services in
    (s.queue ≡ services.queue)
    ⊎ ((st : Store) × (item : Row) × (cs : List Call) × (dequeue ordered_queue
            (λ i. 0)
            60_000_000_000
            services.queue
          ≡ some (st, item))
        × All (λ c. concerns item.id c ≡ true) cs
        × (s.queue ≡ run plain_key ordered_queue st cs))
run_once-calls_example =
    run_once-calls plain_key encoded undecoded text_of ordered_queue worker (round none) services

run_once-SettledBy_example :
    let (w, s, result) =
      run_once plain_key encoded undecoded text_of ordered_queue worker
        (round (some (sentinel rate_limited)))
        services in
    SettledBy result 1 s.queue.rows
run_once-SettledBy_example =
    run_once-SettledBy plain_key encoded undecoded text_of ordered_queue worker
      (round (some (sentinel rate_limited))) services (store_of (row 1 processing))
      (row 1 processing) refl (gate_open (some (sentinel rate_limited))) refl
      (unfold dequeue in refl)

run_once-NotHeld_example :
    let (w, s, result) =
      run_once plain_key encoded undecoded text_of ordered_queue worker
        (round (some (sentinel not_found)))
        services in
    NotHeld 1 s.queue.rows × IsQuiet result
run_once-NotHeld_example =
    run_once-NotHeld plain_key encoded undecoded text_of ordered_queue worker
      (round (some (sentinel not_found))) services (store_of (row 1 processing)) (row 1 processing)
      refl (gate_open (some (sentinel not_found))) refl refl (unfold dequeue in refl)

abbrev pass : Pass
pass = record { slept = none; round = round none; ended = none; pause = none }

run_loop-NoneHeld_example :
    NoneHeld
      (run_loop plain_key encoded undecoded text_of ordered_queue true
        (pass ∷ pass ∷ [])
        worker
        services).1.queue.rows
run_loop-NoneHeld_example =
    run_loop-NoneHeld plain_key encoded undecoded text_of ordered_queue true (pass ∷ pass ∷ [])
      worker services (refl, (refl, tt)) (refl, tt)
