-- ===== src/Worker.antt =====
-- internal/worker/worker.go: the worker, which takes one row at a time from the durable queue, asks
-- the cache and then the orchestrator for its lyrics, and reports the outcome to the queue.
pub mod Settings
pub mod Wiring
pub mod Services
pub mod Reports
pub mod Misses
pub mod Song
pub mod Once
pub mod Calls
pub mod Settles
pub mod Verdicts
pub mod Written
pub mod Loop
mod Examples
use mxlrcgo_svc.Common.{ℕ, zero, suc, String, Bool, true, false, Option, none, some, List, [], ◌∷◌}
use mxlrcgo_svc.Common.Int.{ℤ, pos}
use mxlrcgo_svc.Backoff.{default_base, default_max, default_miss_base, default_miss_cap}
use mxlrcgo_svc.Circuit
use mxlrcgo_svc.Pacer.{Client}
use mxlrcgo_svc.Orchestrator.Suitability.{ScriptGuard}
use mxlrcgo_svc.Orchestrator.Lane.{Lane}
use mxlrcgo_svc.Orchestrator.Mode.{Orchestrator, mode_ordered, default_race_wait}

-- Thirty minutes and a minute, in nanoseconds.
abbrev pub default_circuit_open_duration : ℤ
default_circuit_open_duration = pos 1_800_000_000_000

abbrev pub default_circuit_backoff_base : ℤ
default_circuit_backoff_base = pos 60_000_000_000

-- `0.85` and `1`. A float64 is the integer of its bit pattern, which is ordered as the floats are;
-- every negative float is some negative integer.
abbrev pub default_verify_below : ℤ
default_verify_below = pos 4605831338911806259

abbrev pub float_one : ℤ
float_one = pos 4607182418800017408

-- The worker's own fields. `w.lanes` is the primary lane with the fallbacks behind it; the lanes of
-- the orchestrator are the same objects. Of the verifier, the detector and the recorder it matters
-- here whether they are set; what they answer is an input of the round. The queue, the cache and
-- the files are `Services`, and the clock and the sleep are inputs.
pub record Worker : Type 0 where
  pub orch : Orchestrator
  pub lane : Lane
  pub fallbacks : List Lane
  pub verifier : Bool
  pub verify_below_confidence : ℤ
  pub audio_detector : Bool
  pub detect_instrumental_default : Bool
  pub script_guard : Option ScriptGuard
  pub provider_recorder : Bool
  pub consecutive_failures : ℕ
  pub last_fail_id : ℕ
  pub last_fail_artist : String
  pub last_fail_track : String
  pub base_backoff : ℤ
  pub max_backoff : ℤ
  pub circuit_backoff_base : ℤ
  pub circuit_open_duration : ℤ
  pub miss_backoff_base : ℤ
  pub miss_backoff_cap : ℤ
  pub max_miss_attempts : ℕ
  pub providers_version : ℕ
  pub mode : String
  pub race_wait : ℤ

abbrev pub lanes : Worker → List Lane
lanes w = w.lane ∷ w.fallbacks

-- `orchestrator.NewLane` over a provider and a new breaker.
abbrev pub new_lane : ℤ → ℤ → String → Option Client → Lane
new_lane base open_duration name pacer = record {
  name = name;
  breaker = Circuit.new base open_duration;
  pacer = pacer;
}

-- `pacer` is the fetcher where it implements `AdaptivePacer`.
unfoldable pub new : Option Client → Worker
unfolding Circuit.new
new pacer =
    let lane =
      new_lane default_circuit_backoff_base default_circuit_open_duration "musixmatch" pacer in
    record {
      orch = record {
        lanes = lane ∷ [];
        guard = none;
        mode = mode_ordered;
        race_wait = default_race_wait;
      };
      lane = lane;
      fallbacks = [];
      verifier = false;
      verify_below_confidence = default_verify_below;
      audio_detector = false;
      detect_instrumental_default = false;
      script_guard = none;
      provider_recorder = false;
      consecutive_failures = 0;
      last_fail_id = 0;
      last_fail_artist = "";
      last_fail_track = "";
      base_backoff = default_base;
      max_backoff = default_max;
      circuit_backoff_base = default_circuit_backoff_base;
      circuit_open_duration = default_circuit_open_duration;
      miss_backoff_base = default_miss_base;
      miss_backoff_cap = default_miss_cap;
      max_miss_attempts = 0;
      providers_version = 0;
      mode = mode_ordered;
      race_wait = default_race_wait;
    }
