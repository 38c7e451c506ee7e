-- ===== src/Circuit.antt =====
-- internal/circuit/breaker.go: the circuit breaker of one provider lane. Each method runs whole
-- under the mutex, so a method is a function from the breaker and the clock's reading to the new
-- breaker and the method's result. An instant is a number of nanoseconds since Go's zero time, and
-- the zero instant is `IsZero`.
pub mod Ramp
pub mod Window
pub mod Diagram
mod Examples
use mxlrcgo_svc.Common.{
  List, [], ◌∷◌, ℕ, suc, ◌+◌, ◌-◌, Bool, true, false, not, ltb, ◌==◌, if◌then◌else◌,
}
use mxlrcgo_svc.Common.Int.{ℤ, pos, negsuc, positive}
use mxlrcgo_svc.Backoff.{geometric}

pub data BreakerState : Type 0 where
  closed open_ half_open : BreakerState

pub record TripResult : Type 0 where
  pub trips : ℕ
  pub window : ℤ
  pub open_until : ℕ

pub record Breaker : Type 0 where
  pub backoff_base : ℤ
  pub open_duration : ℤ
  pub open_until : ℕ
  pub consecutive_trips : ℕ
  pub probing : Bool
  pub ever_provider_success : Bool

-- `time.Time.Add`.
abbrev pub add_time : ℕ → ℤ → ℕ
add_time t (pos d) = t + d
add_time t (negsuc d) = t - suc d

unfoldable pub new : ℤ → ℤ → Breaker
new backoff_base open_duration = record {
  backoff_base = backoff_base;
  open_duration = open_duration;
  open_until = 0;
  consecutive_trips = 0;
  probing = false;
  ever_provider_success = false;
}

unfoldable pub set_backoff : ℤ → ℤ → Breaker → Breaker
set_backoff base cap b = record b {
  backoff_base = if positive base then base else b.backoff_base;
  open_duration = if positive cap then cap else b.open_duration;
}

unfoldable pub set_open_duration : ℤ → Breaker → Breaker
set_open_duration d b = record b { open_duration = if positive d then d else b.open_duration }

-- The last test of `Allow`.
abbrev pub probe_state : Bool → BreakerState
probe_state true = half_open
probe_state false = closed

unfoldable pub allow : Breaker → ℕ → Breaker × BreakerState
allow b now =
    if not (b.open_until == 0)
    then if ltb now b.open_until
      then (b, open_)
      else (record b { probing = true; open_until = 0 }, half_open)
    else (b, probe_state b.probing)

unfoldable pub trip : Breaker → ℕ → Breaker × TripResult
trip b now =
    let trips = suc b.consecutive_trips in
    let window = geometric (pos trips) b.backoff_base b.open_duration in
    let until = add_time now window in
    (
      record b { consecutive_trips = trips; open_until = until; probing = false },
      record { trips = trips; window = window; open_until = until },
    )

unfoldable pub trip_renewal : Breaker → ℕ → Breaker × TripResult
trip_renewal b now =
    let until = add_time now b.open_duration in
    (
      record b { open_until = until; probing = false },
      record { trips = b.consecutive_trips; window = b.open_duration; open_until = until },
    )

unfoldable pub record_success : Breaker → Breaker × Bool
record_success b =
    (record b { ever_provider_success = true; consecutive_trips = 0; probing = false }, b.probing)

unfoldable pub record_benign_miss : Breaker → Breaker × Bool
record_benign_miss b = (record b { consecutive_trips = 0; probing = false }, b.probing)

-- The read-only accessors `OpenUntil`, `Trips` and `EverSucceeded`.
unfoldable pub trips : Breaker → ℕ
trips b = b.consecutive_trips

unfoldable pub ever_succeeded : Breaker → Bool
ever_succeeded b = b.ever_provider_success

-- One call of a method, with the clock's reading where the method reads the clock.
pub data Call : Type 0 where
  allows : ℕ → Call
  trips_at : ℕ → Call
  renews_at : ℕ → Call
  succeeds : Call
  misses : Call
  sets_backoff : ℤ → ℤ → Call
  sets_open_duration : ℤ → Call

unfoldable pub step : Breaker → Call → Breaker
unfolding allow trip trip_renewal record_success record_benign_miss set_backoff set_open_duration
step b (allows now) = (allow b now).0
step b (trips_at now) = (trip b now).0
step b (renews_at now) = (trip_renewal b now).0
step b succeeds = (record_success b).0
step b misses = (record_benign_miss b).0
step b (sets_backoff base cap) = set_backoff base cap b
step b (sets_open_duration d) = set_open_duration d b

unfoldable pub run : Breaker → List Call → Breaker
run b [] = b
run b (c ∷ cs) = run (step b c) cs
