-- ===== src/Orchestrator/Lane.antt =====
-- internal/orchestrator/lane.go: a provider behind its circuit breaker. What the provider answers
-- and what the clock reads during one call are inputs of the call. The log lines are left out, and with
-- them `escalationThreshold`.
pub mod Calls
use mxlrcgo_svc.Common.{
  ℕ, String, Bool, true, false, ◌||◌, ◌&&◌, Option, none, some, if◌then◌else◌, str_eq,
}
use mathlib.Core.Option
use mxlrcgo_svc.Models.{Song, no_song}
use mxlrcgo_svc.Circuit.{
  Breaker, BreakerState, closed, open_, half_open, allow, trip, trip_renewal, record_success,
  record_benign_miss, ever_succeeded,
}
use mxlrcgo_svc.Pacer.{Client, on_throttle, on_success}
use mxlrcgo_svc.Errors.{
  Err, sentinel, wrapped, unauthorized, rate_limited, truncated_response, token_renewal_required,
  lane_unavailable, errors_is, is_benign_miss,
}

-- A lane; `pacer` is the provider's client where it implements `AdaptivePacer`.
pub record Lane : Type 0 where
  pub name : String
  pub breaker : Breaker
  pub pacer : Option Client

-- What happens around one call: the clock as the gate is checked and as an error is classified,
-- and the provider's reply, should it be asked.
pub record Turn : Type 0 where
  pub asked : ℕ
  pub answered : ℕ
  pub song : Song
  pub err : Option Err

unfoldable pub notify_throttle : Lane → Lane
notify_throttle l = record l { pacer = Option.map on_throttle l.pacer }

unfoldable pub notify_success : Lane → Lane
notify_success l = record l { pacer = Option.map on_success l.pacer }

-- Which throttle signals ratchet the pacer: a 401 only once the token has worked.
ratchets : Breaker → Err → Bool
ratchets b e =
    errors_is e rate_limited
    || errors_is e truncated_response
    || (errors_is e unauthorized && ever_succeeded b)

unfoldable pub classify : Lane → ℕ → Err → Lane × Err
unfolding ratchets
classify l now e =
    if errors_is e token_renewal_required
    then (record l { breaker = (trip_renewal l.breaker now).0 }, e)
    else if errors_is e rate_limited || errors_is e unauthorized || errors_is e truncated_response
    then (let tripped = record l { breaker = (trip l.breaker now).0 } in
        (if ratchets tripped.breaker e then notify_throttle tripped else tripped, e))
    else if is_benign_miss e
    then (record l { breaker = (record_benign_miss l.breaker).0 }, e)
    else (l, wrapped "find lyrics" e)

-- `FindLyrics` once the gate is passed.
answer : Lane → Turn → Option Err → Lane × Song × Option Err
answer l t (some e) = let (l', e') = classify l t.answered e in (l', no_song, some e')
answer l t none =
    (notify_success (record l { breaker = (record_success l.breaker).0 }), t.song, none)

gate : Lane → Turn → Breaker × BreakerState → Lane × Song × Option Err
gate l t (b, open_) = (record l { breaker = b }, no_song, some (sentinel lane_unavailable))
gate l t (b, half_open) = answer (record l { breaker = b }) t t.err
gate l t (b, closed) = answer (record l { breaker = b }) t t.err

unfoldable pub find_lyrics : Lane → Turn → Lane × Song × Option Err
unfolding gate answer
find_lyrics l t = gate l t (allow l.breaker t.asked)
