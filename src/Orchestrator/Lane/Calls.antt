-- ===== src/Orchestrator/Lane/Calls.antt =====
-- What one call of a lane (internal/orchestrator/lane.go) does, by the provider's reply.
use mxlrcgo_svc.Common.{ℕ, String, ◌||◌, ◌≡◌, ◌≢◌, refl, Option, none, some, if◌then◌else◌, arith}
use mathlib.Core.Option
use mxlrcgo_svc.Models.{no_song}
use mxlrcgo_svc.Circuit.{
  Breaker, BreakerState, closed, open_, half_open, allow, trip, trip_renewal, record_success,
  record_benign_miss, ever_succeeded,
}
use mxlrcgo_svc.Pacer.{on_throttle, on_success}
use mxlrcgo_svc.Errors.{
  Err, sentinel, wrapped, rate_limited, truncated_response, token_renewal_required,
  lane_unavailable, errors_is, is_benign_miss, classify_outcome, OutcomeClass, success, benign_miss,
  auth_rate_limit, unavailable,
}
use mxlrcgo_svc.Orchestrator.Lane.{
  Lane, Turn, answer, gate, notify_throttle, notify_success, classify, find_lyrics,
}

-- The lane after a throttle signal `e`.
abbrev throttled_lane : Lane → ℕ → Err → Lane
throttled_lane l now e = record l {
  breaker = (trip l.breaker now).0;
  pacer =
      if errors_is e rate_limited || errors_is e truncated_response || ever_succeeded l.breaker
      then Option.map on_throttle l.pacer
      else l.pacer;
}

-- The lane after a reply of each class. Only a throttle signal moves the ramp; a renewal opens the
-- full window; a transport failure changes nothing.
abbrev pub lane_after : Lane → ℕ → Option Err → OutcomeClass → Lane
lane_after l now _ success = record l {
  breaker = (record_success l.breaker).0;
  pacer = Option.map on_success l.pacer;
}
lane_after l now _ benign_miss = record l { breaker = (record_benign_miss l.breaker).0 }
lane_after l now (some e) auth_rate_limit =
    if errors_is e token_renewal_required
    then record l { breaker = (trip_renewal l.breaker now).0 }
    else throttled_lane l now e
lane_after l now _ _ = l

-- A lane whose breaker is open answers that it is unavailable, with no song, and is left as it was:
-- neither the breaker nor the pacer moves.
pub find_lyrics_open :
    (l : Lane) (t : Turn)
    → (allow l.breaker t.asked).1 ≡ open_
    → find_lyrics l t ≡ (l, no_song, some (sentinel lane_unavailable))
unfolding find_lyrics allow
find_lyrics_open l t h = ground arith

wrapped-class :
    (m : String) (e : Err) → classify_outcome (some (wrapped m e)) ≡ classify_outcome (some e)
unfolding classify_outcome is_benign_miss errors_is
wrapped-class m e = refl

-- A reply keeps its class through the lane, and its class fixes what becomes of the lane.
classify-lane_after :
    (l : Lane) (now : ℕ) (e : Err)
    → classify_outcome (some e) ≢ unavailable
    → ((classify l now e).0 ≡ lane_after l now (some e) (classify_outcome (some e)))
      × (classify_outcome (some (classify l now e).1) ≡ classify_outcome (some e))
unfolding classify classify_outcome notify_throttle ever_succeeded trip
classify-lane_after l now e u = ground (arith, wrapped-class "find lyrics" e)

answer-lane_after :
    (l : Lane) (t : Turn) (e : Option Err)
    → classify_outcome e ≢ unavailable
    → ((answer l t e).0 ≡ lane_after l t.answered e (classify_outcome e))
      × (classify_outcome (answer l t e).2 ≡ classify_outcome e)
unfolding answer classify_outcome notify_success
answer-lane_after l t none u = (refl, refl)
answer-lane_after l t (some e) u = classify-lane_after l t.answered e u

gate-answer :
    (l : Lane) (t : Turn) (b : Breaker) (s : BreakerState)
    → s ≢ open_
    → gate l t (b, s) ≡ answer (record l { breaker = b }) t t.err
unfolding gate
gate-answer l t b open_ h = absurd (h refl)
gate-answer l t b half_open h = refl
gate-answer l t b closed h = refl

-- A lane whose gate lets the call through, with a provider that does not itself report an
-- unavailable lane: the reply's outcome class is the class that the caller sees, and it fixes the
-- lane afterwards. A success closes the breaker and eases the pacer; a benign miss closes the
-- breaker only; a renewal opens the full window and moves neither ramp nor pacer; any other auth or
-- rate-limit signal trips the breaker and slows the pacer, a bare 401 only once the token has worked;
-- a transport failure leaves the lane as the gate left it.
pub find_lyrics_asked :
    (l : Lane) (t : Turn)
    → (allow l.breaker t.asked).1 ≢ open_
    → classify_outcome t.err ≢ unavailable
    → let passed : Lane = record l { breaker = (allow l.breaker t.asked).0 } in
      ((find_lyrics l t).0 ≡ lane_after passed t.answered t.err (classify_outcome t.err))
      × (classify_outcome (find_lyrics l t).2 ≡ classify_outcome t.err)
unfolding find_lyrics
find_lyrics_asked l t h u =
    let b = (allow l.breaker t.asked).0 in
    rw (gate-answer l t b (allow l.breaker t.asked).1 h)
      (answer-lane_after (record l { breaker = b }) t t.err u)

classify-name : (l : Lane) (now : ℕ) (e : Err) → (classify l now e).0.name ≡ l.name
unfolding classify notify_throttle
classify-name l now e = ground arith

answer-name : (l : Lane) (t : Turn) (e : Option Err) → (answer l t e).0.name ≡ l.name
unfolding answer notify_success
answer-name l t none = refl
answer-name l t (some e) = classify-name l t.answered e

gate-name :
    (l : Lane) (t : Turn) (b : Breaker) (s : BreakerState) → (gate l t (b, s)).0.name ≡ l.name
unfolding gate
gate-name l t b open_ = refl
gate-name l t b half_open = answer-name (record l { breaker = b }) t t.err
gate-name l t b closed = answer-name (record l { breaker = b }) t t.err

pub find_lyrics-name : (l : Lane) (t : Turn) → (find_lyrics l t).0.name ≡ l.name
unfolding find_lyrics
find_lyrics-name l t = gate-name l t (allow l.breaker t.asked).0 (allow l.breaker t.asked).1
