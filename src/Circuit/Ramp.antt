-- ===== src/Circuit/Ramp.antt =====
-- How the breaker of internal/circuit/breaker.go climbs its ramp of windows.
use mxlrcgo_svc.Common.{
  ℕ, suc, ◌+◌, ◌*◌, ◌^◌, ◌≤◌, ◌<◌, min, ◌≡◌, refl, false, List, [], ◌∷◌, arith,
}
use mxlrcgo_svc.Common.Int.{pos, int64_max}
use mxlrcgo_svc.Backoff.Exact.{geometric-schedule}
use mxlrcgo_svc.Circuit.{
  Breaker, Call, allows, trips_at, renews_at, succeeds, misses, sets_backoff, sets_open_duration,
  allow, trip, step, run,
}

-- The throttle trips since the last round trip that reached the provider, counted from `n`.
abbrev pub count_trips : ℕ → List Call → ℕ
count_trips n [] = n
count_trips n (trips_at now ∷ cs) = count_trips (suc n) cs
count_trips n (succeeds ∷ cs) = count_trips 0 cs
count_trips n (misses ∷ cs) = count_trips 0 cs
count_trips n (allows now ∷ cs) = count_trips n cs
count_trips n (renews_at now ∷ cs) = count_trips n cs
count_trips n (sets_backoff base cap ∷ cs) = count_trips n cs
count_trips n (sets_open_duration d ∷ cs) = count_trips n cs

run-count_trips :
    (b : Breaker) (cs : List Call)
    → (run b cs).consecutive_trips ≡ count_trips b.consecutive_trips cs
unfolding run step
run-count_trips b [] = refl
run-count_trips b (allows now ∷ cs) = ground (arith, run-count_trips (allow b now).0 cs)
run-count_trips b (trips_at now ∷ cs) = run-count_trips _ cs
run-count_trips b (renews_at now ∷ cs) = run-count_trips _ cs
run-count_trips b (succeeds ∷ cs) = run-count_trips _ cs
run-count_trips b (misses ∷ cs) = run-count_trips _ cs
run-count_trips b (sets_backoff base cap ∷ cs) = run-count_trips _ cs
run-count_trips b (sets_open_duration d ∷ cs) = run-count_trips _ cs

-- After any calls at all, the next throttle trip opens the breaker for min (base * 2 ^ k) cap,
-- where k counts the throttle trips since the last success or benign miss: renewals, gate checks
-- and setters in between do not move the ramp. Base and cap are those in force, positive and
-- within int64.
pub run-trip_window :
    (b : Breaker) (cs : List Call) (now base cap : ℕ)
    → (run b cs).backoff_base ≡ pos base
    → (run b cs).open_duration ≡ pos cap
    → 0 < base
    → 0 < cap
    → cap ≤ int64_max
    → let k = count_trips b.consecutive_trips cs in
      let (after, told) = trip (run b cs) now in
      (told.window ≡ pos (min (base * 2 ^ k) cap))
      × (told.trips ≡ suc k)
      × (after.open_until ≡ now + min (base * 2 ^ k) cap)
      × (after.probing ≡ false)
unfolding trip
run-trip_window b cs now base cap eb ec hb hc h = ground (
  arith,
  run-count_trips b cs,
  geometric-schedule (pos (suc (count_trips b.consecutive_trips cs))) (pos base) (pos cap) h,
)
