-- ===== src/Circuit/Examples.antt =====
-- Runs of the breaker of internal/circuit/breaker.go.
use mxlrcgo_svc.Common.{
  inl, ◌≡◌, refl, ◌+◌, ◌<◌, List, [], ◌∷◌, map, true, false, arith, min, ◌*◌, ◌^◌, length, All,
}
use mxlrcgo_svc.Common.Int.{ℤ, pos, negsuc}
use mxlrcgo_svc.Circuit.{
  Breaker, Call, allows, trips_at, renews_at, new, step, run, trip, allow, closed, open_, half_open,
  record_success, record_benign_miss,
}
use mxlrcgo_svc.Circuit.Ramp.{run-trip_window}
use mxlrcgo_svc.Circuit.Window.{window_cycle}
use mxlrcgo_svc.Circuit.Diagram.{step-Move, IsConsistent, Move, view}

abbrev fresh : Breaker
unfolding new
fresh = new (pos 60) (pos 3600)

abbrev throttled : List Call
throttled = trips_at 1000 ∷ allows 2000 ∷ renews_at 2001 ∷ trips_at 9000 ∷ []

third_trip : (trip (run fresh throttled) 10_000).0.open_until ≡ 10_240
unfolding run step new trip mxlrcgo_svc.Backoff.geometric mxlrcgo_svc.Common.Int.int64
third_trip = refl

run-trip_window_example :
    let (after, told) = trip (run fresh throttled) 10_000 in
    (told.window ≡ pos (min (60 * 2 ^ 2) 3600))
    × (told.trips ≡ 3)
    × (after.open_until ≡ 10_000 + min (60 * 2 ^ 2) 3600)
    × (after.probing ≡ false)
unfolding run step new mxlrcgo_svc.Backoff.geometric
run-trip_window_example =
    run-trip_window fresh throttled 10_000 60 3600 refl refl (omega arith) (omega arith)
      (omega arith)

abbrev opened_at_1000 : Breaker
unfolding trip new
opened_at_1000 = (trip fresh 1000).0

window_cycle_test :
    let waiting = run opened_at_1000 (map allows (1010 ∷ 1059 ∷ [])) in
    let probed = (allow waiting 1060).0 in
    let still = run probed (map allows (1061 ∷ [])) in
    ((allow waiting 1059).1 ≡ open_)
    × ((allow waiting 1060).1 ≡ half_open)
    × ((allow still 1070).1 ≡ half_open)
    × ((record_success still).1 ≡ true)
    × ((allow (record_success still).0 1070).1 ≡ closed)
    × ((record_benign_miss still).1 ≡ true)
    × ((allow (record_benign_miss still).0 1070).1 ≡ closed)
unfolding trip new mxlrcgo_svc.Backoff.geometric
window_cycle_test =
    window_cycle opened_at_1000 (1010 ∷ 1059 ∷ []) (1061 ∷ []) 1059 1060 1070 (omega arith) refl
      (omega arith) (omega arith) (omega arith)

step-Move_example :
    IsConsistent (step fresh (trips_at 1000))
    × Move (view fresh) (view (step fresh (trips_at 1000)))
unfolding new
step-Move_example = step-Move fresh (trips_at 1000) (inl refl) (omega arith, omega arith)
