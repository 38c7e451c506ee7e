-- ===== src/Pacer/Examples.antt =====
-- Runs of the pacer of internal/musixmatch/client.go.
use mxlrcgo_svc.Common.{
  suc, ◌+◌, ◌-◌, ◌/◌, ◌^◌, ◌≤◌, min, ◌≡◌, refl, true, false, List, [], ◌∷◌, arith,
}
use mxlrcgo_svc.Common.Int.{pos, int64}
use mxlrcgo_svc.Pacer.{Client, new_client, with_min_interval, on_throttle, reserve, cancel}
use mxlrcgo_svc.Pacer.Adaptive.{notify_all, successes, notify_all-throttle_then_successes}
use mxlrcgo_svc.Pacer.Spacing.{Caller, Event, arrives, cancels, run, step, run-spacing}

abbrev fifteen : Client
unfolding new_client with_min_interval
fifteen = with_min_interval (pos 15) new_client

notify_all-throttle_then_successes_test :
    let before = notify_all fifteen (true ∷ true ∷ []) in
    let after = notify_all (on_throttle before) (successes 7) in
    (after.adaptive_level ≡ min 3 (suc before.adaptive_level) - 7 / 5)
    × (1 ≤ 2 ^ after.adaptive_level)
    × (2 ^ after.adaptive_level ≤ 8)
unfolding new_client with_min_interval
notify_all-throttle_then_successes_test =
    notify_all-throttle_then_successes fifteen (true ∷ true ∷ []) 7
      (record { capped = omega arith; streak = omega arith })

-- Three callers at once; the last gives its slot back and a fourth takes it.
abbrev busy : List Event
busy = arrives 1000 ∷ arrives 1000 ∷ arrives 1001 ∷ cancels 0 ∷ arrives 1002 ∷ []

abbrev fourth : Caller
fourth = record { slot = record { prev = 1015; next = 1030; wait = 28 }; cancelled = false }

abbrev second : Caller
second = record { slot = record { prev = 1000; next = 1015; wait = 15 }; cancelled = false }

run-spacing_example : 1015 + 15 ≤ fourth.slot.next
unfolding run step reserve cancel new_client with_min_interval int64
run-spacing_example =
    run-spacing fifteen 15 0 2 busy fourth second refl (omega arith) (omega arith) (omega arith)
      refl refl (omega arith) refl refl
