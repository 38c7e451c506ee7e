-- ===== src/Limiter/Examples.antt =====
-- Runs of internal/web/ratelimit.go.
use mxlrcgo_svc.Common.{
  ℕ, suc, ◌+◌, ◌-◌, ◌≤◌, ◌<◌, ◌≡◌, refl, String, Bool, true, false, not, ◌&&◌, Option, none, some,
  List, [], ◌∷◌, map, ltb, leb, inl, inr, length, All, arith, eq_iff, str_eq,
}
use mxlrcgo_svc.Common.Assoc.{lookup, put, Unique}
use mxlrcgo_svc.Limiter.{
  AttemptState, LoginLimiter, Readings, Call, allows, fails, succeeds, allow, fail, success, step,
  run, backoff_for, new_login_limiter,
}
use mxlrcgo_svc.Limiter.Bound.{run-IsBounded}
use mxlrcgo_svc.Limiter.Schedule.{backoff_for-promised, promised}
use mxlrcgo_svc.Limiter.Lockout.{run-allow_locked}
use mxlrcgo_svc.Limiter.Failures.{run-fails-allow, last_lock}

-- Two places, two failures allowed.
abbrev small : LoginLimiter
small = record {
  attempts = [];
  base_backoff = 1;
  max_backoff = 8;
  max_failures = 2;
  lockout = 900;
  idle_evict_after = 1000;
  max_entries = 2;
}

abbrev at : ℕ → Readings
at t = record { at_sweep = t; at_evict = t; at_seen = t; at_lock = t }

abbrev attacks : List Call
attacks = fails "a" (at 5000) ∷ fails "b" (at 5001) ∷ fails "c" (at 5002) ∷ fails "a" (at 5003) ∷ []

third_address_evicts :
    (run small attacks).attempts
    ≡ ("c", record { failures = 1; locked_until = 0; last_seen = 5002 })
      ∷ ("a", record { failures = 1; locked_until = 0; last_seen = 5003 })
      ∷ []
unfolding run step fail lookup mxlrcgo_svc.Limiter.make_room mxlrcgo_svc.Limiter.count_failure put
    mxlrcgo_svc.Limiter.after_failure mxlrcgo_svc.Common.Assoc.delete
third_address_evicts = refl

run-IsBounded_example : length (run small attacks).attempts ≤ 2
run-IsBounded_example = run-IsBounded small attacks (omega arith)

backoff_for-promised_test : backoff_for new_login_limiter 40 ≡ promised 40
backoff_for-promised_test = backoff_for-promised 40

abbrev locked_entry : AttemptState
locked_entry = record { failures = 2; locked_until = 5900; last_seen = 5000 }

abbrev holding : LoginLimiter
holding = record small { attempts = ("a", locked_entry) ∷ [] }

abbrev noise : List Call
noise = fails "b" (at 5100) ∷ fails "c" (at 5200) ∷ allows "a" 5300 ∷ succeeds "b" ∷ []

run-allow_locked_example :
    (allow (run holding noise) "a" 5400 ≡ (run holding noise, false, 5900 - 5400))
    × ((allow (run holding noise) "a" 6000).1 ≡ true)
    × (lookup "a" (allow (run holding noise) "a" 6000).0.attempts ≡ none)
unfolding lookup
run-allow_locked_example =
    run-allow_locked holding "a" noise locked_entry 5400 6000 (refl, (refl, tt))
      (
        (refl, omega arith, omega arith),
        ((refl, omega arith, omega arith), (inr (omega arith), (refl, tt))),
      )
      (omega arith) (omega arith)

run-fails-allow_test :
    (allow (run small (map (fails "a") (at 5000 ∷ at 5010 ∷ []))) "a" 5020).1
    ≡ not (leb 2 2 && ltb 5020 (last_lock 5000 (at 5010 ∷ []) + 900))
unfolding lookup
run-fails-allow_test =
    run-fails-allow small "a" (at 5000) (at 5010 ∷ []) 5020 refl (omega arith) (omega arith)
