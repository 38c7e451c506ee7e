-- ===== src/Limiter/Bound.antt =====
-- The memory bound of internal/web/ratelimit.go.
use mxlrcgo_svc.Common.{
  ℕ, suc, ◌≤◌, ◌≡◌, refl, String, List, [], ◌∷◌, if◌then◌else◌, keep, length, length-keep-le, arith,
  Option-cases, inl, inr, is_some,
}
use mxlrcgo_svc.Common.Assoc.{lookup, length-delete-le, length-put}
use mxlrcgo_svc.Limiter.{
  AttemptState, Attempts, LoginLimiter, Readings, Call, allows, fails, succeeds, allow,
  survives_sweep, find_oldest, evict_idle_locked, evict_oldest_locked, make_room, count_failure,
  fail, success, step, run, no_attempts,
}

evict_oldest_locked-le : (now : ℕ) (m : Attempts) → length (evict_oldest_locked now m) ≤ length m
unfolding evict_oldest_locked
evict_oldest_locked-le now m = ground (arith, length-delete-le (find_oldest now "" 0 m) m)

make_room-le : (l : LoginLimiter) (t : Readings) → length (make_room l t) ≤ length l.attempts
unfolding make_room evict_idle_locked
make_room-le l t =
    let swept = keep (survives_sweep t.at_sweep l.idle_evict_after) l.attempts in
    ground (
      arith,
      length-keep-le (survives_sweep t.at_sweep l.idle_evict_after) l.attempts,
      evict_oldest_locked-le t.at_evict swept,
    )

-- The map stays within the limit that the limiter was built with.
abbrev pub IsBounded : LoginLimiter → Type 0
IsBounded l = length l.attempts ≤ l.max_entries

count_failure-length :
    (l : LoginLimiter) (ip : String) (st : AttemptState) (t : Readings)
    → (length (count_failure l ip st t).0.attempts
        ≡ (if is_some (lookup ip l.attempts) then length l.attempts else suc (length l.attempts)))
      × ((count_failure l ip st t).0.max_entries ≡ l.max_entries)
unfolding count_failure
count_failure-length l ip st t = (length-put ip _ l.attempts, refl)

fail-IsBounded :
    (l : LoginLimiter) (ip : String) (t : Readings)
    → IsBounded l
    → IsBounded (fail l ip t).0 × ((fail l ip t).0.max_entries ≡ l.max_entries)
unfolding fail
fail-IsBounded l ip t h = elim (Option-cases (lookup ip l.attempts)) [
  | inl e ↦
      rw (e, fail)
        (ground (
          arith,
          make_room-le l t,
          count_failure-length (record l { attempts = make_room l t }) ip no_attempts t,
        ))
  | inr (st, e) ↦ rw (e, fail) (ground (arith, count_failure-length l ip st t))
]

-- No method lets the map grow past `maxEntries`, which none of them changes.
step-IsBounded :
    (l : LoginLimiter) (c : Call)
    → IsBounded l
    → IsBounded (step l c) × ((step l c).max_entries ≡ l.max_entries)
unfolding step
step-IsBounded l (allows ip now) h = unfold allow in ground (arith, length-delete-le ip l.attempts)
step-IsBounded l (fails ip t) h = fail-IsBounded l ip t h
step-IsBounded l (succeeds ip) h = unfold success in ground (arith, length-delete-le ip l.attempts)

-- From any limiter within its limit, every sequence of attempts, failures and successes, from any
-- addresses and with any clock readings, keeps at most `maxEntries` addresses in memory.
pub run-IsBounded :
    (l : LoginLimiter) (cs : List Call) → IsBounded l → length (run l cs).attempts ≤ l.max_entries
unfolding run
run-IsBounded l [] h = h
run-IsBounded l (c ∷ cs) h =
    let (kept, same) = step-IsBounded l c h in omega (arith, run-IsBounded (step l c) cs kept, same)
