-- ===== src/Limiter/Failures.antt =====
-- When the hard lockout of internal/web/ratelimit.go begins and ends.
use mxlrcgo_svc.Common.{
  ℕ, suc, ◌+◌, ◌<◌, ◌≡◌, refl, sym, subst, ◌∙◌, String, false, not, ◌&&◌, none, some, List, [], ◌∷◌,
  map, ltb, leb, if◌then◌else◌, eq_iff, length, arith,
}
use mxlrcgo_svc.Common.Assoc.{lookup, put, lookup-put}
use mxlrcgo_svc.Limiter.{
  AttemptState, LoginLimiter, Readings, fails, allow, is_locked, make_room, count_failure,
  after_failure, fail, step, run, no_attempts,
}

-- The end of the lock after the failures `ts` of an address that had `f` failures before.
abbrev pub lock_after : LoginLimiter → ℕ → ℕ → List Readings → ℕ
lock_after l f until [] = until
lock_after l f until (t ∷ ts) =
    lock_after l (suc f) (if leb l.max_failures (suc f) then t.at_lock + l.lockout else until) ts

-- The last reading for `lockedUntil`.
abbrev pub last_lock : ℕ → List Readings → ℕ
last_lock d [] = d
last_lock d (t ∷ ts) = last_lock t.at_lock ts

lock_after-last :
    (l : LoginLimiter) (f until : ℕ) (t : Readings) (ts : List Readings)
    → lock_after l f until (t ∷ ts) ≡ (
        if leb l.max_failures (f + suc (length ts))
        then last_lock t.at_lock ts + l.lockout
        else until)
lock_after-last l f until t [] = ground arith
lock_after-last l f until t (s ∷ ts) = ground (
  arith,
  lock_after-last l (suc f) (if leb l.max_failures (suc f) then t.at_lock + l.lockout else until) s
      ts,
)

abbrev last_seen_of : ℕ → List Readings → ℕ
last_seen_of d [] = d
last_seen_of d (t ∷ ts) = last_seen_of t.at_seen ts

abbrev after_failures : LoginLimiter → AttemptState → List Readings → AttemptState
after_failures l st ts = record {
  failures = st.failures + length ts;
  locked_until = lock_after l st.failures st.locked_until ts;
  last_seen = last_seen_of st.last_seen ts;
}

fail-known :
    (l : LoginLimiter) (ip : String) (st : AttemptState) (t : Readings)
    → lookup ip l.attempts ≡ some st
    → (fail l ip t).0 ≡ record l { attempts = put ip (after_failure l st t) l.attempts }
unfolding fail count_failure
fail-known l ip st t e = rw (e, fail)

fail-unknown :
    (l : LoginLimiter) (ip : String) (t : Readings)
    → lookup ip l.attempts ≡ none
    → length l.attempts < l.max_entries
    → (fail l ip t).0 ≡ record l { attempts = put ip (after_failure l no_attempts t) l.attempts }
unfolding fail count_failure make_room
fail-unknown l ip t e h =
    let room : leb l.max_entries (length l.attempts) ≡ false = ground arith in
    rw (e, fail) (rw (room, make_room) (rw room refl))

allow-entry :
    (l : LoginLimiter) (ip : String) (st : AttemptState) (now : ℕ)
    → lookup ip l.attempts ≡ some st
    → (allow l ip now).1 ≡ not (is_locked now st)
unfolding allow
allow-entry l ip st now e = ground arith

run-fails :
    (l : LoginLimiter) (ip : String) (st : AttemptState) (ts : List Readings)
    → lookup ip l.attempts ≡ some st
    → lookup ip (run l (map (fails ip) ts)).attempts ≡ some (after_failures l st ts)
unfolding run step after_failure
run-fails l ip st [] e = ground (arith)
run-fails l ip st (t ∷ ts) e =
    let counted = record l { attempts = put ip (after_failure l st t) l.attempts } in
    let hit : lookup ip counted.attempts ≡ some (after_failure l st t) =
      ground (arith, lookup-put ip ip (after_failure l st t) l.attempts, eq_iff ip ip) in
    subst
      (λ l'. lookup ip (run l' (map (fails ip) ts)).attempts ≡ some (after_failures l st (t ∷ ts)))
      (sym (fail-known l ip st t e))
      (ground (arith, run-fails counted ip (after_failure l st t) ts hit))

-- An address that is not in the map, when there is room for it, and then fails once or more with no success
-- in between: after k failures its next attempt is refused exactly when k has reached
-- `maxFailures` and the attempt falls before the last failure's clock reading plus the lockout.
pub run-fails-allow :
    (l : LoginLimiter) (ip : String) (t : Readings) (ts : List Readings) (now : ℕ)
    → lookup ip l.attempts ≡ none
    → length l.attempts < l.max_entries
    → 0 < l.lockout
    → (allow (run l (map (fails ip) (t ∷ ts))) ip now).1
      ≡ not (leb l.max_failures (suc (length ts)) && ltb now (last_lock t.at_lock ts + l.lockout))
unfolding run step after_failure
run-fails-allow l ip t ts now e room long =
    let counted = record l { attempts = put ip (after_failure l no_attempts t) l.attempts } in
    let hit : lookup ip counted.attempts ≡ some (after_failure l no_attempts t) =
      ground (arith, lookup-put ip ip (after_failure l no_attempts t) l.attempts, eq_iff ip ip) in
    subst
      (λ l'.
        (allow (run l' (map (fails ip) ts)) ip now).1
        ≡ not
            (leb l.max_failures (suc (length ts)) && ltb now (last_lock t.at_lock ts + l.lockout)))
      (sym (fail-unknown l ip t e room))
      (allow-entry (run counted (map (fails ip) ts)) ip
          (after_failures counted (after_failure l no_attempts t) ts) now
          (run-fails counted ip (after_failure l no_attempts t) ts hit)
        ∙ ground (arith, lock_after-last counted 0 0 t ts))
