-- ===== src/Limiter/Lockout.antt =====
-- The hard lockout of internal/web/ratelimit.go: who cannot lift it.
use mxlrcgo_svc.Common.{
  ℕ, ◌-◌, ◌≤◌, ◌<◌, ◌≡◌, ◌⊎◌, String, true, false, none, some, List, [], ◌∷◌, leb, str_eq, eq_iff,
  keep, length, All, arith, Bool-cases, Option-cases, inl, inr,
}
use mxlrcgo_svc.Common.Assoc.{
  lookup, lookup-put, lookup-delete, Unique, put-Unique, delete-Unique, keep-Unique,
}
use mxlrcgo_svc.Limiter.{
  AttemptState, Attempts, LoginLimiter, Readings, Call, allows, fails, succeeds, allow,
  survives_sweep, find_oldest, evict_idle_locked, evict_oldest_locked, make_room, count_failure,
  after_failure, fail, success, step, run, no_attempts,
}

-- The first entry of an address with an active lockout stays through the sweep.
lookup-sweep :
    (now idle : ℕ) (ip : String) (m : Attempts) (st : AttemptState)
    → lookup ip m ≡ some st
    → now < st.locked_until
    → lookup ip (keep (survives_sweep now idle) m) ≡ some st
unfolding lookup
lookup-sweep now idle ip [] st e h = e
lookup-sweep now idle ip ((j, w) ∷ m) st e h = ground (arith, lookup-sweep now idle ip m st)

find_oldest-absent :
    (now oldest : ℕ) (o ip : String) (m : Attempts)
    → lookup ip m ≡ none
    → str_eq o ip ≡ false
    → str_eq (find_oldest now o oldest m) ip ≡ false
unfolding lookup find_oldest
find_oldest-absent now oldest o ip [] e h = h
find_oldest-absent now oldest o ip ((j, w) ∷ m) e h =
    ground (arith, find_oldest-absent now w.last_seen j ip m, find_oldest-absent now oldest o ip m)

find_oldest-locked :
    (now oldest : ℕ) (o ip : String) (m : Attempts) (st : AttemptState)
    → Unique m
    → lookup ip m ≡ some st
    → now < st.locked_until
    → str_eq o ip ≡ false
    → str_eq (find_oldest now o oldest m) ip ≡ false
unfolding lookup find_oldest
find_oldest-locked now oldest o ip [] st u e l h = h
find_oldest-locked now oldest o ip ((j, w) ∷ m) st u e l h = ground (
  arith,
  eq_iff j ip,
  find_oldest-absent now oldest o ip m,
  find_oldest-locked now w.last_seen j ip m st u.1,
  find_oldest-locked now oldest o ip m st u.1,
)

lookup-evict_oldest :
    (now : ℕ) (ip : String) (m : Attempts) (st : AttemptState)
    → Unique m
    → lookup ip m ≡ some st
    → now < st.locked_until
    → (lookup ip (evict_oldest_locked now m) ≡ some st) × Unique (evict_oldest_locked now m)
unfolding evict_oldest_locked
lookup-evict_oldest now ip m st u e l =
    let oldest_ip = find_oldest now "" 0 m in
    ground (
      arith,
      find_oldest-locked now 0 "" ip m st u e l,
      lookup-delete oldest_ip ip m,
      delete-Unique oldest_ip m u,
      eq_iff oldest_ip "",
      eq_iff "" ip,
      eq_iff oldest_ip ip,
    )

lookup-make_room :
    (l : LoginLimiter) (t : Readings) (ip : String) (st : AttemptState)
    → Unique l.attempts
    → lookup ip l.attempts ≡ some st
    → t.at_sweep < st.locked_until
    → t.at_evict < st.locked_until
    → (lookup ip (make_room l t) ≡ some st) × Unique (make_room l t)
unfolding make_room evict_idle_locked
lookup-make_room l t ip st u e hs he =
    let swept = keep (survives_sweep t.at_sweep l.idle_evict_after) l.attempts in
    ground (
      arith,
      lookup-sweep t.at_sweep l.idle_evict_after ip l.attempts st e hs,
      keep-Unique (survives_sweep t.at_sweep l.idle_evict_after) l.attempts u,
      lookup-evict_oldest t.at_evict ip swept st,
    )

-- The entry of `ip` is `st`, and addresses stand once.
abbrev pub Holds : LoginLimiter → String → AttemptState → Type 0
Holds l ip st = (lookup ip l.attempts ≡ some st) × Unique l.attempts

count_failure-Holds :
    (l : LoginLimiter) (j ip : String) (w : AttemptState) (t : Readings) (st : AttemptState)
    → Holds l ip st
    → str_eq j ip ≡ false
    → Holds (count_failure l j w t).0 ip st
unfolding count_failure
count_failure-Holds l j ip w t st (e, u) ne = ground (
  arith,
  lookup-put j ip (after_failure l w t) l.attempts,
  put-Unique j (after_failure l w t) l.attempts u,
)

fail-Holds :
    (l : LoginLimiter) (j ip : String) (t : Readings) (st : AttemptState)
    → Holds l ip st
    → str_eq j ip ≡ false
    → t.at_sweep < st.locked_until
    → t.at_evict < st.locked_until
    → Holds (fail l j t).0 ip st
unfolding fail count_failure
fail-Holds l j ip t st (e, u) ne hs he =
    let roomy : LoginLimiter = record l { attempts = make_room l t } in
    let room = lookup-make_room l t ip st u e hs he in
    elim (Option-cases (lookup j l.attempts)) [
      | inl none_j ↦
          rw (none_j, fail)
            (elim (Bool-cases (leb l.max_entries (length (make_room l t)))) [
              | inl full ↦ rw full room
              | inr free ↦ rw free (count_failure-Holds roomy j ip no_attempts t st room ne)
            ])
      | inr (w, some_j) ↦ rw (some_j, fail) (count_failure-Holds l j ip w t st (e, u) ne)
    ]

-- A call that cannot lift a lockout of `ip` that lasts until `until`: anything from another
-- address, at readings of the clock within the lockout, and the address's own refused attempts.
abbrev pub IsOutside : String → ℕ → Call → Type 0
IsOutside ip until (allows j now) = (str_eq j ip ≡ false) ⊎ (now < until)
IsOutside ip until (fails j t) = (str_eq j ip ≡ false) × (t.at_sweep < until) × (t.at_evict < until)
IsOutside ip until (succeeds j) = str_eq j ip ≡ false

allow-Holds :
    (l : LoginLimiter) (j ip : String) (now : ℕ) (st : AttemptState)
    → Holds l ip st
    → (str_eq j ip ≡ false) ⊎ (now < st.locked_until)
    → Holds (allow l j now).0 ip st
unfolding allow
allow-Holds l j ip now st (e, u) o =
    ground (arith, lookup-delete j ip l.attempts, delete-Unique j l.attempts u, eq_iff j ip)

step-Holds :
    (l : LoginLimiter) (ip : String) (c : Call) (st : AttemptState)
    → Holds l ip st
    → IsOutside ip st.locked_until c
    → Holds (step l c) ip st
unfolding step
step-Holds l ip (allows j now) st h o = allow-Holds l j ip now st h o
step-Holds l ip (fails j t) st h o = fail-Holds l j ip t st h o.0 o.1 o.2
step-Holds l ip (succeeds j) st (e, u) o =
    unfold success in ground (arith, lookup-delete j ip l.attempts, delete-Unique j l.attempts u)

run-Holds :
    (l : LoginLimiter) (ip : String) (cs : List Call) (st : AttemptState)
    → Holds l ip st
    → All (IsOutside ip st.locked_until) cs
    → Holds (run l cs) ip st
unfolding run
run-Holds l ip [] st h o = h
run-Holds l ip (c ∷ cs) st h o = run-Holds (step l c) ip cs st (step-Holds l ip c st h o.0) o.1

-- A lockout cannot be lifted from outside: whatever other addresses do while it lasts (attempts,
-- failures that sweep and evict entries, successes), and however often the address itself tries,
-- every attempt of the address before the end of the lockout is refused, with the cool-down that is left, and changes
-- nothing; from the end on, the attempt is let through and the address is forgotten.
pub run-allow_locked :
    (l : LoginLimiter) (ip : String) (cs : List Call) (st : AttemptState) (now later : ℕ)
    → Holds l ip st
    → All (IsOutside ip st.locked_until) cs
    → now < st.locked_until
    → st.locked_until ≤ later
    → (allow (run l cs) ip now ≡ (run l cs, false, st.locked_until - now))
      × ((allow (run l cs) ip later).1 ≡ true)
      × (lookup ip (allow (run l cs) ip later).0.attempts ≡ none)
unfolding allow
run-allow_locked l ip cs st now later h o within past =
    ground (arith, run-Holds l ip cs st h o, lookup-delete ip ip (run l cs).attempts, eq_iff ip ip)
