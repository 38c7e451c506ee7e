-- ===== src/Limiter.antt =====
-- internal/web/ratelimit.go: the failed-login limiter. Each method runs whole under the mutex. An
-- instant is a number of nanoseconds since Go's zero time, zero for "not locked".
pub mod Schedule
pub mod Bound
pub mod Lockout
pub mod Failures
mod Examples
use mxlrcgo_svc.Common.{
  ℕ, suc, ◌+◌, ◌-◌, ◌*◌, ◌^◌, String, Bool, true, false, not, ◌&&◌, ◌||◌, Option, none, some, List,
  [], ◌∷◌, ltb, leb, ◌==◌, if◌then◌else◌, str_eq, keep, length,
}
use mxlrcgo_svc.Common.Int.{ℤ, pos, pos_part, ltb_ℤ, leb_ℤ, int64}
use mxlrcgo_svc.Common.Assoc.{lookup, put, delete}

pub record AttemptState : Type 0 where
  pub failures : ℕ
  pub locked_until : ℕ
  pub last_seen : ℕ

abbrev pub Attempts : Type 0
Attempts = List (String × AttemptState)

pub record LoginLimiter : Type 0 where
  pub attempts : Attempts
  pub base_backoff : ℕ
  pub max_backoff : ℕ
  pub max_failures : ℕ
  pub lockout : ℕ
  pub idle_evict_after : ℕ
  pub max_entries : ℕ

unfoldable pub new_login_limiter : LoginLimiter
new_login_limiter = record {
  attempts = [];
  base_backoff = 1_000_000_000;
  max_backoff = 8_000_000_000;
  max_failures = 10;
  lockout = 900_000_000_000;
  idle_evict_after = 86_400_000_000_000;
  max_entries = 10_000;
}

-- `!st.lockedUntil.IsZero() && st.lockedUntil.After(now)`.
abbrev pub is_locked : ℕ → AttemptState → Bool
is_locked now st = not (st.locked_until == 0) && ltb now st.locked_until

-- The state with the limiter's answer: whether to go on, and the cool-down left.
unfoldable pub allow : LoginLimiter → String → ℕ → LoginLimiter × Bool × ℕ
allow l ip now = elim (lookup ip l.attempts) [
  | none ↦ (l, true, 0)
  | some st ↦
      if st.locked_until == 0
      then (l, true, 0)
      else if ltb now st.locked_until
      then (l, false, st.locked_until - now)
      else (record l { attempts = delete ip l.attempts }, true, 0)
]

-- `backoffFor`: the shift is computed in int64 and wraps.
unfoldable pub backoff_for : LoginLimiter → ℕ → ℕ
backoff_for l failures =
    if leb failures 1
    then 0
    else if leb 62 (failures - 2)
    then l.max_backoff
    else clamp (int64 (pos (l.base_backoff * 2 ^ (failures - 2))))
  where
    clamp : ℤ → ℕ
    clamp d = if leb_ℤ d (pos 0) || ltb_ℤ (pos l.max_backoff) d then l.max_backoff else pos_part d

-- What the sweep keeps: active lockouts, and entries seen since the cutoff.
abbrev pub survives_sweep : ℕ → ℕ → String × AttemptState → Bool
survives_sweep now idle (ip, st) = is_locked now st || not (ltb st.last_seen (now - idle))

unfoldable pub evict_idle_locked : ℕ → ℕ → Attempts → Attempts
evict_idle_locked now idle m = keep (survives_sweep now idle) m

-- The loop of `evictOldestLocked`, with its `oldestIP` and `oldest`.
pub find_oldest : ℕ → String → ℕ → Attempts → String
find_oldest now oldest_ip oldest [] = oldest_ip
find_oldest now oldest_ip oldest ((ip, st) ∷ m) =
    let takes = not (is_locked now st) && (str_eq oldest_ip "" || ltb st.last_seen oldest) in
    find_oldest now (if takes then ip else oldest_ip) (if takes then st.last_seen else oldest) m

unfoldable pub evict_oldest_locked : ℕ → Attempts → Attempts
unfolding find_oldest
evict_oldest_locked now m =
    let oldest_ip = find_oldest now "" 0 m in
    if not (str_eq oldest_ip "") then delete oldest_ip m else m

-- The readings of the clock in one call of `fail`: by the two evictions, for `lastSeen` and for
-- `lockedUntil`.
pub record Readings : Type 0 where
  pub at_sweep : ℕ
  pub at_evict : ℕ
  pub at_seen : ℕ
  pub at_lock : ℕ

-- Room for a new address: the sweep if the map is full, and the oldest entry if it still is.
unfoldable pub make_room : LoginLimiter → Readings → Attempts
unfolding evict_idle_locked evict_oldest_locked
make_room l t =
    if leb l.max_entries (length l.attempts)
    then (let swept = evict_idle_locked t.at_sweep l.idle_evict_after l.attempts in
        if leb l.max_entries (length swept) then evict_oldest_locked t.at_evict swept else swept)
    else l.attempts

-- The entry after one more failure, locked when the count reaches `maxFailures`.
unfoldable pub after_failure : LoginLimiter → AttemptState → Readings → AttemptState
after_failure l st t =
    let failures = suc st.failures in
    record {
      failures = failures;
      locked_until = if leb l.max_failures failures then t.at_lock + l.lockout else st.locked_until;
      last_seen = t.at_seen;
    }

-- The tail of `fail`, with the entry at hand.
unfoldable pub count_failure : LoginLimiter → String → AttemptState → Readings → LoginLimiter × ℕ
count_failure l ip st t = (
  record l { attempts = put ip (after_failure l st t) l.attempts },
  backoff_for l (suc st.failures),
)

abbrev pub no_attempts : AttemptState
no_attempts = record { failures = 0; locked_until = 0; last_seen = 0 }

unfoldable pub fail : LoginLimiter → String → Readings → LoginLimiter × ℕ
fail l ip t = elim (lookup ip l.attempts) [
  | some st ↦ count_failure l ip st t
  | none ↦
      let roomy = record l { attempts = make_room l t } in
      if leb l.max_entries (length (make_room l t))
      then (roomy, l.max_backoff)
      else count_failure roomy ip no_attempts t
]

unfoldable pub success : LoginLimiter → String → LoginLimiter
success l ip = record l { attempts = delete ip l.attempts }

pub data Call : Type 0 where
  allows : String → ℕ → Call
  fails : String → Readings → Call
  succeeds : String → Call

unfoldable pub step : LoginLimiter → Call → LoginLimiter
step l (allows ip now) = (allow l ip now).0
step l (fails ip t) = (fail l ip t).0
step l (succeeds ip) = success l ip

unfoldable pub run : LoginLimiter → List Call → LoginLimiter
run l [] = l
run l (c ∷ cs) = run (step l c) cs
