-- ===== src/Limiter/Schedule.antt =====
-- The backoff of internal/web/ratelimit.go against the schedule of its comment.
use native.Mathlib.Nat.{pow-suc}
use mxlrcgo_svc.Common.{
  ◌+◌, ℕ, zero, suc, ◌-◌, ◌*◌, ◌^◌, ◌≤◌, ◌<◌, min, ◌≡◌, refl, inl, inr, Bool, true, ◌&&◌, ltb, leb,
  ◌==◌, ltb→lt, ltb→le, if◌then◌else◌, arith, Bool-cases,
}
use mxlrcgo_svc.Common.Int.{int64}
use mxlrcgo_svc.Limiter.{new_login_limiter, backoff_for}

-- The doc comment's schedule: nothing for the first failure, then 1s doubling up to 8s.
abbrev pub promised : ℕ → ℕ
promised failures =
    if leb failures 1 then 0 else min (1_000_000_000 * 2 ^ (failures - 2)) 8_000_000_000

check_from : ℕ → ℕ → Bool
unfolding backoff_for new_login_limiter int64
check_from start zero = true
check_from start (suc rounds) =
    (backoff_for new_login_limiter start == promised start) && check_from (suc start) rounds

check_from_sound :
    (start rounds n : ℕ)
    → check_from start rounds ≡ true
    → start ≤ n
    → n < start + rounds
    → backoff_for new_login_limiter n ≡ promised n
unfolding check_from
check_from_sound start zero n h low high = absurd (omega arith)
check_from_sound start (suc rounds) n h low high =
    ground (arith, check_from_sound (suc start) rounds n)

-- Every failure count below the guard on the shift, by evaluation.
below_guard : check_from 0 64 ≡ true
unfolding check_from backoff_for new_login_limiter int64
below_guard = refl

eight-le-pow : (n : ℕ) → 3 ≤ n → 8 ≤ 2 ^ n
eight-le-pow zero h = absurd (omega arith)
eight-le-pow (suc zero) h = absurd (omega arith)
eight-le-pow (suc (suc zero)) h = absurd (omega arith)
eight-le-pow (suc (suc (suc zero))) h = omega arith
eight-le-pow (suc (suc (suc (suc n)))) h =
    omega (arith, eight-le-pow (suc (suc (suc n))) (omega arith), pow-suc 2 (suc (suc (suc n))))

beyond_guard : (m : ℕ) → 64 ≤ m → backoff_for new_login_limiter m ≡ promised m
unfolding backoff_for new_login_limiter
beyond_guard m h = ground (arith, eight-le-pow (m - 2))

-- With the package's defaults the delay after any number of consecutive failures is the promised
-- one: 0, 1s, 2s, 4s, then 8s for ever. The 64-bit shift wraps for some counts below the guard, and the
-- clamp still gives 8s there.
pub backoff_for-promised : (n : ℕ) → backoff_for new_login_limiter n ≡ promised n
backoff_for-promised n = elim (Bool-cases (ltb n 64)) [
  | inl low ↦ check_from_sound 0 64 n below_guard (omega arith) (ltb→lt n 64 low)
  | inr high ↦ beyond_guard n (ltb→le n 64 high)
]
