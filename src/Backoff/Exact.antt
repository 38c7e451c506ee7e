-- ===== src/Backoff/Exact.antt =====
-- internal/backoff/backoff.go against the closed formula, with int64 overflow included.
use native.Mathlib.Nat.{pow-suc}
use mxlrcgo_svc.Common.{
  ℕ, zero, suc, ◌-◌, ◌*◌, ◌^◌, ◌≤◌, ◌<◌, min, ◌&&◌, if◌then◌else◌, ◌≡◌, refl, arith,
}
use mxlrcgo_svc.Common.Int.{ℤ, pos, negsuc, pos_part, positive, int64_max, int64-pos}
use mxlrcgo_svc.Backoff.{geometric_loop, geometric, miss_cooldown}

-- 2 ^ k is positive, so scaling by it does not shrink.
scaled-suc : (d k : ℕ) → d * 2 ^ suc k ≡ 2 * d * 2 ^ k
scaled-suc d k = grind (arith, pow-suc)

le-scaled : (d k : ℕ) → d ≤ d * 2 ^ k
le-scaled d zero = omega arith
le-scaled d (suc k) = omega (arith, le-scaled d k, scaled-suc d k)

geometric_loop-min :
    (k d m : ℕ) → 0 < d → m ≤ int64_max → geometric_loop k (pos d) (pos m) ≡ pos (min (d * 2 ^ k) m)
unfolding geometric_loop
geometric_loop-min zero d m hd hm = ground arith
geometric_loop-min (suc k) d m hd hm =
    ground (arith, scaled-suc d k, le-scaled d k, int64-pos (2 * d), geometric_loop-min k (2 * d) m)

-- The delay that the doc comment promises: doubling from `base`, capped at `max`, and nothing for
-- a configuration that is not positive.
abbrev pub schedule : ℤ → ℤ → ℤ → ℤ
schedule attempts base max =
    if positive base && positive max
    then pos (min (pos_part base * 2 ^ (pos_part attempts - 1)) (pos_part max))
    else pos 0

-- For every attempt count, base and cap (each an int64, positive or not), `Geometric` returns the
-- scheduled delay, and so does `MissCooldown`: base * 2 ^ (attempts - 1) capped at max, with
-- attempts below one read as one, and 0 for a base or cap that is not positive. No doubling
-- overflows on the way.
pub geometric-schedule :
    (attempts base max : ℤ)
    → pos_part max ≤ int64_max
    → (geometric attempts base max ≡ schedule attempts base max)
      × (miss_cooldown attempts base max ≡ schedule attempts base max)
unfolding geometric miss_cooldown
geometric-schedule attempts (pos b) (pos m) h =
    ground (arith, geometric_loop-min (pos_part attempts - 1) b m)
geometric-schedule attempts (negsuc b) (pos m) h = (refl, refl)
geometric-schedule attempts (pos b) (negsuc m) h = ground arith
geometric-schedule attempts (negsuc b) (negsuc m) h = (refl, refl)

-- One more attempt never waits less, and no wait passes the cap.
pub geometric_mono :
    (n base max : ℕ)
    → 0 < base
    → 0 < max
    → max ≤ int64_max
    → (pos_part (geometric (pos n) (pos base) (pos max))
        ≤ pos_part (geometric (pos (suc n)) (pos base) (pos max)))
      × (pos_part (geometric (pos (suc n)) (pos base) (pos max)) ≤ max)
      × (0 < pos_part (geometric (pos n) (pos base) (pos max)))
geometric_mono zero b m hb hm h = ground (
  arith,
  geometric-schedule (pos 0) (pos b) (pos m) h,
  geometric-schedule (pos 1) (pos b) (pos m) h,
)
geometric_mono (suc n) b m hb hm h = ground (
  arith,
  geometric-schedule (pos (suc n)) (pos b) (pos m) h,
  geometric-schedule (pos (suc (suc n))) (pos b) (pos m) h,
  scaled-suc b n,
  le-scaled b n,
)
