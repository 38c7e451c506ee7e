-- ===== src/Backoff.antt =====
-- internal/backoff/backoff.go: the retry-delay formulas. A time.Duration is a signed number of
-- nanoseconds, and its doubling wraps as int64 does.
pub mod Exact
mod Examples
use mxlrcgo_svc.Common.{ℕ, zero, suc, ◌+◌, ◌-◌, ◌*◌, ◌/◌, not, ◌||◌, leb, if◌then◌else◌}
use mxlrcgo_svc.Common.Int.{ℤ, pos, negsuc, pos_part, positive, ltb_ℤ, leb_ℤ, int64}

-- `DefaultBase`, `DefaultMax`, `DefaultMissBase` and `DefaultMissCap`, in nanoseconds.
abbrev pub default_base : ℤ
default_base = pos 60_000_000_000

abbrev pub default_max : ℤ
default_max = pos 3_600_000_000_000

abbrev pub default_miss_base : ℤ
default_miss_base = pos 604_800_000_000_000

abbrev pub default_miss_cap : ℤ
default_miss_cap = pos 2_419_200_000_000_000

-- A duration halved, rounding towards zero as Go's division does.
abbrev pub half : ℤ → ℤ
half (pos n) = pos (n / 2)
half (negsuc n) = if leb 1 n then negsuc ((n - 1) / 2) else pos 0

abbrev pub double : ℤ → ℤ
double (pos n) = int64 (pos (2 * n))
double (negsuc n) = int64 (negsuc (2 * n + 1))

-- The loop of `Geometric` with the rounds left: both early returns give `max`, and so does the cap
-- behind the loop.
pub geometric_loop : ℕ → ℤ → ℤ → ℤ
geometric_loop zero delay max = if ltb_ℤ max delay then max else delay
geometric_loop (suc rounds) delay max =
    let rest = geometric_loop rounds (double delay) max in
    if leb_ℤ max delay || ltb_ℤ (half max) delay then max else rest

-- `Geometric`: attempts below one count as one.
unfoldable pub geometric : ℤ → ℤ → ℤ → ℤ
unfolding geometric_loop
geometric attempts base max =
    if not (positive base) || not (positive max)
    then pos 0
    else geometric_loop (pos_part attempts - 1) base max

unfoldable pub miss_cooldown : ℤ → ℤ → ℤ → ℤ
unfolding geometric
miss_cooldown miss_count base max = geometric miss_count base max
