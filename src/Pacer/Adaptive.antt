-- ===== src/Pacer/Adaptive.antt =====
-- The adaptive level of the pacer of internal/musixmatch/client.go.
use mxlrcgo_svc.Common.{
  ℕ, zero, suc, ◌+◌, ◌-◌, ◌/◌, ◌%◌, ◌^◌, ◌≤◌, ◌<◌, ◌≡◌, Bool, true, false, List, [], ◌∷◌, arith,
  min,
}
use mxlrcgo_svc.Pacer.{
  Client, adaptive_max_level, adaptive_success_threshold, on_throttle, on_success,
}

-- A notification: true for a throttle, false for a success.
unfoldable pub notify : Client → Bool → Client
notify c true = on_throttle c
notify c false = on_success c

unfoldable pub notify_all : Client → List Bool → Client
notify_all c [] = c
notify_all c (n ∷ ns) = notify_all (notify c n) ns

pub record IsPaced (c : Client) : Type 0 where
  pub capped : c.adaptive_level ≤ adaptive_max_level
  pub streak : c.consecutive_successes < adaptive_success_threshold

notify-IsPaced : (c : Client) (n : Bool) → IsPaced c → IsPaced (notify c n)
unfolding notify on_throttle on_success
notify-IsPaced c true h = ground arith
notify-IsPaced c false h = ground arith

-- The multiplier lies between 1 and 8 at every level that can be reached.
pub power-level : (n : ℕ) → n ≤ 3 → (1 ≤ 2 ^ n) × (2 ^ n ≤ 8)
power-level zero h = omega arith
power-level (suc zero) h = omega arith
power-level (suc (suc zero)) h = omega arith
power-level (suc (suc (suc zero))) h = omega arith
power-level (suc (suc (suc (suc n)))) h = absurd (omega arith)

notify_all-IsPaced : (c : Client) (ns : List Bool) → IsPaced c → IsPaced (notify_all c ns)
unfolding notify_all
notify_all-IsPaced c [] h = h
notify_all-IsPaced c (n ∷ ns) h = notify_all-IsPaced (notify c n) ns (notify-IsPaced c n h)

abbrev pub successes : ℕ → List Bool
successes zero = []
successes (suc n) = false ∷ successes n

-- A run of successes alone, in closed form.
notify_all-successes :
    (n : ℕ) (c : Client)
    → IsPaced c
    → let after = notify_all c (successes n) in
      let total = c.consecutive_successes + n in
      (after.adaptive_level ≡ c.adaptive_level - total / 5)
      × (after.consecutive_successes ≡ total % 5)
unfolding notify_all notify on_success
notify_all-successes zero c h = ground arith
notify_all-successes (suc n) c h =
    ground (arith, notify_all-successes n (on_success c), notify-IsPaced c false h)

-- Whatever throttles and successes came before, a throttle and then n successes leave the level at
-- one more than before (at most 3), less one for every five of the successes: no shorter streak
-- eases the pace. The level never leaves 0 to 3, so the effective interval stays between the
-- configured one and eight times it.
pub notify_all-throttle_then_successes :
    (c : Client) (history : List Bool) (n : ℕ)
    → IsPaced c
    → let before = notify_all c history in
      let after = notify_all (on_throttle before) (successes n) in
      (after.adaptive_level ≡ min 3 (suc before.adaptive_level) - n / 5)
      × (1 ≤ 2 ^ after.adaptive_level)
      × (2 ^ after.adaptive_level ≤ 8)
unfolding notify on_throttle
notify_all-throttle_then_successes c history n h =
    let before = notify_all c history in
    let paced = notify_all-IsPaced c history h in
    let eased = notify_all-successes n (on_throttle before) (notify-IsPaced before true paced) in
    let level : (notify_all (on_throttle before) (successes n)).adaptive_level
        ≡ min 3 (suc before.adaptive_level) - n / 5 =
      ground (arith, paced, eased) in
    let (above, below) = power-level _ (omega (arith, level)) in (level, above, below)
