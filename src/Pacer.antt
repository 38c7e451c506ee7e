-- ===== src/Pacer.antt =====
-- internal/musixmatch/client.go: the request pacer of the Musixmatch client (`pace`, `OnThrottle`,
-- `OnSuccess`). `pace` holds the mutex twice, once to reserve a slot and once to give it back when
-- its wait is cancelled; between the two other callers run. So a call of `pace` is two steps,
-- `reserve` and, if the wait is cancelled, `cancel`. Instants and durations are nanoseconds; a
-- duration is an int64, so a product of durations wraps, and `Sub` of two instants stays in range.
pub mod Adaptive
pub mod Spacing
mod Examples
use mxlrcgo_svc.Common.{
  ℕ, suc, ◌+◌, ◌-◌, ◌*◌, ◌^◌, Option, none, some, ltb, leb, ◌==◌, if◌then◌else◌, min,
}
use mxlrcgo_svc.Common.Int.{ℤ, pos, pos_part, neg_part, positive, int64, int64_max}

abbrev pub adaptive_max_level : ℕ
adaptive_max_level = 3

abbrev pub adaptive_success_threshold : ℕ
adaptive_success_threshold = 5

-- The pacer's fields of `Client`.
pub record Client : Type 0 where
  pub min_interval : ℤ
  pub last_request : ℕ
  pub adaptive_level : ℕ
  pub consecutive_successes : ℕ

unfoldable pub new_client : Client
new_client = record {
  min_interval = pos 0;
  last_request = 0;
  adaptive_level = 0;
  consecutive_successes = 0;
}

unfoldable pub with_min_interval : ℤ → Client → Client
with_min_interval d c = record c { min_interval = d }

-- What a caller of `pace` remembers across its wait.
pub record Slot : Type 0 where
  pub prev : ℕ
  pub next : ℕ
  pub wait : ℕ

-- The first critical section of `pace`; `none` when pacing is off.
unfoldable pub reserve : Client → ℕ → Client × Option Slot
reserve c now =
    let effective_interval = int64 (pos (pos_part c.min_interval * 2 ^ c.adaptive_level)) in
    let earliest = c.last_request + pos_part effective_interval - neg_part effective_interval in
    let next = if ltb earliest now then now else earliest in
    let wait = min int64_max (next - now) in
    let slot : Slot = record { prev = c.last_request; next = next; wait = wait } in
    if positive c.min_interval then (record c { last_request = next }, some slot) else (c, none)

-- The second critical section, after a wait that was cancelled.
unfoldable pub cancel : Client → Slot → Client
cancel c slot = if c.last_request == slot.next then record c { last_request = slot.prev } else c

unfoldable pub on_throttle : Client → Client
on_throttle c = record c {
  adaptive_level =
      if ltb c.adaptive_level adaptive_max_level then suc c.adaptive_level else c.adaptive_level;
  consecutive_successes = 0;
}

unfoldable pub on_success : Client → Client
on_success c =
    let successes = suc c.consecutive_successes in
    if leb adaptive_success_threshold successes
    then record c {
      adaptive_level = if ltb 0 c.adaptive_level then c.adaptive_level - 1 else c.adaptive_level;
      consecutive_successes = 0;
    }
    else record c { consecutive_successes = successes }
