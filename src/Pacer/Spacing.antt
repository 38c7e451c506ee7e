-- ===== src/Pacer/Spacing.antt =====
-- The slots that concurrent callers of `pace` (internal/musixmatch/client.go) hold.
use mxlrcgo_svc.Common.{
  ℕ, zero, suc, ◌+◌, ◌-◌, ◌*◌, ◌^◌, ◌≤◌, ◌<◌, ◌≡◌, Bool, true, false, ◌||◌, Option, none, some,
  List, [], ◌∷◌, ltb, min, ◌==◌, if◌then◌else◌, arith, Option-cases, inl, inr,
}
use mxlrcgo_svc.Common.Int.{pos, int64, int64-pos, int64_max}
use mxlrcgo_svc.Pacer.{Client, Slot, adaptive_max_level, reserve, cancel, on_throttle, on_success}
use mxlrcgo_svc.Pacer.Adaptive.{power-level}

-- A call of `pace`: its slot, and whether its wait was cancelled.
pub record Caller : Type 0 where
  pub slot : Slot
  pub cancelled : Bool

-- The client with the calls so far, the latest first.
pub record Pacing : Type 0 where
  pub client : Client
  pub callers : List Caller

-- A caller arrives, the wait of the i-th latest caller is cancelled, or the lane reports.
pub data Event : Type 0 where
  arrives : ℕ → Event
  cancels : ℕ → Event
  throttled succeeded : Event

abbrev pub get_elem? {ℓ} : {A : Type ℓ} → List A → ℕ → Option A
get_elem? [] i = none
get_elem? (x ∷ xs) zero = some x
get_elem? (x ∷ xs) (suc i) = get_elem? xs i

abbrev pub mark : ℕ → List Caller → List Caller
mark i [] = []
mark zero (c ∷ cs) = record c { cancelled = true } ∷ cs
mark (suc i) (c ∷ cs) = c ∷ mark i cs

arrive : Client × Option Slot → List Caller → Pacing
arrive (c, none) cs = record { client = c; callers = cs }
arrive (c, some slot) cs = record {
  client = c;
  callers = record { slot = slot; cancelled = false } ∷ cs;
}

-- A wait is cancelled once, and only where there was something to wait for.
abort : Pacing → ℕ → Option Caller → Pacing
abort p i none = p
abort p i (some c) =
    if c.cancelled || c.slot.wait == 0
    then p
    else record { client = cancel p.client c.slot; callers = mark i p.callers }

unfoldable pub step : Pacing → Event → Pacing
unfolding arrive abort
step p (arrives now) = arrive (reserve p.client now) p.callers
step p (cancels i) = abort p i (get_elem? p.callers i)
step p throttled = record p { client = on_throttle p.client }
step p succeeded = record p { client = on_success p.client }

unfoldable pub run : Pacing → List Event → Pacing
run p [] = p
run p (e ∷ es) = run (step p e) es

-- The slots that are held descend from `last`, each at least `gap` after the value it was reserved
-- from, and no older one lies above that value.
abbrev pub Spaced : ℕ → ℕ → List Caller → Type 0
Spaced gap last [] = Unit
Spaced gap last (c ∷ cs) =
    if c.cancelled
    then Spaced gap last cs
    else (c.slot.next ≤ last) × (c.slot.prev + gap ≤ c.slot.next) × Spaced gap c.slot.prev cs

Spaced-mono : (gap a b : ℕ) (cs : List Caller) → a ≤ b → Spaced gap a cs → Spaced gap b cs
Spaced-mono gap a b [] h s = tt
Spaced-mono gap a b (c ∷ cs) h s = ground (arith, Spaced-mono gap a b cs h)

Spaced-mark : (gap last i : ℕ) (cs : List Caller) → Spaced gap last cs → Spaced gap last (mark i cs)
Spaced-mark gap last i [] s = tt
Spaced-mark gap last zero (c ∷ cs) s = ground (arith, Spaced-mono gap c.slot.prev last cs)
Spaced-mark gap last (suc i) (c ∷ cs) s =
    ground (arith, Spaced-mark gap last i cs, Spaced-mark gap c.slot.prev i cs)

-- A held slot lies within the bound.
Spaced-le :
    (gap last i : ℕ) (cs : List Caller) (c : Caller)
    → Spaced gap last cs
    → get_elem? cs i ≡ some c
    → c.cancelled ≡ false
    → c.slot.next ≤ last
Spaced-le gap last i [] c s e h = absurd (cc)
Spaced-le gap last zero (d ∷ cs) c s e h = ground arith
Spaced-le gap last (suc i) (d ∷ cs) c s e h =
    ground (arith, Spaced-le gap last i cs c, Spaced-le gap d.slot.prev i cs c)

-- Giving the last slot back leaves every other held slot below the value it was reserved from.
Spaced-release :
    (gap last i : ℕ) (cs : List Caller) (c : Caller)
    → 0 < gap
    → Spaced gap last cs
    → get_elem? cs i ≡ some c
    → c.cancelled ≡ false
    → last ≡ c.slot.next
    → Spaced gap c.slot.prev (mark i cs)
Spaced-release gap last i [] c g s e h eq = tt
Spaced-release gap last zero (d ∷ cs) c g s e h eq = ground arith
Spaced-release gap last (suc i) (d ∷ cs) c g s e h eq =
    ground (arith, Spaced-release gap last i cs c, Spaced-le gap d.slot.prev i cs c)

-- The state between events: pacing is on with the interval `gap`, the level is within its bound,
-- and the slots are spaced.
pub record IsSpaced (gap : ℕ) (p : Pacing) : Type 0 where
  pub interval : p.client.min_interval ≡ pos gap
  pub level : p.client.adaptive_level ≤ adaptive_max_level
  pub spaced : Spaced gap p.client.last_request p.callers

-- At a level within its bound the product does not wrap, and it is no less than the interval.
gap-le-effective :
    (gap level : ℕ)
    → gap * 8 ≤ int64_max
    → level ≤ adaptive_max_level
    → (int64 (pos (gap * 2 ^ level)) ≡ pos (gap * 2 ^ level)) × (gap ≤ gap * 2 ^ level)
gap-le-effective gap level fits h =
    let (above, below) = power-level level h in
    let bounded : gap * 2 ^ level ≤ int64_max = grind (arith, below, fits) in
    (int64-pos (gap * 2 ^ level) bounded, grind (arith, above))

-- Where a reservation goes when the product does not wrap.
reserve_lem :
    (c : Client) (gap now : ℕ)
    → 0 < gap
    → gap * 8 ≤ int64_max
    → c.adaptive_level ≤ adaptive_max_level
    → c.min_interval ≡ pos gap
    → let earliest = c.last_request + gap * 2 ^ c.adaptive_level in
      let next = if ltb earliest now then now else earliest in
      reserve c now ≡ (
        record c { last_request = next },
        some (record { prev = c.last_request; next = next; wait = min int64_max (next - now) }),
      )
unfolding reserve
reserve_lem c gap now g fits h e =
    rw e (rw ((gap-le-effective gap c.adaptive_level fits h).0, reserve) (ground arith))

arrives-IsSpaced :
    (gap : ℕ) (p : Pacing) (now : ℕ)
    → 0 < gap
    → gap * 8 ≤ int64_max
    → IsSpaced gap p
    → IsSpaced gap (step p (arrives now))
unfolding step
arrives-IsSpaced gap p now g fits h =
    rw (reserve_lem p.client gap now g fits h.level h.interval)
      (ground (arith, gap-le-effective gap p.client.adaptive_level fits h.level))

cancels-IsSpaced :
    (gap : ℕ) (p : Pacing) (i : ℕ) → 0 < gap → IsSpaced gap p → IsSpaced gap (step p (cancels i))
unfolding step cancel
cancels-IsSpaced gap p i g h = elim (Option-cases (get_elem? p.callers i)) [
  | inl e ↦ rw (e, step) h
  | inr (c, e) ↦
      rw (e, step)
        (ground (
          arith,
          Spaced-mark gap p.client.last_request i p.callers,
          Spaced-release gap p.client.last_request i p.callers c g h.spaced e,
        ))
]

step-IsSpaced :
    (gap : ℕ) (p : Pacing) (e : Event)
    → 0 < gap
    → gap * 8 ≤ int64_max
    → IsSpaced gap p
    → IsSpaced gap (step p e)
unfolding step
step-IsSpaced gap p (arrives now) g fits h = arrives-IsSpaced gap p now g fits h
step-IsSpaced gap p (cancels i) g fits h = cancels-IsSpaced gap p i g h
step-IsSpaced gap p throttled g fits h = unfold on_throttle in ground arith
step-IsSpaced gap p succeeded g fits h = unfold on_success in ground arith

run-IsSpaced :
    (gap : ℕ) (p : Pacing) (es : List Event)
    → 0 < gap
    → gap * 8 ≤ int64_max
    → IsSpaced gap p
    → IsSpaced gap (run p es)
unfolding run
run-IsSpaced gap p [] g fits h = h
run-IsSpaced gap p (e ∷ es) g fits h =
    run-IsSpaced gap (step p e) es g fits (step-IsSpaced gap p e g fits h)

Spaced-apart :
    (gap last i j : ℕ) (cs : List Caller) (a b : Caller)
    → Spaced gap last cs
    → get_elem? cs i ≡ some a
    → get_elem? cs j ≡ some b
    → i < j
    → a.cancelled ≡ false
    → b.cancelled ≡ false
    → b.slot.next + gap ≤ a.slot.next
Spaced-apart gap last i j [] a b s ea eb lt ha hb = absurd (cc)
Spaced-apart gap last zero zero (c ∷ cs) a b s ea eb lt ha hb = absurd (omega arith)
Spaced-apart gap last zero (suc j) (c ∷ cs) a b s ea eb lt ha hb =
    ground (arith, Spaced-le gap c.slot.prev j cs b)
Spaced-apart gap last (suc i) zero (c ∷ cs) a b s ea eb lt ha hb = absurd (omega arith)
Spaced-apart gap last (suc i) (suc j) (c ∷ cs) a b s ea eb lt ha hb =
    ground (arith, Spaced-apart gap last i j cs a b, Spaced-apart gap c.slot.prev i j cs a b)

-- Concurrent callers are spaced. From a client with pacing on, a level within its bound and no call
-- under way, whose interval is small enough that eight times it is an int64, through any interleaving
-- of arrivals (at any clock readings), cancelled waits that hand their slots back, and throttle or
-- success reports that change the level: of two callers whose waits were not cancelled the one that
-- arrived later holds a slot at least the configured interval after the other's.
pub run-spacing :
    (c : Client) (gap i j : ℕ) (es : List Event) (later earlier : Caller)
    → c.min_interval ≡ pos gap
    → 0 < gap
    → gap * 8 ≤ int64_max
    → c.adaptive_level ≤ adaptive_max_level
    → let callers = (run (record { client = c; callers = [] }) es).callers in
      get_elem? callers i ≡ some later
      → get_elem? callers j ≡ some earlier
      → i < j
      → later.cancelled ≡ false
      → earlier.cancelled ≡ false
      → earlier.slot.next + gap ≤ later.slot.next
run-spacing c gap i j es later earlier e g fits low ei ej lt hi hj =
    Spaced-apart gap _ i j _ later earlier
      (run-IsSpaced gap (record { client = c; callers = [] }) es g fits
        (record { interval = e; level = low; spaced = tt })).spaced
      ei ej lt hi hj
