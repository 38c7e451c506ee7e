-- ===== src/Circuit/Diagram.antt =====
-- The states of internal/circuit/breaker.go as a diagram.
use mxlrcgo_svc.Common.{ℕ, ◌≤◌, ◌<◌, ◌≡◌, ◌⊎◌, false, arith, if◌then◌else◌, ◌==◌}
use mxlrcgo_svc.Common.Int.{pos_part, neg_part, int64_max}
use mxlrcgo_svc.Backoff.Exact.{geometric-schedule}
use mxlrcgo_svc.Circuit.{
  Breaker, Call, allows, trips_at, renews_at, succeeds, misses, sets_backoff, sets_open_duration,
  step,
}

-- What a caller can tell of a breaker.
pub data View : Type 0 where
  shut : View
  opened : ℕ → View
  probe : View

abbrev pub view : Breaker → View
view b = if b.open_until == 0 then if b.probing then probe else shut else opened b.open_until

-- The diagram: any state opens; an open window ends in a probe only; only a probe closes.
pub data Move : View → View → Type 0 where
  stay : {v : View} → Move v v
  opens : {v : View} (u : ℕ) → Move v (opened u)
  elapses : {u : ℕ} → Move (opened u) probe
  closes : Move probe shut

-- A breaker is never open and probing at once.
abbrev pub IsConsistent : Breaker → Type 0
IsConsistent b = (b.probing ≡ false) ⊎ (b.open_until ≡ 0)

-- The clock is past the zero instant by more than a negative window, and the cap is an int64.
abbrev pub IsTimed : Breaker → Call → Type 0
IsTimed b (trips_at now) = (0 < now) × (pos_part b.open_duration ≤ int64_max)
IsTimed b (renews_at now) = neg_part b.open_duration < now
IsTimed b _ = Unit

step-IsConsistent : (b : Breaker) (c : Call) → IsConsistent b → IsConsistent (step b c)
unfolding step
step-IsConsistent b c h = ground arith

ruleset edges = (stay, opens, elapses, closes)

Move-step :
    (b : Breaker) (c : Call) → IsConsistent b → IsTimed b c → Move (view b) (view (step b c))
unfolding step
Move-step b (allows now) h t = grind (arith, edges)
Move-step b (trips_at now) h t = grind (arith, edges, geometric-schedule)
Move-step b (renews_at now) h t = grind (arith, edges)
Move-step b succeeds h t = grind (arith, edges)
Move-step b misses h t = grind (arith, edges)
Move-step b (sets_backoff base cap) h t = stay
Move-step b (sets_open_duration d) h t = stay

-- Every method call keeps a breaker from being open and probing at once, and moves it along the
-- diagram: a closed or half-open breaker opens or stays, an open window is replaced by another or ends in
-- a probe, and only a probe closes. So a success reported while the window is open does not close
-- it. The clock is past the zero instant by more than a negative window.
pub step-Move :
    (b : Breaker) (c : Call)
    → IsConsistent b
    → IsTimed b c
    → IsConsistent (step b c) × Move (view b) (view (step b c))
step-Move b c h t = (step-IsConsistent b c h, Move-step b c h t)
