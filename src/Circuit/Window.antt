-- ===== src/Circuit/Window.antt =====
-- What the open window of internal/circuit/breaker.go lets through.
use mxlrcgo_svc.Common.{
  ℕ, ◌≤◌, ◌<◌, ◌≡◌, refl, sym, subst, true, false, List, [], ◌∷◌, map, All, arith,
}
use mxlrcgo_svc.Circuit.{
  Breaker, closed, open_, half_open, allows, allow, record_success, record_benign_miss, step, run,
}

-- Gate checks that fall inside the window leave the breaker as it is.
run-allows_within :
    (b : Breaker) (ts : List ℕ)
    → 0 < b.open_until
    → All (λ t. t < b.open_until) ts
    → run b (map allows ts) ≡ b
unfolding run step
run-allows_within b [] p h = refl
run-allows_within b (t ∷ ts) p h =
    let e : (allow b t).0 ≡ b = unfold allow in ground arith in
    subst (λ s. run s (map allows ts) ≡ b) (sym e) (run-allows_within b ts p h.1)

-- Once probing, further gate checks keep probing.
run-allows_probing :
    (b : Breaker) (ts : List ℕ) → b.open_until ≡ 0 → b.probing ≡ true → run b (map allows ts) ≡ b
unfolding run step
run-allows_probing b [] p h = refl
run-allows_probing b (t ∷ ts) p h =
    let e : (allow b t).0 ≡ b = unfold allow in ground arith in
    subst (λ s. run s (map allows ts) ≡ b) (sym e) (run-allows_probing b ts p h)

abbrev probing_from : Breaker → Breaker
probing_from b = record b { probing = true; open_until = 0 }

allow-elapsed :
    (b : Breaker) (now : ℕ)
    → 0 < b.open_until
    → b.open_until ≤ now
    → allow b now ≡ (probing_from b, half_open)
unfolding allow
allow-elapsed b now p h = ground arith

-- The gate over one window, for a breaker opened until `u` by either kind of trip, whatever it was
-- before. However many gate checks fall before `u`, a later check that comes before `u` is refused. The first at or
-- after `u` is a probe; every further check, at any time, is let through as a probe; and then a success or
-- a benign miss closes the breaker (reported as a transition), so that the next check finds it
-- closed.
pub window_cycle :
    (b : Breaker) (before during : List ℕ) (early now later : ℕ)
    → 0 < b.open_until
    → b.probing ≡ false
    → All (λ t. t < b.open_until) before
    → early < b.open_until
    → b.open_until ≤ now
    → let waiting = run b (map allows before) in
      let probed = (allow waiting now).0 in
      let still = run probed (map allows during) in
      ((allow waiting early).1 ≡ open_)
      × ((allow waiting now).1 ≡ half_open)
      × ((allow still later).1 ≡ half_open)
      × ((record_success still).1 ≡ true)
      × ((allow (record_success still).0 later).1 ≡ closed)
      × ((record_benign_miss still).1 ≡ true)
      × ((allow (record_benign_miss still).0 later).1 ≡ closed)
window_cycle b before during early now later p q h l w =
    rw
      (
        run-allows_within b before p h,
        allow-elapsed b now p w,
        run-allows_probing (probing_from b) during refl refl,
      )
      (
        unfold allow in ground arith,
        refl,
        unfold allow in refl,
        unfold record_success in refl,
        unfold allow record_success in refl,
        unfold record_benign_miss in refl,
        unfold allow record_benign_miss in refl,
      )
