-- ===== src/Worker/Wiring/Setters.antt =====
-- Each setter of internal/worker/worker.go keeps the worker wired.
use mxlrcgo_svc.Common.{
  suc, ◌≡◌, refl, sym, ap, ◌∙◌, subst, String, true, not, ◌&&◌, ◌||◌, Option, none, some, inl, inr,
  List, [], ◌∷◌, map, ltb, length, str_eq, eq_iff, if◌then◌else◌, arith, All, Bool-cases,
}
use mxlrcgo_svc.Common.Int.{ℤ, positive}
use mxlrcgo_svc.Circuit
use mxlrcgo_svc.Circuit.{Breaker, set_backoff, set_open_duration}
use mxlrcgo_svc.Pacer.{Client}
use mxlrcgo_svc.Orchestrator.Suitability.{ScriptGuard}
use mxlrcgo_svc.Orchestrator.Lane.{Lane}
use mxlrcgo_svc.Orchestrator.Mode.{Orchestrator, mode_ordered, mode_parallel}
use mxlrcgo_svc.Worker.{Worker, lanes, new}
use mxlrcgo_svc.Worker.Settings.{
  or_prior, set_providers_mode, set_race_wait, on_breakers, set_circuit_open_duration,
  set_circuit_backoff, Provider, fallback_lanes, set_fallback_providers, set_providers_version,
  set_miss_backoff, set_max_miss_attempts, enable_verification, enable_audio_detector,
  set_instrumental_detection_default, enable_guard, set_provider_recorder, Setting, providers_mode,
  race_wait, circuit_open_duration, circuit_backoff, fallback_providers, guard, configure,
  configure_all,
}
use mxlrcgo_svc.Worker.Wiring.{HasWindow, IsWired, wanted, rebuilt, refused, rebuild-IsWired}

set_providers_mode-IsWired :
    (mode : String) (w : Worker) → IsWired w → IsWired (set_providers_mode mode w)
unfolding set_providers_mode
set_providers_mode-IsWired mode w h =
    let mode' = if str_eq mode "" then mode_ordered else mode in
    let w' : Worker = record w { mode = mode' } in
    elim (Bool-cases (str_eq mode' mode_ordered || str_eq mode' mode_parallel)) [
      | inl k ↦
          subst (λ x. IsWired (or_prior w x)) (sym (rebuilt w' k h.waits))
            (record {
              orch = refl;
              windows = h.windows;
              known = k;
              waits = h.waits;
              opens = h.opens;
            })
      | inr unknown ↦
          subst (λ x. IsWired (or_prior w x))
            (sym (refused w' (ground (arith, eq_iff mode "")) unknown)) h
    ]

set_race_wait-IsWired : (d : ℤ) (w : Worker) → IsWired w → IsWired (set_race_wait d w)
unfolding set_race_wait
set_race_wait-IsWired d w h = elim (Bool-cases (positive d)) [
  | inl p ↦ rw p (rebuild-IsWired (record w { race_wait = d }) h.windows h.known p h.opens)
  | inr n ↦ rw n h
]

length-map : (f : Lane → Lane) (ls : List Lane) → length (map f ls) ≡ length ls
length-map f [] = refl
length-map f (l ∷ ls) = ap suc (length-map f ls)

abbrev set_breaker : (Breaker → Breaker) → Lane → Lane
set_breaker f l = record l { breaker = f l.breaker }

on_breakers-orch :
    (f : Breaker → Breaker) (w : Worker)
    → w.orch ≡ wanted w
    → (on_breakers f w).orch ≡ wanted (on_breakers f w)
unfolding on_breakers
on_breakers-orch f w h =
    ap (λ (o : Orchestrator). record o { lanes = map (set_breaker f) o.lanes }) h
    ∙ ap
        (λ n. record {
          lanes = map (set_breaker f) (lanes w);
          guard = if ltb 1 n then w.script_guard else none;
          mode = w.mode;
          race_wait = w.race_wait;
        })
        (sym (length-map (set_breaker f) (lanes w)))

map-windows :
    (f : Breaker → Breaker) (b d b' d' : ℤ) (ls : List Lane)
    → ((l : Lane) → HasWindow b d l → HasWindow b' d' (set_breaker f l))
    → All (HasWindow b d) ls
    → All (HasWindow b' d') (map (set_breaker f) ls)
map-windows f b d b' d' [] g h = tt
map-windows f b d b' d' (l ∷ ls) g h = (g l h.0, map-windows f b d b' d' ls g h.1)

set_circuit_open_duration-IsWired :
    (d : ℤ) (w : Worker) → IsWired w → IsWired (set_circuit_open_duration d w)
unfolding set_circuit_open_duration
set_circuit_open_duration-IsWired d w h = elim (Bool-cases (positive d)) [
  | inr n ↦ rw n h
  | inl p ↦ rw p (
      unfold on_breakers in
      record {
        orch =
            on_breakers-orch (set_open_duration d) (record w { circuit_open_duration = d }) h.orch;
        windows =
            map-windows (set_open_duration d) w.circuit_backoff_base w.circuit_open_duration
              w.circuit_backoff_base d (lanes w) (λ l k. unfold set_open_duration in (k.0, rw p))
              h.windows;
        known = h.known;
        waits = h.waits;
        opens = (h.opens.0, p);
      })
]

set_circuit_backoff-IsWired :
    (base cap : ℤ) (w : Worker) → IsWired w → IsWired (set_circuit_backoff base cap w)
unfolding set_circuit_backoff
set_circuit_backoff-IsWired base cap w h =
    let base' = if positive base then base else w.circuit_backoff_base in
    let cap' = if positive cap then cap else w.circuit_open_duration in
    let base_pos : positive base' ≡ true = ground (arith, h.opens.0) in
    let cap_pos : positive cap' ≡ true = ground (arith, h.opens.1) in
    let w' : Worker = record w { circuit_backoff_base = base'; circuit_open_duration = cap' } in
    let set : IsWired (on_breakers (set_backoff base' cap') w') =
      unfold on_breakers in
      record {
        orch = on_breakers-orch (set_backoff base' cap') w' h.orch;
        windows =
            map-windows (set_backoff base' cap') w.circuit_backoff_base w.circuit_open_duration
              base' cap' (lanes w)
              (λ l k.
                unfold set_backoff in
                (
                  ap (λ b. if b then base' else l.breaker.backoff_base) base_pos,
                  ap (λ b. if b then cap' else l.breaker.open_duration) cap_pos,
                ))
              h.windows;
        known = h.known;
        waits = h.waits;
        opens = (base_pos, cap_pos);
      } in
    elim (Bool-cases (not (positive base) && not (positive cap))) [
      | inl neither ↦ rw neither h
      | inr some_set ↦ rw some_set set
    ]

fallback_lanes-windows :
    (b d : ℤ) (provs : List (Option Provider)) → All (HasWindow b d) (fallback_lanes b d provs)
unfolding fallback_lanes Circuit.new
fallback_lanes-windows b d [] = tt
fallback_lanes-windows b d (none ∷ provs) = fallback_lanes-windows b d provs
fallback_lanes-windows b d (some (name, pacer) ∷ provs) =
    ((refl, refl), fallback_lanes-windows b d provs)

set_fallback_providers-IsWired :
    (provs : List (Option Provider)) (w : Worker)
    → IsWired w
    → IsWired (set_fallback_providers provs w)
unfolding set_fallback_providers
set_fallback_providers-IsWired provs w h =
    rebuild-IsWired
      (record w { fallbacks = fallback_lanes w.circuit_backoff_base w.circuit_open_duration provs })
      (h.windows.0, fallback_lanes-windows w.circuit_backoff_base w.circuit_open_duration provs)
      h.known h.waits h.opens

enable_guard-IsWired :
    (g : Option ScriptGuard) (w : Worker) → IsWired w → IsWired (enable_guard g w)
unfolding enable_guard
enable_guard-IsWired g w h =
    rebuild-IsWired (record w { script_guard = g }) h.windows h.known h.waits h.opens

configure-IsWired : (w : Worker) (s : Setting) → IsWired w → IsWired (configure w s)
unfolding configure set_providers_version set_miss_backoff set_max_miss_attempts enable_verification
    enable_audio_detector set_instrumental_detection_default set_provider_recorder
configure-IsWired w (providers_mode mode) h = set_providers_mode-IsWired mode w h
configure-IsWired w (race_wait d) h = set_race_wait-IsWired d w h
configure-IsWired w (circuit_open_duration d) h = set_circuit_open_duration-IsWired d w h
configure-IsWired w (circuit_backoff base cap) h = set_circuit_backoff-IsWired base cap w h
configure-IsWired w (fallback_providers provs) h = set_fallback_providers-IsWired provs w h
configure-IsWired w (guard g) h = enable_guard-IsWired g w h
configure-IsWired w _ h = record {
  orch = h.orch;
  windows = h.windows;
  known = h.known;
  waits = h.waits;
  opens = h.opens;
}

configure_all-IsWired : (w : Worker) (ss : List Setting) → IsWired w → IsWired (configure_all w ss)
unfolding configure_all
configure_all-IsWired w [] h = h
configure_all-IsWired w (s ∷ ss) h =
    configure_all-IsWired (configure w s) ss (configure-IsWired w s h)

-- The setters may be called in any order, any number of times and with any arguments. Behind them
-- the orchestrator is the one that the worker's own fields ask for: over the primary lane and then
-- the fallbacks, in the worker's mode, which is a known one, with the worker's upgrade window, and
-- with the worker's guard exactly if there is more than one lane; and the breaker of every lane,
-- however early or late it was added, has the worker's window, both bounds of it positive.
pub new-IsWired :
    (pacer : Option Client) (ss : List Setting) → IsWired (configure_all (new pacer) ss)
unfolding new
new-IsWired pacer ss = configure_all-IsWired (new pacer) ss (record {
  orch = refl;
  windows = ((refl, refl), tt);
  known = refl;
  waits = refl;
  opens = (refl, refl);
})
