-- ===== src/Worker/Wiring.antt =====
-- How the orchestrator of internal/worker/worker.go follows the worker's settings.
pub mod Setters
use mxlrcgo_svc.Common.{
  ℕ, suc, ◌≡◌, ◌<◌, refl, sym, ap, ◌∙◌, subst, String, Bool, true, false, not, ◌&&◌, ◌||◌, Option,
  none, some, ◌⊎◌, inl, inr, List, [], ◌∷◌, map, ltb, length, str_eq, eq_iff, if◌then◌else◌, arith,
  All, Bool-cases,
}
use mxlrcgo_svc.Common.Int.{ℤ, pos, positive, pos_part}
use mxlrcgo_svc.Circuit
use mxlrcgo_svc.Circuit.{Breaker, set_backoff, set_open_duration}
use mxlrcgo_svc.Pacer.{Client}
use mxlrcgo_svc.Orchestrator.Suitability.{ScriptGuard}
use mxlrcgo_svc.Orchestrator.Lane.{Lane}
use mxlrcgo_svc.Orchestrator.Mode
use mxlrcgo_svc.Orchestrator.Mode.{
  Orchestrator, NewError, mode_ordered, mode_parallel, unsupported_mode, effective, set_guard,
  new-lanes,
}
use mxlrcgo_svc.Worker.{Worker, lanes, new, default_circuit_open_duration}
use mxlrcgo_svc.Worker.Settings.{
  guarded, wired, rebuild_orchestrator, or_prior, set_providers_mode, set_race_wait, on_breakers,
  set_circuit_open_duration, set_circuit_backoff, Provider, fallback_lanes, set_fallback_providers,
  set_providers_version, set_miss_backoff, set_max_miss_attempts, enable_verification,
  enable_audio_detector, set_instrumental_detection_default, enable_guard, set_provider_recorder,
  Setting, providers_mode, race_wait, circuit_open_duration, circuit_backoff, fallback_providers,
  providers_version, miss_backoff, max_miss_attempts, verification, audio_detector,
  instrumental_default, guard, provider_recorder, configure, configure_all,
}

abbrev pub IsKnown : String → Type 0
IsKnown mode = (str_eq mode mode_ordered || str_eq mode mode_parallel) ≡ true

-- The orchestrator that the worker's fields ask for.
abbrev pub wanted : Worker → Orchestrator
wanted w = record {
  lanes = lanes w;
  guard = if ltb 1 (length (lanes w)) then w.script_guard else none;
  mode = w.mode;
  race_wait = w.race_wait;
}

-- The breaker of a lane has the window that the worker has stored.
abbrev pub HasWindow : ℤ → ℤ → Lane → Type 0
HasWindow base open_duration l =
    (l.breaker.backoff_base ≡ base) × (l.breaker.open_duration ≡ open_duration)

pub record IsWired (w : Worker) : Type 0 where
  pub orch : w.orch ≡ wanted w
  pub windows : All (HasWindow w.circuit_backoff_base w.circuit_open_duration) (lanes w)
  pub known : (str_eq w.mode mode_ordered || str_eq w.mode mode_parallel) ≡ true
  pub waits : positive w.race_wait ≡ true
  pub opens : (positive w.circuit_backoff_base ≡ true) × (positive w.circuit_open_duration ≡ true)

effective_known : (mode : String) → IsKnown mode → effective mode ≡ mode
effective_known mode h = ground (
  arith,
  eq_iff mode "",
  eq_iff mode mode_ordered,
  eq_iff mode mode_parallel,
  eq_iff "" mode_ordered,
  eq_iff "" mode_parallel,
)

wired_wanted :
    (w : Worker) (b : Bool) (g : Option ScriptGuard)
    → guarded b g (record { lanes = lanes w; guard = none; mode = w.mode; race_wait = w.race_wait })
      ≡ record {
        lanes = lanes w;
        guard = if b then g else none;
        mode = w.mode;
        race_wait = w.race_wait;
      }
unfolding set_guard
wired_wanted w true none = refl
wired_wanted w true (some g) = refl
wired_wanted w false g = refl

pub rebuilt :
    (w : Worker)
    → IsKnown w.mode
    → positive w.race_wait ≡ true
    → rebuild_orchestrator w ≡ some (record w { orch = wanted w })
unfolding rebuild_orchestrator Mode.set_race_wait
rebuilt w k p =
    let built = (new-lanes w.mode w.lane w.fallbacks [] (ground (arith, k))).0 in
    ap (wired w) built
    ∙ rw p (
        rw (effective_known w.mode k) (
          ap (λ o. some (record w { orch = o }))
            (wired_wanted w (ltb 1 (length (lanes w))) w.script_guard)))

pub refused :
    (w : Worker)
    → effective w.mode ≡ w.mode
    → (str_eq w.mode mode_ordered || str_eq w.mode mode_parallel) ≡ false
    → rebuild_orchestrator w ≡ none
unfolding rebuild_orchestrator Mode.new
refused w e h = ground (arith, e, h)

pub rebuild-IsWired :
    (w : Worker)
    → All (HasWindow w.circuit_backoff_base w.circuit_open_duration) (lanes w)
    → IsKnown w.mode
    → positive w.race_wait ≡ true
    → (positive w.circuit_backoff_base ≡ true) × (positive w.circuit_open_duration ≡ true)
    → IsWired (or_prior w (rebuild_orchestrator w))
rebuild-IsWired w h k p o =
    subst (λ x. IsWired (or_prior w x)) (sym (rebuilt w k p))
      (record { orch = refl; windows = h; known = k; waits = p; opens = o })
