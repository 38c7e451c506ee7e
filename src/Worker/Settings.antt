-- ===== src/Worker/Settings.antt =====
-- The setters of internal/worker/worker.go, and the rebuild of the orchestrator.
use mxlrcgo_svc.Common.{
  ℕ, String, Bool, true, false, not, ◌&&◌, Option, none, some, ◌⊎◌, inl, inr, List, [], ◌∷◌, map,
  ltb, length, str_eq, if◌then◌else◌,
}
use mxlrcgo_svc.Common.Int.{ℤ, positive, pos_part, leb_ℤ}
use mxlrcgo_svc.Circuit.{Breaker, set_backoff, set_open_duration}
use mxlrcgo_svc.Pacer.{Client}
use mxlrcgo_svc.Orchestrator.Suitability.{ScriptGuard}
use mxlrcgo_svc.Orchestrator.Lane.{Lane}
use mxlrcgo_svc.Orchestrator.Mode
use mxlrcgo_svc.Orchestrator.Mode.{Orchestrator, NewError, mode_ordered, set_guard}
use mxlrcgo_svc.Worker.{Worker, lanes, new_lane, float_one}

-- With more than one lane the guard is wired into the orchestrator.
abbrev pub guarded : Bool → Option ScriptGuard → Orchestrator → Orchestrator
guarded true (some g) o = set_guard g o
guarded true none o = o
guarded false g o = o

abbrev pub wired : Worker → NewError ⊎ Orchestrator → Option Worker
wired w (inl e) = none
wired w (inr o) = some (record w {
  orch = guarded (ltb 1 (length (lanes w))) w.script_guard (Mode.set_race_wait w.race_wait o);
})

-- `none` is the error of `orchestrator.New`.
unfoldable pub rebuild_orchestrator : Worker → Option Worker
rebuild_orchestrator w = wired w (Mode.new w.mode (map some (lanes w)))

-- `_ = w.rebuildOrchestrator()`: on an error the prior orchestrator is kept.
abbrev pub or_prior : Worker → Option Worker → Worker
or_prior w none = w
or_prior w (some w') = w'

unfoldable pub set_providers_mode : String → Worker → Worker
set_providers_mode mode w =
    or_prior w
      (rebuild_orchestrator (record w { mode = if str_eq mode "" then mode_ordered else mode }))

unfoldable pub set_race_wait : ℤ → Worker → Worker
set_race_wait d w =
    let w' : Worker = record w { race_wait = d } in
    if not (positive d) then w else or_prior w' (rebuild_orchestrator w')

-- A setter on the breaker of every lane; the orchestrator has the same lanes.
unfoldable pub on_breakers : (Breaker → Breaker) → Worker → Worker
on_breakers f w =
    let set : Lane → Lane = (λ l. record l { breaker = f l.breaker }) in
    record w {
      lane = set w.lane;
      fallbacks = map set w.fallbacks;
      orch = record w.orch { lanes = map set w.orch.lanes };
    }

unfoldable pub set_circuit_open_duration : ℤ → Worker → Worker
unfolding on_breakers
set_circuit_open_duration d w =
    if not (positive d)
    then w
    else on_breakers (set_open_duration d) (record w { circuit_open_duration = d })

unfoldable pub set_circuit_backoff : ℤ → ℤ → Worker → Worker
unfolding on_breakers
set_circuit_backoff base cap w =
    let base' = if positive base then base else w.circuit_backoff_base in
    let cap' = if positive cap then cap else w.circuit_open_duration in
    if not (positive base) && not (positive cap)
    then w
    else on_breakers (set_backoff base' cap')
        (record w { circuit_backoff_base = base'; circuit_open_duration = cap' })

-- A provider: its name, and itself where it implements `AdaptivePacer`. A nil one is passed over.
abbrev pub Provider : Type 0
Provider = String × Option Client

unfoldable pub fallback_lanes : ℤ → ℤ → List (Option Provider) → List Lane
fallback_lanes base open_duration [] = []
fallback_lanes base open_duration (none ∷ provs) = fallback_lanes base open_duration provs
fallback_lanes base open_duration (some (name, pacer) ∷ provs) =
    new_lane base open_duration name pacer ∷ fallback_lanes base open_duration provs

unfoldable pub set_fallback_providers : List (Option Provider) → Worker → Worker
unfolding fallback_lanes
set_fallback_providers provs w =
    let w' : Worker = record w {
      fallbacks = fallback_lanes w.circuit_backoff_base w.circuit_open_duration provs;
    } in
    or_prior w' (rebuild_orchestrator w')

unfoldable pub set_providers_version : ℕ → Worker → Worker
set_providers_version v w = record w { providers_version = v }

unfoldable pub set_miss_backoff : ℤ → ℤ → Worker → Worker
set_miss_backoff base cap w = record w {
  miss_backoff_base = if positive base then base else w.miss_backoff_base;
  miss_backoff_cap = if positive cap then cap else w.miss_backoff_cap;
}

unfoldable pub set_max_miss_attempts : ℤ → Worker → Worker
set_max_miss_attempts n w = record w { max_miss_attempts = pos_part n }

unfoldable pub enable_verification : Bool → ℤ → Worker → Worker
enable_verification verifier below w = record w {
  verifier = verifier;
  verify_below_confidence =
      if positive below && leb_ℤ below float_one then below else w.verify_below_confidence;
}

unfoldable pub enable_audio_detector : Bool → Worker → Worker
enable_audio_detector detector w = record w { audio_detector = detector }

unfoldable pub set_instrumental_detection_default : Bool → Worker → Worker
set_instrumental_detection_default enabled w = record w { detect_instrumental_default = enabled }

unfoldable pub enable_guard : Option ScriptGuard → Worker → Worker
enable_guard g w =
    let w' : Worker = record w { script_guard = g } in or_prior w' (rebuild_orchestrator w')

unfoldable pub set_provider_recorder : Bool → Worker → Worker
set_provider_recorder recorder w = record w { provider_recorder = recorder }

-- A call of a setter.
pub data Setting : Type 0 where
  providers_mode : String → Setting
  race_wait : ℤ → Setting
  circuit_open_duration : ℤ → Setting
  circuit_backoff : ℤ → ℤ → Setting
  fallback_providers : List (Option Provider) → Setting
  providers_version : ℕ → Setting
  miss_backoff : ℤ → ℤ → Setting
  max_miss_attempts : ℤ → Setting
  verification : Bool → ℤ → Setting
  audio_detector : Bool → Setting
  instrumental_default : Bool → Setting
  guard : Option ScriptGuard → Setting
  provider_recorder : Bool → Setting

unfoldable pub configure : Worker → Setting → Worker
configure w (providers_mode mode) = set_providers_mode mode w
configure w (race_wait d) = set_race_wait d w
configure w (circuit_open_duration d) = set_circuit_open_duration d w
configure w (circuit_backoff base cap) = set_circuit_backoff base cap w
configure w (fallback_providers provs) = set_fallback_providers provs w
configure w (providers_version v) = set_providers_version v w
configure w (miss_backoff base cap) = set_miss_backoff base cap w
configure w (max_miss_attempts n) = set_max_miss_attempts n w
configure w (verification verifier below) = enable_verification verifier below w
configure w (audio_detector detector) = enable_audio_detector detector w
configure w (instrumental_default enabled) = set_instrumental_detection_default enabled w
configure w (guard g) = enable_guard g w
configure w (provider_recorder recorder) = set_provider_recorder recorder w

unfoldable pub configure_all : Worker → List Setting → Worker
configure_all w [] = w
configure_all w (s ∷ ss) = configure_all (configure w s) ss
