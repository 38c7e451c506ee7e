-- ===== src/Orchestrator/Ordered.antt =====
-- internal/orchestrator/orchestrator.go: ordered mode, one lane after the other. Each lane comes
-- with what happens while it is its turn: what the context's `Err()` returns before it is asked, and the turn
-- itself. The result carries the lanes with their new breakers.
pub mod Loop
pub mod Refines
use mxlrcgo_svc.Common.{
  ℕ, suc, String, Bool, true, false, Option, none, some, List, [], ◌∷◌, ◌++◌, map, if◌then◌else◌,
  length,
}
use mxlrcgo_svc.Models.{Song, no_song}
use mxlrcgo_svc.Errors.{
  Err, OutcomeClass, success, benign_miss, transport, auth_rate_limit, unavailable,
  classify_outcome,
}
use mxlrcgo_svc.Orchestrator.Suitability.{ScriptGuard, is_suitable}
use mxlrcgo_svc.Orchestrator.Lane.{Lane, Turn, find_lyrics}
use mxlrcgo_svc.Orchestrator.Dispatch.{
  DispatchResult, no_result, retain, rank_err, resolve, lane_attempts_for,
}

pub record Visit : Type 0 where
  pub lane : Lane
  pub ctx_err : Option Err
  pub turn : Turn

pub record Outcome : Type 0 where
  pub lanes : List Lane
  pub song : Song
  pub err : Option Err

abbrev pub lanes_of : List Visit → List Lane
lanes_of vs = map (λ v. v.lane) vs

abbrev pub with_lane : Lane → Outcome → Outcome
with_lane l o = record o { lanes = l ∷ o.lanes }

-- The tail behind the loop: resolve, and attribute the track to the lanes that were consulted.
finish : ℕ → Option Err → DispatchResult → List String → Outcome
finish lanes last_ctx r attempted =
    let (song, err) = resolve lanes last_ctx r in
    record {
      lanes = [];
      song = record song { lane_attempts = lane_attempts_for attempted song.winning_lane };
      err = err;
    }

-- The body for an error of the given class: an open lane was not consulted.
report_err :
    (DispatchResult → List String → Outcome)
    → DispatchResult
    → List String
    → Lane
    → Err
    → OutcomeClass
    → Outcome
report_err next r attempted lane e unavailable = with_lane lane (next r attempted)
report_err next r attempted lane e class = with_lane lane (
    next (rank_err e class (record r { consulted = suc r.consulted }))
      (attempted ++ lane.name ∷ []))

-- The body of the loop for a lane, with the rest of the loop as a function of the state.
report :
    Option ScriptGuard
    → (DispatchResult → List String → Outcome)
    → List Lane
    → DispatchResult
    → List String
    → Lane × Song × Option Err
    → Outcome
report guard next untouched r attempted (lane, song, none) =
    let consulted : DispatchResult = record r { consulted = suc r.consulted } in
    let names = attempted ++ lane.name ∷ [] in
    let rest = next (retain song lane.name consulted) names in
    if is_suitable song guard
    then record {
      lanes = lane ∷ untouched;
      song = record song {
        winning_lane = lane.name;
        lane_attempts = lane_attempts_for names lane.name;
      };
      err = none;
    }
    else with_lane lane rest
report guard next untouched r attempted (lane, song, some e) =
    report_err next r attempted lane e (classify_outcome (some e))

-- The loop of `findOrdered`; `lanes` is the number of lanes and `last_ctx` the context's `Err()`
-- behind the loop.
unfoldable pub ordered_loop :
    Option ScriptGuard → ℕ → Option Err → List Visit → DispatchResult → List String → Outcome
unfolding finish report report_err
ordered_loop guard lanes last_ctx [] r attempted = finish lanes last_ctx r attempted
ordered_loop guard lanes last_ctx (v ∷ vs) r attempted = elim v.ctx_err [
  | some e ↦ record { lanes = lanes_of (v ∷ vs); song = no_song; err = some e }
  | none ↦
      report guard (ordered_loop guard lanes last_ctx vs) (lanes_of vs) r attempted
        (find_lyrics v.lane v.turn)
]

unfoldable pub find_ordered : Option ScriptGuard → Option Err → List Visit → Outcome
find_ordered guard last_ctx vs = ordered_loop guard (length vs) last_ctx vs no_result []
