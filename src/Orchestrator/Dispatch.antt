-- ===== src/Orchestrator/Dispatch.antt =====
-- internal/orchestrator/orchestrator.go: what both dispatch modes share, the outcome gathered over
-- the lanes (`dispatchResult`), its resolution, and the attribution of a track to the lanes.
pub mod Best
pub mod Seen
use mxlrcgo_svc.Common.{
  ℕ, suc, String, Bool, true, false, not, ◌||◌, ◌&&◌, Option, none, some, List, [], ◌∷◌, map, ltb,
  ◌==◌, str_eq, if◌then◌else◌,
}
use mxlrcgo_svc.Models.{Song, LaneAttempt, no_song}
use mxlrcgo_svc.Errors.{Err, sentinel, lane_unavailable, OutcomeClass, success, precedence}
use mxlrcgo_svc.Orchestrator.Suitability.{Quality, quality_none, rank, quality_of}

-- `bestSong` and `bestLane` are read only where `haveBest` is set, and `topClass` where `topErr`
-- is; the zero values stand there until then.
pub record DispatchResult : Type 0 where
  pub best_song : Song
  pub best_lane : String
  pub have_best : Bool
  pub best_quality : Quality
  pub top_err : Option Err
  pub top_class : OutcomeClass
  pub consulted : ℕ

unfoldable pub no_result : DispatchResult
no_result = record {
  best_song = no_song;
  best_lane = "";
  have_best = false;
  best_quality = quality_none;
  top_err = none;
  top_class = success;
  consulted = 0;
}

unfoldable pub retain : Song → String → DispatchResult → DispatchResult
retain song lane_name r =
    let q = quality_of song in
    if not r.have_best || ltb (rank r.best_quality) (rank q)
    then record r { best_song = song; best_quality = q; have_best = true; best_lane = lane_name }
    else r

abbrev is_none : Option Err → Bool
is_none none = true
is_none (some _) = false

unfoldable pub rank_err : Err → OutcomeClass → DispatchResult → DispatchResult
rank_err e class r =
    if is_none r.top_err || ltb (precedence r.top_class) (precedence class)
    then record r { top_err = some e; top_class = class }
    else r

-- The error given (of the context, of a lane), or else the sentinel.
abbrev pub err_or_unavailable : Option Err → Err
err_or_unavailable none = sentinel lane_unavailable
err_or_unavailable (some e) = e

-- `resolve`: `lanes` is the number of lanes, `ctx_err` what the context's `Err()` returns.
unfoldable pub resolve : ℕ → Option Err → DispatchResult → Song × Option Err
resolve lanes ctx_err r =
    if r.have_best
    then (record r.best_song { winning_lane = r.best_lane }, none)
    else if r.consulted == 0 && ltb 0 lanes
    then (no_song, some (err_or_unavailable ctx_err))
    else (no_song, some (err_or_unavailable r.top_err))

-- One entry for each lane that was consulted, a hit for the winner.
unfoldable pub lane_attempts_for : List String → String → List LaneAttempt
lane_attempts_for attempted winner =
    map (λ name. record { lane = name; hit = str_eq name winner }) attempted
