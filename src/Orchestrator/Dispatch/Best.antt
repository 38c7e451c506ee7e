-- ===== src/Orchestrator/Dispatch/Best.antt =====
-- The outcome that internal/orchestrator/orchestrator.go gathers, against a specification by the
-- reports of the lanes.
use mxlrcgo_svc.Common.{
  ℕ, suc, ◌+◌, ◌<◌, ◌≡◌, refl, String, Option, none, some, List, [], ◌∷◌, ltb, if◌then◌else◌, arith,
  length,
}
use mxlrcgo_svc.Models.{Song, no_song}
use mxlrcgo_svc.Errors.{Err, sentinel, lane_unavailable, precedence, classify_outcome}
use mxlrcgo_svc.Orchestrator.Suitability.{rank, quality_of}
use mxlrcgo_svc.Orchestrator.Dispatch.{
  DispatchResult, no_result, retain, rank_err, resolve, is_none, err_or_unavailable,
}

-- What a lane that was consulted came back with, short of a suitable song.
pub data Report : Type 0 where
  fallback : Song → String → Report
  failure : Err → Report

abbrev pub better : Song × String → Option (Song × String) → Option (Song × String)
better x none = some x
better (song, name) (some (other, lane)) =
    if ltb (rank (quality_of song)) (rank (quality_of other))
    then some (other, lane)
    else some (song, name)

-- The fallback of the highest quality, the first of equals.
abbrev pub best : List Report → Option (Song × String)
best [] = none
best (failure e ∷ rs) = best rs
best (fallback song name ∷ rs) = better (song, name) (best rs)

abbrev pub worse : Err → Option Err → Option Err
worse e none = some e
worse e (some d) =
    if ltb (precedence (classify_outcome (some e))) (precedence (classify_outcome (some d)))
    then some d
    else some e

-- The error of the highest precedence, the first of equals.
abbrev pub worst : List Report → Option Err
worst [] = none
worst (fallback song name ∷ rs) = worst rs
worst (failure e ∷ rs) = worse e (worst rs)

-- What the reports call for: the best fallback, or the worst error, or that no lane was available.
abbrev pub verdict_of : Option (Song × String) → Option Err → Song × Option Err
verdict_of (some (song, name)) e = (record song { winning_lane = name }, none)
verdict_of none (some e) = (no_song, some e)
verdict_of none none = (no_song, some (sentinel lane_unavailable))

abbrev pub verdict : List Report → Song × Option Err
verdict rs = verdict_of (best rs) (worst rs)

-- The code's accumulation over the reports in the order of arrival.
unfoldable pub gather : DispatchResult → List Report → DispatchResult
gather r [] = r
gather r (fallback song name ∷ rs) =
    gather (retain song name (record r { consulted = suc r.consulted })) rs
gather r (failure e ∷ rs) =
    gather (rank_err e (classify_outcome (some e)) (record r { consulted = suc r.consulted })) rs

abbrev best_of : DispatchResult → Option (Song × String)
best_of r = if r.have_best then some (r.best_song, r.best_lane) else none

abbrev pick : Option (Song × String) → Option (Song × String) → Option (Song × String)
pick none y = y
pick (some x) y = better x y

abbrev pick_err : Option Err → Option Err → Option Err
pick_err none y = y
pick_err (some e) y = worse e y

-- The cached quality and class are those of the song and the error that are kept.
record IsGathered (r : DispatchResult) : Type 0 where
  quality_cached : r.best_quality ≡ (if r.have_best then quality_of r.best_song else r.best_quality)
  class_cached :
      r.top_class ≡ (if is_none r.top_err then r.top_class else classify_outcome r.top_err)

gather-best :
    (r : DispatchResult) (rs : List Report)
    → IsGathered r
    → (best_of (gather r rs) ≡ pick (best_of r) (best rs))
      × ((gather r rs).top_err ≡ pick_err r.top_err (worst rs))
      × ((gather r rs).consulted ≡ r.consulted + length rs)
unfolding gather retain rank_err
gather-best r [] g = ground arith
gather-best r (fallback song name ∷ rs) g =
    ground (arith, gather-best (retain song name (record r { consulted = suc r.consulted })) rs)
gather-best r (failure e ∷ rs) g = ground (
  arith,
  gather-best (rank_err e (classify_outcome (some e)) (record r { consulted = suc r.consulted }))
      rs,
)

-- The verdict, with the context's error for a dispatch that no lane reported to.
abbrev pub verdict_or : Option Err → List Report → Song × Option Err
verdict_or ctx_err [] = (no_song, some (err_or_unavailable ctx_err))
verdict_or ctx_err (c ∷ rs) = verdict (c ∷ rs)

resolve_none :
    (lanes : ℕ) (ctx_err : Option Err)
    → 0 < lanes
    → resolve lanes ctx_err (gather no_result []) ≡ (no_song, some (err_or_unavailable ctx_err))
unfolding resolve no_result gather
resolve_none lanes ctx_err h = ground arith

resolve-verdict_of :
    (lanes : ℕ) (ctx_err : Option Err) (r : DispatchResult) (b : Option (Song × String))
    (w : Option Err)
    → best_of r ≡ b
    → r.top_err ≡ w
    → 0 < r.consulted
    → resolve lanes ctx_err r ≡ verdict_of b w
unfolding resolve
resolve-verdict_of lanes ctx_err r none none eb ew h = ground arith
resolve-verdict_of lanes ctx_err r none (some e) eb ew h = ground arith
resolve-verdict_of lanes ctx_err r (some (song, name)) w eb ew h = ground arith

-- Over any reports of the lanes in any order, the code's running comparison ends in the specified
-- verdict: the fallback of the highest quality, the first of equals, under its lane's name and with
-- no error; with no fallback at all the error of the highest precedence, the first of equals; and
-- with no report the context's error, or else that every lane was unavailable.
pub resolve-verdict :
    (lanes : ℕ) (ctx_err : Option Err) (rs : List Report)
    → 0 < lanes
    → resolve lanes ctx_err (gather no_result rs) ≡ verdict_or ctx_err rs
unfolding no_result
resolve-verdict lanes ctx_err [] h = resolve_none lanes ctx_err h
resolve-verdict lanes ctx_err (c ∷ rs) h =
    let g =
      gather-best no_result (c ∷ rs) (record { quality_cached = refl; class_cached = refl }) in
    resolve-verdict_of lanes ctx_err (gather no_result (c ∷ rs)) (best (c ∷ rs)) (worst (c ∷ rs))
      g.0 g.1 (omega (arith, g.2))
