-- ===== src/Orchestrator/Ordered/Loop.antt =====
-- Ordered mode of internal/orchestrator/orchestrator.go turn by turn.
use mxlrcgo_svc.Common.{
  ℕ, ◌<◌, ◌≡◌, refl, ap, ◌∙◌, String, true, false, Option, none, some, List, [], ◌∷◌, ◌++◌, map,
  All, arith, inl, inr, Bool-cases,
}
use mathlib.Core.List.{append_assoc, append-nil}
use mxlrcgo_svc.Models.{Song}
use mxlrcgo_svc.Errors.{Err, OutcomeClass, success, unavailable, classify_outcome}
use mxlrcgo_svc.Orchestrator.Suitability.{ScriptGuard, is_suitable}
use mxlrcgo_svc.Orchestrator.Lane.{Lane, find_lyrics}
use mxlrcgo_svc.Orchestrator.Dispatch.{DispatchResult, no_result, resolve, lane_attempts_for}
use mxlrcgo_svc.Orchestrator.Dispatch.Best.{Report, gather, verdict_or, resolve-verdict}
use mxlrcgo_svc.Orchestrator.Ordered.{
  Visit, Outcome, lanes_of, with_lane, report, report_err, finish, ordered_loop,
}
use mxlrcgo_svc.Orchestrator.Dispatch.Seen.{
  Seen, winner, seen_err, seen_of, reports_of, names_of, is_winner, gather-append,
  seen_err-ne-winner,
}

abbrev pub seen : Option ScriptGuard → Visit → Seen
seen guard v = let (l, song, err) = find_lyrics v.lane v.turn in seen_of guard l.name song err

-- The lane as the call leaves it.
abbrev pub called : Visit → Lane
called v = (find_lyrics v.lane v.turn).0

abbrev pub reports : Option ScriptGuard → List Visit → List Report
reports guard [] = []
reports guard (v ∷ vs) = reports_of (seen guard v) ++ reports guard vs

-- The lanes that were consulted, in order.
abbrev pub consulted : Option ScriptGuard → List Visit → List String
consulted guard [] = []
consulted guard (v ∷ vs) = names_of (called v).name (seen guard v) ++ consulted guard vs

-- A visit that the loop passes: the context is live, and there is no suitable song.
abbrev pub IsPassed : Option ScriptGuard → Visit → Type 0
IsPassed guard v = (v.ctx_err ≡ none) × (is_winner (seen guard v) ≡ false)

abbrev pub prepend : List Lane → Outcome → Outcome
prepend ls o = record o { lanes = ls ++ o.lanes }

report_err-seen :
    (next : DispatchResult → List String → Outcome) (r : DispatchResult) (attempted : List String)
    (l : Lane) (e : Err) (c : OutcomeClass)
    → classify_outcome (some e) ≡ c
    → report_err next r attempted l e c
      ≡ with_lane l (
          next (gather r (reports_of (seen_err e c))) (attempted ++ names_of l.name (seen_err e c)))
unfolding report_err gather
report_err-seen next r attempted l e unavailable p = rw append-nil
report_err-seen next r attempted l e success p = rw p
report_err-seen next r attempted l e _ p = rw p

-- One turn of the loop for a visit that it passes.
report-passed :
    (guard : Option ScriptGuard) (next : DispatchResult → List String → Outcome)
    (untouched : List Lane) (r : DispatchResult) (attempted : List String) (l : Lane) (song : Song)
    (err : Option Err)
    → is_winner (seen_of guard l.name song err) ≡ false
    → report guard next untouched r attempted (l, song, err)
      ≡ with_lane l (
          next
            (gather r (reports_of (seen_of guard l.name song err)))
            (attempted ++ names_of l.name (seen_of guard l.name song err)))
unfolding report gather
report-passed guard next untouched r attempted l song (some x) h =
    report_err-seen next r attempted l x (classify_outcome (some x)) refl
report-passed guard next untouched r attempted l song none h =
    elim (Bool-cases (is_suitable song guard)) [
      | inl good ↦ absurd (ground arith)
      | inr bad ↦ rw bad
    ]

ordered_loop-step :
    (guard : Option ScriptGuard) (lanes : ℕ) (last : Option Err) (v : Visit) (vs : List Visit)
    (r : DispatchResult) (attempted : List String)
    → IsPassed guard v
    → ordered_loop guard lanes last (v ∷ vs) r attempted
      ≡ with_lane (called v) (
          ordered_loop guard lanes last vs
            (gather r (reports_of (seen guard v)))
            (attempted ++ names_of (called v).name (seen guard v)))
unfolding ordered_loop
ordered_loop-step guard lanes last v vs r attempted h =
    rw (h.0, ordered_loop)
      (report-passed guard (ordered_loop guard lanes last vs) (lanes_of vs) r attempted (called v)
        (find_lyrics v.lane v.turn).1 (find_lyrics v.lane v.turn).2 h.1)

-- The loop over visits that it passes is their accumulation.
pub ordered_loop-passed :
    (guard : Option ScriptGuard) (lanes : ℕ) (last : Option Err) (before vs : List Visit)
    (r : DispatchResult) (attempted : List String)
    → All (IsPassed guard) before
    → ordered_loop guard lanes last (before ++ vs) r attempted
      ≡ prepend (map called before) (
          ordered_loop guard lanes last vs
            (gather r (reports guard before))
            (attempted ++ consulted guard before))
unfolding gather
ordered_loop-passed guard lanes last [] vs r attempted h = rw append-nil
ordered_loop-passed guard lanes last (v ∷ before) vs r attempted h =
    let r' = gather r (reports_of (seen guard v)) in
    let names = attempted ++ names_of (called v).name (seen guard v) in
    ordered_loop-step guard lanes last v (before ++ vs) r attempted h.0
    ∙ ap (with_lane (called v)) (ordered_loop-passed guard lanes last before vs r' names h.1)
    ∙ rw (gather-append r (reports_of (seen guard v)), append_assoc attempted)

-- The outcome that commits `song` from the lane `l`.
abbrev pub committed : Lane → List Lane → List String → Song → Outcome
committed l untouched attempted song = record {
  lanes = l ∷ untouched;
  song = record song {
    winning_lane = l.name;
    lane_attempts = lane_attempts_for (attempted ++ l.name ∷ []) l.name;
  };
  err = none;
}

report-winner :
    (guard : Option ScriptGuard) (next : DispatchResult → List String → Outcome)
    (untouched : List Lane) (r : DispatchResult) (attempted : List String) (l : Lane)
    (reply song : Song) (err : Option Err)
    → seen_of guard l.name reply err ≡ winner song
    → report guard next untouched r attempted (l, reply, err) ≡ committed l untouched attempted song
unfolding report
report-winner guard next untouched r attempted l reply song (some e) h =
    absurd (seen_err-ne-winner e (classify_outcome (some e)) song h)
report-winner guard next untouched r attempted l reply song none h =
    elim (Bool-cases (is_suitable reply guard)) [
      | inl good ↦ rw good (ap (committed l untouched attempted) (same good))
      | inr bad ↦ absurd (ground arith)
    ]
  where
    same : is_suitable reply guard ≡ true → reply ≡ song
    same good = ground arith

pub ordered_loop-winner :
    (guard : Option ScriptGuard) (lanes : ℕ) (last : Option Err) (v : Visit) (vs : List Visit)
    (r : DispatchResult) (attempted : List String) (song : Song)
    → v.ctx_err ≡ none
    → seen guard v ≡ winner song
    → ordered_loop guard lanes last (v ∷ vs) r attempted
      ≡ committed (called v) (lanes_of vs) attempted song
unfolding ordered_loop
ordered_loop-winner guard lanes last v vs r attempted song c w =
    rw (c, ordered_loop)
      (report-winner guard (ordered_loop guard lanes last vs) (lanes_of vs) r attempted (called v)
        (find_lyrics v.lane v.turn).1 song (find_lyrics v.lane v.turn).2 w)

-- An answer with the track attributed.
abbrev pub attributed : List Lane → List String → Song × Option Err → Outcome
attributed ls attempted (song, err) = record {
  lanes = ls;
  song = record song { lane_attempts = lane_attempts_for attempted song.winning_lane };
  err = err;
}

pub finish-verdict :
    (guard : Option ScriptGuard) (lanes : ℕ) (last : Option Err) (rs : List Report)
    (attempted : List String) (ls : List Lane)
    → 0 < lanes
    → prepend ls (ordered_loop guard lanes last [] (gather no_result rs) attempted)
      ≡ attributed ls attempted (verdict_or last rs)
unfolding ordered_loop finish
finish-verdict guard lanes last rs attempted ls h =
    ap (λ ls'. attributed ls' attempted (resolve lanes last (gather no_result rs))) (append-nil ls)
    ∙ ap (attributed ls attempted) (resolve-verdict lanes last rs h)
