-- ===== src/Orchestrator/Ordered/Refines.antt =====
-- Ordered mode of internal/orchestrator/orchestrator.go against its doc comment.
use mxlrcgo_svc.Common.{
  suc, ◌≡◌, sym, ap, ◌∙◌, Option, none, some, List, [], ◌∷◌, ◌++◌, map, length, All, arith,
}
use mathlib.Core.List.{append-nil}
use mxlrcgo_svc.Models.{Song, no_song}
use mxlrcgo_svc.Errors.{Err}
use mxlrcgo_svc.Orchestrator.Suitability.{ScriptGuard}
use mxlrcgo_svc.Orchestrator.Dispatch.{no_result, lane_attempts_for}
use mxlrcgo_svc.Orchestrator.Dispatch.Best.{gather, verdict_or}
use mxlrcgo_svc.Orchestrator.Ordered.{Visit, lanes_of, ordered_loop, find_ordered}
use mxlrcgo_svc.Orchestrator.Dispatch.Seen.{winner}
use mxlrcgo_svc.Orchestrator.Ordered.Loop.{
  seen, called, reports, consulted, IsPassed, prepend, ordered_loop-passed, ordered_loop-winner,
  finish-verdict,
}

-- The first suitable song wins. If every lane before `v` was passed (the context was live, and the lane was open,
-- failed or had nothing suitable) and `v` brings a suitable song, the dispatch returns that song
-- with no error, under the lane's name, attributed to the consulted lanes in order with this lane
-- as the hit, and the lanes after `v` are never called: their breakers are as they were.
pub find_ordered-winner :
    (guard : Option ScriptGuard) (last : Option Err) (before after : List Visit) (v : Visit)
    (song : Song)
    → All (IsPassed guard) before
    → v.ctx_err ≡ none
    → seen guard v ≡ winner song
    → find_ordered guard last (before ++ v ∷ after) ≡ record {
      lanes = map called before ++ called v ∷ lanes_of after;
      song = record song {
        winning_lane = (called v).name;
        lane_attempts =
            lane_attempts_for (consulted guard before ++ (called v).name ∷ []) (called v).name;
      };
      err = none;
    }
unfolding find_ordered
find_ordered-winner guard last before after v song h c w =
    ordered_loop-passed guard _ last before (v ∷ after) no_result [] h
    ∙ ap (prepend (map called before)) (
        ordered_loop-winner guard _ last v after (gather no_result (reports guard before))
          (consulted guard before) song c w)

-- With the context live at every lane's turn and no suitable song from any lane, every lane has been
-- called and the dispatch returns the verdict on their reports, in priority order: the best fallback with no error, else the error of
-- the highest precedence, else (no lane was consulted) the context's error or that all lanes were
-- unavailable. Exactly the consulted lanes are attributed, and the fallback's lane is the hit.
pub find_ordered-verdict :
    (guard : Option ScriptGuard) (last : Option Err) (v : Visit) (vs : List Visit)
    → All (IsPassed guard) (v ∷ vs)
    → let (song, err) = verdict_or last (reports guard (v ∷ vs)) in
      find_ordered guard last (v ∷ vs) ≡ record {
        lanes = map called (v ∷ vs);
        song = record song {
          lane_attempts = lane_attempts_for (consulted guard (v ∷ vs)) song.winning_lane;
        };
        err = err;
      }
unfolding find_ordered
find_ordered-verdict guard last v vs h =
    ap (λ all. ordered_loop guard (length (v ∷ vs)) last all no_result [])
      (sym (append-nil (v ∷ vs)))
    ∙ ordered_loop-passed guard (length (v ∷ vs)) last (v ∷ vs) [] no_result [] h
    ∙ finish-verdict guard (suc (length vs)) last (reports guard (v ∷ vs))
        (consulted guard (v ∷ vs)) (map called (v ∷ vs)) (omega arith)

-- A context that is cancelled while the loop runs ends it: the lanes before were called, the others were not, and
-- the context's error is returned with no song, whatever fallback had been gathered.
pub find_ordered-cancelled :
    (guard : Option ScriptGuard) (last : Option Err) (before after : List Visit) (v : Visit)
    (e : Err)
    → All (IsPassed guard) before
    → v.ctx_err ≡ some e
    → find_ordered guard last (before ++ v ∷ after) ≡ record {
      lanes = map called before ++ v.lane ∷ lanes_of after;
      song = no_song;
      err = some e;
    }
unfolding find_ordered
find_ordered-cancelled guard last before after v e h c =
    ordered_loop-passed guard _ last before (v ∷ after) no_result [] h
    ∙ ap (prepend (map called before)) (unfold ordered_loop in rw (c, ordered_loop))
