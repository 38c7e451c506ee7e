-- ===== src/Worker/Loop.antt =====
-- `Run` and `RunPaced` of internal/worker/worker.go: rounds until the queue is empty, the context
-- ends or an error comes back, with a back-off behind failures. `sleep` and the pause are inputs.
pub mod Idle
use mxlrcgo_svc.Common.{
  String, Bool, not, ◌&&◌, ◌||◌, Option, none, some, List, [], ◌∷◌, ltb, is_some, if◌then◌else◌,
}
use mxlrcgo_svc.Common.Int.{ℤ, pos}
use mxlrcgo_svc.Backoff.{geometric}
use mxlrcgo_svc.Models.{Song}
use mxlrcgo_svc.Errors.{Err, errors_is, canceled, deadline_exceeded}
use mxlrcgo_svc.Queue.{DbQueue}
use mxlrcgo_svc.Worker.{Worker}
use mxlrcgo_svc.Worker.Services.{Services, Round, RunResult, processed, queue_empty, returned}
use mxlrcgo_svc.Worker.Once.{run_once}

-- One pass of the loop: the context's `Err()` behind the sleep and behind the round, the round, and
-- what the pause returns.
pub record Pass : Type 0 where
  pub slept : Option Err
  pub round : Round
  pub ended : Option Err
  pub pause : Option Err

-- How the loop stands: it has returned, or the passes have run out.
pub data LoopResult : Type 0 where
  runs : LoopResult
  returns : Option Err → LoopResult

-- The delays of the sleeps come with the result, the first one first.
abbrev pub LoopOut : Type 0
LoopOut = Worker × Services × List ℤ × LoopResult

abbrev pub is_canceled : Err → Bool
is_canceled e = errors_is e canceled || errors_is e deadline_exceeded

abbrev pub delay_of : Worker → ℤ
delay_of w = geometric (pos w.consecutive_failures) w.base_backoff w.max_backoff

abbrev pub stop : Worker → Services → Option Err → LoopOut
stop w s e = (w, s, [], returns e)

abbrev pub sleeping : ℤ → LoopOut → LoopOut
sleeping d (w, s, ds, result) = (w, s, d ∷ ds, result)

-- What the pause returned; `RunPaced` has one.
abbrev pub paused : Option Err → Worker → Services → LoopOut → LoopOut
paused none w s rest = rest
paused (some e) w s rest = stop w s (if is_canceled e then none else some e)

-- Behind a round. An error that is the context's own is passed over.
abbrev pub after_round : Bool → Pass → Worker × Services × RunResult → LoopOut → LoopOut
after_round paced p (w, s, queue_empty) rest = stop w s none
after_round paced p (w, s, returned e) rest =
    stop w s (if is_some p.ended && is_canceled e then none else some e)
after_round paced p (w, s, processed) rest =
    if is_some p.ended
    then stop w s none
    else if ltb 0 w.consecutive_failures || not paced
    then rest
    else paused p.pause w s rest

module _ (normalize_key : String → String) (encode : Song → String) (decode : String → Option Song)
    (error_text : Err → String) (q : DbQueue) where
  unfoldable pub run_loop : Bool → List Pass → Worker → Services → LoopOut
  run_loop paced [] w s = (w, s, [], runs)
  run_loop paced (p ∷ ps) w s =
      let out = run_once normalize_key encode decode error_text q w p.round s in
      let rest = run_loop paced ps out.0 out.1 in
      if ltb 0 w.consecutive_failures
      then sleeping (delay_of w)
          (if is_some p.slept then stop w s none else after_round paced p out rest)
      else after_round paced p out rest
