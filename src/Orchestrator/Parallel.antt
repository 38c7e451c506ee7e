-- ===== src/Orchestrator/Parallel.antt =====
-- internal/orchestrator/parallel.go: parallel mode. The lanes run at once, and the collector
-- selects among what arrives: a lane's result, the end of the upgrade window, and the context's cancellation. So a
-- dispatch is a function of the sequence of arrivals; a reading of the context's `Err()` comes with
-- the arrival that makes the code read it. The length of the window is left to the arrivals.
pub mod Collector
pub mod Ends
pub mod Passes
pub mod Refines
use mxlrcgo_svc.Common.{
  ℕ, suc, ◌-◌, String, Bool, true, false, not, ◌&&◌, ◌||◌, Option, none, some, ◌⊎◌, inl, inr, List,
  [], ◌∷◌, ◌++◌, ltb, leb, ◌==◌, if◌then◌else◌, is_some,
}
use mxlrcgo_svc.Models.{Song, no_song}
use mxlrcgo_svc.Errors.{
  Err, canceled, errors_is, OutcomeClass, success, benign_miss, transport, auth_rate_limit,
  unavailable, classify_outcome,
}
use mxlrcgo_svc.Orchestrator.Suitability.{ScriptGuard, is_suitable, quality_of, rank, synced}
use mxlrcgo_svc.Orchestrator.Dispatch.{
  DispatchResult, no_result, retain, rank_err, resolve, lane_attempts_for,
}

pub record LaneResult : Type 0 where
  pub song : Song
  pub err : Option Err
  pub name : String

pub data Arrival : Type 0 where
  -- `ctx.Done()`, with the context's error.
  cancels : Err → Arrival
  -- A lane's result; the context's `Err()` as it is read once no lane is pending.
  arrives : LaneResult → Option Err → Arrival
  -- The upgrade timer, with the context's `Err()`.
  elapses : Option Err → Arrival

-- The collector's variables; `held` is `heldSong` with `heldLane` where `haveHeld` is set, and
-- `upgrade` whether the timer is armed.
pub record Race : Type 0 where
  pub result : DispatchResult
  pub held : Option (Song × String)
  pub upgrade : Bool
  pub pending : ℕ
  pub consulted : List String

abbrev pub Reply : Type 0
Reply = Song × Option Err

-- `song.WinningLane = lane; song.LaneAttempts = laneAttemptsFor(consulted, lane)`.
abbrev pub commit : List String → Song × String → Reply
commit consulted (song, lane) =
    (record song { winning_lane = lane; lane_attempts = lane_attempts_for consulted lane }, none)

commit_held : Race → Reply
commit_held r = commit_or_empty r.held
  where
    commit_or_empty : Option (Song × String) → Reply
    commit_or_empty none = commit r.consulted (no_song, "")
    commit_or_empty (some held) = commit r.consulted held

-- The `pending == 0` block.
unfoldable pub settle : ℕ → Option Err → Race → Reply
unfolding commit_held
settle lanes (some e) r = (no_song, some e)
settle lanes none r =
    if is_some r.held
    then commit_held r
    else (let (song, err) = resolve lanes none r.result in
        (record song { lane_attempts = lane_attempts_for r.consulted song.winning_lane }, err))

-- Past the switch on the result.
unfoldable pub after_result : ℕ → Option Err → Race → Race ⊎ Reply
unfolding settle commit_held
after_result lanes ctx_err r = if r.pending == 0 then inr (settle lanes ctx_err r) else inl r

-- `if !haveHeld { heldSong, haveHeld, heldLane = … }`.
abbrev pub keep_first : Option (Song × String) → Song × String → Option (Song × String)
keep_first none x = some x
keep_first (some held) x = some held

-- A suitable song with no synced lines: held if it is the first, and the window is armed.
hold : LaneResult → Race → Race
hold res r = record r {
  held = keep_first r.held (res.song, res.name);
  upgrade = r.upgrade || ltb 0 r.pending;
}

-- A lane that was consulted; `r` counts it already.
on_song : Option ScriptGuard → ℕ → Option Err → LaneResult → Race → Race ⊎ Reply
unfolding after_result hold
on_song guard lanes ctx_err res r =
    if is_suitable res.song guard
    then if leb (rank synced) (rank (quality_of res.song))
      then inr (commit r.consulted (res.song, res.name))
      else after_result lanes ctx_err (hold res r)
    else after_result lanes ctx_err (record r { result = retain res.song res.name r.result })

count_consulted : String → Race → Race
count_consulted name r = record r {
  result = record r.result { consulted = suc r.result.consulted };
  consulted = r.consulted ++ name ∷ [];
}

on_class : ℕ → Option Err → String → Err → OutcomeClass → Race → Race ⊎ Reply
unfolding after_result count_consulted
on_class lanes ctx_err name e unavailable r = after_result lanes ctx_err r
on_class lanes ctx_err name e class r =
    let counted = count_consulted name r in
    after_result lanes ctx_err (record counted { result = rank_err e class counted.result })

on_result : Option ScriptGuard → ℕ → Option Err → LaneResult → Option Err → Race → Race ⊎ Reply
unfolding on_song on_class count_consulted
on_result guard lanes ctx_err res none r =
    on_song guard lanes ctx_err res (count_consulted res.name r)
on_result guard lanes ctx_err res (some e) r =
    if errors_is e canceled
    then after_result lanes ctx_err r
    else on_class lanes ctx_err res.name e (classify_outcome (some e)) r

on_timer : Option Err → Race → Race ⊎ Reply
unfolding commit_held
on_timer ctx_err r = if r.upgrade then inr (timed_out ctx_err) else inl r
  where
    timed_out : Option Err → Reply
    timed_out (some e) = (no_song, some e)
    timed_out none = commit_held r

-- One turn of the collector's `select`. A timer that is not armed delivers nothing.
unfoldable pub select : Option ScriptGuard → ℕ → Race → Arrival → Race ⊎ Reply
unfolding on_result on_timer
select guard lanes r (cancels e) = inr (no_song, some e)
select guard lanes r (arrives res ctx_err) =
    on_result guard lanes ctx_err res res.err (record r { pending = r.pending - 1 })
select guard lanes r (elapses ctx_err) = on_timer ctx_err r

-- The collector over the arrivals; `none` while it still waits.
unfoldable pub collect : Option ScriptGuard → ℕ → Race → List Arrival → Option Reply
collect guard lanes r [] = none
collect guard lanes r (a ∷ rest) = elim (select guard lanes r a) [
  | inl r' ↦ collect guard lanes r' rest
  | inr reply ↦ some reply
]

unfoldable pub start : ℕ → Race
start lanes = record {
  result = no_result;
  held = none;
  upgrade = false;
  pending = lanes;
  consulted = [];
}

-- `findParallel` over `lanes` lanes, with the context's `Err()` at the start.
unfoldable pub find_parallel : Option ScriptGuard → ℕ → Option Err → List Arrival → Option Reply
find_parallel guard lanes (some e) arrivals = some (no_song, some e)
find_parallel guard lanes none arrivals = collect guard lanes (start lanes) arrivals
