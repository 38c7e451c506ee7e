-- ===== src/Worker/Services.antt =====
-- What the worker of internal/worker/worker.go works on: the queue, the cache, the outcome tables
-- and the files; and what one round has from the outside.
use mxlrcgo_svc.Common.{
  ℕ, String, Bool, false, not, ◌&&◌, ◌||◌, Option, none, some, ◌⊎◌, List, [], ◌∷◌, ltb, ◌==◌,
  length, str_eq, if◌then◌else◌,
}
use mxlrcgo_svc.Common.Int.{ℤ}
use mxlrcgo_svc.Models.{Track, no_track, Song, LaneAttempt, OutputPath}
use mxlrcgo_svc.Errors.{Err, sentinel, other, no_rows}
use mxlrcgo_svc.Orchestrator.Suitability.{ScriptGuard}
use mxlrcgo_svc.Orchestrator.Mode.{Events, lane_names}
use mxlrcgo_svc.Normalize.{resolve_artist}
use mxlrcgo_svc.Cache.{CacheRepo}
use mxlrcgo_svc.Queue.{Row, InstrumentalTelemetry, Store}
use mxlrcgo_svc.Queue.Counters.{
  Counts, AttemptRow, record_provider_hit, record_provider_miss, record_lane_attempts,
}
use mxlrcgo_svc.Queue.Stamps.{set_provider_lane}
use mxlrcgo_svc.Worker.{Worker}

-- `written` are the calls of `WriteLRC` that succeeded, the last one first.
pub record Services : Type 0 where
  pub queue : Store
  pub cache : CacheRepo
  pub outcomes : List (String × Counts)
  pub attempts : List AttemptRow
  pub written : List (Song × OutputPath)

-- `detector.Result`.
pub record Detection : Type 0 where
  pub instrumental : Bool
  pub telemetry : InstrumentalTelemetry

-- A report to the queue: the clock's reading, and the database's error, if it fails.
pub record Report : Type 0 where
  pub now : ℕ
  pub fault : Option String

-- Which of the stamps that the worker only logs the failure of are lost.
pub record Lost : Type 0 where
  pub hit : Bool
  pub misses : String → Bool
  pub lane : Bool
  pub attempts : Bool
  pub instrumental : Bool
  pub outcome : Bool

-- What a round of `RunOnce` has from the outside: the context's error, the clock as each lane is
-- asked whether it is open, the random numbers, the database's errors, what happens
-- around the orchestrator's dispatch, with the context's error that ends a race which no arrival
-- ends, the score of the match, and what the verifier, the
-- detector, the cache and the writer answer where they are asked. `second` is the report behind
-- one that failed.
pub record Round : Type 0 where
  pub ctx_err : Option Err
  pub gate_now : ℕ → ℕ
  pub draw : ℕ → ℕ
  pub claim : Report
  pub lookup_fault : Option String
  pub events : Events
  pub cancel : Err
  pub fetched_at : ℕ
  pub attempted_at : ℕ
  pub confidence : ℤ
  pub verified : Err ⊎ Bool
  pub detected : Err ⊎ Detection
  pub encode_fault : Option String
  pub store_fault : Option String
  pub write_fault : OutputPath → Option String
  pub lost : Lost
  pub first : Report
  pub second : Report

-- What `RunOnce` returns: nil, `errQueueEmpty` or another error.
pub data RunResult : Type 0 where
  processed queue_empty : RunResult
  returned : Err → RunResult

-- `outcomeTypeFromSong`.
unfoldable pub outcome_type_from_song : Song → String
outcome_type_from_song song =
    if song.track.instrumental == 1
    then "instrumental"
    else if ltb 0 (length song.subtitles)
    then "synced"
    else if not (str_eq song.lyrics_body "")
    then "unsynced"
    else ""

abbrev pub or_planned : OutputPath → List OutputPath → List OutputPath
or_planned planned [] = planned ∷ []
or_planned planned (p ∷ paths) = p ∷ paths

unfoldable pub output_paths : Row → List OutputPath
output_paths item =
    or_planned (record { outdir = item.work.outdir; filename = item.work.filename })
      item.work.output_paths

-- The track of a row (`scanWorkItem` leaves its other fields zero), and the same with the artist
-- that it is matched by.
abbrev pub item_track : Row → Track
item_track item = record no_track {
  artist_name = item.work.artist;
  track_name = item.work.title;
  album_name = item.work.album;
  album_artist = item.work.album_artist;
}

unfoldable pub resolved_track : Row → Track
resolved_track item = record (item_track item) {
  artist_name = resolve_artist item.work.album_artist item.work.artist;
}

-- `recordHit`.
unfoldable pub record_hit : Worker → Round → ℕ → String → Services → Services
record_hit w r i lane s = if str_eq lane "" then s else record s {
  outcomes =
      if w.provider_recorder && not r.lost.hit
      then record_provider_hit lane s.outcomes
      else s.outcomes;
  queue = if r.lost.lane then s.queue else set_provider_lane i lane s.queue;
}

abbrev pub record_each :
    (String → Bool) → List String → List (String × Counts) → List (String × Counts)
record_each lost [] t = t
record_each lost (name ∷ names) t =
    record_each lost names (if lost name then t else record_provider_miss name t)

-- `recordMisses`.
unfoldable pub record_misses : Worker → Round → Services → Services
record_misses w r s =
    if not w.provider_recorder
    then s
    else record s { outcomes = record_each r.lost.misses (lane_names w.orch) s.outcomes }

-- `recordLaneAttempts`.
unfoldable pub record_attempts : Worker → Round → ℕ → List LaneAttempt → Services → Services
record_attempts w r i attempts s =
    if not w.provider_recorder || (length attempts == 0) || r.lost.attempts
    then s
    else record s { attempts = record_lane_attempts r.attempted_at i attempts s.attempts }

-- `guardReject`.
abbrev pub rejects : Option ScriptGuard → Song → Bool
rejects none song = false
rejects (some g) song = if not g.enabled then false else not (g.accept song)

unfoldable pub guard_reject : Worker → Song → Bool
guard_reject w song = rejects w.script_guard song

-- A call of the queue: the database's error, or `sql.ErrNoRows`, or the new tables.
abbrev pub told : Option String → Store → Option (Store × Row) → Option Err × Store
told (some m) st o = (some (other m), st)
told none st none = (some (sentinel no_rows), st)
told none st (some (st', r)) = (none, st')

-- One call of the writer, and the rest of the loop.
abbrev pub or_stop : Option String → Services → Option String × Services → Option String × Services
or_stop none s rest = rest
or_stop (some m) s rest = (some m, s)

-- `writer.WriteLRC` over the paths, up to the first error.
unfoldable pub write_outputs : Round → Song → List OutputPath → Services → Option String × Services
write_outputs r song [] s = (none, s)
write_outputs r song (p ∷ paths) s =
    or_stop (r.write_fault p) s
      (write_outputs r song paths (record s { written = (song, p) ∷ s.written }))
