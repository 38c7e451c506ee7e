-- ===== src/Worker/Misses.antt =====
-- A round of internal/worker/worker.go in which no provider has lyrics: the track may be an
-- instrumental, by the audio detector; if it is not, the row is put off. `encode` is `json.Marshal`.
use mxlrcgo_svc.Common.{
  ℕ, String, Bool, not, Option, none, some, ◌⊎◌, inl, inr, str_eq, if◌then◌else◌,
}
use mxlrcgo_svc.Common.Int.{pos}
use mxlrcgo_svc.Models.{Track, no_track, Song, no_song}
use mxlrcgo_svc.Errors.{Err}
use mxlrcgo_svc.Normalize.{duration_bucket, trim_space}
use mxlrcgo_svc.Cache
use mxlrcgo_svc.Queue.{Row, InstrumentalTelemetry, DbQueue}
use mxlrcgo_svc.Queue.Stamps.{set_instrumental_result, set_outcome_type}
use mxlrcgo_svc.Worker.{Worker}
use mxlrcgo_svc.Worker.Services.{
  Services, Detection, Round, RunResult, processed, returned, output_paths, resolved_track,
  record_misses, record_attempts, write_outputs,
}
use mxlrcgo_svc.Worker.Reports.{requeue_deferred, complete_item, in_queue}

pub data Detected : Type 0 where
  not_run : Detected
  broke : Err → Detected
  ran : Detection → Detected

abbrev pub detected_of : Err ⊎ Detection → Detected
detected_of (inl e) = broke e
detected_of (inr d) = ran d

abbrev pub or_default : Bool → Option Bool → Bool
or_default b none = b
or_default b (some c) = c

unfoldable pub detect_instrumental : Worker → Round → Row → Detected
detect_instrumental w r item =
    if not (or_default w.detect_instrumental_default item.detect_instrumental)
    then not_run
    else if not w.audio_detector
    then not_run
    else if str_eq (trim_space item.work.source_path) ""
    then not_run
    else detected_of r.detected

unfoldable pub instrumental_song : Row → Song
instrumental_song item =
    let track = resolved_track item in
    record no_song {
      track = record no_track {
        artist_name = track.artist_name;
        track_name = track.track_name;
        album_name = track.album_name;
        instrumental = 1;
      };
    }

-- `SetInstrumentalResult` and `SetOutcomeType`, whose failures are only logged.
abbrev pub stamp_result : Round → ℕ → ℕ → InstrumentalTelemetry → Services → Services
stamp_result r i result tel s =
    in_queue s
      (if r.lost.instrumental then s.queue else set_instrumental_result i result tel s.queue)

abbrev pub stamp_outcome : Round → ℕ → String → Services → Services
stamp_outcome r i outcome s =
    in_queue s (if r.lost.outcome then s.queue else set_outcome_type i outcome s.queue)

abbrev pub after_requeue : Worker → Services × Option Err → Worker × Services × RunResult
after_requeue w (s, none) = (record w { consecutive_failures = 0 }, s, processed)
after_requeue w (s, some e) = (w, s, returned e)

module _ (normalize_key : String → String) (encode : Song → String) where
  -- `cache.Store` under the key of the track that was looked up.
  abbrev pub put_song : Track → Song → Cache.CacheRepo → Cache.CacheRepo
  put_song track song =
      Cache.store normalize_key track.artist_name track.track_name
        (duration_bucket (pos track.track_length)) (encode song)

  -- The cache behind a store whose failure is only logged.
  abbrev pub try_store : Option String → Option String → Track → Song → Services → Services
  try_store (some m) f track song s = s
  try_store none (some m) track song s = s
  try_store none none track song s = record s { cache = put_song track song s.cache }

  module _ (error_text : Err → String) (q : DbQueue) where
    abbrev pub requeue : Worker → Round → Services → Row → Err → Worker × Services × RunResult
    requeue w r s item cause =
        after_requeue w (requeue_deferred error_text q r.first w s item cause)

    -- The marker's files are written, or one could not be.
    abbrev pub after_marker :
        Worker
        → Round
        → Row
        → Err
        → Detection
        → Option String × Services
        → Worker × Services × RunResult
    after_marker w r item cause d (some m, s) = requeue w r s item cause
    after_marker w r item cause d (none, s) =
        complete_item error_text q r.first r.second w
          (stamp_outcome r item.id "instrumental" (stamp_result r item.id 1 d.telemetry s)) item

    unfoldable pub write_marker :
        Worker → Round → Services → Row → Err → Detection → Worker × Services × RunResult
    write_marker w r s item cause d =
        let song = instrumental_song item in
        after_marker w r item cause d (
          write_outputs r song (output_paths item)
            (try_store r.encode_fault r.store_fault (resolved_track item) song s))

    abbrev pub after_detect :
        Worker → Round → Services → Row → Err → Detected → Worker × Services × RunResult
    after_detect w r s item cause not_run = requeue w r s item cause
    after_detect w r s item cause (broke e) = requeue w r s item cause
    after_detect w r s item cause (ran d) =
        if d.instrumental
        then write_marker w r s item cause d
        else requeue w r (stamp_result r item.id 0 d.telemetry s) item cause

    -- The branch of `RunOnce` for `musixmatch.IsBenignMiss`.
    unfoldable pub miss :
        Worker → Round → Services → Row → Song → Err → Worker × Services × RunResult
    miss w r s item song cause =
        after_detect w r (record_attempts w r item.id song.lane_attempts (record_misses w r s)) item
          cause (detect_instrumental w r item)
