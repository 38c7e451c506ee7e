-- ===== src/Worker/Once.antt =====
-- `RunOnce` of internal/worker/worker.go: one row, from its claim to the report on it. `encode` and
-- `decode` are `json.Marshal` and `json.Unmarshal` of a song, and `error_text` is `Error()`.
use mxlrcgo_svc.Common.{
  String, Bool, true, false, not, ◌&&◌, Option, none, some, ◌⊎◌, inl, inr, List, ◌==◌, str_eq,
  if◌then◌else◌,
}
use mxlrcgo_svc.Common.Int.{leb_ℤ}
use mxlrcgo_svc.Models.{Song}
use mxlrcgo_svc.Errors.{
  Err, other, wrapped, is_benign_miss, OutcomeClass, auth_rate_limit, unavailable, classify_outcome,
}
use mxlrcgo_svc.Orchestrator.Lane.{Lane}
use mxlrcgo_svc.Queue.{Row, Store, DbQueue}
use mxlrcgo_svc.Queue.Claim.{dequeue}
use mxlrcgo_svc.Queue.Results
use mxlrcgo_svc.Worker.{Worker, lanes}
use mxlrcgo_svc.Worker.Services.{
  Services, Round, RunResult, processed, queue_empty, returned, outcome_type_from_song,
  output_paths, resolved_track, record_hit, record_attempts, guard_reject, told, write_outputs,
}
use mxlrcgo_svc.Worker.Reports.{release_item, release_after_throttle, fail, complete_item, in_queue}
use mxlrcgo_svc.Worker.Misses.{put_song, stamp_outcome, miss}
use mxlrcgo_svc.Worker.Song.{with_lanes, ask_lanes, Found, in_cache, song_of}

abbrev pub low_score : Worker → Round → Row → Bool
low_score w r item =
    w.verifier
    && not (str_eq item.work.source_path "")
    && not (leb_ℤ w.verify_below_confidence r.confidence)

abbrev pub verdict : Err ⊎ Bool → Option Err
verdict (inl e) = some (wrapped "worker: verify lyrics" e)
verdict (inr true) = none
verdict (inr false) = some (other "worker: verification rejected lyrics")

-- `verify`, with the score of the match.
unfoldable pub verify : Worker → Round → Row → Option Err
verify w r item = if low_score w r item then verdict r.verified else none

-- `bypassCache`: the row was enqueued for another set of providers.
abbrev pub bypasses : Worker → Row → Bool
bypasses w item =
    not (w.providers_version == 0) && not (item.providers_version == w.providers_version)

module _ (normalize_key : String → String) (encode : Song → String) (decode : String → Option Song)
    (error_text : Err → String) (q : DbQueue) where
  -- The branches of `RunOnce` for an error.
  abbrev pub on_class :
      OutcomeClass → Worker → Round → Services → Row → Song → Err → Worker × Services × RunResult
  on_class unavailable w r s item song e = release_item r.first w s item
  on_class auth_rate_limit w r s item song e = release_after_throttle r.first w s item
  on_class class w r s item song e =
      if is_benign_miss e
      then miss normalize_key encode error_text q w r s item song e
      else fail error_text q r.first w s item e

  abbrev pub after_write :
      Worker → Round → Row → Song → Option String × Services → Worker × Services × RunResult
  after_write w r item song (some m, s) =
      fail error_text q r.first w s item (wrapped "worker: write item" (other m))
  after_write w r item song (none, s) =
      let outcome = outcome_type_from_song song in
      complete_item error_text q r.first r.second w
        (if str_eq outcome "" then s else stamp_outcome r item.id outcome s) item

  -- The files and the completion.
  unfoldable pub write_song : Worker → Round → Services → Row → Song → Worker × Services × RunResult
  write_song w r s item song =
      after_write w r item song (write_outputs r song (output_paths item) s)

  abbrev pub after_policy :
      Worker → Round → Services → Row → Option Err × Store → Worker × Services × RunResult
  after_policy w r s item (none, st) =
      (record w { consecutive_failures = 0 }, in_queue s st, processed)
  after_policy w r s item (some e, st) =
      fail error_text q r.second w (in_queue s st) item
        (wrapped "worker: complete guard-rejected item" e)

  -- A guard's rejection completes the row.
  unfoldable pub reject_song : Worker → Round → Services → Row → Worker × Services × RunResult
  reject_song w r s item =
      after_policy w r s item
        (told r.first.fault s.queue (Results.complete r.first.now item.id s.queue))

  -- `store`, and what follows it.
  abbrev pub store_song :
      Option String
      → Option String
      → Worker
      → Round
      → Services
      → Row
      → Song
      → Worker × Services × RunResult
  store_song (some m) f w r s item song =
      fail error_text q r.first w s item (wrapped "worker: encode song cache" (other m))
  store_song none (some m) w r s item song =
      fail error_text q r.first w s item (wrapped "worker: store cache" (other m))
  store_song none none w r s item song =
      write_song w r (in_cache s (put_song normalize_key encode (resolved_track item) song s.cache))
        item song

  abbrev pub after_verify :
      Option Err → Worker → Round → Services → Row → Song → Worker × Services × RunResult
  after_verify (some e) w r s item song = fail error_text q r.first w s item e
  after_verify none w r s item song =
      if guard_reject w song
      then reject_song w r s item
      else store_song r.encode_fault r.store_fault w r s item song

  -- Lyrics that a provider returned.
  unfoldable pub accept_song :
      Worker → Round → Services → Row → Song → Worker × Services × RunResult
  accept_song w r s item found =
      let song : Song = record found { fetched_at = r.fetched_at } in
      after_verify (verify w r item) w r
        (record_attempts w r item.id song.lane_attempts
          (record_hit w r item.id song.winning_lane s))
        item song

  -- What follows `song`, by its error and its `cacheHit`.
  abbrev pub settle :
      Option Err → Bool → Worker → Round → Services → Row → Song → Worker × Services × RunResult
  settle (some e) hit w r s item song = on_class (classify_outcome (some e)) w r s item song e
  settle none true w r s item song = write_song w r s item song
  settle none false w r s item song = accept_song w r s item song

  abbrev pub after_song : Round → Row → Worker × Services × Found → Worker × Services × RunResult
  after_song r item (w, s, f) = settle f.err f.cache_hit w r s item f.song

  -- `RunOnce` for a row that is claimed.
  unfoldable pub process : Worker → Round → Services → Row → Worker × Services × RunResult
  process w r s item =
      after_song r item (song_of normalize_key decode w r s (resolved_track item) (bypasses w item))

  abbrev pub after_dequeue :
      Option String
      → Worker
      → Round
      → Services
      → Option (Store × Row)
      → Worker × Services × RunResult
  after_dequeue (some m) w r s o = (w, s, returned (wrapped "worker: dequeue" (other m)))
  after_dequeue none w r s none = (w, s, queue_empty)
  after_dequeue none w r s (some (st, item)) = process w r (in_queue s st) item

  abbrev pub after_gate :
      Worker → Round → Services → List Lane × Bool → Worker × Services × RunResult
  after_gate w r s (ls, true) = (with_lanes w ls, s, queue_empty)
  after_gate w r s (ls, false) =
      after_dequeue r.claim.fault (with_lanes w ls) r s (dequeue q r.draw r.claim.now s.queue)

  abbrev pub with_context : Option Err → Worker → Round → Services → Worker × Services × RunResult
  with_context (some e) w r s = (w, s, returned e)
  with_context none w r s = after_gate w r s (ask_lanes r.gate_now 0 (lanes w))

  unfoldable pub run_once : Worker → Round → Services → Worker × Services × RunResult
  run_once w r s = with_context r.ctx_err w r s
