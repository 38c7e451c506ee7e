-- ===== src/Worker/Reports.antt =====
-- The reports of internal/worker/worker.go to the queue behind a round that found no lyrics or
-- failed. A message that wraps an error is cut to its verb, and `error_text` is `Error()`.
use mxlrcgo_svc.Common.{suc, String, ◌&&◌, Option, none, some, ltb, leb, if◌then◌else◌}
use mxlrcgo_svc.Common.Int.{pos}
use mxlrcgo_svc.Backoff.{miss_cooldown}
use mxlrcgo_svc.Errors.{Err, wrapped, joined, errors_is, no_rows}
use mxlrcgo_svc.Queue.{Row, Store, DbQueue}
use mxlrcgo_svc.Queue.Results
use mxlrcgo_svc.Worker.{Worker}
use mxlrcgo_svc.Worker.Services.{
  Services, Report, RunResult, processed, queue_empty, returned, told,
}

abbrev pub in_queue : Services → Store → Services
in_queue s st = record s { queue = st }

-- The result of a call that the worker wraps the error of.
abbrev pub result_of : RunResult → String → Option Err → RunResult
result_of good m none = good
result_of good m (some e) = returned (wrapped m e)

abbrev pub with_queue :
    Worker → Services → RunResult → String → Option Err × Store → Worker × Services × RunResult
with_queue w s good m (e, st) = (w, in_queue s st, result_of good m e)

-- A row is released and the worker idles.
unfoldable pub release_item : Report → Worker → Services → Row → Worker × Services × RunResult
release_item p w s item =
    with_queue w s queue_empty "worker: release item"
      (told p.fault s.queue (Results.release item.id s.queue))

unfoldable pub release_after_throttle :
    Report → Worker → Services → Row → Worker × Services × RunResult
unfolding release_item
release_after_throttle p w s item =
    release_item p
      (record w {
        consecutive_failures = 0;
        last_fail_id = 0;
        last_fail_artist = "";
        last_fail_track = "";
      })
      s item

-- `errors.Is(err, sql.ErrNoRows)` of a deferral or a retirement is passed over.
abbrev pub unless_moved_on : Services → String → Option Err × Store → Services × Option Err
unless_moved_on s m (none, st) = (in_queue s st, none)
unless_moved_on s m (some e, st) =
    (in_queue s st, if errors_is e no_rows then none else some (wrapped m e))

-- The error behind a failed `Complete`, by what `Fail` returned.
abbrev pub both : Option Err → Err → Err
both none cause = wrapped "worker: complete item (marked failed)" cause
both (some f) cause = wrapped "worker: complete item and mark failed" (joined cause f)

module _ (error_text : Err → String) (q : DbQueue) where
  unfoldable pub fail : Report → Worker → Services → Row → Err → Worker × Services × RunResult
  fail p w s item cause =
      with_queue
        (record w {
          consecutive_failures = suc w.consecutive_failures;
          last_fail_id = item.id;
          last_fail_artist = item.work.artist;
          last_fail_track = item.work.title;
        })
        s processed "worker: fail item"
        (told p.fault s.queue (Results.fail q p.now item.id (error_text cause) s.queue))

  -- The behaviour once `Complete` has failed with `e` behind the files: the row is marked failed,
  -- and an error comes back either way.
  unfoldable pub fail_complete :
      Report → Worker → Services → Row → Err → Worker × Services × RunResult
  fail_complete p w s item e =
      let cause = wrapped "worker: complete item" e in
      let (failed, st) =
        told p.fault s.queue (Results.fail q p.now item.id (error_text cause) s.queue) in
      (
        record w { consecutive_failures = suc w.consecutive_failures },
        in_queue s st,
        returned (both failed cause),
      )

  unfoldable pub requeue_deferred : Report → Worker → Services → Row → Err → Services × Option Err
  requeue_deferred p w s item cause =
      let next = suc item.miss_count in
      if ltb 0 w.max_miss_attempts && leb w.max_miss_attempts next
      then unless_moved_on s "worker: retire miss item"
          (told p.fault s.queue (Results.retire_miss p.now item.id s.queue))
      else unless_moved_on s "worker: requeue item" (
          told p.fault s.queue (
            Results.defer_miss p.now item.id
              (miss_cooldown (pos next) w.miss_backoff_base w.miss_backoff_cap) (error_text cause)
              s.queue))

  abbrev pub after_complete :
      Report → Worker → Services → Row → Option Err × Store → Worker × Services × RunResult
  after_complete p w s item (none, st) =
      (record w { consecutive_failures = 0 }, in_queue s st, processed)
  after_complete p w s item (some e, st) = fail_complete p w (in_queue s st) item e

  -- The last report of a round that wrote its files.
  unfoldable pub complete_item :
      Report → Report → Worker → Services → Row → Worker × Services × RunResult
  complete_item p second w s item =
      after_complete second w s item (told p.fault s.queue (Results.complete p.now item.id s.queue))
