-- ===== src/Worker/Verdicts/Process.antt =====
-- What an error that `song` returns does to the row, in internal/worker/worker.go.
use mxlrcgo_svc.Common.{
  ◌≡◌, ◌≢◌, refl, sym, ap, ◌∙◌, subst, String, Bool, true, false, Option, none, some, List, [], ◌∷◌,
  arith,
}
use mxlrcgo_svc.Models.{Track, Song}
use mxlrcgo_svc.Cache
use mxlrcgo_svc.Orchestrator.Lane.{Lane}
use mxlrcgo_svc.Errors.{
  Err, is_benign_miss, OutcomeClass, success, benign_miss, transport, auth_rate_limit, unavailable,
  classify_outcome,
}
use mxlrcgo_svc.Queue.{processing, has_status, Row, DbQueue, find, by_id}
use mxlrcgo_svc.Worker.{Worker}
use mxlrcgo_svc.Worker.Services.{Services, Round, resolved_track, record_misses, record_attempts}
use mxlrcgo_svc.Worker.Reports.{release_after_throttle, fail}
use mxlrcgo_svc.Worker.Misses.{not_run, after_detect, detect_instrumental, miss}
use mxlrcgo_svc.Orchestrator.Mode.{find_lyrics}
use mxlrcgo_svc.Worker.Song.{replied, dispatched, in_cache, after_lookup, look_up, song_of}
use mxlrcgo_svc.Worker.Once.{on_class, settle, bypasses, process}
use mxlrcgo_svc.Worker.Calls.Stamps.{record_attempts-queue, record_misses-queue}
use mxlrcgo_svc.Worker.Calls.Rounds.{song_of-queue}
use mxlrcgo_svc.Worker.Verdicts.{
  Verdict, HeldRow, Stands, released-Stands, failed-Stands, requeued-Stands,
}

-- `song` changes of the worker only its lanes.
abbrev OnlyLanes : Worker → Worker → Type 0
OnlyLanes w v = v ≡ record w { orch = v.orch; lane = v.lane; fallbacks = v.fallbacks }

replied-OnlyLanes :
    (w : Worker) (e : Err) (s : Services) (o : Option (List Lane × Song × Option Err))
    → OnlyLanes w (replied w e s o).0
replied-OnlyLanes w e s none = refl
replied-OnlyLanes w e s (some ([], song, err)) = refl
replied-OnlyLanes w e s (some (l ∷ ls, song, err)) = refl

dispatched-OnlyLanes : (w : Worker) (r : Round) (s : Services) → OnlyLanes w (dispatched w r s).0
dispatched-OnlyLanes w r s = replied-OnlyLanes w r.cancel s (find_lyrics w.orch r.events)

after_lookup-OnlyLanes :
    (normalize_key : String → String) (decode : String → Option Song) (w : Worker) (r : Round)
    (s : Services) (track : Track) (o : Cache.CacheRepo × Option String)
    → OnlyLanes w (after_lookup normalize_key decode w r s track o).0
after_lookup-OnlyLanes normalize_key decode w r s track (c, none) =
    dispatched-OnlyLanes w r (in_cache s c)
after_lookup-OnlyLanes normalize_key decode w r s track (c, some text) = refl

look_up-OnlyLanes :
    (normalize_key : String → String) (decode : String → Option Song) (fault : Option String)
    (w : Worker) (r : Round) (s : Services) (track : Track)
    → OnlyLanes w (look_up normalize_key decode fault w r s track).0
look_up-OnlyLanes normalize_key decode (some m) w r s track = refl
look_up-OnlyLanes normalize_key decode none w r s track =
    after_lookup-OnlyLanes normalize_key decode w r s track _

song_of-worker :
    (normalize_key : String → String) (decode : String → Option Song) (w : Worker) (r : Round)
    (s : Services) (track : Track) (bypass : Bool)
    → OnlyLanes w (song_of normalize_key decode w r s track bypass).0
unfolding song_of
song_of-worker normalize_key decode w r s track true = dispatched-OnlyLanes w r s
song_of-worker normalize_key decode w r s track false =
    look_up-OnlyLanes normalize_key decode r.lookup_fault w r s track

module _ (error_text : Err → String) (q : DbQueue) (normalize_key : String → String)
    (encode : Song → String) (decode : String → Option Song) where
  missed-Stands :
      (w : Worker) (r : Round) (s : Services) (item : Row) (song : Song) (cause : Err)
      → r.first.fault ≡ none
      → HeldRow item s.queue
      → detect_instrumental w r item ≡ not_run
      → Stands error_text q benign_miss w r.first.now item
          (miss normalize_key encode error_text q w r s item song cause)
  unfolding miss
  missed-Stands w r s item song cause sound h off =
      let missed = record_misses w r s in
      let noted = record_attempts w r item.id song.lane_attempts missed in
      subst
        (λ d.
          Stands error_text q benign_miss w r.first.now item
            (after_detect normalize_key encode error_text q w r noted item cause d))
        (sym off)
        (requeued-Stands error_text q r.first w noted item cause sound (
          subst (HeldRow item)
            (sym (record_attempts-queue w r item.id song missed ∙ record_misses-queue w r s)) h))

  class_missed : (e : Err) → classify_outcome (some e) ≡ benign_miss → is_benign_miss e ≡ true
  unfolding classify_outcome
  class_missed e h = ground (arith, h)

  class_transport : (e : Err) → classify_outcome (some e) ≡ transport → is_benign_miss e ≡ false
  unfolding classify_outcome
  class_transport e h = ground (arith, h)

  class_failed : (e : Err) → classify_outcome (some e) ≢ success
  unfolding classify_outcome
  class_failed e h = ground (arith, h)

  on_class-Stands :
      (class : OutcomeClass) (w v : Worker) (r : Round) (s : Services) (item : Row) (song : Song)
      (e : Err)
      → classify_outcome (some e) ≡ class
      → v ≡ record w { orch = v.orch; lane = v.lane; fallbacks = v.fallbacks }
      → r.first.fault ≡ none
      → HeldRow item s.queue
      → detect_instrumental v r item ≡ not_run
      → Stands error_text q class w r.first.now item
          (on_class normalize_key encode decode error_text q class v r s item song e)
  unfolding release_after_throttle
  on_class-Stands unavailable w v r s item song e c same sound h off =
      (released-Stands error_text q r.first w v s item sound h).0
        (ap (λ x. x.consecutive_failures) same)
  on_class-Stands auth_rate_limit w v r s item song e c same sound h off =
      (released-Stands error_text q r.first w
          (record v {
            consecutive_failures = 0;
            last_fail_id = 0;
            last_fail_artist = "";
            last_fail_track = "";
          })
          s item sound h).1
        refl
  on_class-Stands benign_miss w v r s item song e c same sound h off =
      let (row, found, verdict) = missed-Stands v r s item song e sound h off in
      rw (class_missed e c) (
        row,
        found,
        subst
            (λ x.
              Verdict benign_miss q x r.first.now item row
                (miss normalize_key encode error_text q v r s item song e))
            same verdict,
      )
  on_class-Stands transport w v r s item song e c same sound h off =
      let (row, found, verdict) = failed-Stands error_text q r.first v s item e sound h in
      rw (class_transport e c) (
        row,
        found,
        subst
            (λ x. Verdict transport q x r.first.now item row (fail error_text q r.first v s item e))
            same verdict,
      )
  on_class-Stands success w v r s item song e c same sound h off = absurd (class_failed e c)

  -- What an error of the providers does to the row that the worker holds, the detector being off
  -- and the database taking the report. If every lane was open, or a provider throttled or
  -- refused the token, the row is pending again with its attempts, its misses and its next attempt
  -- as they were, and the worker idles; a throttle also clears its failures. If no provider has
  -- lyrics, the row is put off by the cadence of its misses, which count one more, or done once
  -- they reach the cap; its attempts are as they were, and the worker's failures are cleared. On
  -- any other error the row is failed with one attempt more, its next one by the back-off, and the
  -- worker counts one failure more. `song` returns no error of another class.
  pub process-Verdict :
      (w : Worker) (r : Round) (s : Services) (item : Row) (e : Err)
      → find (by_id item.id) s.queue.rows ≡ some item
      → has_status processing item.status ≡ true
      → r.first.fault ≡ none
      → detect_instrumental w r item ≡ not_run
      → (song_of normalize_key decode w r s (resolved_track item) (bypasses w item)).2.err ≡ some e
      → let out = process normalize_key encode decode error_text q w r s item in
        (row : Row) × (find (by_id item.id) out.1.queue.rows ≡ some row)
        × Verdict (classify_outcome (some e)) q w r.first.now item row out
  unfolding process detect_instrumental
  process-Verdict w r s item e found busy sound off failing =
      let out = song_of normalize_key decode w r s (resolved_track item) (bypasses w item) in
      let queue =
        song_of-queue normalize_key decode w r s (resolved_track item) (bypasses w item) in
      let same =
        song_of-worker normalize_key decode w r s (resolved_track item) (bypasses w item) in
      subst
        (λ err. Stands error_text q (classify_outcome (some e)) w r.first.now item (
          settle normalize_key encode decode error_text q err out.2.cache_hit out.0 r out.1 item
            out.2.song))
        (sym failing)
        (on_class-Stands (classify_outcome (some e)) w out.0 r out.1 item out.2.song e refl same
          sound (subst (HeldRow item) (sym queue) (found, busy))
          (ap (λ v. detect_instrumental v r item) same ∙ off))
