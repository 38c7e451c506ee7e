-- ===== src/Worker/Written/Rejected.antt =====
-- Lyrics that the script guard rejects, in internal/worker/worker.go.
use mxlrcgo_svc.Common.{
  ◌≡◌, refl, sym, ap, ◌∙◌, subst, String, Bool, true, false, Option, none, some, if◌then◌else◌,
  arith,
}
use mxlrcgo_svc.Common.Int.{pos}
use mxlrcgo_svc.Models.{Track, Song}
use mxlrcgo_svc.Errors.{Err}
use mxlrcgo_svc.Normalize.{duration_bucket}
use mxlrcgo_svc.Cache
use mxlrcgo_svc.Cache.Reads.{lookup-cache_stats}
use mxlrcgo_svc.Queue.{processing, done, has_status, Row, DbQueue, find, by_id}
use mxlrcgo_svc.Queue.Results.{completed_row}
use mxlrcgo_svc.Queue.Lookup.{find-updated}
use mxlrcgo_svc.Worker.{Worker}
use mxlrcgo_svc.Worker.Services.{
  Services, Round, RunResult, processed, resolved_track, record_hit, record_attempts, guard_reject,
}
use mxlrcgo_svc.Orchestrator.Mode.{find_lyrics}
use mxlrcgo_svc.Worker.Song.{replied-services, in_cache, after_lookup, look_up, song_of}
use mxlrcgo_svc.Worker.Once.{
  verify, reject_song, store_song, after_verify, accept_song, settle, bypasses, process,
}
use mxlrcgo_svc.Worker.Calls.Stamps.{record_attempts-queue}
use mxlrcgo_svc.Worker.Calls.Rounds.{song_of-queue}
use mxlrcgo_svc.Worker.Written.{
  HeldAt, HeldAs, record_hit-HeldAs, told-complete, same_files, song_of-written,
}

song_of-rows :
    (normalize_key : String → String) (decode : String → Option Song) (w : Worker) (r : Round)
    (s : Services) (track : Track) (bypass : Bool)
    → (song_of normalize_key decode w r s track bypass).1.cache.rows ≡ s.cache.rows
unfolding song_of
song_of-rows normalize_key decode w r s track true =
    ap (λ t. t.cache.rows) (replied-services w r.cancel s (find_lyrics w.orch r.events))
song_of-rows normalize_key decode w r s track false = looked_up r.lookup_fault
  where
    found :
        (o : Cache.CacheRepo × Option String)
        → o.0.rows ≡ s.cache.rows
        → (after_lookup normalize_key decode w r s track o).1.cache.rows ≡ s.cache.rows
    found (c, none) h =
        ap (λ t. t.cache.rows)
          (replied-services w r.cancel (in_cache s c) (find_lyrics w.orch r.events))
        ∙ h
    found (c, some text) h = h

    looked_up :
        (fault : Option String)
        → (look_up normalize_key decode fault w r s track).1.cache.rows ≡ s.cache.rows
    looked_up (some m) = refl
    looked_up none =
        found _
          (lookup-cache_stats normalize_key track.artist_name track.track_name
            (duration_bucket (pos track.track_length)) s.cache).1

same_cache :
    (w : Worker) (r : Round) (item : Row) (song : Song) (s : Services)
    → (record_attempts w r item.id song.lane_attempts
        (record_hit w r item.id song.winning_lane s)).cache
      ≡ s.cache
unfolding record_attempts record_hit
same_cache w r item song s = ground arith

module _ (normalize_key : String → String) (encode : Song → String) (decode : String → Option Song)
    (error_text : Err → String) (q : DbQueue) where
  -- The row is done and nothing is written or cached.
  abbrev pub IsRejected : Row → Services → Worker × Services × RunResult → Type 0
  IsRejected item s out =
      (row : Row) × (find (by_id item.id) out.1.queue.rows ≡ some row)
      × (row.status ≡ done)
      × (row.attempts ≡ item.attempts)
      × (out.1.written ≡ s.written)
      × (out.1.cache.rows ≡ s.cache.rows)
      × (out.0.consecutive_failures ≡ 0)
      × (out.2 ≡ processed)

  reject_song-IsRejected :
      (w : Worker) (r : Round) (s : Services) (item : Row)
      → HeldAs item s.queue
      → r.first.fault ≡ none
      → IsRejected item s (reject_song normalize_key encode decode error_text q w r s item)
  unfolding reject_song
  reject_song-IsRejected w r s item (row, held, same) sound =
      rw (told-complete r.first item.id s.queue row sound held) (
        completed_row r.first.now row,
        find-updated item.id processing (completed_row r.first.now) s.queue.rows row (λ x. refl)
            held.0 held.1,
        refl,
        same,
        refl,
        refl,
        refl,
        refl,
      )

  of_services :
      (item : Row) (t s : Services) (out : Worker × Services × RunResult)
      → t.written ≡ s.written
      → t.cache.rows ≡ s.cache.rows
      → IsRejected item t out
      → IsRejected item s out
  of_services item t s out files rows (row, e, d, a, f, c, n, p) =
      (row, e, d, a, f ∙ files, c ∙ rows, n, p)

  accept_song-IsRejected :
      (w : Worker) (r : Round) (s : Services) (item : Row) (found : Song)
      → HeldAs item s.queue
      → verify w r item ≡ none
      → guard_reject w (record found { fetched_at = r.fetched_at }) ≡ true
      → r.first.fault ≡ none
      → IsRejected item s (accept_song normalize_key encode decode error_text q w r s item found)
  unfolding accept_song
  accept_song-IsRejected w r s item found held good banned sound =
      let song : Song = record found { fetched_at = r.fetched_at } in
      let hit = record_hit w r item.id song.winning_lane s in
      let noted = record_attempts w r item.id song.lane_attempts hit in
      let held' =
        subst (HeldAs item) (sym (record_attempts-queue w r item.id song hit))
          (record_hit-HeldAs w r item song.winning_lane s held) in
      let rejected =
        ap (λ v. after_verify normalize_key encode decode error_text q v w r noted item song) good
        ∙ ap
            (λ b.
              if b
              then reject_song normalize_key encode decode error_text q w r noted item
              else store_song normalize_key encode decode error_text q r.encode_fault r.store_fault
                  w r noted item song)
            banned in
      subst (IsRejected item s) (sym rejected) (
        of_services item noted s
          (reject_song normalize_key encode decode error_text q w r noted item)
          (same_files w r item song s) (ap (λ c. c.rows) (same_cache w r item song s))
          (reject_song-IsRejected w r noted item held' sound))

  -- Lyrics in a script that the guard rejects are final for a row that the worker holds: if the
  -- verification passes and the database takes the report, the row is done with the attempts that
  -- it had, nothing is written to a file, no row of the cache changes, and the worker's failures are
  -- cleared.
  pub process-IsRejected :
      (w : Worker) (r : Round) (s : Services) (item : Row) (found : Song)
      → find (by_id item.id) s.queue.rows ≡ some item
      → has_status processing item.status ≡ true
      → let out = song_of normalize_key decode w r s (resolved_track item) (bypasses w item) in
        out.2 ≡ record { song = found; cache_hit = false; err = none }
        → verify out.0 r item ≡ none
        → guard_reject out.0 (record found { fetched_at = r.fetched_at }) ≡ true
        → r.first.fault ≡ none
        → IsRejected item s (process normalize_key encode decode error_text q w r s item)
  unfolding process
  process-IsRejected w r s item found e busy got good banned sound =
      let track = resolved_track item in
      let bypass = bypasses w item in
      let out = song_of normalize_key decode w r s track bypass in
      let queue = song_of-queue normalize_key decode w r s track bypass in
      subst
        (λ f. IsRejected item s (
          settle normalize_key encode decode error_text q f.err f.cache_hit out.0 r out.1 item
            f.song))
        (sym got)
        (of_services item out.1 s
          (accept_song normalize_key encode decode error_text q out.0 r out.1 item found)
          (song_of-written normalize_key decode w r s track bypass)
          (song_of-rows normalize_key decode w r s track bypass)
          (accept_song-IsRejected out.0 r out.1 item found
            (item, subst (λ st. HeldAt item.id st item) (sym queue) (e, busy), refl) good banned
            sound))
