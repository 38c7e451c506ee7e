-- ===== src/Worker/Written/Accepted.antt =====
-- Lyrics that are found, verified and written, in internal/worker/worker.go.
use mxlrcgo_svc.Common.{
  ◌≡◌, refl, sym, ap, ◌∙◌, subst, String, true, false, Option, none, some, str_eq, eq_iff,
  if◌then◌else◌, arith,
}
use mxlrcgo_svc.Common.Int.{pos}
use mxlrcgo_svc.Models.{Song, OutputPath}
use mxlrcgo_svc.Errors.{Err}
use mxlrcgo_svc.Normalize.{duration_bucket}
use mxlrcgo_svc.Cache
use mxlrcgo_svc.Cache.Reads.{lookup-store}
use mxlrcgo_svc.Queue.{processing, done, has_status, Row, DbQueue, find, by_id}
use mxlrcgo_svc.Worker.{Worker}
use mxlrcgo_svc.Worker.Services.{
  Services, Round, RunResult, processed, outcome_type_from_song, output_paths, resolved_track,
  record_hit, record_attempts, guard_reject,
}
use mxlrcgo_svc.Worker.Misses.{put_song}
use mxlrcgo_svc.Worker.Song.{in_cache, song_of}
use mxlrcgo_svc.Worker.Once.{
  verify, write_song, reject_song, store_song, after_verify, accept_song, settle, bypasses, process,
}
use mxlrcgo_svc.Worker.Calls.Stamps.{record_attempts-queue}
use mxlrcgo_svc.Worker.Calls.Rounds.{song_of-queue}
use mxlrcgo_svc.Worker.Written.{
  HeldAt, HeldAs, record_hit-HeldAs, added, same_files, song_of-written, write_song-IsWritten,
}

module _ (normalize_key : String → String) (encode : Song → String) (decode : String → Option Song)
    (error_text : Err → String) (q : DbQueue) where
  -- A lookup of the row's track finds the song.
  abbrev IsCached : Row → Song → Cache.CacheRepo → Type 0
  IsCached item song c =
      let track = resolved_track item in
      (Cache.lookup normalize_key track.artist_name track.track_name
        (duration_bucket (pos track.track_length)) c).1
      ≡ some (encode song)

  put_song-IsCached :
      (item : Row) (song : Song) (c : Cache.CacheRepo)
      → IsCached item song (put_song normalize_key encode (resolved_track item) song c)
  put_song-IsCached item song c =
      let track = resolved_track item in
      let b = duration_bucket (pos track.track_length) in
      lookup-store normalize_key track.artist_name track.track_name (encode song) track.artist_name
        track.track_name b b c
      ∙ ground (
        arith,
        eq_iff (normalize_key track.artist_name) (normalize_key track.artist_name),
        eq_iff (normalize_key track.track_name) (normalize_key track.track_name),
      )

  -- The song that a provider returned is written, and cached.
  abbrev pub IsAccepted : Row → Services → Song → Worker × Services × RunResult → Type 0
  IsAccepted item s song out =
      (row : Row) × (find (by_id item.id) out.1.queue.rows ≡ some row)
      × (row.status ≡ done)
      × (row.attempts ≡ item.attempts)
      × (row.outcome_type ≡ some (outcome_type_from_song song))
      × (out.1.written ≡ added song (output_paths item) s.written)
      × IsCached item song out.1.cache
      × (out.0.consecutive_failures ≡ 0)
      × (out.2 ≡ processed)

  of_files :
      (item : Row) (t s : Services) (song : Song) (out : Worker × Services × RunResult)
      → t.written ≡ s.written
      → IsAccepted item t song out
      → IsAccepted item s song out
  of_files item t s song out same (row, e, d, a, o, f, c, n, p) =
      (row, e, d, a, o, f ∙ ap (added song (output_paths item)) same, c, n, p)

  accepted :
      (w : Worker) (r : Round) (s : Services) (item : Row) (song : Song)
      → verify w r item ≡ none
      → guard_reject w song ≡ false
      → r.encode_fault ≡ none
      → r.store_fault ≡ none
      → after_verify normalize_key encode decode error_text q (verify w r item) w r s item song
        ≡ write_song normalize_key encode decode error_text q w r
            (in_cache s (put_song normalize_key encode (resolved_track item) song s.cache))
            item
            song
  accepted w r s item song good passed encoded stored =
      ap (λ v. after_verify normalize_key encode decode error_text q v w r s item song) good
      ∙ ap
          (λ b.
            if b
            then reject_song normalize_key encode decode error_text q w r s item
            else store_song normalize_key encode decode error_text q r.encode_fault r.store_fault w
                r s item song)
          passed
      ∙ ap
          (λ f. store_song normalize_key encode decode error_text q f r.store_fault w r s item song)
          encoded
      ∙ ap (λ f. store_song normalize_key encode decode error_text q none f w r s item song) stored

  accept_song-IsAccepted :
      (w : Worker) (r : Round) (s : Services) (item : Row) (found : Song)
      → HeldAs item s.queue
      → verify w r item ≡ none
      → guard_reject w (record found { fetched_at = r.fetched_at }) ≡ false
      → r.encode_fault ≡ none
      → r.store_fault ≡ none
      → r.first.fault ≡ none
      → r.lost.outcome ≡ false
      → ((p : OutputPath) → r.write_fault p ≡ none)
      → str_eq (outcome_type_from_song (record found { fetched_at = r.fetched_at })) "" ≡ false
      → IsAccepted item s
          (record found { fetched_at = r.fetched_at })
          (accept_song normalize_key encode decode error_text q w r s item found)
  unfolding accept_song
  accept_song-IsAccepted w r s item found held good passed encoded stored sound kept wrote
        writable =
      let song : Song = record found { fetched_at = r.fetched_at } in
      let hit = record_hit w r item.id song.winning_lane s in
      let noted = record_attempts w r item.id song.lane_attempts hit in
      let put =
        in_cache noted (put_song normalize_key encode (resolved_track item) song noted.cache) in
      let held' =
        subst (HeldAs item) (sym (record_attempts-queue w r item.id song hit))
          (record_hit-HeldAs w r item song.winning_lane s held) in
      let (row, e, d, a, o, f, c, n, p) =
        write_song-IsWritten normalize_key encode decode error_text q w r put item song held' sound
          kept wrote writable in
      subst (IsAccepted item s song) (sym (accepted w r noted item song good passed encoded stored))
        (
          row,
          e,
          d,
          a,
          o,
          f ∙ ap (added song (output_paths item)) (same_files w r item song s),
          subst (IsCached item song) (sym c) (put_song-IsCached item song noted.cache),
          n,
          p,
        )

  -- Lyrics that a provider returns for a row that the worker holds, that pass the verification and
  -- the script guard and that have anything to write, reach every file: if nothing fails, the row is
  -- done with the attempts that it had and the outcome of the song, the song is written to each of
  -- the row's output paths, in their order, a later lookup of the same track and length in the cache
  -- finds its encoding, and the worker's failures are cleared.
  pub process-IsAccepted :
      (w : Worker) (r : Round) (s : Services) (item : Row) (found : Song)
      → find (by_id item.id) s.queue.rows ≡ some item
      → has_status processing item.status ≡ true
      → let out = song_of normalize_key decode w r s (resolved_track item) (bypasses w item) in
        out.2 ≡ record { song = found; cache_hit = false; err = none }
        → verify out.0 r item ≡ none
        → guard_reject out.0 (record found { fetched_at = r.fetched_at }) ≡ false
        → r.encode_fault ≡ none
        → r.store_fault ≡ none
        → r.first.fault ≡ none
        → r.lost.outcome ≡ false
        → ((p : OutputPath) → r.write_fault p ≡ none)
        → str_eq (outcome_type_from_song (record found { fetched_at = r.fetched_at })) "" ≡ false
        → IsAccepted item s
            (record found { fetched_at = r.fetched_at })
            (process normalize_key encode decode error_text q w r s item)
  unfolding process
  process-IsAccepted w r s item found e busy got good passed encoded stored sound kept wrote
        writable =
      let out = song_of normalize_key decode w r s (resolved_track item) (bypasses w item) in
      let queue =
        song_of-queue normalize_key decode w r s (resolved_track item) (bypasses w item) in
      let files =
        song_of-written normalize_key decode w r s (resolved_track item) (bypasses w item) in
      subst
        (λ f.
          IsAccepted item s (record found { fetched_at = r.fetched_at })
            (settle normalize_key encode decode error_text q f.err f.cache_hit out.0 r out.1 item
              f.song))
        (sym got)
        (of_files item out.1 s (record found { fetched_at = r.fetched_at })
          (accept_song normalize_key encode decode error_text q out.0 r out.1 item found) files
          (accept_song-IsAccepted out.0 r out.1 item found
            (item, subst (λ st. HeldAt item.id st item) (sym queue) (e, busy), refl) good passed
            encoded stored sound kept wrote writable))
