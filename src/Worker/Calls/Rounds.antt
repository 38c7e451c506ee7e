-- ===== src/Worker/Calls/Rounds.antt =====
-- A round of internal/worker/worker.go is a claim, and then stamps and reports on the row claimed.
use mxlrcgo_svc.Common.{
  ◌≡◌, refl, sym, ap, subst, String, Bool, true, false, Option, none, some, inl, inr, str_eq,
  Bool-cases,
}
use mxlrcgo_svc.Common.Int.{pos}
use mxlrcgo_svc.Models.{Track, Song}
use mxlrcgo_svc.Errors.{
  Err, is_benign_miss, OutcomeClass, auth_rate_limit, unavailable, classify_outcome,
}
use mxlrcgo_svc.Normalize.{duration_bucket}
use mxlrcgo_svc.Cache
use mxlrcgo_svc.Queue.{Row, Store, DbQueue}
use mxlrcgo_svc.Worker.{Worker}
use mxlrcgo_svc.Worker.Services.{
  Services, Round, record_hit, record_attempts, write_outputs, output_paths, resolved_track,
  guard_reject, outcome_type_from_song,
}
use mxlrcgo_svc.Worker.Reports.{in_queue, release_after_throttle}
use mxlrcgo_svc.Worker.Misses.{stamp_outcome}
use mxlrcgo_svc.Orchestrator.Mode.{find_lyrics}
use mxlrcgo_svc.Worker.Song.{replied-services, in_cache, song_of, look_up, after_lookup}
use mxlrcgo_svc.Worker.Once.{
  verify, on_class, after_write, write_song, after_policy, reject_song, store_song, after_verify,
  accept_song, settle, after_song, bypasses, process,
}
use mxlrcgo_svc.Worker.Calls.{Stamped, Told, Settles, after, after_error}
use mxlrcgo_svc.Worker.Calls.Reports.{
  completed-Told, release_item-Settles, fail-Settles, complete_item-Settles,
}
use mxlrcgo_svc.Worker.Calls.Misses.{Keeps-if, miss-Settles}
use mxlrcgo_svc.Worker.Calls.Stamps.{
  record_attempts-queue, write_outputs-queue, record_hit-Stamped, stamp_outcome-Stamped,
}

dispatched-queue :
    (normalize_key : String → String) (decode : String → Option Song) (fault : Option String)
    (w : Worker) (r : Round) (s : Services) (track : Track)
    → (look_up normalize_key decode fault w r s track).1.queue ≡ s.queue
dispatched-queue normalize_key decode (some m) w r s track = refl
dispatched-queue normalize_key decode none w r s track = found (
    Cache.lookup normalize_key track.artist_name track.track_name
      (duration_bucket (pos track.track_length)) s.cache)
  where
    found :
        (o : Cache.CacheRepo × Option String)
        → (after_lookup normalize_key decode w r s track o).1.queue ≡ s.queue
    found (c, none) =
        ap (λ t. t.queue) (replied-services w r.cancel (in_cache s c) (find_lyrics w.orch r.events))
    found (c, some text) = refl

pub song_of-queue :
    (normalize_key : String → String) (decode : String → Option Song) (w : Worker) (r : Round)
    (s : Services) (track : Track) (bypass : Bool)
    → (song_of normalize_key decode w r s track bypass).1.queue ≡ s.queue
unfolding song_of
song_of-queue normalize_key decode w r s track true =
    ap (λ t. t.queue) (replied-services w r.cancel s (find_lyrics w.orch r.events))
song_of-queue normalize_key decode w r s track false =
    dispatched-queue normalize_key decode r.lookup_fault w r s track

module _ (normalize_key : String → String) (encode : Song → String) (decode : String → Option Song)
    (error_text : Err → String) (q : DbQueue) where
  on_class-Settles :
      (class : OutcomeClass) (w : Worker) (r : Round) (s : Services) (item : Row) (song : Song)
      (e : Err)
      → Settles normalize_key q r.first.fault item.id s.queue
          (on_class normalize_key encode decode error_text q class w r s item song e)
  unfolding release_after_throttle
  on_class-Settles unavailable w r s item song e =
      release_item-Settles normalize_key q r.first w s item
  on_class-Settles auth_rate_limit w r s item song e =
      release_item-Settles normalize_key q r.first _ s item
  on_class-Settles _ w r s item song e =
      Keeps-if normalize_key q encode error_text r.first.fault item s.queue (is_benign_miss e) _ _
        (miss-Settles normalize_key q encode error_text w r s item song e)
        (fail-Settles normalize_key q error_text r.first w s item e)

  after_write-Settles :
      (w : Worker) (r : Round) (item : Row) (song : Song) (o : Option String × Services)
      → Settles normalize_key q r.first.fault item.id o.1.queue
          (after_write normalize_key encode decode error_text q w r item song o)
  after_write-Settles w r item song (some m, s) =
      fail-Settles normalize_key q error_text r.first w s item _
  after_write-Settles w r item song (none, s) =
      elim (Bool-cases (str_eq (outcome_type_from_song song) "")) [
        | inl nothing ↦
            rw nothing (complete_item-Settles normalize_key q error_text r.first r.second w s item)
        | inr outcome ↦ rw outcome (
            after normalize_key q r.first.fault item.id s.queue
              (stamp_outcome r item.id (outcome_type_from_song song) s).queue _
              (stamp_outcome-Stamped normalize_key q r item.id (outcome_type_from_song song) s)
              (complete_item-Settles normalize_key q error_text r.first r.second w
                (stamp_outcome r item.id (outcome_type_from_song song) s) item))
      ]

  write_song-Settles :
      (w : Worker) (r : Round) (s : Services) (item : Row) (song : Song)
      → Settles normalize_key q r.first.fault item.id s.queue
          (write_song normalize_key encode decode error_text q w r s item song)
  unfolding write_song
  write_song-Settles w r s item song =
      let o = write_outputs r song (output_paths item) s in
      subst
        (λ st.
          Settles normalize_key q r.first.fault item.id st
            (after_write normalize_key encode decode error_text q w r item song o))
        (write_outputs-queue r song (output_paths item) s) (after_write-Settles w r item song o)

  after_policy-Settles :
      (w : Worker) (r : Round) (s : Services) (item : Row) (o : Option Err × Store)
      → Told normalize_key q item.id r.first.fault s.queue o
      → Settles normalize_key q r.first.fault item.id s.queue
          (after_policy normalize_key encode decode error_text q w r s item o)
  after_policy-Settles w r s item (none, st) h = record {
    reach = h.reach;
    settled = h.free;
    quiet = λ sound held. tt;
  }
  after_policy-Settles w r s item (some e, st) h =
      after_error normalize_key q r.first.fault r.second.fault item.id s.queue st e _ h
        (fail-Settles normalize_key q error_text r.second w (in_queue s st) item _)

  reject_song-Settles :
      (w : Worker) (r : Round) (s : Services) (item : Row)
      → Settles normalize_key q r.first.fault item.id s.queue
          (reject_song normalize_key encode decode error_text q w r s item)
  unfolding reject_song
  reject_song-Settles w r s item =
      after_policy-Settles w r s item _ (completed-Told normalize_key q r.first s.queue item.id)

  store_song-Settles :
      (e f : Option String) (w : Worker) (r : Round) (s : Services) (item : Row) (song : Song)
      → Settles normalize_key q r.first.fault item.id s.queue
          (store_song normalize_key encode decode error_text q e f w r s item song)
  store_song-Settles (some m) f w r s item song =
      fail-Settles normalize_key q error_text r.first w s item _
  store_song-Settles none (some m) w r s item song =
      fail-Settles normalize_key q error_text r.first w s item _
  store_song-Settles none none w r s item song = write_song-Settles w r _ item song

  after_verify-Settles :
      (e : Option Err) (w : Worker) (r : Round) (s : Services) (item : Row) (song : Song)
      → Settles normalize_key q r.first.fault item.id s.queue
          (after_verify normalize_key encode decode error_text q e w r s item song)
  after_verify-Settles (some e) w r s item song =
      fail-Settles normalize_key q error_text r.first w s item e
  after_verify-Settles none w r s item song =
      Keeps-if normalize_key q encode error_text r.first.fault item s.queue (guard_reject w song) _
        _ (reject_song-Settles w r s item)
        (store_song-Settles r.encode_fault r.store_fault w r s item song)

  accept_song-Settles :
      (w : Worker) (r : Round) (s : Services) (item : Row) (song : Song)
      → Settles normalize_key q r.first.fault item.id s.queue
          (accept_song normalize_key encode decode error_text q w r s item song)
  unfolding accept_song
  accept_song-Settles w r s item song =
      let fetched : Song = record song { fetched_at = r.fetched_at } in
      let hit = record_hit w r item.id song.winning_lane s in
      let noted = record_attempts w r item.id song.lane_attempts hit in
      after normalize_key q r.first.fault item.id s.queue noted.queue _
        (subst (Stamped normalize_key q item.id s.queue)
          (sym (record_attempts-queue w r item.id song hit))
          (record_hit-Stamped normalize_key q w r item.id song.winning_lane s))
        (after_verify-Settles (verify w r item) w r noted item fetched)

  settle-Settles :
      (err : Option Err) (hit : Bool) (w : Worker) (r : Round) (s : Services) (item : Row)
      (song : Song)
      → Settles normalize_key q r.first.fault item.id s.queue
          (settle normalize_key encode decode error_text q err hit w r s item song)
  settle-Settles (some e) hit w r s item song =
      on_class-Settles (classify_outcome (some e)) w r s item song e
  settle-Settles none true w r s item song = write_song-Settles w r s item song
  settle-Settles none false w r s item song = accept_song-Settles w r s item song

  pub process-Settles :
      (w : Worker) (r : Round) (s : Services) (item : Row)
      → Settles normalize_key q r.first.fault item.id s.queue
          (process normalize_key encode decode error_text q w r s item)
  unfolding process
  process-Settles w r s item =
      let found = song_of normalize_key decode w r s (resolved_track item) (bypasses w item) in
      subst
        (λ st.
          Settles normalize_key q r.first.fault item.id st
            (after_song normalize_key encode decode error_text q r item found))
        (song_of-queue normalize_key decode w r s (resolved_track item) (bypasses w item))
        (settle-Settles found.2.err found.2.cache_hit found.0 r found.1 item found.2.song)
