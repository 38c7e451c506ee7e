-- ===== src/Worker/Written.antt =====
-- How lyrics that are found reach the files and the row, in internal/worker/worker.go.
pub mod Accepted
pub mod Rejected
use mxlrcgo_svc.Common.{
  ℕ, ◌≡◌, refl, sym, ap, ◌∙◌, subst, String, Bool, true, false, not, ◌&&◌, ◌||◌, Option, none, some,
  inl, inr, List, [], ◌∷◌, ◌==◌, str_eq, eq_iff, if◌then◌else◌, arith, Bool-cases,
}
use mxlrcgo_svc.Common.Int.{pos}
use mxlrcgo_svc.Models.{Track, Song, OutputPath}
use mxlrcgo_svc.Errors.{Err}
use mxlrcgo_svc.Normalize.{duration_bucket}
use mxlrcgo_svc.Cache
use mxlrcgo_svc.Cache.Reads.{lookup-store}
use mxlrcgo_svc.Queue.{
  processing, done, has_status, Row, Store, DbQueue, update, find, by_id, in_status,
  update_returning,
}
use mxlrcgo_svc.Queue.Results
use mxlrcgo_svc.Queue.Results.{finished, finish_scans, completed_row}
use mxlrcgo_svc.Queue.Stamps.{stamp, set_provider_lane, set_outcome_type}
use mxlrcgo_svc.Queue.Lookup.{find-in_status, find-update, find-updated, find_sound}
use mxlrcgo_svc.Worker.{Worker}
use mxlrcgo_svc.Worker.Services.{
  Services, Report, Round, RunResult, processed, outcome_type_from_song, output_paths,
  resolved_track, record_hit, record_attempts, guard_reject, told, or_stop, write_outputs,
}
use mxlrcgo_svc.Worker.Reports.{in_queue, after_complete, complete_item}
use mxlrcgo_svc.Worker.Misses.{put_song, stamp_outcome}
use mxlrcgo_svc.Orchestrator.Mode.{find_lyrics}
use mxlrcgo_svc.Worker.Song.{replied-services, in_cache, Found, after_lookup, look_up, song_of}
use mxlrcgo_svc.Worker.Once.{
  verify, after_write, write_song, after_policy, reject_song, store_song, after_verify, accept_song,
  settle, bypasses, process,
}
use mxlrcgo_svc.Worker.Calls.Stamps.{record_attempts-queue}
use mxlrcgo_svc.Worker.Calls.Rounds.{song_of-queue}

-- The row with the id is `row`, and a worker holds it.
abbrev pub HeldAt : ℕ → Store → Row → Type 0
HeldAt i st row = (find (by_id i) st.rows ≡ some row) × (has_status processing row.status ≡ true)

stamp-HeldAt :
    (i : ℕ) (f : Row → Row) (st : Store) (row : Row)
    → ((x : Row) → ((f x).id ≡ x.id) × ((f x).status ≡ x.status))
    → HeldAt i st row
    → HeldAt i (stamp i f st) (f row)
stamp-HeldAt i f st row h k = (
  find-update (by_id i) (by_id i) f st.rows row (λ x. ap (λ j. j == i) (h x).0) k.0
      ∙ ap (λ b. some (if b then f row else row)) (find_sound (by_id i) st.rows row k.0),
  ap (has_status processing) (h row).1 ∙ k.1,
)

-- A worker holds the row with the attempts of `item`.
abbrev pub HeldAs : Row → Store → Type 0
HeldAs item st = (row : Row) × HeldAt item.id st row × (row.attempts ≡ item.attempts)

pub record_hit-HeldAs :
    (w : Worker) (r : Round) (item : Row) (lane : String) (s : Services)
    → HeldAs item s.queue
    → HeldAs item (record_hit w r item.id lane s).queue
unfolding record_hit set_provider_lane
record_hit-HeldAs w r item lane s (row, held, same) = elim (Bool-cases (str_eq lane "")) [
  | inl unnamed ↦ rw unnamed (row, held, same)
  | inr named ↦ elim (Bool-cases r.lost.lane) [
    | inl lost ↦ rw named (rw lost (row, held, same))
    | inr stamped ↦ rw named (
        rw stamped (
          record row { provider_lane = some lane },
          stamp-HeldAt item.id (λ x. record x { provider_lane = some lane }) s.queue row
              (λ x. (refl, refl)) held,
          same,
        ))
  ]
]

-- The outcome tables and the stamps leave the files alone.
pub same_files :
    (w : Worker) (r : Round) (item : Row) (song : Song) (s : Services)
    → (record_attempts w r item.id song.lane_attempts
        (record_hit w r item.id song.winning_lane s)).written
      ≡ s.written
unfolding record_attempts record_hit
same_files w r item song s = ground arith

-- The files, the last one first, with those that were there.
abbrev pub added : Song → List OutputPath → List (Song × OutputPath) → List (Song × OutputPath)
added song [] files = files
added song (p ∷ paths) files = added song paths ((song, p) ∷ files)

write_outputs-added :
    (r : Round) (song : Song) (paths : List OutputPath) (s : Services)
    → ((p : OutputPath) → r.write_fault p ≡ none)
    → write_outputs r song paths s ≡ (none, record s { written = added song paths s.written })
unfolding write_outputs
write_outputs-added r song [] s h = refl
write_outputs-added r song (p ∷ paths) s h =
    ap
      (λ f. or_stop f s (write_outputs r song paths (record s { written = (song, p) ∷ s.written })))
      (h p)
    ∙ write_outputs-added r song paths (record s { written = (song, p) ∷ s.written }) h

pub told-complete :
    (p : Report) (i : ℕ) (st : Store) (row : Row)
    → p.fault ≡ none
    → HeldAt i st row
    → told p.fault st (Results.complete p.now i st) ≡ (
      none,
      finish_scans i
          (record st { rows = update (in_status i processing) (completed_row p.now) st.rows }),
    )
unfolding Results.complete update_returning
told-complete p i st row sound (e, busy) =
    rw sound (rw (find-in_status i processing st.rows row e busy))

pub song_of-written :
    (normalize_key : String → String) (decode : String → Option Song) (w : Worker) (r : Round)
    (s : Services) (track : Track) (bypass : Bool)
    → (song_of normalize_key decode w r s track bypass).1.written ≡ s.written
unfolding song_of
song_of-written normalize_key decode w r s track true =
    ap (λ t. t.written) (replied-services w r.cancel s (find_lyrics w.orch r.events))
song_of-written normalize_key decode w r s track false = looked_up r.lookup_fault
  where
    found :
        (o : Cache.CacheRepo × Option String)
        → (after_lookup normalize_key decode w r s track o).1.written ≡ s.written
    found (c, none) =
        ap (λ t. t.written)
          (replied-services w r.cancel (in_cache s c) (find_lyrics w.orch r.events))
    found (c, some text) = refl

    looked_up :
        (fault : Option String)
        → (look_up normalize_key decode fault w r s track).1.written ≡ s.written
    looked_up (some m) = refl
    looked_up none = found (
        Cache.lookup normalize_key track.artist_name track.track_name
          (duration_bucket (pos track.track_length)) s.cache)

module _ (normalize_key : String → String) (encode : Song → String) (decode : String → Option Song)
    (error_text : Err → String) (q : DbQueue) where
  -- The row is done, with the attempts that it had and the outcome, and the files are written.
  abbrev pub IsWritten : Row → Services → Song → Worker × Services × RunResult → Type 0
  IsWritten item s song out =
      (row : Row) × (find (by_id item.id) out.1.queue.rows ≡ some row)
      × (row.status ≡ done)
      × (row.attempts ≡ item.attempts)
      × (row.outcome_type ≡ some (outcome_type_from_song song))
      × (out.1.written ≡ added song (output_paths item) s.written)
      × (out.1.cache ≡ s.cache)
      × (out.0.consecutive_failures ≡ 0)
      × (out.2 ≡ processed)

  pub write_song-IsWritten :
      (w : Worker) (r : Round) (s : Services) (item : Row) (song : Song)
      → HeldAs item s.queue
      → r.first.fault ≡ none
      → r.lost.outcome ≡ false
      → ((p : OutputPath) → r.write_fault p ≡ none)
      → str_eq (outcome_type_from_song song) "" ≡ false
      → IsWritten item s song (write_song normalize_key encode decode error_text q w r s item song)
  unfolding write_song complete_item set_outcome_type
  write_song-IsWritten w r s item song (row, held, same) sound kept wrote writable =
      let outcome = outcome_type_from_song song in
      let f : Row → Row = (λ x. record x { outcome_type = some outcome }) in
      let files : Services = record s { written = added song (output_paths item) s.written } in
      let stamped = stamp item.id f s.queue in
      let held' = stamp-HeldAt item.id f s.queue row (λ x. (refl, refl)) held in
      rw (write_outputs-added r song (output_paths item) s wrote) (
        rw writable (
          rw kept (
            rw (told-complete r.first item.id stamped (f row) sound held') (
              completed_row r.first.now (f row),
              find-updated item.id processing (completed_row r.first.now) stamped.rows (f row)
                  (λ x. refl) held'.0 held'.1,
              refl,
              same,
              refl,
              refl,
              refl,
              refl,
              refl,
            ))))
