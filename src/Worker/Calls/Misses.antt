-- ===== src/Worker/Calls/Misses.antt =====
-- What a round of internal/worker/worker.go that finds no lyrics does to the queue.
use mxlrcgo_svc.Common.{
  ℕ, suc, ◌≡◌, refl, ◌∙◌, subst, String, Bool, true, false, ◌&&◌, Option, none, some, inl, inr,
  List, ltb, leb, if◌then◌else◌, Bool-cases,
}
use mxlrcgo_svc.Common.Int.{pos}
use mxlrcgo_svc.Backoff.{miss_cooldown}
use mxlrcgo_svc.Models.{Track, Song}
use mxlrcgo_svc.Errors.{Err, errors_is, no_rows}
use mxlrcgo_svc.Queue.{Row, Store, DbQueue}
use mxlrcgo_svc.Queue.Calls.{defers, retires, step}
use mxlrcgo_svc.Worker.{Worker}
use mxlrcgo_svc.Worker.Services.{
  Services, Detection, Report, Round, RunResult, record_attempts, record_misses, write_outputs,
  output_paths, resolved_track,
}
use mxlrcgo_svc.Worker.Reports.{unless_moved_on, requeue_deferred}
use mxlrcgo_svc.Worker.Misses.{
  Detected, not_run, broke, ran, stamp_result, stamp_outcome, after_requeue, requeue, try_store,
  after_marker, write_marker, instrumental_song, after_detect, detect_instrumental, miss,
}
use mxlrcgo_svc.Worker.Calls.Stamps.{
  record_attempts-queue, record_misses-queue, write_outputs-queue, stamp_result-Stamped,
  stamp_outcome-Stamped,
}
use mxlrcgo_svc.Worker.Calls.Frees.{NotHeld, Held, Held-found}
use mxlrcgo_svc.Worker.Calls.{itself, Reaches, Stamped-trans, Told, told-Told, Settles, after}
use mxlrcgo_svc.Worker.Calls.Reports.{complete_item-Settles}
use mxlrcgo_svc.Queue.Results.{defer_miss, deferred_row, retire_miss, retired_row}

module _ (normalize_key : String → String) (q : DbQueue) where
  -- The row is put off, unless an error comes back.
  abbrev FreeUnless : ℕ → Option Err → List Row → Type 0
  FreeUnless i none rows = NotHeld i rows
  FreeUnless i (some e) rows = Unit

  record Requeued (fault : Option String) (i : ℕ) (st : Store) (o : Services × Option Err)
      : Type 0 where
    reach : Reaches normalize_key q i st o.0.queue
    free : FreeUnless i o.1 o.0.queue.rows
    quiet : fault ≡ none → Held i st.rows → o.1 ≡ none

  unless-Requeued :
      (fault : Option String) (i : ℕ) (s : Services) (m : String) (o : Option Err × Store)
      → Told normalize_key q i fault s.queue o
      → Requeued fault i s.queue (unless_moved_on s m o)
  unless-Requeued fault i s m (none, st) h = record {
    reach = h.reach;
    free = h.free;
    quiet = h.quiet;
  }
  unless-Requeued fault i s m (some e, st) h = elim (Bool-cases (errors_is e no_rows)) [
    | inl moved ↦
        rw moved (record { reach = h.reach; free = h.free moved; quiet = λ sound held. refl })
    | inr faulty ↦ rw faulty (record {
      reach = h.reach;
      free = tt;
      quiet = λ sound held. absurd (cc (h.quiet sound held));
    })
  ]

  requeue_deferred-Requeued :
      (error_text : Err → String) (p : Report) (w : Worker) (s : Services) (item : Row)
      (cause : Err)
      → Requeued p.fault item.id s.queue (requeue_deferred error_text q p w s item cause)
  unfolding requeue_deferred step retire_miss defer_miss
  requeue_deferred-Requeued error_text p w s item cause =
      elim (Bool-cases
        (ltb 0 w.max_miss_attempts && leb w.max_miss_attempts (suc item.miss_count))) [
          | inl spent ↦ rw spent (
              unless-Requeued p.fault item.id s "worker: retire miss item" _ (
                told-Told normalize_key q item.id (retires p.now item.id) p.fault s.queue _
                  (itself item.id) (itself item.id) refl
                  (λ held. (Held-found item.id (retired_row p.now) s.queue held).1)))
          | inr left ↦
              let cooldown =
                miss_cooldown (pos (suc item.miss_count)) w.miss_backoff_base w.miss_backoff_cap in
              rw left (
                unless-Requeued p.fault item.id s "worker: requeue item" _ (
                  told-Told normalize_key q item.id
                    (defers p.now item.id cooldown (error_text cause)) p.fault s.queue _
                    (itself item.id) (itself item.id) refl
                    (λ held.
                      (Held-found item.id (deferred_row p.now cooldown (error_text cause)) s.queue
                        held).0)))
        ]

  after_requeue-Settles :
      (fault : Option String) (i : ℕ) (w : Worker) (st : Store) (o : Services × Option Err)
      → Requeued fault i st o
      → Settles normalize_key q fault i st (after_requeue w o)
  after_requeue-Settles fault i w st (s, none) h = record {
    reach = h.reach;
    settled = h.free;
    quiet = λ sound held. tt;
  }
  after_requeue-Settles fault i w st (s, some e) h = record {
    reach = h.reach;
    settled = tt;
    quiet = λ sound held. absurd (cc (h.quiet sound held));
  }

  module _ (encode : Song → String) (error_text : Err → String) where
    abbrev pub Keeps : Option String → Row → Store → Worker × Services × RunResult → Type 0
    Keeps fault item st out = Settles normalize_key q fault item.id st out

    pub Keeps-if :
        (fault : Option String) (item : Row) (st : Store) (b : Bool)
        (x y : Worker × Services × RunResult)
        → Keeps fault item st x
        → Keeps fault item st y
        → Keeps fault item st (if b then x else y)
    Keeps-if fault item st true x y h k = h
    Keeps-if fault item st false x y h k = k

    requeue-Settles :
        (w : Worker) (r : Round) (s : Services) (item : Row) (cause : Err)
        → Keeps r.first.fault item s.queue
            (requeue normalize_key encode error_text q w r s item cause)
    requeue-Settles w r s item cause =
        after_requeue-Settles r.first.fault item.id w s.queue _
          (requeue_deferred-Requeued error_text r.first w s item cause)

    after_marker-Settles :
        (w : Worker) (r : Round) (item : Row) (cause : Err) (d : Detection)
        (o : Option String × Services)
        → Keeps r.first.fault item o.1.queue
            (after_marker normalize_key encode error_text q w r item cause d o)
    after_marker-Settles w r item cause d (some m, s) = requeue-Settles w r s item cause
    after_marker-Settles w r item cause d (none, s) =
        let stamped = stamp_result r item.id 1 d.telemetry s in
        after normalize_key q r.first.fault item.id s.queue
          (stamp_outcome r item.id "instrumental" stamped).queue _
          (Stamped-trans normalize_key q item.id s.queue stamped.queue _
            (stamp_result-Stamped normalize_key q r item.id 1 d.telemetry s)
            (stamp_outcome-Stamped normalize_key q r item.id "instrumental" stamped))
          (complete_item-Settles normalize_key q error_text r.first r.second w
            (stamp_outcome r item.id "instrumental" stamped) item)

    try_store-queue :
        (e f : Option String) (track : Track) (song : Song) (s : Services)
        → (try_store normalize_key encode e f track song s).queue ≡ s.queue
    try_store-queue (some m) f track song s = refl
    try_store-queue none (some m) track song s = refl
    try_store-queue none none track song s = refl

    write_marker-Settles :
        (w : Worker) (r : Round) (s : Services) (item : Row) (cause : Err) (d : Detection)
        → Keeps r.first.fault item s.queue
            (write_marker normalize_key encode error_text q w r s item cause d)
    unfolding write_marker
    write_marker-Settles w r s item cause d =
        let song = instrumental_song item in
        let stored =
          try_store normalize_key encode r.encode_fault r.store_fault (resolved_track item) song
            s in
        let o = write_outputs r song (output_paths item) stored in
        subst
          (λ st.
            Keeps r.first.fault item st
              (after_marker normalize_key encode error_text q w r item cause d o))
          (write_outputs-queue r song (output_paths item) stored
            ∙ try_store-queue r.encode_fault r.store_fault (resolved_track item) song s)
          (after_marker-Settles w r item cause d o)

    after_detect-Settles :
        (w : Worker) (r : Round) (s : Services) (item : Row) (cause : Err) (d : Detected)
        → Keeps r.first.fault item s.queue
            (after_detect normalize_key encode error_text q w r s item cause d)
    after_detect-Settles w r s item cause not_run = requeue-Settles w r s item cause
    after_detect-Settles w r s item cause (broke e) = requeue-Settles w r s item cause
    after_detect-Settles w r s item cause (ran d) =
        Keeps-if r.first.fault item s.queue d.instrumental _ _
          (write_marker-Settles w r s item cause d)
          (after normalize_key q r.first.fault item.id s.queue
            (stamp_result r item.id 0 d.telemetry s).queue _
            (stamp_result-Stamped normalize_key q r item.id 0 d.telemetry s)
            (requeue-Settles w r (stamp_result r item.id 0 d.telemetry s) item cause))

    pub miss-Settles :
        (w : Worker) (r : Round) (s : Services) (item : Row) (song : Song) (cause : Err)
        → Keeps r.first.fault item s.queue
            (miss normalize_key encode error_text q w r s item song cause)
    unfolding miss
    miss-Settles w r s item song cause =
        let missed = record_misses w r s in
        let noted = record_attempts w r item.id song.lane_attempts missed in
        let d = detect_instrumental w r item in
        subst
          (λ st.
            Keeps r.first.fault item st
              (after_detect normalize_key encode error_text q w r noted item cause d))
          (record_attempts-queue w r item.id song missed ∙ record_misses-queue w r s)
          (after_detect-Settles w r noted item cause d)
