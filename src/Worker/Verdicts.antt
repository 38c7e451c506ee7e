-- ===== src/Worker/Verdicts.antt =====
-- What the reports of internal/worker/worker.go behind an error do to the row.
pub mod Process
use mxlrcgo_svc.Common.{
  ℕ, suc, ◌≡◌, ◌≢◌, refl, sym, ap, ◌∙◌, subst, String, Bool, true, false, not, ◌&&◌, ◌||◌, Option,
  none, some, inl, inr, List, [], ◌∷◌, ltb, leb, if◌then◌else◌, arith, Bool-cases,
}
use mxlrcgo_svc.Common.Int.{pos}
use mxlrcgo_svc.Backoff.{geometric, miss_cooldown}
use mxlrcgo_svc.Circuit.{add_time}
use mxlrcgo_svc.Models.{Track, Song}
use mxlrcgo_svc.Cache
use mxlrcgo_svc.Orchestrator.Lane.{Lane}
use mxlrcgo_svc.Errors.{
  Err, errors_is, is_benign_miss, OutcomeClass, success, benign_miss, transport, auth_rate_limit,
  unavailable, classify_outcome,
}
use mxlrcgo_svc.Queue.{
  pending, processing, done, failed, deferred, has_status, Row, Store, DbQueue, format_time, update,
  find, by_id, in_status, set_row, update_returning,
}
use mxlrcgo_svc.Queue.Results
use mxlrcgo_svc.Queue.Results.{
  finished, finish_scans, released_row, failed_row, deferred_row, retired_row,
}
use mxlrcgo_svc.Queue.Lookup.{find-in_status, find-updated}
use mxlrcgo_svc.Worker.{Worker}
use mxlrcgo_svc.Worker.Services.{
  Services, Report, Round, RunResult, processed, queue_empty, resolved_track, record_misses,
  record_attempts, told,
}
use mxlrcgo_svc.Worker.Reports.{
  in_queue, release_item, release_after_throttle, fail, requeue_deferred,
}
use mxlrcgo_svc.Worker.Misses.{
  Detected, not_run, after_requeue, requeue, after_detect, detect_instrumental, miss,
}
use mxlrcgo_svc.Worker.Song.{with_lanes, after_lookup, look_up, song_of}
use mxlrcgo_svc.Worker.Once.{on_class, settle, after_song, bypasses, process}
use mxlrcgo_svc.Worker.Calls.Stamps.{record_attempts-queue, record_misses-queue}
use mxlrcgo_svc.Worker.Calls.Rounds.{song_of-queue}

-- Whether one miss more is the last one.
abbrev pub retires : Worker → Row → Bool
retires w item = ltb 0 w.max_miss_attempts && leb w.max_miss_attempts (suc item.miss_count)

-- The row that was `item` when it was claimed, and the worker and the result, behind an error of
-- the class; `w` is the worker before.
abbrev pub Verdict :
    OutcomeClass → DbQueue → Worker → ℕ → Row → Row → Worker × Services × RunResult → Type 0
Verdict unavailable q w now item row out =
    (row.status ≡ pending)
    × (row.attempts ≡ item.attempts)
    × (row.miss_count ≡ item.miss_count)
    × (row.next_attempt_at ≡ item.next_attempt_at)
    × (out.0.consecutive_failures ≡ w.consecutive_failures)
    × (out.2 ≡ queue_empty)
Verdict auth_rate_limit q w now item row out =
    (row.status ≡ pending)
    × (row.attempts ≡ item.attempts)
    × (row.miss_count ≡ item.miss_count)
    × (row.next_attempt_at ≡ item.next_attempt_at)
    × (out.0.consecutive_failures ≡ 0)
    × (out.2 ≡ queue_empty)
Verdict benign_miss q w now item row out =
    (row.status ≡ (if retires w item then done else deferred))
    × (row.attempts ≡ item.attempts)
    × (row.miss_count ≡ (if retires w item then item.miss_count else suc item.miss_count))
    × (row.next_attempt_at ≡ (
        if retires w item
        then item.next_attempt_at
        else format_time (
            add_time now
              (miss_cooldown (pos (suc item.miss_count)) w.miss_backoff_base w.miss_backoff_cap))))
    × (out.0.consecutive_failures ≡ 0)
    × (out.2 ≡ processed)
Verdict transport q w now item row out =
    (row.status ≡ failed)
    × (row.attempts ≡ suc item.attempts)
    × (row.miss_count ≡ item.miss_count)
    × (row.next_attempt_at
        ≡ format_time
            (add_time now (geometric (pos (suc item.attempts)) q.base_backoff q.max_backoff)))
    × (out.0.consecutive_failures ≡ suc w.consecutive_failures)
    × (out.2 ≡ processed)
Verdict success q w now item row out = ⊥

-- The row is in the table, and a worker holds it.
abbrev pub HeldRow : Row → Store → Type 0
HeldRow item st =
    (find (by_id item.id) st.rows ≡ some item) × (has_status processing item.status ≡ true)

-- A report on the row, as the worker sees it.
told-found :
    (p : Report) (f : Row → Row) (st : Store) (item : Row)
    → p.fault ≡ none
    → HeldRow item st
    → (told p.fault st (update_returning (in_status item.id processing) f st)
        ≡ (none, record st { rows = update (in_status item.id processing) f st.rows }))
      × (told p.fault st (finished item.id (update_returning (in_status item.id processing) f st))
          ≡ (
            none,
            finish_scans item.id
                (record st { rows = update (in_status item.id processing) f st.rows }),
          ))
unfolding update_returning
told-found p f st item sound (e, busy) =
    let found = find-in_status item.id processing st.rows item e busy in
    (rw sound (rw found), rw sound (rw found))

module _ (error_text : Err → String) (q : DbQueue) where
  -- The verdict stands in the table.
  abbrev pub Stands : OutcomeClass → Worker → ℕ → Row → Worker × Services × RunResult → Type 0
  Stands class w now item out =
      (row : Row) × (find (by_id item.id) out.1.queue.rows ≡ some row)
      × Verdict class q w now item row out

  pub released-Stands :
      (p : Report) (w v : Worker) (s : Services) (item : Row)
      → p.fault ≡ none
      → HeldRow item s.queue
      → (v.consecutive_failures ≡ w.consecutive_failures
          → Stands unavailable w p.now item (release_item p v s item))
        × (v.consecutive_failures ≡ 0
            → Stands auth_rate_limit w p.now item (release_item p v s item))
  unfolding release_item Results.release
  released-Stands p w v s item sound h =
      let told = (told-found p released_row s.queue item sound h).0 in
      let stands =
        find-updated item.id processing released_row s.queue.rows item (λ x. refl) h.0 h.1 in
      (
        (λ same. rw told (released_row item, stands, (refl, refl, refl, refl, same, refl))),
        (λ zero. rw told (released_row item, stands, (refl, refl, refl, refl, zero, refl))),
      )

  pub failed-Stands :
      (p : Report) (w : Worker) (s : Services) (item : Row) (cause : Err)
      → p.fault ≡ none
      → HeldRow item s.queue
      → Stands transport w p.now item (fail error_text q p w s item cause)
  unfolding fail Results.fail
  failed-Stands p w s item cause sound h =
      let f = failed_row q p.now (error_text cause) in
      rw ((told-found p f s.queue item sound h).0) (
        f item,
        find-updated item.id processing f s.queue.rows item (λ x. refl) h.0 h.1,
        (refl, refl, refl, refl, refl, refl),
      )

  pub requeued-Stands :
      (p : Report) (w : Worker) (s : Services) (item : Row) (cause : Err)
      → p.fault ≡ none
      → HeldRow item s.queue
      → Stands benign_miss w p.now item
          (after_requeue w (requeue_deferred error_text q p w s item cause))
  unfolding requeue_deferred Results.retire_miss Results.defer_miss
  requeued-Stands p w s item cause sound h = elim (Bool-cases (retires w item)) [
    | inl last ↦
        let f = retired_row p.now in
        rw last (
          rw ((told-found p f s.queue item sound h).1) (
            f item,
            find-updated item.id processing f s.queue.rows item (λ x. refl) h.0 h.1,
            (refl, refl, refl, refl, refl, refl),
          ))
    | inr more ↦
        let f =
          deferred_row p.now
            (miss_cooldown (pos (suc item.miss_count)) w.miss_backoff_base w.miss_backoff_cap)
            (error_text cause) in
        rw more (
          rw ((told-found p f s.queue item sound h).0) (
            f item,
            find-updated item.id processing f s.queue.rows item (λ x. refl) h.0 h.1,
            (refl, refl, refl, refl, refl, refl),
          ))
  ]
