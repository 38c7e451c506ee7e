-- ===== src/Worker/Examples/Outcomes.antt =====
-- Rounds of internal/worker/worker.go on one row, by what the provider answers.
use mxlrcgo_svc.Common.{◌≡◌, refl, true, false, none, some, [], ◌∷◌}
use mxlrcgo_svc.Models.{Song}
use mxlrcgo_svc.Errors.{sentinel, not_found, classify_outcome, errors_is, is_benign_miss}
use mxlrcgo_svc.Queue.{Row, processing, find, by_id}
use mxlrcgo_svc.Queue.Examples.{plain_key, ordered_queue, row, store_of}
use mxlrcgo_svc.Circuit.{allow}
use mxlrcgo_svc.Orchestrator.Lane
use mxlrcgo_svc.Orchestrator.Suitability.{is_suitable, quality_of}
use mxlrcgo_svc.Orchestrator.Dispatch.{lane_attempts_for, resolve, rank_err, no_result}
use mxlrcgo_svc.Orchestrator.Ordered.{find_ordered, ordered_loop}
use mxlrcgo_svc.Orchestrator.Mode.{find_lyrics}
use mxlrcgo_svc.Worker.{Worker}
use mxlrcgo_svc.Worker.Services.{Services, guard_reject, outcome_type_from_song}
use mxlrcgo_svc.Worker.Misses.{detect_instrumental}
use mxlrcgo_svc.Worker.Song.{song_of}
use mxlrcgo_svc.Worker.Once.{process, verify}
use mxlrcgo_svc.Worker.Verdicts.{Verdict}
use mxlrcgo_svc.Worker.Verdicts.Process.{process-Verdict}
use mxlrcgo_svc.Worker.Written.Accepted.{IsAccepted, process-IsAccepted}
use mxlrcgo_svc.Worker.Written.Rejected.{IsRejected, process-IsRejected}
use mxlrcgo_svc.Worker.Examples.{worker, text_of, encoded, undecoded, lyrics, round, services}

-- The provider's lyrics, as the orchestrator attributes them.
abbrev attributed : Song
attributed = record lyrics {
  winning_lane = "musixmatch";
  lane_attempts = lane_attempts_for ("musixmatch" ∷ []) "musixmatch";
}

abbrev held : Row
held = row 1 processing

abbrev with_held : Services
with_held = record services { queue = store_of held }

-- A row whose providers version is not the worker's, so that the cache is passed by.
abbrev versioned : Worker
unfolding worker
versioned = record worker { providers_version = 8 }

process-Verdict_example :
    let out =
      process plain_key encoded undecoded text_of ordered_queue versioned
        (round (some (sentinel not_found)))
        with_held
        held in
    (r : Row) × (find (by_id 1) out.1.queue.rows ≡ some r)
    × Verdict
        (classify_outcome (some (sentinel not_found)))
        ordered_queue
        versioned
        9_000_000_000
        held
        r
        out
unfolding versioned song_of find_lyrics find_ordered ordered_loop Lane.find_lyrics allow
    classify_outcome errors_is Lane.classify is_benign_miss resolve rank_err no_result
process-Verdict_example =
    process-Verdict text_of ordered_queue plain_key encoded undecoded versioned
      (round (some (sentinel not_found))) with_held held (sentinel not_found) refl refl refl
      (unfold detect_instrumental in refl) refl

process-IsAccepted_example :
    IsAccepted plain_key encoded undecoded text_of ordered_queue held with_held
      (record attributed { fetched_at = 7 })
      (process plain_key encoded undecoded text_of ordered_queue versioned
        (round none)
        with_held
        held)
unfolding versioned song_of find_lyrics find_ordered ordered_loop Lane.find_lyrics
    Lane.notify_success is_suitable quality_of allow verify guard_reject outcome_type_from_song
process-IsAccepted_example =
    process-IsAccepted plain_key encoded undecoded text_of ordered_queue versioned (round none)
      with_held held attributed refl refl refl refl refl refl refl refl refl (λ p. refl) refl

abbrev screened : Worker
unfolding versioned
screened = record versioned { script_guard = some (record { accept = λ s. false; enabled = true }) }

process-IsRejected_example :
    IsRejected plain_key encoded undecoded text_of ordered_queue held with_held (
      process plain_key encoded undecoded text_of ordered_queue screened
        (round none)
        with_held
        held)
unfolding screened song_of find_lyrics find_ordered ordered_loop Lane.find_lyrics
    Lane.notify_success is_suitable quality_of allow verify guard_reject
process-IsRejected_example =
    process-IsRejected plain_key encoded undecoded text_of ordered_queue screened (round none)
      with_held held attributed refl refl refl refl refl refl
