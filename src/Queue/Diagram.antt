-- ===== src/Queue/Diagram.antt =====
-- The status diagram of a row of internal/queue/queue.go, over every call.
use mxlrcgo_svc.Common.{refl, String}
use mxlrcgo_svc.Queue.{pending, done, failed, deferred, Store, DbQueue}
use mxlrcgo_svc.Queue.Results.{complete, release, fail, defer_miss, retire_miss}
use mxlrcgo_svc.Queue.Calls.{
  Call, enqueues, cleans, dequeues, completes, releases, fails, defers, retires, rechecks_deferred,
  rechecks_retired, retries, clears, cancels, sets_provider_lane, sets_instrumental, sets_outcome,
  resets_instrumental, step,
}
use mxlrcgo_svc.Queue.Results.{completed_row, released_row, failed_row, deferred_row, retired_row}
use mxlrcgo_svc.Queue.Effects.{finishes, releases_it, fails_it, defers_it, UniqueIds, Next}
use mxlrcgo_svc.Queue.Cancel.Rows.{cancel-Next}
use mxlrcgo_svc.Queue.Steps.{reported, itself, report-Next, dequeue-Next, retry-Next}
use mxlrcgo_svc.Queue.TableSteps.{
  recheck_retired-Next, enqueue-Next, cleanup-Next, recheck_deferred-Next, clear_done-Next,
}
use mxlrcgo_svc.Queue.StampSteps.{
  set_provider_lane-Next, set_instrumental_result-Next, set_outcome_type-Next,
  reset_instrumental-Next,
}

module _ (normalize_key : String → String) (q : DbQueue) where
  -- One call takes the table of rows to the next by moves of the diagram. A row keeps its id and its
  -- keys; it goes only when it is not processing; and at most one row is new, pending, with the next
  -- id. A row is claimed from pending, failed or deferred, and leaves processing only by a report on
  -- that row; a done row becomes deferred again, and a failed row pending.
  pub step-Next :
      (st : Store) (c : Call) → UniqueIds st.rows → Next c st (step normalize_key q st c)
  unfolding step complete release fail defer_miss retire_miss
  step-Next st (enqueues inputs priority now created) u =
      enqueue-Next normalize_key q inputs priority now created st
  step-Next st (cleans inputs) u = cleanup-Next normalize_key inputs st
  step-Next st (dequeues draw now) u = dequeue-Next q draw now st u
  step-Next st (completes now i) u =
      (report-Next (completes now i) i (completed_row now) st (λ r h.
        reported _ i done (completed_row now) r h (itself i) refl refl refl refl finishes)).1
  step-Next st (releases i) u =
      (report-Next (releases i) i released_row st
        (λ r h. reported _ i pending released_row r h (itself i) refl refl refl refl releases_it)).0
  step-Next st (fails now i cause) u =
      (report-Next (fails now i cause) i (failed_row q now cause) st (λ r h.
        reported _ i failed (failed_row q now cause) r h (itself i) refl refl refl refl fails_it)).0
  step-Next st (defers now i after cause) u =
      (report-Next (defers now i after cause) i (deferred_row now after cause) st (λ r h.
        reported _ i deferred (deferred_row now after cause) r h (itself i) refl refl refl refl
          defers_it)).0
  step-Next st (retires now i) u =
      (report-Next (retires now i) i (retired_row now) st
        (λ r h. reported _ i done (retired_row now) r h (itself i) refl refl refl refl finishes)).1
  step-Next st (rechecks_deferred now library) u = recheck_deferred-Next now library st
  step-Next st (rechecks_retired now library) u = recheck_retired-Next now library st
  step-Next st (retries now i) u = retry-Next now i st
  step-Next st clears u = clear_done-Next st
  step-Next st (cancels library) u = cancel-Next library st
  step-Next st (sets_provider_lane i lane) u = set_provider_lane-Next i lane st
  step-Next st (sets_instrumental i result tel) u = set_instrumental_result-Next i result tel st
  step-Next st (sets_outcome i outcome_type) u = set_outcome_type-Next i outcome_type st
  step-Next st (resets_instrumental now i) u = reset_instrumental-Next now i st
