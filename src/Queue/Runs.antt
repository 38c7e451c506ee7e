-- ===== src/Queue/Runs.antt =====
-- Runs of the queue of internal/queue/queue.go on a single row.
use mxlrcgo_svc.Common.{
  ◌+◌, ◌*◌, ◌/◌, ◌^◌, min, ◌≡◌, refl, true, none, some, [], ◌∷◌, ◌++◌, All, arith,
}
use mxlrcgo_svc.Common.Int.{pos}
use mxlrcgo_svc.Queue.{
  processing, failed, deferred, priority_scan, priority_webhook, priority_miss, Row, Store, find,
  by_id,
}
use mxlrcgo_svc.Queue.Enqueue.{enqueue, has_key}
use mxlrcgo_svc.Queue.Claim.{is_ready}
use mxlrcgo_svc.Queue.Results.{complete, release, fail, defer_miss, retire_miss, retired_row}
use mxlrcgo_svc.Queue.Recheck.{recheck_retired, retry, not_retryable}
use mxlrcgo_svc.Queue.Cooldown.{IsWaiting, enqueue_all, enqueue_all-IsWaiting, enqueue-webhook}
use mxlrcgo_svc.Queue.Failures.{fail-wait, reports_lost}
use mxlrcgo_svc.Queue.Revival.{IsOpen, retire-recheck}
use mxlrcgo_svc.Queue.Fifo
use mxlrcgo_svc.Queue.Fifo.{pushes, pops, new_inputs_queue, run-order}
use mxlrcgo_svc.Queue.Examples.{plain_key, ordered_queue, song_by, row, store_of}

enqueue_all-IsWaiting_example :
    (s : Row) × (find
        (by_id 1)
        (enqueue_all plain_key ordered_queue
          (store_of (row 1 deferred))
          ((song_by "a" "x", priority_scan, 9_000_000_000, 9) ∷ [])).rows
      ≡ some s)
    × IsWaiting (row 1 deferred) s
enqueue_all-IsWaiting_example =
    enqueue_all-IsWaiting plain_key ordered_queue 1 (store_of (row 1 deferred))
      ((song_by "a" "x", priority_scan, 9_000_000_000, 9) ∷ []) (row 1 deferred) refl refl
      (refl, tt)

enqueue-webhook_test :
    let (st', s) =
      enqueue plain_key ordered_queue
        (song_by "a" "x")
        priority_webhook
        9_000_000_000
        9
        (store_of (row 1 deferred)) in
    (find (has_key "a" "x") st'.rows ≡ some s)
    × (s.id ≡ 1)
    × (s.status ≡ deferred)
    × (s.priority ≡ priority_webhook)
    × (is_ready 9 s ≡ true)
enqueue-webhook_test =
    enqueue-webhook plain_key ordered_queue (store_of (row 1 deferred)) (song_by "a" "x")
      priority_webhook 9_000_000_000 9 (row 1 deferred) refl refl refl

fail-wait_example :
    (st' : Store) × (s : Row) × (fail ordered_queue 9_000_000_000 1 "timeout"
        (store_of (row 1 processing))
      ≡ some (st', s))
    × (find (by_id 1) st'.rows ≡ some s)
    × (s.attempts ≡ 3)
    × (s.miss_count ≡ 3)
    × (s.status ≡ failed)
    × (s.next_attempt_at
        ≡ (9_000_000_000 + min (60_000_000_000 * 2 ^ 2) 3_600_000_000_000) / 1_000_000_000)
fail-wait_example =
    fail-wait ordered_queue (store_of (row 1 processing)) 9_000_000_000 1 60_000_000_000
      3_600_000_000_000 "timeout" (row 1 processing) refl refl refl refl (omega arith) (omega arith)
      (omega arith)

reports_lost_test :
    let st = store_of (row 1 deferred) in
    (complete 9 1 st ≡ none)
    × (release 1 st ≡ none)
    × (fail ordered_queue 9 1 "late" st ≡ none)
    × (defer_miss 9 1 (pos 60) "late" st ≡ none)
    × (retire_miss 9 1 st ≡ none)
    × (retry 9 1 st ≡ not_retryable)
reports_lost_test =
    reports_lost ordered_queue (store_of (row 1 deferred)) 9 1 (pos 60) "late" (row 1 deferred) refl
      refl refl

retire-recheck_example :
    (st' : Store) × (retire_miss 9_000_000_000 1 (store_of (row 1 processing))
      ≡ some (st', retired_row 9_000_000_000 (row 1 processing)))
    × (find (by_id 1) (recheck_retired 20_000_000_000 none st').0.rows
        ≡ some (record (row 1 processing) {
          status = deferred;
          priority = priority_miss;
          next_attempt_at = 20;
          last_error = "";
          completed_at = none;
        }))
    × All (IsOpen ((1, 4) ∷ []) 1) (recheck_retired 20_000_000_000 none st').0.scans
retire-recheck_example =
    retire-recheck (store_of (row 1 processing)) 9_000_000_000 20_000_000_000 1 (row 1 processing)
      refl refl

run-order_test :
    let ms =
      pushes (song_by "a" "x")
      ∷ pops
      ∷ pops
      ∷ pushes (song_by "b" "y")
      ∷ pushes (song_by "c" "z")
      ∷ pops
      ∷ [] in
    (Fifo.run new_inputs_queue ms).1 ++ (Fifo.run new_inputs_queue ms).0.queue
    ≡ song_by "a" "x" ∷ song_by "b" "y" ∷ song_by "c" "z" ∷ []
unfolding new_inputs_queue
run-order_test = run-order new_inputs_queue (
    pushes (song_by "a" "x")
    ∷ pops
    ∷ pops
    ∷ pushes (song_by "b" "y")
    ∷ pushes (song_by "c" "z")
    ∷ pops
    ∷ [])
