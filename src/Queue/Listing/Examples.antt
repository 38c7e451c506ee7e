-- ===== src/Queue/Listing/Examples.antt =====
-- Runs of the listing of internal/queue/queue.go.
use mxlrcgo_svc.Common.{◌≡◌, refl, false, [], ◌∷◌, map, count_if, str_eq, if◌then◌else◌}
use mxlrcgo_svc.Common.Int.{pos, negsuc}
use mxlrcgo_svc.Common.Assoc.{lookup}
use mxlrcgo_svc.Queue.{pending, done, failed, has_status, Row, Store, format_time, find}
use mxlrcgo_svc.Queue.Claim.{dequeue, claim, is_ready}
use mxlrcgo_svc.Queue.Examples.{ordered_queue, row}
use mxlrcgo_svc.Queue.Listing.{
  list_items, insert, sort, take, count_by_status, status_text, reason, count_failures_by_reason,
}
use mxlrcgo_svc.Queue.Listing.Front.{list-dequeue}
use mxlrcgo_svc.Queue.Listing.Totals.{counted, lookup-counts}

abbrev mixed : Store
mixed = record {
  rows =
      row 1 done
      ∷ row 2 pending
      ∷ record (row 3 failed) { last_error = "no route" }
      ∷ record (row 4 failed) { priority = pos 10 }
      ∷ [];
  next_id = 5;
  links = [];
  scans = [];
}

capped :
    map (λ (r : Row). r.id) (list_items (record { status = "failed"; limit = pos 1 }) mixed)
    ≡ 4 ∷ []
unfolding list_items sort insert take
capped = refl

uncapped :
    map (λ (r : Row). r.id) (list_items (record { status = ""; limit = negsuc 0 }) mixed)
    ≡ 4 ∷ 1 ∷ 2 ∷ 3 ∷ []
unfolding list_items sort insert take
uncapped = refl

list-dequeue_example :
    dequeue ordered_queue (λ i. 0) 60_000_000_000 mixed
    ≡ claim mixed (
        find
          (is_ready (format_time 60_000_000_000))
          (list_items (record { status = ""; limit = pos 0 }) mixed))
list-dequeue_example = list-dequeue ordered_queue (λ i. 0) 60_000_000_000 mixed refl

lookup-counts_test :
    (lookup "failed" (count_by_status mixed)
      ≡ counted (count_if (λ r. str_eq (status_text r.status) "failed") mixed.rows))
    × (lookup "failed" (count_failures_by_reason mixed)
        ≡ counted (
            count_if
              (λ r. if has_status failed r.status then str_eq (reason r) "failed" else false)
              mixed.rows))
lookup-counts_test = lookup-counts mixed "failed"
