-- ===== src/Worker/Calls/Reports.antt =====
-- The reports of a round of internal/worker/worker.go, as calls of the queue.
use mxlrcgo_svc.Common.{ℕ, refl, String, Option, none, some}
use mxlrcgo_svc.Errors.{Err, wrapped}
use mxlrcgo_svc.Queue.{Row, Store, DbQueue}
use mxlrcgo_svc.Queue.Results
use mxlrcgo_svc.Queue.Results.{release, released_row, completed_row, failed_row}
use mxlrcgo_svc.Queue.Calls.{completes, releases, fails, step}
use mxlrcgo_svc.Worker.{Worker}
use mxlrcgo_svc.Worker.Services.{Services, Report, RunResult, processed, queue_empty, told}
use mxlrcgo_svc.Worker.Reports.{
  with_queue, release_item, fail, fail_complete, after_complete, complete_item,
}
use mxlrcgo_svc.Worker.Calls.Frees.{Held-found}
use mxlrcgo_svc.Worker.Calls.{
  free-settles, IsQuiet, itself, Reaches-trans, Told, told-Told, Settles, IsQuiet-result,
}

module _ (normalize_key : String → String) (q : DbQueue) where
  with_queue-Settles :
      (fault : Option String) (i : ℕ) (w : Worker) (s : Services) (good : RunResult) (m : String)
      (o : Option Err × Store)
      → IsQuiet good
      → Told normalize_key q i fault s.queue o
      → Settles normalize_key q fault i s.queue (with_queue w s good m o)
  with_queue-Settles fault i w s good m (none, st) g h = record {
    reach = h.reach;
    settled = free-settles good i st.rows h.free;
    quiet = λ sound held. g;
  }
  with_queue-Settles fault i w s good m (some e, st) g h = record {
    reach = h.reach;
    settled = tt;
    quiet = λ sound held. IsQuiet-result normalize_key q good m (some e) g (h.quiet sound held);
  }

  pub release_item-Settles :
      (p : Report) (w : Worker) (s : Services) (item : Row)
      → Settles normalize_key q p.fault item.id s.queue (release_item p w s item)
  unfolding release_item step release
  release_item-Settles p w s item =
      with_queue-Settles p.fault item.id w s queue_empty "worker: release item" _ tt (
        told-Told normalize_key q item.id (releases item.id) p.fault s.queue _ (itself item.id)
          (itself item.id) refl (λ held. (Held-found item.id released_row s.queue held).0))

  pub failed-Told :
      (p : Report) (st : Store) (i : ℕ) (text : String)
      → Told normalize_key q i p.fault st (told p.fault st (Results.fail q p.now i text st))
  unfolding step Results.fail
  failed-Told p st i text =
      told-Told normalize_key q i (fails p.now i text) p.fault st _ (itself i) (itself i) refl
        (λ held. (Held-found i (failed_row q p.now text) st held).0)

  pub completed-Told :
      (p : Report) (st : Store) (i : ℕ)
      → Told normalize_key q i p.fault st (told p.fault st (Results.complete p.now i st))
  unfolding step Results.complete
  completed-Told p st i =
      told-Told normalize_key q i (completes p.now i) p.fault st _ (itself i) (itself i) refl
        (λ held. (Held-found i (completed_row p.now) st held).1)

  pub fail-Settles :
      (error_text : Err → String) (p : Report) (w : Worker) (s : Services) (item : Row)
      (cause : Err)
      → Settles normalize_key q p.fault item.id s.queue (fail error_text q p w s item cause)
  unfolding fail
  fail-Settles error_text p w s item cause =
      with_queue-Settles p.fault item.id _ s processed "worker: fail item" _ tt
        (failed-Told p s.queue item.id (error_text cause))

  after_complete-Settles :
      (error_text : Err → String) (fault : Option String) (p : Report) (w : Worker) (s : Services)
      (item : Row) (o : Option Err × Store)
      → Told normalize_key q item.id fault s.queue o
      → Settles normalize_key q fault item.id s.queue (after_complete error_text q p w s item o)
  unfolding fail_complete
  after_complete-Settles error_text fault p w s item (none, st) h = record {
    reach = h.reach;
    settled = h.free;
    quiet = λ sound held. tt;
  }
  after_complete-Settles error_text fault p w s item (some e, st) h = record {
    reach =
        Reaches-trans normalize_key q item.id s.queue st _ h.reach
          (failed-Told p st item.id (error_text (wrapped "worker: complete item" e))).reach;
    settled = tt;
    quiet = λ sound held. absurd (cc (h.quiet sound held));
  }

  pub complete_item-Settles :
      (error_text : Err → String) (p second : Report) (w : Worker) (s : Services) (item : Row)
      → Settles normalize_key q p.fault item.id s.queue
          (complete_item error_text q p second w s item)
  unfolding complete_item
  complete_item-Settles error_text p second w s item =
      after_complete-Settles error_text p.fault second w s item _ (completed-Told p s.queue item.id)
