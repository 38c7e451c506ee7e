-- ===== src/Queue/Examples.antt =====
-- Runs of the queue of internal/queue/queue.go, with keys that are the names themselves.
use mxlrcgo_svc.Common.{
  ℕ, ◌≡◌, refl, String, true, false, none, some, List, [], ◌∷◌, map, any, arith, ◌==◌, inl, inr,
  if◌then◌else◌,
}
use mxlrcgo_svc.Common.Int.{pos, leb_ℤ}
use mxlrcgo_svc.Models.{Inputs, no_track}
use mxlrcgo_svc.Queue.{
  Status, pending, processing, done, failed, deferred, has_status, priority_scan, priority_webhook,
  priority_miss, Row, ScanRow, Store, DbQueue, format_time, update, find, by_id, in_status,
  update_returning,
}
use mxlrcgo_svc.Queue.Enqueue.{enqueue, upsert, refresh}
use mxlrcgo_svc.Queue.Claim.{dequeue, first, is_ready}
use mxlrcgo_svc.Queue.Claim.Order.{IsIn, is_first, dequeue-highest}
use mxlrcgo_svc.Queue.Recheck.{recheck_retired, retry, not_retryable}
use mxlrcgo_svc.Queue.Calls.{Call, enqueues, dequeues, completes, rechecks_deferred, step, run}
use mxlrcgo_svc.Queue.Effects.{Next}
use mxlrcgo_svc.Queue.Diagram.{step-Next}
use mxlrcgo_svc.Queue.Sound.{IsSound, run-IsSound}
use mxlrcgo_svc.Queue.Exclusive.{run-exclusive}

abbrev pub plain_key : String → String
plain_key s = s

abbrev pub ordered_queue : DbQueue
ordered_queue = record {
  base_backoff = pos 60_000_000_000;
  max_backoff = pos 3_600_000_000_000;
  randomized = false;
  providers_version = 7;
}

abbrev pub song_by : String → String → Inputs
song_by artist title = record {
  track = record no_track { artist_name = artist; track_name = title };
  outdir = "/music";
  filename = "";
  source_path = "";
  output_paths = [];
  scan_result_id = 0;
  detect_instrumental = none;
}

abbrev no_store : Store
no_store = record { rows = []; next_id = 1; links = []; scans = [] }

abbrev three_demands : List Call
three_demands =
    enqueues (song_by "a" "x") priority_scan 5_000_000_000 5
    ∷ enqueues (song_by "b" "y") priority_webhook 6_000_000_000 6
    ∷ enqueues (song_by "a" "x") priority_scan 7_000_000_000 7
    ∷ []

abbrev no_draw : ℕ → ℕ
no_draw i = 0

empty-IsSound : IsSound no_store
empty-IsSound = record { ids = tt; keys = tt; below = tt }

run-IsSound_example : IsSound (run plain_key ordered_queue no_store three_demands)
run-IsSound_example = run-IsSound plain_key ordered_queue no_store three_demands empty-IsSound

-- Two rows, since the third demand is for the first track again.
abbrev two_rows : Store
unfolding run step enqueue upsert refresh
two_rows = run plain_key ordered_queue no_store three_demands

webhook_first :
    map
      (λ r. r.status)
      (step plain_key ordered_queue two_rows (dequeues no_draw 9_000_000_000)).rows
    ≡ pending ∷ processing ∷ []
unfolding step dequeue first two_rows
webhook_first = refl

abbrev pub row : ℕ → Status → Row
row i s = record {
  id = i;
  artist_key = "a";
  title_key = "x";
  work = record {
    artist = "a";
    title = "x";
    album = "";
    album_artist = "";
    outdir = "/music";
    filename = "";
    source_path = "";
    output_paths = [];
  };
  status = s;
  priority = pos 0;
  attempts = 2;
  miss_count = 3;
  providers_version = 7;
  detect_instrumental = none;
  next_attempt_at = 50;
  last_error = "";
  created_at = 5;
  completed_at = none;
  scan_result_id = some 4;
  provider_lane = none;
  instrumental_result = none;
  telemetry = none;
  outcome_type = none;
}

abbrev pub store_of : Row → Store
store_of r = record {
  rows = r ∷ [];
  next_id = 2;
  links = (1, 4) ∷ [];
  scans =
      record {
        id = 4;
        library_id = 1;
        output = record { outdir = "/music"; filename = "x.lrc" };
        status = processing;
      }
      ∷ [];
}

store_of-IsSound : (s : Status) → IsSound (store_of (row 1 s))
store_of-IsSound s = record { ids = (tt, tt); keys = (tt, tt); below = (omega arith, tt) }

step-Next_example :
    Next
      (completes 9_000_000_000 1)
      (store_of (row 1 processing))
      (step plain_key ordered_queue (store_of (row 1 processing)) (completes 9_000_000_000 1))
step-Next_example =
    step-Next plain_key ordered_queue (store_of (row 1 processing)) (completes 9_000_000_000 1)
      (tt, tt)

-- The second row is claimed from a deferred state.
abbrev one_each : Store
one_each = record {
  rows = row 1 pending ∷ record (row 2 deferred) { title_key = "y"; priority = priority_miss } ∷ [];
  next_id = 3;
  links = [];
  scans = [];
}

one_each-IsSound : IsSound one_each
one_each-IsSound = record {
  ids = ((refl, tt), (tt, tt));
  keys = ((refl, tt), (tt, tt));
  below = (omega arith, (omega arith, tt));
}

dequeue-highest_example :
    let x = record (row 2 deferred) { title_key = "y"; priority = priority_miss } in
    (r : Row) × IsIn r one_each.rows
    × (is_ready (format_time 60_000_000_000) r ≡ true)
    × (dequeue ordered_queue no_draw 60_000_000_000 one_each
        ≡ some (
          record one_each {
            rows =
                map
                  (λ y. if y.id == r.id then record y { status = processing } else y)
                  one_each.rows;
          },
          record r { status = processing },
        ))
    × (leb_ℤ priority_miss r.priority ≡ true)
    × (is_first false no_draw r x ≡ true)
dequeue-highest_example =
    dequeue-highest ordered_queue no_draw 60_000_000_000 one_each
      (record (row 2 deferred) { title_key = "y"; priority = priority_miss }) (inr (inl refl)) refl

-- Between the two claims the first track is enqueued again and the deferred rows are re-checked.
abbrev between : List Call
between =
    enqueues (song_by "a" "x") priority_webhook 60_000_000_000 60
    ∷ rechecks_deferred 60_000_000_000 none
    ∷ []

abbrev after_claim : Store
after_claim = record one_each {
  rows =
      row 1 processing ∷ record (row 2 deferred) { title_key = "y"; priority = priority_miss } ∷ [];
}

abbrev second_claimed : Row
second_claimed = record (row 2 processing) {
  title_key = "y";
  priority = priority_miss;
  next_attempt_at = 60;
}

abbrev after_both : Store
after_both = record one_each {
  rows = record (row 1 processing) { priority = priority_webhook } ∷ second_claimed ∷ [];
}

run-exclusive_example :
    ((second_claimed.id == 1) ≡ false)
    × (any (in_status 1 processing) (run plain_key ordered_queue after_claim between).rows ≡ true)
unfolding dequeue first run step enqueue upsert refresh mxlrcgo_svc.Queue.Recheck.recheck_deferred
run-exclusive_example =
    run-exclusive plain_key ordered_queue one_each after_claim after_both no_draw no_draw
      60_000_000_000 60_000_000_000 (row 1 processing) second_claimed between one_each-IsSound refl
      (refl, (refl, tt)) refl
