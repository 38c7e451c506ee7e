-- ===== src/Scan/Examples.antt =====
-- Runs of internal/scan/enqueuer.go.
use mxlrcgo_svc.Common.{
  ℕ, ◌+◌, ◌≡◌, refl, String, true, false, Option, none, some, [], ◌∷◌, map, length, All,
}
use mxlrcgo_svc.Common.Int.{pos}
use mxlrcgo_svc.Models.{no_track}
use mxlrcgo_svc.Normalize.{duration_bucket}
use mxlrcgo_svc.Cache
use mxlrcgo_svc.Queue.{pending, processing, done, ScanRow}
use mxlrcgo_svc.Queue.Enqueue.{enqueue, upsert}
use mxlrcgo_svc.Queue.Examples.{plain_key, ordered_queue}
use mxlrcgo_svc.Scan.{
  ScanResult, Enqueuer, Library, Tables, Turn, set_status, scan_inputs, list_pending, restore,
  enqueue_one, enqueue_loop, enqueue_pending,
}
use mxlrcgo_svc.Paths.{base, dir, split, trim_slashes, cut_ext, clean, parts, walk, joined}
use mxlrcgo_svc.Scan.Linked.{IsAccounted}
use mxlrcgo_svc.Scan.Fates.{IsPlaced}
use mxlrcgo_svc.Scan.Pending.{enqueue_pending-IsAccounted}
use mxlrcgo_svc.Scan.Counts.{enqueue_pending-counts}

directory : dir "/music//can/../neu!/hero.flac" ≡ "/music/neu!"
unfolding dir split clean parts walk joined
directory = refl

above : dir "../../x.mp3" ≡ "../.."
unfolding dir split clean parts walk joined
above = refl

last_part : base "/music/a.b.flac//" ≡ "a.b.flac"
unfolding base split trim_slashes
last_part = refl

stem : (cut_ext "a.b.flac").0 ≡ "a.b"
unfolding cut_ext
stem = refl

abbrev scanned : ℕ → String → String → ScanResult
scanned i path title = record {
  id = i;
  file_path = path;
  track = record no_track { artist_name = "neu!"; track_name = title };
  outdir = "";
  filename = "";
}

abbrev scan_row : ℕ → ScanRow
scan_row i = record {
  id = i;
  library_id = 1;
  output = record { outdir = ""; filename = "" };
  status = pending;
}

-- The first result is in the cache.
abbrev tables : Tables
tables = record {
  details = scanned 1 "/m/hero.flac" "hero" ∷ scanned 2 "/m/isi.flac" "isi" ∷ [];
  store = record { rows = []; next_id = 1; links = []; scans = scan_row 1 ∷ scan_row 2 ∷ [] };
  cache = record {
    rows = record { artist = "neu!"; title = "hero"; duration_bucket = 0; lyrics = "la" } ∷ [];
    hits = 0;
    lookups = 0;
  };
}

abbrev enqueuer : Enqueuer
enqueuer = record {
  results = true;
  cache = true;
  queue = true;
  priority = pos 0;
  detect_override = none;
  global_detect_default = true;
}

abbrev library : Library
library = record { id = 1; detect_instrumental = some false }

abbrev turn : Option String → ℕ → Turn
turn fault i = record {
  ctx_err = none;
  now = 5_000_000_000;
  created = 5;
  lookup_fault = none;
  done_fault = none;
  reserve_fault = none;
  enqueue_fault = fault;
  restore_fault = none;
}

statuses :
    map
      (λ (s : ScanRow). s.status)
      (enqueue_pending plain_key ordered_queue enqueuer library
        (turn none)
        none
        none
        tables).tables.store.scans
    ≡ done ∷ processing ∷ []
unfolding enqueue_pending list_pending enqueue_loop enqueue_one set_status scan_inputs enqueue
    upsert Cache.lookup Cache.read base dir split trim_slashes cut_ext clean parts walk joined
    duration_bucket
statuses = refl

refused :
    map
      (λ (s : ScanRow). s.status)
      (enqueue_pending plain_key ordered_queue enqueuer library
        (turn (some "busy"))
        none
        none
        tables).tables.store.scans
    ≡ done ∷ pending ∷ []
unfolding enqueue_pending list_pending enqueue_loop enqueue_one set_status scan_inputs restore
    Cache.lookup Cache.read base dir split trim_slashes cut_ext clean parts walk joined
    duration_bucket
refused = refl

enqueue_pending-IsAccounted_example :
    let after =
      (enqueue_pending plain_key ordered_queue enqueuer library
        (turn (some "busy"))
        none
        none
        tables).tables.store in
    IsAccounted after × All (IsPlaced plain_key tables) after.scans
enqueue_pending-IsAccounted_example =
    enqueue_pending-IsAccounted plain_key ordered_queue enqueuer library (turn (some "busy")) none
      none tables (λ j. refl) (refl, (refl, tt)) (refl, (refl, tt))

enqueue_pending-counts_example :
    let out =
      enqueue_pending plain_key ordered_queue enqueuer library (turn none) none none tables in
    out.enqueued + out.cache_hits ≡ length (list_pending 1 tables)
unfolding enqueue_pending list_pending enqueue_loop enqueue_one set_status scan_inputs enqueue
    upsert Cache.lookup Cache.read base dir split trim_slashes cut_ext clean parts walk joined
    duration_bucket
enqueue_pending-counts_example =
    enqueue_pending-counts plain_key ordered_queue enqueuer library (turn none) none none tables
      refl
