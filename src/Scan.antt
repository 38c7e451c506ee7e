-- ===== src/Scan.antt =====
-- internal/scan/enqueuer.go: the pending results of a library's scan become work, unless the cache
-- has their lyrics. The table of results, `SetStatus` and `ListPendingByLibrary`, is
-- internal/scan/repository.go.
pub mod Linked
pub mod Fates
pub mod Pending
pub mod Counts
mod Examples
use mxlrcgo_svc.Common.{
  ℕ, suc, String, Bool, true, false, not, ◌&&◌, Option, none, some, List, [], ◌∷◌, ◌==◌, any, keep,
  str_eq, if◌then◌else◌,
}
use Prim.Native.String.{◌++◌ as ◌<>◌}
use mxlrcgo_svc.Common.Int.{ℤ, pos}
use mxlrcgo_svc.Models.{Track, Inputs}
use mxlrcgo_svc.Errors.{Err, other, wrapped, joined, sentinel, no_rows}
use mxlrcgo_svc.Normalize.{duration_bucket}
use mxlrcgo_svc.Cache.{CacheRepo}
use mxlrcgo_svc.Cache
use mxlrcgo_svc.Queue.{
  Status, pending, processing, done, has_status, ScanRow, Store, Row, DbQueue, update,
}
use mxlrcgo_svc.Queue.Enqueue.{enqueue}
use mxlrcgo_svc.Paths.{base, cut_ext, dir}

-- What `ListPendingByLibrary` reads of a row of `scan_results`, besides its library and its status.
pub record ScanResult : Type 0 where
  pub id : ℕ
  pub file_path : String
  pub track : Track
  pub outdir : String
  pub filename : String

-- The dependencies are set or nil.
pub record Enqueuer : Type 0 where
  pub results : Bool
  pub cache : Bool
  pub queue : Bool
  pub priority : ℤ
  pub detect_override : Option Bool
  pub global_detect_default : Bool

pub record Library : Type 0 where
  pub id : ℕ
  pub detect_instrumental : Option Bool

-- The tables that the enqueuer works on; `details` is `scan_results` in the order of the ids.
pub record Tables : Type 0 where
  pub details : List ScanResult
  pub store : Store
  pub cache : CacheRepo

-- What one round of the loop has from the outside: the context's error, the clocks, and the
-- database's errors.
pub record Turn : Type 0 where
  pub ctx_err : Option Err
  pub now : ℕ
  pub created : ℕ
  pub lookup_fault : Option String
  pub done_fault : Option String
  pub reserve_fault : Option String
  pub enqueue_fault : Option String
  pub restore_fault : Option String

-- `config.ResolveBool`.
abbrev pub resolve_bool : Option Bool → Option Bool → Bool → Bool
resolve_bool (some b) lib global_default = b
resolve_bool none (some b) global_default = b
resolve_bool none none global_default = global_default

-- `SetStatus` of one id, which touches no row if the id is unknown.
unfoldable pub set_status : Option String → ℕ → Status → Store → Store × Option Err
set_status (some m) i status st = (st, some (other m))
set_status none i status st = (
  record st { scans = update (λ s. s.id == i) (λ s. record s { status = status }) st.scans },
  if any (λ s. s.id == i) st.scans then none else some (sentinel no_rows),
)

unfoldable pub list_pending : ℕ → Tables → List ScanResult
list_pending library s =
    keep
      (λ d.
        any (λ r. (r.id == d.id) && (r.library_id == library) && has_status pending r.status)
          s.store.scans)
      s.details

abbrev pub given_or : String → Bool → String → String
given_or s derived alt = if str_eq s "" && derived then alt else s

-- `none` is the error for a result that names no file.
unfoldable pub scan_inputs : ScanResult → Option Inputs
scan_inputs res =
    let named = not (str_eq res.file_path "") in
    let outdir = given_or res.outdir named (dir res.file_path) in
    let filename = given_or res.filename named ((cut_ext (base res.file_path)).0 <> ".lrc") in
    if str_eq outdir "" && str_eq filename "" && str_eq res.file_path ""
    then none
    else some (record {
      track = res.track;
      outdir = outdir;
      filename = filename;
      source_path = res.file_path;
      output_paths = record { outdir = outdir; filename = filename } ∷ [];
      scan_result_id = res.id;
      detect_instrumental = none;
    })

-- How a round of the loop ends.
pub data Step : Type 0 where
  hit queued : Step
  stopped : Err → Step

abbrev pub unless : Step → String → Option Err → Step
unless step m none = step
unless step m (some e) = stopped (wrapped m e)

abbrev pub with_store : Tables → Store → Tables
with_store s st = record s { store = st }

-- A result goes back to pending behind an error.
unfoldable pub restore : Turn → ℕ → Tables → Err → Tables × Step
restore t i s cause =
    let (st, e) = set_status t.restore_fault i pending s.store in (with_store s st, failed e)
  where
    failed : Option Err → Step
    failed none = stopped cause
    failed (some e) = stopped (joined cause e)

-- What `EnqueuePending` returns, with the tables.
pub record Summary : Type 0 where
  pub enqueued : ℕ
  pub cache_hits : ℕ
  pub err : Option Err
  pub tables : Tables

-- The rest of the loop behind a round.
abbrev pub go_on : Tables × Step → (Tables → Summary) → Summary
go_on (s, hit) rest = let out = rest s in record out { cache_hits = suc out.cache_hits }
go_on (s, queued) rest = let out = rest s in record out { enqueued = suc out.enqueued }
go_on (s, stopped e) rest = record { enqueued = 0; cache_hits = 0; err = some e; tables = s }

module _ (normalize_key : String → String) (q : DbQueue) where
  abbrev pub hand_over :
      ℤ → Bool → Turn → ScanResult → Tables → Option String → Inputs → Tables × Step
  hand_over priority detect t res s (some m) inputs =
      restore t res.id s (wrapped "scan: enqueue result" (other m))
  hand_over priority detect t res s none inputs = (
    with_store s
        (enqueue normalize_key q (record inputs { detect_instrumental = some detect }) priority
          t.now t.created s.store).0,
    queued,
  )

  -- A result that is reserved.
  abbrev pub submit : ℤ → Bool → Turn → ScanResult → Tables → Option Inputs → Tables × Step
  submit priority detect t res s none =
      restore t res.id s (wrapped "scan: build inputs for result" (other "invalid scan result"))
  submit priority detect t res s (some inputs) =
      hand_over priority detect t res s t.enqueue_fault inputs

  abbrev pub after_reserve : ℤ → Bool → Turn → ScanResult → Tables → Option Err → Tables × Step
  after_reserve priority detect t res s (some e) = (s, stopped (wrapped "scan: reserve result" e))
  after_reserve priority detect t res s none = submit priority detect t res s (scan_inputs res)

  -- The branches of the round by what the cache has.
  abbrev pub after_cache :
      ℤ → Bool → Turn → ScanResult → Tables → CacheRepo × Option String → Tables × Step
  after_cache priority detect t res s (c, some lyrics) =
      let (st, e) = set_status t.done_fault res.id done s.store in
      (record s { store = st; cache = c }, unless hit "scan: mark cache hit done" e)
  after_cache priority detect t res s (c, none) =
      let (st, e) = set_status t.reserve_fault res.id processing s.store in
      after_reserve priority detect t res (record s { store = st; cache = c }) e

  abbrev pub ask_cache : ℤ → Bool → Turn → ScanResult → Tables → Option String → Tables × Step
  ask_cache priority detect t res s (some m) = (
    record s { cache = record s.cache { lookups = suc s.cache.lookups } },
    stopped (wrapped "scan: cache lookup" (other m)),
  )
  ask_cache priority detect t res s none = after_cache priority detect t res s (
      Cache.lookup normalize_key res.track.artist_name res.track.track_name
        (duration_bucket (pos res.track.track_length)) s.cache)

  abbrev pub with_turn : ℤ → Bool → Turn → ScanResult → Tables → Option Err → Tables × Step
  with_turn priority detect t res s (some e) = (s, stopped e)
  with_turn priority detect t res s none = ask_cache priority detect t res s t.lookup_fault

  -- One round of the loop.
  unfoldable pub enqueue_one : ℤ → Bool → Turn → ScanResult → Tables → Tables × Step
  enqueue_one priority detect t res s = with_turn priority detect t res s t.ctx_err

  unfoldable pub enqueue_loop : ℤ → Bool → (ℕ → Turn) → ℕ → List ScanResult → Tables → Summary
  enqueue_loop priority detect turns i [] s = record {
    enqueued = 0;
    cache_hits = 0;
    err = none;
    tables = s;
  }
  enqueue_loop priority detect turns i (res ∷ results) s =
      go_on (enqueue_one priority detect (turns i) res s)
        (enqueue_loop priority detect turns (suc i) results)

  abbrev pub nothing : Tables → Err → Summary
  nothing s e = record { enqueued = 0; cache_hits = 0; err = some e; tables = s }

  abbrev pub listed : Enqueuer → Library → (ℕ → Turn) → Option String → Tables → Summary
  listed e lib turns (some m) s = nothing s (wrapped "scan: list pending for enqueue" (other m))
  listed e lib turns none s =
      enqueue_loop e.priority
        (resolve_bool e.detect_override lib.detect_instrumental e.global_detect_default) turns 0
        (list_pending lib.id s) s

  abbrev pub live : Enqueuer → Library → (ℕ → Turn) → Option String → Tables → Option Err → Summary
  live e lib turns list_fault s (some err) = nothing s err
  live e lib turns list_fault s none = listed e lib turns list_fault s

  -- With the context's error at the start and the error of the listing.
  unfoldable pub enqueue_pending :
      Enqueuer → Library → (ℕ → Turn) → Option Err → Option String → Tables → Summary
  enqueue_pending e lib turns first_err list_fault s =
      if not e.results
      then nothing s (other "scan: enqueuer results dependency is nil")
      else if not e.cache
      then nothing s (other "scan: enqueuer cache dependency is nil")
      else if not e.queue
      then nothing s (other "scan: enqueuer queue dependency is nil")
      else live e lib turns list_fault s first_err
