-- ===== src/Queue.antt =====
-- internal/queue/queue.go and priority.go: the durable work queue, as tables of rows. Each statement
-- and each transaction is one step. Times are in nanoseconds, and `formatTime` cuts a stored one to
-- whole seconds, which compare as their RFC 3339 texts do. Failures of SQLite itself are left out; a
-- lookup that affects no row (`sql.ErrNoRows`) is `none`, and the tables stay as they were.
pub mod Fifo
pub mod Enqueue
pub mod Claim
pub mod Results
pub mod Recheck
pub mod Cancel
pub mod Stamps
pub mod Calls
pub mod Effects
pub mod Steps
pub mod TableSteps
pub mod StampSteps
pub mod Diagram
pub mod Sound
pub mod Exclusive
pub mod Lookup
pub mod Cooldown
pub mod Failures
pub mod Revival
pub mod Counters
pub mod Listing
pub mod Examples
mod Runs
use mxlrcgo_svc.Common.{
  ℕ, ◌/◌, String, Bool, true, false, ◌&&◌, Option, none, some, List, [], ◌∷◌, map, ◌==◌, any,
  if◌then◌else◌,
}
use mxlrcgo_svc.Common.Int.{ℤ, pos, negsuc}
use mxlrcgo_svc.Backoff.{default_base, default_max}
use mxlrcgo_svc.Models.{OutputPath}

pub data Status : Type 0 where
  pending processing done failed deferred : Status

abbrev status_tag : Status → ℕ
status_tag pending = 0
status_tag processing = 1
status_tag done = 2
status_tag failed = 3
status_tag deferred = 4

abbrev pub has_status : Status → Status → Bool
has_status s t = status_tag s == status_tag t

-- `PriorityMiss`, -100.
abbrev pub priority_miss : ℤ
priority_miss = negsuc 99

abbrev pub priority_scan : ℤ
priority_scan = pos 0

abbrev pub priority_webhook : ℤ
priority_webhook = pos 10

abbrev pub miss_limit_reached_error : String
miss_limit_reached_error = "miss limit reached"

-- The columns that an enqueue refreshes together.
pub record Work : Type 0 where
  pub artist : String
  pub title : String
  pub album : String
  pub album_artist : String
  pub outdir : String
  pub filename : String
  pub source_path : String
  pub output_paths : List OutputPath

-- The scores of an audio detection, floats that the worker passes on, by their bit patterns.
pub record InstrumentalTelemetry : Type 0 where
  pub music_sum : ℕ
  pub vocal_peak : ℕ
  pub speech_mean : ℕ
  pub vocal_class : String
  pub detector_version : String

-- A row of `work_queue` (`WorkItem`, and the columns that are written behind an enqueue; the five
-- columns of the telemetry are written together).
pub record Row : Type 0 where
  pub id : ℕ
  pub artist_key : String
  pub title_key : String
  pub work : Work
  pub status : Status
  pub priority : ℤ
  pub attempts : ℕ
  pub miss_count : ℕ
  pub providers_version : ℕ
  pub detect_instrumental : Option Bool
  pub next_attempt_at : ℕ
  pub last_error : String
  pub created_at : ℕ
  pub completed_at : Option ℕ
  pub scan_result_id : Option ℕ
  pub provider_lane : Option String
  pub instrumental_result : Option ℕ
  pub telemetry : Option InstrumentalTelemetry
  pub outcome_type : Option String

-- A row of `scan_results`, as far as the queue reads it, its `outdir` and `filename` as a path.
pub record ScanRow : Type 0 where
  pub id : ℕ
  pub library_id : ℕ
  pub output : OutputPath
  pub status : Status

-- The tables; a link is a row of `work_queue_scan_results`.
pub record Store : Type 0 where
  pub rows : List Row
  pub next_id : ℕ
  pub links : List (ℕ × ℕ)
  pub scans : List ScanRow

-- `DBQueue`, apart from the connection and the clock.
pub record DbQueue : Type 0 where
  pub base_backoff : ℤ
  pub max_backoff : ℤ
  pub randomized : Bool
  pub providers_version : ℕ

unfoldable pub new_db_queue : DbQueue
new_db_queue = record {
  base_backoff = default_base;
  max_backoff = default_max;
  randomized = true;
  providers_version = 0;
}

unfoldable pub set_randomized : Bool → DbQueue → DbQueue
set_randomized b q = record q { randomized = b }

unfoldable pub set_providers_version : ℕ → DbQueue → DbQueue
set_providers_version v q = record q { providers_version = v }

-- `formatTime`: RFC 3339 keeps whole seconds.
abbrev pub format_time : ℕ → ℕ
format_time t = t / 1_000_000_000

-- `UPDATE … SET f WHERE p`.
abbrev pub update {ℓ} : {A : Type ℓ} → (A → Bool) → (A → A) → List A → List A
update p f rows = map (λ r. if p r then f r else r) rows

abbrev pub find {ℓ} : {A : Type ℓ} → (A → Bool) → List A → Option A
find p [] = none
find p (r ∷ rows) = if p r then some r else find p rows

abbrev pub by_id : ℕ → Row → Bool
by_id i r = r.id == i

-- `WHERE id = i AND status = s`.
abbrev pub in_status : ℕ → Status → Row → Bool
in_status i s r = (r.id == i) && has_status s r.status

abbrev pub set_row : (Row → Bool) → (Row → Row) → Store → Option Row → Option (Store × Row)
set_row p f st none = none
set_row p f st (some r) = some (record st { rows = update p f st.rows }, f r)

-- `UPDATE … WHERE p RETURNING …`, for a condition that at most one row meets.
unfoldable pub update_returning : (Row → Bool) → (Row → Row) → Store → Option (Store × Row)
update_returning p f st = set_row p f st (find p st.rows)

-- `id IN (SELECT scan_result_id FROM work_queue_scan_results WHERE work_queue_id = i)`.
abbrev pub is_linked : List (ℕ × ℕ) → ℕ → ScanRow → Bool
is_linked links i s = any (λ l. (l.0 == i) && (l.1 == s.id)) links
