-- ===== src/Queue/Enqueue.antt =====
-- `Enqueue` and `Cleanup` of internal/queue/queue.go. `NormalizeKey` stands on a Unicode library, so
-- it is a parameter.
use mxlrcgo_svc.Common.{
  ℕ, suc, String, Bool, not, ◌&&◌, ◌||◌, Option, none, some, List, [], ◌∷◌, ◌++◌, ◌==◌, ltb, str_eq,
  any, keep, length, if◌then◌else◌,
}
use mxlrcgo_svc.Common.Int.{ℤ, leb_ℤ, ltb_ℤ}
use mxlrcgo_svc.Models.{Inputs, OutputPath}
use mxlrcgo_svc.Queue.{
  Status, pending, processing, done, failed, deferred, has_status, priority_webhook, Work, Row,
  Store, DbQueue, format_time, update, find,
}

-- `marshalOutputPaths`, without the encoding.
abbrev marshal_output_paths : Inputs → List OutputPath → List OutputPath
marshal_output_paths inputs [] = record { outdir = inputs.outdir; filename = inputs.filename } ∷ []
marshal_output_paths inputs (p ∷ ps) = p ∷ ps

abbrev work_of : Inputs → Work
work_of inputs = record {
  artist = inputs.track.artist_name;
  title = inputs.track.track_name;
  album = inputs.track.album_name;
  album_artist = inputs.track.album_artist;
  outdir = inputs.outdir;
  filename = inputs.filename;
  source_path = inputs.source_path;
  output_paths = marshal_output_paths inputs inputs.output_paths;
}

abbrev nullable_id : ℕ → Option ℕ
nullable_id i = if i == 0 then none else some i

abbrev coalesce {ℓ} : {A : Type ℓ} → Option A → Option A → Option A
coalesce none y = y
coalesce (some x) y = some x

abbrev pub max_ℤ : ℤ → ℤ → ℤ
max_ℤ a b = if ltb_ℤ a b then b else a

abbrev refreshed_priority : Row → Row → ℤ
refreshed_priority old excluded =
    if leb_ℤ priority_webhook excluded.priority
    then excluded.priority
    else if has_status deferred old.status
    then old.priority
    else max_ℤ old.priority excluded.priority

-- `priority >= PriorityWebhook` is `refreshFailedBackoff`.
abbrev refreshed_next_attempt : Row → Row → Status → ℕ
refreshed_next_attempt old excluded done = old.next_attempt_at
refreshed_next_attempt old excluded processing = old.next_attempt_at
refreshed_next_attempt old excluded pending = excluded.next_attempt_at
refreshed_next_attempt old excluded _ =
    if leb_ℤ priority_webhook excluded.priority
    then excluded.next_attempt_at
    else old.next_attempt_at

-- `ON CONFLICT(artist_key, title_key) DO UPDATE SET …`; only a pending row loses its error.
unfoldable pub refresh : Row → Row → Row
refresh excluded old = record old {
  work =
      if has_status done old.status || has_status processing old.status
      then old.work
      else excluded.work;
  scan_result_id = coalesce old.scan_result_id excluded.scan_result_id;
  priority = refreshed_priority old excluded;
  next_attempt_at = refreshed_next_attempt old excluded old.status;
  last_error = if has_status pending old.status then "" else old.last_error;
  completed_at = if has_status done old.status then old.completed_at else none;
}

abbrev pub has_key : String → String → Row → Bool
has_key artist_key title_key r = str_eq r.artist_key artist_key && str_eq r.title_key title_key

-- `INSERT OR IGNORE INTO work_queue_scan_results`.
abbrev pub link : ℕ → ℕ → List (ℕ × ℕ) → List (ℕ × ℕ)
link i scan links =
    if not (ltb 0 scan) || any (λ l. (l.0 == i) && (l.1 == scan)) links
    then links
    else (i, scan) ∷ links

unfoldable pub upsert : Row → ℕ → Store → Option Row → Store × Row
upsert new scan st none = (
  record st {
    rows = st.rows ++ new ∷ [];
    next_id = suc st.next_id;
    links = link new.id scan st.links;
  },
  new,
)
upsert new scan st (some old) = (
  record st {
    rows = update (has_key new.artist_key new.title_key) (refresh new) st.rows;
    links = link old.id scan st.links;
  },
  refresh new old,
)

module _ (normalize_key : String → String) where
  -- The row as it would be inserted; `created_at` is SQLite's clock.
  abbrev pub excluded : DbQueue → Inputs → ℤ → ℕ → ℕ → ℕ → Row
  excluded q inputs priority now created i = record {
    id = i;
    artist_key = normalize_key inputs.track.artist_name;
    title_key = normalize_key inputs.track.track_name;
    work = work_of inputs;
    status = pending;
    priority = priority;
    attempts = 0;
    miss_count = 0;
    providers_version = q.providers_version;
    detect_instrumental = inputs.detect_instrumental;
    next_attempt_at = format_time now;
    last_error = "";
    created_at = created;
    completed_at = none;
    scan_result_id = nullable_id inputs.scan_result_id;
    provider_lane = none;
    instrumental_result = none;
    telemetry = none;
    outcome_type = none;
  }

  unfoldable pub enqueue : DbQueue → Inputs → ℤ → ℕ → ℕ → Store → Store × Row
  unfolding upsert
  enqueue q inputs priority now created st =
      let new = excluded q inputs priority now created st.next_id in
      upsert new inputs.scan_result_id st (find (has_key new.artist_key new.title_key) st.rows)

  -- With the number of rows that go; the foreign key deletes their links.
  unfoldable pub cleanup : Inputs → Store → Store × ℕ
  cleanup inputs st =
      let goes : Row → Bool = (λ r.
        has_key (normalize_key inputs.track.artist_name) (normalize_key inputs.track.track_name) r
        && (has_status pending r.status
            || has_status failed r.status
            || has_status deferred r.status)) in
      (
        record st {
          rows = keep (λ r. not (goes r)) st.rows;
          links = keep (λ l. not (any (λ r. r.id == l.0) (keep goes st.rows))) st.links;
        },
        length (keep goes st.rows),
      )
