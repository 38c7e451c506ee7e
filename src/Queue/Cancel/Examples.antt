-- ===== src/Queue/Cancel/Examples.antt =====
-- A cancellation by library of internal/queue/queue.go.
use mxlrcgo_svc.Common.{ℕ, ◌+◌, ◌≡◌, refl, String, none, List, [], ◌∷◌, All, length, map, keep}
use mxlrcgo_svc.Common.Int.{pos}
use mxlrcgo_svc.Models.{OutputPath}
use mxlrcgo_svc.Queue.{pending, processing, failed, Row, Store, Status}
use mxlrcgo_svc.Queue.Cancel.{cancel_rows, count_cancel_by_library, cancel_by_library}
use mxlrcgo_svc.Queue.Cancel.Paths.{IsCancelled, left_of, has_place, cancel_by_library-IsCancelled}

abbrev in_folder : String → OutputPath
in_folder outdir = record { outdir = outdir; filename = "x.lrc" }

abbrev row : ℕ → Status → List OutputPath → Row
row i s paths = record {
  id = i;
  artist_key = "a";
  title_key = "x";
  work = record {
    artist = "a";
    title = "x";
    album = "";
    album_artist = "";
    outdir = "";
    filename = "";
    source_path = "";
    output_paths = paths;
  };
  status = s;
  priority = pos 0;
  attempts = 0;
  miss_count = 0;
  providers_version = 7;
  detect_instrumental = none;
  next_attempt_at = 5;
  last_error = "";
  created_at = 5;
  completed_at = none;
  scan_result_id = none;
  provider_lane = none;
  instrumental_result = none;
  telemetry = none;
  outcome_type = none;
}

-- Library 1 wants a place for every row; library 2 wants another place for the second row.
abbrev shared : Store
shared = record {
  rows =
      row 1 pending (in_folder "/one" ∷ [])
      ∷ row 2 failed (in_folder "/one" ∷ in_folder "/two" ∷ [])
      ∷ row 3 processing (in_folder "/one" ∷ [])
      ∷ [];
  next_id = 4;
  links = (1, 10) ∷ (2, 10) ∷ (2, 20) ∷ (3, 10) ∷ [];
  scans =
      record { id = 10; library_id = 1; output = in_folder "/one"; status = pending }
      ∷ record { id = 20; library_id = 2; output = in_folder "/two"; status = pending }
      ∷ [];
}

one_goes :
    cancel_rows 1 shared shared.rows
    ≡ row 2 failed (in_folder "/two" ∷ []) ∷ row 3 processing (in_folder "/one" ∷ []) ∷ []
unfolding cancel_rows
one_goes = refl

cancel_by_library-IsCancelled_example :
    let (after, (deleted, updated)) = cancel_by_library 1 shared in
    All (IsCancelled 1 shared) after.rows
    × (after.rows ≡ map (left_of 1 shared) (keep (has_place 1 shared) shared.rows))
    × (length after.rows + (count_cancel_by_library 1 shared).0 ≡ 3)
    × ((deleted, updated) ≡ count_cancel_by_library 1 shared)
cancel_by_library-IsCancelled_example = cancel_by_library-IsCancelled 1 shared
