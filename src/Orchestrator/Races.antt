-- ===== src/Orchestrator/Races.antt =====
-- Races of internal/orchestrator/parallel.go between two or three lanes.
use mxlrcgo_svc.Common.{◌≡◌, refl, String, true, none, some, List, [], ◌∷◌, ◌++◌, arith, is_some}
use mxlrcgo_svc.Models.{Song, no_song}
use mxlrcgo_svc.Errors.{
  Err, sentinel, no_lyrics, rate_limited, canceled, deadline_exceeded, errors_is, is_benign_miss,
  precedence, classify_outcome,
}
use mxlrcgo_svc.Orchestrator.Suitability.{is_suitable, quality_of}
use mxlrcgo_svc.Orchestrator.Parallel.{LaneResult, cancels, arrives, elapses, commit, find_parallel}
use mxlrcgo_svc.Orchestrator.Parallel.Passes.{results}
use mxlrcgo_svc.Orchestrator.Parallel.Refines.{
  attributed, find_parallel-synced, find_parallel-held, find_parallel-elapsed,
  find_parallel-cancelled, find_parallel-verdict,
}
use mxlrcgo_svc.Orchestrator.Parallel.Ends.{find_parallel-ends}
use mxlrcgo_svc.Orchestrator.Examples.{synced_song, plain_song}

abbrev brings : String → Song → LaneResult
brings name song = record { song = song; err = none; name = name }

abbrev fails : String → Err → LaneResult
fails name e = record { song = no_song; err = some e; name = name }

-- The plain song arrives first, and the synced one wins.
find_parallel-synced_example :
    find_parallel none 3 none (
      results (brings "a" plain_song ∷ [])
      ++ arrives (brings "b" synced_song) none ∷ elapses none ∷ [])
    ≡ some (commit ("a" ∷ "b" ∷ []) (synced_song, "b"))
unfolding is_suitable quality_of
find_parallel-synced_example =
    find_parallel-synced none 3 (brings "a" plain_song ∷ []) (brings "b" synced_song) none
      (elapses none ∷ []) (refl, tt) (omega arith) refl

find_parallel-held_example :
    find_parallel none 3 none (
      results (fails "a" (sentinel no_lyrics) ∷ brings "b" plain_song ∷ brings "c" plain_song ∷ []))
    ≡ some (commit ("a" ∷ "b" ∷ "c" ∷ []) (plain_song, "b"))
unfolding is_suitable quality_of classify_outcome errors_is is_benign_miss
find_parallel-held_example =
    find_parallel-held none (fails "a" (sentinel no_lyrics) ∷ []) (brings "c" plain_song ∷ [])
      (brings "b" plain_song) plain_song (refl, tt) refl (refl, (refl, tt))

-- The third lane hangs.
find_parallel-elapsed_example :
    find_parallel none 3 none (
      results (fails "a" (sentinel no_lyrics) ∷ brings "b" plain_song ∷ [])
      ++ elapses none ∷ arrives (brings "c" synced_song) none ∷ [])
    ≡ some (commit ("a" ∷ "b" ∷ []) (plain_song, "b"))
unfolding is_suitable quality_of classify_outcome errors_is is_benign_miss
find_parallel-elapsed_example =
    find_parallel-elapsed none 3 (fails "a" (sentinel no_lyrics) ∷ []) [] (brings "b" plain_song)
      plain_song (arrives (brings "c" synced_song) none ∷ []) (refl, tt) refl (refl, tt)
      (omega arith)

find_parallel-cancelled_test :
    find_parallel none 2 none
      (results (brings "b" plain_song ∷ []) ++ cancels (sentinel deadline_exceeded) ∷ [])
    ≡ some (no_song, some (sentinel deadline_exceeded))
unfolding is_suitable quality_of
find_parallel-cancelled_test =
    find_parallel-cancelled none 2 (brings "b" plain_song ∷ []) (sentinel deadline_exceeded) []
      (refl, tt) (omega arith)

-- A benign miss, a lane that gave up because it was cancelled, and an auth signal, which is the error
-- that is returned.
abbrev all_fail : List LaneResult
all_fail =
    fails "a" (sentinel no_lyrics)
    ∷ fails "b" (sentinel canceled)
    ∷ fails "c" (sentinel rate_limited)
    ∷ []

find_parallel-verdict_example :
    find_parallel none 3 none (results all_fail)
    ≡ some (attributed ("a" ∷ "c" ∷ []) (no_song, some (sentinel rate_limited)))
unfolding classify_outcome errors_is is_benign_miss precedence
find_parallel-verdict_example =
    find_parallel-verdict none (fails "a" (sentinel no_lyrics))
      (fails "b" (sentinel canceled) ∷ fails "c" (sentinel rate_limited) ∷ [])
      (refl, (refl, (refl, tt)))

find_parallel-ends_example :
    is_some (
      find_parallel none 2 none (
        elapses none
        ∷ arrives (brings "a" plain_song) none
        ∷ elapses none
        ∷ arrives (brings "b" plain_song) none
        ∷ []))
    ≡ true
find_parallel-ends_example =
    find_parallel-ends none 2 none
      (elapses none
        ∷ arrives (brings "a" plain_song) none
        ∷ elapses none
        ∷ arrives (brings "b" plain_song) none
        ∷ [])
      (omega arith) (omega arith)
