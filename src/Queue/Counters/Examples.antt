-- ===== src/Queue/Counters/Examples.antt =====
-- Runs of the outcome tables of internal/queue/queue.go.
use mxlrcgo_svc.Common.{
  ℕ, ◌+◌, ◌≡◌, refl, String, Bool, true, false, Option, none, some, List, [], ◌∷◌,
}
use mxlrcgo_svc.Orchestrator.Dispatch.{lane_attempts_for}
use mxlrcgo_svc.Queue.Counters.{counts_of, AttemptRow, record_lane_attempts, attempt_of}
use mxlrcgo_svc.Queue.Counters.Attribution.{
  record_lane_attempts-latest, record_lane_attempts-winner, record_outcomes, record_outcomes-counts,
}

-- An earlier run in which the first lane had won.
abbrev earlier : List AttemptRow
earlier = record { queue_id = 7; lane = "musixmatch"; hit = true; attempted_at = 100 } ∷ []

record_lane_attempts-latest_test :
    attempt_of 7 "petitlyrics" (
      record_lane_attempts 200 7
        (record { lane = "musixmatch"; hit = false }
          ∷ record { lane = "petitlyrics"; hit = true }
          ∷ [])
        earlier)
    ≡ some (true, 200)
unfolding attempt_of
record_lane_attempts-latest_test =
    record_lane_attempts-latest 200 7 7 "petitlyrics"
      (record { lane = "musixmatch"; hit = false }
        ∷ record { lane = "petitlyrics"; hit = true }
        ∷ [])
      earlier refl

record_lane_attempts-winner_example :
    attempt_of 7 "musixmatch" (
      record_lane_attempts 200 7
        (lane_attempts_for ("musixmatch" ∷ "petitlyrics" ∷ []) "petitlyrics")
        earlier)
    ≡ some (false, 200)
record_lane_attempts-winner_example =
    record_lane_attempts-winner 200 7 "musixmatch" "petitlyrics" ("musixmatch" ∷ "petitlyrics" ∷ [])
      earlier refl refl

abbrev outcomes : List (Bool × String)
outcomes = (true, "musixmatch") ∷ (false, "petitlyrics") ∷ (true, "musixmatch") ∷ []

record_outcomes-counts_test :
    ((counts_of "musixmatch" (record_outcomes outcomes [])).hits ≡ 0 + 2)
    × ((counts_of "musixmatch" (record_outcomes outcomes [])).misses ≡ 0 + 0)
unfolding mxlrcgo_svc.Common.Assoc.lookup
record_outcomes-counts_test = record_outcomes-counts "musixmatch" outcomes [] refl
