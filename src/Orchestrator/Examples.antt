-- ===== src/Orchestrator/Examples.antt =====
-- Dispatches of internal/orchestrator over two providers.
use mxlrcgo_svc.Common.{
  inl, inr, ℕ, ◌≡◌, ◌≢◌, refl, String, Bool, true, false, Option, none, some, List, [], ◌∷◌, ◌++◌,
  map, arith, length, is_some,
}
use mxlrcgo_svc.Common.Int.{pos}
use mxlrcgo_svc.Models.{Song, no_song, no_track}
use mxlrcgo_svc.Circuit.{Breaker, new, trip, allow, record_success, record_benign_miss}
use mxlrcgo_svc.Errors.{
  Err, sentinel, no_lyrics, rate_limited, canceled, lane_unavailable, errors_is, is_benign_miss,
  classify_outcome,
}
use mxlrcgo_svc.Orchestrator.Suitability.{ScriptGuard, is_suitable, quality_of}
use mxlrcgo_svc.Orchestrator.Lane.{Lane, Turn, find_lyrics, notify_success, classify}
use mxlrcgo_svc.Orchestrator.Lane.Calls.{lane_after, find_lyrics_open, find_lyrics_asked}
use mxlrcgo_svc.Orchestrator.Dispatch.{resolve, no_result, lane_attempts_for}
use mxlrcgo_svc.Orchestrator.Dispatch.Best.{
  Report, fallback, failure, gather, verdict_or, resolve-verdict,
}
use mxlrcgo_svc.Orchestrator.Mode.{
  new as new_orchestrator, new-lanes, mode_ordered, default_race_wait, nil_lane, no_lanes,
}
use mxlrcgo_svc.Orchestrator.Ordered.{Visit, find_ordered}
use mxlrcgo_svc.Orchestrator.Ordered.Loop.{called}
use mxlrcgo_svc.Orchestrator.Ordered.Refines.{
  find_ordered-winner, find_ordered-verdict, find_ordered-cancelled,
}

abbrev pub synced_song : Song
synced_song = record no_song {
  subtitles =
      record { text = "la"; time = record { minutes = 0; seconds = 1; hundredths = 0 } } ∷ [];
}

abbrev pub plain_song : Song
plain_song = record no_song { lyrics_body = "la la" }

abbrev pub instrumental_song : Song
instrumental_song = record no_song { track = record no_track { instrumental = 1 } }

-- A guard that refuses the plain song.
abbrev no_plain : Option ScriptGuard
no_plain =
    some
      (record { enabled = true; accept = λ song. mxlrcgo_svc.Common.ltb 0 (length song.subtitles) })

abbrev fresh : Breaker
unfolding new
fresh = new (pos 60) (pos 3600)

abbrev musixmatch : Lane
musixmatch = record { name = "musixmatch"; breaker = fresh; pacer = none }

abbrev petitlyrics : Lane
petitlyrics = record { name = "petitlyrics"; breaker = fresh; pacer = none }

abbrev tripped : Lane
tripped = record { name = "tripped"; breaker = (trip fresh 1000).0; pacer = none }

abbrev sings : Song → Turn
sings song = record { asked = 1010; answered = 1011; song = song; err = none }

abbrev fails : Err → Turn
fails e = record { asked = 1010; answered = 1011; song = no_song; err = some e }

abbrev visit : Lane → Turn → Visit
visit l t = record { lane = l; ctx_err = none; turn = t }

abbrev mixed : List Report
mixed =
    failure (sentinel no_lyrics)
    ∷ fallback instrumental_song "musixmatch"
    ∷ failure (sentinel rate_limited)
    ∷ []

resolve-verdict_test : resolve 3 none (gather no_result mixed) ≡ verdict_or none mixed
resolve-verdict_test = resolve-verdict 3 none mixed (omega arith)

find_lyrics_open_test :
    find_lyrics tripped (sings synced_song) ≡ (tripped, no_song, some (sentinel lane_unavailable))
unfolding trip new allow mxlrcgo_svc.Backoff.geometric
find_lyrics_open_test = find_lyrics_open tripped (sings synced_song) refl

find_lyrics_asked_test :
    ((find_lyrics musixmatch (fails (sentinel rate_limited))).0
      ≡ lane_after
          (record musixmatch { breaker = (allow fresh 1010).0 })
          1011
          (some (sentinel rate_limited))
          (classify_outcome (some (sentinel rate_limited))))
    × (classify_outcome (find_lyrics musixmatch (fails (sentinel rate_limited))).2
        ≡ classify_outcome (some (sentinel rate_limited)))
unfolding new allow classify_outcome errors_is
find_lyrics_asked_test = find_lyrics_asked musixmatch (fails (sentinel rate_limited)) (cc) (cc)

-- The tripped lane is skipped, the next one has only a fallback, and the last one is never asked.
abbrev skipped_then_fallback : List Visit
skipped_then_fallback =
    visit tripped (sings synced_song) ∷ visit musixmatch (sings instrumental_song) ∷ []

find_ordered-winner_example :
    find_ordered none none (
      skipped_then_fallback
      ++ visit petitlyrics (sings plain_song) ∷ visit musixmatch (sings synced_song) ∷ [])
    ≡ record {
      lanes =
          map called skipped_then_fallback
          ++ called (visit petitlyrics (sings plain_song)) ∷ musixmatch ∷ [];
      song = record plain_song {
        winning_lane = "petitlyrics";
        lane_attempts = lane_attempts_for ("musixmatch" ∷ "petitlyrics" ∷ []) "petitlyrics";
      };
      err = none;
    }
unfolding find_lyrics allow trip new mxlrcgo_svc.Backoff.geometric is_suitable quality_of
    classify_outcome errors_is record_success notify_success
find_ordered-winner_example =
    find_ordered-winner none none skipped_then_fallback (visit musixmatch (sings synced_song) ∷ [])
      (visit petitlyrics (sings plain_song)) plain_song ((refl, refl), ((refl, refl), tt)) refl refl

-- One lane misses and one has an instrumental marker.
abbrev no_suitable : List Visit
no_suitable =
    visit musixmatch (sings instrumental_song) ∷ visit petitlyrics (fails (sentinel no_lyrics)) ∷ []

find_ordered-verdict_example : find_ordered none none no_suitable ≡ record {
  lanes = map called no_suitable;
  song = record instrumental_song {
    winning_lane = "musixmatch";
    lane_attempts = lane_attempts_for ("musixmatch" ∷ "petitlyrics" ∷ []) "musixmatch";
  };
  err = none;
}
unfolding find_lyrics allow new is_suitable quality_of classify_outcome errors_is is_benign_miss
    record_success record_benign_miss notify_success classify
find_ordered-verdict_example =
    find_ordered-verdict none none (visit musixmatch (sings instrumental_song))
      (visit petitlyrics (fails (sentinel no_lyrics)) ∷ []) ((refl, refl), ((refl, refl), tt))

abbrev cancelled : Visit
cancelled = record (visit petitlyrics (sings synced_song)) { ctx_err = some (sentinel canceled) }

find_ordered-cancelled_example :
    find_ordered none none (skipped_then_fallback ++ cancelled ∷ []) ≡ record {
      lanes = map called skipped_then_fallback ++ petitlyrics ∷ [];
      song = no_song;
      err = some (sentinel canceled);
    }
unfolding find_lyrics allow trip new mxlrcgo_svc.Backoff.geometric is_suitable quality_of
    classify_outcome errors_is
find_ordered-cancelled_example =
    find_ordered-cancelled none none skipped_then_fallback [] cancelled (sentinel canceled)
      ((refl, refl), ((refl, refl), tt)) refl

new-lanes_test :
    (new_orchestrator "" (some musixmatch ∷ some petitlyrics ∷ [])
      ≡ inr (record {
        lanes = musixmatch ∷ petitlyrics ∷ [];
        guard = none;
        mode = mode_ordered;
        race_wait = default_race_wait;
      }))
    × (new_orchestrator "" (some musixmatch ∷ some petitlyrics ∷ none ∷ some musixmatch ∷ [])
        ≡ inl (nil_lane 2))
    × (new_orchestrator "" [] ≡ inl no_lanes)
new-lanes_test = new-lanes "" musixmatch (petitlyrics ∷ []) (some musixmatch ∷ []) refl
