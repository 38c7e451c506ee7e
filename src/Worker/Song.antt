-- ===== src/Worker/Song.antt =====
-- Where the worker of internal/worker/worker.go gets its lyrics from: its lanes, if one is open,
-- behind its cache. `decode` is `json.Unmarshal` of a song.
use mxlrcgo_svc.Common.{
  ℕ, suc, ◌≡◌, refl, String, Bool, true, false, not, ◌||◌, Option, none, some, List, [], ◌∷◌,
  str_eq, if◌then◌else◌,
}
use mxlrcgo_svc.Common.Int.{pos}
use mxlrcgo_svc.Models.{Track, Song, no_song}
use mxlrcgo_svc.Errors.{Err, other, wrapped}
use mxlrcgo_svc.Circuit.{Breaker, BreakerState, closed, open_, half_open, allow}
use mxlrcgo_svc.Orchestrator.Lane.{Lane}
use mxlrcgo_svc.Orchestrator.Mode.{find_lyrics}
use mxlrcgo_svc.Normalize.{duration_bucket}
use mxlrcgo_svc.Cache
use mxlrcgo_svc.Worker.{Worker}
use mxlrcgo_svc.Worker.Services.{Services, Round}

abbrev pub with_breaker : Lane → Breaker → Lane
with_breaker l b = record l { breaker = b }

abbrev pub asked : Lane → List Lane → Breaker × BreakerState → List Lane × Bool → List Lane × Bool
asked l ls (b, open_) (rest, idle) = (with_breaker l b ∷ rest, idle)
asked l ls (b, half_open) rest = (with_breaker l b ∷ ls, false)
asked l ls (b, closed) rest = (with_breaker l b ∷ ls, false)

-- The lanes behind `allLanesUnavailable`, and its result; it stops at the first lane that is not
-- open.
unfoldable pub ask_lanes : (ℕ → ℕ) → ℕ → List Lane → List Lane × Bool
ask_lanes now i [] = ([], true)
ask_lanes now i (l ∷ ls) = asked l ls (allow l.breaker (now i)) (ask_lanes now (suc i) ls)

-- The worker's lanes, which are the orchestrator's too, as a call has left them.
abbrev pub with_lanes : Worker → List Lane → Worker
with_lanes w [] = w
with_lanes w (l ∷ ls) = record w {
  lane = l;
  fallbacks = ls;
  orch = record w.orch { lanes = l ∷ ls };
}

-- What `song` returns.
pub record Found : Type 0 where
  pub song : Song
  pub cache_hit : Bool
  pub err : Option Err

abbrev pub is_named : Track → Bool
is_named t = not (str_eq t.artist_name "") || not (str_eq t.track_name "")

abbrev pub plain_song : String → Track → Song
plain_song text fallback = record no_song { track = fallback; lyrics_body = text }

abbrev pub decoded : String → Track → Option Song → Song
decoded text fallback none = plain_song text fallback
decoded text fallback (some song) =
    if is_named song.track
    then record song {
      track = record song.track {
        artist_name = fallback.artist_name;
        track_name = fallback.track_name;
        album_name = fallback.album_name;
      };
    }
    else plain_song text fallback

abbrev pub in_cache : Services → Cache.CacheRepo → Services
in_cache s c = record s { cache = c }

-- What `song` does with the reply of the orchestrator. A race that still waits when its arrivals
-- end is ended by the context, as `cancels` ends it.
abbrev pub replied :
    Worker → Err → Services → Option (List Lane × Song × Option Err) → Worker × Services × Found
replied w e s none = (w, s, record { song = no_song; cache_hit = false; err = some e })
replied w e s (some (ls, song, err)) =
    (with_lanes w ls, s, record { song = song; cache_hit = false; err = err })

-- `orch.FindLyrics`.
abbrev pub dispatched : Worker → Round → Services → Worker × Services × Found
dispatched w r s = replied w r.cancel s (find_lyrics w.orch r.events)

-- A dispatch changes nothing but the worker's lanes.
pub replied-services :
    (w : Worker) (e : Err) (s : Services) (o : Option (List Lane × Song × Option Err))
    → (replied w e s o).1 ≡ s
replied-services w e s none = refl
replied-services w e s (some reply) = refl

module _ (normalize_key : String → String) (decode : String → Option Song) where
  -- `decodeSong`.
  unfoldable pub decode_song : String → Track → Song
  decode_song text fallback = decoded text fallback (decode text)

  abbrev pub after_lookup :
      Worker
      → Round
      → Services
      → Track
      → Cache.CacheRepo × Option String
      → Worker × Services × Found
  after_lookup w r s track (c, none) = dispatched w r (in_cache s c)
  after_lookup w r s track (c, some text) =
      (w, in_cache s c, record { song = decode_song text track; cache_hit = true; err = none })

  abbrev pub look_up : Option String → Worker → Round → Services → Track → Worker × Services × Found
  look_up (some m) w r s track = (
    w,
    in_cache s (record s.cache { lookups = suc s.cache.lookups }),
    record {
      song = no_song;
      cache_hit = false;
      err = some (wrapped "worker: lookup cache" (other m));
    },
  )
  look_up none w r s track = after_lookup w r s track (
      Cache.lookup normalize_key track.artist_name track.track_name
        (duration_bucket (pos track.track_length)) s.cache)

  -- `song`.
  unfoldable pub song_of : Worker → Round → Services → Track → Bool → Worker × Services × Found
  song_of w r s track bypass =
      if bypass then dispatched w r s else look_up r.lookup_fault w r s track
