-- ===== src/Models.antt =====
-- internal/models/models.go: the data that the parts pass around. Integers that the code tests
-- against a few constants are natural numbers. `Time.Total`, a float that no modelled code reads, and
-- the JSON tags are left out.
use mxlrcgo_svc.Common.{ℕ, String, Bool, Option, List, []}

pub record Track : Type 0 where
  pub track_name : String
  pub artist_name : String
  pub album_name : String
  pub album_artist : String
  pub track_length : ℕ
  pub instrumental : ℕ
  pub has_lyrics : ℕ
  pub has_subtitles : ℕ
  pub isrc : String
  pub spotify_id : String
  pub recording_mbid : String

pub record Time : Type 0 where
  pub minutes : ℕ
  pub seconds : ℕ
  pub hundredths : ℕ

pub record Lines : Type 0 where
  pub text : String
  pub time : Time

pub record LaneAttempt : Type 0 where
  pub lane : String
  pub hit : Bool

-- `Song`, with the fields `Lyrics.LyricsBody` and `Subtitles.Lines` written flat.
pub record Song : Type 0 where
  pub track : Track
  pub lyrics_body : String
  pub subtitles : List Lines
  pub translation_subtitles : List Lines
  pub romanization_subtitles : List Lines
  pub winning_lane : String
  pub lane_attempts : List LaneAttempt
  pub fetched_at : ℕ

pub record OutputPath : Type 0 where
  pub outdir : String
  pub filename : String

pub record Inputs : Type 0 where
  pub track : Track
  pub outdir : String
  pub filename : String
  pub source_path : String
  pub output_paths : List OutputPath
  pub scan_result_id : ℕ
  pub detect_instrumental : Option Bool

-- The zero values of Go.
abbrev pub no_track : Track
no_track = record {
  track_name = "";
  artist_name = "";
  album_name = "";
  album_artist = "";
  track_length = 0;
  instrumental = 0;
  has_lyrics = 0;
  has_subtitles = 0;
  isrc = "";
  spotify_id = "";
  recording_mbid = "";
}

abbrev pub no_song : Song
no_song = record {
  track = no_track;
  lyrics_body = "";
  subtitles = [];
  translation_subtitles = [];
  romanization_subtitles = [];
  winning_lane = "";
  lane_attempts = [];
  fetched_at = 0;
}
