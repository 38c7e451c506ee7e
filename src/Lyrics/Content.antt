-- ===== src/Lyrics/Content.antt =====
-- What internal/lyrics/writer.go writes into a file.
use Prim.Native.String.{◌++◌ as ◌<>◌}
use mxlrcgo_svc.Common.{
  ℕ, zero, suc, ◌/◌, ◌%◌, String, Bool, true, false, not, Option, none, some, List, [], ◌∷◌, ltb,
  ◌==◌, str_eq, length, if◌then◌else◌,
}
use mxlrcgo_svc.Models.{Song, Lines, Time}

pub data Kind : Type 0 where
  instrumental synced unsynced : Kind

abbrev pub is_synced : Kind → Bool
is_synced synced = true
is_synced kind = false

-- `none` is nothing to save.
unfoldable pub kind_of : Song → Option Kind
kind_of song =
    if song.track.instrumental == 1
    then some instrumental
    else if ltb 0 (length song.subtitles)
    then some synced
    else if not (str_eq song.lyrics_body "")
    then some unsynced
    else none

abbrev pub digit : ℕ → String
digit n =
    if n == 0
    then "0"
    else if n == 1
    then "1"
    else if n == 2
    then "2"
    else if n == 3
    then "3"
    else if n == 4
    then "4"
    else if n == 5
    then "5"
    else if n == 6
    then "6"
    else if n == 7
    then "7"
    else if n == 8
    then "8"
    else "9"

-- The decimal digits; the number is more than the digits that it has.
unfoldable pub decimal : ℕ → ℕ → String
decimal zero n = ""
decimal (suc fuel) n =
    let front = decimal fuel (n / 10) in (if ltb n 10 then "" else front) <> digit (n % 10)

-- `%02d`.
unfoldable pub padded : ℕ → String
unfolding decimal
padded n = (if ltb n 10 then "0" else "") <> decimal (suc n) n

unfoldable pub stamp_text : Time → String
unfolding padded
stamp_text t =
    "[" <> padded t.minutes <> ":" <> padded t.seconds <> "." <> padded t.hundredths <> "]"

abbrev pub or_note : String → String
or_note text = if str_eq text "" then "♪" else text

abbrev pub line_of : Time → String → String
line_of t text = stamp_text t <> or_note text <> "\n"

-- The lines, each followed by its translation if there is one.
unfoldable pub synced_text : List Lines → List Lines → String
unfolding stamp_text
synced_text [] translations = ""
synced_text (l ∷ ls) [] = line_of l.time l.text <> synced_text ls []
synced_text (l ∷ ls) (t ∷ ts) = line_of l.time l.text <> line_of l.time t.text <> synced_text ls ts

abbrev pub tag_if : Bool → String → String → String
tag_if given key value = if given then "[" <> key <> ":" <> value <> "]\n" else ""

module _ (date : ℕ → String) (version : String) where
  unfoldable pub tags : Song → String
  unfolding padded
  tags song =
      "[by:canticle]\n"
      <> tag_if true "ar" song.track.artist_name
      <> tag_if true "ti" song.track.track_name
      <> tag_if (not (str_eq song.track.album_name "")) "al" song.track.album_name
      <> tag_if (not (song.track.track_length == 0)) "length"
          (padded (song.track.track_length / 60) <> ":" <> padded (song.track.track_length % 60))
      <> tag_if (not (str_eq song.winning_lane "")) "source" song.winning_lane
      <> tag_if (not (song.fetched_at == 0)) "fetched" (date song.fetched_at)
      <> tag_if true "ve" version
      <> tag_if (not (str_eq song.track.isrc "")) "isrc" song.track.isrc
      <> tag_if (not (str_eq song.track.recording_mbid "")) "mbid" song.track.recording_mbid

  unfoldable pub content : Bool → Kind → Song → String
  unfolding tags synced_text
  content bilingual instrumental song = "♪ Instrumental ♪\n"
  content bilingual synced song =
      tags song <> synced_text song.subtitles (if bilingual then song.translation_subtitles else [])
  content bilingual unsynced song = song.lyrics_body
