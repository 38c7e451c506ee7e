-- ===== src/Lyrics/Examples.antt =====
-- Runs of internal/lyrics/writer.go.
use mxlrcgo_svc.Common.{
  ℕ, ◌≡◌, refl, String, true, false, Option, none, some, inr, [], ◌∷◌, is_some,
}
use Prim.Native.String.{◌++◌ as ◌<>◌}
use mxlrcgo_svc.Common.Assoc.{put, delete}
use mxlrcgo_svc.Paths.{base, split, trim_slashes, cut_ext, clean, parts, walk, joined}
use mxlrcgo_svc.Models.{Song, Lines, no_song, no_track}
use mxlrcgo_svc.Worker.Services.{outcome_type_from_song}
use mxlrcgo_svc.Lyrics.{Files, Disk, join, stale_sidecar, write_file, write_lrc}
use mxlrcgo_svc.Lyrics.Name.{
  slugify, remove_forbidden, squeeze_dashes, trim_left, trim_right, sidecar_name,
  is_unsafe_base_name,
}
use mxlrcgo_svc.Lyrics.Content.{
  synced, kind_of, padded, decimal, stamp_text, synced_text, tags, content,
}
use mxlrcgo_svc.Lyrics.Written.{LeftAt, write_lrc-LeftAt}
use mxlrcgo_svc.Lyrics.Derived.{sidecar_name-slugify, kind_text, outcome_type_from_song-kind_of}

abbrev nfkc : String → String
nfkc s = s

abbrev date : ℕ → String
date t = "today"

clean_name : slugify nfkc "AC/DC -- What: Next?" ≡ "ACDC - What Next"
unfolding slugify remove_forbidden squeeze_dashes trim_left trim_right
clean_name = refl

traversal : sidecar_name nfkc "a" "b" "../x.lrc" true ≡ none
unfolding sidecar_name base split trim_slashes is_unsafe_base_name
traversal = refl

abbrev line : ℕ → String → Lines
line s text = record { text = text; time = record { minutes = 1; seconds = s; hundredths = 5 } }

interleaved :
    synced_text (line 7 "eins" ∷ line 9 "" ∷ []) (line 0 "one" ∷ [])
    ≡ "[01:07.05]eins\n[01:07.05]one\n[01:09.05]♪\n"
unfolding synced_text stamp_text padded decimal
interleaved = refl

abbrev sung : Song
sung = record no_song {
  track = record no_track { artist_name = "Neu!"; track_name = "Hero" };
  subtitles = line 7 "eins" ∷ [];
}

abbrev disk : Option String → Disk
disk fault = record {
  place = inr "/m/";
  tmp = "/m/hero.lrc.1.tmp";
  create_fault = none;
  write_fault = none;
  partial = "[by";
  close_fault = none;
  chmod_fault = none;
  remove_fault = none;
  rename_fault = fault;
  keeps_tmp = false;
  keeps_stale = false;
}

abbrev files : Files
files = ("/m/hero.txt", "old words") ∷ ("/m/isi.lrc", "isi") ∷ []

upgraded :
    (write_lrc nfkc date "1" (disk none) false sung "hero.flac" files).0
    ≡ ("/m/isi.lrc", "isi")
      ∷ ("/m/hero.lrc", "[by:canticle]\n[ar:Neu!]\n[ti:Hero]\n[ve:1]\n[01:07.05]eins\n")
      ∷ []
unfolding write_lrc write_file kind_of sidecar_name base split trim_slashes cut_ext
    is_unsafe_base_name join clean parts walk joined stale_sidecar put delete content tags
    synced_text stamp_text padded decimal
upgraded = refl

write_lrc-LeftAt_example :
    let out = write_lrc nfkc date "1" (disk none) false sung "hero.flac" files in
    LeftAt
      (disk none)
      ("/m" <> "/" <> "hero" <> ".lrc")
      ("/m" <> "/" <> "hero" <> ".txt")
      (content date "1" false synced sung)
      files
      "/m/hero.txt"
      out
    × (is_some out.1 ≡ false)
unfolding kind_of sidecar_name base split trim_slashes cut_ext is_unsafe_base_name join clean parts
    walk joined
write_lrc-LeftAt_example =
    write_lrc-LeftAt nfkc date "1" (disk none) false sung "hero.flac" "hero.lrc" "/m/" "/m" "hero"
      "/m/hero.txt" synced files refl refl refl refl refl refl

sidecar_name-slugify_example :
    sidecar_name nfkc "AC/DC" "../etc" "" true ≡ some (slugify nfkc "AC/DC - ../etc" <> ".lrc")
sidecar_name-slugify_example = sidecar_name-slugify nfkc "AC/DC" "../etc" true

outcome_type_from_song-kind_of_example : outcome_type_from_song sung ≡ kind_text (kind_of sung)
outcome_type_from_song-kind_of_example = outcome_type_from_song-kind_of sung
