-- ===== src/Lyrics/Derived.antt =====
-- Names that internal/lyrics derives from an artist and a title.
use Prim.Native.Char.{Char, code}
use Prim.Native.String.{◌++◌ as ◌<>◌}
use mxlrcgo_svc.Common.{
  ◌≡◌, refl, String, Bool, true, false, ◌&&◌, Option, none, some, inl, inr, ◌==◌, str_eq, arith,
  Bool-cases,
}
use mxlrcgo_svc.Models.{Song}
use mxlrcgo_svc.Worker.Services.{outcome_type_from_song}
use mxlrcgo_svc.Lyrics.Stale.{IsBare, append-IsBare}
use mxlrcgo_svc.Lyrics.Name.{
  is_forbidden, remove_forbidden, starts_with_dash, squeeze_dashes, is_cut, trim_left, trim_right,
  is_unsafe_base_name, ext_of, checked, slugify, sidecar_name,
}
use mxlrcgo_svc.Lyrics.Content.{Kind, instrumental, synced, unsynced, kind_of}

tail-IsBare : (c : Char) (s : String) → IsBare (String.◌∷◌ c s) → IsBare s
tail-IsBare c s h = ground (arith, h)

-- Another end behind the same character.
onto-IsBare :
    (c : Char) (s rest : String)
    → IsBare (String.◌∷◌ c s)
    → IsBare rest
    → IsBare (String.◌∷◌ c rest)
onto-IsBare c s rest h k = ground (arith, h, k)

remove_forbidden-IsBare : (s : String) → IsBare (remove_forbidden s)
unfolding remove_forbidden
remove_forbidden-IsBare String.[] = refl
remove_forbidden-IsBare (String.◌∷◌ c s) = elim (Bool-cases (is_forbidden (code c))) [
  | inl banned ↦ rw banned (remove_forbidden-IsBare s)
  | inr allowed ↦ rw allowed (ground (arith, allowed, remove_forbidden-IsBare s))
]

squeeze_dashes-IsBare : (s : String) → IsBare s → IsBare (squeeze_dashes s)
unfolding squeeze_dashes
squeeze_dashes-IsBare String.[] h = refl
squeeze_dashes-IsBare (String.◌∷◌ c s) h =
    let rest = squeeze_dashes-IsBare s (tail-IsBare c s h) in
    elim (Bool-cases ((code c == b'-') && starts_with_dash (squeeze_dashes s))) [
      | inl more ↦ rw more rest
      | inr last ↦ rw last (onto-IsBare c s (squeeze_dashes s) h rest)
    ]

trim_left-IsBare : (s : String) → IsBare s → IsBare (trim_left s)
unfolding trim_left
trim_left-IsBare String.[] h = refl
trim_left-IsBare (String.◌∷◌ c s) h = elim (Bool-cases (is_cut (code c))) [
  | inl cut ↦ rw cut (trim_left-IsBare s (tail-IsBare c s h))
  | inr kept ↦ rw kept h
]

trim_right-IsBare : (s : String) → IsBare s → IsBare (trim_right s)
unfolding trim_right
trim_right-IsBare String.[] h = refl
trim_right-IsBare (String.◌∷◌ c s) h =
    let rest = trim_right-IsBare s (tail-IsBare c s h) in
    elim (Bool-cases (is_cut (code c) && str_eq (trim_right s) "")) [
      | inl cut ↦ rw cut refl
      | inr kept ↦ rw kept (onto-IsBare c s (trim_right s) h rest)
    ]

slugify-IsBare : (nfkc : String → String) (s : String) → IsBare (slugify nfkc s)
unfolding slugify
slugify-IsBare nfkc s =
    let bare = remove_forbidden (nfkc s) in
    trim_right-IsBare (trim_left (squeeze_dashes bare)) (
      trim_left-IsBare (squeeze_dashes bare)
        (squeeze_dashes-IsBare bare (remove_forbidden-IsBare (nfkc s))))

checked-safe : (name : String) → IsBare name → checked name ≡ some name
unfolding is_unsafe_base_name
checked-safe String.[] h = refl
checked-safe (String.◌∷◌ c s) h = ground (arith, h)

-- A name that is derived from the artist and the title is never refused, whatever they are: it is
-- their slug with the extension of the content.
pub sidecar_name-slugify :
    (nfkc : String → String) (artist track : String) (timed : Bool)
    → sidecar_name nfkc artist track "" timed
      ≡ some (slugify nfkc (artist <> " - " <> track) <> ext_of timed)
unfolding sidecar_name
sidecar_name-slugify nfkc artist track timed =
    let slug = slugify nfkc (artist <> " - " <> track) in
    checked-safe (slug <> ext_of timed) (
      append-IsBare slug (ext_of timed) (slugify-IsBare nfkc (artist <> " - " <> track))
        (ext timed))
  where
    ext : (b : Bool) → IsBare (ext_of b)
    ext true = refl
    ext false = refl

abbrev pub kind_text : Option Kind → String
kind_text none = ""
kind_text (some instrumental) = "instrumental"
kind_text (some synced) = "synced"
kind_text (some unsynced) = "unsynced"

-- What the worker records of a completed row is the kind of content that `WriteLRC` writes for the
-- song, and nothing exactly if that has nothing to save.
pub outcome_type_from_song-kind_of :
    (song : Song) → outcome_type_from_song song ≡ kind_text (kind_of song)
unfolding outcome_type_from_song kind_of
outcome_type_from_song-kind_of song = ground arith
