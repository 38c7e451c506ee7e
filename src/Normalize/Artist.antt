-- ===== src/Normalize/Artist.antt =====
-- Which artist internal/normalize/resolve_artist.go matches by.
use Prim.Native.Char.{code}
use mxlrcgo_svc.Common.{
  ◌≡◌, refl, ap, ◌∙◌, String, false, ◌&&◌, ◌||◌, inl, inr, str_eq, if◌then◌else◌, arith, Bool-cases,
}
use mxlrcgo_svc.Normalize.{
  is_space, trim_left, trim_right, trim_space, is_generic_album_artist, resolve_artist,
}

-- A text does not begin with a space.
abbrev StartsBare : String → Type 0
StartsBare String.[] = Unit
StartsBare (String.◌∷◌ c s) = is_space (code c) ≡ false

-- A text does not end with a space: cutting spaces off its end leaves it alone.
abbrev EndsBare : String → Type 0
EndsBare s = trim_right s ≡ s

trim_left-StartsBare : (s : String) → StartsBare (trim_left s)
unfolding trim_left
trim_left-StartsBare String.[] = tt
trim_left-StartsBare (String.◌∷◌ c s) = elim (Bool-cases (is_space (code c))) [
  | inl space ↦ rw space (trim_left-StartsBare s)
  | inr bare ↦ rw bare bare
]

trim_right-EndsBare : (s : String) → EndsBare (trim_right s)
unfolding trim_right
trim_right-EndsBare String.[] = refl
trim_right-EndsBare (String.◌∷◌ c s) =
    elim (Bool-cases (is_space (code c) && str_eq (trim_right s) "")) [
      | inl cut ↦ rw cut
      | inr kept ↦ rw kept (rw (trim_right-EndsBare s) (rw kept))
    ]

trim_right-StartsBare : (s : String) → StartsBare s → StartsBare (trim_right s)
unfolding trim_right
trim_right-StartsBare String.[] h = tt
trim_right-StartsBare (String.◌∷◌ c s) h = rw h h

trim_left_bare : (s : String) → StartsBare s → trim_left s ≡ s
unfolding trim_left
trim_left_bare String.[] h = refl
trim_left_bare (String.◌∷◌ c s) h = rw h

trim_space_idem : (s : String) → trim_space (trim_space s) ≡ trim_space s
unfolding trim_space
trim_space_idem s =
    ap trim_right (
      trim_left_bare (trim_right (trim_left s))
        (trim_right-StartsBare (trim_left s) (trim_left-StartsBare s)))
    ∙ trim_right-EndsBare (trim_left s)

generic-trim_space :
    (s : String) → is_generic_album_artist (trim_space s) ≡ is_generic_album_artist s
unfolding is_generic_album_artist
generic-trim_space s = rw (trim_space_idem s)

-- A track is matched by its album artist, cut of the spaces around it, unless that is blank or a
-- placeholder of a compilation; then by its artist as it stands. Spaces around the album artist make
-- no difference, and a placeholder is one in any of its spellings with spaces.
pub resolve_artist-trim_space :
    (album_artist artist : String)
    → (resolve_artist album_artist artist ≡ resolve_artist (trim_space album_artist) artist)
      × (resolve_artist album_artist artist ≡ (
          if str_eq (trim_space album_artist) "" || is_generic_album_artist album_artist
          then artist
          else trim_space album_artist))
unfolding resolve_artist
resolve_artist-trim_space album_artist artist =
    (rw (trim_space_idem album_artist), ground (arith, generic-trim_space album_artist))
