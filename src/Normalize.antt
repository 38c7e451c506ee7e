-- ===== src/Normalize.antt =====
-- internal/normalize: `DurationBucket` of normalize.go and `ResolveArtist` of resolve_artist.go,
-- with the functions of Go's `strings` that they call. `NormalizeKey` rests on golang.org/x/text and
-- is a parameter where it is used.
pub mod Artist
mod Examples
use Prim.Native.Char.{code}
use mxlrcgo_svc.Common.{
  ℕ, ◌+◌, ◌/◌, String, Bool, true, false, not, ◌&&◌, ◌||◌, List, [], ◌∷◌, map, leb, ◌==◌, str_eq,
  if◌then◌else◌,
}
use mxlrcgo_svc.Common.Int.{ℤ, positive, pos_part}

unfoldable pub duration_bucket : ℤ → ℕ
duration_bucket seconds = if not (positive seconds) then 0 else pos_part seconds / 5

-- `unicode.IsSpace`.
abbrev pub is_space : ℕ → Bool
is_space c =
    (leb 9 c && leb c 13)
    || (c == 32)
    || (c == 0x85)
    || (c == 0xA0)
    || (c == 0x1680)
    || (leb 0x2000 c && leb c 0x200A)
    || (c == 0x2028)
    || (c == 0x2029)
    || (c == 0x202F)
    || (c == 0x205F)
    || (c == 0x3000)

unfoldable pub trim_left : String → String
trim_left String.[] = String.[]
trim_left (String.◌∷◌ c s) =
    let rest = trim_left s in if is_space (code c) then rest else String.◌∷◌ c s

unfoldable pub trim_right : String → String
trim_right String.[] = String.[]
trim_right (String.◌∷◌ c s) =
    let rest = trim_right s in
    if is_space (code c) && str_eq rest "" then String.[] else String.◌∷◌ c rest

-- `strings.TrimSpace`.
unfoldable pub trim_space : String → String
unfolding trim_left trim_right
trim_space s = trim_right (trim_left s)

-- The code points whose lower case is ASCII: the capitals, İ and the Kelvin sign. `strings.ToLower`
-- takes any other to itself or to one outside ASCII, which no word below has.
abbrev pub lower : ℕ → ℕ
lower c =
    if leb b'A' c && leb c b'Z'
    then c + 32
    else if c == 0x130
    then b'i'
    else if c == 0x212A
    then b'k'
    else c

abbrev pub codes : String → List ℕ
codes String.[] = []
codes (String.◌∷◌ c s) = code c ∷ codes s

abbrev pub same_codes : List ℕ → List ℕ → Bool
same_codes [] [] = true
same_codes [] (d ∷ t) = false
same_codes (c ∷ s) [] = false
same_codes (c ∷ s) (d ∷ t) = (c == d) && same_codes s t

-- `strings.ToLower(s) == word`, for a word in lower-case ASCII.
abbrev pub lowers_to : String → String → Bool
lowers_to s word = same_codes (map lower (codes s)) (codes word)

unfoldable pub is_generic_album_artist : String → Bool
is_generic_album_artist s =
    lowers_to (trim_space s) "various artists"
    || lowers_to (trim_space s) "various"
    || lowers_to (trim_space s) "va"

unfoldable pub resolve_artist : String → String → String
resolve_artist album_artist artist =
    let trimmed = trim_space album_artist in
    if not (str_eq trimmed "") && not (is_generic_album_artist trimmed) then trimmed else artist
