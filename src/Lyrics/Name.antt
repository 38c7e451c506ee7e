-- ===== src/Lyrics/Name.antt =====
-- The names of the lyrics files: `SidecarName` and `isUnsafeBaseName` of internal/lyrics/writer.go,
-- and `Slugify` of slugify.go.
use Prim.Native.Char.{code}
use Prim.Native.String.{◌++◌ as ◌<>◌}
use mxlrcgo_svc.Common.{
  ℕ, String, Bool, true, false, not, ◌&&◌, ◌||◌, Option, none, some, ◌==◌, str_eq, if◌then◌else◌,
}
use mxlrcgo_svc.Paths.{base, cut_ext}

-- A character of `reForbidden`.
abbrev pub is_forbidden : ℕ → Bool
is_forbidden c =
    (c == b'\\')
    || (c == b'/')
    || (c == b':')
    || (c == b'*')
    || (c == b'?')
    || (c == b'"')
    || (c == b'<')
    || (c == b'>')
    || (c == b'|')

unfoldable pub remove_forbidden : String → String
remove_forbidden String.[] = ""
remove_forbidden (String.◌∷◌ c s) =
    let rest = remove_forbidden s in if is_forbidden (code c) then rest else String.◌∷◌ c rest

abbrev pub starts_with_dash : String → Bool
starts_with_dash String.[] = false
starts_with_dash (String.◌∷◌ c s) = code c == b'-'

-- Each run of dashes becomes one.
unfoldable pub squeeze_dashes : String → String
squeeze_dashes String.[] = ""
squeeze_dashes (String.◌∷◌ c s) =
    let rest = squeeze_dashes s in
    if (code c == b'-') && starts_with_dash rest then rest else String.◌∷◌ c rest

-- The cutset of `strings.Trim(s, "-_")`.
abbrev pub is_cut : ℕ → Bool
is_cut c = (c == b'-') || (c == b'_')

unfoldable pub trim_left : String → String
trim_left String.[] = ""
trim_left (String.◌∷◌ c s) =
    let rest = trim_left s in if is_cut (code c) then rest else String.◌∷◌ c s

unfoldable pub trim_right : String → String
trim_right String.[] = ""
trim_right (String.◌∷◌ c s) =
    let rest = trim_right s in if is_cut (code c) && str_eq rest "" then "" else String.◌∷◌ c rest

abbrev pub has_separator : String → Bool
has_separator String.[] = false
has_separator (String.◌∷◌ c s) = (code c == b'/') || (code c == b'\\') || has_separator s

abbrev pub is_abs : String → Bool
is_abs String.[] = false
is_abs (String.◌∷◌ c s) = code c == b'/'

unfoldable pub is_unsafe_base_name : String → Bool
is_unsafe_base_name name = is_abs name || has_separator name

abbrev pub ext_of : Bool → String
ext_of true = ".lrc"
ext_of false = ".txt"

abbrev pub checked : String → Option String
checked name = if is_unsafe_base_name name then none else some name

module _ (nfkc : String → String) where
  unfoldable pub slugify : String → String
  unfolding remove_forbidden squeeze_dashes trim_left trim_right
  slugify s = trim_right (trim_left (squeeze_dashes (remove_forbidden (nfkc s))))

  -- `none` is a refusal.
  unfoldable pub sidecar_name : String → String → String → Bool → Option String
  sidecar_name artist track filename synced =
      if str_eq filename ""
      then checked (slugify (artist <> " - " <> track) <> ext_of synced)
      else if str_eq filename "."
          || str_eq filename ".."
          || not (str_eq filename (base filename))
          || is_unsafe_base_name filename
      then none
      else checked ((cut_ext filename).0 <> ext_of synced)
