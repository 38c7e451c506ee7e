-- ===== src/Paths.antt =====
-- What internal/scan and internal/lyrics call of Go's path/filepath, on Unix.
use Prim.Native.Char.{Char, code}
use Prim.Native.String.{◌++◌ as ◌<>◌}
use mxlrcgo_svc.Common.{
  String, Bool, true, false, not, ◌&&◌, ◌||◌, List, [], ◌∷◌, ◌==◌, str_eq, if◌then◌else◌,
}

abbrev pub is_slash : Char → Bool
is_slash c = code c == b'/'

-- Up to the last slash, and behind it.
unfoldable pub split : String → String × String
split String.[] = ("", "")
split (String.◌∷◌ c s) =
    let (dir, file) = split s in
    if is_slash c || not (str_eq dir "") then (String.◌∷◌ c dir, file) else ("", String.◌∷◌ c file)

unfoldable pub trim_slashes : String → String
trim_slashes String.[] = ""
trim_slashes (String.◌∷◌ c s) =
    let rest = trim_slashes s in if is_slash c && str_eq rest "" then "" else String.◌∷◌ c rest

abbrev pub or_else : String → String → String
or_else other s = if str_eq s "" then other else s

-- `filepath.Base`.
unfoldable pub base : String → String
unfolding split trim_slashes
base path = if str_eq path "" then "." else or_else "/" (split (trim_slashes path)).1

-- Before the last dot, and from it on (`filepath.Ext`), for a name without a slash.
unfoldable pub cut_ext : String → String × String
cut_ext String.[] = ("", "")
cut_ext (String.◌∷◌ c s) =
    let (stem, ext) = cut_ext s in
    if str_eq ext "" && (code c == b'.') then ("", String.◌∷◌ c s) else (String.◌∷◌ c stem, ext)

abbrev pub onto_first : Char → List String → List String
onto_first c [] = String.◌∷◌ c "" ∷ []
onto_first c (p ∷ ps) = String.◌∷◌ c p ∷ ps

unfoldable pub parts : String → List String
parts String.[] = "" ∷ []
parts (String.◌∷◌ c s) = let rest = parts s in if is_slash c then "" ∷ rest else onto_first c rest

-- A `..` takes the last part away; at the root it is dropped, and behind others it is kept.
abbrev pub up : Bool → List String → List String
up true [] = []
up false [] = ".." ∷ []
up rooted (p ∷ out) = if str_eq p ".." then ".." ∷ p ∷ out else out

-- The parts that stay, the last one first.
unfoldable pub walk : Bool → List String → List String → List String
walk rooted out [] = out
walk rooted out (p ∷ ps) =
    walk rooted
      (if str_eq p "" || str_eq p "."
        then out
        else if str_eq p ".."
        then up rooted out
        else p ∷ out)
      ps

unfoldable pub joined : List String → String
joined [] = ""
joined (p ∷ []) = p
joined (p ∷ q ∷ out) = joined (q ∷ out) <> "/" <> p

abbrev pub is_rooted : String → Bool
is_rooted String.[] = false
is_rooted (String.◌∷◌ c s) = is_slash c

-- `filepath.Clean`.
unfoldable pub clean : String → String
unfolding parts walk joined
clean path =
    let rest = joined (walk (is_rooted path) [] (parts path)) in
    if is_rooted path then "/" <> rest else or_else "." rest

-- `filepath.Dir`.
unfoldable pub dir : String → String
unfolding split clean
dir path = clean (split path).0
