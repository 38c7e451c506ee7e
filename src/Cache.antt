-- ===== src/Cache.antt =====
-- internal/cache/cache.go: the table of cached lyrics, by normalised artist and title and by the
-- bucket of the recording's length, 0 where that is unknown. `NormalizeKey` is a parameter; failures
-- of SQLite itself are left out, and `sql.ErrNoRows` is `none`.
pub mod Reads
mod Examples
use mxlrcgo_svc.Common.{
  ℕ, suc, String, Bool, ◌&&◌, Option, none, some, List, [], ◌∷◌, ◌==◌, str_eq, if◌then◌else◌,
}

pub record CacheRow : Type 0 where
  pub artist : String
  pub title : String
  pub duration_bucket : ℕ
  pub lyrics : String

pub record CacheRepo : Type 0 where
  pub rows : List CacheRow
  pub hits : ℕ
  pub lookups : ℕ

abbrev pub new : CacheRepo
new = record { rows = []; hits = 0; lookups = 0 }

abbrev pub is_key : String → String → ℕ → CacheRow → Bool
is_key artist title bucket r =
    str_eq r.artist artist && str_eq r.title title && (r.duration_bucket == bucket)

-- `SELECT lyrics … LIMIT 1`.
unfoldable pub read : String → String → ℕ → List CacheRow → Option String
read artist title bucket [] = none
read artist title bucket (r ∷ rows) =
    if is_key artist title bucket r then some r.lyrics else read artist title bucket rows

-- `INSERT … ON CONFLICT DO UPDATE`.
unfoldable pub write : String → String → ℕ → String → List CacheRow → List CacheRow
write artist title bucket lyrics [] =
    record { artist = artist; title = title; duration_bucket = bucket; lyrics = lyrics } ∷ []
write artist title bucket lyrics (r ∷ rows) =
    if is_key artist title bucket r
    then record r { lyrics = lyrics } ∷ rows
    else r ∷ write artist title bucket lyrics rows

abbrev pub counted : CacheRepo → Option String → CacheRepo × Option String
counted c none = (c, none)
counted c (some lyrics) = (record c { hits = suc c.hits }, some lyrics)

-- The rest of `Lookup`, by what the exact bucket has.
abbrev pub fall_back : String → String → ℕ → CacheRepo → Option String → CacheRepo × Option String
fall_back artist title bucket c (some lyrics) = counted c (some lyrics)
fall_back artist title bucket c none =
    if bucket == 0 then (c, none) else counted c (read artist title 0 c.rows)

module _ (normalize_key : String → String) where
  unfoldable pub lookup : String → String → ℕ → CacheRepo → CacheRepo × Option String
  lookup artist title bucket c =
      let a = normalize_key artist in
      let t = normalize_key title in
      fall_back a t bucket (record c { lookups = suc c.lookups }) (read a t bucket c.rows)

  unfoldable pub store : String → String → ℕ → String → CacheRepo → CacheRepo
  store artist title bucket lyrics c = record c {
    rows = write (normalize_key artist) (normalize_key title) bucket lyrics c.rows;
  }

unfoldable pub cache_stats : CacheRepo → ℕ × ℕ
cache_stats c = (c.hits, c.lookups)
