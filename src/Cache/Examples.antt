-- ===== src/Cache/Examples.antt =====
-- Runs of internal/cache/cache.go.
use mxlrcgo_svc.Common.{
  suc, ◌≡◌, refl, String, not, ◌&&◌, ◌||◌, some, [], ◌∷◌, ◌==◌, str_eq, is_some, if◌then◌else◌,
}
use mxlrcgo_svc.Cache.{CacheRepo, new, read, write, lookup, store, cache_stats}
use mxlrcgo_svc.Cache.Reads.{lookup-store, lookup-cache_stats}

abbrev as_is : String → String
as_is s = s

abbrev filled : CacheRepo
filled = record {
  rows = record { artist = "can"; title = "vitamin c"; duration_bucket = 42; lyrics = "her" } ∷ [];
  hits = 0;
  lookups = 0;
}

exact : (lookup as_is "can" "vitamin c" 42 filled).1 ≡ some "her"
unfolding lookup read
exact = refl

unknown_serves :
    (lookup as_is "can" "vitamin c" 42 (store as_is "can" "vitamin c" 0 "x" new)).1 ≡ some "x"
unfolding lookup read store write
unknown_serves = refl

lookup-store_example :
    (lookup as_is "can" "vitamin c" 41 (store as_is "can" "vitamin c" 0 "x" filled)).1 ≡ (
      if str_eq "can" "can"
        && str_eq "vitamin c" "vitamin c"
        && ((0 == 41) || ((0 == 0) && not (is_some (read "can" "vitamin c" 41 filled.rows))))
      then some "x"
      else (lookup as_is "can" "vitamin c" 41 filled).1)
lookup-store_example = lookup-store as_is "can" "vitamin c" "x" "can" "vitamin c" 0 41 filled

lookup-cache_stats_test :
    let (c, found) = lookup as_is "can" "vitamin c" 42 filled in
    (cache_stats c ≡ (
      if is_some found then suc (cache_stats filled).0 else (cache_stats filled).0,
      suc (cache_stats filled).1,
    ))
    × (c.rows ≡ filled.rows)
lookup-cache_stats_test = lookup-cache_stats as_is "can" "vitamin c" 42 filled
