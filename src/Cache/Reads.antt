-- ===== src/Cache/Reads.antt =====
-- What a lookup in internal/cache/cache.go returns behind a store.
use mxlrcgo_svc.Common.{
  ℕ, suc, ◌≡◌, refl, ap, ◌∙◌, String, Bool, not, ◌&&◌, ◌||◌, Option, none, some, inl, inr, List, [],
  ◌∷◌, ◌==◌, ==_iff, str_eq, eq_iff, is_some, if◌then◌else◌, arith, Bool-cases,
}
use mxlrcgo_svc.Cache.{
  CacheRow, CacheRepo, read, write, counted, fall_back, lookup, store, cache_stats,
}

-- The keys and buckets agree.
abbrev pub agree : String → String → ℕ → String → String → ℕ → Bool
agree a t b a' t' b' = str_eq a a' && str_eq t t' && (b == b')

read-write :
    (a t : String) (b : ℕ) (a' t' : String) (b' : ℕ) (lyrics : String) (rows : List CacheRow)
    → read a' t' b' (write a t b lyrics rows)
      ≡ (if agree a t b a' t' b' then some lyrics else read a' t' b' rows)
unfolding read write
read-write a t b a' t' b' lyrics [] = refl
read-write a t b a' t' b' lyrics (r ∷ rows) = ground (
  arith,
  eq_iff a a',
  eq_iff t t',
  eq_iff r.artist a,
  eq_iff r.artist a',
  eq_iff r.title t,
  eq_iff r.title t',
  read-write a t b a' t' b' lyrics rows,
)

-- What a table answers: the exact bucket, or else the one for an unknown length.
abbrev pub answer : Option String → Option String → Option String
answer (some lyrics) unknown = some lyrics
answer none unknown = unknown

fall_back-answer :
    (a t : String) (b : ℕ) (c : CacheRepo) (o : Option String)
    → read a t b c.rows ≡ o
    → (fall_back a t b c o).1 ≡ answer o (read a t 0 c.rows)
fall_back-answer a t b c (some lyrics) e = refl
fall_back-answer a t b c none e = elim (Bool-cases (b == 0)) [
  | inl zero ↦ rw zero (ground (arith, e, ap (λ n. read a t n c.rows) ((==_iff b 0).0 zero)))
  | inr bucket ↦ rw bucket (counted_second (read a t 0 c.rows))
]
  where
    counted_second : (p : Option String) → (counted c p).1 ≡ p
    counted_second none = refl
    counted_second (some lyrics) = refl

module _ (normalize_key : String → String) where
  pub lookup-answer :
      (artist title : String) (b : ℕ) (c : CacheRepo)
      → (lookup normalize_key artist title b c).1
        ≡ answer
            (read (normalize_key artist) (normalize_key title) b c.rows)
            (read (normalize_key artist) (normalize_key title) 0 c.rows)
  unfolding lookup
  lookup-answer artist title b c =
      fall_back-answer (normalize_key artist) (normalize_key title) b
        (record c { lookups = suc c.lookups })
        (read (normalize_key artist) (normalize_key title) b c.rows) refl

  -- Behind a store of lyrics, a lookup of a recording whose artist and title normalise to the same
  -- returns them if it asks for the same bucket, or if they were stored for an unknown length and its
  -- own bucket has none; any other lookup returns what it returned before.
  pub lookup-store :
      (artist title lyrics artist' title' : String) (b b' : ℕ) (c : CacheRepo)
      → (lookup normalize_key artist' title' b' (store normalize_key artist title b lyrics c)).1 ≡ (
          if str_eq (normalize_key artist) (normalize_key artist')
            && str_eq (normalize_key title) (normalize_key title')
            && ((b == b')
                || ((b == 0)
                    && not
                        (is_some (read (normalize_key artist') (normalize_key title') b' c.rows))))
          then some lyrics
          else (lookup normalize_key artist' title' b' c).1)
  unfolding store
  lookup-store artist title lyrics artist' title' b b' c =
      let a = normalize_key artist in
      let t = normalize_key title in
      let a' = normalize_key artist' in
      let t' = normalize_key title' in
      lookup-answer artist' title' b' (store normalize_key artist title b lyrics c)
      ∙ ground (
        arith,
        lookup-answer artist' title' b' c,
        read-write a t b a' t' b' lyrics c.rows,
        read-write a t b a' t' 0 lyrics c.rows,
      )

  -- A lookup is counted once, and as a hit exactly if it returns lyrics; it changes no row.
  pub lookup-cache_stats :
      (artist title : String) (b : ℕ) (c : CacheRepo)
      → let (c', found) = lookup normalize_key artist title b c in
        (cache_stats c' ≡ (
          if is_some found then suc (cache_stats c).0 else (cache_stats c).0,
          suc (cache_stats c).1,
        ))
        × (c'.rows ≡ c.rows)
  unfolding lookup cache_stats
  lookup-cache_stats artist title b c = ground arith
