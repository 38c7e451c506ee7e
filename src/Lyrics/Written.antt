-- ===== src/Lyrics/Written.antt =====
-- What a write of internal/lyrics/writer.go leaves of the files.
use mxlrcgo_svc.Common.{
  ℕ, ◌≡◌, refl, sym, ap, ◌∙◌, subst, String, Bool, true, false, not, ◌&&◌, ◌||◌, Option, none, some,
  ◌⊎◌, inl, inr, str_eq, is_some, if◌then◌else◌, Bool-cases, arith,
}
use Prim.Native.String.{◌++◌ as ◌<>◌}
use mxlrcgo_svc.Common.Assoc.{lookup, put, delete, lookup-put, lookup-delete}
use mxlrcgo_svc.Errors.{Err}
use mxlrcgo_svc.Lyrics.{
  Files, Disk, stale_sidecar, give_up, drop_stale, rename, remove_old, chmod, close, fill, create,
  write_file, join, placed, named, of_kind, write_lrc,
}
use mxlrcgo_svc.Models.{Song}
use mxlrcgo_svc.Lyrics.Name.{sidecar_name, has_separator, ext_of}
use mxlrcgo_svc.Lyrics.Stale.{sidecar, stale_sidecar-sidecar, sidecars_differ}
use mxlrcgo_svc.Lyrics.Content.{Kind, kind_of, is_synced, content}

-- The path of the stale sidecar, unless its removal fails.
abbrev pub dropped : Bool → Option String → String → Bool
dropped keeps none k = false
dropped keeps (some path) k = not keeps && str_eq path k

-- What a write of `text` to `path` leaves at `k`, by the sidecar that the code takes for stale.
abbrev IsLeft : Disk → String → String → Files → String → Files × Option Err → Type 0
IsLeft d path text files k (files', none) = lookup k files' ≡ (
    if dropped d.keeps_stale (stale_sidecar path) k
    then none
    else if str_eq path k
    then some text
    else lookup k files)
IsLeft d path text files k (files', some e) =
    (lookup k files' ≡ lookup k files) ⊎ ((str_eq path k ≡ true) × (lookup k files' ≡ none))

-- What a write of `text` to `path` may leave at `k`, where `stale` is the path of the other format:
-- with no error the text at `path`, and nothing at `stale` unless its removal fails; with one, what
-- was there, or nothing at `path`.
abbrev pub LeftAt : Disk → String → String → String → Files → String → Files × Option Err → Type 0
LeftAt d path stale text files k (files', none) = lookup k files' ≡ (
    if str_eq path k
    then some text
    else if not d.keeps_stale && str_eq stale k
    then none
    else lookup k files)
LeftAt d path stale text files k (files', some e) =
    (lookup k files' ≡ lookup k files) ⊎ ((str_eq path k ≡ true) × (lookup k files' ≡ none))

-- Some call of the file system fails, the removals that are passed over aside.
abbrev pub is_failing : Disk → Bool
is_failing d =
    is_some d.create_fault
    || is_some d.write_fault
    || is_some d.close_fault
    || is_some d.chmod_fault
    || is_some d.remove_fault
    || is_some d.rename_fault

write_file-fails :
    (d : Disk) (path text : String) (files : Files)
    → is_some (write_file d path text files).1 ≡ is_failing d
unfolding write_file
write_file-fails d path text files = ground arith

IsLeft-LeftAt :
    (d : Disk) (parent stem text k : String) (timed : Bool) (files : Files)
    (out : Files × Option Err)
    → has_separator stem ≡ false
    → IsLeft d (sidecar parent stem timed) text files k out
    → LeftAt d (sidecar parent stem timed) (sidecar parent stem (not timed)) text files k out
IsLeft-LeftAt d parent stem text k timed files (files', some e) bare h = h
IsLeft-LeftAt d parent stem text k timed files (files', none) bare h =
    h
    ∙ ap
        (λ o.
          if dropped d.keeps_stale o k
          then none
          else if str_eq (sidecar parent stem timed) k
          then some text
          else lookup k files)
        (stale_sidecar-sidecar parent stem bare timed)
    ∙ elim (Bool-cases (str_eq (sidecar parent stem timed) k)) [
      | inl here ↦
          rw here (rw (sidecars_differ parent stem bare timed k here) (never d.keeps_stale))
      | inr away ↦ rw away refl
    ]
  where
    never : (keeps : Bool) → (if not keeps && false then none else some text) ≡ some text
    never true = refl
    never false = refl

module _ (d : Disk) (path text k : String) (aside : str_eq d.tmp k ≡ false) where
  put_aside : (x : String) (files : Files) → lookup k (put d.tmp x files) ≡ lookup k files
  put_aside x files = lookup-put d.tmp k x files ∙ rw aside refl

  delete_aside : (files : Files) → lookup k (delete d.tmp files) ≡ lookup k files
  delete_aside files = lookup-delete d.tmp k files ∙ rw aside refl

  give_up-same :
      (files : Files) (m cause : String) → lookup k (give_up d files m cause).0 ≡ lookup k files
  give_up-same files m cause = elim (Bool-cases d.keeps_tmp) [
    | inl kept ↦ rw kept refl
    | inr gone ↦ rw gone (delete_aside files)
  ]

  drop_stale-lookup :
      (keeps : Bool) (stale : Option String) (files : Files)
      → lookup k (drop_stale keeps stale files)
        ≡ (if dropped keeps stale k then none else lookup k files)
  drop_stale-lookup keeps none files = refl
  drop_stale-lookup true (some p) files = refl
  drop_stale-lookup false (some p) files = lookup-delete p k files

  -- Behind the removal of the old file.
  rename-IsLeft :
      (files staged : Files) (fault : Option String)
      → lookup k staged ≡ lookup k files
      → IsLeft d path text files k (rename d path text (delete path staged) fault)
  rename-IsLeft files staged (some m) same =
      let gone = give_up-same (delete path staged) "renaming" m ∙ lookup-delete path k staged in
      elim (Bool-cases (str_eq path k)) [
        | inl here ↦ inr (here, gone ∙ rw here refl)
        | inr away ↦ inl (gone ∙ rw away same)
      ]
  rename-IsLeft files staged none same =
      drop_stale-lookup d.keeps_stale (stale_sidecar path)
        (put path text (delete d.tmp (delete path staged)))
      ∙ ap (λ o. if dropped d.keeps_stale (stale_sidecar path) k then none else o)
          (lookup-put path k text (delete d.tmp (delete path staged))
            ∙ elim (Bool-cases (str_eq path k)) [
              | inl here ↦ rw here refl
              | inr away ↦
                  rw away
                    (delete_aside (delete path staged) ∙ lookup-delete path k staged ∙ rw away same)
            ])

  staged-IsLeft :
      (files staged : Files) (close_fault : Option String)
      → lookup k staged ≡ lookup k files
      → IsLeft d path text files k (close d path text staged close_fault)
  staged-IsLeft files staged (some m) same = inl (give_up-same staged "closing" m ∙ same)
  staged-IsLeft files staged none same = modes d.chmod_fault
    where
      removed :
          (fault : Option String) → IsLeft d path text files k (remove_old d path text staged fault)
      removed (some m) = inl (give_up-same staged "removing existing" m ∙ same)
      removed none = rename-IsLeft files staged d.rename_fault same

      modes : (fault : Option String) → IsLeft d path text files k (chmod d path text staged fault)
      modes (some m) = inl (give_up-same staged "chmod" m ∙ same)
      modes none = removed d.remove_fault

  write_file-IsLeft : (files : Files) → IsLeft d path text files k (write_file d path text files)
  unfolding write_file
  write_file-IsLeft files = created d.create_fault
    where
      filled : (fault : Option String) → IsLeft d path text files k (fill d path text files fault)
      filled (some m) =
          inl (give_up-same (put d.tmp d.partial files) "writing" m ∙ put_aside d.partial files)
      filled none = staged-IsLeft files (put d.tmp text files) d.close_fault (put_aside text files)

      created :
          (fault : Option String) → IsLeft d path text files k (create d path text files fault)
      created (some m) = inl refl
      created none = filled d.write_fault

module _ (nfkc : String → String) (date : ℕ → String) (version : String) where
  -- `WriteLRC` writes a file as a whole or not at all. For a song with something to save, a name that
  -- is not refused, a directory within its root, and a path that is a stem in a folder with the
  -- extension of the song's kind: it returns an error exactly if one of the calls of the file system
  -- fails (creating, filling, closing, setting the mode of and renaming the temporary file, or
  -- removing the old one). With an error, a path other than the temporary file's has what it had, or
  -- it is the written path and has nothing. With none, the written path has the whole content of the
  -- song's kind, the same stem with the extension of the other format has nothing unless its removal
  -- fails, which is passed over, and no other path but the temporary file's has changed.
  pub write_lrc-LeftAt :
      (d : Disk) (bilingual : Bool) (song : Song) (filename name outdir parent stem k : String)
      (kind : Kind) (files : Files)
      → str_eq d.tmp k ≡ false
      → kind_of song ≡ some kind
      → sidecar_name nfkc song.track.artist_name song.track.track_name filename (is_synced kind)
        ≡ some name
      → d.place ≡ inr outdir
      → join outdir name ≡ parent <> "/" <> stem <> ext_of (is_synced kind)
      → has_separator stem ≡ false
      → let out = write_lrc nfkc date version d bilingual song filename files in
        LeftAt d
          (parent <> "/" <> stem <> ext_of (is_synced kind))
          (parent <> "/" <> stem <> ext_of (not (is_synced kind)))
          (content date version bilingual kind song)
          files
          k
          out
        × (is_some out.1 ≡ is_failing d)
  unfolding write_lrc
  write_lrc-LeftAt d bilingual song filename name outdir parent stem k kind files aside saved safe
        placed_at at_path bare =
      let path = sidecar parent stem (is_synced kind) in
      let stale = sidecar parent stem (not (is_synced kind)) in
      let text = content date version bilingual kind song in
      let Good : Files × Option Err → Type 0 =
        (λ out. LeftAt d path stale text files k out × (is_some out.1 ≡ is_failing d)) in
      subst (λ o. Good (of_kind nfkc date version d bilingual song filename files o)) (sym saved)
        (subst (λ o. Good (named nfkc date version d bilingual kind song files o)) (sym safe)
          (subst (λ o. Good (placed nfkc date version d bilingual kind song name files o))
            (sym placed_at)
            (subst (λ p. Good (write_file d p text files)) (sym at_path)
              (
                IsLeft-LeftAt d parent stem text k (is_synced kind) files
                    (write_file d path text files) bare
                    (write_file-IsLeft d path text k aside files),
                write_file-fails d path text files,
              ))))
