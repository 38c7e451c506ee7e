-- ===== src/Lyrics.antt =====
-- internal/lyrics: `WriteLRC` of writer.go and `Slugify` of slugify.go. NFKC stands on a Unicode
-- library, and the text of a date on Go's time, so both are parameters.
pub mod Name
pub mod Content
pub mod Stale
pub mod Written
pub mod Derived
mod Examples
use mxlrcgo_svc.Common.{
  ℕ, String, Bool, true, false, not, ◌&&◌, Option, none, some, ◌⊎◌, inl, inr, List, [], ◌∷◌, str_eq,
  if◌then◌else◌,
}
use Prim.Native.String.{◌++◌ as ◌<>◌}
use mxlrcgo_svc.Common.Assoc.{lookup, put, delete}
use mxlrcgo_svc.Models.{Song}
use mxlrcgo_svc.Errors.{Err, other, wrapped}
use mxlrcgo_svc.Paths.{split, cut_ext, clean}
use mxlrcgo_svc.Lyrics.Name.{sidecar_name}
use mxlrcgo_svc.Lyrics.Content.{Kind, synced, kind_of, is_synced, content}

-- `filepath.Join` of a directory and a name that is not empty.
unfoldable pub join : String → String → String
unfolding clean
join outdir name = clean (if str_eq outdir "" then name else outdir <> "/" <> name)

-- The sidecar of the other format, by the extension.
abbrev pub other_ext : String → Option String
other_ext ext =
    if str_eq ext ".lrc" then some ".txt" else if str_eq ext ".txt" then some ".lrc" else none

abbrev pub with_ext : String → String → Option String → Option String
with_ext folder stem none = none
with_ext folder stem (some ext) = some (folder <> stem <> ext)

unfoldable pub stale_sidecar : String → Option String
unfolding split cut_ext
stale_sidecar path =
    let (folder, name) = split path in
    let (stem, ext) = cut_ext name in with_ext folder stem (other_ext ext)

-- Files by their paths, with their text.
abbrev pub Files : Type 0
Files = List (String × String)

-- What a write has from the outside: the directory behind the confinement to a root, or its refusal;
-- the name that `CreateTemp` picks; the errors of the calls; how much of the text had reached the
-- temporary file; and whether its removal and that of the stale sidecar fail, which is passed over.
pub record Disk : Type 0 where
  pub place : Err ⊎ String
  pub tmp : String
  pub create_fault : Option String
  pub write_fault : Option String
  pub partial : String
  pub close_fault : Option String
  pub chmod_fault : Option String
  pub remove_fault : Option String
  pub rename_fault : Option String
  pub keeps_tmp : Bool
  pub keeps_stale : Bool

-- The deferred clean-up behind an error.
abbrev pub give_up : Disk → Files → String → String → Files × Option Err
give_up d files m cause =
    (if d.keeps_tmp then files else delete d.tmp files, some (wrapped m (other cause)))

abbrev pub drop_stale : Bool → Option String → Files → Files
drop_stale keeps none files = files
drop_stale keeps (some path) files = if keeps then files else delete path files

-- The rename, and the stale sidecar.
abbrev pub rename : Disk → String → String → Files → Option String → Files × Option Err
rename d path text files (some m) = give_up d files "renaming" m
rename d path text files none =
    (drop_stale d.keeps_stale (stale_sidecar path) (put path text (delete d.tmp files)), none)

abbrev pub remove_old : Disk → String → String → Files → Option String → Files × Option Err
remove_old d path text files (some m) = give_up d files "removing existing" m
remove_old d path text files none = rename d path text (delete path files) d.rename_fault

abbrev pub chmod : Disk → String → String → Files → Option String → Files × Option Err
chmod d path text files (some m) = give_up d files "chmod" m
chmod d path text files none = remove_old d path text files d.remove_fault

abbrev pub close : Disk → String → String → Files → Option String → Files × Option Err
close d path text files (some m) = give_up d files "closing" m
close d path text files none = chmod d path text files d.chmod_fault

abbrev pub fill : Disk → String → String → Files → Option String → Files × Option Err
fill d path text files (some m) = give_up d (put d.tmp d.partial files) "writing" m
fill d path text files none = close d path text (put d.tmp text files) d.close_fault

abbrev pub create : Disk → String → String → Files → Option String → Files × Option Err
create d path text files (some m) = (files, some (wrapped "creating temp file" (other m)))
create d path text files none = fill d path text files d.write_fault

-- The file at its path: a temporary file, and its rename.
unfoldable pub write_file : Disk → String → String → Files → Files × Option Err
write_file d path text files = create d path text files d.create_fault

module _ (nfkc : String → String) (date : ℕ → String) (version : String) where
  abbrev pub placed : Disk → Bool → Kind → Song → String → Files → Err ⊎ String → Files × Option Err
  placed d bilingual kind song name files (inl e) = (files, some e)
  placed d bilingual kind song name files (inr outdir) =
      write_file d (join outdir name) (content date version bilingual kind song) files

  abbrev pub named : Disk → Bool → Kind → Song → Files → Option String → Files × Option Err
  named d bilingual kind song files none =
      (files, some (other "refusing to write: output filename is not a base name"))
  named d bilingual kind song files (some name) = placed d bilingual kind song name files d.place

  abbrev pub of_kind : Disk → Bool → Song → String → Files → Option Kind → Files × Option Err
  of_kind d bilingual song filename files none = (files, some (other "nothing to save"))
  of_kind d bilingual song filename files (some kind) =
      named d bilingual kind song files
        (sidecar_name nfkc song.track.artist_name song.track.track_name filename (is_synced kind))

  -- `WriteLRC`; the directory is in `place`.
  unfoldable pub write_lrc : Disk → Bool → Song → String → Files → Files × Option Err
  write_lrc d bilingual song filename files = of_kind d bilingual song filename files (kind_of song)
