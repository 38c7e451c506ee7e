-- ===== src/Queue/Cancel/Paths.antt =====
-- What a cancellation by library leaves, in internal/queue/queue.go.
use mxlrcgo_svc.Common.{
  ℕ, ◌+◌, ◌≡◌, refl, sym, ap, ◌∙◌, Bool, true, false, not, ◌&&◌, ◌||◌, List, [], ◌∷◌, ◌==◌, keep,
  map, count_if, any, str_eq, length, if◌then◌else◌, All, arith, Bool-cases, inl, inr,
  length-keep-le,
}
use mxlrcgo_svc.Models.{OutputPath}
use mxlrcgo_svc.Queue.{pending, failed, deferred, has_status, Row, Store}
use mxlrcgo_svc.Queue.Cancel.{
  is_candidate, is_kept, deletes, shrinks, shrunk, cancel_rows, count_cancel_by_library,
  cancel_by_library,
}

-- A scan result of another library that is linked to the row writes to the path.
abbrev pub wanted_elsewhere : ℕ → Store → Row → OutputPath → Bool
wanted_elsewhere library st r p =
    any
      (λ s.
        any (λ l. (l.0 == r.id) && (l.1 == s.id)) st.links
        && not (s.library_id == library)
        && (str_eq s.output.outdir p.outdir && str_eq s.output.filename p.filename))
      st.scans

-- The row is pending, failed or deferred, and a scan result of the library is linked to it.
abbrev pub is_touched : ℕ → Store → Row → Bool
is_touched library st r =
    (has_status pending r.status || has_status failed r.status || has_status deferred r.status)
    && any (λ s. any (λ l. (l.0 == r.id) && (l.1 == s.id)) st.links && (s.library_id == library))
        st.scans

-- What the cancellation should leave of a row, and whether the row should stay.
abbrev pub left_of : ℕ → Store → Row → Row
left_of library st r =
    if is_touched library st r
    then record r {
      work = record r.work {
        output_paths = keep (wanted_elsewhere library st r) r.work.output_paths;
      };
    }
    else r

abbrev pub has_place : ℕ → Store → Row → Bool
has_place library st r =
    not (is_touched library st r) || any (wanted_elsewhere library st r) r.work.output_paths

-- Every path of the row is wanted by a scan result of another library, and there is one.
abbrev pub is_wanted : ℕ → Store → Row → Bool
is_wanted library st r =
    not (length r.work.output_paths == 0)
    && (length (keep (wanted_elsewhere library st r) r.work.output_paths)
        == length r.work.output_paths)

keep_idem : (p : OutputPath → Bool) (ps : List OutputPath) → keep p (keep p ps) ≡ keep p ps
keep_idem p [] = refl
keep_idem p (x ∷ ps) = elim (Bool-cases (p x)) [
  | inl kept ↦ rw kept (rw kept (ap (λ qs. x ∷ qs) (keep_idem p ps)))
  | inr cut ↦ rw cut (keep_idem p ps)
]

-- A row that stays is not touched, or its paths are all wanted elsewhere.
abbrev pub IsCancelled : ℕ → Store → Row → Type 0
IsCancelled library st r = (not (is_touched library st r) || is_wanted library st r) ≡ true

shrunk-IsCancelled :
    (library : ℕ) (st : Store) (r : Row)
    → deletes library st r ≡ false
    → IsCancelled library st (if shrinks library st r then shrunk library st r else r)
shrunk-IsCancelled library st r h = elim (Bool-cases (shrinks library st r)) [
  | inl cut ↦
      rw cut (
        ground (arith, h, cut, ap length (keep_idem (is_kept library st r.id) r.work.output_paths)))
  | inr whole ↦
      rw whole
        (ground (arith, h, whole, length-keep-le (is_kept library st r.id) r.work.output_paths))
]

cancel_rows-IsCancelled :
    (library : ℕ) (st : Store) (rows : List Row)
    → All (IsCancelled library st) (cancel_rows library st rows)
      × (length (cancel_rows library st rows) + count_if (deletes library st) rows ≡ length rows)
unfolding cancel_rows
cancel_rows-IsCancelled library st [] = (tt, refl)
cancel_rows-IsCancelled library st (r ∷ rows) = elim (Bool-cases (deletes library st r)) [
  | inl goes ↦
      let ih = cancel_rows-IsCancelled library st rows in rw goes (ih.0, omega (arith, ih.1))
  | inr left ↦
      let ih = cancel_rows-IsCancelled library st rows in
      rw left ((shrunk-IsCancelled library st r left, ih.0), omega (arith, ih.1))
]

keep-empty :
    (p : OutputPath → Bool) (ps : List OutputPath) → (length (keep p ps) == 0) ≡ not (any p ps)
keep-empty p [] = refl
keep-empty p (x ∷ ps) = elim (Bool-cases (p x)) [
  | inl kept ↦ rw kept (ground arith)
  | inr cut ↦ rw cut (keep-empty p ps)
]

keep-whole :
    (p : OutputPath → Bool) (ps : List OutputPath) → length (keep p ps) ≡ length ps → keep p ps ≡ ps
keep-whole p [] h = refl
keep-whole p (x ∷ ps) h = elim (Bool-cases (p x)) [
  | inl kept ↦ rw kept (ap (λ qs. x ∷ qs) (keep-whole p ps (ground (arith, h, kept))))
  | inr cut ↦ absurd (ground (arith, h, cut, length-keep-le p ps))
]

with_paths : Row → List OutputPath → Row
with_paths r ps = record r { work = record r.work { output_paths = ps } }

-- A row that is not deleted is left as it should be, and one that is deleted has no place.
stays-left_of :
    (library : ℕ) (st : Store) (r : Row)
    → deletes library st r ≡ false
    → (has_place library st r ≡ true)
      × ((if shrinks library st r then shrunk library st r else r) ≡ left_of library st r)
unfolding with_paths
stays-left_of library st r h =
    let p = wanted_elsewhere library st r in
    let empty = keep-empty p r.work.output_paths in
    elim (Bool-cases (is_candidate library st r)) [
      | inl wanted ↦ elim (Bool-cases (shrinks library st r)) [
        | inl cut ↦ (ground (arith, h, empty, wanted), rw cut (rw wanted refl))
        | inr whole ↦ (
          ground (arith, h, empty, wanted),
          rw whole (
              rw wanted (
                sym (
                  ap (with_paths r)
                    (keep-whole p r.work.output_paths (ground (arith, h, whole, wanted)))))),
        )
      ]
      | inr other ↦ (rw other refl, rw other refl)
    ]

goes-has_place :
    (library : ℕ) (st : Store) (r : Row)
    → deletes library st r ≡ true
    → has_place library st r ≡ false
goes-has_place library st r h =
    ground (arith, h, keep-empty (wanted_elsewhere library st r) r.work.output_paths)

cancel_rows-left_of :
    (library : ℕ) (st : Store) (rows : List Row)
    → cancel_rows library st rows ≡ map (left_of library st) (keep (has_place library st) rows)
unfolding cancel_rows
cancel_rows-left_of library st [] = refl
cancel_rows-left_of library st (r ∷ rows) = elim (Bool-cases (deletes library st r)) [
  | inl goes ↦ rw goes (rw (goes-has_place library st r goes) (cancel_rows-left_of library st rows))
  | inr left ↦
      let (place, same) = stays-left_of library st r left in
      rw left (
        rw place (
          ap (λ x. x ∷ cancel_rows library st rows) same
          ∙ ap (λ xs. left_of library st r ∷ xs) (cancel_rows-left_of library st rows)))
]

-- After a library is cancelled, no row that is pending, failed or deferred and linked to the library
-- writes to a place that only this library wanted: each such row has at least one path, and a scan
-- result of another library that is linked to the row wants every one of them. Of those rows exactly
-- the ones with such a path are left, in order, each with just the paths of that kind; every other
-- row (done and processing rows included) stays as it was. The number of rows deleted is the number
-- that the dry run announces.
pub cancel_by_library-IsCancelled :
    (library : ℕ) (st : Store)
    → let (after, (deleted, updated)) = cancel_by_library library st in
      All (IsCancelled library st) after.rows
      × (after.rows ≡ map (left_of library st) (keep (has_place library st) st.rows))
      × (length after.rows + (count_cancel_by_library library st).0 ≡ length st.rows)
      × ((deleted, updated) ≡ count_cancel_by_library library st)
unfolding cancel_by_library count_cancel_by_library
cancel_by_library-IsCancelled library st =
    let (kept, counted) = cancel_rows-IsCancelled library st st.rows in
    (kept, cancel_rows-left_of library st st.rows, counted, refl)
