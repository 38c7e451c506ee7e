-- ===== src/Lyrics/Stale.antt =====
-- The sidecar of the other format, in internal/lyrics/writer.go, by the parts of a path: its folder,
-- its stem and its extension.
use Prim.Native.String.{◌++◌ as ◌<>◌}
use Prim.Native.String.append
use Prim.Native.String.compare
use text.Mathlib.Text.{is_eq}
use mxlrcgo_svc.Common.{
  ◌≡◌, refl, sym, ap, ◌∙◌, subst, String, Bool, true, false, not, ◌||◌, some, str_eq, eq_iff, arith,
  Bool-cases, inl, inr,
}
use mxlrcgo_svc.Paths.{split, cut_ext, is_slash}
use mxlrcgo_svc.Lyrics.{stale_sidecar, with_ext, other_ext}
use mxlrcgo_svc.Lyrics.Name.{has_separator, ext_of}

-- The path of a stem in a folder, in the format.
abbrev pub sidecar : String → String → Bool → String
sidecar parent stem timed = parent <> "/" <> stem <> ext_of timed

-- No separator.
abbrev pub IsBare : String → Type 0
IsBare s = has_separator s ≡ false

append_assoc : (a b c : String) → (a <> b) <> c ≡ a <> b <> c
append_assoc String.[] b c =
    ap (λ x. x <> c) (λ i. append.nil b i) ∙ sym (λ i. append.nil (b <> c) i)
append_assoc (String.◌∷◌ x a) b c =
    ap (λ y. y <> c) (λ i. append.cons x a b i)
    ∙ (λ i. append.cons x (a <> b) c i)
    ∙ ap (λ y. String.◌∷◌ x y) (append_assoc a b c)
    ∙ sym (λ i. append.cons x a (b <> c) i)

not_empty : (a : String) → str_eq (a <> "/") "" ≡ false
not_empty String.[] = ap (λ x. str_eq x "") (λ i. append.nil "/" i)
not_empty (String.◌∷◌ x a) =
    ap (λ y. str_eq y "") (λ i. append.cons x a "/" i)
    ∙ ap is_eq (λ i. compare.cons-nil x (a <> "/") i)

split-bare : (s : String) → IsBare s → split s ≡ ("", s)
unfolding split
split-bare String.[] h = refl
split-bare (String.◌∷◌ c s) h =
    let no_slash : is_slash c ≡ false = ground (arith, h) in
    let rest : IsBare s = ground (arith, h) in rw (split-bare s rest) (rw no_slash refl)

or_true : (b : Bool) → (b || true) ≡ true
or_true true = refl
or_true false = refl

split-folder : (a s : String) → IsBare s → split (a <> "/" <> s) ≡ (a <> "/", s)
unfolding split
split-folder String.[] s h =
    ap split (
      (λ i. append.nil ("/" <> s) i)
      ∙ (λ i. append.cons "/" "" s i)
      ∙ ap (λ r. String.◌∷◌ "/" r) (λ i. append.nil s i))
    ∙ rw (split-bare s h) (ap (λ x. (x, s)) (sym (λ i. append.nil "/" i)))
split-folder (String.◌∷◌ c a) s h =
    ap split (λ i. append.cons c a ("/" <> s) i)
    ∙ rw (split-folder a s h) (
        rw (not_empty a)
          (rw (or_true (is_slash c)) (ap (λ x. (x, s)) (sym (λ i. append.cons c a "/" i)))))

cut_ext-stem :
    (a ext : String)
    → cut_ext ext ≡ ("", ext)
    → str_eq ext "" ≡ false
    → cut_ext (a <> ext) ≡ (a, ext)
unfolding cut_ext
cut_ext-stem String.[] ext e some_ext = ap cut_ext (λ i. append.nil ext i) ∙ e
cut_ext-stem (String.◌∷◌ c a) ext e some_ext =
    ap cut_ext (λ i. append.cons c a ext i) ∙ rw (cut_ext-stem a ext e some_ext) (rw some_ext refl)

cut_ext-ext_of :
    (stem : String) (timed : Bool) → cut_ext (stem <> ext_of timed) ≡ (stem, ext_of timed)
unfolding cut_ext
cut_ext-ext_of stem true = cut_ext-stem stem ".lrc" refl refl
cut_ext-ext_of stem false = cut_ext-stem stem ".txt" refl refl

pub append-IsBare : (a b : String) → IsBare a → IsBare b → IsBare (a <> b)
append-IsBare String.[] b h k = subst IsBare (sym (λ i. append.nil b i)) k
append-IsBare (String.◌∷◌ c a) b h k =
    let rest : IsBare a = ground (arith, h) in
    let more = append-IsBare a b rest k in
    subst IsBare (sym (λ i. append.cons c a b i)) (ground (arith, h, more))

ext_of-IsBare : (stem : String) (timed : Bool) → IsBare stem → IsBare (stem <> ext_of timed)
ext_of-IsBare stem true h = append-IsBare stem ".lrc" h refl
ext_of-IsBare stem false h = append-IsBare stem ".txt" h refl

module _ (parent stem : String) (bare : has_separator stem ≡ false) where
  split-sidecar :
      (timed : Bool) → split (sidecar parent stem timed) ≡ (parent <> "/", stem <> ext_of timed)
  split-sidecar timed = split-folder parent (stem <> ext_of timed) (ext_of-IsBare stem timed bare)

  other_of : (timed : Bool) → other_ext (ext_of timed) ≡ some (ext_of (not timed))
  other_of true = refl
  other_of false = refl

  -- The sidecar of the other format has the same folder and the same stem.
  pub stale_sidecar-sidecar :
      (timed : Bool)
      → stale_sidecar (sidecar parent stem timed) ≡ some (sidecar parent stem (not timed))
  unfolding stale_sidecar
  stale_sidecar-sidecar timed =
      ap (λ p. with_ext p.0 (cut_ext p.1).0 (other_ext (cut_ext p.1).1)) (split-sidecar timed)
      ∙ ap (λ p. with_ext (parent <> "/") p.0 (other_ext p.1)) (cut_ext-ext_of stem timed)
      ∙ ap (with_ext (parent <> "/") stem) (other_of timed)
      ∙ ap some (append_assoc parent "/" (stem <> ext_of (not timed)))

  ext-sidecar : (timed : Bool) → (cut_ext (split (sidecar parent stem timed)).1).1 ≡ ext_of timed
  ext-sidecar timed =
      ap (λ p. (cut_ext p.1).1) (split-sidecar timed) ∙ ap (λ p. p.1) (cut_ext-ext_of stem timed)

  formats_differ : (timed : Bool) → ext_of timed ≡ ext_of (not timed) → ⊥
  formats_differ true e = absurd (ground (arith, ap (λ x. str_eq x ".lrc") e))
  formats_differ false e = absurd (ground (arith, ap (λ x. str_eq x ".txt") e))

  -- It is another path.
  pub sidecars_differ :
      (timed : Bool) (k : String)
      → str_eq (sidecar parent stem timed) k ≡ true
      → str_eq (sidecar parent stem (not timed)) k ≡ false
  sidecars_differ timed k here = elim (Bool-cases (str_eq (sidecar parent stem (not timed)) k)) [
    | inr away ↦ away
    | inl both ↦
        let same : sidecar parent stem timed ≡ sidecar parent stem (not timed) =
          (eq_iff (sidecar parent stem timed) k).0 here
          ∙ sym ((eq_iff (sidecar parent stem (not timed)) k).0 both) in
        absurd (
          formats_differ timed (
            sym (ext-sidecar timed)
            ∙ ap (λ p. (cut_ext (split p).1).1) same
            ∙ ext-sidecar (not timed)))
  ]
