-- ===== src/Queue/Sound.antt =====
-- The table of internal/queue/queue.go keeps its keys unique under every call.
use mxlrcgo_svc.Common.{
  ℕ, ◌≡◌, ◌<◌, ◌≤◌, sym, ap, subst, ◌∙◌, String, Bool, false, ◌&&◌, Option, none, some, List, [],
  ◌∷◌, ◌==◌, str_eq, arith, All, All-imp, eq_iff,
}
use mxlrcgo_svc.Queue.{Row, Store, DbQueue}
use mxlrcgo_svc.Queue.Enqueue.{has_key}
use mxlrcgo_svc.Queue.Calls.{Call, step, run}
use mxlrcgo_svc.Queue.Effects.{
  IsNext, Follows, ends, adds, keeps, drops, Unique, UniqueIds, UniqueKeys, IsNew,
}
use mxlrcgo_svc.Queue.Diagram.{step-Next}

module _ (clash : Row → Row → Bool) where
  abbrev IsClear : Option Row → Row → Type 0
  IsClear none r = Unit
  IsClear (some x) r = clash r x ≡ false

  module _ (c : Call) (left : (r s x : Row) → IsNext c r s → clash s x ≡ clash r x)
      (right : (r s x : Row) → IsNext c r s → clash x s ≡ clash x r) where
    Follows-clear :
        {o : Option Row} {rows after : List Row} (x : Row)
        → Follows c o rows after
        → All (λ r. clash x r ≡ false) rows
        → IsClear o x
        → All (λ r. clash x r ≡ false) after
    Follows-clear x ends h n = tt
    Follows-clear x adds h n = (n, tt)
    Follows-clear x (keeps {r = r} {s = s} k f) h n = (right r s x k ∙ h.0, Follows-clear x f h.1 n)
    Follows-clear x (drops d f) h n = Follows-clear x f h.1 n

    Follows-Unique :
        {o : Option Row} {rows after : List Row}
        → Follows c o rows after
        → Unique clash rows
        → All (IsClear o) rows
        → Unique clash after
    Follows-Unique ends h n = tt
    Follows-Unique adds h n = (tt, tt)
    Follows-Unique (keeps {r = r} {s = s} k f) h n = (
      All-imp (λ x. clash r x ≡ false) (λ x. clash s x ≡ false) _ (λ x e. left r s x k ∙ e)
          (Follows-clear r f h.0 n.0),
      Follows-Unique f h.1 n.1,
    )
    Follows-Unique (drops d f) h n = Follows-Unique f h.1 n.1

-- The keys are unique, and every id is below the next one.
pub record IsSound (st : Store) : Type 0 where
  pub ids : UniqueIds st.rows
  pub keys : UniqueKeys st.rows
  pub below : All (λ r. r.id < st.next_id) st.rows

abbrev IsBelow : ℕ → Option Row → Type 0
IsBelow m none = Unit
IsBelow m (some x) = x.id < m

Follows-below :
    (c : Call) (n m : ℕ) {o : Option Row} {rows after : List Row}
    → Follows c o rows after
    → All (λ r. r.id < n) rows
    → n ≤ m
    → IsBelow m o
    → All (λ r. r.id < m) after
Follows-below c n m ends h le d = tt
Follows-below c n m adds h le d = (d, tt)
Follows-below c n m (keeps {r = r} {s = s} k f) h le d =
    (subst (λ i. i < m) (sym k.same_id) (omega (arith, h.0)), Follows-below c n m f h.1 le d)
Follows-below c n m (drops g f) h le d = Follows-below c n m f h.1 le d

abbrev same_id : Row → Row → Bool
same_id r x = x.id == r.id

abbrev same_keys : Row → Row → Bool
same_keys r x = has_key r.artist_key r.title_key x

same_id-left : (c : Call) (r s x : Row) → IsNext c r s → same_id s x ≡ same_id r x
same_id-left c r s x k = ap (λ i. x.id == i) k.same_id

same_id-right : (c : Call) (r s x : Row) → IsNext c r s → same_id x s ≡ same_id x r
same_id-right c r s x k = ap (λ i. i == x.id) k.same_id

same_keys-left : (c : Call) (r s x : Row) → IsNext c r s → same_keys s x ≡ same_keys r x
same_keys-left c r s x k =
    ap (λ a. has_key a s.title_key x) k.same_artist
    ∙ ap (λ t. has_key r.artist_key t x) k.same_title

same_keys-right : (c : Call) (r s x : Row) → IsNext c r s → same_keys x s ≡ same_keys x r
same_keys-right c r s x k =
    ap (λ a. str_eq a x.artist_key && str_eq s.title_key x.title_key) k.same_artist
    ∙ ap (λ t. str_eq r.artist_key x.artist_key && str_eq t x.title_key) k.same_title

same_keys_sym : (r x : Row) → same_keys x r ≡ false → same_keys r x ≡ false
same_keys_sym r x h = grind (
  arith,
  eq_iff r.artist_key x.artist_key,
  eq_iff x.artist_key r.artist_key,
  eq_iff r.title_key x.title_key,
  eq_iff x.title_key r.title_key,
)

All-Unit : (rows : List Row) → All (λ r. Unit {0}) rows
All-Unit [] = tt
All-Unit (r ∷ rows) = (tt, All-Unit rows)

Follows-IsSound :
    (c : Call) (st after : Store) (o : Option Row)
    → Follows c o st.rows after.rows
    → IsNew st after o
    → IsSound st
    → IsSound after
Follows-IsSound c st after none f n s = record {
  ids = Follows-Unique same_id c (same_id-left c) (same_id-right c) f s.ids (All-Unit st.rows);
  keys =
      Follows-Unique same_keys c (same_keys-left c) (same_keys-right c) f s.keys (All-Unit st.rows);
  below = Follows-below c st.next_id after.next_id f s.below (omega (arith, n)) tt;
}
Follows-IsSound c st after (some x) f (p, e, m, k) s = record {
  ids =
      Follows-Unique same_id c (same_id-left c) (same_id-right c) f s.ids
        (All-imp _ _ st.rows (λ r l. ground (arith, e)) s.below);
  keys =
      Follows-Unique same_keys c (same_keys-left c) (same_keys-right c) f s.keys
        (All-imp _ _ st.rows (λ r l. same_keys_sym r x l) k);
  below =
      Follows-below c st.next_id after.next_id f s.below (omega (arith, m)) (omega (arith, e, m));
}

module _ (normalize_key : String → String) (q : DbQueue) where
  pub step-IsSound : (st : Store) (c : Call) → IsSound st → IsSound (step normalize_key q st c)
  step-IsSound st c s =
      let n = step-Next normalize_key q st c s.ids in
      Follows-IsSound c st (step normalize_key q st c) n.added n.rows n.new s

  -- Through any sequence of calls a sound table stays sound: ids and pairs of normalised keys are
  -- unique, so a track has at most one row, and every id is below the next one.
  pub run-IsSound : (st : Store) (cs : List Call) → IsSound st → IsSound (run normalize_key q st cs)
  unfolding run
  run-IsSound st [] s = s
  run-IsSound st (c ∷ cs) s = run-IsSound (step normalize_key q st c) cs (step-IsSound st c s)
