-- ===== src/Queue/Listing/Totals.antt =====
-- The counts of internal/queue/queue.go are exact.
use mxlrcgo_svc.Common.{
  ℕ, zero, suc, ◌≡◌, refl, ◌∙◌, ap, String, Bool, false, Option, none, some, List, [], ◌∷◌, str_eq,
  eq_iff, count_if, keep, if◌then◌else◌, arith,
}
use mxlrcgo_svc.Common.Assoc.{lookup, lookup-put}
use mxlrcgo_svc.Queue.{failed, has_status, Row, Store}
use mxlrcgo_svc.Queue.Listing.{
  status_text, number, count_by, count_by_status, reason, count_failures_by_reason,
}

-- No entry for a text that no row has.
abbrev pub counted : ℕ → Option ℕ
counted zero = none
counted (suc n) = some (suc n)

number-counted : (n : ℕ) → number (counted n) ≡ n
number-counted zero = refl
number-counted (suc n) = refl

lookup-count_by :
    (text : Row → String) (k : String) (rows : List Row)
    → lookup k (count_by text rows) ≡ counted (count_if (λ r. str_eq (text r) k) rows)
unfolding count_by
lookup-count_by text k [] = unfold lookup in refl
lookup-count_by text k (r ∷ rows) =
    let n = count_if (λ x. str_eq (text x) k) rows in
    lookup-put (text r) k _ (count_by text rows)
    ∙ ground (
      arith,
      eq_iff (text r) k,
      lookup-count_by text k rows,
      lookup-count_by text (text r) rows,
      number-counted n,
    )

count-keep :
    (p q : Row → Bool) (rows : List Row)
    → count_if q (keep p rows) ≡ count_if (λ r. if p r then q r else false) rows
count-keep p q [] = refl
count-keep p q (r ∷ rows) = ground (arith, count-keep p q rows)

-- The counts are exact: `CountByStatus` has for each text of a status the number of rows in it, and
-- no entry if there is none; `CountFailuresByReason` has for each reason the number of failed rows
-- with that error, an empty error counting as "unknown", and no entry for any other text.
pub lookup-counts :
    (st : Store) (k : String)
    → (lookup k (count_by_status st)
        ≡ counted (count_if (λ r. str_eq (status_text r.status) k) st.rows))
      × (lookup k (count_failures_by_reason st)
          ≡ counted (
              count_if
                (λ r. if has_status failed r.status then str_eq (reason r) k else false)
                st.rows))
unfolding count_by_status count_failures_by_reason
lookup-counts st k = (
  lookup-count_by (λ r. status_text r.status) k st.rows,
  lookup-count_by reason k (keep (λ r. has_status failed r.status) st.rows)
      ∙ ap counted
          (count-keep (λ r. has_status failed r.status) (λ r. str_eq (reason r) k) st.rows),
)
