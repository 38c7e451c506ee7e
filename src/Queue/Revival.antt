-- ===== src/Queue/Revival.antt =====
-- Retiring a row of internal/queue/queue.go and reviving it.
use mxlrcgo_svc.Common.{
  ℕ, ◌≡◌, refl, sym, ap, ◌∙◌, Bool, true, not, ◌&&◌, ◌||◌, none, some, inl, inr, List, [], ◌∷◌,
  ◌==◌, keep, if◌then◌else◌, arith, All, any, ==_iff, Bool-cases,
}
use mxlrcgo_svc.Queue.{
  pending, processing, done, deferred, has_status, Row, Store, format_time, update, find, by_id,
  in_status, set_row, update_returning,
}
use mxlrcgo_svc.Queue.Results.{retire_miss}
use mxlrcgo_svc.Queue.Recheck.{recheck_retired}
use mxlrcgo_svc.Queue.{ScanRow, is_linked, priority_miss}
use mxlrcgo_svc.Queue.Results.{retired_row, finished, finish_scans}
use mxlrcgo_svc.Queue.Recheck.{revived, is_retired}
use mxlrcgo_svc.Queue.Lookup.{find-update, find-in_status, find-updated, passes}

-- Whether a linked scan result is pending.
abbrev pub IsOpen : List (ℕ × ℕ) → ℕ → ScanRow → Type 0
IsOpen links i s = (not (is_linked links i s) || has_status pending s.status) ≡ true

any-keep :
    (p : Row → Bool) (links : List (ℕ × ℕ)) (i : ℕ) (s : ScanRow) (rows : List Row) (r : Row)
    → find (by_id i) rows ≡ some r
    → p r ≡ true
    → is_linked links i s ≡ true
    → any (λ x. is_linked links x.id s) (keep p rows) ≡ true
any-keep p links i s [] r e h l = absurd (cc)
any-keep p links i s (x ∷ rows) r e h l = elim (Bool-cases (x.id == i)) [
  | inl here ↦
      let same : some x ≡ some r =
        ap (λ b. if b then some x else find (by_id i) rows) (sym here) ∙ e in
      let kept : p x ≡ true = ap (passes p) same ∙ h in
      let linked : is_linked links x.id s ≡ true =
        ap (λ j. is_linked links j s) ((==_iff x.id i).0 here) ∙ l in
      rw kept (ground (arith, linked))
  | inr there ↦
      let ih =
        any-keep p links i s rows r
          (ap (λ b. if b then some x else find (by_id i) rows) (sym there) ∙ e) h l in
      elim (Bool-cases (p x)) [ inl kept ↦ rw kept (ground (arith, ih)) | inr cut ↦ rw cut ih ]
]

-- A scan result as a retirement and then a re-check leave it.
abbrev after_both : List (ℕ × ℕ) → ℕ → (ScanRow → Bool) → ScanRow → ScanRow
after_both links i chosen s =
    let finished =
      if is_linked links i s && not (has_status done s.status)
      then record s { status = done }
      else s in
    if chosen finished && has_status done finished.status && true
    then record finished { status = pending }
    else finished

after_both-IsOpen :
    (links : List (ℕ × ℕ)) (i : ℕ) (chosen : ScanRow → Bool) (s : ScanRow)
    → ((t : ScanRow) → is_linked links i t ≡ true → chosen t ≡ true)
    → IsOpen links i (after_both links i chosen s)
after_both-IsOpen links i chosen s h = elim (Bool-cases (is_linked links i s)) [
  | inr free ↦ rw free (elim (Bool-cases (chosen s && has_status done s.status && true)) [
    | inl taken ↦ rw taken (rw free)
    | inr left ↦ rw left (rw free)
  ])
  | inl linked ↦ elim (Bool-cases (has_status done s.status)) [
    | inl over ↦ rw (linked) (rw (over) (rw (h s linked) (rw over (rw linked))))
    | inr going ↦ rw (linked) (rw (going) (rw (h (record s { status = done }) linked) (rw linked)))
  ]
]

All-IsOpen :
    (links : List (ℕ × ℕ)) (i : ℕ) (chosen : ScanRow → Bool) (scans : List ScanRow)
    → ((t : ScanRow) → is_linked links i t ≡ true → chosen t ≡ true)
    → All (IsOpen links i) (
        update
          (λ s. chosen s && has_status done s.status && true)
          (λ s. record s { status = pending })
          (update
            (λ s. is_linked links i s && not (has_status done s.status))
            (λ s. record s { status = done })
            scans))
All-IsOpen links i chosen [] h = tt
All-IsOpen links i chosen (s ∷ scans) h =
    (after_both-IsOpen links i chosen s h, All-IsOpen links i chosen scans h)

-- Retirement is not the end. A row that a worker retires at the miss limit is done, and so are its
-- scan results; a later re-check of the whole queue finds the row, as deferred, at the lowest
-- priority, ready at once, with the same number of misses and with no trace of the retirement, and
-- every scan result linked to it pending again.
pub retire-recheck :
    (st : Store) (now later i : ℕ) (r : Row)
    → find (by_id i) st.rows ≡ some r
    → has_status processing r.status ≡ true
    → (st' : Store) × (retire_miss now i st ≡ some (st', retired_row now r))
      × (find (by_id i) (recheck_retired later none st').0.rows
          ≡ some (record r {
            status = deferred;
            priority = priority_miss;
            next_attempt_at = format_time later;
            last_error = "";
            completed_at = none;
          }))
      × All (IsOpen st.links i) (recheck_retired later none st').0.scans
unfolding retire_miss update_returning recheck_retired
retire-recheck st now later i r e busy =
    let retired = update (in_status i processing) (retired_row now) st.rows in
    let found = find-updated i processing (retired_row now) st.rows r (λ x. refl) e busy in
    let revivable : Row → Bool = (λ x. is_retired x && true) in
    (
      finish_scans i (record st { rows = retired }),
      ap (λ o. finished i (set_row (in_status i processing) (retired_row now) st o))
          (find-in_status i processing st.rows r e busy),
      find-update (by_id i) revivable (revived later) retired (retired_row now r) (λ x. refl) found
          ∙ ap some refl,
      All-IsOpen st.links i (λ s. any (λ x. is_linked st.links x.id s) (keep revivable retired))
          st.scans
          (λ s l. any-keep revivable st.links i s retired (retired_row now r) found refl l),
    )
