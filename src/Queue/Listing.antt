-- ===== src/Queue/Listing.antt =====
-- What internal/queue/queue.go reports of its table: `List`, and the counts by status and by the
-- reason of a failure; and the hits and misses of the provider lanes.
pub mod Front
pub mod Totals
mod Examples
use mxlrcgo_svc.Common.{
  ℕ, zero, suc, String, Bool, true, false, ◌&&◌, Option, none, some, List, [], ◌∷◌, map, ltb, keep,
  str_eq, if◌then◌else◌,
}
use mxlrcgo_svc.Common.Int.{ℤ, positive, pos_part}
use mxlrcgo_svc.Common.Assoc.{lookup, put}
use mxlrcgo_svc.Queue.{Status, pending, processing, done, failed, deferred, has_status, Row, Store}
use mxlrcgo_svc.Queue.Claim.{comes_before}
use mxlrcgo_svc.Queue.Counters.{Counts}

abbrev pub status_text : Status → String
status_text pending = "pending"
status_text processing = "processing"
status_text done = "done"
status_text failed = "failed"
status_text deferred = "deferred"

-- `status` is "" for no filter, and a limit that is not positive is none.
pub record ListFilter : Type 0 where
  pub status : String
  pub limit : ℤ

-- `ORDER BY priority DESC, created_at ASC, id ASC`.
unfoldable pub insert : Row → List Row → List Row
insert r [] = r ∷ []
insert r (s ∷ rows) =
    let further = s ∷ insert r rows in
    if comes_before false (λ i. 0) s r then further else r ∷ s ∷ rows

unfoldable pub sort : List Row → List Row
unfolding insert
sort [] = []
sort (r ∷ rows) = insert r (sort rows)

unfoldable pub take : ℕ → List Row → List Row
take zero rows = []
take (suc n) [] = []
take (suc n) (r ∷ rows) = r ∷ take n rows

abbrev pub is_listed : String → Row → Bool
is_listed status r = if str_eq status "" then true else str_eq (status_text r.status) status

unfoldable pub list_items : ListFilter → Store → List Row
unfolding sort take
list_items filter st =
    let items = sort (keep (is_listed filter.status) st.rows) in
    if positive filter.limit then take (pos_part filter.limit) items else items

abbrev pub number : Option ℕ → ℕ
number none = 0
number (some n) = n

-- `SELECT text, COUNT(*) … GROUP BY text`.
unfoldable pub count_by : (Row → String) → List Row → List (String × ℕ)
count_by text [] = []
count_by text (r ∷ rows) =
    let counts = count_by text rows in put (text r) (suc (number (lookup (text r) counts))) counts

unfoldable pub count_by_status : Store → List (String × ℕ)
unfolding count_by
count_by_status st = count_by (λ r. status_text r.status) st.rows

-- `COALESCE(NULLIF(last_error, ''), 'unknown')`.
abbrev pub reason : Row → String
reason r = if str_eq r.last_error "" then "unknown" else r.last_error

unfoldable pub count_failures_by_reason : Store → List (String × ℕ)
unfolding count_by
count_failures_by_reason st = count_by reason (keep (λ r. has_status failed r.status) st.rows)

unfoldable pub provider_hits : List (String × Counts) → List (String × ℕ)
provider_hits t = map (λ e. (e.0, e.1.hits)) (keep (λ e. ltb 0 e.1.hits) t)

unfoldable pub provider_misses : List (String × Counts) → List (String × ℕ)
provider_misses t = map (λ e. (e.0, e.1.misses)) (keep (λ e. ltb 0 e.1.misses) t)
