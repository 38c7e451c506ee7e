-- ===== src/Queue/Claim.antt =====
-- `Dequeue` of internal/queue/queue.go: which ready row is claimed. The numbers that SQLite's
-- `RANDOM()` draws, one for each row, are a function of the row's id.
pub mod Order
use mxlrcgo_svc.Common.{
  ℕ, String, Bool, true, false, not, ◌&&◌, ◌||◌, Option, none, some, List, [], ◌∷◌, ltb, leb, ◌==◌,
  keep, if◌then◌else◌,
}
use mxlrcgo_svc.Common.Int.{ltb_ℤ}
use mxlrcgo_svc.Queue.{
  Status, pending, processing, failed, deferred, has_status, Row, Store, DbQueue, format_time,
  by_id, update,
}

-- `status IN ('pending', 'failed', 'deferred') AND next_attempt_at <= ?`.
abbrev pub is_ready : ℕ → Row → Bool
is_ready now r =
    (has_status pending r.status || has_status failed r.status || has_status deferred r.status)
    && leb r.next_attempt_at now

-- `ORDER BY priority DESC, RANDOM()`, or `priority DESC, created_at ASC, id ASC`.
abbrev pub comes_before : Bool → (ℕ → ℕ) → Row → Row → Bool
comes_before randomized draw r s =
    ltb_ℤ s.priority r.priority
    || (not (ltb_ℤ r.priority s.priority)
        && (if randomized
            then ltb (draw r.id) (draw s.id)
            else ltb r.created_at s.created_at
              || ((r.created_at == s.created_at) && ltb r.id s.id)))

abbrev pub pick : (Row → Row → Bool) → Row → Option Row → Option Row
pick before r none = some r
pick before r (some s) = if before s r then some s else some r

-- `ORDER BY … LIMIT 1`.
unfoldable pub first : (Row → Row → Bool) → List Row → Option Row
first before [] = none
first before (r ∷ rows) = pick before r (first before rows)

abbrev pub claimed : Row → Row
claimed r = record r { status = processing }

unfoldable pub claim : Store → Option Row → Option (Store × Row)
claim st none = none
claim st (some r) = some (record st { rows = update (by_id r.id) claimed st.rows }, claimed r)

unfoldable pub dequeue : DbQueue → (ℕ → ℕ) → ℕ → Store → Option (Store × Row)
unfolding claim first
dequeue q draw now st =
    claim st (first (comes_before q.randomized draw) (keep (is_ready (format_time now)) st.rows))
