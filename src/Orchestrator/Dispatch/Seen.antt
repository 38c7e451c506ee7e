-- ===== src/Orchestrator/Dispatch/Seen.antt =====
-- How a dispatch of internal/orchestrator reads what one lane came back with.
use mxlrcgo_svc.Common.{
  suc, ◌≡◌, refl, String, Bool, true, false, Option, none, some, List, [], ◌∷◌, ◌++◌, if◌then◌else◌,
}
use mxlrcgo_svc.Models.{Song}
use mxlrcgo_svc.Errors.{Err, OutcomeClass, unavailable, classify_outcome}
use mxlrcgo_svc.Orchestrator.Suitability.{ScriptGuard, is_suitable}
use mxlrcgo_svc.Orchestrator.Dispatch.{DispatchResult, retain, rank_err}
use mxlrcgo_svc.Orchestrator.Dispatch.Best.{Report, fallback, failure, gather}

-- What the dispatch makes of a visit.
pub data Seen : Type 0 where
  skipped : Seen
  winner : Song → Seen
  reported : Report → Seen

abbrev pub seen_err : Err → OutcomeClass → Seen
seen_err e unavailable = skipped
seen_err e _ = reported (failure e)

abbrev pub seen_of : Option ScriptGuard → String → Song → Option Err → Seen
seen_of guard name song none =
    if is_suitable song guard then winner song else reported (fallback song name)
seen_of guard name song (some e) = seen_err e (classify_outcome (some e))

abbrev pub reports_of : Seen → List Report
reports_of skipped = []
reports_of (winner song) = []
reports_of (reported r) = r ∷ []

abbrev pub names_of : String → Seen → List String
names_of name skipped = []
names_of name _ = name ∷ []

abbrev pub is_winner : Seen → Bool
is_winner (winner song) = true
is_winner _ = false

pub gather-append :
    (r : DispatchResult) (xs ys : List Report) → gather r (xs ++ ys) ≡ gather (gather r xs) ys
unfolding gather
gather-append r [] ys = refl
gather-append r (fallback song name ∷ xs) ys =
    gather-append (retain song name (record r { consulted = suc r.consulted })) xs ys
gather-append r (failure e ∷ xs) ys =
    gather-append
      (rank_err e (classify_outcome (some e)) (record r { consulted = suc r.consulted })) xs ys

pub seen_err-ne-winner : (e : Err) (c : OutcomeClass) (song : Song) → seen_err e c ≡ winner song → ⊥
seen_err-ne-winner e unavailable song h = cc
seen_err-ne-winner e _ song h = cc
