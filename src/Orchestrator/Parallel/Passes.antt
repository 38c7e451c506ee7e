-- ===== src/Orchestrator/Parallel/Passes.antt =====
-- Parallel mode of internal/orchestrator/parallel.go over any number of results.
use mathlib.Core.List.{append_assoc, append-nil}
use mxlrcgo_svc.Common.{
  ℕ, suc, ◌-◌, ◌<◌, ◌≡◌, refl, sym, ap, ◌∙◌, String, Bool, true, false, Option, none, some, inl,
  inr, List, [], ◌∷◌, ◌++◌, map, length, All, All-imp, arith,
}
use mxlrcgo_svc.Models.{Song}
use mxlrcgo_svc.Orchestrator.Suitability.{ScriptGuard}
use mxlrcgo_svc.Orchestrator.Dispatch.{DispatchResult}
use mxlrcgo_svc.Orchestrator.Dispatch.Best.{Report, gather}
use mxlrcgo_svc.Orchestrator.Dispatch.Seen.{
  Seen, skipped, winner, reported, reports_of, names_of, is_winner, gather-append,
}
use mxlrcgo_svc.Orchestrator.Parallel.{
  LaneResult, Arrival, arrives, Race, settle, after_result, collect,
}
use mxlrcgo_svc.Orchestrator.Parallel.Collector.{
  seen, is_synced, absorb, held_after, pass, upgrade_after, select-pass,
}

-- Every lane's result in its turn, with a live context.
abbrev pub results : List LaneResult → List Arrival
results rs = map (λ res. arrives res none) rs

abbrev pub passes : Option ScriptGuard → List LaneResult → Race → Race
passes guard [] r = r
passes guard (res ∷ rs) r = passes guard rs (pass guard res r)

-- The lanes that were consulted, in the order in which they reported.
abbrev pub consulted : Option ScriptGuard → List LaneResult → List String
consulted guard [] = []
consulted guard (res ∷ rs) = names_of res.name (seen guard res) ++ consulted guard rs

abbrev pub reports : Option ScriptGuard → List LaneResult → List Report
reports guard [] = []
reports guard (res ∷ rs) = reports_of (seen guard res) ++ reports guard rs

abbrev pub IsUnsynced : Option ScriptGuard → LaneResult → Type 0
IsUnsynced guard res = is_synced (seen guard res) ≡ false

pub passes-pending :
    (guard : Option ScriptGuard) (rs : List LaneResult) (r : Race)
    → (passes guard rs r).pending ≡ r.pending - length rs
passes-pending guard [] r = omega arith
passes-pending guard (res ∷ rs) r = omega (arith, passes-pending guard rs (pass guard res r))

pub passes-consulted :
    (guard : Option ScriptGuard) (rs : List LaneResult) (r : Race)
    → (passes guard rs r).consulted ≡ r.consulted ++ consulted guard rs
passes-consulted guard [] r = sym (append-nil r.consulted)
passes-consulted guard (res ∷ rs) r =
    passes-consulted guard rs (pass guard res r) ∙ append_assoc r.consulted _ _

after_result-pending : (lanes : ℕ) (r : Race) → 0 < r.pending → after_result lanes none r ≡ inl r
unfolding after_result
after_result-pending lanes r h = ground arith

after_result-settled :
    (lanes : ℕ) (r : Race) → r.pending ≡ 0 → after_result lanes none r ≡ inr (settle lanes none r)
unfolding after_result
after_result-settled lanes r h = ground arith

pub collect-passes :
    (guard : Option ScriptGuard) (lanes : ℕ) (rs : List LaneResult) (rest : List Arrival) (r : Race)
    → All (IsUnsynced guard) rs
    → length rs < r.pending
    → collect guard lanes r (results rs ++ rest) ≡ collect guard lanes (passes guard rs r) rest
unfolding collect
collect-passes guard lanes [] rest r h p = refl
collect-passes guard lanes (res ∷ rs) rest r h p =
    rw (select-pass guard lanes none res r h.0, collect)
      (rw (after_result-pending lanes (pass guard res r) (omega arith), collect)
        (collect-passes guard lanes rs rest (pass guard res r) h.1 (omega arith)))

-- With nothing held, a result that brings no suitable song holds nothing and is gathered.
abbrev pub IsQuiet : Option ScriptGuard → LaneResult → Type 0
IsQuiet guard res = is_winner (seen guard res) ≡ false

quiet-unsynced : (s : Seen) → is_winner s ≡ false → is_synced s ≡ false
quiet-unsynced skipped h = refl
quiet-unsynced (reported r) h = refl
quiet-unsynced (winner song) h = absurd (cc)

pub quiet-All :
    (guard : Option ScriptGuard) (rs : List LaneResult)
    → All (IsQuiet guard) rs
    → All (IsUnsynced guard) rs
quiet-All guard rs h =
    All-imp (IsQuiet guard) (IsUnsynced guard) rs (λ res. quiet-unsynced (seen guard res)) h

held_after-quiet :
    (name : String) (s : Seen) (held : Option (Song × String))
    → is_winner s ≡ false
    → held_after name s held ≡ held
held_after-quiet name skipped held h = refl
held_after-quiet name (reported r) held h = refl
held_after-quiet name (winner song) held h = absurd (cc)

absorb-quiet :
    (s : Seen) (d : DispatchResult) → is_winner s ≡ false → absorb s d ≡ gather d (reports_of s)
unfolding absorb gather
absorb-quiet skipped d h = refl
absorb-quiet (reported r) d h = refl
absorb-quiet (winner song) d h = absurd (cc)

pub passes-quiet :
    (guard : Option ScriptGuard) (rs : List LaneResult) (r : Race)
    → All (IsQuiet guard) rs
    → ((passes guard rs r).held ≡ r.held)
      × ((passes guard rs r).result ≡ gather r.result (reports guard rs))
passes-quiet guard [] r h = (refl, unfold gather in refl)
passes-quiet guard (res ∷ rs) r h =
    let ih = passes-quiet guard rs (pass guard res r) h.1 in
    (
      ih.0 ∙ held_after-quiet res.name (seen guard res) r.held h.0,
      ih.1
          ∙ ap (λ d. gather d (reports guard rs)) (absorb-quiet (seen guard res) r.result h.0)
          ∙ sym (gather-append r.result (reports_of (seen guard res)) (reports guard rs)),
    )

keep_first-held :
    (name : String) (s : Seen) (h : Song × String) → held_after name s (some h) ≡ some h
keep_first-held name skipped h = refl
keep_first-held name (reported r) h = refl
keep_first-held name (winner song) h = refl

pub passes-held :
    (guard : Option ScriptGuard) (rs : List LaneResult) (r : Race) (h : Song × String)
    → r.held ≡ some h
    → (passes guard rs r).held ≡ some h
passes-held guard [] r h e = e
passes-held guard (res ∷ rs) r h e =
    passes-held guard rs (pass guard res r) h
      (ap (held_after res.name (seen guard res)) e ∙ keep_first-held res.name (seen guard res) h)

-- Once every lane has reported, the race is settled.
pub collect-All :
    (guard : Option ScriptGuard) (lanes : ℕ) (res : LaneResult) (rs : List LaneResult)
    (rest : List Arrival) (r : Race)
    → All (IsUnsynced guard) (res ∷ rs)
    → suc (length rs) ≡ r.pending
    → collect guard lanes r (results (res ∷ rs) ++ rest)
      ≡ some (settle lanes none (passes guard (res ∷ rs) r))
unfolding collect
collect-All guard lanes res [] rest r h p =
    rw (select-pass guard lanes none res r h.0, collect)
      (rw (after_result-settled lanes (pass guard res r) (omega arith), collect))
collect-All guard lanes res (next ∷ rs) rest r h p =
    rw (select-pass guard lanes none res r h.0, collect)
      (rw (after_result-pending lanes (pass guard res r) (omega arith), collect)
        (collect-All guard lanes next rs rest (pass guard res r) h.1 (omega arith)))

passes-append :
    (guard : Option ScriptGuard) (xs ys : List LaneResult) (r : Race)
    → passes guard (xs ++ ys) r ≡ passes guard ys (passes guard xs r)
passes-append guard [] ys r = refl
passes-append guard (x ∷ xs) ys r = passes-append guard xs ys (pass guard x r)

-- The first suitable song stays held, whatever follows it.
pub passes-held_first :
    (guard : Option ScriptGuard) (before after : List LaneResult) (res : LaneResult) (song : Song)
    (r : Race)
    → All (IsQuiet guard) before
    → seen guard res ≡ winner song
    → r.held ≡ none
    → (passes guard (before ++ res ∷ after) r).held ≡ some (song, res.name)
passes-held_first guard before after res song r q w e =
    ap (λ x. x.held) (passes-append guard before (res ∷ after) r)
    ∙ passes-held guard after (pass guard res (passes guard before r)) (song, res.name)
        (ap (held_after res.name (seen guard res)) ((passes-quiet guard before r q).0 ∙ e)
          ∙ ap (λ s. held_after res.name s none) w)

-- Over all the results of a race none of which is synced.
pub collect-settled :
    (guard : Option ScriptGuard) (lanes : ℕ) (rs : List LaneResult) (r : Race)
    → All (IsUnsynced guard) rs
    → length rs ≡ r.pending
    → 0 < length rs
    → collect guard lanes r (results rs) ≡ some (settle lanes none (passes guard rs r))
collect-settled guard lanes [] r h p z = absurd (omega arith)
collect-settled guard lanes (res ∷ rs) r h p z =
    ap (collect guard lanes r) (sym (append-nil (results (res ∷ rs))))
    ∙ collect-All guard lanes res rs [] r h p

upgrade-stays : (s : Seen) (p : ℕ) → upgrade_after s p true ≡ true
upgrade-stays skipped p = refl
upgrade-stays (reported r) p = refl
upgrade-stays (winner song) p = refl

passes-upgrade :
    (guard : Option ScriptGuard) (rs : List LaneResult) (r : Race)
    → r.upgrade ≡ true
    → (passes guard rs r).upgrade ≡ true
passes-upgrade guard [] r e = e
passes-upgrade guard (res ∷ rs) r e = passes-upgrade guard rs (pass guard res r) (
    ap (upgrade_after (seen guard res) (r.pending - 1)) e
    ∙ upgrade-stays (seen guard res) (r.pending - 1))

armed :
    (b : Bool) (s : Seen) (song : Song) (p : ℕ)
    → s ≡ winner song
    → 0 < p
    → upgrade_after s p b ≡ true
armed b s song p w h = ground arith

-- A suitable song arms the upgrade window, if lanes are still pending.
pub passes-upgrade_first :
    (guard : Option ScriptGuard) (before after : List LaneResult) (res : LaneResult) (song : Song)
    (r : Race)
    → seen guard res ≡ winner song
    → length (before ++ res ∷ after) < r.pending
    → (passes guard (before ++ res ∷ after) r).upgrade ≡ true
passes-upgrade_first guard [] after res song r w n =
    passes-upgrade guard after (pass guard res r)
      (armed r.upgrade (seen guard res) song (r.pending - 1) w (omega arith))
passes-upgrade_first guard (x ∷ before) after res song r w n =
    passes-upgrade_first guard before after res song (pass guard x r) w (omega arith)
