-- ===== src/Orchestrator/Parallel/Refines.antt =====
-- Parallel mode of internal/orchestrator/parallel.go against its doc comment.
use mxlrcgo_svc.Common.{
  ℕ, ◌<◌, ◌≡◌, refl, ap, ◌∙◌, String, true, Option, none, some, List, [], ◌∷◌, ◌++◌, length, All,
  All-append, arith,
}
use mxlrcgo_svc.Models.{Song, no_song}
use mxlrcgo_svc.Errors.{Err}
use mxlrcgo_svc.Orchestrator.Suitability.{ScriptGuard}
use mxlrcgo_svc.Orchestrator.Dispatch.{DispatchResult, no_result, resolve, lane_attempts_for}
use mxlrcgo_svc.Orchestrator.Dispatch.Best.{Report, gather}
use mxlrcgo_svc.Orchestrator.Dispatch.Seen.{winner}
use mxlrcgo_svc.Orchestrator.Parallel.{
  LaneResult, Arrival, cancels, arrives, elapses, Race, Reply, commit, commit_held, settle,
  on_timer, select, collect, start, find_parallel,
}
use mxlrcgo_svc.Orchestrator.Dispatch.Best.{verdict_or, resolve-verdict}
use mxlrcgo_svc.Orchestrator.Parallel.Collector.{seen, is_synced, select-synced}
use mxlrcgo_svc.Orchestrator.Parallel.Passes.{
  results, passes, consulted, reports, IsUnsynced, IsQuiet, passes-consulted, collect-passes,
  quiet-All, passes-quiet, collect-settled, passes-held_first, passes-upgrade_first,
}

-- A suitable synced song wins at once: if the results before it, fewer than the lanes, bring none,
-- the dispatch returns that song with no error, attributed to the lanes consulted so far with its
-- own lane as the hit, whatever arrives later. A suitable unsynced song that arrived earlier loses.
pub find_parallel-synced :
    (guard : Option ScriptGuard) (lanes : ℕ) (before : List LaneResult) (res : LaneResult)
    (ctx_err : Option Err) (rest : List Arrival)
    → All (IsUnsynced guard) before
    → length before < lanes
    → is_synced (seen guard res) ≡ true
    → find_parallel guard lanes none (results before ++ arrives res ctx_err ∷ rest)
      ≡ some (commit (consulted guard before ++ res.name ∷ []) (res.song, res.name))
unfolding find_parallel start
find_parallel-synced guard lanes before res ctx_err rest h n s =
    collect-passes guard lanes before (arrives res ctx_err ∷ rest) (start lanes) h n
    ∙ (unfold collect in
        rw (select-synced guard lanes ctx_err res (passes guard before (start lanes)) s, collect)
          (rw (passes-consulted guard before (start lanes))))

-- A reply with the attribution of its song over the consulted lanes.
abbrev pub attributed : List String → Reply → Reply
attributed names (song, err) =
    (record song { lane_attempts = lane_attempts_for names song.winning_lane }, err)

settle-held :
    (lanes : ℕ) (r : Race) (h : Song × String)
    → r.held ≡ some h
    → settle lanes none r ≡ commit r.consulted h
unfolding settle commit_held
settle-held lanes r h e = ground arith

pos {ℓ} : {A : Type ℓ} (xs : List A) (x : A) (ys : List A) → 0 < length (xs ++ x ∷ ys)
pos [] x ys = omega arith
pos (a ∷ xs) x ys = omega arith

-- If every lane reports, the context being live (its error is nil) at every arrival, the last one
-- included, none brings a synced song, and one brings a suitable unsynced song, the first such song in the order of arrival is returned with no error, attributed to all consulted lanes.
pub find_parallel-held :
    (guard : Option ScriptGuard) (before after : List LaneResult) (res : LaneResult) (song : Song)
    → All (IsQuiet guard) before
    → seen guard res ≡ winner song
    → All (IsUnsynced guard) (res ∷ after)
    → find_parallel guard (length (before ++ res ∷ after)) none (results (before ++ res ∷ after))
      ≡ some (commit (consulted guard (before ++ res ∷ after)) (song, res.name))
unfolding find_parallel start
find_parallel-held guard before after res song q w u =
    let all = before ++ res ∷ after in
    let lanes = length all in
    collect-settled guard lanes all (start lanes)
      (All-append (IsUnsynced guard) before (res ∷ after) (quiet-All guard before q) u) refl
      (pos before res after)
    ∙ ap some (
        settle-held lanes (passes guard all (start lanes)) (song, res.name)
          (passes-held_first guard before after res song (start lanes) q w refl)
        ∙ ap (λ names. commit names (song, res.name)) (passes-consulted guard all (start lanes)))

elapses-held :
    (guard : Option ScriptGuard) (lanes : ℕ) (r : Race) (h : Song × String) (rest : List Arrival)
    → r.upgrade ≡ true
    → r.held ≡ some h
    → collect guard lanes r (elapses none ∷ rest) ≡ some (commit r.consulted h)
unfolding collect select on_timer commit_held
elapses-held guard lanes r h rest u e = ground arith

attributed-verdict :
    (lanes : ℕ) (rs : List Report) (d : DispatchResult) (names names' : List String)
    → d ≡ gather no_result rs
    → names ≡ names'
    → 0 < lanes
    → attributed names (resolve lanes none d) ≡ attributed names' (verdict_or none rs)
attributed-verdict lanes rs d names names' ed en h =
    ap (λ x. attributed names (resolve lanes none x)) ed
    ∙ ap (attributed names) (resolve-verdict lanes none rs h)
    ∙ ap (λ ns. attributed ns (verdict_or none rs)) en

-- If the upgrade window elapses on a live context while lanes are pending, none of the results so
-- far is synced and one is suitable, the first suitable one is returned with no error, attributed
-- to the lanes consulted so far, whatever arrives later.
pub find_parallel-elapsed :
    (guard : Option ScriptGuard) (lanes : ℕ) (before after : List LaneResult) (res : LaneResult)
    (song : Song) (rest : List Arrival)
    → All (IsQuiet guard) before
    → seen guard res ≡ winner song
    → All (IsUnsynced guard) (res ∷ after)
    → length (before ++ res ∷ after) < lanes
    → find_parallel guard lanes none (results (before ++ res ∷ after) ++ elapses none ∷ rest)
      ≡ some (commit (consulted guard (before ++ res ∷ after)) (song, res.name))
unfolding find_parallel start
find_parallel-elapsed guard lanes before after res song rest q w u n =
    let all = before ++ res ∷ after in
    let r = passes guard all (start lanes) in
    collect-passes guard lanes all (elapses none ∷ rest) (start lanes)
      (All-append (IsUnsynced guard) before (res ∷ after) (quiet-All guard before q) u) n
    ∙ elapses-held guard lanes r (song, res.name) rest
        (passes-upgrade_first guard before after res song (start lanes) w n)
        (passes-held_first guard before after res song (start lanes) q w refl)
    ∙ ap (λ names. some (commit names (song, res.name))) (passes-consulted guard all (start lanes))

-- A context that is cancelled while lanes are pending ends the dispatch with the context's error
-- and no song, if no synced song arrived before, whatever is held and whatever arrives later.
pub find_parallel-cancelled :
    (guard : Option ScriptGuard) (lanes : ℕ) (before : List LaneResult) (e : Err)
    (rest : List Arrival)
    → All (IsUnsynced guard) before
    → length before < lanes
    → find_parallel guard lanes none (results before ++ cancels e ∷ rest) ≡ some (no_song, some e)
unfolding find_parallel start collect select
find_parallel-cancelled guard lanes before e rest h n =
    collect-passes guard lanes before (cancels e ∷ rest) (start lanes) h n

settle-resolved :
    (lanes : ℕ) (r : Race)
    → r.held ≡ none
    → settle lanes none r ≡ attributed r.consulted (resolve lanes none r.result)
unfolding settle
settle-resolved lanes r e = ground arith

-- If every lane reports, the context being live (its error is nil) at every arrival, the last one
-- included, and none has a suitable song, the dispatch returns the verdict on the
-- reports in the order of arrival: the best fallback with no error, else the error of the highest
-- precedence, else (every lane was skipped) that no lane was available. Exactly the consulted lanes
-- are attributed, and the fallback's lane is the hit.
pub find_parallel-verdict :
    (guard : Option ScriptGuard) (res : LaneResult) (rs : List LaneResult)
    → All (IsQuiet guard) (res ∷ rs)
    → find_parallel guard (length (res ∷ rs)) none (results (res ∷ rs))
      ≡ some (attributed (consulted guard (res ∷ rs)) (verdict_or none (reports guard (res ∷ rs))))
unfolding find_parallel start
find_parallel-verdict guard res rs q =
    let all = res ∷ rs in
    let lanes = length all in
    let r = passes guard all (start lanes) in
    let quiet = passes-quiet guard all (start lanes) q in
    collect-settled guard lanes all (start lanes) (quiet-All guard all q) refl (omega arith)
    ∙ ap some (
        settle-resolved lanes r quiet.0
        ∙ attributed-verdict lanes (reports guard all) r.result r.consulted (consulted guard all)
            quiet.1 (passes-consulted guard all (start lanes)) (omega arith))
