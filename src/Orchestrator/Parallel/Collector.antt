-- ===== src/Orchestrator/Parallel/Collector.antt =====
-- The collector of internal/orchestrator/parallel.go, one lane's result at a time.
use mathlib.Core.List.{append-nil}
use mxlrcgo_svc.Common.{
  ℕ, suc, ◌-◌, ◌≡◌, refl, String, Bool, true, false, ◌||◌, Option, none, some, inl, inr, [], ◌∷◌,
  ◌++◌, ltb, leb, if◌then◌else◌, arith, Bool-cases,
}
use mxlrcgo_svc.Models.{Song}
use mxlrcgo_svc.Errors.{
  Err, canceled, errors_is, OutcomeClass, success, unavailable, classify_outcome,
}
use mxlrcgo_svc.Orchestrator.Suitability.{ScriptGuard, is_suitable, quality_of, rank, synced}
use mxlrcgo_svc.Orchestrator.Dispatch.{DispatchResult}
use mxlrcgo_svc.Orchestrator.Dispatch.Best.{gather}
use mxlrcgo_svc.Orchestrator.Dispatch.Seen.{
  Seen, skipped, winner, reported, seen_err, seen_of, names_of,
}
use mxlrcgo_svc.Orchestrator.Parallel.{
  LaneResult, arrives, Race, commit, after_result, keep_first, hold, on_song, count_consulted,
  on_class, on_result, select,
}

abbrev pub is_canceled : Option Err → Bool
is_canceled none = false
is_canceled (some e) = errors_is e canceled

-- What the dispatch makes of a lane's result; a cancelled lane says nothing.
abbrev pub seen : Option ScriptGuard → LaneResult → Seen
seen guard res = if is_canceled res.err then skipped else seen_of guard res.name res.song res.err

abbrev pub is_synced : Seen → Bool
is_synced (winner song) = leb (rank synced) (rank (quality_of song))
is_synced _ = false

unfoldable pub absorb : Seen → DispatchResult → DispatchResult
absorb skipped d = d
absorb (winner song) d = record d { consulted = suc d.consulted }
absorb (reported r) d = gather d (r ∷ [])

abbrev pub held_after : String → Seen → Option (Song × String) → Option (Song × String)
held_after name skipped held = held
held_after name (reported r) held = held
held_after name (winner song) held = keep_first held (song, name)

abbrev pub upgrade_after : Seen → ℕ → Bool → Bool
upgrade_after (winner song) pending upgrade = upgrade || ltb 0 pending
upgrade_after _ pending upgrade = upgrade

-- The collector's variables behind a result that does not end the race at once.
abbrev pub pass_seen : String → Seen → Race → Race
pass_seen name s r = record {
  result = absorb s r.result;
  held = held_after name s r.held;
  upgrade = upgrade_after s (r.pending - 1) r.upgrade;
  pending = r.pending - 1;
  consulted = r.consulted ++ names_of name s;
}

abbrev pub pass : Option ScriptGuard → LaneResult → Race → Race
pass guard res r = pass_seen res.name (seen guard res) r

on_class-pass :
    (lanes : ℕ) (ctx_err : Option Err) (name : String) (e : Err) (c : OutcomeClass) (r : Race)
    → classify_outcome (some e) ≡ c
    → on_class lanes ctx_err name e c (record r { pending = r.pending - 1 })
      ≡ after_result lanes ctx_err (pass_seen name (seen_err e c) r)
unfolding on_class absorb gather count_consulted
on_class-pass lanes ctx_err name e unavailable r p = rw append-nil
on_class-pass lanes ctx_err name e success r p = rw p
on_class-pass lanes ctx_err name e _ r p = rw p

on_song-pass :
    (guard : Option ScriptGuard) (lanes : ℕ) (ctx_err : Option Err) (res : LaneResult) (r : Race)
    → is_synced (seen_of guard res.name res.song none) ≡ false
    → on_song guard lanes ctx_err res
        (count_consulted res.name (record r { pending = r.pending - 1 }))
      ≡ after_result lanes ctx_err (pass_seen res.name (seen_of guard res.name res.song none) r)
unfolding on_song hold absorb gather count_consulted
on_song-pass guard lanes ctx_err res r h = elim (Bool-cases (is_suitable res.song guard)) [
  | inr bad ↦ rw bad
  | inl good ↦
      let low : leb (rank synced) (rank (quality_of res.song)) ≡ false = ground arith in
      rw good (rw low)
]

on_result-pass :
    (guard : Option ScriptGuard) (lanes : ℕ) (ctx_err : Option Err) (song : Song) (name : String)
    (err : Option Err) (r : Race)
    → let res : LaneResult = record { song = song; err = err; name = name } in
      is_synced (seen guard res) ≡ false
      → on_result guard lanes ctx_err res err (record r { pending = r.pending - 1 })
        ≡ after_result lanes ctx_err (pass guard res r)
unfolding on_result
on_result-pass guard lanes ctx_err song name none r h =
    on_song-pass guard lanes ctx_err (record { song = song; err = none; name = name }) r h
on_result-pass guard lanes ctx_err song name (some e) r h =
    elim (Bool-cases (errors_is e canceled)) [
      | inl gone ↦ rw gone (unfold absorb in rw append-nil)
      | inr live ↦ rw live (on_class-pass lanes ctx_err name e (classify_outcome (some e)) r refl)
    ]

-- A result that is not a suitable synced song is absorbed, and the race is settled if it was the last.
pub select-pass :
    (guard : Option ScriptGuard) (lanes : ℕ) (ctx_err : Option Err) (res : LaneResult) (r : Race)
    → is_synced (seen guard res) ≡ false
    → select guard lanes r (arrives res ctx_err) ≡ after_result lanes ctx_err (pass guard res r)
unfolding select
select-pass guard lanes ctx_err res r h =
    on_result-pass guard lanes ctx_err res.song res.name res.err r h

is_synced-seen_err : (e : Err) (c : OutcomeClass) → is_synced (seen_err e c) ≡ false
is_synced-seen_err e unavailable = refl
is_synced-seen_err e _ = refl

on_result-synced :
    (guard : Option ScriptGuard) (lanes : ℕ) (ctx_err : Option Err) (song : Song) (name : String)
    (err : Option Err) (r : Race)
    → let res : LaneResult = record { song = song; err = err; name = name } in
      is_synced (seen guard res) ≡ true
      → on_result guard lanes ctx_err res err r
        ≡ inr (commit (r.consulted ++ name ∷ []) (song, name))
unfolding on_result on_song count_consulted
on_result-synced guard lanes ctx_err song name none r h =
    elim (Bool-cases (is_suitable song guard)) [
      | inr bad ↦ absurd (ground arith)
      | inl good ↦
          let high : leb (rank synced) (rank (quality_of song)) ≡ true = ground arith in
          rw good (rw high)
    ]
on_result-synced guard lanes ctx_err song name (some e) r h =
    absurd (ground (arith, is_synced-seen_err e (classify_outcome (some e))))

-- A suitable synced song ends the race.
pub select-synced :
    (guard : Option ScriptGuard) (lanes : ℕ) (ctx_err : Option Err) (res : LaneResult) (r : Race)
    → is_synced (seen guard res) ≡ true
    → select guard lanes r (arrives res ctx_err)
      ≡ inr (commit (r.consulted ++ res.name ∷ []) (res.song, res.name))
unfolding select
select-synced guard lanes ctx_err res r h =
    on_result-synced guard lanes ctx_err res.song res.name res.err _ h
