-- ===== src/Orchestrator/Suitability.antt =====
-- internal/orchestrator/suitability.go. The script guard is an interface there, and a record here.
use mxlrcgo_svc.Common.{
  ℕ, Bool, true, false, not, Option, none, some, length, ltb, ◌==◌, str_eq, if◌then◌else◌,
}
use mxlrcgo_svc.Models.{Song}

pub data Quality : Type 0 where
  quality_none instrumental unsynced synced : Quality

-- The order of the constants.
abbrev pub rank : Quality → ℕ
rank quality_none = 0
rank instrumental = 1
rank unsynced = 2
rank synced = 3

unfoldable pub quality_of : Song → Quality
quality_of song =
    if ltb 0 (length song.subtitles)
    then synced
    else if not (str_eq song.lyrics_body "")
    then unsynced
    else if song.track.instrumental == 1
    then instrumental
    else quality_none

-- `ScriptGuard`: `Accept`'s reason is only logged by the callers here.
pub record ScriptGuard : Type 0 where
  pub accept : Song → Bool
  pub enabled : Bool

guard_passes : Option ScriptGuard → Song → Bool
guard_passes none song = true
guard_passes (some g) song = if g.enabled then g.accept song else true

unfoldable pub is_suitable : Song → Option ScriptGuard → Bool
unfolding guard_passes
is_suitable song guard =
    if ltb (rank (quality_of song)) (rank unsynced) then false else guard_passes guard song
