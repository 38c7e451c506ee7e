-- ===== src/Backoff/Examples.antt =====
-- Runs of internal/backoff/backoff.go with its default constants.
use mxlrcgo_svc.Common.{◌≡◌, refl, ◌≤◌, ◌<◌, arith}
use mxlrcgo_svc.Common.Int.{ℤ, pos, negsuc, pos_part}
use mxlrcgo_svc.Backoff.{
  geometric, miss_cooldown, default_base, default_max, default_miss_base, default_miss_cap,
}
use mxlrcgo_svc.Backoff.Exact.{geometric-schedule, geometric_mono, schedule}

third_miss : miss_cooldown (pos 3) default_miss_base default_miss_cap ≡ default_miss_cap
unfolding miss_cooldown mxlrcgo_svc.Common.Int.int64
third_miss = refl

no_attempts : geometric (negsuc 4) default_base default_max ≡ default_base
unfolding geometric
no_attempts = refl

geometric-schedule_example :
    (geometric (pos 7) default_base default_max ≡ schedule (pos 7) default_base default_max)
    × (miss_cooldown (pos 7) default_base default_max ≡ schedule (pos 7) default_base default_max)
geometric-schedule_example = geometric-schedule (pos 7) default_base default_max (omega arith)

geometric_mono_test :
    (pos_part (geometric (pos 2) (pos 60) (pos 3600))
      ≤ pos_part (geometric (pos 3) (pos 60) (pos 3600)))
    × (pos_part (geometric (pos 3) (pos 60) (pos 3600)) ≤ 3600)
    × (0 < pos_part (geometric (pos 2) (pos 60) (pos 3600)))
geometric_mono_test = geometric_mono 2 60 3600 (omega arith) (omega arith) (omega arith)
