-- ===== src/Errors/Examples.antt =====
-- Errors of internal/orchestrator/errors.go as the lanes wrap and join them.
use mxlrcgo_svc.Common.{◌≡◌, refl, some, none}
use mxlrcgo_svc.Errors.{
  Err, sentinel, wrapped, joined, no_lyrics, token_renewal_required, classify_outcome, success,
  auth_rate_limit, errors_is,
}
use mxlrcgo_svc.Errors.Classes.{classify_outcome-leaves, class_of_leaves, leaves}

-- A miss of one provider joined with a renewal of the other's token.
abbrev mixed : Err
mixed =
    joined (wrapped "find lyrics" (sentinel no_lyrics))
      (wrapped "query" (sentinel token_renewal_required))

mixed_class : classify_outcome (some mixed) ≡ auth_rate_limit
unfolding classify_outcome errors_is
mixed_class = refl

classify_outcome-leaves_example :
    (classify_outcome (some mixed) ≡ class_of_leaves (leaves mixed))
    × (classify_outcome none ≡ success)
classify_outcome-leaves_example = classify_outcome-leaves mixed
