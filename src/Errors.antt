-- ===== src/Errors.antt =====
-- Go's `error` values: the sentinels of internal/musixmatch/client.go and
-- internal/orchestrator/errors.go, wrapping, and `errors.Is`; and the classes that
-- internal/orchestrator/errors.go sorts errors into.
pub mod Classes
pub mod Examples
use mxlrcgo_svc.Common.{ℕ, String, Bool, true, false, ◌||◌, Option, none, some, ◌==◌, if◌then◌else◌}

pub data Sentinel : Type 0 where
  unauthorized rate_limited not_found no_lyrics truncated_response : Sentinel
  token_renewal_required lane_unavailable canceled deadline_exceeded no_rows : Sentinel

-- A sentinel's identity.
abbrev pub tag : Sentinel → ℕ
tag unauthorized = 0
tag rate_limited = 1
tag not_found = 2
tag no_lyrics = 3
tag truncated_response = 4
tag token_renewal_required = 5
tag lane_unavailable = 6
tag canceled = 7
tag deadline_exceeded = 8
tag no_rows = 9

-- An error: a sentinel, one with no sentinel inside, or one that wraps others (`%w`,
-- `errors.Join`). The value `ErrTokenRenewalRequired` is `sentinel token_renewal_required`.
pub data Err : Type 0 where
  sentinel : Sentinel → Err
  other : String → Err
  wrapped : String → Err → Err
  joined : Err → Err → Err

-- `errors.Is`, with the `Is` method of `tokenRenewalError`, which also matches `ErrUnauthorized`.
unfoldable pub errors_is : Err → Sentinel → Bool
errors_is (sentinel token_renewal_required) t =
    tag t == tag unauthorized || tag t == tag token_renewal_required
errors_is (sentinel s) t = tag s == tag t
errors_is (other m) t = false
errors_is (wrapped m e) t = errors_is e t
errors_is (joined a b) t = errors_is a t || errors_is b t

unfoldable pub is_benign_miss : Err → Bool
is_benign_miss e = errors_is e not_found || errors_is e no_lyrics

pub data OutcomeClass : Type 0 where
  success benign_miss transport auth_rate_limit unavailable : OutcomeClass

classify_err : Err → OutcomeClass
classify_err e =
    if errors_is e lane_unavailable
    then unavailable
    else if errors_is e token_renewal_required
        || errors_is e unauthorized
        || errors_is e rate_limited
        || errors_is e truncated_response
    then auth_rate_limit
    else if is_benign_miss e
    then benign_miss
    else transport

unfoldable pub classify_outcome : Option Err → OutcomeClass
unfolding classify_err
classify_outcome none = success
classify_outcome (some e) = classify_err e

unfoldable pub precedence : OutcomeClass → ℕ
precedence success = 0
precedence benign_miss = 1
precedence transport = 2
precedence auth_rate_limit = 3
precedence unavailable = 3
