-- ===== src/Replay/Timestamp.antt =====
-- middleware/timestamp.go: a request's timestamp must lie in a window around the present time.
use go_rpc_gateway.Prelude.{Bool, Option, none, some, List, String, str_eq, if◌then◌else◌}
use go_rpc_gateway.Prelude.Int.{ℤ, pos, ◌-ℤ◌, ltb_ℤ}
use go_rpc_gateway.Prelude.Words.{int64, quot}

-- The fields of the signature configuration (package go-config) that the two middlewares read.
pub record Signature : Type 0 where
  pub enabled : Bool
  pub require_timestamp : Bool
  pub require_nonce : Bool
  pub ignore_paths : List String
  pub timeout_window : ℤ  -- time.Duration, nanoseconds
  pub nonce_key_prefix : String
  pub nonce_ttl : ℤ

-- What the code calls of other packages: `validator.MatchPathInList`, and `strconv.ParseInt` to
-- base 10 and 64 bits, `none` for an error.
pub record Library : Type 0 where
  pub match_path_in_list : String → List String → Bool
  pub parse_int : String → Option ℤ

pub data Outcome : Type 0 where
  next_called missing invalid expired : Outcome

-- `diff := now - timestamp; if diff < 0 { diff = -diff }`
unfoldable pub difference : ℤ → ℤ → ℤ
difference now timestamp =
    let d = int64 (now -ℤ timestamp) in if ltb_ℤ d (pos 0) then int64 (pos 0 -ℤ d) else d

-- `diff > int64(config.TimeoutWindow.Seconds())`: whole seconds, towards 0.
unfoldable pub is_expired : ℤ → ℤ → ℤ → Bool
unfolding difference
is_expired timeout_window now timestamp =
    ltb_ℤ (quot timeout_window 1000000000) (difference now timestamp)

check_parsed : ℤ → ℤ → Option ℤ → Outcome
check_parsed window now none = invalid
check_parsed window now (some timestamp) =
    if is_expired window now timestamp then expired else next_called

-- `now` is `time.Now().Unix()`; `timestamp` is that of the request's metadata.
unfoldable pub timestamp_middleware : Library → Signature → ℤ → String → String → Outcome
unfolding check_parsed
timestamp_middleware x c now path timestamp =
    if c.enabled
    then (if c.require_timestamp
        then (if x.match_path_in_list path c.ignore_paths
            then next_called
            else if str_eq timestamp ""
            then missing
            else check_parsed c.timeout_window now (x.parse_int timestamp))
        else next_called)
    else next_called
