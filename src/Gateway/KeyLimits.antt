-- ===== src/Gateway/KeyLimits.antt =====
-- crates/zorch-gateway/src/key_limits.rs: the limits of one API key. `clock` is the reading of the
-- system clock in seconds since the epoch, or its error; `uuid1` and `uuid2` are the two UUIDs that
-- a check draws.
pub mod Bounds
pub mod Admission
mod Examples
use zorch.Prelude.{
  ℕ, ◌+◌, ◌-◌, Bool, not, ◌&&◌, String, Option, none, some, List, [], ◌∷◌, any, is_empty, nat_beq,
  if◌then◌else◌, unwrap_or,
}
use zorch.Prelude.Classes.{◌==◌, string_eq}
use zorch.Shared.Float.{F64, Fpu, f64_zero, f64_hundred}
use zorch.Shared.Errors.{
  Result, ok, err, AppError, rate_limit, bad_request, internal, text, num, money, Reply, got,
  failed, map_err,
}
use zorch.Shared.Text.{◌+++◌}
use zorch.Shared.Action.{Action, pure, raise, lift, call, ◌>>=◌, ◌>>◌}
use zorch.External.Redis.{Redis}
use zorch.Gateway.SlidingWindow.{sliding_window}

pub record KeyLimitConfig : Type 0 where
  pub requests_per_minute : ℕ  -- u64
  pub requests_per_day : ℕ  -- u64
  pub max_spend_usd : F64
  pub allowed_models : List String

-- KeyLimitConfig::default
abbrev pub default_config : KeyLimitConfig
default_config = record {
  requests_per_minute = 100;
  requests_per_day = 10000;
  max_spend_usd = f64_hundred;
  allowed_models = [];
}

abbrev pub rpm_key : String → String
rpm_key api_key_id = "key_rpm:" +++ api_key_id

abbrev pub rpd_key : String → String
rpd_key api_key_id = "key_rpd:" +++ api_key_id

abbrev pub spend_key : String → String
spend_key api_key_id = "key_spend:" +++ api_key_id

-- `conn.get(..).await.unwrap_or(0.0)`: an error and a missing key both read as zero
abbrev pub float_or_zero : Reply (Option F64) → F64
float_or_zero (got o) = unwrap_or o f64_zero
float_or_zero (failed e) = f64_zero

-- The two checks that come after the windows.
unfoldable pub check_budget : Fpu → F64 → KeyLimitConfig → Result (Unit {0})
check_budget fpu spend config =
    if fpu.le config.max_spend_usd spend
    then err (
        rate_limit
          (text "Budget exceeded: $" ∷ money spend ∷ text " / $" ∷ money config.max_spend_usd ∷ []))
    else ok tt

unfoldable pub check_model : String → KeyLimitConfig → Result (Unit {0})
check_model model config =
    if not (is_empty config.allowed_models) && not (any (λ m. m == model) config.allowed_models)
    then err (bad_request (text "Model not allowed for this API key" ∷ []))
    else ok tt

unfoldable pub expiry_for : ℕ → ℕ
expiry_for max_requests = if nat_beq max_requests 100 then 120 else 86500

module _ (r : Redis) where
  unfoldable pub check_sliding_window :
      (key : String) (now window_start max_requests : ℕ) (uuid : String) → Action r.Server Bool
  check_sliding_window key now window_start max_requests uuid =
      sliding_window r now key window_start max_requests (expiry_for max_requests) uuid

  refuse_unless : Bool → AppError → Action r.Server (Unit {0})
  refuse_unless allowed e = if allowed then pure tt else raise e

  unfoldable pub check_limits :
      Fpu
      → (clock : Reply ℕ) (uuid1 uuid2 api_key_id model : String) → KeyLimitConfig
      → Action r.Server (Unit {0})
  unfolding refuse_unless
  check_limits fpu clock uuid1 uuid2 api_key_id model config s =
      (do
        lift (
            map_err (λ e. internal (text "Failed to get Redis connection: " ∷ text e ∷ []))
              (r.connect s))
        now ← lift (map_err (λ e. internal (text "Time error: " ∷ text e ∷ [])) clock)
        rpm_allowed ←
            check_sliding_window (rpm_key api_key_id) now (now - 60) config.requests_per_minute
              uuid1
        refuse_unless rpm_allowed (
            rate_limit (
              text "Rate limit exceeded: "
              ∷ num config.requests_per_minute
              ∷ text " requests per minute"
              ∷ []))
        rpd_allowed ←
            check_sliding_window (rpd_key api_key_id) now (now - 86400) config.requests_per_day
              uuid2
        refuse_unless rpd_allowed (
            rate_limit (
              text "Rate limit exceeded: "
              ∷ num config.requests_per_day
              ∷ text " requests per day"
              ∷ []))
        current_spend ← (λ t. (ok (float_or_zero (r.get_float now (spend_key api_key_id) t)), t))
        lift (check_budget fpu current_spend config)
        lift (check_model model config))
        s

  -- The TTL of a day is set again at each recording.
  unfoldable pub record_spend : ℕ → String → F64 → Action r.Server (Unit {0})
  record_spend now api_key_id cost s =
      (do
        lift (
            map_err (λ e. internal (text "Failed to get Redis connection: " ∷ text e ∷ []))
              (r.connect s))
        call (λ e. internal (text "Failed to record spend: " ∷ text e ∷ []))
            (r.incr_by_float now (spend_key api_key_id) cost)
        call (λ e. internal (text "Failed to set spend TTL: " ∷ text e ∷ []))
            (r.expire now (spend_key api_key_id) 86400))
        s

  unfoldable pub get_spend : ℕ → String → Action r.Server F64
  get_spend now api_key_id s =
      (do
        lift (
            map_err (λ e. internal (text "Failed to get Redis connection: " ∷ text e ∷ []))
              (r.connect s))
        spend ← lift (
            map_err (λ e. internal (text "Failed to get spend: " ∷ text e ∷ []))
              (r.get_float now (spend_key api_key_id) s))
        pure (unwrap_or spend f64_zero))
        s
