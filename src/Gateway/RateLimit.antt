-- ===== src/Gateway/RateLimit.antt =====
-- crates/zorch-gateway/src/rate_limit.rs: the limiter shared by all keys, per key and model.
-- `clock` is the reading of the system clock in seconds since the epoch, or its error.
pub mod Bounds
use zorch.Prelude.{ℕ, ◌+◌, ◌-◌, Bool, String, [], ◌∷◌}
use zorch.Shared.Errors.{Reply, internal, text, map_err}
use zorch.Shared.Text.{◌+++◌}
use zorch.Shared.Action.{Action, lift, ◌>>=◌, ◌>>◌}
use zorch.External.Redis.{Redis}
use zorch.Gateway.SlidingWindow.{sliding_window}

-- format!("rate_limit:{}:{}", api_key_id, model_id)
abbrev pub rate_limit_key : String → String → String
rate_limit_key api_key_id model_id = "rate_limit:" +++ (api_key_id +++ (":" +++ model_id))

module _ (r : Redis) where
  -- `saturating_sub` is the truncated subtraction
  unfoldable pub check_rate_limit :
      (clock : Reply ℕ) (uuid : String) (api_key_id model_id : String)
      (window_secs max_requests : ℕ)
      → Action r.Server Bool
  check_rate_limit clock uuid api_key_id model_id window_secs max_requests s =
      (do
        lift (
            map_err (λ e. internal (text "Failed to get Redis connection: " ∷ text e ∷ []))
              (r.connect s))
        now ← lift (map_err (λ e. internal (text "Time error: " ∷ text e ∷ [])) clock)
        sliding_window r now (rate_limit_key api_key_id model_id) (now - window_secs) max_requests
            (window_secs + 60) uuid)
        s
