-- ===== src/Gateway/SlidingWindow.antt =====
-- The sliding window that `check_rate_limit` (crates/zorch-gateway/src/rate_limit.rs) and
-- `check_sliding_window` (crates/zorch-gateway/src/key_limits.rs) have in common: trim and count,
-- refuse at the limit, else add this request and renew the expiry of the key.
-- Scores are whole seconds, which an f64 holds exactly. `uuid` is the `Uuid::new_v4()` drawn.
pub mod Step
pub mod History
mod Examples
use zorch.Prelude.{ℕ, Bool, true, false, String, [], ◌∷◌, leb, if◌then◌else◌}
use zorch.Shared.Errors.{internal, text}
use zorch.Shared.Action.{Action, call, pure, ◌>>=◌, ◌>>◌}
use zorch.External.Redis.{Redis}

module _ (r : Redis) where
  unfoldable pub sliding_window :
      (now : ℕ) (key : String) (window_start max_requests expiry_secs : ℕ) (uuid : String)
      → Action r.Server Bool
  sliding_window now key window_start max_requests expiry_secs uuid = do
    current_count ←
        call (λ e. internal (text "Redis pipeline error: " ∷ text e ∷ []))
          (r.trim_and_count now key window_start)
    if leb max_requests current_count then pure false else do
      call (λ e. internal (text "Failed to add request: " ∷ text e ∷ []))
          (r.zadd now key (now, uuid) now)
      call (λ e. internal (text "Failed to set expiry: " ∷ text e ∷ []))
          (r.expire now key expiry_secs)
      pure true
