-- ===== src/Gateway/Pipeline/Passing.antt =====
-- What a request that passes crates/zorch-gateway/src/pipeline.rs has shown.
use zorch.Prelude.{◌≡◌, true, String, some, arith, any, is_empty, ◌⊎◌}
use zorch.Prelude.Classes.{◌==◌, string_eq}
use zorch.Shared.Float.{Fpu}
use zorch.Shared.Errors.{ok, got}
use zorch.External.Redis.{Redis}
use zorch.Gateway.KeyLimits.{KeyLimitConfig, check_limits, check_model}
use zorch.Gateway.RateLimit.{check_rate_limit}
use zorch.Gateway.Governance.{KeyRow, check_models, check_expiry, check_request}
use zorch.Gateway.Governance.Decision.{MayUse, Unexpired}
use zorch.Gateway.Pipeline.{Draws, PipelineResult, execute, conclude}

module _ (r : Redis) (fpu : Fpu) (d : Draws) (id provider_id model : String) (s t : r.Server) where
  limits_policy :
      (config : KeyLimitConfig) (u : r.Server)
      → (check_limits r fpu d.clock2 d.uuid2 d.uuid3 id model config u).0 ≡ ok tt
      → (is_empty config.allowed_models ≡ true)
        ⊎ (any (λ m. m == model) config.allowed_models ≡ true)
  unfolding check_limits check_model
  limits_policy config u h = ground arith

  -- A request that passes: the shared limiter admitted it, the model is on the list that the key
  -- is given, if that list has entries, and the row of the key, if it was found, is active and
  -- either has expired or lets the model through as well.
  pub execute-ok :
      (config : KeyLimitConfig) (x : PipelineResult) (key : KeyRow)
      → d.row ≡ got (some key)
      → execute r fpu d id provider_id model config s ≡ (ok x, t)
      → ((check_rate_limit r d.clock1 d.uuid1 id model 60 100 s).0 ≡ ok true)
        × ((is_empty config.allowed_models ≡ true)
            ⊎ (any (λ m. m == model) config.allowed_models ≡ true))
        × (key.is_active ≡ got true)
        × ((¬ Unexpired d.utc_now key.expires_at) ⊎ MayUse key.allowed_models model)
  unfolding execute conclude check_request check_expiry check_models
  execute-ok config x key e h =
      let s1 = (check_rate_limit r d.clock1 d.uuid1 id model 60 100 s).1 in
      ground (arith, limits_policy config s1)
