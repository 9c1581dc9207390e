-- ===== src/Gateway/Pipeline.antt =====
-- crates/zorch-gateway/src/pipeline.rs, and the configuration that
-- crates/zorch-api/src/routes/v1/proxy/governance.rs gives it.
pub mod Passing
mod Examples
use zorch.Prelude.{
  ℕ, Bool, true, false, String, Option, none, some, List, [], ◌∷◌, if◌then◌else◌, unwrap_or,
}
use zorch.Prelude.Int.{ℤ, as_u64}
use zorch.Shared.Float.{F64, Fpu, f64_max}
use zorch.Shared.Errors.{Result, AppError, rate_limit, bad_request, text, Reply, Message}
use zorch.Shared.Action.{Action, pure, raise, ◌>>=◌, ◌>>◌}
use zorch.External.Redis.{Redis}
use zorch.Gateway.RateLimit.{check_rate_limit}
use zorch.Gateway.KeyLimits.{KeyLimitConfig, default_config, check_limits}
use zorch.Gateway.Governance.{GovernanceDecision, allow, block, soft_limit, KeyRow, check_request}

-- What a request draws from its surroundings: the clock at its three readings, the UUIDs, and
-- the answer of the query for its key.
pub record Draws : Type 0 where
  pub clock1 : Reply ℕ
  pub clock2 : Reply ℕ
  pub utc_now : ℕ
  pub uuid1 : String
  pub uuid2 : String
  pub uuid3 : String
  pub row : Reply (Option KeyRow)

pub record PipelineResult : Type 0 where
  pub api_key_id : String
  pub provider_id : String
  pub model_id : String

-- The columns of the key that limit it (zorch-db's `ApiKey`); an i32 is an integer.
pub record KeyColumns : Type 0 where
  pub requests_per_minute : Option ℤ
  pub requests_per_day : Option ℤ
  pub max_spend_usd : Option F64
  pub allowed_models : Option (List String)

abbrev pub limit_or : Option ℤ → ℕ → ℕ
limit_or none d = d
limit_or (some v) d = as_u64 v

unfoldable pub key_config : Bool → KeyColumns → KeyLimitConfig
key_config enforce_per_key_governance key =
    if enforce_per_key_governance
    then record {
      requests_per_minute = limit_or key.requests_per_minute 100;
      requests_per_day = limit_or key.requests_per_day 10000;
      max_spend_usd = unwrap_or key.max_spend_usd f64_max;
      allowed_models = unwrap_or key.allowed_models [];
    }
    else default_config

module _ (r : Redis) (fpu : Fpu) where
  unfoldable pub conclude : GovernanceDecision → PipelineResult → Action r.Server PipelineResult
  conclude (block reason) result =
      raise (bad_request (text "Request blocked by governance policy: " ∷ reason))
  conclude (soft_limit alert) result = pure result
  conclude allow result = pure result

  unfoldable pub execute :
      Draws
      → (api_key_id provider_id model_id : String) → KeyLimitConfig
      → Action r.Server PipelineResult
  execute d api_key_id provider_id model_id config = do
    admitted ← check_rate_limit r d.clock1 d.uuid1 api_key_id model_id 60 100
    if admitted then pure tt else raise (rate_limit (text "Rate limit exceeded" ∷ []))
    check_limits r fpu d.clock2 d.uuid2 d.uuid3 api_key_id model_id config
    decision ← check_request r fpu d.utc_now d.row api_key_id model_id
    conclude decision
        (record { api_key_id = api_key_id; provider_id = provider_id; model_id = model_id })

  unfoldable pub run_governance_pipeline :
      Draws
      → (enforce_per_key_governance : Bool) → KeyColumns
      → (api_key_id provider_id public_model_id : String) → Action r.Server (Unit {0})
  run_governance_pipeline d enforce key api_key_id provider_id public_model_id = do
    execute d api_key_id provider_id public_model_id (key_config enforce key)
    pure tt
