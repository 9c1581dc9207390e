-- ===== src/Gateway/Governance.antt =====
-- crates/zorch-gateway/src/governance.rs. The row of `api_keys` is what the query gives; a column
-- that is NULL or cannot be read is `none` under `.ok()`. Times are seconds.
pub mod Decision
mod Examples
use zorch.Prelude.{
  ℕ, Bool, not, ◌&&◌, String, Option, none, some, List, [], ◌∷◌, any, is_empty, ltb, if◌then◌else◌,
  unwrap_or,
}
use zorch.Prelude.Classes.{◌==◌, string_eq}
use zorch.Shared.Float.{F64, Fpu, f64_zero, f64_0_8, f64_one, f64_hundred}
use zorch.Shared.Errors.{
  Result, ok, err, Message, auth, database, internal, text, num, money, rounded, Reply, got, failed,
  map_err,
}
use zorch.Shared.Action.{Action, pure, raise, lift, ◌>>=◌, ◌>>◌}
use zorch.External.Redis.{Redis}
use zorch.Gateway.KeyLimits.{spend_key}

pub data GovernanceDecision : Type 0 where
  allow : GovernanceDecision
  block : Message → GovernanceDecision
  soft_limit : Message → GovernanceDecision

pub record KeyRow : Type 0 where
  pub is_active : Reply Bool
  pub expires_at : Option ℕ
  pub allowed_models : Option (List String)
  pub max_spend_usd : Option F64

-- The budget tests, once the spend is known.
unfoldable pub budget_decision : Fpu → F64 → F64 → GovernanceDecision
budget_decision fpu max_budget current_spend =
    let spend_ratio = fpu.div current_spend max_budget in
    if fpu.le f64_one spend_ratio
    then block
        (text "Budget exceeded: $" ∷ money current_spend ∷ text " / $" ∷ money max_budget ∷ [])
    else if fpu.lt f64_0_8 spend_ratio
    then soft_limit (
        text "Spending alert: $"
        ∷ money current_spend
        ∷ text " / $"
        ∷ money max_budget
        ∷ text " ("
        ∷ rounded (fpu.mul spend_ratio f64_hundred)
        ∷ text "% of budget used)"
        ∷ [])
    else allow

module _ (r : Redis) (fpu : Fpu) where
  unfoldable pub get_current_spend : ℕ → String → Action r.Server F64
  get_current_spend now api_key_id s =
      (do
        lift (
            map_err (λ e. internal (text "Failed to get Redis connection: " ∷ text e ∷ []))
              (r.connect s))
        spend ← lift (
            map_err (λ e. internal (text "Failed to get spend: " ∷ text e ∷ []))
              (r.get_float now (spend_key api_key_id) s))
        pure (unwrap_or spend f64_zero))
        s

  -- The tests from the budget on.
  unfoldable pub check_spend : ℕ → String → Option F64 → Action r.Server GovernanceDecision
  check_spend now api_key_id none = pure allow
  check_spend now api_key_id (some max_budget) =
      if fpu.eq max_budget f64_zero then pure (block (text "API key budget is zero" ∷ [])) else do
        current_spend ← get_current_spend now api_key_id
        pure (budget_decision fpu max_budget current_spend)

  -- The tests from the list of models on.
  unfoldable pub check_models :
      ℕ → String → String → Option (List String) → Option F64 → Action r.Server GovernanceDecision
  check_models now api_key_id model none budget = check_spend now api_key_id budget
  check_models now api_key_id model (some models) budget =
      if not (is_empty models) && not (any (λ m. m == model) models)
      then pure
          (block (text "Model '" ∷ text model ∷ text "' is not in the allowed models list" ∷ []))
      else check_spend now api_key_id budget

  -- The tests from the expiry on.
  unfoldable pub check_expiry :
      ℕ
      → String
      → String
      → Option ℕ
      → Option (List String)
      → Option F64
      → Action r.Server GovernanceDecision
  check_expiry now api_key_id model none models budget =
      check_models now api_key_id model models budget
  check_expiry now api_key_id model (some expires_at) models budget =
      if ltb expires_at now
      then pure (soft_limit (text "API key expired at " ∷ num expires_at ∷ []))
      else check_models now api_key_id model models budget

  -- `row` is the answer of the query for the key.
  unfoldable pub check_request :
      (now : ℕ) (row : Reply (Option KeyRow)) (api_key_id model : String)
      → Action r.Server GovernanceDecision
  check_request now row api_key_id model = do
    found ← lift (map_err (λ e. database (text "Failed to fetch API key: " ∷ text e ∷ [])) row)
    key ← lift (elim found [
      | none ↦ err (auth (text "API key not found: " ∷ text api_key_id ∷ []))
      | some k ↦ ok k
    ])
    is_active ←
        lift
          (map_err (λ e. database (text "Failed to get is_active: " ∷ text e ∷ [])) key.is_active)
    if not is_active
        then pure (block (text "API key is inactive" ∷ []))
        else check_expiry now api_key_id model key.expires_at key.allowed_models key.max_spend_usd
