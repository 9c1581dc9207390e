-- ===== src/Gateway/Governance/Decision.antt =====
-- The decisions of crates/zorch-gateway/src/governance.rs as a table.
use zorch.Prelude.{
  ℕ, ◌≤◌, ◌≡◌, true, false, String, Option, none, some, List, arith, any, is_empty, ◌⊎◌, ◌↔◌,
  unwrap_or,
}
use zorch.Prelude.Classes.{◌==◌, string_eq}
use zorch.Shared.Float.{F64, Fpu, f64_zero, f64_one, f64_0_8}
use zorch.Shared.Errors.{ok, got}
use zorch.External.Redis.{Redis}
use zorch.Gateway.KeyLimits.{spend_key}
use zorch.Gateway.Governance.{
  allow, KeyRow, budget_decision, get_current_spend, check_spend, check_models, check_expiry,
  check_request,
}

-- The model may be used: the key has no list, an empty one, or one that holds it.
abbrev pub MayUse : Option (List String) → String → Type 0
MayUse none model = Unit
MayUse (some models) model = (is_empty models ≡ true) ⊎ (any (λ m. m == model) models ≡ true)

abbrev pub Unexpired : ℕ → Option ℕ → Type 0
Unexpired now none = Unit
Unexpired now (some t) = now ≤ t

-- There is no budget, or it is not zero and the spend is below it and not above four fifths of it.
abbrev pub BelowAlert : Fpu → Option F64 → F64 → Type 0
BelowAlert fpu none spend = Unit
BelowAlert fpu (some budget) spend =
    (fpu.eq budget f64_zero ≡ false)
    × (fpu.le f64_one (fpu.div spend budget) ≡ false)
    × (fpu.lt f64_0_8 (fpu.div spend budget) ≡ false)

module _ (r : Redis) (fpu : Fpu) (now : ℕ) (id model : String) (key : KeyRow) (s : r.Server) where
  -- Where the server answers, a plain `allow` is given exactly for a key that is active and has not
  -- expired, a model that it may use, and a key without a budget or with a budget that is not zero
  -- and a spend that is below it and not above four fifths of it.
  pub check_request-allow_iff :
      (spend : Option F64)
      → r.connect s ≡ got tt
      → r.get_float now (spend_key id) s ≡ got spend
      → (check_request r fpu now (got (some key)) id model s ≡ (ok allow, s)) ↔ (
          (key.is_active ≡ got true)
          × Unexpired now key.expires_at
          × MayUse key.allowed_models model
          × BelowAlert fpu key.max_spend_usd (unwrap_or spend f64_zero))
  unfolding check_request check_expiry check_models check_spend get_current_spend budget_decision
  check_request-allow_iff spend c g = (λ h. ground arith, λ h. ground arith)
