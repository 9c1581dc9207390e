-- ===== src/Gateway/Governance/Examples.antt =====
-- Decisions on concrete keys.
use zorch.Prelude.{◌≡◌, ◌↔◌, refl, true, some, none, [], ◌∷◌, unwrap_or}
use zorch.Prelude.Map.{lookup}
use zorch.Shared.Float.{integers, f64_zero, f64_hundred}
use zorch.Shared.Errors.{ok, got}
use zorch.External.Redis.Memory.{memory, blank}
use zorch.Gateway.Governance.{allow, KeyRow, check_request}
use zorch.Gateway.Governance.Decision.{MayUse, Unexpired, BelowAlert, check_request-allow_iff}

abbrev row : KeyRow
row = record {
  is_active = got true;
  expires_at = some 50;
  allowed_models = some ("m" ∷ []);
  max_spend_usd = some f64_hundred;
}

check_request-allow_iff_example :
    (check_request memory integers 40 (got (some row)) "k" "m" blank ≡ (ok allow, blank)) ↔ (
      (row.is_active ≡ got true)
      × Unexpired 40 row.expires_at
      × MayUse row.allowed_models "m"
      × BelowAlert integers row.max_spend_usd (unwrap_or none f64_zero))
unfolding lookup
check_request-allow_iff_example =
    check_request-allow_iff memory integers 40 "k" "m" row blank none refl refl
