-- ===== src/Gateway/Billing/Examples.antt =====
-- A record with a cost, and one with a negative latency.
use zorch.Prelude.{◌≡◌, refl, String, none, ◌↔◌, [], ◌∷◌}
use zorch.Prelude.Int.{pos, negsuc}
use zorch.Shared.Float.{integers, f64_zero}
use zorch.Shared.Errors.{ok, err, validation, text}
use zorch.Gateway.Billing.{BillingRecord, with_error, IsBillable, with_error-ok_iff}

abbrev billed : BillingRecord String
billed = record {
  request_id = 1;
  api_key_id = 2;
  organization_id = 3;
  provider = "openai";
  provider_api_key_id = none;
  model = "gpt-4o";
  public_model = "gpt-4";
  input_tokens = 100;
  output_tokens = 50;
  provider_cost = 10;
  markup_percent = f64_zero;
  status_code = pos 200;
  latency_ms = pos 1234;
  provider_latency_ms = pos 1100;
  gateway_latency_ms = pos 134;
  tags = "[]";
  error_message = none;
}

with_error-ok_iff_example :
    (with_error integers billed ≡ ok billed) ↔ (IsBillable integers billed × (billed ≡ billed))
with_error-ok_iff_example = with_error-ok_iff integers billed billed

late :
    with_error integers (record billed { latency_ms = negsuc 0 })
    ≡ err (validation (text "latency_ms must be non-negative" ∷ []))
unfolding with_error
late = refl
