-- ===== src/Api/Usage/Recording.antt =====
-- record_usage of crates/zorch-api/src/routes/v1/proxy/usage.rs: a request is priced, billed and
-- counted towards the budget of its key. The queries of the database are parameters.
use zorch.Prelude.{ℕ, String, Option, none, some, List, ◌≡◌, refl, unwrap_or}
use zorch.Prelude.Int.{ℤ}
use zorch.Prelude.Classes.{string_eq}
use zorch.Prelude.Map.{lookup}
use zorch.Providers.Registry.{pool_key_eq}
use zorch.Shared.Float.{F64, Fpu, f64_zero}
use zorch.Shared.Errors.{Reply, got, failed, Result, ok, err}
use zorch.External.Redis.{Redis}
use zorch.External.Serde.{Serde}
use zorch.Gateway.Pricing.{
  ModelPricing, PricingEngine, calculate_cost, cost_if_known, cost_of, get_pricing,
}
use zorch.Shared.Sql.{Cell, row_of, float}
use zorch.Gateway.Billing
use zorch.Gateway.Billing.{BillingRecord, columns, binds, total_cost, record_request}
use zorch.Gateway.KeyLimits.{record_spend}
use zorch.Api.Usage.{Tokens, parse_usage_from_response}

pub record RequestContext : Type 0 where
  pub api_key_id : ℕ
  pub org_id : ℕ
  pub provider_id : String
  pub provider_api_key_id : Option ℕ
  pub backend_id : ℕ
  pub public_model_id : String
  pub target_model_id : String

pub record Timing : Type 0 where
  pub status_code : ℤ
  pub latency_ms : ℤ
  pub provider_latency_ms : ℤ
  pub gateway_latency_ms : ℤ

-- The database with its queries, and what else the recording takes from outside.
pub record Ledger (Json Db : Type 0) : Type 0 where
  pub fpu : Fpu
  pub select_tags : ℕ → Db → Reply (Option Json)
  pub execute : List (String × Cell Json) → Db → Reply (Unit {0}) × Db
  pub no_tags : Json
  pub now : ℕ
  pub fresh : ℕ
  pub show : ℕ → String

-- `.ok().flatten().unwrap_or(json!([]))`
unfoldable pub fetch_api_key_tags : {Json Db : Type 0} → Ledger Json Db → ℕ → Db → Json
fetch_api_key_tags out api_key_id db = elim (out.select_tags api_key_id db) [
  | got found ↦ unwrap_or found out.no_tags
  | failed e ↦ out.no_tags
]

-- `map(|p| p.markup_percent).unwrap_or(0.0)`
unfoldable pub markup_or_zero : Option ModelPricing → F64
markup_or_zero none = f64_zero
markup_or_zero (some p) = p.markup_percent

module _ {Json Db : Type 0} (out : Ledger Json Db) (engine : PricingEngine)
    (ctx : RequestContext) where
  -- The arguments of `BillingRecord::new`
  unfoldable pub bill : Tokens → Timing → Json → BillingRecord Json
  bill (prompt_tokens, completion_tokens) timing tags = record {
    request_id = out.fresh;
    api_key_id = ctx.api_key_id;
    organization_id = ctx.org_id;
    provider = ctx.provider_id;
    provider_api_key_id = ctx.provider_api_key_id;
    model = ctx.target_model_id;
    public_model = ctx.public_model_id;
    input_tokens = prompt_tokens;
    output_tokens = completion_tokens;
    provider_cost =
        (calculate_cost out.fpu engine ctx.provider_id ctx.target_model_id prompt_tokens
          completion_tokens).0;
    markup_percent = markup_or_zero (get_pricing engine ctx.provider_id ctx.target_model_id);
    status_code = timing.status_code;
    latency_ms = timing.latency_ms;
    provider_latency_ms = timing.provider_latency_ms;
    gateway_latency_ms = timing.gateway_latency_ms;
    tags = tags;
    error_message = none;
  }

  unfoldable pub log : Result (BillingRecord Json) → Db → Db
  log (ok billed) db = (record_request out.fpu out.execute billed db).1
  log (err e) db = db

  -- What a request with some tokens is billed.
  abbrev pub billed_row : Tokens → Timing → Json → List (String × Cell Json)
  billed_row tokens timing tags = row_of columns (binds out.fpu (bill tokens timing tags))

  -- Of a provider and model that have a price, the row of the log holds the two results of
  -- calculate_cost: the provider's cost under "provider_cost" and the total under "total_cost".
  pub lookup-bill :
      (pricing : ModelPricing) (prompt_tokens completion_tokens : ℕ) (timing : Timing) (tags : Json)
      → get_pricing engine ctx.provider_id ctx.target_model_id ≡ some pricing
      → (lookup "provider_cost" (billed_row (prompt_tokens, completion_tokens) timing tags)
          ≡ some (
              float
                (calculate_cost out.fpu engine ctx.provider_id ctx.target_model_id prompt_tokens
                  completion_tokens).0))
        × (lookup "total_cost" (billed_row (prompt_tokens, completion_tokens) timing tags)
            ≡ some (
                float
                  (calculate_cost out.fpu engine ctx.provider_id ctx.target_model_id prompt_tokens
                    completion_tokens).1))
  unfolding lookup row_of binds bill total_cost markup_or_zero get_pricing calculate_cost
      cost_if_known cost_of
  lookup-bill pricing prompt_tokens completion_tokens timing tags h = (refl, rw h refl)

  module _ (r : Redis) where
    -- The errors of both recordings are dropped.
    unfoldable pub record_usage_async : Tokens → Timing → Db × r.Server → Db × r.Server
    record_usage_async tokens timing (db, server) =
        let billed = bill tokens timing (fetch_api_key_tags out ctx.api_key_id db) in
        (
          log (Billing.new out.fpu billed) db,
          (record_spend r out.now (out.show ctx.api_key_id) billed.provider_cost server).1,
        )

    unfoldable pub record_usage : Serde → String → Timing → Db × r.Server → Db × r.Server
    record_usage serde response_bytes timing state =
        record_usage_async (unwrap_or (parse_usage_from_response serde response_bytes) (0, 0))
          timing state
