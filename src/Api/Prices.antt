-- ===== src/Api/Prices.antt =====
-- crates/zorch-api/src/routes/admin/pricing.rs: the routes that change prices. The state is the
-- database, whose queries are parameters, and the engine that the server has in use.
pub mod Refresh
mod Examples
use zorch.Prelude.{
  ℕ, Bool, true, false, ◌||◌, String, Option, none, some, List, [], ◌∷◌, nat_beq, unwrap_or,
  if◌then◌else◌,
}
use zorch.Prelude.Int.{ℤ, as_u64, as_i64, pos}
use zorch.Prelude.Classes.{◌==◌, string_eq}
use zorch.Shared.Float.{F64, Fpu, f64_zero}
use zorch.Shared.Errors.{
  Result, ok, err, AppError, text, bad_request, not_found, internal, database, Reply, got, failed,
  map_err,
}
use zorch.Shared.Action.{Action, lift, pure, ◌>>=◌, ◌>>◌}
use zorch.Gateway.Pricing
use zorch.Gateway.Pricing.{ModelPricing, PricingEngine, register}

pub record SetPricingRequest : Type 0 where
  pub provider : String
  pub model : String
  pub input_cost_per_1m : F64
  pub output_cost_per_1m : F64
  pub markup_percent : F64
  pub max_context_tokens : Option ℕ  -- u64

-- A row of provider_model_config; a column may fail to be read.
pub record PriceRow : Type 0 where
  pub provider : Reply String
  pub model : Reply String
  pub input_cost_per_1m : Reply F64
  pub output_cost_per_1m : Reply F64
  pub markup_percent : Reply F64
  pub max_context_tokens : Reply ℤ  -- i64

-- The arguments of the INSERT, in their order
pub record NewPrice : Type 0 where
  pub provider_id : ℕ
  pub provider : String
  pub model : String
  pub input_cost_per_1m : F64
  pub output_cost_per_1m : F64
  pub markup_percent : F64
  pub max_context_tokens : ℤ  -- i64

pub record PriceTable (W : Type 0) : Type 0 where
  pub fpu : Fpu
  pub parse_uuid : String → Option ℕ
  pub show_uuid : ℕ → String
  pub find_provider : String → W → Reply (Option (Reply ℕ)) × W
  pub has_target_model : ℕ → String → W → Reply Bool × W
  -- The id of the row that was inserted or updated
  pub upsert : NewPrice → W → Reply (Reply ℕ) × W
  -- The rows affected
  pub delete : ℕ → W → Reply ℕ × W
  pub price_rows : W → Reply (List PriceRow) × W

pub record Priced (W : Type 0) : Type 0 where
  pub db : W
  pub pricing : PricingEngine

-- `unwrap_or` and `unwrap_or_default`
abbrev pub got_or : {A : Type 0} → Reply A → A → A
got_or (got a) d = a
got_or (failed e) d = d

unfoldable pub row_to_engine_pricing : PriceRow → ModelPricing
row_to_engine_pricing row = record {
  provider = got_or row.provider "";
  model = got_or row.model "";
  input_cost_per_1m = got_or row.input_cost_per_1m f64_zero;
  output_cost_per_1m = got_or row.output_cost_per_1m f64_zero;
  markup_percent = got_or row.markup_percent f64_zero;
  max_context_tokens = as_u64 (got_or row.max_context_tokens (pos 0));
}

unfoldable pub register_rows : List PriceRow → PricingEngine → PricingEngine
register_rows [] engine = engine
register_rows (row ∷ rows) engine = register_rows rows (register (row_to_engine_pricing row) engine)

unfoldable pub validate_set_pricing : Fpu → SetPricingRequest → Result (Unit {0})
validate_set_pricing fpu req =
    if req.provider == "" || req.model == ""
    then err (bad_request (text "Provider and model are required" ∷ []))
    else if fpu.lt req.input_cost_per_1m f64_zero
        || (fpu.lt req.output_cost_per_1m f64_zero || fpu.lt req.markup_percent f64_zero)
    then err (bad_request (text "Costs and markup must be non-negative" ∷ []))
    else ok tt

unfoldable pub new_price : ℕ → SetPricingRequest → NewPrice
new_price provider_id req = record {
  provider_id = provider_id;
  provider = req.provider;
  model = req.model;
  input_cost_per_1m = req.input_cost_per_1m;
  output_cost_per_1m = req.output_cost_per_1m;
  markup_percent = req.markup_percent;
  max_context_tokens = as_i64 (unwrap_or req.max_context_tokens 0);
}

unfoldable pub provider_found : String → Option (Reply ℕ) → Result ℕ
provider_found name none = err (
    bad_request (
      text "Provider '"
      ∷ text name
      ∷ text "' does not exist. Add it on the Providers page before setting pricing."
      ∷ []))
provider_found name (some id) =
    map_err (λ e. internal (text "Failed to read provider id: " ∷ text e ∷ [])) id

module _ {W : Type 0} (table : PriceTable W) where
  -- A query of the database
  abbrev pub query : {A : Type 0} → String → (W → Reply A × W) → Action (Priced W) A
  query what command s =
      let (reply, db) = command s.db in
      (map_err (λ e. database (text what ∷ text e ∷ [])) reply, record s { db = db })

  unfoldable pub lookup_provider_id : String → Action (Priced W) ℕ
  lookup_provider_id name = do
    row ← query "Failed to lookup provider id: " (table.find_provider name)
    lift (provider_found name row)

  unfoldable pub must_exist : ℕ → String → Bool → Result (Unit {0})
  must_exist provider_id model true = ok tt
  must_exist provider_id model false = err (
      bad_request (
        text "Target model '"
        ∷ text model
        ∷ text "' is not registered for provider '"
        ∷ text (table.show_uuid provider_id)
        ∷ text "'. Add it on the provider's Target Models page first."
        ∷ []))

  unfoldable pub validate_target_model_exists : ℕ → String → Action (Priced W) (Unit {0})
  validate_target_model_exists provider_id model = do
    exists ← query "Failed to validate target model: " (table.has_target_model provider_id model)
    lift (must_exist provider_id model exists)

  unfoldable pub reload_pricing : Action (Priced W) (Unit {0})
  reload_pricing = do
    rows ← query "Failed to load pricing: " table.price_rows
    λ s. (ok tt, record s { pricing = register_rows rows Pricing.new })

  -- The part of `set_pricing` that follows its checks.
  unfoldable pub store_pricing : NewPrice → Action (Priced W) ℕ
  store_pricing price = do
    row ← query "Failed to set pricing: " (table.upsert price)
    id ← lift (map_err (λ e. internal (text "Failed to get pricing id: " ∷ text e ∷ [])) row)
    reload_pricing
    pure id

  unfoldable pub set_pricing : SetPricingRequest → Action (Priced W) ℕ
  set_pricing req = do
    lift (validate_set_pricing table.fpu req)
    provider_id ← lookup_provider_id req.provider
    validate_target_model_exists provider_id req.model
    store_pricing (new_price provider_id req)

  unfoldable pub pricing_id_of : String → Result ℕ
  pricing_id_of pricing_id = elim (table.parse_uuid pricing_id) [
    | none ↦ err (bad_request (text "Invalid UUID format" ∷ []))
    | some id ↦ ok id
  ]

  unfoldable pub removed : ℕ → Result (Unit {0})
  removed rows =
      if nat_beq rows 0 then err (not_found (text "Pricing entry not found" ∷ [])) else ok tt

  unfoldable pub delete_pricing : String → Action (Priced W) (Unit {0})
  delete_pricing pricing_id = do
    id ← lift (pricing_id_of pricing_id)
    rows ← query "Failed to delete pricing: " (table.delete id)
    lift (removed rows)
    reload_pricing
