-- ===== src/Gateway/Pricing.antt =====
-- crates/zorch-gateway/src/pricing.rs
use zorch.Prelude.{ℕ, ◌≡◌, String, Option, none, some, List, [], if◌then◌else◌, arith}
use zorch.Prelude.Classes.{◌==◌}
use zorch.Prelude.Map.{lookup, insert, lookup-insert}
use zorch.Shared.Float.{F64, Fpu, f64_zero, f64_one, f64_hundred, f64_million}
use zorch.Providers.Registry.{pool_key_eq}

pub record ModelPricing : Type 0 where
  pub provider : String
  pub model : String
  pub input_cost_per_1m : F64
  pub output_cost_per_1m : F64
  pub markup_percent : F64
  pub max_context_tokens : ℕ  -- u64

pub record PricingEngine : Type 0 where
  pub prices : List ((String × String) × ModelPricing)

unfoldable pub register : ModelPricing → PricingEngine → PricingEngine
register pricing engine = record {
  prices = insert (pricing.provider, pricing.model) pricing engine.prices;
}

-- 2500.0 and 10000.0 dollars
abbrev pub gpt_4o : ModelPricing
gpt_4o = record {
  provider = "openai";
  model = "gpt-4o";
  input_cost_per_1m = 4657715973212602368;
  output_cost_per_1m = 4666723172467343360;
  markup_percent = f64_zero;
  max_context_tokens = 0;
}

-- 150.0 and 600.0 dollars
abbrev gpt_4o_mini : ModelPricing
gpt_4o_mini = record {
  provider = "openai";
  model = "gpt-4o-mini";
  input_cost_per_1m = 4639481672377565184;
  output_cost_per_1m = 4648488871632306176;
  markup_percent = f64_zero;
  max_context_tokens = 0;
}

-- 3000.0 and 15000.0 dollars
abbrev claude_3_5_sonnet : ModelPricing
claude_3_5_sonnet = record {
  provider = "anthropic";
  model = "claude-3-5-sonnet";
  input_cost_per_1m = 4658815484840378368;
  output_cost_per_1m = 4669471951536783360;
  markup_percent = f64_zero;
  max_context_tokens = 0;
}

-- 15000.0 and 75000.0 dollars
abbrev claude_3_opus : ModelPricing
claude_3_opus = record {
  provider = "anthropic";
  model = "claude-3-opus";
  input_cost_per_1m = 4669471951536783360;
  output_cost_per_1m = 4679890373965774848;
  markup_percent = f64_zero;
  max_context_tokens = 0;
}

unfoldable pub new : PricingEngine
new =
    register claude_3_opus
      (register claude_3_5_sonnet (register gpt_4o_mini (register gpt_4o (record { prices = [] }))))

unfoldable pub get_pricing : PricingEngine → String → String → Option ModelPricing
get_pricing engine provider model =
    let key : String × String = (provider, model) in lookup key engine.prices

module _ (fpu : Fpu) where
  -- The provider's cost and the total with the markup.
  unfoldable pub cost_of : ModelPricing → ℕ → ℕ → F64 × F64
  cost_of pricing input_tokens output_tokens =
      let input_cost =
        fpu.mul (fpu.div (fpu.of_int input_tokens) f64_million) pricing.input_cost_per_1m in
      let output_cost =
        fpu.mul (fpu.div (fpu.of_int output_tokens) f64_million) pricing.output_cost_per_1m in
      let provider_cost = fpu.add input_cost output_cost in
      (
        provider_cost,
        fpu.mul provider_cost (fpu.add f64_one (fpu.div pricing.markup_percent f64_hundred)),
      )

  unfoldable pub cost_if_known : Option ModelPricing → ℕ → ℕ → F64 × F64
  cost_if_known none input_tokens output_tokens = (f64_zero, f64_zero)
  cost_if_known (some pricing) input_tokens output_tokens =
      cost_of pricing input_tokens output_tokens

  unfoldable pub calculate_cost : PricingEngine → String → String → ℕ → ℕ → F64 × F64
  calculate_cost engine provider model input_tokens output_tokens =
      let key : String × String = (provider, model) in
      cost_if_known (lookup key engine.prices) input_tokens output_tokens

  -- After a registration the cost of its provider and model follows its prices, in place of any
  -- that were registered before, and the cost of every other pair is what it was.
  pub calculate_cost-register :
      (pricing : ModelPricing) (engine : PricingEngine) (provider model : String)
      (input_tokens output_tokens : ℕ)
      → calculate_cost (register pricing engine) provider model input_tokens output_tokens ≡ (
          if ◌==◌ {K = String × String} (pricing.provider, pricing.model) (provider, model)
          then cost_of pricing input_tokens output_tokens
          else calculate_cost engine provider model input_tokens output_tokens)
  unfolding calculate_cost cost_if_known register
  calculate_cost-register pricing engine provider model input_tokens output_tokens =
      let key : String × String = (pricing.provider, pricing.model) in
      let asked : String × String = (provider, model) in
      ground (arith, lookup-insert key asked pricing engine.prices)
