-- ===== src/Api/Prices/Examples.antt =====
-- A price that is set over the one that is built in.
use zorch.Prelude.{none, some, List, [], ◌∷◌, true}
use zorch.Prelude.Classes.{string_eq}
use zorch.Shared.Float.{integers}
use zorch.Shared.Errors.{got}
use zorch.Gateway.Pricing
use zorch.Gateway.Pricing.{get_pricing, gpt_4o}
use zorch.Api.Prices
use zorch.Api.Prices.{SetPricingRequest, PriceRow, PriceTable, NewPrice, Priced, set_pricing}

abbrev stored_row : NewPrice → PriceRow
stored_row price = record {
  provider = got price.provider;
  model = got price.model;
  input_cost_per_1m = got price.input_cost_per_1m;
  output_cost_per_1m = got price.output_cost_per_1m;
  markup_percent = got price.markup_percent;
  max_context_tokens = got price.max_context_tokens;
}

-- The state is the list of the rows.
abbrev table : PriceTable (List PriceRow)
table = record {
  fpu = integers;
  parse_uuid = λ s. none;
  show_uuid = λ n. "5";
  find_provider = λ name w. (got (some (got 5)), w);
  has_target_model = λ id model w. (got true, w);
  upsert = λ price w. (got (got 9), stored_row price ∷ w);
  delete = λ id w. (got 0, w);
  price_rows = λ w. (got w, w);
}

abbrev request : SetPricingRequest
request = record {
  provider = "openai";
  model = "gpt-4o";
  input_cost_per_1m = 1;
  output_cost_per_1m = 2;
  markup_percent = 3;
  max_context_tokens = some 8;
}

abbrev before : Priced (List PriceRow)
before = record { db = []; pricing = Pricing.new }

abbrev after : Priced (List PriceRow)
after = (set_pricing table request before).1
