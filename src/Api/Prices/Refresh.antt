-- ===== src/Api/Prices/Refresh.antt =====
-- Which prices are in use after a change.
use zorch.Prelude.{false, String, Option, some, List, [], ◌∷◌, ◌≡◌, if◌then◌else◌}
use zorch.Prelude.Classes.{◌==◌, string_eq}
use zorch.Providers.Registry.{pool_key_eq}
use zorch.Shared.Float.{Fpu, f64_zero}
use zorch.Shared.Errors.{got}
use zorch.Shared.Action.{Action}
use zorch.Gateway.Pricing
use zorch.Gateway.Pricing.{ModelPricing, get_pricing}
use zorch.Api.Prices.{SetPricingRequest, PriceRow, PriceTable, Priced, row_to_engine_pricing}

-- The price that the last row for a provider and a model gives, or the one before the rows.
abbrev pub last_price : String → String → List PriceRow → Option ModelPricing → Option ModelPricing
last_price provider model [] seen = seen
last_price provider model (row ∷ rows) seen =
    let price = row_to_engine_pricing row in
    last_price provider model rows (
      if ◌==◌ {K = String × String} (price.provider, price.model) (provider, model)
      then some price
      else seen)

-- A provider and a model are named, and no number is below zero.
abbrev pub IsPrice : Fpu → SetPricingRequest → Type 0
IsPrice fpu req =
    ((req.provider == "") ≡ false)
    × ((req.model == "") ≡ false)
    × (fpu.lt req.input_cost_per_1m f64_zero ≡ false)
    × (fpu.lt req.output_cost_per_1m f64_zero ≡ false)
    × (fpu.lt req.markup_percent f64_zero ≡ false)

module _ {W : Type 0} (table : PriceTable W) where
  -- The rows of a state are read, and the engine has their prices.
  abbrev pub IsRefreshed : W → Priced W → String → String → Type 0
  IsRefreshed w t provider model =
      (rows : List PriceRow) × (table.price_rows w ≡ (got rows, t.db))
      × (get_pricing t.pricing provider model
          ≡ last_price provider model rows (get_pricing Pricing.new provider model))
