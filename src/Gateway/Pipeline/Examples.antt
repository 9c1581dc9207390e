-- ===== src/Gateway/Pipeline/Examples.antt =====
-- A request that passes the whole pipeline.
use zorch.Prelude.{◌≡◌, ◌⊎◌, refl, true, some, none, [], ◌∷◌, any, is_empty}
use zorch.Prelude.Classes.{◌==◌, string_eq}
use zorch.Prelude.Map.{lookup, insert}
use zorch.Shared.Float.{integers}
use zorch.Shared.Errors.{ok, got}
use zorch.External.Redis.Memory.{Memory, memory, blank}
use zorch.Gateway.SlidingWindow.{sliding_window}
use zorch.Gateway.RateLimit.{check_rate_limit}
use zorch.Gateway.KeyLimits.{
  default_config, check_limits, check_budget, check_model, check_sliding_window, expiry_for,
}
use zorch.Gateway.Governance.{KeyRow, check_request, check_expiry, check_models, check_spend}
use zorch.Gateway.Governance.Decision.{MayUse, Unexpired}
use zorch.Gateway.Pipeline.{Draws, PipelineResult, execute, conclude}
use zorch.Gateway.Pipeline.Passing.{execute-ok}

abbrev row : KeyRow
row = record {
  is_active = got true;
  expires_at = none;
  allowed_models = none;
  max_spend_usd = none;
}

abbrev draws : Draws
draws = record {
  clock1 = got 100000;
  clock2 = got 100000;
  utc_now = 100000;
  uuid1 = "a";
  uuid2 = "b";
  uuid3 = "c";
  row = got (some row);
}

abbrev passed : PipelineResult
passed = record { api_key_id = "k"; provider_id = "p"; model_id = "m" }

abbrev after : Memory
after = record {
  sets =
      ("rate_limit:k:m", record { scores = 100000 ∷ []; deadline = some 100120 })
      ∷ ("key_rpm:k", record { scores = 100000 ∷ []; deadline = some 100120 })
      ∷ ("key_rpd:k", record { scores = 100000 ∷ []; deadline = some 186500 })
      ∷ [];
  floats = [];
  texts = [];
  counters = [];
}

execute-ok_example :
    ((check_rate_limit memory (got 100000) "a" "k" "m" 60 100 blank).0 ≡ ok true)
    × ((is_empty default_config.allowed_models ≡ true)
        ⊎ (any (λ m. m == "m") default_config.allowed_models ≡ true))
    × (row.is_active ≡ got true)
    × ((¬ Unexpired 100000 row.expires_at) ⊎ MayUse row.allowed_models "m")
unfolding execute conclude check_rate_limit check_limits check_budget check_model
    check_sliding_window sliding_window expiry_for check_request check_expiry check_models
    check_spend lookup insert
execute-ok_example =
    execute-ok memory integers draws "k" "p" "m" blank after default_config passed row refl refl
