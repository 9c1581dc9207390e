-- ===== src/Api/Loading/Reload.antt =====
-- The loading and the reloading of crates/zorch-api/src/server/providers.rs.
use zorch.Prelude.{String, List, [], ◌∷◌}
use zorch.Prelude.Classes.{nat_eq, string_eq}
use zorch.Shared.Errors.{Result, ok, err, AppError, text, database}
use zorch.Shared.Action.{Action, call, ◌>>=◌}
use zorch.Shared.Crypto.{SecretVault}
use zorch.Providers.Registry
use zorch.Providers.Registry.{ProxyProviderRegistry, register}
use zorch.Providers.ModelResolver
use zorch.Providers.ModelResolver.{ModelResolver, add_target}
use zorch.Api.Loading.{
  Deployment, FallbackKeys, ProviderRow, Loaded, add_providers, add_keys, add_target_models,
  add_aliases, register_builds,
}
use zorch.Api.Loading.Fallback.{register_env_fallback}

module _ {W : Type 0} (deployment : Deployment W) where
  abbrev pub failed_to : String → String → AppError
  failed_to what e = database (text what ∷ text e ∷ [])

  unfoldable pub load_rows : List ProviderRow → Action W Loaded
  load_rows provider_rows = do
    key_rows ← call (failed_to "Failed to load provider API keys: ") deployment.active_keys
    model_rows ←
        call (failed_to "Failed to load provider target models: ") deployment.active_target_models
    builds ← add_providers deployment provider_rows []
    with_keys ← add_keys deployment key_rows builds
    with_models ← add_target_models deployment model_rows with_keys
    alias_rows ← call (failed_to "Failed to load alias model targets: ") deployment.active_aliases
    resolver ← add_aliases deployment alias_rows ModelResolver.new
    values ← λ w. let (v, w') = deployment.into_values with_models w in (ok v, w')
    λ w.
        let (registry, w') = register_builds deployment values Registry.new w in
        (ok (registry, resolver), w')

  unfoldable pub load_or_fallback : SecretVault → FallbackKeys → List ProviderRow → Action W Loaded
  load_or_fallback vault cfg [] =
      λ w. let (loaded, w') = register_env_fallback deployment vault cfg w in (ok loaded, w')
  load_or_fallback vault cfg (row ∷ rows) = load_rows (row ∷ rows)

  unfoldable pub load_providers_and_models : SecretVault → FallbackKeys → Action W Loaded
  load_providers_and_models vault cfg = do
    rows ← call (failed_to "Failed to load providers from DB: ") deployment.active_providers
    load_or_fallback vault cfg rows

  -- The registry and the resolver in use are replaced only when the loading went well.
  unfoldable pub swapped_in : Loaded → Result Loaded × W → (Result (Unit {0}) × Loaded) × W
  swapped_in current (ok loaded, w) = ((ok tt, loaded), w)
  swapped_in current (err e, w) = ((err e, current), w)

  unfoldable pub reload_providers_and_models :
      SecretVault → FallbackKeys → Loaded → W → (Result (Unit {0}) × Loaded) × W
  reload_providers_and_models vault cfg current w =
      swapped_in current (load_providers_and_models vault cfg w)
