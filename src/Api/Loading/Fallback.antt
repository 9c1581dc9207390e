-- ===== src/Api/Loading/Fallback.antt =====
-- The fallback of crates/zorch-api/src/server/providers.rs, to the keys of the configuration.
use zorch.Prelude.{Bool, true, false, String, Option, none, some, List, [], ◌∷◌}
use zorch.Prelude.Int.{pos}
use zorch.Prelude.Classes.{nat_eq, string_eq}
use zorch.Shared.Errors.{Result, ok, err}
use zorch.Shared.Crypto.{SecretVault, encrypt}
use zorch.Providers.AuthHeaders.{bearer, anthropic}
use zorch.Providers.Proxy.{ProxyProvider}
use zorch.Providers.Registry
use zorch.Providers.Registry.{ProxyProviderRegistry, register}
use zorch.Providers.ModelResolver
use zorch.Providers.ModelResolver.{ModelResolver, add_target}
use zorch.Api.Loading.{Deployment, FallbackKeys, ProviderBuildInfo, Loaded, provider_of}

module _ {W : Type 0} (deployment : Deployment W) where
  unfoldable pub add_own_targets : String → List String → ModelResolver → ModelResolver
  add_own_targets provider_id [] resolver = resolver
  add_own_targets provider_id (model ∷ models) resolver = add_own_targets provider_id models (
      add_target model
        (record { provider_id = provider_id; target_model = model; priority = pos 0 }) resolver)

  unfoldable pub with_encrypted :
      ProviderBuildInfo → Result String → Loaded → W → (Bool × Loaded) × W
  with_encrypted build (err e) loaded w = ((false, loaded), w)
  with_encrypted build (ok encrypted) (registry, resolver) w =
      let (backend_id, w₁) = deployment.new_uuid w in
      let (key_id, w₂) = deployment.new_uuid w₁ in
      let provider : ProxyProvider =
        provider_of deployment
          (record build {
            id = backend_id;
            keys = record { id = key_id; encrypted_key = encrypted } ∷ [];
          })
          build.target_models in
      (
        (
          true,
          (register provider registry, add_own_targets build.name build.target_models resolver),
        ),
        w₂,
      )

  -- Whether the next key is looked at, and what is registered.
  unfoldable pub register_fallback :
      SecretVault → ProviderBuildInfo → Option String → Loaded → W → (Bool × Loaded) × W
  register_fallback vault build none loaded w = ((true, loaded), w)
  register_fallback vault build (some key) loaded w =
      let (encrypted, w') = encrypt deployment.ciphers vault key w in
      with_encrypted build encrypted loaded w'

  unfoldable pub openai_build : ProviderBuildInfo
  openai_build = record {
    id = 0;  -- drawn when it is registered
    name = "openai";
    base_url = "https://api.openai.com/v1";
    auth_type = bearer;
    keys = [];
    target_models = "gpt-4" ∷ "gpt-4o" ∷ [];
  }

  unfoldable pub anthropic_build : ProviderBuildInfo
  anthropic_build = record {
    id = 0;
    name = "anthropic";
    base_url = "https://api.anthropic.com/v1";
    auth_type = anthropic;
    keys = [];
    target_models = "claude-3-5-sonnet" ∷ "claude-3-opus" ∷ [];
  }

  unfoldable pub after_openai : SecretVault → FallbackKeys → (Bool × Loaded) × W → Loaded × W
  after_openai vault cfg ((false, loaded), w) = (loaded, w)
  after_openai vault cfg ((true, loaded), w) =
      let ((more, loaded'), w') =
        register_fallback vault anthropic_build cfg.anthropic_api_key loaded w in
      (loaded', w')

  unfoldable pub register_env_fallback : SecretVault → FallbackKeys → W → Loaded × W
  register_env_fallback vault cfg w =
      after_openai vault cfg (
        register_fallback vault openai_build cfg.openai_api_key (Registry.new, ModelResolver.new) w)
