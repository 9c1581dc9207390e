-- ===== src/Api/Loading/Examples.antt =====
-- Rows of a small database, and witnesses. The state is the next identifier.
use zorch.Prelude.{ap, arith, ℕ, suc, false, String, none, some, [], ◌∷◌, map, is_empty, ◌≡◌, refl}
use zorch.Prelude.Classes.{nat_eq, string_eq}
use zorch.Prelude.Map.{lookup, insert}
use zorch.Shared.Errors.{got, failed, ok}
use zorch.Shared.Crypto.{Ciphers, SecretVault, decoded}
use zorch.Providers.AuthHeaders
use zorch.Providers.Proxy.{ProxyProvider}
use zorch.Providers.Registry
use zorch.Providers.ModelResolver
use zorch.Api.Loading
use zorch.Api.Loading.{
  Deployment, FallbackKeys, ProviderBuildInfo, ProviderRow, KeyRow, TargetModelRow, AliasRow,
  Builds, Loaded,
}
use zorch.Api.Loading.Reload
use zorch.Api.Loading.Reload.{load_providers_and_models, reload_providers_and_models}
use zorch.Api.Loading.Served.{reload_providers_and_models-usable}

abbrev plain : Ciphers ℕ
plain = record {
  sha256 = λ bytes. bytes;
  seal = λ key nonce bytes. got bytes;
  unseal = λ key nonce bytes. some bytes;
  fill_bytes = λ n w. ([], w);
  encode = λ bytes. "sealed";
  decode = λ s. decoded [];
  show_decode_error = λ e. "";
  as_bytes = λ s. [];
  from_utf8 = λ bytes. got "";
}

abbrev row : ℕ → String → ProviderRow
row id name = record {
  id = got id;
  name = got name;
  base_url = got "https://api";
  auth_type = got "bearer";
  auth_header_name = failed "null";
  auth_prefix = failed "null";
}

-- Two providers, of which the second has no key.
abbrev small : Deployment ℕ
small = record {
  to_lowercase = λ s. s;
  show_error = λ e. [];
  active_providers = λ w. (got (row 1 "groq" ∷ row 2 "idle" ∷ []), w);
  active_keys =
      λ w. (got (record { id = got 7; provider_id = got 1; encrypted_key = got "k" } ∷ []), w);
  active_target_models = λ w. (
    got (
        record { provider_id = got 1; target_model = got "llama" }
        ∷ record { provider_id = got 2; target_model = got "none" }
        ∷ []),
    w,
  );
  active_aliases = λ w. (got [], w);
  new_uuid = λ w. (w, suc w);
  into_values = λ builds w. (map (λ b. b.1) builds, w);
  listed = λ models w. (models, w);
  ciphers = plain;
}

abbrev vault : SecretVault
vault = record { key_bytes = [] }

abbrev no_keys : FallbackKeys
no_keys = record { openai_api_key = none; anthropic_api_key = none }

abbrev groq : ProxyProvider
groq = record {
  backend_id = 1;
  provider_id = "groq";
  base_url = "https://api";
  api_keys = record { id = 7; encrypted_key = "k" } ∷ [];
  models = "llama" ∷ [];
  auth_type = AuthHeaders.bearer;
}

abbrev served : Loaded
served = (
  record { backends = (1, groq) ∷ []; pools = (("groq", "llama"), 1 ∷ []) ∷ [] },
  record { index = [] },
)

small_loads : load_providers_and_models small vault no_keys 0 ≡ (ok served, 0)
unfolding load_providers_and_models Reload.load_or_fallback Reload.load_rows Loading.add_providers
    Loading.build_of Loading.auth_of Loading.add_keys Loading.add_key Loading.add_target_models
    Loading.add_target_model Loading.include Loading.add_aliases Loading.register_builds
    Loading.register_build Loading.provider_of Registry.register Registry.add_models
    ModelResolver.new AuthHeaders.from_config lookup insert
small_loads = refl

abbrev before : Loaded
before = (Registry.new, ModelResolver.new)

empty-usable :
    (id : ℕ) (p : ProxyProvider)
    → lookup id before.0.backends ≡ some p
    → (p.backend_id ≡ id) × (is_empty p.api_keys ≡ false) × (is_empty p.models ≡ false)
unfolding lookup
empty-usable id p h = absurd (ground (arith, h))

small_reloads : (reload_providers_and_models small vault no_keys before 0).0.1 ≡ served
unfolding reload_providers_and_models Reload.swapped_in
small_reloads = ap (λ r. (Reload.swapped_in small before r).0.1) small_loads

groq_found :
    lookup 1 (reload_providers_and_models small vault no_keys before 0).0.1.0.backends ≡ some groq
unfolding lookup
groq_found = ap (λ l. lookup 1 l.0.backends) small_reloads

reload_providers_and_models-usable_example :
    (groq.backend_id ≡ 1) × (is_empty groq.api_keys ≡ false) × (is_empty groq.models ≡ false)
reload_providers_and_models-usable_example =
    reload_providers_and_models-usable small (λ models w. refl) vault no_keys before 0 empty-usable
      1 groq groq_found
