-- ===== src/Api/Loading.antt =====
-- crates/zorch-api/src/server/providers.rs. The rows of the database come from outside, a column of
-- a row may fail to be read, and the logging is left out.
pub mod Fallback
pub mod Reload
pub mod Served
mod Examples
use zorch.Prelude.{
  ℕ, Bool, true, false, String, Option, none, some, List, [], ◌∷◌, ◌++◌, any, is_empty,
  if◌then◌else◌,
}
use zorch.Prelude.Int.{ℤ, pos}
use zorch.Prelude.Classes.{◌==◌, nat_eq, string_eq}
use zorch.Prelude.Map.{lookup, insert}
use zorch.Shared.Errors.{
  Result, ok, err, AppError, Message, text, internal, database, Reply, got, failed, map_err,
}
use zorch.Shared.Action.{Action, lift, pure, call, ◌>>=◌, ◌>>◌}
use zorch.Shared.Crypto.{Ciphers, SecretVault, encrypt}
use zorch.Providers.Errors.{ProviderError}
use zorch.Providers.HttpClient
use zorch.Providers.AuthHeaders.{AuthType, bearer, anthropic, ProviderApiKey, from_config}
use zorch.Providers.Proxy.{ProxyProvider}
use zorch.Providers.Registry
use zorch.Providers.Registry.{ProxyProviderRegistry, register}
use zorch.Providers.ModelResolver
use zorch.Providers.ModelResolver.{ModelResolver, add_target}

pub record ProviderRow : Type 0 where
  pub id : Reply ℕ
  pub name : Reply String
  pub base_url : Reply String
  pub auth_type : Reply String
  pub auth_header_name : Reply String
  pub auth_prefix : Reply String

pub record KeyRow : Type 0 where
  pub id : Reply ℕ
  pub provider_id : Reply ℕ
  pub encrypted_key : Reply String

pub record TargetModelRow : Type 0 where
  pub provider_id : Reply ℕ
  pub target_model : Reply String

pub record AliasRow : Type 0 where
  pub public_name : Reply String
  pub provider_name : Reply String
  pub target_model : Reply String
  pub priority : Reply ℤ

pub record ProviderBuildInfo : Type 0 where
  pub id : ℕ
  pub name : String
  pub base_url : String
  pub auth_type : AuthType
  pub keys : List ProviderApiKey
  pub target_models : List String

abbrev pub Builds : Type 0
Builds = List (ℕ × ProviderBuildInfo)

-- The two keys of AppConfig that the fallback reads.
pub record FallbackKeys : Type 0 where
  pub openai_api_key : Option String
  pub anthropic_api_key : Option String

pub record Deployment (W : Type 0) : Type 0 where
  pub to_lowercase : String → String
  pub show_error : ProviderError → Message
  pub active_providers : W → Reply (List ProviderRow) × W
  pub active_keys : W → Reply (List KeyRow) × W
  pub active_target_models : W → Reply (List TargetModelRow) × W
  pub active_aliases : W → Reply (List AliasRow) × W
  pub new_uuid : W → ℕ × W
  -- HashMap::into_values and the iteration of a HashSet, in an order that is not fixed
  pub into_values : Builds → W → List ProviderBuildInfo × W
  pub listed : List String → W → List String × W
  pub ciphers : Ciphers W

abbrev pub Loaded : Type 0
Loaded = ProxyProviderRegistry × ModelResolver

abbrev pub column : {A : Type 0} → String → Reply A → Result A
column what reply = map_err (λ e. internal (text what ∷ text e ∷ [])) reply

-- `.ok()`
abbrev pub ok_of : {A : Type 0} → Reply A → Option A
ok_of (got a) = some a
ok_of (failed e) = none

unfoldable pub add_key : ℕ → ProviderApiKey → Builds → Builds
add_key provider_id key builds = elim (lookup provider_id builds) [
  | none ↦ builds
  | some build ↦ insert provider_id (record build { keys = build.keys ++ key ∷ [] }) builds
]

unfoldable pub include : String → List String → List String
include model models = if any (λ m. m == model) models then models else models ++ model ∷ []

unfoldable pub add_target_model : ℕ → String → Builds → Builds
add_target_model provider_id model builds = elim (lookup provider_id builds) [
  | none ↦ builds
  | some build ↦
      insert provider_id (record build { target_models = include model build.target_models }) builds
]

module _ {W : Type 0} (deployment : Deployment W) where
  unfoldable pub auth_of : String → HttpClient.Outcome AuthType → Result AuthType
  auth_of name (HttpClient.ok auth_type) = ok auth_type
  auth_of name (HttpClient.err e) = err (
      internal (
        text "Invalid auth_type for provider '" ∷ text name ∷ text "': " ∷ deployment.show_error e))

  unfoldable pub build_of : ProviderRow → Action W ProviderBuildInfo
  build_of row = do
    id ← lift (column "Missing provider id: " row.id)
    name ← lift (column "Missing provider name: " row.name)
    base_url ← lift (column "Missing provider base_url: " row.base_url)
    auth_type ← lift (column "Missing provider auth_type: " row.auth_type)
    auth ← lift (
        auth_of name (
          from_config deployment.to_lowercase auth_type (ok_of row.auth_header_name)
            (ok_of row.auth_prefix)))
    pure (record {
      id = id;
      name = name;
      base_url = base_url;
      auth_type = auth;
      keys = [];
      target_models = [];
    })

  unfoldable pub add_providers : List ProviderRow → Builds → Action W Builds
  add_providers [] builds = pure builds
  add_providers (row ∷ rows) builds = do
    build ← build_of row
    add_providers rows (insert build.id build builds)

  unfoldable pub add_keys : List KeyRow → Builds → Action W Builds
  add_keys [] builds = pure builds
  add_keys (row ∷ rows) builds = do
    id ← lift (column "Missing provider_api_key id: " row.id)
    provider_id ← lift (column "Missing provider_api_key provider_id: " row.provider_id)
    encrypted_key ← lift (column "Missing provider_api_key encrypted_key: " row.encrypted_key)
    add_keys rows (add_key provider_id (record { id = id; encrypted_key = encrypted_key }) builds)

  unfoldable pub add_target_models : List TargetModelRow → Builds → Action W Builds
  add_target_models [] builds = pure builds
  add_target_models (row ∷ rows) builds = do
    provider_id ← lift (column "Missing provider_target_model provider_id: " row.provider_id)
    model ← lift (column "Missing provider_target_model target_model: " row.target_model)
    add_target_models rows (add_target_model provider_id model builds)

  unfoldable pub add_aliases : List AliasRow → ModelResolver → Action W ModelResolver
  add_aliases [] resolver = pure resolver
  add_aliases (row ∷ rows) resolver = do
    public_name ← lift (column "Missing public_name in alias target: " row.public_name)
    provider_name ← lift (column "Missing provider_name in alias target: " row.provider_name)
    target_model ← lift (column "Missing target_model in alias target: " row.target_model)
    priority ← lift (column "Missing priority in alias target: " row.priority)
    add_aliases rows (
        add_target public_name
          (record { provider_id = provider_name; target_model = target_model; priority = priority })
          resolver)

  unfoldable pub provider_of : ProviderBuildInfo → List String → ProxyProvider
  provider_of build models = record {
    backend_id = build.id;
    provider_id = build.name;
    base_url = build.base_url;
    api_keys = build.keys;
    models = models;
    auth_type = build.auth_type;
  }

  unfoldable pub register_build :
      ProviderBuildInfo → ProxyProviderRegistry → W → ProxyProviderRegistry × W
  register_build build registry w =
      if is_empty build.target_models
      then (registry, w)
      else if is_empty build.keys
      then (registry, w)
      else let (models, w') = deployment.listed build.target_models w in
        (register (provider_of build models) registry, w')

  unfoldable pub register_builds :
      List ProviderBuildInfo → ProxyProviderRegistry → W → ProxyProviderRegistry × W
  register_builds [] registry w = (registry, w)
  register_builds (build ∷ builds) registry w =
      let (registry', w') = register_build build registry w in register_builds builds registry' w'
