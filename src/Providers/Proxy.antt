-- ===== src/Providers/Proxy.antt =====
-- crates/zorch-providers/src/proxy.rs. `Vault` stands for SecretVault of zorch-shared, whose
-- ciphers are a library's.
pub mod Headers
pub mod Failover
pub mod Answers
pub mod Examples
use Prim.Native.Char.{code}
use zorch.Prelude.{
  ℕ, zero, suc, ◌+◌, ◌%◌, Bool, true, false, ◌&&◌, ◌||◌, String, Option, none, some, List, [], ◌∷◌,
  ◌≡◌, leb, ltb, nat_beq, if◌then◌else◌, unwrap_or, length, get_elem?, is_empty,
}
use zorch.Prelude.Classes.{◌==◌, nat_eq, string_eq}
use zorch.Shared.Errors.{Reply, text, num}
use zorch.Shared.Float.{Fpu}
use zorch.Shared.Text.{◌+++◌}
use zorch.Providers.Errors.{ProviderError, internal, network}
use zorch.Providers.HttpClient.{
  Outcome, ok, err, Network, RetryConfig, Request, Response, execute_with_retry,
}
use zorch.Providers.AuthHeaders.{
  HeaderMap, Http, AuthType, ProviderApiKey, and_then, or_internal, from_auth_type,
  with_content_type,
}

pub record Vault : Type 0 where
  pub decrypt : String → Reply String

pub record ProxiedResponse : Type 0 where
  pub api_key_id : ℕ
  pub response : Response

-- The client's settings and the vault are arguments of the operations.
pub record ProxyProvider : Type 0 where
  pub backend_id : ℕ
  pub provider_id : String
  pub base_url : String
  pub api_keys : List ProviderApiKey
  pub models : List String
  pub auth_type : AuthType

-- `trim_end_matches('/')`
unfoldable pub trim_end_slashes : String → String
trim_end_slashes String.[] = ""
trim_end_slashes (String.◌∷◌ c s) =
    let rest = trim_end_slashes s in
    if nat_beq (code c) 47 && rest == "" then "" else String.◌∷◌ c rest

-- `position(|k| k.id == *key_id)`
unfoldable pub position : ℕ → List ProviderApiKey → Option ℕ
position key_id [] = none
position key_id (k ∷ keys) =
    let rest = position key_id keys in
    if k.id == key_id then some 0 else elim rest [ none ↦ none | some i ↦ some (suc i) ]

unfoldable pub find_key_index : ProxyProvider → ℕ → Option ℕ
find_key_index provider key_id = position key_id provider.api_keys

unfoldable pub is_retryable_status : ℕ → Bool
is_retryable_status status = (leb 500 status && ltb status 600) || nat_beq status 429

abbrev pub hop_headers : List String
hop_headers = "host" ∷ "connection" ∷ "keep-alive" ∷ "transfer-encoding" ∷ "expect" ∷ []

-- `preferred_key_id.and_then(find_key_index).unwrap_or(0)`
unfoldable pub start_index : ProxyProvider → Option ℕ → ℕ
start_index provider none = 0
start_index provider (some key_id) = unwrap_or (find_key_index provider key_id) 0

module _ (http : Http) where
  unfoldable pub remove_all : List String → HeaderMap → HeaderMap
  remove_all [] headers = headers
  remove_all (key ∷ keys) headers = remove_all keys (http.remove_header key headers)

  -- A header of the provider is added where the client sent none of its name.
  unfoldable pub fill_in : HeaderMap → HeaderMap → HeaderMap
  fill_in [] headers = headers
  fill_in ((key, value) ∷ rest) headers =
      fill_in rest
        (if http.contains_key headers key then headers else http.insert_header key value headers)

  -- The request that goes out with a key's headers.
  unfoldable pub outgoing :
      ProxyProvider → String → String → HeaderMap → String → HeaderMap → Request
  outgoing provider method path headers body provider_headers = record {
    method = method;
    url = trim_end_slashes provider.base_url +++ path;
    headers = fill_in provider_headers (remove_all hop_headers headers);
    body = body;
  }

  module _ (vault : Vault) (provider : ProxyProvider) where
    unfoldable pub decrypt_key : Option ProviderApiKey → Outcome String
    decrypt_key none = err (internal (text "API key index out of range" ∷ []))
    decrypt_key (some key) =
        or_internal "Failed to decrypt API key: " (vault.decrypt key.encrypted_key)

    unfoldable pub decrypt_api_key : ℕ → Outcome String
    decrypt_api_key index = decrypt_key (get_elem? provider.api_keys index)

    unfoldable pub build_headers : ℕ → Outcome HeaderMap
    build_headers key_index = and_then (decrypt_api_key key_index) (λ api_key.
        and_then (from_auth_type http api_key provider.auth_type)
          (λ headers. ok (with_content_type http headers)))

    -- the id behind `self.api_keys[index]`, which is in range when headers were built
    unfoldable pub key_id : ℕ → ℕ
    key_id index = elim (get_elem? provider.api_keys index) [ none ↦ 0 | some key ↦ key.id ]

    module _ {W : Type 0} (net : Network W) (fpu : Fpu) (config : RetryConfig) where
      -- What one key gives: a response, or the error that becomes `last_error`.
      judge : ℕ → Outcome Response → Outcome ProxiedResponse
      judge index (ok response) =
          if is_retryable_status response.status
          then err (network (text "Upstream returned retryable status " ∷ num response.status ∷ []))
          else ok (record { api_key_id = key_id index; response = response })
      judge index (err e) = err e

      send_with : Outcome HeaderMap → (HeaderMap → Request) → ℕ → W → Outcome ProxiedResponse × W
      unfolding judge
      send_with (err e) request index w = (err e, w)
      send_with (ok provider_headers) request index w =
          let (r, w') = execute_with_retry net fpu config (request provider_headers) w in
          (judge index r, w')

      -- The body of the loop for one index.
      unfoldable pub try_key : (HeaderMap → Request) → ℕ → W → Outcome ProxiedResponse × W
      unfolding send_with
      try_key request index w = send_with (build_headers index) request index w

      next_or_done :
          Outcome ProxiedResponse × W
          → (ProviderError → W → Outcome ProxiedResponse × W)
          → Outcome ProxiedResponse × W
      next_or_done (ok response, w) next = (ok response, w)
      next_or_done (err e, w) next = next e w

      -- The last `remaining` offsets of `for offset in 0..len`.
      unfoldable pub offsets :
          (HeaderMap → Request) → ℕ → ℕ → ℕ → Option ProviderError → W → Outcome ProxiedResponse × W
      unfolding next_or_done
      offsets request start zero offset last_error w =
          (err (unwrap_or last_error (network (text "No API keys available" ∷ []))), w)
      offsets request start (suc remaining) offset last_error w =
          next_or_done (try_key request ((start + offset) % length provider.api_keys) w)
            (λ e w'. offsets request start remaining (offset + 1) (some e) w')

      unfoldable pub proxy_request :
          Option ℕ → String → String → HeaderMap → String → W → Outcome ProxiedResponse × W
      proxy_request preferred_key_id method path headers body w =
          offsets (outgoing provider method path headers body)
            (start_index provider preferred_key_id) (length provider.api_keys) 0 none w
