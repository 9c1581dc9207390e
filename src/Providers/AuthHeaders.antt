-- ===== src/Providers/AuthHeaders.antt =====
-- crates/zorch-providers/src/auth_headers.rs. Header maps, header names and header values are the
-- http crate's: the operations that the code calls are the fields of `Http`, a map is read as the
-- list of its fields, and what the properties need of the operations is `HttpLaws`.
use Prim.Native.Char.{code}
use zorch.Prelude.{
  ℕ, Bool, true, false, ◌||◌, String, Option, none, some, List, [], ◌∷◌, ◌≡◌, nat_beq,
  if◌then◌else◌, refl,
}
use zorch.Prelude.Classes.{◌==◌, string_eq}
use zorch.Prelude.Map.{lookup, insert, erase, lookup-insert, lookup-erase}
use zorch.Shared.Errors.{Reply, got, failed, text}
use zorch.Shared.Text.{◌+++◌}
use zorch.Providers.Errors.{internal}
use zorch.Providers.HttpClient.{Outcome, ok, err}

abbrev pub HeaderMap : Type 0
HeaderMap = List (String × String)

pub record Http : Type 0 where
  pub insert_header : String → String → HeaderMap → HeaderMap
  pub remove_header : String → HeaderMap → HeaderMap
  pub contains_key : HeaderMap → String → Bool
  -- HeaderValue::from_str and `parse::<HeaderName>`
  pub header_value : String → Reply String
  pub header_name : String → Reply String

unfoldable pub is_some {ℓ} : {A : Type ℓ} → Option A → Bool
is_some none = false
is_some (some a) = true

pub record HttpLaws (http : Http) : Type 0 where
  pub get-insert_header :
      (k j v : String) (h : HeaderMap)
      → lookup j (http.insert_header k v h) ≡ (if k == j then some v else lookup j h)
  pub get-remove_header :
      (k j : String) (h : HeaderMap)
      → lookup j (http.remove_header k h) ≡ (if k == j then none else lookup j h)
  pub contains_key-get : (h : HeaderMap) (k : String) → http.contains_key h k ≡ is_some (lookup k h)

pub data AuthType : Type 0 where
  bearer anthropic : AuthType
  custom : (header_name : String) (prefix : Option String) → AuthType

pub record ProviderApiKey : Type 0 where
  pub id : ℕ
  pub encrypted_key : String

unfoldable pub and_then : {A B : Type 0} → Outcome A → (A → Outcome B) → Outcome B
and_then (ok a) f = f a
and_then (err e) f = err e

-- `map_err(|e| ProviderError::Internal(format!("{what}{e}")))`
unfoldable pub or_internal : {A : Type 0} → String → Reply A → Outcome A
or_internal what (got a) = ok a
or_internal what (failed e) = err (internal (text what ∷ text e ∷ []))

non_empty : Option String → Option String
non_empty none = none
non_empty (some String.[]) = none
non_empty (some (String.◌∷◌ c s)) = some (String.◌∷◌ c s)

custom_of : Option String → Option String → Outcome AuthType
unfolding non_empty
custom_of none prefix = err (internal (text "Custom auth type requires auth_header_name" ∷ []))
custom_of (some header_name) prefix = ok (custom header_name (non_empty prefix))

-- `to_lowercase` is the standard library's, by the Unicode tables.
unfoldable pub from_config :
    (String → String) → String → Option String → Option String → Outcome AuthType
unfolding non_empty custom_of
from_config to_lowercase auth_type header_name prefix =
    let name = to_lowercase auth_type in
    if name == "bearer" || (name == "openai" || name == "openai_compatible")
    then ok bearer
    else if name == "anthropic"
    then ok anthropic
    else if name == "custom"
    then custom_of (non_empty header_name) prefix
    else err (internal (text "Unknown auth type: " ∷ text auth_type ∷ []))

unfoldable pub has_control : String → Bool
has_control String.[] = false
has_control (String.◌∷◌ c s) =
    (nat_beq (code c) 13 || (nat_beq (code c) 10 || nat_beq (code c) 0)) || has_control s

unfoldable pub validate_key : String → Outcome Unit
validate_key api_key =
    if has_control api_key
    then err (internal (text "API key contains invalid characters" ∷ []))
    else ok tt

-- "{prefix} {key}" or the key alone
custom_value : Option String → String → String
custom_value (some p) api_key = p +++ " " +++ api_key
custom_value none api_key = api_key

module _ (http : Http) where
  -- The headers of a valid key, by the kind of authentication. A header name is stored in lower
  -- case.
  headers_for : AuthType → String → Outcome HeaderMap
  unfolding custom_value
  headers_for bearer api_key =
      and_then (or_internal "Invalid header value: " (http.header_value ("Bearer " +++ api_key)))
        (λ value. ok (http.insert_header "authorization" value []))
  headers_for anthropic api_key =
      and_then (or_internal "Invalid header value: " (http.header_value api_key)) (λ value. ok (
        http.insert_header "anthropic-version" "2023-06-01"
          (http.insert_header "x-api-key" value [])))
  headers_for (custom header_name prefix) api_key =
      and_then (or_internal "Invalid custom header name: " (http.header_name header_name)) (λ name.
        and_then
          (or_internal "Invalid header value: " (http.header_value (custom_value prefix api_key)))
          (λ value. ok (http.insert_header name value [])))

  unfoldable pub from_auth_type : String → AuthType → Outcome HeaderMap
  unfolding headers_for
  from_auth_type api_key auth_type =
      and_then (validate_key api_key) (λ valid. headers_for auth_type api_key)

  unfoldable pub with_content_type : HeaderMap → HeaderMap
  with_content_type headers = http.insert_header "content-type" "application/json" headers

-- An implementation for the examples: every printable text is a header value.
abbrev pub plain_http : Http
plain_http = record {
  insert_header = insert;
  remove_header = erase;
  contains_key = λ h k. is_some (lookup k h);
  header_value = λ s. got s;
  header_name = λ s. got s;
}

pub plain_http_laws : HttpLaws plain_http
plain_http_laws = record {
  get-insert_header = λ k j v h. lookup-insert k j v h;
  get-remove_header = λ k j h. lookup-erase k j h;
  contains_key-get = λ h k. refl;
}
