-- ===== src/Providers/Proxy/Examples.antt =====
-- A provider with two keys behind the network of the retry examples.
use zorch.Prelude.{◌≡◌, none, some, List, [], ◌∷◌, if◌then◌else◌}
use zorch.Prelude.Classes.{string_eq}
use zorch.Prelude.Map.{lookup}
use zorch.Shared.Float.{integers}
use zorch.Shared.Errors.{got}
use zorch.Providers.HttpClient.{default_retry}
use zorch.Providers.HttpClient.Examples.{busy_once}
use zorch.Providers.AuthHeaders.{HeaderMap, bearer, ProviderApiKey, plain_http, plain_http_laws}
use zorch.Providers.Proxy.{
  Vault, ProxyProvider, position, find_key_index, start_index, outgoing, proxy_request,
}
use zorch.Providers.Proxy.Headers.{or_else, is_hop, lookup-outgoing}
use zorch.Providers.Proxy.Failover.{range, each, proxy_request_lem}

abbrev pub vault : Vault
vault = record { decrypt = λ s. got s }

abbrev pub two_keys : List ProviderApiKey
two_keys =
    record { id = 7; encrypted_key = "sk-a" } ∷ record { id = 8; encrypted_key = "sk-b" } ∷ []

abbrev pub openai : ProxyProvider
openai = record {
  backend_id = 1;
  provider_id = "openai";
  base_url = "https://api.openai.com/v1/";
  api_keys = two_keys;
  models = "gpt-4o" ∷ [];
  auth_type = bearer;
}

abbrev sent : HeaderMap
sent = ("host", "gateway") ∷ ("x-api-key", "mine") ∷ []

abbrev key_headers : HeaderMap
key_headers = ("x-api-key", "sk-a") ∷ []

lookup-outgoing_example :
    lookup "x-api-key" (outgoing plain_http openai "POST" "/messages" sent "{}" key_headers).headers
    ≡ (if is_hop "x-api-key"
        then lookup "x-api-key" key_headers
        else or_else (lookup "x-api-key" sent) (lookup "x-api-key" key_headers))
lookup-outgoing_example =
    lookup-outgoing plain_http plain_http_laws openai "POST" "/messages" sent "{}" key_headers
      "x-api-key"

proxy_request_lem_example :
    proxy_request plain_http vault openai busy_once integers default_retry
      (some 8)
      "POST"
      "/messages"
      sent
      "{}"
      (0, 0)
    ≡ each plain_http vault openai busy_once integers default_retry
        (outgoing plain_http openai "POST" "/messages" sent "{}")
        (1 ∷ 0 ∷ [])
        none
        (0, 0)
unfolding start_index find_key_index position range
proxy_request_lem_example =
    proxy_request_lem plain_http vault openai busy_once integers default_retry (some 8) "POST"
      "/messages" sent "{}" (0, 0)
