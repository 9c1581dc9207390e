-- ===== src/Api/Handler/Examples.antt =====
-- A request for the model "chat" that the backend of the routing's examples serves.
use zorch.Prelude.{
  ℕ, true, false, String, Option, none, some, [], ◌∷◌, refl, leb, ltb, ◌&&◌, if◌then◌else◌,
}
use zorch.Prelude.Int.{pos}
use zorch.Prelude.Classes.{◌==◌, string_eq}
use zorch.Prelude.Map
use zorch.Shared.Float.{integers}
use zorch.Shared.Errors.{got, failed}
use zorch.External.Redis.Memory.{memory}
use zorch.External.Serde.{Serde}
use zorch.External.Json
use zorch.External.Json.{Value, Table, json_of, map_of, entry, str, no_entries, null}
use zorch.Cache.StickyTargetKey
use zorch.Gateway.SlidingWindow
use zorch.Gateway.RateLimit
use zorch.Gateway.KeyLimits
use zorch.Gateway.Governance
use zorch.Gateway.Governance.{KeyRow}
use zorch.Gateway.Pipeline
use zorch.Gateway.Pipeline.{Draws, KeyColumns}
use zorch.Gateway.CircuitBreaker
use zorch.Gateway.CircuitBreaker.Circuit
use zorch.Gateway.Middleware
use zorch.Gateway.Middleware.Runtime.{Rhai}
use zorch.Gateway.Middleware.Engine
use zorch.Gateway.Middleware.Engine.{Host}
use zorch.Providers.HttpClient
use zorch.Providers.Proxy.Examples.{openai}
use zorch.Providers.AuthHeaders
use zorch.Providers.Proxy
use zorch.Providers.Registry
use zorch.Providers.ModelResolver
use zorch.Providers.ModelResolver.{Target}
use zorch.Api.Headers
use zorch.Api.Request
use zorch.Api.Body
use zorch.Api.Routing
use zorch.Api.Routing.Examples.{out, state}
use zorch.Api.Usage.Recording.{Ledger}
use zorch.Api.Handler
use zorch.Api.Handler.{
  ProxyRequest, ProxyResponse, Caller, Surroundings, Loaded, upstream_bytes, block_status,
  try_targets,
}
use zorch.Api.Handler.Serving.{IsFirstAnswer, try_targets-ok}

abbrev from_u16 : ℕ → Option ℕ
from_u16 n = if leb 100 n && ltb n 1000 then some n else none

abbrev asked : Value
asked = map_of (entry "model" (str "chat") no_entries)

abbrev routed : Value
routed = map_of (entry "model" (str "gpt-4o") no_entries)

abbrev table : Table
table = ("{\"model\":\"chat\"}", asked) ∷ ("{\"model\":\"gpt-4o\"}", routed) ∷ []

unfoldable model_text : Option Value → String
model_text (some (str s)) = if s == "chat" then "{\"model\":\"chat\"}" else "{\"model\":\"gpt-4o\"}"
model_text _ = "{}"

-- The objects with one field are printed by that field.
abbrev serde : Serde
serde = record (json_of table) {
  to_vec = λ v. got (model_text (Json.get_value "model" v));
  same = λ v w. true;
}

-- No scripts are bound to the key.
abbrev host : Host Value (ℕ × ℕ)
host = record {
  select_configs = λ key phase w. (got [], w);
  join = λ v w. (got v, w);
  millis = λ w. 0;
  execute = λ entry w. (got tt, w);
}

abbrev no_scripts : Rhai Value
no_scripts = record {
  Engine = Unit;
  Ast = Unit;
  Dynamic = Unit;
  new_engine = tt;
  set_max_string_size = λ n e. e;
  set_max_array_size = λ n e. e;
  set_max_map_size = λ n e. e;
  set_max_call_levels = λ n e. e;
  on_progress = λ f e. e;
  compile = λ e s. failed "no scripts";
  iter_functions = λ ast. [];
  to_dynamic = λ v. got tt;
  from_dynamic = λ v. got null;
  call_fn = λ e ast name args. failed "no scripts";
  show = λ n. "0";
}

abbrev ledger : Ledger Value (ℕ × ℕ)
ledger = record {
  fpu = integers;
  select_tags = λ key db. got none;
  execute = λ entry db. (got tt, db);
  no_tags = null;
  now = 100000;
  fresh = 7;
  show = λ n. "k";
}

abbrev row : KeyRow
row = record {
  is_active = got true;
  expires_at = none;
  allowed_models = none;
  max_spend_usd = none;
}

abbrev draws : Draws
draws = record {
  clock1 = got 100000;
  clock2 = got 100000;
  utc_now = 100000;
  uuid1 = "a";
  uuid2 = "b";
  uuid3 = "c";
  row = got (some row);
}

abbrev env : Surroundings serde memory (ℕ × ℕ)
env = record {
  out = out;
  host = host;
  rhai = no_scripts;
  ledger = λ w. ledger;
  draws = λ w. draws;
  shuffle = λ ts w. (ts, w);
  read_bytes = λ response w. (got "{}", w);
  from_u16 = from_u16;
  show = λ n. "k";
  fresh_id = λ w. "r";
}

abbrev target : Target
target = record { provider_id = "openai"; target_model = "gpt-4o"; priority = pos 0 }

abbrev loaded : Loaded
loaded = record {
  resolver = record { index = ("chat", target ∷ []) ∷ [] };
  registry = Registry.register openai Registry.new;
  prices = record { prices = [] };
  enforce_per_key_governance = false;
}

abbrev key_columns : KeyColumns
key_columns = record {
  requests_per_minute = none;
  requests_per_day = none;
  max_spend_usd = none;
  allowed_models = none;
}

abbrev request : ProxyRequest
request = record {
  body = got "{\"model\":\"chat\"}";
  api_key_id = some 1;
  org_id = some 2;
  api_key = some key_columns;
  request_id = none;
  method = "POST";
  path = "/v1/messages";
  headers = [];
}

abbrev answer : ProxyResponse
answer = record { status = 200; headers = []; body = upstream_bytes "{}"; body_modified = false }

abbrev caller : Caller
caller = record {
  api_key_id = 1;
  org_id = 2;
  api_key = key_columns;
  request_id = "r";
  method = "POST";
  path = "/v1/messages";
  headers = [];
  start = 0;
}

try_targets-ok_example :
    IsFirstAnswer env loaded caller "chat" "/messages" [] "{\"model\":\"chat\"}" false
      (target ∷ [])
      state
      answer
unfolding Handler.try_targets Handler.try_target Handler.after_target Handler.respond
    Handler.read_answer Handler.answer_with Handler.note_success Handler.timing_of
    Handler.context_of model_text Json.read_in Json.get_value Json.find_field Json.str_of
    Json.object? Json.put_value Json.put_field Body.rewrite_body_model Body.rewrite_read
    Body.with_model Request.and_then Request.to_option Request.strip_prefix Request.stripped_path
    Request.normalize_upstream_path Request.is_streaming_request
    Headers.filter_upstream_response_headers Routing.try_target_pool Routing.try_pool Routing.turns
    Routing.turn Routing.attempt_on Routing.after_request Routing.healthy_among Routing.pool_from
    Routing.resolve_sticky_target_key Routing.use_cached Routing.pick_next Routing.pick
    Routing.index_or_zero Routing.id_or Routing.is_retryable_status Registry.find_backends
    Registry.register Registry.add_models Registry.filter_map Registry.select StickyTargetKey.get
    StickyTargetKey.set StickyTargetKey.parsed StickyTargetKey.next_key_index
    CircuitBreaker.is_backend_healthy CircuitBreaker.entry CircuitBreaker.make_circuit Circuit.new
    Circuit.is_healthy Circuit.transition_if_needed Headers.filter_client_headers
    Headers.copy_fields Proxy.proxy_request Proxy.offsets Proxy.try_key Proxy.key_id
    Proxy.build_headers Proxy.decrypt_api_key Proxy.decrypt_key Proxy.outgoing Proxy.fill_in
    Proxy.remove_all Proxy.start_index Proxy.find_key_index Proxy.position Proxy.trim_end_slashes
    Proxy.is_retryable_status AuthHeaders.from_auth_type AuthHeaders.validate_key
    AuthHeaders.has_control AuthHeaders.with_content_type AuthHeaders.and_then
    AuthHeaders.or_internal AuthHeaders.is_some HttpClient.execute_with_retry HttpClient.attempts
    HttpClient.pause HttpClient.calculate_delay HttpClient.capped_delay HttpClient.jitter_range
    HttpClient.is_retryable_status Map.lookup Map.insert Map.erase
try_targets-ok_example =
    try_targets-ok env loaded caller "chat" "/messages" [] "{\"model\":\"chat\"}" false
      (target ∷ []) none state answer refl
