-- ===== src/Api/Routing/Examples.antt =====
-- One backend with two keys, behind a network that answers 503 once and then 200.
use zorch.Prelude.{ℕ, refl, some, [], arith, nat_beq, if◌then◌else◌}
use zorch.Prelude.Classes.{◌==◌, string_eq}
use zorch.Prelude.Int.{pos}
use zorch.Prelude.Map.{lookup, insert, erase}
use zorch.Shared.Float.{integers}
use zorch.External.Redis.Memory.{memory, blank}
use zorch.Cache.StickyTargetKey
use zorch.Gateway.CircuitBreaker
use zorch.Gateway.CircuitBreaker.Circuit
use zorch.Providers.HttpClient
use zorch.Providers.HttpClient.Examples.{response, busy_once}
use zorch.Providers.Proxy.Examples.{vault, openai}
use zorch.Providers.AuthHeaders
use zorch.Providers.AuthHeaders.{plain_http}
use zorch.Providers.Proxy
use zorch.Providers.Registry
use zorch.Api.Headers
use zorch.Providers.ModelResolver.{Target}
use zorch.Api.Routing
use zorch.Providers.Registry.{new, register, find_backends}
use zorch.Api.Routing.{Outside, AppState, try_target_pool, resolve_sticky_target_key}
use zorch.Api.Routing.Sticky.{IsKeyOf, resolve_sticky_target_key-IsKeyOf}
use zorch.Api.Routing.Pool.{IsServedBy, try_target_pool-ok}

abbrev pub out : Outside memory (ℕ × ℕ)
out = record {
  uuid = record {
    to_string = λ n. if nat_beq n 7 then "seven" else "eight";
    parse = λ s. if s == "seven" then some 7 else some 8;
  };
  sticky_ttl_secs = 300;
  http = plain_http;
  vault = vault;
  net = busy_once;
  fpu = integers;
  retry = HttpClient.default_retry;
  now = λ w. w.1;
  choose = λ n w. (0, w);
  fresh = λ w. 99;
  to_lowercase = λ s. s;
  show_error = λ e. "error";
}

abbrev pub state : AppState memory (ℕ × ℕ)
state = record {
  breaker = record {
    circuits = [];
    default_threshold = 5;
    default_timeout = 30000;
    default_half_open_max_calls = 3;
  };
  server = blank;
  world = (0, 0);
}

abbrev gpt : Target
gpt = record { provider_id = "openai"; target_model = "gpt-4o"; priority = pos 0 }

resolve_sticky_target_key-IsKeyOf_example :
    IsKeyOf openai (resolve_sticky_target_key out "k" openai state).0
resolve_sticky_target_key-IsKeyOf_example =
    resolve_sticky_target_key-IsKeyOf out "k" openai state (omega arith)

try_target_pool-ok_example :
    IsServedBy (find_backends (register openai new) "openai" "gpt-4o") 1 7 (response 200)
unfolding Routing.try_target_pool Routing.try_pool Routing.turns Routing.turn Routing.attempt_on
    Routing.after_request Routing.healthy_among Routing.pool_from Routing.resolve_sticky_target_key
    Routing.use_cached Routing.pick_next Routing.pick Routing.index_or_zero Routing.id_or
    Routing.is_retryable_status Registry.find_backends Registry.register Registry.add_models
    Registry.filter_map Registry.select StickyTargetKey.get StickyTargetKey.set
    StickyTargetKey.parsed StickyTargetKey.next_key_index CircuitBreaker.is_backend_healthy
    CircuitBreaker.entry CircuitBreaker.make_circuit Circuit.new Circuit.is_healthy
    Circuit.transition_if_needed Headers.filter_client_headers Headers.copy_fields
    Proxy.proxy_request Proxy.offsets Proxy.try_key Proxy.key_id Proxy.build_headers
    Proxy.decrypt_api_key Proxy.decrypt_key Proxy.outgoing Proxy.fill_in Proxy.remove_all
    Proxy.start_index Proxy.find_key_index Proxy.position Proxy.trim_end_slashes
    Proxy.is_retryable_status AuthHeaders.from_auth_type AuthHeaders.validate_key
    AuthHeaders.has_control AuthHeaders.with_content_type AuthHeaders.and_then
    AuthHeaders.or_internal AuthHeaders.is_some HttpClient.execute_with_retry HttpClient.attempts
    HttpClient.pause HttpClient.calculate_delay HttpClient.capped_delay HttpClient.jitter_range
    HttpClient.is_retryable_status lookup insert erase
try_target_pool-ok_example =
    try_target_pool-ok out "k" gpt "POST" "/chat/completions" [] "{}" (register openai new) state 1
      7 (response 200) 500 refl
