-- ===== src/Api/Handler.antt =====
-- proxy_handler of crates/zorch-api/src/routes/v1/proxy/mod.rs: the way of a request through the
-- scripts, the governance and the targets of its model, and the two functions that join the scripts
-- to the answer. `from_u16` is `StatusCode::from_u16`.
pub mod Blocks
pub mod Serving
pub mod Course
pub mod Governed
mod Examples
use zorch.Prelude.{
  ℕ, ◌-◌, Bool, true, false, not, ◌&&◌, String, Option, none, some, List, [], ◌∷◌, leb, unwrap_or,
  if◌then◌else◌,
}
use zorch.Prelude.Int.{ℤ, pos, as_i32, saturating_sub}
use zorch.Shared.Errors.{
  Result, ok, err, AppError, Message, Reply, got, failed, map_err, text, bad_request,
  auth as auth_error, internal, provider as provider_error,
}
use zorch.Shared.Action.{Action, lift, raise, pure, ◌>>=◌, ◌>>◌}
use zorch.External.Redis.{Redis}
use zorch.External.Serde.{Serde}
use zorch.Providers.AuthHeaders.{HeaderMap, Http}
use zorch.Providers.HttpClient.{Response}
use zorch.Providers.ModelResolver.{Target, ModelResolver, resolve}
use zorch.Providers.Registry.{ProxyProviderRegistry}
use zorch.Gateway.CircuitBreaker.{record_success}
use zorch.Gateway.Pricing.{PricingEngine}
use zorch.Gateway.Pipeline.{Draws, KeyColumns, run_governance_pipeline}
use zorch.Gateway.Middleware.{
  MiddlewarePhase, request_pre_governance, request_pre_upstream, MiddlewareContext, MiddlewareInput,
  new_input, MiddlewareError, Verdict, passed, stopped, Headers,
}
use zorch.Gateway.Middleware.Runtime.{Rhai}
use zorch.Gateway.Middleware.Engine.{Host, run_phase}
use zorch.Api.Headers.{filter_upstream_response_headers}
use zorch.Api.Request.{is_streaming_request, normalize_upstream_path}
use zorch.Api.Body.{
  ModelRef, public_id, extract_model, rewrite_body_model, inject_stream_usage_options,
}
use zorch.Api.Usage.Recording.{RequestContext, Timing, Ledger, record_usage}
use zorch.Api.Routing.{Outside, AppState, try_target_pool}

-- A name or a value that is no header is left out. The entries come in the order of the map.
unfoldable pub merge_middleware_headers : Http → Headers → HeaderMap → HeaderMap
merge_middleware_headers http [] headers = headers
merge_middleware_headers http ((key, value) ∷ rest) headers =
    merge_middleware_headers http rest (elim (http.header_name key) [
      | failed e ↦ headers
      | got name ↦ elim (http.header_value value) [
        | failed e ↦ headers
        | got val ↦ http.insert_header name val headers
      ]
    ])

unfoldable pub block_status : (ℕ → Option ℕ) → Option ℕ → ℕ
block_status from_u16 none = 400
block_status from_u16 (some code) =
    if leb 100 code && leb code 599 then unwrap_or (from_u16 code) 400 else 400

-- The body of an answer: the error of a block, the bytes of the upstream, or its stream with what
-- the recording of its usage is given.
pub data Body : Type 0 where
  block_message : String → Body
  upstream_bytes : String → Body
  usage_stream : Response → RequestContext → Timing → Body

pub record ProxyResponse : Type 0 where
  pub status : ℕ
  pub headers : HeaderMap
  pub body : Body
  pub body_modified : Bool

unfoldable pub middleware_block_response : (ℕ → Option ℕ) → MiddlewareError → ProxyResponse
middleware_block_response from_u16 e = record {
  status = block_status from_u16 e.status_code;
  headers = ("content-type", "application/json") ∷ [];
  body = block_message e.message;
  body_modified = false;
}

-- A request: what `to_bytes` reads of its body, and the extensions that the authentication set.
pub record ProxyRequest : Type 0 where
  pub body : Reply String
  pub api_key_id : Option ℕ
  pub org_id : Option ℕ
  pub api_key : Option KeyColumns
  pub request_id : Option String
  pub method : String
  pub path : String
  pub headers : HeaderMap

unfoldable pub required : {A : Type 0} → String → Option A → Result A
required message none = err (auth_error (text message ∷ []))
required message (some a) = ok a

-- Who asks, and with what.
pub record Caller : Type 0 where
  pub api_key_id : ℕ
  pub org_id : ℕ
  pub api_key : KeyColumns
  pub request_id : String
  pub method : String
  pub path : String
  pub headers : HeaderMap
  pub start : ℕ

-- What the handler takes from outside, beside what the routing takes.
pub record Surroundings (serde : Serde) (r : Redis) (W : Type 0) : Type 1 where
  pub out : Outside r W
  pub host : Host serde.Json W
  pub rhai : Rhai serde.Json
  pub ledger : W → Ledger serde.Json W
  pub draws : W → Draws
  pub shuffle : List Target → W → List Target × W
  pub read_bytes : Response → W → Reply String × W
  pub from_u16 : ℕ → Option ℕ
  pub show : ℕ → String
  pub fresh_id : W → String

-- What the server has loaded.
pub record Loaded : Type 0 where
  pub resolver : ModelResolver
  pub registry : ProxyProviderRegistry
  pub prices : PricingEngine
  pub enforce_per_key_governance : Bool

module _ {serde : Serde} {r : Redis} {W : Type 0} (env : Surroundings serde r W)
    (loaded : Loaded) where
  abbrev pub Handling : Type 0 → Type 0
  Handling A = Action (AppState r W) A

  unfoldable pub run_middleware :
      MiddlewarePhase
      → MiddlewareContext
      → String
      → MiddlewareInput serde.Json
      → Handling (Verdict (MiddlewareInput serde.Json))
  run_middleware phase ctx api_key_id input state =
      let (verdict, world) =
        run_phase serde env.rhai env.host phase ctx api_key_id input state.world in
      (ok verdict, record state { world = world })

  unfoldable pub resolve_targets : String → Handling (List Target)
  resolve_targets model state =
      let (targets, world) = resolve env.shuffle loaded.resolver model state.world in
      (ok targets, record state { world = world })

  unfoldable pub govern : Caller → String → String → Handling (Unit {0})
  govern caller provider_id model state =
      let (result, server) =
        run_governance_pipeline r env.out.fpu (env.draws state.world)
          loaded.enforce_per_key_governance caller.api_key (env.show caller.api_key_id) provider_id
          model state.server in
      (result, record state { server = server })

  unfoldable pub script_context : Caller → String → String → MiddlewareContext
  script_context caller provider_id model_id = record {
    request_id = caller.request_id;
    org_id = env.show caller.org_id;
    api_key_id = env.show caller.api_key_id;
    provider_id = provider_id;
    model_id = model_id;
    route = caller.path;
  }

  unfoldable pub timing_of : Caller → Response → ℕ → AppState r W → Timing
  timing_of caller response provider_ms state =
      let total : ℤ = as_i32 (env.out.now state.world - caller.start) in
      let upstream : ℤ = as_i32 provider_ms in
      record {
        status_code = pos response.status;
        latency_ms = total;
        provider_latency_ms = upstream;
        gateway_latency_ms = saturating_sub total upstream;
      }

  unfoldable pub context_of : Caller → Target → String → ℕ → ℕ → RequestContext
  context_of caller target model backend_id key_id = record {
    api_key_id = caller.api_key_id;
    org_id = caller.org_id;
    provider_id = target.provider_id;
    provider_api_key_id = some key_id;
    backend_id = backend_id;
    public_model_id = model;
    target_model_id = target.target_model;
  }

  unfoldable pub answer_with : Response → Body → Bool → ProxyResponse
  answer_with response body modified = record {
    status = response.status;
    headers = filter_upstream_response_headers env.out.http env.out.to_lowercase response.headers;
    body = body;
    body_modified = modified;
  }

  unfoldable pub note_success : ℕ → AppState r W → AppState r W
  note_success backend_id state = record state { breaker = record_success backend_id state.breaker }

  unfoldable pub with_usage_recorded :
      RequestContext → Timing → String → AppState r W → AppState r W
  with_usage_recorded ctx timing bytes state =
      let (world, server) =
        record_usage (env.ledger state.world) loaded.prices ctx r serde bytes timing
          (state.world, state.server) in
      record state { world = world; server = server }

  unfoldable pub read_answer :
      RequestContext → Timing → Response → Bool → Reply String → Handling ProxyResponse
  read_answer ctx timing response modified (failed e) state =
      (err (provider_error (text "Failed to read upstream response: " ∷ text e ∷ [])), state)
  read_answer ctx timing response modified (got bytes) state = (
    ok (answer_with response (upstream_bytes bytes) modified),
    with_usage_recorded ctx timing bytes (note_success ctx.backend_id state),
  )

  unfoldable pub respond :
      Caller → Target → String → Bool → Bool → ℕ × ℕ × Response × ℕ → Handling ProxyResponse
  respond caller target model streaming modified (backend_id, key_id, response, provider_ms) state =
      let timing = timing_of caller response provider_ms state in
      let ctx = context_of caller target model backend_id key_id in
      let (reply, world) = env.read_bytes response state.world in
      if streaming
      then (
        ok (answer_with response (usage_stream response ctx timing) modified),
        note_success backend_id state,
      )
      else read_answer ctx timing response modified reply (record state { world = world })

  -- What follows the attempt on a target: the answer, or the next target with the error.
  unfoldable pub after_target :
      (ℕ × ℕ × Response × ℕ → Handling ProxyResponse)
      → (AppError → Handling ProxyResponse)
      → Result (ℕ × ℕ × Response × ℕ)
      → Handling ProxyResponse
  after_target answer next (ok served) = answer served
  after_target answer next (err e) = next e

  module _ (caller : Caller) (model path : String) (headers : HeaderMap) (base_body : String)
      (modified : Bool) where
    unfoldable pub try_target :
        Target → (AppError → Handling ProxyResponse) → Result String → Handling ProxyResponse
    try_target target next (err e) state = (err e, state)
    try_target target next (ok rewritten) state =
        let streaming = is_streaming_request serde rewritten path in
        let (result, state') =
          try_target_pool env.out (env.show caller.api_key_id) target caller.method path headers
            (if streaming then inject_stream_usage_options serde rewritten else rewritten)
            loaded.registry state in
        after_target (respond caller target model streaming modified) next result state'

    unfoldable pub try_targets : List Target → Option AppError → Handling ProxyResponse
    try_targets [] last_error state = (
      err (
          unwrap_or last_error (
            provider_error
              (text "All targets unavailable for model '" ∷ text model ∷ text "'" ∷ []))),
      state,
    )
    try_targets (target ∷ targets) last_error state =
        try_target target (λ e. try_targets targets (some e))
          (rewrite_body_model serde base_body target.target_model) state

  unfoldable pub printed : String → serde.Json → Result String
  printed what json = map_err (λ e. internal (text what ∷ text e ∷ [])) (serde.to_vec json)

  unfoldable pub after_upstream_scripts :
      Caller
      → String
      → List Target
      → HeaderMap
      → serde.Json
      → Verdict (MiddlewareInput serde.Json)
      → Handling ProxyResponse
  after_upstream_scripts caller model targets headers body_json (stopped e) =
      pure (middleware_block_response env.from_u16 e)
  after_upstream_scripts caller model targets headers body_json (passed final) = do
    final_body ← lift (printed "Failed to serialize final body: " final.body)
    try_targets caller model (normalize_upstream_path caller.path)
        (merge_middleware_headers env.out.http final.headers headers) final_body
        (not (serde.same final.body body_json)) targets none

  unfoldable pub with_targets :
      Caller
      → ModelRef
      → serde.Json
      → MiddlewareInput serde.Json
      → List Target
      → Handling ProxyResponse
  with_targets caller m body_json modified [] =
      raise (
        bad_request
          (text "No provider configured for model '" ∷ text (public_id m) ∷ text "'" ∷ []))
  with_targets caller m body_json modified (target ∷ targets) = do
    lift (printed "Failed to serialize body: " modified.body)
    govern caller target.provider_id m.model
    verdict ←
        run_middleware request_pre_upstream (script_context caller target.provider_id m.model)
          (env.show caller.api_key_id) (new_input modified.body)
    after_upstream_scripts caller m.model (target ∷ targets)
        (merge_middleware_headers env.out.http modified.headers caller.headers) body_json verdict

  unfoldable pub after_first_scripts :
      Caller → serde.Json → Verdict (MiddlewareInput serde.Json) → Handling ProxyResponse
  after_first_scripts caller body_json (stopped e) = pure (middleware_block_response env.from_u16 e)
  after_first_scripts caller body_json (passed modified) = do
    body ← lift (printed "Failed to serialize modified body: " modified.body)
    m ← lift (extract_model serde caller.path body)
    targets ← resolve_targets m.model
    with_targets caller m body_json modified targets

  unfoldable pub proxy_handler : ProxyRequest → Handling ProxyResponse
  proxy_handler req state =
      (do
        bytes ← lift (map_err (λ e. bad_request (text "Failed to read request body" ∷ [])) req.body)
        api_key_id ← lift (required "API key ID not found in request" req.api_key_id)
        org_id ← lift (required "Organization ID not found in request" req.org_id)
        api_key ← lift (required "API key metadata not found in request" req.api_key)
        body_json ← lift (
            map_err (λ e. bad_request (text "Invalid JSON body: " ∷ text e ∷ []))
              (serde.from_slice bytes))
        let caller : Caller = record {
          api_key_id = api_key_id;
          org_id = org_id;
          api_key = api_key;
          request_id = unwrap_or req.request_id (env.fresh_id state.world);
          method = req.method;
          path = req.path;
          headers = req.headers;
          start = env.out.now state.world;
        }
        verdict ←
            run_middleware request_pre_governance (script_context caller "" "")
              (env.show api_key_id) (new_input body_json)
        after_first_scripts caller body_json verdict)
        state
