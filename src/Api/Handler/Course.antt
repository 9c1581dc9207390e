-- ===== src/Api/Handler/Course.antt =====
-- The course that an answered request takes through the handler, as relations between the request, the
-- state and the answer.
use zorch.Prelude.{ℕ, not, String, List, ◌∷◌, ◌≡◌, ◌⊎◌, unwrap_or}
use zorch.Shared.Errors.{ok, got}
use zorch.External.Redis.{Redis}
use zorch.External.Serde.{Serde}
use zorch.Providers.AuthHeaders.{HeaderMap}
use zorch.Providers.ModelResolver.{Target, resolve}
use zorch.Gateway.Middleware.Engine.{run_phase}
use zorch.Gateway.Middleware.{
  MiddlewareInput, MiddlewareError, new_input, request_pre_upstream, request_pre_governance,
  Verdict, passed, stopped,
}
use zorch.Api.Request.{normalize_upstream_path}
use zorch.Api.Body.{ModelRef, extract_model}
use zorch.Gateway.Pipeline.{KeyColumns}
use zorch.Api.Routing.{AppState}
use zorch.Api.Handler.{
  ProxyRequest, ProxyResponse, Caller, Surroundings, Loaded, govern, middleware_block_response,
  merge_middleware_headers, script_context,
}
use zorch.Api.Handler.Serving.{IsFirstAnswer}

module _ {serde : Serde} {r : Redis} {W : Type 0} (env : Surroundings serde r W)
    (loaded : Loaded) where
  -- The scripts of a phase, run in a state, and the state after them.
  abbrev pub scripts_before_governance :
      Caller → serde.Json → AppState r W → Verdict (MiddlewareInput serde.Json) × W
  scripts_before_governance caller body_json s =
      run_phase serde env.rhai env.host request_pre_governance
        (script_context env loaded caller "" "") (env.show caller.api_key_id) (new_input body_json)
        s.world

  abbrev pub scripts_before_upstream :
      Caller
      → String
      → String
      → serde.Json
      → AppState r W
      → Verdict (MiddlewareInput serde.Json) × W
  scripts_before_upstream caller provider_id model body s =
      run_phase serde env.rhai env.host request_pre_upstream
        (script_context env loaded caller provider_id model) (env.show caller.api_key_id)
        (new_input body) s.world

  -- A script blocked the request, and its error is the answer.
  abbrev pub IsBlock : Verdict (MiddlewareInput serde.Json) → ProxyResponse → Type 0
  IsBlock verdict resp =
      (e : MiddlewareError) × (verdict ≡ stopped e)
      × (resp ≡ middleware_block_response env.from_u16 e)

  -- The scripts before the upstream block, or the body that they leave is printed and the first
  -- of the targets whose pool answers it gives the answer.
  abbrev pub WasSent :
      Caller
      → String
      → HeaderMap
      → serde.Json
      → List Target
      → Verdict (MiddlewareInput serde.Json)
      → AppState r W
      → ProxyResponse
      → Type 0
  WasSent caller model headers body_json targets verdict s resp =
      IsBlock verdict resp
      ⊎ ((final : MiddlewareInput serde.Json) × (base_body : String) × (verdict ≡ passed final)
          × (serde.to_vec final.body ≡ got base_body)
          × IsFirstAnswer env loaded caller model (normalize_upstream_path caller.path)
              (merge_middleware_headers env.out.http final.headers headers) base_body
              (not (serde.same final.body body_json)) targets s resp)

  -- The governance lets the caller use the model with the provider of the first target, and in
  -- the state after this the request is sent.
  abbrev pub WasAllowed :
      Caller
      → String
      → serde.Json
      → MiddlewareInput serde.Json
      → Target
      → List Target
      → AppState r W
      → ProxyResponse
      → Type 0
  WasAllowed caller model body_json modified first others s resp =
      let governed = govern env loaded caller first.provider_id model s in
      let run = scripts_before_upstream caller first.provider_id model modified.body governed.1 in
      (governed.0 ≡ ok tt)
      × WasSent caller model (merge_middleware_headers env.out.http modified.headers caller.headers)
          body_json (first ∷ others) run.0 (record governed.1 { world = run.1 }) resp

  -- The model is extracted from the body that the first scripts left, its targets are those that the
  -- resolver finds for it, and the request is allowed and sent.
  abbrev pub WasGoverned :
      Caller → serde.Json → MiddlewareInput serde.Json → AppState r W → ProxyResponse → Type 0
  WasGoverned caller body_json modified s resp =
      (body : String) × (m : ModelRef) × (first : Target) × (others : List Target) × (serde.to_vec
          modified.body
        ≡ got body)
      × (extract_model serde caller.path body ≡ ok m)
      × ((resolve env.shuffle loaded.resolver m.model s.world).0 ≡ first ∷ others)
      × WasAllowed caller m.model body_json modified first others
          (record s { world = (resolve env.shuffle loaded.resolver m.model s.world).1 }) resp

  -- The first scripts block, or what they leave is governed.
  abbrev pub WasHandled :
      Caller
      → serde.Json
      → Verdict (MiddlewareInput serde.Json)
      → AppState r W
      → ProxyResponse
      → Type 0
  WasHandled caller body_json verdict s resp =
      IsBlock verdict resp
      ⊎ ((modified : MiddlewareInput serde.Json) × (verdict ≡ passed modified)
          × WasGoverned caller body_json modified s resp)

  -- The caller that the extensions of a request name.
  abbrev pub caller_of : ProxyRequest → ℕ → ℕ → KeyColumns → AppState r W → Caller
  caller_of req api_key_id org_id api_key s = record {
    api_key_id = api_key_id;
    org_id = org_id;
    api_key = api_key;
    request_id = unwrap_or req.request_id (env.fresh_id s.world);
    method = req.method;
    path = req.path;
    headers = req.headers;
    start = env.out.now s.world;
  }
