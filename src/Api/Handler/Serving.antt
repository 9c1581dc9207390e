-- ===== src/Api/Handler/Serving.antt =====
-- Where the answers of the handler come from.
use zorch.Prelude.{
  ℕ, Bool, true, false, String, Option, some, List, [], ◌∷◌, ◌≡◌, refl, arith, inl, inr, ◌⊎◌,
  if◌then◌else◌,
}
use zorch.Shared.Errors.{Result, ok, err, AppError, Reply, got, failed}
use zorch.External.Redis.{Redis}
use zorch.External.Serde.{Serde}
use zorch.Providers.AuthHeaders.{HeaderMap}
use zorch.Providers.HttpClient.{Response}
use zorch.Providers.ModelResolver.{Target}
use zorch.Providers.Registry.{find_backends}
use zorch.Api.Headers.{filter_upstream_response_headers}
use zorch.Api.Request.{is_streaming_request}
use zorch.Api.Body.{rewrite_body_model, inject_stream_usage_options}
use zorch.Api.Usage.Recording.{RequestContext, Timing}
use zorch.Api.Routing.{AppState, try_target_pool}
use zorch.Api.Routing.Pool.{IsServedBy, try_target_pool-ok}
use zorch.Api.Handler.{
  Body, upstream_bytes, usage_stream, ProxyResponse, Caller, Surroundings, Loaded, answer_with,
  read_answer, respond, after_target, try_target, try_targets, context_of, timing_of,
}

module _ {serde : Serde} {r : Redis} {W : Type 0} (env : Surroundings serde r W)
    (loaded : Loaded) where
  -- The body of an answer: the stream of the upstream's, or the bytes that were read of it.
  abbrev pub IsBodyOf : Bool → Response → RequestContext → Timing → W → Body → Type 0
  IsBodyOf true x ctx timing world body = body ≡ usage_stream x ctx timing
  IsBodyOf false x ctx timing world body =
      (bytes : String) × ((env.read_bytes x world).0 ≡ got bytes) × (body ≡ upstream_bytes bytes)

  -- An upstream's answer is what the client gets.
  abbrev pub IsCopyOf :
      Bool → Response → RequestContext → Timing → W → Bool → ProxyResponse → Type 0
  IsCopyOf streaming x ctx timing world modified resp =
      (resp.status ≡ x.status)
      × (resp.headers
          ≡ filter_upstream_response_headers env.out.http env.out.to_lowercase x.headers)
      × (resp.body_modified ≡ modified)
      × IsBodyOf streaming x ctx timing world resp.body

  read_answer-IsCopyOf :
      (ctx : RequestContext) (timing : Timing) (x : Response) (modified : Bool) (w : W)
      (reply : Reply String) (state : AppState r W) (resp : ProxyResponse)
      → (env.read_bytes x w).0 ≡ reply
      → (read_answer env loaded ctx timing x modified reply state).0 ≡ ok resp
      → IsCopyOf false x ctx timing w modified resp
  unfolding read_answer answer_with
  read_answer-IsCopyOf ctx timing x modified w (failed e) state resp q h = ground (arith, h)
  read_answer-IsCopyOf ctx timing x modified w (got bytes) state resp q h =
      (ground (arith, h), ground (arith, h), ground (arith, h), (bytes, q, ground (arith, h)))

  respond-IsCopyOf :
      (caller : Caller) (target : Target) (model : String) (streaming modified : Bool) (b k : ℕ)
      (x : Response) (ms : ℕ) (state : AppState r W) (resp : ProxyResponse)
      → (respond env loaded caller target model streaming modified (b, k, x, ms) state).0 ≡ ok resp
      → IsCopyOf streaming x
          (context_of env loaded caller target model b k)
          (timing_of env loaded caller x ms state)
          state.world
          modified
          resp
  unfolding respond answer_with
  respond-IsCopyOf caller target model true modified b k x ms state resp h =
      (ground (arith, h), ground (arith, h), ground (arith, h), ground (arith, h))
  respond-IsCopyOf caller target model false modified b k x ms state resp h =
      read_answer-IsCopyOf (context_of env loaded caller target model b k)
        (timing_of env loaded caller x ms state) x modified state.world
        (env.read_bytes x state.world).0 (record state { world = (env.read_bytes x state.world).1 })
        resp refl h

  -- An attempt on a target ends with its answer or with what follows its failure.
  after_target-ok :
      (answer : ℕ × ℕ × Response × ℕ → AppState r W → Result ProxyResponse × AppState r W)
      (next : AppError → AppState r W → Result ProxyResponse × AppState r W)
      (result : Result (ℕ × ℕ × Response × ℕ)) (state : AppState r W) (resp : ProxyResponse)
      → (after_target env loaded answer next result state).0 ≡ ok resp
      → ((b : ℕ) × (k : ℕ) × (x : Response) × (ms : ℕ) × (result ≡ ok (b, k, x, ms))
          × ((answer (b, k, x, ms) state).0 ≡ ok resp))
        ⊎ ((e : AppError) × (result ≡ err e) × ((next e state).0 ≡ ok resp))
  unfolding after_target
  after_target-ok answer next (ok (b, k, x, ms)) state resp h = inl (b, k, x, ms, refl, h)
  after_target-ok answer next (err e) state resp h = inr (e, refl, h)

  module _ (caller : Caller) (model path : String) (headers : HeaderMap) (base_body : String)
      (modified : Bool) where
    -- What the pool of a target makes of the body that is rewritten for the target.
    abbrev pub asked_pool :
        Target → String → AppState r W → Result (ℕ × ℕ × Response × ℕ) × AppState r W
    asked_pool target rewritten state =
        try_target_pool env.out (env.show caller.api_key_id) target caller.method path headers
          (if is_streaming_request serde rewritten path
            then inject_stream_usage_options serde rewritten
            else rewritten)
          loaded.registry state

    -- The pool of the target answered, from one of its backends with one of that backend's keys,
    -- and the client gets this answer.
    abbrev pub IsAnswerOf : Target → String → AppState r W → ProxyResponse → Type 0
    IsAnswerOf target rewritten state resp =
        (b : ℕ) × (k : ℕ) × (x : Response) × (ms : ℕ) × ((asked_pool target rewritten state).0
          ≡ ok (b, k, x, ms))
        × IsServedBy (find_backends loaded.registry target.provider_id target.target_model) b k x
        × IsCopyOf (is_streaming_request serde rewritten path) x
            (context_of env loaded caller target model b k)
            (timing_of env loaded caller x ms (asked_pool target rewritten state).1)
            (asked_pool target rewritten state).1.world modified resp

    -- The answer of the first target whose pool answers; each pool is asked in the state that the
    -- ones before it left, and failed.
    abbrev pub IsFirstAnswer : List Target → AppState r W → ProxyResponse → Type 0
    IsFirstAnswer [] state resp = ⊥
    IsFirstAnswer (target ∷ targets) state resp =
        (rewritten : String) × (rewrite_body_model serde base_body target.target_model
          ≡ ok rewritten)
        × (IsAnswerOf target rewritten state resp
            ⊎ ((e : AppError) × ((asked_pool target rewritten state).0 ≡ err e)
                × IsFirstAnswer targets (asked_pool target rewritten state).1 resp))

    try_target-ok :
        (target : Target) (next : AppError → AppState r W → Result ProxyResponse × AppState r W)
        (body : Result String) (state : AppState r W) (resp : ProxyResponse)
        → (try_target env loaded caller model path headers base_body modified target next body
            state).0
          ≡ ok resp
        → (rewritten : String) × (body ≡ ok rewritten)
          × (IsAnswerOf target rewritten state resp
              ⊎ ((e : AppError) × ((asked_pool target rewritten state).0 ≡ err e)
                  × ((next e (asked_pool target rewritten state).1).0 ≡ ok resp)))
    unfolding try_target
    try_target-ok target next (err e) state resp h = ground (arith, h)
    try_target-ok target next (ok rewritten) state resp h =
        let streaming = is_streaming_request serde rewritten path in
        let sent = if streaming then inject_stream_usage_options serde rewritten else rewritten in
        let asked = asked_pool target rewritten state in
        (
          rewritten,
          refl,
          elim (after_target-ok (respond env loaded caller target model streaming modified) next
              asked.0 asked.1 resp h) [
                | inl (b, k, x, ms, e, g) ↦ inl (
                  b,
                  k,
                  x,
                  ms,
                  e,
                  try_target_pool-ok env.out (env.show caller.api_key_id) target caller.method path
                      headers sent loaded.registry state b k x ms e,
                  respond-IsCopyOf caller target model streaming modified b k x ms asked.1 resp g,
                )
                | inr (e, f, g) ↦ inr (e, f, g)
              ],
        )

    -- An answer that the loop over the targets gives is that of the first target whose pool
    -- answers, the targets before it having failed in turn: the body was rewritten for that target,
    -- a backend of its pool answered to one of its keys, with a status that does not ask for
    -- failover, and the client gets that status, the headers filtered, and the stream or the
    -- bytes of that answer.
    pub try_targets-ok :
        (targets : List Target) (last_error : Option AppError) (state : AppState r W)
        (resp : ProxyResponse)
        → (try_targets env loaded caller model path headers base_body modified targets last_error
            state).0
          ≡ ok resp
        → IsFirstAnswer targets state resp
    unfolding try_targets
    try_targets-ok [] last_error state resp h = ground (arith, h)
    try_targets-ok (target ∷ targets) last_error state resp h =
        let (rewritten, e, r) =
          try_target-ok target
            (λ e.
              try_targets env loaded caller model path headers base_body modified targets (some e))
            (rewrite_body_model serde base_body target.target_model) state resp h in
        (
          rewritten,
          e,
          elim r [
            | inl a ↦ inl a
            | inr (e, f, g) ↦
                inr (
                  e,
                  f,
                  try_targets-ok targets (some e) (asked_pool target rewritten state).1 resp g,
                )
          ],
        )
