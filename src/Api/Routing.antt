-- ===== src/Api/Routing.antt =====
-- The choice of a backend and of its key, crates/zorch-api/src/routes/v1/proxy/mod.rs. The state is
-- what the handlers share: the circuit breaker, the Redis server and the outer world, which has
-- the network, the clock (in milliseconds) and the random numbers. `fresh` is a new random id.
pub mod Sticky
pub mod Pool
pub mod Examples
use zorch.Prelude.{
  ℕ, zero, suc, ◌+◌, ◌/◌, ◌-◌, Bool, true, false, ◌&&◌, ◌||◌, String, Option, none, some, List, [],
  ◌∷◌, leb, ltb, nat_beq, length, get_elem?, unwrap_or, if◌then◌else◌,
}
use zorch.Shared.Float.{Fpu}
use zorch.Shared.Errors.{Result, ok, err, AppError, Message, provider as provider_error, text, num}
use zorch.External.Redis.{Redis}
use zorch.Cache.StickyTargetKey.{Uuid, next_key_index, get, set, invalidate}
use zorch.Gateway.CircuitBreaker.{CircuitBreaker, is_backend_healthy, record_failure}
use zorch.Providers.Errors.{ProviderError}
use zorch.Providers.HttpClient.{Network, RetryConfig, Response, Outcome, ok as done, err as broken}
use zorch.Providers.AuthHeaders.{HeaderMap, Http, ProviderApiKey}
use zorch.Providers.Proxy.{ProxyProvider, ProxiedResponse, Vault, find_key_index, proxy_request}
use zorch.Providers.Registry.{ProxyProviderRegistry, find_backends, select}
use zorch.Providers.ModelResolver.{Target}
use zorch.Api.Headers.{filter_client_headers}

-- What the code takes from outside.
pub record Outside (r : Redis) (W : Type 0) : Type 0 where
  pub uuid : Uuid
  pub sticky_ttl_secs : ℕ
  pub http : Http
  pub vault : Vault
  pub net : Network W
  pub fpu : Fpu
  pub retry : RetryConfig
  pub now : W → ℕ
  pub choose : ℕ → W → ℕ × W
  pub fresh : W → ℕ
  pub to_lowercase : String → String
  pub show_error : ProviderError → String

pub record AppState (r : Redis) (W : Type 0) : Type 0 where
  pub breaker : CircuitBreaker
  pub server : r.Server
  pub world : W

-- 500..=599 or 429
unfoldable pub is_retryable_status : ℕ → Bool
is_retryable_status status = (leb 500 status && ltb status 600) || nat_beq status 429

-- `.unwrap_or(0)` and `.map(|k| k.id).unwrap_or_else(ProviderApiKeyId::new)`
unfoldable pub index_or_zero : Result ℕ → ℕ
index_or_zero (ok i) = i
index_or_zero (err e) = 0

unfoldable pub id_or : Option ProviderApiKey → ℕ → ℕ
id_or none fresh = fresh
id_or (some k) fresh = k.id

-- A pool without a healthy backend is used as it is.
unfoldable pub pool_from : List ProxyProvider → List ProxyProvider → List ProxyProvider
pool_from [] candidates = candidates
pool_from (p ∷ ps) candidates = p ∷ ps

module _ {r : Redis} {W : Type 0} (out : Outside r W) where
  abbrev seconds : AppState r W → ℕ
  seconds state = out.now state.world / 1000

  unfoldable pub pick :
      String → ProxyProvider → Result ℕ × r.Server → AppState r W → ℕ × AppState r W
  pick api_key_id provider (drawn, server) state =
      let index : ℕ = index_or_zero drawn in
      let next_id : ℕ = id_or (get_elem? provider.api_keys index) (out.fresh state.world) in
      (
        next_id,
        record state {
          server =
              (set r out.uuid out.sticky_ttl_secs (seconds state) api_key_id provider.provider_id
                next_id server).1;
        },
      )

  unfoldable pub pick_next : String → ProxyProvider → AppState r W → ℕ × AppState r W
  pick_next api_key_id provider state =
      pick api_key_id provider
        (next_key_index r out.uuid out.sticky_ttl_secs (seconds state) api_key_id
          provider.provider_id (length provider.api_keys) state.server)
        state

  unfoldable pub forget : String → ProxyProvider → AppState r W → AppState r W
  forget api_key_id provider state = record state {
    server =
        (invalidate r out.uuid out.sticky_ttl_secs (seconds state) api_key_id provider.provider_id
          state.server).1;
  }

  unfoldable pub use_cached :
      String → ProxyProvider → Result (Option ℕ) → AppState r W → ℕ × AppState r W
  use_cached api_key_id provider (ok (some cached_id)) state =
      elim (find_key_index provider cached_id) [
        | none ↦ pick_next api_key_id provider (forget api_key_id provider state)
        | some i ↦ (cached_id, state)
      ]
  use_cached api_key_id provider (ok none) state = pick_next api_key_id provider state
  use_cached api_key_id provider (err e) state = pick_next api_key_id provider state

  unfoldable pub resolve_sticky_target_key :
      String → ProxyProvider → AppState r W → ℕ × AppState r W
  resolve_sticky_target_key api_key_id provider state =
      let (cached, server) =
        get r out.uuid out.sticky_ttl_secs (seconds state) api_key_id provider.provider_id
          state.server in
      use_cached api_key_id provider cached (record state { server = server })

  -- The candidates that the breaker calls healthy; it is asked for each in turn.
  unfoldable pub healthy_among :
      List ProxyProvider → AppState r W → List ProxyProvider × AppState r W
  healthy_among [] state = ([], state)
  healthy_among (p ∷ ps) state =
      let (healthy, breaker) =
        is_backend_healthy (out.now state.world) p.backend_id state.breaker in
      let (rest, state') = healthy_among ps (record state { breaker = breaker }) in
      (if healthy then p ∷ rest else rest, state')

  unfoldable pub note_failure : ℕ → AppState r W → AppState r W
  note_failure backend_id state = record state {
    breaker = record_failure (out.now state.world) backend_id state.breaker;
  }

  -- The answer of a target: the backend, its key, the response and the latency in milliseconds.
  abbrev pub Served : Type 0
  Served = ℕ × ℕ × Response × ℕ

  module _ (api_key_id : String) (target : Target) where
    unfoldable pub retryable_error : ℕ → AppError
    retryable_error status =
        provider_error (text "Upstream returned retryable status " ∷ num status ∷ [])

    unfoldable pub failed_error : ProviderError → AppError
    failed_error e =
        provider_error (text "Upstream request failed: " ∷ text (out.show_error e) ∷ [])

    -- What follows a `proxy_request`; `again` is the rest of the loop, if attempts are left.
    unfoldable pub after_request :
        ProxyProvider
        → ℕ
        → Option (AppState r W → Result Served × AppState r W)
        → Outcome ProxiedResponse
        → AppState r W
        → Result Served × AppState r W
    after_request p started again (done result) state =
        let noted = note_failure p.backend_id state in
        let e = retryable_error result.response.status in
        if is_retryable_status result.response.status
        then elim again [ none ↦ (err e, noted) | some next ↦ next noted ]
        else (
          ok (p.backend_id, result.api_key_id, result.response, out.now state.world - started),
          record state {
            server =
                (set r out.uuid out.sticky_ttl_secs (seconds state) api_key_id p.provider_id
                  result.api_key_id state.server).1;
          },
        )
    after_request p started again (broken e) state =
        let noted = note_failure p.backend_id state in
        elim again [ none ↦ (err (failed_error e), noted) | some next ↦ next noted ]

    module _ (method path : String) (headers : HeaderMap) (body : String) where
      unfoldable pub attempt_on :
          Option ProxyProvider
          → Option (AppState r W → Result Served × AppState r W)
          → AppState r W
          → Result Served × AppState r W
      attempt_on none again state = (
        err (
            provider_error (
              text "All backends unavailable for "
              ∷ text target.provider_id
              ∷ text "/"
              ∷ text target.target_model
              ∷ [])),
        state,
      )
      attempt_on (some p) again state =
          let (preferred, state1) = resolve_sticky_target_key api_key_id p state in
          let (result, world) =
            proxy_request out.http out.vault p out.net out.fpu out.retry (some preferred) method
              path (filter_client_headers out.http out.to_lowercase headers) body state1.world in
          after_request p (out.now state1.world) again result (record state1 { world = world })

      -- One turn of the loop.
      unfoldable pub turn :
          List ProxyProvider
          → Option (AppState r W → Result Served × AppState r W)
          → AppState r W
          → Result Served × AppState r W
      turn candidates again state =
          let (healthy, state1) = healthy_among candidates state in
          let (p, world) = select out.choose (pool_from healthy candidates) state1.world in
          attempt_on p again (record state1 { world = world })

      -- `left` is max_attempts - attempts after this turn's increment.
      unfoldable pub turns : ℕ → List ProxyProvider → AppState r W → Result Served × AppState r W
      turns zero candidates state = turn candidates none state
      turns (suc left) candidates state = turn candidates (some (turns left candidates)) state

      unfoldable pub try_pool : List ProxyProvider → AppState r W → Result Served × AppState r W
      try_pool [] state = (
        err (
            provider_error (
              text "No backends available for "
              ∷ text target.provider_id
              ∷ text "/"
              ∷ text target.target_model
              ∷ [])),
        state,
      )
      try_pool (p ∷ ps) state = turns (length ps) (p ∷ ps) state

      unfoldable pub try_target_pool :
          ProxyProviderRegistry → AppState r W → Result Served × AppState r W
      try_target_pool registry state =
          try_pool (find_backends registry target.provider_id target.target_model) state
