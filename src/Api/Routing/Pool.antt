-- ===== src/Api/Routing/Pool.antt =====
-- What an answer of try_target_pool of crates/zorch-api/src/routes/v1/proxy/mod.rs is.
use zorch.Prelude.{
  ℕ, zero, suc, ◌≡◌, refl, sym, ap, ◌∙◌, if◌then◌else◌, Bool, true, false, Bool-cases, inl, inr,
  Option, none, some, String, List, [], ◌∷◌, length, get_elem?, arith,
}
use zorch.Shared.Errors.{Result, ok}
use zorch.External.Redis.{Redis}
use zorch.Gateway.CircuitBreaker.{is_backend_healthy}
use zorch.Providers.HttpClient.{Response, Outcome, ok as done, err as broken}
use zorch.Providers.AuthHeaders.{HeaderMap, ProviderApiKey}
use zorch.Providers.Proxy.{ProxyProvider, ProxiedResponse, proxy_request}
use zorch.Providers.Proxy.Answers.{proxy_request-ok}
use zorch.Providers.Registry.{ProxyProviderRegistry, find_backends, select}
use zorch.Api.Headers.{filter_client_headers}
use zorch.Providers.ModelResolver.{Target}
use zorch.Api.Routing.{
  Outside, AppState, is_retryable_status, healthy_among, pool_from, note_failure, after_request,
  attempt_on, turn, turns, try_pool, try_target_pool, resolve_sticky_target_key,
}

pub IsCandidate : List ProxyProvider → ProxyProvider → Type 0
IsCandidate candidates p = (i : ℕ) × (get_elem? candidates i ≡ some p)

pub HasKey : ProxyProvider → ℕ → Type 0
HasKey p id = (j : ℕ) × (key : ProviderApiKey) × (get_elem? p.api_keys j ≡ some key) × (id ≡ key.id)

-- An answer comes from a candidate and one of its keys, and does not ask for failover.
pub IsServedBy : List ProxyProvider → ℕ → ℕ → Response → Type 0
IsServedBy candidates backend_id key_id response =
    (is_retryable_status response.status ≡ false)
    × (p : ProxyProvider) × IsCandidate candidates p
    × (p.backend_id ≡ backend_id)
    × HasKey p key_id

module _ {r : Redis} {W : Type 0} (out : Outside r W) (api_key_id : String) (target : Target) where
  Good : List ProxyProvider → Result (ℕ × ℕ × Response × ℕ) × AppState r W → Type 0
  Good candidates res =
      (b k : ℕ) (x : Response) (ms : ℕ) → res.0 ≡ ok (b, k, x, ms) → IsServedBy candidates b k x

  AllGood :
      List ProxyProvider
      → Option (AppState r W → Result (ℕ × ℕ × Response × ℕ) × AppState r W)
      → Type 0
  AllGood candidates none = Unit
  AllGood candidates (some next) = (s : AppState r W) → Good candidates (next s)

  served :
      (candidates : List ProxyProvider) (p : ProxyProvider) (y : ProxiedResponse) (b k : ℕ)
      (x : Response)
      → IsCandidate candidates p
      → HasKey p y.api_key_id
      → is_retryable_status y.response.status ≡ false
      → p.backend_id ≡ b
      → y.api_key_id ≡ k
      → y.response ≡ x
      → IsServedBy candidates b k x
  unfolding HasKey IsServedBy
  served candidates p y b k x c (j, key, e, f) n p1 p2 p3 =
      (ap (λ z. is_retryable_status z.status) (sym p3) ∙ n, p, c, p1, (j, key, e, sym p2 ∙ f))

  after_request-Good :
      (candidates : List ProxyProvider) (p : ProxyProvider) (started : ℕ)
      (again : Option (AppState r W → Result (ℕ × ℕ × Response × ℕ) × AppState r W))
      (result : Outcome ProxiedResponse) (state : AppState r W)
      → IsCandidate candidates p
      → AllGood candidates again
      → ((x : ProxiedResponse) → result ≡ done x → HasKey p x.api_key_id)
      → Good candidates (after_request out api_key_id target p started again result state)
  unfolding after_request Good AllGood IsServedBy
  after_request-Good candidates p started none (broken e) state c g k =
      λ b i x ms h. absurd (ground (arith, h))
  after_request-Good candidates p started (some next) (broken e) state c g k =
      g (note_failure out p.backend_id state)
  after_request-Good candidates p started none (done y) state c g k = λ b i x ms h.
      elim (Bool-cases (is_retryable_status y.response.status)) [
        | inl e ↦ absurd (ground (arith, e, h))
        | inr e ↦
            served candidates p y b i x c (k y refl) e (ground (arith, e, h)) (ground (arith, e, h))
              (ground (arith, e, h))
      ]
  after_request-Good candidates p started (some next) (done y) state c g k = λ b i x ms h.
      elim (Bool-cases (is_retryable_status y.response.status)) [
        | inl e ↦ g (note_failure out p.backend_id state) b i x ms (ground (arith, e, h))
        | inr e ↦
            served candidates p y b i x c (k y refl) e (ground (arith, e, h)) (ground (arith, e, h))
              (ground (arith, e, h))
      ]

  later :
      (q : ProxyProvider) (ps qs : List ProxyProvider) (t : Bool) (p : ProxyProvider)
      → (IsCandidate qs p → IsCandidate ps p)
      → IsCandidate (if t then q ∷ qs else qs) p
      → IsCandidate (q ∷ ps) p
  unfolding IsCandidate
  later q ps qs true p f (zero, h) = (0, h)
  later q ps qs true p f (suc i, h) = let (j, e) = f (i, h) in (suc j, e)
  later q ps qs false p f h = let (j, e) = f h in (suc j, e)

  healthy_among-IsCandidate :
      (ps : List ProxyProvider) (state : AppState r W) (p : ProxyProvider)
      → IsCandidate (healthy_among out ps state).0 p
      → IsCandidate ps p
  unfolding healthy_among IsCandidate
  healthy_among-IsCandidate [] state p (i, h) = absurd (ground (arith, h))
  healthy_among-IsCandidate (q ∷ ps) state p h =
      let (healthy, breaker) =
        is_backend_healthy (out.now state.world) q.backend_id state.breaker in
      let state1 = record state { breaker = breaker } in
      later q ps (healthy_among out ps state1).0 healthy p (healthy_among-IsCandidate ps state1 p) h

  pool_from-IsCandidate :
      (healthy candidates : List ProxyProvider) (p : ProxyProvider)
      → (IsCandidate healthy p → IsCandidate candidates p)
      → IsCandidate (pool_from healthy candidates) p
      → IsCandidate candidates p
  unfolding pool_from
  pool_from-IsCandidate [] candidates p f h = h
  pool_from-IsCandidate (q ∷ qs) candidates p f h = f h

  select-IsCandidate :
      (pool : List ProxyProvider) (w : W) (p : ProxyProvider)
      → (select out.choose pool w).0 ≡ some p
      → IsCandidate pool p
  unfolding select IsCandidate
  select-IsCandidate [] w p h = absurd (ground (arith, h))
  select-IsCandidate (q ∷ qs) w p h = ((out.choose (suc (length qs)) w).0, h)

  module _ (method path : String) (headers : HeaderMap) (body : String) where
    attempt_on-Good :
        (candidates : List ProxyProvider) (chosen : Option ProxyProvider)
        (again : Option (AppState r W → Result (ℕ × ℕ × Response × ℕ) × AppState r W))
        (state : AppState r W)
        → ((p : ProxyProvider) → chosen ≡ some p → IsCandidate candidates p)
        → AllGood candidates again
        → Good candidates
            (attempt_on out api_key_id target method path headers body chosen again state)
    unfolding attempt_on Good HasKey
    attempt_on-Good candidates none again state c g = λ b k x ms h. absurd (ground (arith, h))
    attempt_on-Good candidates (some p) again state c g =
        let (preferred, state1) = resolve_sticky_target_key out api_key_id p state in
        let sent = filter_client_headers out.http out.to_lowercase headers in
        let (result, world) =
          proxy_request out.http out.vault p out.net out.fpu out.retry (some preferred) method path
            sent body state1.world in
        after_request-Good candidates p (out.now state1.world) again result
          (record state1 { world = world }) (c p refl) g
          (λ x e.
            let (n, j, key, f, q) =
              proxy_request-ok out.http out.vault p out.net out.fpu out.retry (some preferred)
                method path sent body state1.world x e in
            (j, key, f, q))

    turn-Good :
        (candidates : List ProxyProvider)
        (again : Option (AppState r W → Result (ℕ × ℕ × Response × ℕ) × AppState r W))
        (state : AppState r W)
        → AllGood candidates again
        → Good candidates
            (turn out api_key_id target method path headers body candidates again state)
    unfolding turn
    turn-Good candidates again state g =
        let h = healthy_among out candidates state in
        let s = select out.choose (pool_from h.0 candidates) h.1.world in
        attempt_on-Good candidates s.0 again (record h.1 { world = s.1 })
          (λ p e.
            pool_from-IsCandidate h.0 candidates p (healthy_among-IsCandidate candidates state p)
              (select-IsCandidate (pool_from h.0 candidates) h.1.world p e))
          g

    turns-Good :
        (left : ℕ) (candidates : List ProxyProvider) (state : AppState r W)
        → Good candidates
            (turns out api_key_id target method path headers body left candidates state)
    unfolding turns AllGood
    turns-Good zero candidates state = turn-Good candidates none state tt
    turns-Good (suc left) candidates state =
        turn-Good candidates
          (some (turns out api_key_id target method path headers body left candidates)) state
          (turns-Good left candidates)

    try_pool-Good :
        (candidates : List ProxyProvider) (state : AppState r W)
        → Good candidates (try_pool out api_key_id target method path headers body candidates state)
    unfolding try_pool
    try_pool-Good [] state = unfold Good in λ b k x ms h. absurd (ground (arith, h))
    try_pool-Good (p ∷ ps) state = turns-Good (length ps) (p ∷ ps) state

    -- An answer of a target comes from one of the backends of its pool and names that backend and
    -- one of its keys, and its status does not ask for failover.
    pub try_target_pool-ok :
        (registry : ProxyProviderRegistry) (state : AppState r W) (b k : ℕ) (x : Response) (ms : ℕ)
        → (try_target_pool out api_key_id target method path headers body registry state).0
          ≡ ok (b, k, x, ms)
        → IsServedBy (find_backends registry target.provider_id target.target_model) b k x
    unfolding try_target_pool Good
    try_target_pool-ok registry state =
        try_pool-Good (find_backends registry target.provider_id target.target_model) state
