-- ===== src/Api/Loading/Served.antt =====
-- What the backends that were loaded satisfy.
use zorch.Prelude.{
  ℕ, Bool, true, false, String, Option, none, some, List, [], ◌∷◌, is_empty, ◌≡◌, refl, arith,
  Bool-cases, inl, inr, if◌then◌else◌, ◌∙◌, subst, ap,
}
use zorch.Prelude.Classes.{◌==◌, nat_eq}
use zorch.Prelude.Map.{lookup, lookup-insert}
use zorch.Shared.Errors.{Result, ok, err}
use zorch.Shared.Action.{bind-eq-ok, call}
use zorch.Shared.Crypto.{SecretVault, encrypt}
use zorch.Providers.Proxy.{ProxyProvider}
use zorch.Providers.Registry
use zorch.Providers.Registry.{ProxyProviderRegistry, register}
use zorch.Api.Loading.{
  Deployment, FallbackKeys, ProviderBuildInfo, Loaded, ProviderRow, provider_of, register_build,
  register_builds, add_providers, add_keys, add_target_models, add_aliases,
}
use zorch.Api.Loading.Fallback.{
  with_encrypted, register_fallback, after_openai, register_env_fallback, openai_build,
  anthropic_build,
}
use zorch.Api.Loading.Reload.{
  load_rows, load_or_fallback, load_providers_and_models, failed_to, swapped_in,
  reload_providers_and_models,
}

abbrev Usable : ℕ → ProxyProvider → Type 0
Usable id p = (p.backend_id ≡ id) × (is_empty p.api_keys ≡ false) × (is_empty p.models ≡ false)

abbrev AreUsable : ProxyProviderRegistry → Type 0
AreUsable registry =
    (id : ℕ) (p : ProxyProvider) → lookup id registry.backends ≡ some p → Usable id p

new-AreUsable : AreUsable Registry.new
unfolding lookup
new-AreUsable id p h = absurd (ground (arith, h))

register-AreUsable :
    (q : ProxyProvider) (registry : ProxyProviderRegistry)
    → is_empty q.api_keys ≡ false
    → is_empty q.models ≡ false
    → AreUsable registry
    → AreUsable (register q registry)
unfolding register
register-AreUsable q registry keys models before id p h =
    let found = lookup-insert q.backend_id id q registry.backends in
    elim (Bool-cases (q.backend_id == id)) [
      | inl b ↦
          let same : q ≡ p = ground (arith, found, b, h) in
          subst (Usable id) same ((nat_eq.beq_iff q.backend_id id).0 b, keys, models)
      | inr b ↦ before id p (ground (arith, found, b, h))
    ]

-- A conditional satisfies what both of its branches do.
if_then_else-both {ℓ κ} :
    {A : Type ℓ} (P : A → Type κ) (b : Bool) {x y : A}
    → (b ≡ true → P x)
    → (b ≡ false → P y)
    → P (if b then x else y)
if_then_else-both P true yes_case no_case = yes_case refl
if_then_else-both P false yes_case no_case = no_case refl

module _ {W : Type 0} (deployment : Deployment W)
    (is_empty-listed : (models : List String) (w : W)
      → is_empty (deployment.listed models w).0 ≡ is_empty models) where
  register_build-AreUsable :
      (build : ProviderBuildInfo) (registry : ProxyProviderRegistry) (w : W)
      → AreUsable registry
      → AreUsable (register_build deployment build registry w).0
  unfolding register_build provider_of
  register_build-AreUsable build registry w before =
      let P : ProxyProviderRegistry × W → Type 0 = λ r. AreUsable r.0 in
      if_then_else-both P (is_empty build.target_models) (λ _. before)
        (λ models.
          if_then_else-both P (is_empty build.keys) (λ _. before)
            (λ keys.
              register-AreUsable _ registry keys (is_empty-listed build.target_models w ∙ models)
                before))

  register_builds-AreUsable :
      (builds : List ProviderBuildInfo) (registry : ProxyProviderRegistry) (w : W)
      → AreUsable registry
      → AreUsable (register_builds deployment builds registry w).0
  unfolding register_builds
  register_builds-AreUsable [] registry w before = before
  register_builds-AreUsable (build ∷ builds) registry w before =
      register_builds-AreUsable builds (register_build deployment build registry w).0
        (register_build deployment build registry w).1
        (register_build-AreUsable build registry w before)

module _ {W : Type 0} (deployment : Deployment W) where
  with_encrypted-AreUsable :
      (build : ProviderBuildInfo) (r : Result String) (loaded : Loaded) (w : W)
      → is_empty build.target_models ≡ false
      → AreUsable loaded.0
      → AreUsable (with_encrypted deployment build r loaded w).0.1.0
  unfolding with_encrypted provider_of
  with_encrypted-AreUsable build (err e) loaded w models before = before
  with_encrypted-AreUsable build (ok encrypted) (registry, resolver) w models before =
      register-AreUsable _ registry refl models before

  register_fallback-AreUsable :
      (vault : SecretVault) (build : ProviderBuildInfo) (key : Option String) (loaded : Loaded)
      (w : W)
      → is_empty build.target_models ≡ false
      → AreUsable loaded.0
      → AreUsable (register_fallback deployment vault build key loaded w).0.1.0
  unfolding register_fallback
  register_fallback-AreUsable vault build none loaded w models before = before
  register_fallback-AreUsable vault build (some key) loaded w models before =
      let sealed = encrypt deployment.ciphers vault key w in
      with_encrypted-AreUsable build sealed.0 loaded sealed.1 models before

  after_openai-AreUsable :
      (vault : SecretVault) (cfg : FallbackKeys) (r : (Bool × Loaded) × W)
      → AreUsable r.0.1.0
      → AreUsable (after_openai deployment vault cfg r).0.0
  unfolding after_openai anthropic_build
  after_openai-AreUsable vault cfg ((false, loaded), w) before = before
  after_openai-AreUsable vault cfg ((true, loaded), w) before =
      register_fallback-AreUsable vault (anthropic_build deployment) cfg.anthropic_api_key loaded w
        refl before

  register_env_fallback-AreUsable :
      (vault : SecretVault) (cfg : FallbackKeys) (w : W)
      → AreUsable (register_env_fallback deployment vault cfg w).0.0
  unfolding register_env_fallback openai_build
  register_env_fallback-AreUsable vault cfg w = after_openai-AreUsable vault cfg _ (
      register_fallback-AreUsable vault (openai_build deployment) cfg.openai_api_key _ w refl
        new-AreUsable)

module _ {W : Type 0} (deployment : Deployment W)
    (is_empty-listed : (models : List String) (w : W)
      → is_empty (deployment.listed models w).0 ≡ is_empty models) where
  -- Equal results hold equal registries.
  ok-AreUsable :
      (loaded : Loaded) (w : W) {loaded' : Loaded} {w' : W}
      → ◌≡◌ {A = Result Loaded × W} (ok loaded, w) (ok loaded', w')
      → AreUsable loaded.0
      → AreUsable loaded'.0
  ok-AreUsable loaded w {loaded'} h usable =
      let same : loaded ≡ loaded' = ground (arith, h) in subst (λ l. AreUsable l.0) same usable

  load_rows-AreUsable :
      (rows : List ProviderRow) (w : W) {loaded : Loaded} {w' : W}
      → load_rows deployment rows w ≡ (ok loaded, w')
      → AreUsable loaded.0
  unfolding load_rows
  load_rows-AreUsable rows w h =
      let (keys, _, h₁) = bind-eq-ok (call (failed_to deployment _) deployment.active_keys) _ w h in
      let (models, _, h₂) =
        bind-eq-ok (call (failed_to deployment _) deployment.active_target_models) _ _ h₁ in
      let (builds, _, h₃) = bind-eq-ok (add_providers deployment rows []) _ _ h₂ in
      let (with_keys, _, h₄) = bind-eq-ok (add_keys deployment keys builds) _ _ h₃ in
      let (with_models, _, h₅) =
        bind-eq-ok (add_target_models deployment models with_keys) _ _ h₄ in
      let (aliases, _, h₆) =
        bind-eq-ok (call (failed_to deployment _) deployment.active_aliases) _ _ h₅ in
      let (resolver, _, h₇) = bind-eq-ok (add_aliases deployment aliases _) _ _ h₆ in
      ok-AreUsable _ _ h₇
        (register_builds-AreUsable deployment is_empty-listed _ Registry.new _ new-AreUsable)

  load_or_fallback-AreUsable :
      (vault : SecretVault) (cfg : FallbackKeys) (rows : List ProviderRow) (w : W) {loaded : Loaded}
      {w' : W}
      → load_or_fallback deployment vault cfg rows w ≡ (ok loaded, w')
      → AreUsable loaded.0
  unfolding load_or_fallback
  load_or_fallback-AreUsable vault cfg [] w h =
      ok-AreUsable _ _ h (register_env_fallback-AreUsable deployment vault cfg w)
  load_or_fallback-AreUsable vault cfg (row ∷ rows) w h = load_rows-AreUsable (row ∷ rows) w h

  load_providers_and_models-AreUsable :
      (vault : SecretVault) (cfg : FallbackKeys) (w : W) {loaded : Loaded} {w' : W}
      → load_providers_and_models deployment vault cfg w ≡ (ok loaded, w')
      → AreUsable loaded.0
  unfolding load_providers_and_models
  load_providers_and_models-AreUsable vault cfg w h =
      let (rows, _, h₁) =
        bind-eq-ok (call (failed_to deployment _) deployment.active_providers) _ w h in
      load_or_fallback-AreUsable vault cfg rows _ h₁

  swapped_in-AreUsable :
      (current : Loaded) (r : Result Loaded) (w : W)
      → ((loaded : Loaded) → r ≡ ok loaded → AreUsable loaded.0)
      → AreUsable current.0
      → AreUsable (swapped_in deployment current (r, w)).0.1.0
  unfolding swapped_in
  swapped_in-AreUsable current (ok loaded) w loading before = loading loaded refl
  swapped_in-AreUsable current (err e) w loading before = before

  -- A reload keeps the registry in use sound, whether it succeeds or fails: if every backend of the
  -- registry before has an API key and a model and is found under its own id, then so it is of the
  -- registry after, which comes from the rows of the database, from the keys of the configuration
  -- or from before. Listing a set of models gives an empty list exactly for an empty set.
  pub reload_providers_and_models-usable :
      (vault : SecretVault) (cfg : FallbackKeys) (current : Loaded) (w : W)
      → ((id : ℕ) (p : ProxyProvider)
          → lookup id current.0.backends ≡ some p
          → (p.backend_id ≡ id) × (is_empty p.api_keys ≡ false) × (is_empty p.models ≡ false))
      → (id : ℕ) (p : ProxyProvider)
      → lookup id (reload_providers_and_models deployment vault cfg current w).0.1.0.backends
        ≡ some p
      → (p.backend_id ≡ id) × (is_empty p.api_keys ≡ false) × (is_empty p.models ≡ false)
  unfolding reload_providers_and_models
  reload_providers_and_models-usable vault cfg current w before =
      let r = load_providers_and_models deployment vault cfg w in
      swapped_in-AreUsable current r.0 r.1
        (λ loaded e. load_providers_and_models-AreUsable vault cfg w (ap (λ x. (x, r.1)) e)) before
