-- ===== src/Providers/Registry.antt =====
-- crates/zorch-providers/src/registry.rs and selector.rs. A model is the text of its id.
use zorch.Prelude.{
  ℕ, suc, length, Bool-cases, Option-cases, inl, inr, ◌≡◌, ◌↔◌, ap, ◌∙◌, Bool, true, ◌&&◌, ◌||◌,
  String, Option, none, some, List, [], ◌∷◌, ◌++◌, any, unwrap_or, get_elem?, arith,
}
use zorch.Prelude.Classes.{Eq, ◌==◌, nat_eq, string_eq, beq_refl}
use zorch.Prelude.Map.{lookup, insert, lookup-insert}
use zorch.Providers.Proxy.{ProxyProvider}

abbrev PoolKey : Type 0
PoolKey = String × String

abbrev pair_beq : PoolKey → PoolKey → Bool
pair_beq (p, m) (q, n) = p == q && m == n

pub pair_beq_iff : (a b : PoolKey) → (pair_beq a b ≡ true) ↔ (a ≡ b)
pair_beq_iff (p, m) (q, n) = (
  λ h. ground (arith, h, string_eq.beq_iff p q, string_eq.beq_iff m n),
  λ h. ground (arith, h, string_eq.beq_iff p q, string_eq.beq_iff m n),
)

instance abbrev pub pool_key_eq : Eq PoolKey
pool_key_eq = record { beq = pair_beq; beq_iff = pair_beq_iff }

pub record ProxyProviderRegistry : Type 0 where
  pub backends : List (ℕ × ProxyProvider)
  pub pools : List (PoolKey × List ℕ)

abbrev pub new : ProxyProviderRegistry
new = record { backends = []; pools = [] }

-- `pools.entry((provider_id, model)).or_default().push(backend_id)` for each model
unfoldable pub add_models :
    String → ℕ → List String → List (PoolKey × List ℕ) → List (PoolKey × List ℕ)
add_models provider_id backend_id [] pools = pools
add_models provider_id backend_id (model ∷ models) pools =
    let key : PoolKey = (provider_id, model) in
    add_models provider_id backend_id models
      (insert key (unwrap_or (lookup key pools) [] ++ backend_id ∷ []) pools)

unfoldable pub register : ProxyProvider → ProxyProviderRegistry → ProxyProviderRegistry
register provider registry = record {
  backends = insert provider.backend_id provider registry.backends;
  pools = add_models provider.provider_id provider.backend_id provider.models registry.pools;
}

unfoldable pub filter_map : (ℕ → Option ProxyProvider) → List ℕ → List ProxyProvider
filter_map f [] = []
filter_map f (id ∷ ids) =
    let rest = filter_map f ids in elim (f id) [ none ↦ rest | some p ↦ p ∷ rest ]

unfoldable pub find_backends : ProxyProviderRegistry → String → String → List ProxyProvider
find_backends registry provider_id model_id =
    filter_map (λ id. lookup id registry.backends)
      (unwrap_or (lookup (provider_id, model_id) registry.pools) [])

-- `choose` draws one of the positions; the strategy is always Random.
unfoldable pub select :
    {W : Type 0} → (ℕ → W → ℕ × W) → List ProxyProvider → W → Option ProxyProvider × W
select choose [] w = (none, w)
select choose (p ∷ ps) w = let (i, w') = choose (suc (length ps)) w in (get_elem? (p ∷ ps) i, w')

abbrev pool_of : PoolKey → List (PoolKey × List ℕ) → List ℕ
pool_of key pools = unwrap_or (lookup key pools) []

abbrev holds : ℕ → List ℕ → Bool
holds id ids = any (λ j. j == id) ids

holds-append : (id : ℕ) (xs : List ℕ) (y : ℕ) → holds id (xs ++ y ∷ []) ≡ (holds id xs || y == id)
holds-append id [] y = ground arith
holds-append id (x ∷ xs) y = ground (arith, holds-append id xs y)

add_models-holds :
    (provider_id model : String) (backend_id : ℕ) (models : List String)
    (pools : List (PoolKey × List ℕ))
    → (any (λ m. m == model) models || holds backend_id (pool_of (provider_id, model) pools)) ≡ true
    → holds backend_id
        (pool_of (provider_id, model) (add_models provider_id backend_id models pools))
      ≡ true
unfolding add_models
add_models-holds provider_id model backend_id [] pools h = h
add_models-holds provider_id model backend_id (m ∷ models) pools h =
    let key : PoolKey = (provider_id, m) in
    let goal : PoolKey = (provider_id, model) in
    let pools' = insert key (pool_of key pools ++ backend_id ∷ []) pools in
    add_models-holds provider_id model backend_id models pools' (
      ground (
        arith,
        h,
        lookup-insert key goal (pool_of key pools ++ backend_id ∷ []) pools,
        holds-append backend_id (pool_of key pools) backend_id,
        beq_refl backend_id,
        beq_refl provider_id,
        string_eq.beq_iff m model,
      ))

filter_map-holds :
    (f : ℕ → Option ProxyProvider) (id : ℕ) (p : ProxyProvider) (ids : List ℕ)
    → f id ≡ some p
    → holds id ids ≡ true
    → (i : ℕ) × (get_elem? (filter_map f ids) i ≡ some p)
unfolding filter_map
filter_map-holds f id p [] e h = absurd (ground (arith, h))
filter_map-holds f id p (j ∷ ids) e h = elim (Bool-cases (j == id)) [
  | inl b ↦ let q : f j ≡ some p = ap f ((nat_eq.beq_iff j id).0 b) ∙ e in (0, ground (arith, q))
  | inr b ↦
      let (i, g) = filter_map-holds f id p ids e (ground (arith, b, h)) in
      elim (Option-cases (f j)) [
        | inl n ↦ (i, ground (arith, n, g))
        | inr (x, n) ↦ (suc i, ground (arith, n, g))
      ]
]

-- A backend that was registered is in the pool of each model that it advertises.
pub find_backends-register :
    (p : ProxyProvider) (registry : ProxyProviderRegistry) (model : String)
    → any (λ m. m == model) p.models ≡ true
    → (i : ℕ) × (get_elem? (find_backends (register p registry) p.provider_id model) i ≡ some p)
unfolding find_backends register
find_backends-register p registry model h =
    let pools = add_models p.provider_id p.backend_id p.models registry.pools in
    filter_map-holds (λ id. lookup id (insert p.backend_id p registry.backends)) p.backend_id p
      (pool_of (p.provider_id, model) pools)
      (ground
        (arith, lookup-insert p.backend_id p.backend_id p registry.backends, beq_refl p.backend_id))
      (add_models-holds p.provider_id model p.backend_id p.models registry.pools
        (ground (arith, h)))
