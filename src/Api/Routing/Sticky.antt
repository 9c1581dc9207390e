-- ===== src/Api/Routing/Sticky.antt =====
-- The sticky key of a client, resolve_sticky_target_key of
-- crates/zorch-api/src/routes/v1/proxy/mod.rs.
use zorch.Prelude.{
  ℕ, zero, suc, ◌<◌, ◌≡◌, refl, Bool-cases, Option-cases, inl, inr, Option, none, some, String,
  List, [], ◌∷◌, length, get_elem?, arith,
}
use zorch.Prelude.Classes.{◌==◌, nat_eq}
use zorch.Shared.Errors.{Result, ok, err}
use zorch.External.Redis.{Redis}
use zorch.Cache.StickyTargetKey.{next_key_index, next_key_index-lt, get}
use zorch.Providers.AuthHeaders.{ProviderApiKey}
use zorch.Providers.Proxy.{ProxyProvider, find_key_index, position}
use zorch.Api.Routing.{
  Outside, AppState, pick, index_or_zero, id_or, pick_next, forget, use_cached,
  resolve_sticky_target_key, seconds,
}

-- The id is one of the provider's keys.
pub IsKeyOf : ProxyProvider → ℕ → Type 0
IsKeyOf provider id = (i : ℕ) × (find_key_index provider id ≡ some i)

position-IsSome :
    (keys : List ProviderApiKey) (i : ℕ) (k : ProviderApiKey)
    → get_elem? keys i ≡ some k
    → (j : ℕ) × (position k.id keys ≡ some j)
unfolding position
position-IsSome [] i k h = absurd (ground (arith, h))
position-IsSome (x ∷ keys) zero k h =
    let e : x.id ≡ k.id = ground (arith, h) in (0, ground (arith, e, nat_eq.beq_iff x.id k.id))
position-IsSome (x ∷ keys) (suc i) k h =
    let (j, e) = position-IsSome keys i k h in
    elim (Bool-cases (x.id == k.id)) [
      | inl b ↦ (0, ground (arith, b))
      | inr b ↦ (suc j, ground (arith, b, e))
    ]

get_elem?-lt :
    (keys : List ProviderApiKey) (i : ℕ)
    → i < length keys
    → (k : ProviderApiKey) × (get_elem? keys i ≡ some k)
get_elem?-lt [] i h = absurd (omega (arith, h))
get_elem?-lt (x ∷ keys) zero h = (x, refl)
get_elem?-lt (x ∷ keys) (suc i) h = get_elem?-lt keys i (omega (arith, h))

module _ {r : Redis} {W : Type 0} (out : Outside r W) (api_key_id : String)
    (provider : ProxyProvider) where
  pick-IsKeyOf :
      (drawn : Result ℕ) (server : r.Server) (state : AppState r W)
      → ((i : ℕ) → drawn ≡ ok i → i < length provider.api_keys)
      → 0 < length provider.api_keys
      → IsKeyOf provider (pick out api_key_id provider (drawn, server) state).0
  unfolding pick IsKeyOf find_key_index index_or_zero id_or
  pick-IsKeyOf (ok i) server state h p =
      let (k, e) = get_elem?-lt provider.api_keys i (h i refl) in
      let (j, f) = position-IsSome provider.api_keys i k e in (j, ground (arith, e, f))
  pick-IsKeyOf (err m) server state h p =
      let (k, e) = get_elem?-lt provider.api_keys 0 p in
      let (j, f) = position-IsSome provider.api_keys 0 k e in (j, ground (arith, e, f))

  pick_next-IsKeyOf :
      (state : AppState r W)
      → 0 < length provider.api_keys
      → IsKeyOf provider (pick_next out api_key_id provider state).0
  unfolding pick_next
  pick_next-IsKeyOf state p =
      let drawn =
        next_key_index r out.uuid out.sticky_ttl_secs (seconds out state) api_key_id
          provider.provider_id (length provider.api_keys) state.server in
      pick-IsKeyOf drawn.0 drawn.1 state
        (λ i e.
          next_key_index-lt r out.uuid out.sticky_ttl_secs (seconds out state) api_key_id
            provider.provider_id (length provider.api_keys) i state.server drawn.1 p
            (ground (arith, e)))
        p

  use_cached-IsKeyOf :
      (cached : Result (Option ℕ)) (state : AppState r W)
      → 0 < length provider.api_keys
      → IsKeyOf provider (use_cached out api_key_id provider cached state).0
  unfolding use_cached IsKeyOf
  use_cached-IsKeyOf (err e) state p = pick_next-IsKeyOf state p
  use_cached-IsKeyOf (ok none) state p = pick_next-IsKeyOf state p
  use_cached-IsKeyOf (ok (some cached_id)) state p =
      elim (Option-cases (find_key_index provider cached_id)) [
        | inl n ↦
            let (j, e) = pick_next-IsKeyOf (forget out api_key_id provider state) p in
            (j, ground (arith, n, e))
        | inr (i, e) ↦ (i, ground (arith, e))
      ]

  -- A provider that has a key is given one of its keys as the preferred one, whatever the cache
  -- holds and even if every command of the server fails.
  pub resolve_sticky_target_key-IsKeyOf :
      (state : AppState r W)
      → 0 < length provider.api_keys
      → IsKeyOf provider (resolve_sticky_target_key out api_key_id provider state).0
  unfolding resolve_sticky_target_key
  resolve_sticky_target_key-IsKeyOf state p =
      let cached =
        get r out.uuid out.sticky_ttl_secs (seconds out state) api_key_id provider.provider_id
          state.server in
      use_cached-IsKeyOf cached.0 (record state { server = cached.1 }) p
