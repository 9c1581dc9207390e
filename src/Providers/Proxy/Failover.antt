-- ===== src/Providers/Proxy/Failover.antt =====
-- The failover between the keys of a provider: crates/zorch-providers/src/proxy.rs, proxy_request.
use zorch.Prelude.{
  ℕ, zero, suc, ◌⊎◌, ◌+◌, ◌-◌, ◌%◌, ◌<◌, ◌≤◌, String, Option, none, some, List, [], ◌∷◌, ◌++◌, ◌≡◌,
  refl, ap, ◌∙◌, unwrap_or, length, arith, Option-cases, inl, inr,
}
use native.Mathlib.Nat.{mod-eq_of_lt, add-mod_left}
use zorch.Prelude.Classes.{nat_eq}
use zorch.Shared.Errors.{text}
use zorch.Shared.Float.{Fpu}
use zorch.Providers.Errors.{ProviderError, network}
use zorch.Providers.HttpClient.{Outcome, ok, err, Network, RetryConfig, Request}
use zorch.Providers.AuthHeaders.{HeaderMap, Http, ProviderApiKey}
use zorch.Providers.Proxy.{
  Vault, ProxyProvider, ProxiedResponse, try_key, next_or_done, offsets, proxy_request, outgoing,
  start_index, position, find_key_index,
}

-- The numbers from a first one on.
unfoldable pub range : ℕ → ℕ → List ℕ
range first zero = []
range first (suc count) = first ∷ range (first + 1) count

zero_or : (n : ℕ) → (n ≡ 0) ⊎ (0 < n)
zero_or zero = inl refl
zero_or (suc n) = inr (omega arith)

position-lt :
    (k : ℕ) (keys : List ProviderApiKey) (i : ℕ) → position k keys ≡ some i → i < length keys
unfolding position
position-lt k [] i h = ground arith
position-lt k (x ∷ keys) i h = elim (Option-cases (position k keys)) [
  | inl e ↦ ground (arith, e)
  | inr (j, e) ↦ ground (arith, e, position-lt k keys j e)
]

module _ (http : Http) (vault : Vault) (provider : ProxyProvider) {W : Type 0} (net : Network W)
    (fpu : Fpu) (config : RetryConfig) where
  abbrev count : ℕ
  count = length provider.api_keys

  -- The keys at the given positions are tried one after the other.
  unfoldable pub each :
      (HeaderMap → Request) → List ℕ → Option ProviderError → W → Outcome ProxiedResponse × W
  unfolding next_or_done
  each request [] last_error w =
      (err (unwrap_or last_error (network (text "No API keys available" ∷ []))), w)
  each request (i ∷ is) last_error w =
      next_or_done http vault provider net fpu config
        (try_key http vault provider net fpu config request i w)
        (λ e w'. each request is (some e) w')

  start_index-lt :
      (preferred : Option ℕ)
      → ((start_index provider preferred ≡ 0) × (count ≡ 0))
        ⊎ (start_index provider preferred < count)
  unfolding start_index find_key_index
  start_index-lt none = elim (zero_or count) [ inl z ↦ inl (refl, z) | inr l ↦ inr l ]
  start_index-lt (some k) = elim (Option-cases (position k provider.api_keys)) [
    | inl e ↦ elim (zero_or count) [
      | inl z ↦ inl (ground (arith, e), z)
      | inr l ↦ inr (ground (arith, e))
    ]
    | inr (i, e) ↦ inr (ground (arith, e, position-lt k provider.api_keys i e))
  ]

  next_cong :
      (res : Outcome ProxiedResponse × W) (f g : ProviderError → W → Outcome ProxiedResponse × W)
      → ((e : ProviderError) (w : W) → f e w ≡ g e w)
      → next_or_done http vault provider net fpu config res f
        ≡ next_or_done http vault provider net fpu config res g
  unfolding next_or_done
  next_cong (ok x, w) f g h = refl
  next_cong (err e, w) f g h = h e w

  offsets_wrapped :
      (request : HeaderMap → Request) (start remaining offset from : ℕ)
      (last : Option ProviderError) (w : W)
      → start < count
      → start + offset ≡ count + from
      → offset + remaining ≤ count
      → offsets http vault provider net fpu config request start remaining offset last w
        ≡ each request (range from remaining) last w
  unfolding offsets each range
  offsets_wrapped request start zero offset from last w p q r = refl
  offsets_wrapped request start (suc n) offset from last w p q r =
      let i : (start + offset) % count ≡ from =
        ap (λ m. m % count) q ∙ add-mod_left count from ∙ mod-eq_of_lt (omega arith) in
      rw i (
        next_cong _ _ _ (λ e w'.
          offsets_wrapped request start n (offset + 1) (from + 1) (some e) w' p (omega arith)
            (omega arith)))

  offsets-each :
      (request : HeaderMap → Request) (start k offset : ℕ) (last : Option ProviderError) (w : W)
      → start < count
      → start + offset + k ≡ count
      → offsets http vault provider net fpu config request start (k + start) offset last w
        ≡ each request (range (start + offset) k ++ range 0 start) last w
  unfolding offsets each range
  offsets-each request start zero offset last w p q =
      let n : 0 + start ≡ start = omega arith in
      rw n (offsets_wrapped request start start offset 0 last w p (omega arith) (omega arith))
  offsets-each request start (suc k) offset last w p q =
      let i : (start + offset) % count ≡ start + offset = mod-eq_of_lt (omega arith) in
      let n : suc k + start ≡ suc (k + start) = omega arith in
      let m : start + offset + 1 ≡ start + (offset + 1) = omega arith in
      rw (n, i, m)
        (next_cong _ _ _
          (λ e w'. offsets-each request start k (offset + 1) (some e) w' p (omega arith)))

  -- The loop over the offsets is a loop over the positions of the keys: from the preferred key to
  -- the last one, and then from the first one up to the preferred one. Each key has one turn, and
  -- the first that gives a response ends the loop.
  pub proxy_request_lem :
      (preferred : Option ℕ) (method path : String) (headers : HeaderMap) (body : String) (w : W)
      → let start = start_index provider preferred in
        proxy_request http vault provider net fpu config preferred method path headers body w
        ≡ each
            (outgoing http provider method path headers body)
            (range start (count - start) ++ range 0 start)
            none
            w
  unfolding proxy_request offsets each range
  proxy_request_lem preferred method path headers body w =
      let start = start_index provider preferred in
      let request = outgoing http provider method path headers body in
      elim (start_index-lt preferred) [
        | inl (z, e) ↦ rw (e, z) refl
        | inr l ↦
            let n : count ≡ (count - start) + start = omega arith in
            let z : start + 0 ≡ start = omega arith in
            ap (λ r. offsets http vault provider net fpu config request start r 0 none w) n
            ∙ offsets-each request start (count - start) 0 none w l (omega arith)
            ∙ ap (λ s. each request (range s (count - start) ++ range 0 start) none w) z
      ]
