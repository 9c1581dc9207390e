-- ===== src/Providers/Proxy/Answers.antt =====
-- What the failover of crates/zorch-providers/src/proxy.rs answers, and how much it sends.
use zorch.Prelude.{
  ℕ, zero, suc, ◌+◌, ◌*◌, ◌%◌, ◌≤◌, false, String, Option, none, some, ◌≡◌, ◌∙◌, length, get_elem?,
  arith, Option-cases, inl, inr,
}
use zorch.Prelude.Classes.{nat_eq}
use zorch.Shared.Float.{Fpu}
use zorch.Providers.Errors.{ProviderError}
use zorch.Providers.HttpClient.{
  Outcome, ok, err, Network, RetryConfig, Request, Response, execute_with_retry, jitter_range,
}
use zorch.Providers.HttpClient.Retry.{Meters, execute_with_retry_bounds}
use zorch.Providers.AuthHeaders.{HeaderMap, Http, ProviderApiKey, and_then}
use zorch.Providers.Proxy.{
  Vault, ProxyProvider, ProxiedResponse, is_retryable_status, key_id, judge, send_with, try_key,
  next_or_done, offsets, proxy_request, outgoing, start_index, build_headers, decrypt_api_key,
  decrypt_key,
}

module _ (http : Http) (vault : Vault) (provider : ProxyProvider) {W : Type 0} (net : Network W)
    (fpu : Fpu) (config : RetryConfig) where
  abbrev count : ℕ
  count = length provider.api_keys

  next_rule {ℓ} :
      (P : Outcome ProxiedResponse × W → Type ℓ) (res : Outcome ProxiedResponse × W)
      (f : ProviderError → W → Outcome ProxiedResponse × W)
      → P res
      → ((e : ProviderError) → P (f e res.1))
      → P (next_or_done http vault provider net fpu config res f)
  unfolding next_or_done
  next_rule P (ok x, w) f p q = p
  next_rule P (err e, w) f p q = q e

  Usable : Outcome ProxiedResponse × W → Type 0
  Usable res =
      (x : ProxiedResponse)
      → res.0 ≡ ok x
      → (is_retryable_status x.response.status ≡ false)
        × (i : ℕ) × (key : ProviderApiKey) × (get_elem? provider.api_keys i ≡ some key)
        × (x.api_key_id ≡ key.id)

  judge-ok :
      (i : ℕ) (r : Outcome Response) (x : ProxiedResponse)
      → judge http vault provider net fpu config i r ≡ ok x
      → (is_retryable_status x.response.status ≡ false)
        × (x.api_key_id ≡ key_id http vault provider i)
  unfolding judge
  judge-ok i r x h = ground arith

  send_with-ok :
      (h : Outcome HeaderMap) (request : HeaderMap → Request) (i : ℕ) (w : W) (x : ProxiedResponse)
      → (send_with http vault provider net fpu config h request i w).0 ≡ ok x
      → (is_retryable_status x.response.status ≡ false)
        × (x.api_key_id ≡ key_id http vault provider i)
  unfolding send_with
  send_with-ok (err e) request i w x h = ground (arith, h)
  send_with-ok (ok headers) request i w x h =
      judge-ok i (execute_with_retry net fpu config (request headers) w).0 x h

  key_id_lem :
      (i : ℕ) (key : ProviderApiKey)
      → get_elem? provider.api_keys i ≡ some key
      → key_id http vault provider i ≡ key.id
  unfolding key_id
  key_id_lem i key e = ground (arith, e)

  try_key-Usable :
      (request : HeaderMap → Request) (i : ℕ) (w : W)
      → Usable (try_key http vault provider net fpu config request i w)
  unfolding try_key send_with Usable build_headers decrypt_api_key decrypt_key and_then key_id
  try_key-Usable request i w = λ x h. elim (Option-cases (get_elem? provider.api_keys i)) [
    | inl e ↦ absurd (ground (arith, e))
    | inr (key, e) ↦
        let u = send_with-ok (build_headers http vault provider i) request i w x h in
        (u.0, i, key, e, u.1 ∙ key_id_lem i key e)
  ]

  offsets-Usable :
      (request : HeaderMap → Request) (start remaining offset : ℕ) (last : Option ProviderError)
      (w : W)
      → Usable (offsets http vault provider net fpu config request start remaining offset last w)
  unfolding offsets Usable
  offsets-Usable request start zero offset last w = λ x h. absurd (ground (arith, h))
  offsets-Usable request start (suc n) offset last w =
      let res = try_key http vault provider net fpu config request ((start + offset) % count) w in
      next_rule Usable res
        (λ e w'.
          offsets http vault provider net fpu config request start n (offset + 1) (some e) w')
        (try_key-Usable request ((start + offset) % count) w)
        (λ e. offsets-Usable request start n (offset + 1) (some e) res.1)

  -- A response that is handed back has a status that does not ask for failover, and the key that it
  -- names is one of the provider's.
  pub proxy_request-ok :
      (preferred : Option ℕ) (method path : String) (headers : HeaderMap) (body : String) (w : W)
      (x : ProxiedResponse)
      → (proxy_request http vault provider net fpu config preferred method path headers body w).0
        ≡ ok x
      → (is_retryable_status x.response.status ≡ false)
        × (i : ℕ) × (key : ProviderApiKey) × (get_elem? provider.api_keys i ≡ some key)
        × (x.api_key_id ≡ key.id)
  unfolding proxy_request Usable
  proxy_request-ok preferred method path headers body w =
      offsets-Usable (outgoing http provider method path headers body)
        (start_index provider preferred) count 0 none w

  module _ (m : Meters net) (jitter : (d : ℕ) → jitter_range fpu d ≤ d) where
    open m use {sends}

    send_with-sends :
        (h : Outcome HeaderMap) (request : HeaderMap → Request) (i : ℕ) (w : W)
        → sends (send_with http vault provider net fpu config h request i w).1
          ≤ sends w + (config.max_retries + 1)
    unfolding send_with
    send_with-sends (err e) request i w = omega arith
    send_with-sends (ok headers) request i w =
        (execute_with_retry_bounds net fpu config m jitter (request headers) w).0

    offsets-sends :
        (request : HeaderMap → Request) (start remaining offset : ℕ) (last : Option ProviderError)
        (w : W)
        → sends (offsets http vault provider net fpu config request start remaining offset last w).1
          ≤ sends w + remaining * (config.max_retries + 1)
    unfolding offsets
    offsets-sends request start zero offset last w = omega arith
    offsets-sends request start (suc n) offset last w =
        let i = (start + offset) % count in
        let res = try_key http vault provider net fpu config request i w in
        let here : sends res.1 ≤ sends w + (config.max_retries + 1) =
          unfold try_key in send_with-sends (build_headers http vault provider i) request i w in
        next_rule (λ r. sends r.1 ≤ sends w + suc n * (config.max_retries + 1)) res
          (λ e w'.
            offsets http vault provider net fpu config request start n (offset + 1) (some e) w')
          (omega (arith, here))
          (λ e. omega (arith, here, offsets-sends request start n (offset + 1) (some e) res.1))

    -- One call sends at most the number of keys times one more than the number of retries.
    pub proxy_request_sends :
        (preferred : Option ℕ) (method path : String) (headers : HeaderMap) (body : String) (w : W)
        → sends
            (proxy_request http vault provider net fpu config preferred method path headers body
              w).1
          ≤ sends w + count * (config.max_retries + 1)
    unfolding proxy_request
    proxy_request_sends preferred method path headers body w =
        offsets-sends (outgoing http provider method path headers body)
          (start_index provider preferred) count 0 none w
