-- ===== src/Providers/HttpClient.antt =====
-- crates/zorch-providers/src/http_client.rs. The network, the timer and the random numbers are a
-- world `W` with three operations; a body is a text, so that a request can be cloned for a retry.
pub mod Retry
pub mod Examples
use zorch.Prelude.{
  ℕ, zero, suc, ◌+◌, ◌-◌, ◌*◌, ◌%◌, ◌^◌, Bool, true, false, ◌&&◌, String, Option, none, some, List,
  [], ◌∷◌, any, ltb, leb, nat_beq, if◌then◌else◌, unwrap_or,
}
use zorch.Shared.Float.{Fpu, f64_0_2}
use zorch.Shared.Errors.{Message, text, num}
use zorch.Providers.Errors.{ProviderError, network, timeout, internal, ReqwestError, from_reqwest}

pub record RetryConfig : Type 0 where
  pub max_retries : ℕ  -- u32
  pub base_delay_ms : ℕ  -- u64
  pub max_delay_ms : ℕ  -- u64
  pub retryable_statuses : List ℕ

-- RetryConfig::default
abbrev pub default_retry : RetryConfig
default_retry = record {
  max_retries = 3;
  base_delay_ms = 500;
  max_delay_ms = 30000;
  retryable_statuses = 429 ∷ 500 ∷ 502 ∷ 503 ∷ 504 ∷ [];
}

pub record Request : Type 0 where
  pub method : String
  pub url : String
  pub headers : List (String × String)
  pub body : String

pub record Response : Type 0 where
  pub status : ℕ
  pub headers : List (String × String)
  pub body : String

pub data Sent : Type 0 where
  answered : Response → Sent
  broke : ReqwestError → Sent

-- `send` is given the value of the X-Retry-Count header, none at the first attempt; `gen_range`
-- draws from 0..=bound.
pub record Network (W : Type 0) : Type 0 where
  pub send : Request → Option ℕ → W → Sent × W
  pub gen_range : ℕ → W → ℕ × W
  pub sleep : ℕ → W → W

pub data Outcome (A : Type 0) : Type 0 where
  ok : A → Outcome A
  err : ProviderError → Outcome A

unfoldable pub is_retryable_status : RetryConfig → ℕ → Bool
is_retryable_status config status = any (λ s. nat_beq s status) config.retryable_statuses

-- saturating_mul of u64
abbrev pub saturating_mul : ℕ → ℕ → ℕ
saturating_mul a b = if ltb (a * b) (2 ^ 64) then a * b else 2 ^ 64 - 1

abbrev pub min : ℕ → ℕ → ℕ
min a b = if leb a b then a else b

-- 1u64 << attempt takes the low six bits of the count in a release build
unfoldable pub capped_delay : RetryConfig → ℕ → ℕ
capped_delay config attempt =
    min (saturating_mul config.base_delay_ms (2 ^ (attempt % 64))) config.max_delay_ms

unfoldable pub jitter_range : Fpu → ℕ → ℕ
jitter_range fpu delay = fpu.to_int (fpu.mul (fpu.of_int delay) f64_0_2)

module _ {W : Type 0} (net : Network W) (fpu : Fpu) (config : RetryConfig) where
  unfoldable pub calculate_delay : ℕ → W → ℕ × W
  calculate_delay attempt w =
      let delay = capped_delay config attempt in
      let (jitter, w') = net.gen_range (jitter_range fpu delay) w in (delay + jitter, w')

  -- `sleep(self.calculate_delay(attempt)).await`
  unfoldable pub pause : ℕ → W → W
  unfolding calculate_delay
  pause attempt w = let (delay, w') = calculate_delay attempt w in net.sleep delay w'

  abbrev retry_count : ℕ → Option ℕ
  retry_count zero = none
  retry_count (suc n) = some (suc n)

  is_transient : ProviderError → Bool
  is_transient (network m) = true
  is_transient timeout = true
  is_transient _ = false

  -- One round after its `send`; `again` is the rest of the loop.
  after_send :
      ℕ
      → Option ProviderError
      → (Option ProviderError → W → Outcome Response × W)
      → Sent × W
      → Outcome Response × W
  unfolding is_transient
  after_send attempt last again (answered response, w) =
      if is_retryable_status config response.status
      then (let e =
            network (text "HTTP " ∷ num response.status ∷ text ": " ∷ text response.body ∷ []) in
          if ltb attempt config.max_retries then again (some e) (pause attempt w) else (err e, w))
      else (ok response, w)
  after_send attempt last again (broke e, w) =
      let provider_error = from_reqwest e in
      if is_transient provider_error && ltb attempt config.max_retries
      then again (some provider_error) (pause attempt w)
      else (err provider_error, w)

  -- The rounds left of `for attempt in 0..=max_retries`.
  unfoldable pub attempts : ℕ → ℕ → Option ProviderError → Request → W → Outcome Response × W
  unfolding after_send
  attempts zero attempt last request w =
      (err (unwrap_or last (internal (text "Retry logic failed" ∷ []))), w)
  attempts (suc rounds) attempt last request w =
      after_send attempt last (λ e w'. attempts rounds (attempt + 1) e request w')
        (net.send request (retry_count attempt) w)

  unfoldable pub execute_with_retry : Request → W → Outcome Response × W
  execute_with_retry request w = attempts (config.max_retries + 1) 0 none request w
