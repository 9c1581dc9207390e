-- ===== src/Providers/HttpClient/Retry.antt =====
-- What the retry loop of crates/zorch-providers/src/http_client.rs promises.
use zorch.Prelude.{
  ℕ, zero, suc, ◌+◌, ◌*◌, ◌≤◌, ◌<◌, ◌≡◌, ◌≢◌, false, Option, none, some, arith, ltb, inl, inr,
  Bool-cases,
}
use zorch.Shared.Float.{Fpu}
use zorch.Shared.Errors.{Message}
use zorch.Providers.Errors.{ProviderError, internal, from_reqwest, ReqwestError}
use zorch.Providers.HttpClient.{
  RetryConfig, Request, Response, Sent, answered, broke, Network, Outcome, ok, err,
  is_retryable_status, pause, after_send, attempts, execute_with_retry, is_transient, retry_count,
  capped_delay, jitter_range,
}

-- The world counts requests and waiting: `send` is one request, `sleep` waits for its delay, and a
-- random number is drawn from its range.
pub record Meters {W : Type 0} (net : Network W) : Type 0 where
  pub sends : W → ℕ
  pub slept : W → ℕ
  pub sends-send : (q : Request) (n : Option ℕ) (w : W) → sends (net.send q n w).1 ≡ sends w + 1
  pub slept-send : (q : Request) (n : Option ℕ) (w : W) → slept (net.send q n w).1 ≡ slept w
  pub sends-draw : (b : ℕ) (w : W) → sends (net.gen_range b w).1 ≡ sends w
  pub slept-draw : (b : ℕ) (w : W) → slept (net.gen_range b w).1 ≡ slept w
  pub draw-le : (b : ℕ) (w : W) → (net.gen_range b w).0 ≤ b
  pub sends-sleep : (d : ℕ) (w : W) → sends (net.sleep d w) ≡ sends w
  pub slept-sleep : (d : ℕ) (w : W) → slept (net.sleep d w) ≡ slept w + d

capped_delay-le :
    (config : RetryConfig) (attempt : ℕ) → capped_delay config attempt ≤ config.max_delay_ms
unfolding capped_delay
capped_delay-le config attempt = ground arith

from_reqwest-ne-internal : (x : ReqwestError) (m : Message) → from_reqwest x ≢ internal m
unfolding from_reqwest
from_reqwest-ne-internal x m h = ground arith

module _ {W : Type 0} (net : Network W) (fpu : Fpu) (config : RetryConfig) where
  -- The loop's result has a property that its final answers have, and that the rounds keep.
  after_send_rule {ℓ} :
      (P : Outcome Response × W → Type ℓ) (attempt : ℕ) (last : Option ProviderError)
      (again : Option ProviderError → W → Outcome Response × W) (sent : Sent × W)
      → ((e : ProviderError)
          → attempt < config.max_retries
          → P (again (some e) (pause net fpu config attempt sent.1)))
      → ((x : Response) → is_retryable_status config x.status ≡ false → P (ok x, sent.1))
      → ((e : ProviderError) → ((m : Message) → e ≢ internal m) → P (err e, sent.1))
      → P (after_send net fpu config attempt last again sent)
  unfolding after_send
  after_send_rule P attempt last again (answered x, w) rounds final error =
      elim (Bool-cases (is_retryable_status config x.status)) [
        | inl e ↦ elim (Bool-cases (ltb attempt config.max_retries)) [
          | inl l ↦ rw (e, l) (rounds _ (ground arith))
          | inr l ↦ rw (e, l) (error _ (λ m p. cc))
        ]
        | inr e ↦ rw e (final x e)
      ]
  after_send_rule P attempt last again (broke x, w) rounds final error =
      elim (Bool-cases (is_transient net fpu config (from_reqwest x))) [
        | inl e ↦ elim (Bool-cases (ltb attempt config.max_retries)) [
          | inl l ↦ rw (e, l) (rounds _ (ground arith))
          | inr l ↦ rw (e, l) (error _ (from_reqwest-ne-internal x))
        ]
        | inr e ↦ rw e (error _ (from_reqwest-ne-internal x))
      ]

  Conclusive : Outcome Response × W → Type 0
  Conclusive res = (x : Response) → res.0 ≡ ok x → is_retryable_status config x.status ≡ false

  attempts-Conclusive :
      (rounds attempt : ℕ) (last : Option ProviderError) (request : Request) (w : W)
      → Conclusive (attempts net fpu config rounds attempt last request w)
  unfolding attempts Conclusive
  attempts-Conclusive zero attempt last request w = λ x h. cc
  attempts-Conclusive (suc rounds) attempt last request w =
      after_send_rule Conclusive attempt last
        (λ e w'. attempts net fpu config rounds (attempt + 1) e request w') _
        (λ e l. attempts-Conclusive rounds (attempt + 1) (some e) request _)
        (λ y n x h. ground (arith, n)) (λ e n x h. cc)

  -- A response that is handed back never has a status of the list that triggers a retry.
  pub execute_with_retry-ok :
      (request : Request) (w : W) (x : Response)
      → (execute_with_retry net fpu config request w).0 ≡ ok x
      → is_retryable_status config x.status ≡ false
  unfolding execute_with_retry Conclusive
  execute_with_retry-ok request w = attempts-Conclusive (config.max_retries + 1) 0 none request w

  NotInternal : Outcome Response × W → Type 0
  NotInternal res = (m : Message) → res.0 ≢ err (internal m)

  attempts-NotInternal :
      (rounds attempt : ℕ) (last : Option ProviderError) (request : Request) (w : W)
      → attempt + rounds ≡ config.max_retries + 1
      → attempt ≤ config.max_retries
      → NotInternal (attempts net fpu config rounds attempt last request w)
  unfolding attempts NotInternal
  attempts-NotInternal zero attempt last request w p q = absurd (omega arith)
  attempts-NotInternal (suc rounds) attempt last request w p q =
      after_send_rule NotInternal attempt last
        (λ e w'. attempts net fpu config rounds (attempt + 1) e request w') _
        (λ e l.
          attempts-NotInternal rounds (attempt + 1) (some e) request _ (omega arith) (omega arith))
        (λ y n m h. cc) (λ e n m h. n m (ground arith))

  -- The loop never falls through to its "Retry logic failed": every error that it returns is one
  -- that the network gave.
  pub execute_with_retry-ne-internal :
      (request : Request) (w : W) (m : Message)
      → (execute_with_retry net fpu config request w).0 ≢ err (internal m)
  unfolding execute_with_retry NotInternal
  execute_with_retry-ne-internal request w =
      attempts-NotInternal (config.max_retries + 1) 0 none request w (omega arith) (omega arith)

  module _ (m : Meters net) (jitter : (d : ℕ) → jitter_range fpu d ≤ d) where
    open m use {sends, slept}

    pause_meters :
        (attempt : ℕ) (w : W)
        → (sends (pause net fpu config attempt w) ≡ sends w)
          × (slept (pause net fpu config attempt w) ≤ slept w + 2 * config.max_delay_ms)
    unfolding pause
    pause_meters attempt w =
        let d = capped_delay config attempt in
        let w' = (net.gen_range (jitter_range fpu d) w).1 in
        let j = (net.gen_range (jitter_range fpu d) w).0 in
        (
          omega (arith, m.sends-sleep (d + j) w', m.sends-draw (jitter_range fpu d) w),
          omega (
            arith,
            m.slept-sleep (d + j) w',
            m.slept-draw (jitter_range fpu d) w,
            m.draw-le (jitter_range fpu d) w,
            jitter d,
            capped_delay-le config attempt,
          ),
        )

    Frugal : ℕ → W → Outcome Response × W → Type 0
    Frugal rounds w res =
        (sends res.1 ≤ sends w + rounds)
        × (slept res.1 + 2 * config.max_delay_ms ≤ slept w + rounds * (2 * config.max_delay_ms))

    once :
        (attempt : ℕ) (request : Request) (rounds : ℕ) (w : W) (o : Outcome Response)
        → Frugal (suc rounds) w (o, (net.send request (retry_count net fpu config attempt) w).1)
    unfolding Frugal
    once attempt request rounds w o =
        let n = retry_count net fpu config attempt in
        (omega (arith, m.sends-send request n w), omega (arith, m.slept-send request n w))

    more :
        (attempt : ℕ) (request : Request) (rounds : ℕ) (w : W) (res : Outcome Response × W)
        → let w1 = (net.send request (retry_count net fpu config attempt) w).1 in
          Frugal (suc rounds) (pause net fpu config attempt w1) res
          → Frugal (suc (suc rounds)) w res
    unfolding Frugal
    more attempt request rounds w res h =
        let n = retry_count net fpu config attempt in
        let w1 = (net.send request n w).1 in
        let p = pause_meters attempt w1 in
        (
          omega (arith, h.0, p.0, m.sends-send request n w),
          omega (arith, h.1, p.1, m.slept-send request n w),
        )

    attempts-Frugal :
        (rounds attempt : ℕ) (last : Option ProviderError) (request : Request) (w : W)
        → attempt + suc rounds ≡ config.max_retries + 1
        → Frugal (suc rounds) w (attempts net fpu config (suc rounds) attempt last request w)
    unfolding attempts Frugal
    attempts-Frugal zero attempt last request w p =
        after_send_rule (Frugal 1 w) attempt last
          (λ e w'. attempts net fpu config zero (attempt + 1) e request w')
          (net.send request (retry_count net fpu config attempt) w) (λ e l. absurd (omega arith))
          (λ y n. once attempt request zero w (ok y)) (λ e n. once attempt request zero w (err e))
    attempts-Frugal (suc rounds) attempt last request w p =
        after_send_rule (Frugal (suc (suc rounds)) w) attempt last
          (λ e w'. attempts net fpu config (suc rounds) (attempt + 1) e request w')
          (net.send request (retry_count net fpu config attempt) w)
          (λ e l.
            more attempt request rounds w
              (attempts net fpu config (suc rounds) (attempt + 1) (some e) request (
                pause net fpu config attempt
                  (net.send request (retry_count net fpu config attempt) w).1))
              (attempts-Frugal rounds (attempt + 1) (some e) request _ (omega arith)))
          (λ y n. once attempt request (suc rounds) w (ok y))
          (λ e n. once attempt request (suc rounds) w (err e))

    -- A request goes out at most once more than there are retries, and the waits between sum up to
    -- at most twice the largest delay for each retry.
    pub execute_with_retry_bounds :
        (request : Request) (w : W)
        → (sends (execute_with_retry net fpu config request w).1
            ≤ sends w + (config.max_retries + 1))
          × (slept (execute_with_retry net fpu config request w).1
              ≤ slept w + config.max_retries * (2 * config.max_delay_ms))
    unfolding execute_with_retry Frugal
    execute_with_retry_bounds request w =
        let n : config.max_retries + 1 ≡ suc config.max_retries = omega arith in
        rw n (
          let h = attempts-Frugal config.max_retries 0 none request w (omega arith) in
          (h.0, omega (arith, h.1)))
