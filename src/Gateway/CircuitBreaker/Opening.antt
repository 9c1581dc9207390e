-- ===== src/Gateway/CircuitBreaker/Opening.antt =====
-- When a circuit of crates/zorch-gateway/src/circuit_breaker.rs opens, and how long it stays so.
use zorch.Prelude.{
  ℕ, ◌+◌, ◌^◌, ◌≤◌, ◌<◌, ◌≡◌, List, [], ◌∷◌, Option, none, some, arith, false, leb, length,
  if◌then◌else◌, All, nat_beq, nat_beq_iff, Bool-cases, inl, inr,
}
use zorch.Gateway.CircuitBreaker.Circuit
use zorch.Gateway.CircuitBreaker.{
  BackendCircuit, closed, opened, CircuitBreaker, Call, succeeded, failed, asked, entry, run,
  is_backend_healthy,
}
use zorch.Gateway.CircuitBreaker.Isolation.{effect, target, replay, entry-run}

abbrev pub failures_at : ℕ → List ℕ → List Call
failures_at id [] = []
failures_at id (now ∷ rest) = failed now id ∷ failures_at id rest

opened-replay :
    (id : ℕ) (times : List ℕ) (c : BackendCircuit)
    → c.state ≡ opened
    → (replay id (failures_at id times) c).state ≡ opened
unfolding Circuit.record_failure
opened-replay id [] c h = h
opened-replay id (t ∷ ts) c h =
    ground (arith, nat_beq_iff id id, opened-replay id ts (Circuit.record_failure t c))

closed-replay :
    (id : ℕ) (times : List ℕ) (c : BackendCircuit)
    → c.state ≡ closed
    → c.failures < c.threshold
    → c.threshold < 2 ^ 32
    → (replay id (failures_at id times) c).state
      ≡ (if leb c.threshold (c.failures + length times) then opened else closed)
unfolding Circuit.record_failure
closed-replay id [] c h f w = ground arith
closed-replay id (t ∷ ts) c h f w = ground (
  arith,
  nat_beq_iff id id,
  opened-replay id ts (Circuit.record_failure t c),
  closed-replay id ts (Circuit.record_failure t c),
)

-- Take a backend whose circuit is closed and short of its threshold, which fits in a u32. After
-- any number of failures in a row the circuit is open when the failures, with those counted
-- before, reach the threshold, and closed otherwise.
failures-state :
    (cb : CircuitBreaker) (id : ℕ) (times : List ℕ)
    → (entry cb id).state ≡ closed
    → (entry cb id).failures < (entry cb id).threshold
    → (entry cb id).threshold < 2 ^ 32
    → (entry (run cb (failures_at id times)) id).state ≡ (
        if leb (entry cb id).threshold ((entry cb id).failures + length times)
        then opened
        else closed)
failures-state cb id times h f w =
    rw (entry-run cb (failures_at id times) id) (closed-replay id times (entry cb id) h f w)

-- The call happens from time `t` on and before `until`; a success carries no time.
abbrev pub Within : ℕ → ℕ → Call → Type 0
Within t until (succeeded id) = Unit
Within t until (failed now id) = (t ≤ now) × (now < until)
Within t until (asked now id) = now < until

abbrev Since : ℕ → Option ℕ → Type 0
Since t none = ⊥
Since t (some last) = t ≤ last

-- Open, and stamped at `t` or later.
record OpenSince (t timeout : ℕ) (c : BackendCircuit) : Type 0 where
  state : c.state ≡ opened
  stamp : Since t c.last_failure
  same : c.timeout ≡ timeout

effect-OpenSince :
    (t timeout : ℕ) (call : Call) (c : BackendCircuit)
    → 0 < timeout
    → Within t (t + timeout) call
    → OpenSince t timeout c
    → OpenSince t timeout (effect call c)
unfolding Circuit.record_success Circuit.record_failure Circuit.transition_if_needed
effect-OpenSince t timeout (succeeded id) c p w h = ground arith
effect-OpenSince t timeout (failed now id) c p w h = ground arith
effect-OpenSince t timeout (asked now id) c p w h = ground arith

replay-OpenSince :
    (t timeout id : ℕ) (calls : List Call) (c : BackendCircuit)
    → 0 < timeout
    → All (Within t (t + timeout)) calls
    → OpenSince t timeout c
    → OpenSince t timeout (replay id calls c)
replay-OpenSince t timeout id [] c p w h = h
replay-OpenSince t timeout id (call ∷ calls) c p w h =
    elim (Bool-cases (nat_beq (target call) id)) [
      | inl e ↦
          rw e (
            replay-OpenSince t timeout id calls _ p w.1 (effect-OpenSince t timeout call c p w.0 h))
      | inr e ↦ rw e (replay-OpenSince t timeout id calls c p w.1 h)
    ]

refused :
    (t timeout now : ℕ) (c : BackendCircuit)
    → 0 < timeout
    → now < t + timeout
    → OpenSince t timeout c
    → Circuit.is_healthy now (Circuit.transition_if_needed now c) ≡ false
unfolding Circuit.is_healthy Circuit.transition_if_needed
refused t timeout now c p w h = ground arith

-- Take a backend whose circuit is open since a failure at `t`, with a timeout
-- that is not zero. Whatever the breaker is told and
-- asked before `t` and the timeout of that circuit have passed, with no failure dated before `t`
-- (successes of this very backend included), a health check in that time answers no.
pub opened-refuses :
    (cb : CircuitBreaker) (id t now : ℕ) (history : List Call)
    → (entry cb id).state ≡ opened
    → (entry cb id).last_failure ≡ some t
    → 0 < (entry cb id).timeout
    → All (Within t (t + (entry cb id).timeout)) history
    → now < t + (entry cb id).timeout
    → (is_backend_healthy now id (run cb history)).0 ≡ false
unfolding is_backend_healthy
opened-refuses cb id t now history o l p w n =
    rw (entry-run cb history id)
      (refused t _ now _ p n (replay-OpenSince t _ id history (entry cb id) p w start))
  where
    start : OpenSince t (entry cb id).timeout (entry cb id)
    start = ground arith
