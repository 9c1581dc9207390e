-- ===== src/Gateway/CircuitBreaker/Recovery.antt =====
-- How a circuit of crates/zorch-gateway/src/circuit_breaker.rs closes again.
use zorch.Prelude.{
  ℕ, zero, suc, ◌+◌, ◌^◌, ◌≤◌, ◌<◌, ◌≡◌, refl, ap, sym, subst, ◌∙◌, List, [], ◌∷◌, some, arith,
  true, leb, nat_beq, nat_beq_iff, Bool-cases, inl, inr, if◌then◌else◌,
}
use native.Mathlib.Nat.{zero-add}
use zorch.Gateway.CircuitBreaker.Circuit
use zorch.Gateway.CircuitBreaker.{
  CircuitState, BackendCircuit, closed, opened, half_open, CircuitBreaker, Call, succeeded, failed,
  asked, entry, step, run, is_backend_healthy,
}
use zorch.Gateway.CircuitBreaker.Isolation.{effect, target, replay, entry-run, entry-step}

abbrev pub successes : ℕ → ℕ → List Call
successes id zero = []
successes id (suc n) = succeeded id ∷ successes id n

closed-successes :
    (id n : ℕ) (c : BackendCircuit)
    → c.state ≡ closed
    → (replay id (successes id n) c).state ≡ closed
unfolding Circuit.record_success
closed-successes id zero c h = h
closed-successes id (suc n) c h =
    ground (arith, nat_beq_iff id id, closed-successes id n (Circuit.record_success c))

half_open-successes :
    (id n : ℕ) (c : BackendCircuit)
    → c.state ≡ half_open
    → c.success_count < c.half_open_max_calls
    → c.half_open_max_calls < 2 ^ 32
    → (replay id (successes id n) c).state
      ≡ (if leb c.half_open_max_calls (c.success_count + n) then closed else half_open)
unfolding Circuit.record_success
half_open-successes id zero c h f w = ground arith
half_open-successes id (suc n) c h f w = ground (
  arith,
  nat_beq_iff id id,
  closed-successes id n (Circuit.record_success c),
  half_open-successes id n (Circuit.record_success c),
)

asked-half_open :
    (now t : ℕ) (c : BackendCircuit)
    → c.state ≡ opened
    → c.last_failure ≡ some t
    → t + c.timeout ≤ now
    → (Circuit.transition_if_needed now c ≡ record c { state = half_open; success_count = 0 })
      × (Circuit.is_healthy now (Circuit.transition_if_needed now c) ≡ true)
unfolding Circuit.transition_if_needed Circuit.is_healthy
asked-half_open now t c o l w = ground arith

replay-asked :
    (now id : ℕ) (calls : List Call) (c : BackendCircuit)
    → replay id (asked now id ∷ calls) c ≡ replay id calls (Circuit.transition_if_needed now c)
replay-asked now id calls c =
    ap (λ b. replay id calls (if b then Circuit.transition_if_needed now c else c))
      ((nat_beq_iff id id).1 refl)

-- Take a backend whose circuit is open since a failure at `t`, with a goal of at least one
-- success that fits in a u32. A health check once the timeout has passed answers yes; `n`
-- successes after it close the circuit when they reach the goal, and leave it half-open before.
pub opened-recovers :
    (cb : CircuitBreaker) (id t now n : ℕ)
    → (entry cb id).state ≡ opened
    → (entry cb id).last_failure ≡ some t
    → t + (entry cb id).timeout ≤ now
    → 0 < (entry cb id).half_open_max_calls
    → (entry cb id).half_open_max_calls < 2 ^ 32
    → ((is_backend_healthy now id cb).0 ≡ true)
      × ((entry (run cb (asked now id ∷ successes id n)) id).state
          ≡ (if leb (entry cb id).half_open_max_calls n then closed else half_open))
unfolding is_backend_healthy
opened-recovers cb id t now n o l w p u =
    let h = asked-half_open now t (entry cb id) o l w in
    (
      h.1,
      rw (entry-run cb (asked now id ∷ successes id n) id) (
          subst
            (λ (d : BackendCircuit).
              d.state ≡ (if leb (entry cb id).half_open_max_calls n then closed else half_open))
            (sym (
              replay-asked now id (successes id n) (entry cb id)
              ∙ ap (replay id (successes id n)) h.0))
            (rw zero-add at (
              half_open-successes id n
                (record (entry cb id) { state = half_open; success_count = 0 }) refl p u))),
    )

-- The edges of the state diagram.
infix 40 ◌⟶◌
pub data ◌⟶◌ : CircuitState → CircuitState → Type 0 where
  stay : {s : CircuitState} → s ⟶ s
  trip : closed ⟶ opened
  probe : opened ⟶ half_open
  restore : half_open ⟶ closed
  reopen : half_open ⟶ opened

effect-⟶ : (call : Call) (c : BackendCircuit) → c.state ⟶ (effect call c).state
unfolding Circuit.record_success Circuit.record_failure Circuit.transition_if_needed
effect-⟶ (succeeded id) c = grind (arith, stay, trip, probe, restore, reopen)
effect-⟶ (failed now id) c = grind (arith, stay, trip, probe, restore, reopen)
effect-⟶ (asked now id) c = grind (arith, stay, trip, probe, restore, reopen)

-- One call of the breaker moves the state of any backend's circuit along an edge of the diagram
-- (closed to open, open to half-open, half-open to closed or open), or leaves it.
pub step-⟶ :
    (cb : CircuitBreaker) (call : Call) (id : ℕ)
    → (entry cb id).state ⟶ (entry (step cb call) id).state
step-⟶ cb call id = elim (Bool-cases (nat_beq (target call) id)) [
  | inl e ↦ rw (entry-step cb call id) (rw e (effect-⟶ call (entry cb id)))
  | inr e ↦ rw (entry-step cb call id) (rw e stay)
]
