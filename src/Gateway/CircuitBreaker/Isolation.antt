-- ===== src/Gateway/CircuitBreaker/Isolation.antt =====
-- One entry of the map of crates/zorch-gateway/src/circuit_breaker.rs after a call of the breaker.
use zorch.Prelude.{
  ℕ, ◌≡◌, refl, List, [], ◌∷◌, arith, nat_beq, Bool, not, true, false, nat_beq_iff, if◌then◌else◌,
}
use zorch.Prelude.Classes.{nat_eq}
use zorch.Prelude.Map.{lookup-insert}
use zorch.Gateway.CircuitBreaker.Circuit
use zorch.Gateway.CircuitBreaker.{
  CircuitState, BackendCircuit, opened, CircuitBreaker, Call, succeeded, failed, asked,
  make_circuit, entry, record_success, record_failure, is_backend_healthy, step, run,
}

-- What a call does to the circuit of the backend that it names.
abbrev pub effect : Call → BackendCircuit → BackendCircuit
effect (succeeded id) c = Circuit.record_success c
effect (failed now id) c = Circuit.record_failure now c
effect (asked now id) c = Circuit.transition_if_needed now c

abbrev pub target : Call → ℕ
target (succeeded id) = id
target (failed now id) = id
target (asked now id) = id

pub entry-step :
    (cb : CircuitBreaker) (call : Call) (j : ℕ)
    → entry (step cb call) j
      ≡ (if nat_beq (target call) j then effect call (entry cb j) else entry cb j)
unfolding entry step record_success record_failure is_backend_healthy make_circuit
entry-step cb (succeeded id) j =
    ground (
      arith,
      nat_beq_iff id j,
      lookup-insert id j (Circuit.record_success (entry cb id)) cb.circuits,
    )
entry-step cb (failed now id) j = ground (
  arith,
  nat_beq_iff id j,
  lookup-insert id j (Circuit.record_failure now (entry cb id)) cb.circuits,
)
entry-step cb (asked now id) j = ground (
  arith,
  nat_beq_iff id j,
  lookup-insert id j (Circuit.transition_if_needed now (entry cb id)) cb.circuits,
)

-- The calls of a history that name one backend, applied to its circuit.
abbrev pub replay : ℕ → List Call → BackendCircuit → BackendCircuit
replay j [] c = c
replay j (call ∷ calls) c = replay j calls (if nat_beq (target call) j then effect call c else c)

-- After any history the circuit of a backend is what the calls that name it make of it, in their
-- order: the calls for other backends, in between, have no part in it.
pub entry-run :
    (cb : CircuitBreaker) (history : List Call) (j : ℕ)
    → entry (run cb history) j ≡ replay j history (entry cb j)
unfolding run
entry-run cb [] j = refl
entry-run cb (c ∷ cs) j = rw (← entry-step cb c j) (entry-run (step cb c) cs j)

abbrev pub is_opened : CircuitState → Bool
is_opened opened = true
is_opened _ = false

healthy-state :
    (now : ℕ) (c : BackendCircuit)
    → Circuit.is_healthy now (Circuit.transition_if_needed now c)
      ≡ not (is_opened (Circuit.transition_if_needed now c).state)
unfolding Circuit.is_healthy Circuit.transition_if_needed
healthy-state now c = ground arith

pub entry-asked :
    (now id : ℕ) (cb : CircuitBreaker)
    → entry (is_backend_healthy now id cb).1 id ≡ Circuit.transition_if_needed now (entry cb id)
unfolding is_backend_healthy entry
entry-asked now id cb = ground (
  arith,
  nat_beq_iff id id,
  lookup-insert id id (Circuit.transition_if_needed now (entry cb id)) cb.circuits,
)

-- A health check answers no exactly when it leaves the circuit of that backend open.
pub is_backend_healthy-state :
    (now id : ℕ) (cb : CircuitBreaker)
    → (is_backend_healthy now id cb).0
      ≡ not (is_opened (entry (is_backend_healthy now id cb).1 id).state)
is_backend_healthy-state now id cb =
    rw (entry-asked now id cb) (unfold is_backend_healthy in healthy-state now (entry cb id))
