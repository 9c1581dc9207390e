-- ===== src/Gateway/CircuitBreaker.antt =====
-- crates/zorch-gateway/src/circuit_breaker.rs: the circuits of all backends behind one mutex, which
-- makes every method an atomic step on the map. A backend's id (a UUID) is a number.
pub mod Circuit
pub use Circuit.{CircuitState, closed, opened, half_open, BackendCircuit}
pub mod Invariant
pub mod Opening
pub mod Recovery
pub mod Isolation
mod Examples
use zorch.Prelude.{ℕ, Bool, List, [], ◌∷◌, Option, unwrap_or}
use zorch.Prelude.Map.{lookup, insert}
use Circuit
use zorch.Prelude.Classes.{nat_eq}

pub record CircuitBreaker : Type 0 where
  pub circuits : List (ℕ × BackendCircuit)
  pub default_threshold : ℕ
  pub default_timeout : ℕ
  pub default_half_open_max_calls : ℕ

unfoldable pub new : CircuitBreaker
new = record {
  circuits = [];
  default_threshold = 5;
  default_timeout = 30000;
  default_half_open_max_calls = 3;
}

unfoldable pub with_config : ℕ → ℕ → ℕ → CircuitBreaker → CircuitBreaker
with_config threshold timeout half_open_max_calls cb = record cb {
  default_threshold = threshold;
  default_timeout = timeout;
  default_half_open_max_calls = half_open_max_calls;
}

unfoldable pub make_circuit : CircuitBreaker → BackendCircuit
make_circuit cb = Circuit.new cb.default_threshold cb.default_timeout cb.default_half_open_max_calls

-- circuits.entry(id).or_insert_with(|| self.make_circuit())
unfoldable pub entry : CircuitBreaker → ℕ → BackendCircuit
unfolding make_circuit
entry cb id = unwrap_or (lookup id cb.circuits) (make_circuit cb)

-- The entry, changed by `f` through the reference that `entry` returns.
update : (BackendCircuit → BackendCircuit) → ℕ → CircuitBreaker → CircuitBreaker
update f id cb = record cb { circuits = insert id (f (entry cb id)) cb.circuits }

unfoldable pub record_success : ℕ → CircuitBreaker → CircuitBreaker
unfolding update
record_success id cb = update Circuit.record_success id cb

unfoldable pub record_failure : ℕ → ℕ → CircuitBreaker → CircuitBreaker
unfolding update
record_failure now id cb = update (Circuit.record_failure now) id cb

-- The answer is read from the entry after its transition.
unfoldable pub is_backend_healthy : ℕ → ℕ → CircuitBreaker → Bool × CircuitBreaker
unfolding update
is_backend_healthy now id cb =
    let c = Circuit.transition_if_needed now (entry cb id) in
    (Circuit.is_healthy now c, record cb { circuits = insert id c cb.circuits })

-- A call of the breaker by its clients.
pub data Call : Type 0 where
  succeeded : ℕ → Call
  failed : ℕ → ℕ → Call
  asked : ℕ → ℕ → Call

unfoldable pub step : CircuitBreaker → Call → CircuitBreaker
step cb (succeeded id) = record_success id cb
step cb (failed now id) = record_failure now id cb
step cb (asked now id) = (is_backend_healthy now id cb).1

unfoldable pub run : CircuitBreaker → List Call → CircuitBreaker
run cb [] = cb
run cb (c ∷ cs) = run (step cb c) cs
