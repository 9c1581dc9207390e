-- ===== src/Gateway/CircuitBreaker/Circuit.antt =====
-- One backend's circuit, `BackendCircuit` of crates/zorch-gateway/src/circuit_breaker.rs.
-- `Instant::now()` is the argument `now`, in milliseconds, and so is every `Duration`; `elapsed`
-- saturates at 0 as the source's does.
use zorch.Prelude.{ℕ, ◌+◌, ◌-◌, ◌%◌, ◌^◌, Bool, true, false, Option, none, some, leb, if◌then◌else◌}

pub data CircuitState : Type 0 where
  closed opened half_open : CircuitState

pub record BackendCircuit : Type 0 where
  pub state : CircuitState
  pub failures : ℕ  -- u32
  pub success_count : ℕ  -- u32
  pub last_failure : Option ℕ
  pub threshold : ℕ  -- u32
  pub timeout : ℕ
  pub half_open_max_calls : ℕ  -- u32

-- u32 addition wraps in a release build
abbrev pub u32 : ℕ → ℕ
u32 n = n % 2 ^ 32

unfoldable pub new : ℕ → ℕ → ℕ → BackendCircuit
new threshold timeout half_open_max_calls = record {
  state = closed;
  failures = 0;
  success_count = 0;
  last_failure = none;
  threshold = threshold;
  timeout = timeout;
  half_open_max_calls = half_open_max_calls;
}

success_in : CircuitState → BackendCircuit → BackendCircuit
success_in closed c = record c { failures = 0 }
success_in half_open c =
    let d = record c { success_count = u32 (c.success_count + 1) } in
    if leb d.half_open_max_calls d.success_count
    then record d { state = closed; failures = 0; success_count = 0 }
    else d
success_in opened c = c

unfoldable pub record_success : BackendCircuit → BackendCircuit
unfolding success_in
record_success c = success_in c.state c

failure_in : CircuitState → ℕ → BackendCircuit → BackendCircuit
failure_in closed now c =
    let d = record c { failures = u32 (c.failures + 1); last_failure = some now } in
    if leb d.threshold d.failures then record d { state = opened } else d
failure_in half_open now c = record c { state = opened; last_failure = some now; success_count = 0 }
failure_in opened now c = record c { last_failure = some now }

unfoldable pub record_failure : ℕ → BackendCircuit → BackendCircuit
unfolding failure_in
record_failure now c = failure_in c.state now c

-- last.elapsed() >= timeout
abbrev pub timed_out : ℕ → Option ℕ → ℕ → Bool
timed_out now none timeout = false
timed_out now (some last) timeout = leb timeout (now - last)

healthy_in : CircuitState → ℕ → BackendCircuit → Bool
healthy_in closed now c = true
healthy_in opened now c = timed_out now c.last_failure c.timeout
healthy_in half_open now c = true

unfoldable pub is_healthy : ℕ → BackendCircuit → Bool
unfolding healthy_in
is_healthy now c = healthy_in c.state now c

transition_in : CircuitState → ℕ → BackendCircuit → BackendCircuit
transition_in opened now c =
    if timed_out now c.last_failure c.timeout
    then record c { state = half_open; success_count = 0 }
    else c
transition_in _ now c = c

unfoldable pub transition_if_needed : ℕ → BackendCircuit → BackendCircuit
unfolding transition_in
transition_if_needed now c = transition_in c.state now c
