-- ===== src/Gateway/CircuitBreaker/Examples.antt =====
-- The source's own test scenarios of circuit_breaker.rs, and the theorems at concrete inputs.
use zorch.Prelude.{◌≡◌, refl, [], ◌∷◌, some, arith, true, false}
use zorch.Prelude.Map.{lookup, insert}
use zorch.Gateway.CircuitBreaker.Circuit
use zorch.Gateway.CircuitBreaker.{
  BackendCircuit, closed, opened, half_open, CircuitBreaker, succeeded, failed, asked, new,
  with_config, entry, step, run, is_backend_healthy, record_failure, make_circuit,
}
use zorch.Gateway.CircuitBreaker.Invariant.{AreSound, run-with_config-AreSound}
use zorch.Gateway.CircuitBreaker.Opening.{failures_at, opened-refuses}
use zorch.Gateway.CircuitBreaker.Recovery.{successes, opened-recovers, ◌⟶◌, step-⟶}

abbrev cb : CircuitBreaker
cb = record {
  circuits = [];
  default_threshold = 3;
  default_timeout = 1000;
  default_half_open_max_calls = 2;
}

abbrev down : BackendCircuit
down = record {
  state = opened;
  failures = 3;
  success_count = 0;
  last_failure = some 30;
  threshold = 3;
  timeout = 1000;
  half_open_max_calls = 2;
}

abbrev tripped : CircuitBreaker
tripped = record cb { circuits = (7, down) ∷ [] }

-- test_circuit_opens_after_threshold
opens_after_threshold : run cb (failures_at 7 (10 ∷ 20 ∷ 30 ∷ [])) ≡ tripped
unfolding run step record_failure entry make_circuit Circuit.new Circuit.record_failure lookup
    insert
opens_after_threshold = refl

-- test_circuit_half_open_then_reopens
reopens : (entry (run tripped (asked 1100 7 ∷ failed 1200 7 ∷ [])) 7).state ≡ opened
unfolding run step record_failure is_backend_healthy entry Circuit.transition_if_needed
    Circuit.record_failure lookup insert
reopens = refl

run-with_config-AreSound_example :
    AreSound (run (with_config 3 1000 2 new) (failures_at 7 (10 ∷ 20 ∷ [])))
    × ((entry (run (with_config 3 1000 2 new) (failures_at 7 (10 ∷ 20 ∷ []))) 7).last_failure
        ≡ some 20)
run-with_config-AreSound_example =
    run-with_config-AreSound 3 1000 2 (failures_at 7 (10 ∷ 20 ∷ [])) 7 (omega arith) (omega arith)

opened-refuses_example :
    (is_backend_healthy 900 7 (run tripped (succeeded 7 ∷ failed 50 7 ∷ []))).0 ≡ false
unfolding entry lookup
opened-refuses_example =
    opened-refuses tripped 7 30 900 (succeeded 7 ∷ failed 50 7 ∷ []) refl refl (omega arith)
      (omega arith) (omega arith)

opened-recovers_example :
    ((is_backend_healthy 1030 7 tripped).0 ≡ true)
    × ((entry (run tripped (asked 1030 7 ∷ successes 7 2)) 7).state ≡ closed)
unfolding entry lookup
opened-recovers_example =
    opened-recovers tripped 7 30 1030 2 refl refl (omega arith) (omega arith) (omega arith)

step-⟶_example : opened ⟶ half_open
unfolding entry step is_backend_healthy Circuit.transition_if_needed lookup insert
step-⟶_example = step-⟶ tripped (asked 1030 7) 7
