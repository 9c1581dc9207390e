-- ===== src/Gateway/CircuitBreaker/Invariant.antt =====
-- What holds of every circuit between two calls of crates/zorch-gateway/src/circuit_breaker.rs.
use zorch.Prelude.{
  ℕ, ◌^◌, ◌<◌, ◌≡◌, ◌≢◌, ◌⊎◌, inl, inr, subst, List, [], ◌∷◌, none, some, arith, nat_beq,
  Bool-cases, Option-cases, Option, refl, ap, ◌∙◌, if◌then◌else◌,
}
use zorch.Prelude.Classes.{nat_eq}
use zorch.Prelude.Map.{lookup, insert, lookup-insert}
use zorch.Gateway.CircuitBreaker.Circuit
use zorch.Gateway.CircuitBreaker.{
  BackendCircuit, closed, opened, half_open, CircuitBreaker, Call, succeeded, failed, asked, new,
  with_config, make_circuit, entry, record_success, record_failure, is_backend_healthy, step, run,
}
use zorch.Gateway.CircuitBreaker.Isolation.{replay, entry-run}

-- A closed circuit has counted no failures or fewer than its threshold, an open one has a last
-- failure, and successes are counted only in the half-open state and short of their goal.
pub record IsSound (c : BackendCircuit) : Type 0 where
  pub below : c.state ≡ closed → (c.failures ≡ 0) ⊎ (c.failures < c.threshold)
  pub stamped : c.state ≡ opened → c.last_failure ≢ none
  pub uncounted : c.state ≢ half_open → c.success_count ≡ 0
  pub probing :
      c.state ≡ half_open → (c.success_count ≡ 0) ⊎ (c.success_count < c.half_open_max_calls)
  pub threshold_u32 : c.threshold < 2 ^ 32
  pub calls_u32 : c.half_open_max_calls < 2 ^ 32

pub record_success-IsSound : (c : BackendCircuit) → IsSound c → IsSound (Circuit.record_success c)
unfolding Circuit.record_success
record_success-IsSound c h = ground arith

pub record_failure-IsSound :
    (now : ℕ) (c : BackendCircuit) → IsSound c → IsSound (Circuit.record_failure now c)
unfolding Circuit.record_failure
record_failure-IsSound now c h = ground arith

pub transition_if_needed-IsSound :
    (now : ℕ) (c : BackendCircuit) → IsSound c → IsSound (Circuit.transition_if_needed now c)
unfolding Circuit.transition_if_needed
transition_if_needed-IsSound now c h = ground arith

pub record AreSound (cb : CircuitBreaker) : Type 0 where
  pub at : (id : ℕ) (c : BackendCircuit) → lookup id cb.circuits ≡ some c → IsSound c
  pub default_threshold_u32 : cb.default_threshold < 2 ^ 32
  pub default_calls_u32 : cb.default_half_open_max_calls < 2 ^ 32

entry-IsSound : (cb : CircuitBreaker) (id : ℕ) → AreSound cb → IsSound (entry cb id)
unfolding entry
entry-IsSound cb id h = elim (Option-cases (lookup id cb.circuits)) [
  | inl e ↦ rw e (fresh h)
  | inr (c, e) ↦ rw e (h.at id c e)
]
  where
    fresh : AreSound cb → IsSound (make_circuit cb)
    fresh h = unfold make_circuit Circuit.new in ground arith

insert-AreSound :
    (cb : CircuitBreaker) (id : ℕ) (c : BackendCircuit)
    → AreSound cb
    → IsSound c
    → AreSound (record cb { circuits = insert id c cb.circuits })
insert-AreSound cb id c h s = record {
  at = λ j d e. at j d e;
  default_threshold_u32 = h.default_threshold_u32;
  default_calls_u32 = h.default_calls_u32;
}
  where
    at : (j : ℕ) (d : BackendCircuit) → lookup j (insert id c cb.circuits) ≡ some d → IsSound d
    at j d e = elim (Bool-cases (nat_beq id j)) [
      | inl t ↦ subst IsSound (ground (arith, lookup-insert id j c cb.circuits, e, t)) s
      | inr t ↦ h.at j d (ground (arith, lookup-insert id j c cb.circuits, e, t))
    ]

step-AreSound : (cb : CircuitBreaker) (call : Call) → AreSound cb → AreSound (step cb call)
unfolding step record_success record_failure is_backend_healthy
step-AreSound cb (succeeded id) h =
    insert-AreSound cb id _ h (record_success-IsSound _ (entry-IsSound cb id h))
step-AreSound cb (failed now id) h =
    insert-AreSound cb id _ h (record_failure-IsSound now _ (entry-IsSound cb id h))
step-AreSound cb (asked now id) h =
    insert-AreSound cb id _ h (transition_if_needed-IsSound now _ (entry-IsSound cb id h))

run-AreSound : (cb : CircuitBreaker) (calls : List Call) → AreSound cb → AreSound (run cb calls)
unfolding run
run-AreSound cb [] h = h
run-AreSound cb (c ∷ cs) h = run-AreSound (step cb c) cs (step-AreSound cb c h)

-- The time of the last failure of a backend in a history, or what was known before it.
abbrev pub latest : ℕ → List Call → Option ℕ → Option ℕ
latest id [] seen = seen
latest id (succeeded j ∷ calls) seen = latest id calls seen
latest id (failed now j ∷ calls) seen = latest id calls (if nat_beq j id then some now else seen)
latest id (asked now j ∷ calls) seen = latest id calls seen

success_keeps : (c : BackendCircuit) → (Circuit.record_success c).last_failure ≡ c.last_failure
unfolding Circuit.record_success
success_keeps c = ground arith

failure_stamps :
    (now : ℕ) (c : BackendCircuit) → (Circuit.record_failure now c).last_failure ≡ some now
unfolding Circuit.record_failure
failure_stamps now c = ground arith

transition_keeps :
    (now : ℕ) (c : BackendCircuit)
    → (Circuit.transition_if_needed now c).last_failure ≡ c.last_failure
unfolding Circuit.transition_if_needed
transition_keeps now c = ground arith

-- What a call of the backend itself leaves as the last failure.
replay-last_failure :
    (id : ℕ) (history : List Call) (c : BackendCircuit)
    → (replay id history c).last_failure ≡ latest id history c.last_failure
replay-last_failure id [] c = refl
replay-last_failure id (succeeded j ∷ calls) c = elim (Bool-cases (nat_beq j id)) [
  | inl t ↦
      rw (t, replay)
        (replay-last_failure id calls (Circuit.record_success c)
          ∙ ap (latest id calls) (success_keeps c))
  | inr t ↦ rw (t, replay) (replay-last_failure id calls c)
]
replay-last_failure id (failed now j ∷ calls) c = elim (Bool-cases (nat_beq j id)) [
  | inl t ↦
      rw (t, replay)
        (replay-last_failure id calls (Circuit.record_failure now c)
          ∙ ap (latest id calls) (failure_stamps now c))
  | inr t ↦ rw (t, replay) (replay-last_failure id calls c)
]
replay-last_failure id (asked now j ∷ calls) c = elim (Bool-cases (nat_beq j id)) [
  | inl t ↦
      rw (t, replay)
        (replay-last_failure id calls (Circuit.transition_if_needed now c)
          ∙ ap (latest id calls) (transition_keeps now c))
  | inr t ↦ rw (t, replay) (replay-last_failure id calls c)
]

-- From a new breaker configured with a threshold and a number of trial calls that fit in a u32,
-- every history of successes, failures and health checks on any backends leaves every circuit
-- sound: a closed one has counted no failures or fewer than its threshold, an open one has a last
-- failure, and a half-open one has counted no successes or fewer than its trial calls. And the
-- last failure of a backend's circuit is the time of that backend's last failure in the history.
pub run-with_config-AreSound :
    (threshold timeout calls : ℕ) (history : List Call) (id : ℕ)
    → threshold < 2 ^ 32
    → calls < 2 ^ 32
    → AreSound (run (with_config threshold timeout calls new) history)
      × ((entry (run (with_config threshold timeout calls new) history) id).last_failure
          ≡ latest id history none)
run-with_config-AreSound threshold timeout calls history id ht hc = (
  run-AreSound _ history (initial threshold timeout calls ht hc),
  rw (entry-run (with_config threshold timeout calls new) history id) (
      replay-last_failure id history (entry (with_config threshold timeout calls new) id)
      ∙ ap (latest id history) (unstamped threshold timeout calls id)),
)
  where
    initial :
        (threshold timeout calls : ℕ)
        → threshold < 2 ^ 32
        → calls < 2 ^ 32
        → AreSound (with_config threshold timeout calls new)
    initial threshold timeout calls ht hc =
        unfold with_config new lookup in
        record { at = λ id c e. cc; default_threshold_u32 = ht; default_calls_u32 = hc }

    unstamped :
        (threshold timeout calls id : ℕ)
        → (entry (with_config threshold timeout calls new) id).last_failure ≡ none
    unstamped threshold timeout calls id =
        unfold with_config new lookup entry make_circuit Circuit.new in refl
