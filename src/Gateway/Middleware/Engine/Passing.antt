-- ===== src/Gateway/Middleware/Engine/Passing.antt =====
-- What a phase promises, without the database, the clock and the threads.
use zorch.Prelude.{
  true, false, List, [], ◌∷◌, ◌≡◌, refl, subst, ◌⊎◌, inl, inr, arith, Bool-cases, String,
}
use zorch.Shared.Errors.{Reply, got, Reply-cases}
use zorch.External.Serde.{Serde}
use zorch.Gateway.Middleware.{
  MiddlewarePhase, MiddlewareAction, continue, block, FailureMode, fail_open, fail_closed,
  MiddlewareContext, MiddlewareInput, MiddlewareOutput, MiddlewareError, Verdict-cases, Verdict,
  passed, stopped,
}
use zorch.Gateway.Middleware.Runtime.{Rhai, execute_script}
use zorch.Gateway.Middleware.Engine.{
  MiddlewareConfig, Host, applied, acted, on_error, outcome, run_joined, run_config, then_rest,
  run_configs, load_phase_configs, run_loaded, run_phase,
}

module _ (serde : Serde) (rhai : Rhai serde.Json) (ctx : MiddlewareContext) where
  -- The scripts take an input to another: a disabled one is skipped, one that continues changes the
  -- input, and one that fails is passed over if its failures are open.
  pub data Passes
      : List (MiddlewareConfig serde.Json)
        → MiddlewareInput serde.Json
        → MiddlewareInput serde.Json
        → Type 0 where
    done : {i : MiddlewareInput serde.Json} → Passes [] i i
    skipped :
        {c : MiddlewareConfig serde.Json} {cs : List (MiddlewareConfig serde.Json)}
        {i o : MiddlewareInput serde.Json}
        → c.enabled ≡ false
        → Passes cs i o
        → Passes (c ∷ cs) i o
    continued :
        {c : MiddlewareConfig serde.Json} {cs : List (MiddlewareConfig serde.Json)}
        {i o : MiddlewareInput serde.Json} {output : MiddlewareOutput serde.Json}
        → c.enabled ≡ true
        → execute_script serde rhai ctx i c.config ≡ passed output
        → output.action ≡ continue
        → Passes cs (applied output i) o
        → Passes (c ∷ cs) i o
    tolerated :
        {c : MiddlewareConfig serde.Json} {cs : List (MiddlewareConfig serde.Json)}
        {i o : MiddlewareInput serde.Json} {e : MiddlewareError}
        → c.enabled ≡ true
        → execute_script serde rhai ctx i c.config ≡ stopped e
        → c.failure_mode ≡ fail_open
        → Passes cs i o
        → Passes (c ∷ cs) i o

  action-cases : (a : MiddlewareAction) → (a ≡ continue) ⊎ (a ≡ block)
  action-cases continue = inl refl
  action-cases block = inr refl

  mode-cases : (m : FailureMode) → (m ≡ fail_open) ⊎ (m ≡ fail_closed)
  mode-cases fail_open = inl refl
  mode-cases fail_closed = inr refl

  module _ {W : Type 0} (host : Host serde.Json W) (phase : MiddlewarePhase) where
    abbrev join_of :
        MiddlewareConfig serde.Json
        → MiddlewareInput serde.Json
        → W
        → Reply (Verdict (MiddlewareOutput serde.Json)) × W
    join_of c input w = host.join (execute_script serde rhai ctx input c.config) w

    abbrev after :
        MiddlewareConfig serde.Json
        → MiddlewareInput serde.Json
        → W
        → Verdict (MiddlewareInput serde.Json) × W
    after c input w = run_config serde rhai host phase ctx c input w

    -- A joined task has the result of its script.
    abbrev pub Joins : Type 0
    Joins =
        (v u : Verdict (MiddlewareOutput serde.Json)) (w : W) → (host.join v w).0 ≡ got u → u ≡ v

    -- A script that lets the input through.
    run_config-passed :
        (c : MiddlewareConfig serde.Json) (i o : MiddlewareInput serde.Json) (w : W)
        → Joins
        → (after c i w).0 ≡ passed o
        → outcome serde rhai host phase ctx c (execute_script serde rhai ctx i c.config) i
          ≡ passed o
    unfolding run_config run_joined
    run_config-passed c i o w joins h = elim (Reply-cases (join_of c i w).0) [
      | inl (u, j) ↦
          let same = joins (execute_script serde rhai ctx i c.config) u w j in
          ground (arith, j, h, same)
      | inr (e, j) ↦ ground (arith, j, h)
    ]

    outcome-Passes :
        (c : MiddlewareConfig serde.Json) (cs : List (MiddlewareConfig serde.Json))
        (i m o : MiddlewareInput serde.Json)
        → c.enabled ≡ true
        → outcome serde rhai host phase ctx c (execute_script serde rhai ctx i c.config) i
          ≡ passed m
        → Passes cs m o
        → Passes (c ∷ cs) i o
    unfolding outcome acted on_error
    outcome-Passes c cs i m o on h rest =
        elim (Verdict-cases (execute_script serde rhai ctx i c.config)) [
          | inl (output, x) ↦ elim (action-cases output.action) [
            | inl a ↦
                let same : applied output i ≡ m = ground (arith, x, a, h) in
                continued on x a (rw same rest)
            | inr a ↦ ground (arith, x, a, h)
          ]
          | inr (e, x) ↦ elim (mode-cases c.failure_mode) [
            | inl f ↦ let same : i ≡ m = ground (arith, x, f, h) in tolerated on x f (rw same rest)
            | inr f ↦ ground (arith, x, f, h)
          ]
        ]

    abbrev run :
        List (MiddlewareConfig serde.Json)
        → MiddlewareInput serde.Json
        → W
        → Verdict (MiddlewareInput serde.Json) × W
    run cs i w = run_configs serde rhai host phase ctx cs i w

    run_configs-Passes :
        (cs : List (MiddlewareConfig serde.Json)) (i o : MiddlewareInput serde.Json) (w : W)
        → Joins
        → (run cs i w).0 ≡ passed o
        → Passes cs i o
    unfolding run_configs then_rest
    run_configs-Passes [] i o w joins h =
        let same : i ≡ o = ground (arith, h) in subst (λ x. Passes [] i x) same done
    run_configs-Passes (c ∷ cs) i o w joins h = elim (Bool-cases c.enabled) [
      | inl on ↦ elim (Verdict-cases (after c i w).0) [
        | inl (m, p) ↦
            outcome-Passes c cs i m o on (run_config-passed c i m w joins p)
              (run_configs-Passes cs m o (after c i w).1 joins (ground (arith, on, p, h)))
        | inr (e, p) ↦ ground (arith, on, p, h)
      ]
      | inr off ↦ skipped off (run_configs-Passes cs i o w joins (ground (arith, off, h)))
    ]

    -- A phase lets through only what its enabled scripts make of the input, each run on what the
    -- ones before it left: a script that blocks, or that fails and is closed on failure, or that
    -- panics ends it. The configurations were loaded, and a joined task has the result of its script.
    pub run_phase-Passes :
        (api_key_id : String) (cs : List (MiddlewareConfig serde.Json))
        (i o : MiddlewareInput serde.Json) (w : W)
        → Joins
        → (load_phase_configs serde rhai host phase ctx api_key_id w).0 ≡ got cs
        → (run_phase serde rhai host phase ctx api_key_id i w).0 ≡ passed o
        → Passes cs i o
    unfolding run_phase run_loaded
    run_phase-Passes api_key_id cs i o w joins load h =
        run_configs-Passes cs i o (load_phase_configs serde rhai host phase ctx api_key_id w).1
          joins (ground (arith, load, h))

    -- No task panics.
    abbrev pub NoPanics : Type 0
    NoPanics = (v : Verdict (MiddlewareOutput serde.Json)) (w : W) → (host.join v w).0 ≡ got v

    run_config-outcome :
        (c : MiddlewareConfig serde.Json) (i : MiddlewareInput serde.Json) (w : W)
        → NoPanics
        → (after c i w).0
          ≡ outcome serde rhai host phase ctx c (execute_script serde rhai ctx i c.config) i
    unfolding run_config run_joined
    run_config-outcome c i w calm =
        let j = calm (execute_script serde rhai ctx i c.config) w in ground (arith, j)

    Passes-run_configs :
        {cs : List (MiddlewareConfig serde.Json)} {i o : MiddlewareInput serde.Json}
        → NoPanics
        → Passes cs i o
        → (w : W) → (run cs i w).0 ≡ passed o
    unfolding run_configs then_rest outcome acted on_error
    Passes-run_configs calm done w = refl
    Passes-run_configs calm (skipped {c} {cs} {i} {o} off rest) w =
        let later = Passes-run_configs calm rest w in ground (arith, off, later)
    Passes-run_configs calm (continued {c} {cs} {i} {o} {output} on x a rest) w =
        let later = Passes-run_configs calm rest (after c i w).1 in
        let first = run_config-outcome c i w calm in ground (arith, on, x, a, first, later)
    Passes-run_configs calm (tolerated {c} {cs} {i} {o} {e} on x f rest) w =
        let later = Passes-run_configs calm rest (after c i w).1 in
        let first = run_config-outcome c i w calm in ground (arith, on, x, f, first, later)

    -- A phase whose configurations were loaded lets through whatever its scripts make of the input,
    -- if no task panics: the failures of the audit do not stop it.
    pub run_phase_complete :
        (api_key_id : String) (cs : List (MiddlewareConfig serde.Json))
        (i o : MiddlewareInput serde.Json) (w : W)
        → NoPanics
        → (load_phase_configs serde rhai host phase ctx api_key_id w).0 ≡ got cs
        → Passes cs i o
        → (run_phase serde rhai host phase ctx api_key_id i w).0 ≡ passed o
    unfolding run_phase run_loaded
    run_phase_complete api_key_id cs i o w calm load h =
        let later =
          Passes-run_configs calm h (load_phase_configs serde rhai host phase ctx api_key_id w).1 in
        ground (arith, load, later)
