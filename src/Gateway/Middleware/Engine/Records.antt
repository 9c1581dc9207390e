-- ===== src/Gateway/Middleware/Engine/Records.antt =====
-- The audit of a phase.
use zorch.Prelude.{
  ℕ, suc, ◌+◌, true, false, String, List, [], ◌∷◌, ◌≡◌, inl, inr, arith, Bool-cases,
}
use zorch.Shared.Errors.{got, Reply-cases}
use zorch.Shared.Sql.{Cell}
use zorch.External.Serde.{Serde}
use zorch.Gateway.Middleware.{
  MiddlewarePhase, as_str, MiddlewareContext, MiddlewareInput, MiddlewareOutput, Verdict-cases,
  Verdict, passed,
}
use zorch.Gateway.Middleware.Audit.{record_run}
use zorch.Gateway.Middleware.Runtime.{Rhai, execute_script}
use zorch.Gateway.Middleware.Engine.{
  MiddlewareConfig, Host, run_joined, run_config, then_rest, run_configs, load_phase_configs,
  run_loaded, run_phase,
}

unfoldable pub enabled_count : {Json : Type 0} → List (MiddlewareConfig Json) → ℕ
enabled_count [] = 0
enabled_count (c ∷ cs) =
    let rest = enabled_count cs in elim c.enabled [ true ↦ suc rest | false ↦ rest ]

-- `records` counts the INSERTs into middleware_runs that were sent; nothing else changes it.
pub record Counts {Json W : Type 0} (host : Host Json W) (records : W → ℕ) : Type 0 where
  pub records_select :
      (api_key_id phase : String) (w : W)
      → records (host.select_configs api_key_id phase w).1 ≡ records w
  pub records_join :
      (v : Verdict (MiddlewareOutput Json)) (w : W) → records (host.join v w).1 ≡ records w
  pub records_execute :
      (row : List (String × Cell Json)) (w : W) → records (host.execute row w).1 ≡ suc (records w)

module _ (serde : Serde) (rhai : Rhai serde.Json) (ctx : MiddlewareContext) {W : Type 0}
    (host : Host serde.Json W) (phase : MiddlewarePhase) (records : W → ℕ)
    (counts : Counts host records) where
  abbrev after :
      MiddlewareConfig serde.Json
      → MiddlewareInput serde.Json
      → W
      → Verdict (MiddlewareInput serde.Json) × W
  after c i w = run_config serde rhai host phase ctx c i w

  records-run_joined :
      (c : MiddlewareConfig serde.Json) (start : ℕ) (i : MiddlewareInput serde.Json)
      (u : Verdict (MiddlewareOutput serde.Json)) (w : W)
      → records (run_joined serde rhai host phase ctx c start i (got u) w).1 ≡ suc (records w)
  unfolding run_joined record_run
  records-run_joined c start i u w = counts.records_execute _ w

  records-run_config :
      (c : MiddlewareConfig serde.Json) (i o : MiddlewareInput serde.Json) (w : W)
      → (after c i w).0 ≡ passed o
      → records (after c i w).1 ≡ suc (records w)
  unfolding run_config run_joined
  records-run_config c i o w h =
      let script = execute_script serde rhai ctx i c.config in
      let kept = counts.records_join script w in
      elim (Reply-cases (host.join script w).0) [
        | inl (u, j) ↦
            let sent = records-run_joined c (host.millis w) i u (host.join script w).1 in
            ground (arith, j, kept, sent)
        | inr (e, j) ↦ ground (arith, j, h)
      ]

  records-run_configs :
      (cs : List (MiddlewareConfig serde.Json)) (i o : MiddlewareInput serde.Json) (w : W)
      → (run_configs serde rhai host phase ctx cs i w).0 ≡ passed o
      → records (run_configs serde rhai host phase ctx cs i w).1 ≡ records w + enabled_count cs
  unfolding run_configs then_rest enabled_count
  records-run_configs [] i o w h = omega arith
  records-run_configs (c ∷ cs) i o w h = elim (Bool-cases c.enabled) [
    | inl on ↦ elim (Verdict-cases (after c i w).0) [
      | inl (m, p) ↦
          let first = records-run_config c i m w p in
          let later = records-run_configs cs m o (after c i w).1 (ground (arith, on, p, h)) in
          ground (arith, on, p, first, later)
      | inr (e, p) ↦ ground (arith, on, p, h)
    ]
    | inr off ↦
        let later = records-run_configs cs i o w (ground (arith, off, h)) in
        ground (arith, off, later)
  ]

  records-load :
      (api_key_id : String) (w : W)
      → records (load_phase_configs serde rhai host phase ctx api_key_id w).1 ≡ records w
  unfolding load_phase_configs
  records-load api_key_id w = counts.records_select api_key_id (as_str phase) w

  -- A phase that lets its input through has sent one record of the audit for each enabled script,
  -- those that failed and were passed over included: its configurations were loaded, and only the
  -- audit's INSERT counts as a record.
  pub records-run_phase :
      (api_key_id : String) (cs : List (MiddlewareConfig serde.Json))
      (i o : MiddlewareInput serde.Json) (w : W)
      → (load_phase_configs serde rhai host phase ctx api_key_id w).0 ≡ got cs
      → (run_phase serde rhai host phase ctx api_key_id i w).0 ≡ passed o
      → records (run_phase serde rhai host phase ctx api_key_id i w).1
        ≡ records w + enabled_count cs
  unfolding run_phase run_loaded
  records-run_phase api_key_id cs i o w load h =
      let first = records-load api_key_id w in
      let later =
        records-run_configs cs i o (load_phase_configs serde rhai host phase ctx api_key_id w).1
          (ground (arith, load, h)) in
      ground (arith, load, first, later)
