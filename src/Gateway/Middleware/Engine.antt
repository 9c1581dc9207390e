-- ===== src/Gateway/Middleware/Engine.antt =====
-- crates/zorch-gateway/src/middleware/engine.rs: the scripts of a phase run in order, each on what
-- the ones before it left. The database, the clock and the threads are in the state `W`.
pub mod Passing
pub mod Records
use zorch.Prelude.{
  ℕ, ◌-◌, Bool, true, false, String, Option, none, some, List, [], ◌∷◌, unwrap_or, if◌then◌else◌,
}
use zorch.Prelude.Int.{ℤ, pos, as_i32}
use zorch.Shared.Text.{◌+++◌}
use zorch.Shared.Errors.{Reply, got, failed}
use zorch.Shared.Sql.{Cell}
use zorch.External.Serde.{Serde}
use zorch.Gateway.Middleware.{
  MiddlewarePhase, request_pre_upstream, as_str, phase_from_str, MiddlewareAction, continue, block,
  FailureMode, fail_open, fail_closed, mode_from_str, MiddlewareContext, MiddlewareInput,
  MiddlewareOutput, MiddlewareError, new_error, Verdict, passed, stopped, Headers,
}
use zorch.Gateway.Middleware.Audit.{MiddlewareRunRecord, record_run}
use zorch.Gateway.Middleware.Runtime.{Rhai, execute_script}

pub record MiddlewareConfig (Json : Type 0) : Type 0 where
  pub id : String
  pub name : String
  pub enabled : Bool
  pub phase : MiddlewarePhase
  pub priority : ℤ  -- i32
  pub failure_mode : FailureMode
  pub config : Json

-- A row of the query: what `try_get` gives for each column.
pub record ConfigRow (Json : Type 0) : Type 0 where
  pub id : Option String
  pub name : Option String
  pub enabled : Option Bool
  pub phase : Option String
  pub priority : Option ℤ
  pub failure_mode : Option String
  pub config : Option Json

-- `unwrap_or` of a parsed text
unfoldable pub parsed_or : {A : Type 0} → Reply A → A → A
parsed_or (got a) default = a
parsed_or (failed e) default = default

unfoldable pub config_of : {Json : Type 0} → Json → ConfigRow Json → MiddlewareConfig Json
config_of empty_object row = record {
  id = unwrap_or row.id "";
  name = unwrap_or row.name "";
  enabled = unwrap_or row.enabled true;
  phase = parsed_or (phase_from_str (unwrap_or row.phase "")) request_pre_upstream;
  priority = unwrap_or row.priority (pos 100);
  failure_mode = parsed_or (mode_from_str (unwrap_or row.failure_mode "")) fail_closed;
  config = unwrap_or row.config empty_object;
}

unfoldable pub configs_of :
    {Json : Type 0} → Json → List (ConfigRow Json) → List (MiddlewareConfig Json)
configs_of empty_object [] = []
configs_of empty_object (row ∷ rows) = config_of empty_object row ∷ configs_of empty_object rows

-- What the engine takes from outside. `join` is the end of a blocking task: the script's result,
-- or the text of a panic.
pub record Host (Json W : Type 0) : Type 0 where
  pub select_configs : String → String → W → Reply (List (ConfigRow Json)) × W
  pub join : Verdict (MiddlewareOutput Json) → W → Reply (Verdict (MiddlewareOutput Json)) × W
  pub millis : W → ℕ
  pub execute : List (String × Cell Json) → W → Reply (Unit {0}) × W

-- What the scripts that passed leave: their body, and their headers.
unfoldable pub applied :
    {Json : Type 0} → MiddlewareOutput Json → MiddlewareInput Json → MiddlewareInput Json
applied output input = record {
  body = unwrap_or output.body input.body;
  headers = unwrap_or output.headers input.headers;
}

unfoldable pub block_error : {Json : Type 0} → MiddlewareOutput Json → MiddlewareError
block_error output =
    record (new_error "rhai" (unwrap_or output.message "Request blocked by middleware")) {
      status_code = output.status_code;
    }

unfoldable pub mode_action : FailureMode → String
mode_action fail_closed = "block"
mode_action fail_open = "continue"

unfoldable pub action_status : MiddlewareAction → String
action_status block = "blocked"
action_status continue = "success"

unfoldable pub action_name : MiddlewareAction → String
action_name block = "block"
action_name continue = "continue"

module _ (serde : Serde) (rhai : Rhai serde.Json) {W : Type 0} (host : Host serde.Json W)
    (phase : MiddlewarePhase) (ctx : MiddlewareContext) where
  unfoldable pub run_record :
      MiddlewareConfig serde.Json
      → ℤ
      → Verdict (MiddlewareOutput serde.Json)
      → MiddlewareRunRecord serde.Json
  run_record c duration_ms (passed output) = record {
    request_id = ctx.request_id;
    middleware_config_id = c.id;
    phase = as_str phase;
    status = action_status output.action;
    action = action_name output.action;
    duration_ms = duration_ms;
    body_changed = output.body_changed;
    metadata = output.metadata;
    error = none;
  }
  run_record c duration_ms (stopped e) = record {
    request_id = ctx.request_id;
    middleware_config_id = c.id;
    phase = as_str phase;
    status = "error";
    action = mode_action c.failure_mode;
    duration_ms = duration_ms;
    body_changed = false;
    metadata = serde.empty_object;
    error = some e.message;
  }

  -- What a script's result means for the loop: the input of the next script, or the end.
  unfoldable pub acted :
      MiddlewareAction
      → MiddlewareOutput serde.Json
      → MiddlewareInput serde.Json
      → Verdict (MiddlewareInput serde.Json)
  acted block output input = stopped (block_error output)
  acted continue output input = passed (applied output input)

  unfoldable pub on_error :
      FailureMode
      → MiddlewareError
      → MiddlewareInput serde.Json
      → Verdict (MiddlewareInput serde.Json)
  on_error fail_closed e input =
      stopped (new_error "rhai" ("Middleware error (fail_closed): " +++ e.message))
  on_error fail_open e input = passed input

  unfoldable pub outcome :
      MiddlewareConfig serde.Json
      → Verdict (MiddlewareOutput serde.Json)
      → MiddlewareInput serde.Json
      → Verdict (MiddlewareInput serde.Json)
  outcome c (passed output) input = acted output.action output input
  outcome c (stopped e) input = on_error c.failure_mode e input

  -- The error of an audit record that cannot be written is logged and dropped.
  unfoldable pub run_joined :
      MiddlewareConfig serde.Json
      → ℕ
      → MiddlewareInput serde.Json
      → Reply (Verdict (MiddlewareOutput serde.Json))
      → W
      → Verdict (MiddlewareInput serde.Json) × W
  run_joined c start input (failed e) w =
      (stopped (new_error "rhai" ("script task panicked: " +++ e)), w)
  run_joined c start input (got result) w =
      let duration_ms = as_i32 (host.millis w - start) in
      (outcome c result input, (record_run host.execute (run_record c duration_ms result) w).1)

  unfoldable pub run_config :
      MiddlewareConfig serde.Json
      → MiddlewareInput serde.Json
      → W
      → Verdict (MiddlewareInput serde.Json) × W
  run_config c input w =
      let (joined, w') = host.join (execute_script serde rhai ctx input c.config) w in
      run_joined c (host.millis w) input joined w'

  unfoldable pub then_rest :
      Verdict (MiddlewareInput serde.Json) × W
      → (MiddlewareInput serde.Json → W → Verdict (MiddlewareInput serde.Json) × W)
      → Verdict (MiddlewareInput serde.Json) × W
  then_rest (passed input, w) rest = rest input w
  then_rest (stopped e, w) rest = (stopped e, w)

  unfoldable pub run_configs :
      List (MiddlewareConfig serde.Json)
      → MiddlewareInput serde.Json
      → W
      → Verdict (MiddlewareInput serde.Json) × W
  run_configs [] input w = (passed input, w)
  run_configs (c ∷ cs) input w = elim c.enabled [
    | true ↦ then_rest (run_config c input w) (run_configs cs)
    | false ↦ run_configs cs input w
  ]

  unfoldable pub load_phase_configs : String → W → Reply (List (MiddlewareConfig serde.Json)) × W
  load_phase_configs api_key_id w =
      let (reply, w') = host.select_configs api_key_id (as_str phase) w in
      (elim reply [ got rows ↦ got (configs_of serde.empty_object rows) | failed e ↦ failed e ], w')

  unfoldable pub run_loaded :
      Reply (List (MiddlewareConfig serde.Json))
      → MiddlewareInput serde.Json
      → W
      → Verdict (MiddlewareInput serde.Json) × W
  run_loaded (failed e) input w =
      (stopped (new_error "engine" ("failed to load configs: " +++ e)), w)
  run_loaded (got configs) input w = run_configs configs input w

  unfoldable pub run_phase :
      String → MiddlewareInput serde.Json → W → Verdict (MiddlewareInput serde.Json) × W
  run_phase api_key_id input w =
      let (configs, w') = load_phase_configs api_key_id w in run_loaded configs input w'
