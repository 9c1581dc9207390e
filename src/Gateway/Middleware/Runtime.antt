-- ===== src/Gateway/Middleware/Runtime.antt =====
-- crates/zorch-gateway/src/middleware/rhai_runtime.rs. The script language, the crate rhai, is a
-- parameter. On a target of 64 bits `as usize` changes no u64.
pub mod Results
use zorch.Prelude.{
  ℕ, ◌%◌, ◌^◌, ◌≤◌, Bool, true, false, not, ◌&&◌, String, Option, none, some, List, [], ◌∷◌, any,
  ltb, nat_beq, unwrap_or, is_empty, if◌then◌else◌,
}
use zorch.Prelude.Classes.{◌==◌, string_eq}
use zorch.Shared.Text.{◌+++◌}
use zorch.Shared.Lines.{trim}
use zorch.Shared.Errors.{Reply, got, failed}
use zorch.External.Serde.{Serde}
use zorch.Gateway.Middleware.{
  MiddlewareContext, MiddlewareInput, MiddlewareOutput, continue_with, continue_unchanged,
  block_output, MiddlewareError, new_error, Headers, Verdict, passed, stopped, and_pass, or_stop,
}

pub record RhaiRuntimeLimits : Type 0 where
  pub max_operations : ℕ  -- u64, as the others
  pub max_string_size : ℕ
  pub max_array_size : ℕ
  pub max_map_size : ℕ
  pub max_call_stack_depth : ℕ

pub record Rhai (Json : Type 0) : Type 1 where
  pub Engine : Type 0
  pub Ast : Type 0
  pub Dynamic : Type 0
  pub new_engine : Engine
  pub set_max_string_size : ℕ → Engine → Engine
  pub set_max_array_size : ℕ → Engine → Engine
  pub set_max_map_size : ℕ → Engine → Engine
  pub set_max_call_levels : ℕ → Engine → Engine
  -- The callback stops the script at a count of operations for which it gives a text.
  pub on_progress : (ℕ → Option String) → Engine → Engine
  pub compile : Engine → String → Reply Ast
  -- name and number of parameters
  pub iter_functions : Ast → List (String × ℕ)
  pub to_dynamic : Json → Reply Dynamic
  pub from_dynamic : Dynamic → Reply Json
  pub call_fn : Engine → Ast → String → Dynamic × Dynamic × Dynamic → Reply Dynamic
  -- `format!` of a number
  pub show : ℕ → String

unfoldable pub default_limits : RhaiRuntimeLimits
default_limits = record {
  max_operations = 1000000;
  max_string_size = 65536;
  max_array_size = 10000;
  max_map_size = 10000;
  max_call_stack_depth = 64;
}

unfoldable pub at_least_one : ℕ → ℕ
at_least_one v = if ltb v 1 then 1 else v

unfoldable pub exceeded : (ℕ → String) → ℕ → ℕ → Option String
exceeded show max_ops counter =
    if ltb max_ops counter then some ("exceeded operation limit of " +++ show max_ops) else none

-- `config.get(name).and_then(|v| v.as_u64())`, or what was there
unfoldable pub u64_or : (serde : Serde) → String → serde.Json → ℕ → ℕ
u64_or serde name config old = elim (serde.get name config) [
  | none ↦ old
  | some v ↦ unwrap_or (serde.as_u64 v) old
]

unfoldable pub operations_or : Option ℕ → ℕ → ℕ
operations_or none old = old
operations_or (some v) old = at_least_one v

unfoldable pub str_field : (serde : Serde) → String → serde.Json → Option String
str_field serde name v = elim (serde.get name v) [ none ↦ none | some w ↦ serde.as_str w ]

unfoldable pub u64_field : (serde : Serde) → String → serde.Json → Option ℕ
u64_field serde name v = elim (serde.get name v) [ none ↦ none | some w ↦ serde.as_u64 w ]

unfoldable pub non_empty_source : Option String → Verdict String
non_empty_source none = stopped (new_error "rhai" "missing or empty 'source' in config")
non_empty_source (some s) =
    if s == "" then stopped (new_error "rhai" "missing or empty 'source' in config") else passed s

module _ (serde : Serde) where
  unfoldable pub limits_of_config : serde.Json → RhaiRuntimeLimits
  limits_of_config config = record {
    max_operations =
        operations_or (u64_field serde "max_operations" config) default_limits.max_operations;
    max_string_size = u64_or serde "max_string_size" config default_limits.max_string_size;
    max_array_size = u64_or serde "max_array_size" config default_limits.max_array_size;
    max_map_size = u64_or serde "max_map_size" config default_limits.max_map_size;
    max_call_stack_depth =
        u64_or serde "max_call_stack_depth" config default_limits.max_call_stack_depth;
  }

  unfoldable pub extract_source : serde.Json → Verdict String
  extract_source config = non_empty_source (str_field serde "source" config)

  -- `json!` of an object, and of a map of strings
  unfoldable pub object_of : List (String × serde.Json) → serde.Json
  object_of [] = serde.empty_object
  object_of ((name, v) ∷ rest) = serde.insert name v (object_of rest)

  unfoldable pub object_of_strings : Headers → serde.Json
  object_of_strings [] = serde.empty_object
  object_of_strings ((name, s) ∷ rest) = serde.insert name (serde.string s) (object_of_strings rest)

  unfoldable pub context_json : MiddlewareContext → serde.Json
  context_json ctx = object_of (
      ("request_id", serde.string ctx.request_id)
      ∷ ("org_id", serde.string ctx.org_id)
      ∷ ("api_key_id", serde.string ctx.api_key_id)
      ∷ ("provider_id", serde.string ctx.provider_id)
      ∷ ("model_id", serde.string ctx.model_id)
      ∷ ("route", serde.string ctx.route)
      ∷ [])

  unfoldable pub input_json : MiddlewareInput serde.Json → serde.Json
  input_json input =
      object_of (("body", input.body) ∷ ("headers", object_of_strings input.headers) ∷ [])

  -- The headers that are continued with, if the body is as it was.
  unfoldable pub continue_headers : Option Headers → serde.Json → MiddlewareOutput serde.Json
  continue_headers none metadata = continue_unchanged metadata
  continue_headers (some headers) metadata =
      if is_empty headers
      then continue_unchanged metadata
      else record (continue_unchanged metadata) { headers = some headers; body_changed = false }

  unfoldable pub continue_output :
      MiddlewareInput serde.Json
      → Option serde.Json
      → Option Headers
      → serde.Json
      → MiddlewareOutput serde.Json
  continue_output input none new_headers metadata = continue_headers new_headers metadata
  continue_output input (some body) new_headers metadata =
      if serde.same body input.body
      then continue_headers new_headers metadata
      else continue_with body metadata

  unfoldable pub headers_of : Option serde.Json → Option Headers
  headers_of none = none
  headers_of (some v) = serde.to_string_map v

  unfoldable pub parse_action :
      MiddlewareInput serde.Json
      → serde.Json
      → serde.Json
      → Option String
      → Verdict (MiddlewareOutput serde.Json)
  parse_action input result metadata none =
      stopped (new_error "rhai" "missing 'action' in script result")
  parse_action input result metadata (some action) =
      if action == "continue"
      then passed (
          continue_output input (serde.get "body" result) (headers_of (serde.get "headers" result))
            metadata)
      else if action == "block"
      then passed (
          block_output (unwrap_or (u64_field serde "status_code" result) 403 % 2 ^ 16)
            (unwrap_or (str_field serde "message" result) "Request blocked by middleware") metadata)
      else stopped (
          new_error "rhai" (
            "invalid action '"
            +++ (action +++ "' in script result; expected 'continue' or 'block'")))

  unfoldable pub parse_result :
      MiddlewareInput serde.Json → serde.Json → Verdict (MiddlewareOutput serde.Json)
  parse_result input result =
      parse_action input result (unwrap_or (serde.get "metadata" result) serde.empty_object)
        (str_field serde "action" result)

  module _ (rhai : Rhai serde.Json) where
    unfoldable pub build_engine : RhaiRuntimeLimits → rhai.Engine
    build_engine limits = rhai.on_progress (exceeded rhai.show limits.max_operations) (
        rhai.set_max_call_levels limits.max_call_stack_depth (
          rhai.set_max_map_size limits.max_map_size (
            rhai.set_max_array_size limits.max_array_size
              (rhai.set_max_string_size limits.max_string_size rhai.new_engine))))

    unfoldable pub is_run : String × ℕ → Bool
    is_run (name, params) = (name == "run") && nat_beq params 3

    unfoldable pub has_run : Reply rhai.Ast → Reply (Unit {0})
    has_run (got ast) =
        if any is_run (rhai.iter_functions ast)
        then got tt
        else failed "missing required function 'run(ctx, input, config)'"
    has_run (failed e) = failed ("compile error: " +++ e)

    unfoldable pub validate_script : String → Reply (Unit {0})
    validate_script source =
        if trim source == ""
        then failed "source is empty"
        else has_run (rhai.compile rhai.new_engine source)

    unfoldable pub execute_script :
        MiddlewareContext
        → MiddlewareInput serde.Json
        → serde.Json
        → Verdict (MiddlewareOutput serde.Json)
    execute_script ctx input config =
        let engine = build_engine (limits_of_config config) in
        and_pass (extract_source config) (λ source.
          and_pass (or_stop "compile error: " (rhai.compile engine source)) (λ ast.
            and_pass (or_stop "failed to serialize ctx: " (rhai.to_dynamic (context_json ctx)))
              (λ c.
                and_pass
                  (or_stop "failed to serialize input: " (rhai.to_dynamic (input_json input)))
                  (λ i.
                    and_pass (or_stop "failed to serialize config: " (rhai.to_dynamic config)) (λ g.
                      and_pass
                        (or_stop "execution error: " (rhai.call_fn engine ast "run" (c, i, g)))
                        (λ result.
                          and_pass
                            (or_stop "failed to deserialize result: " (rhai.from_dynamic result))
                            (parse_result input)))))))
