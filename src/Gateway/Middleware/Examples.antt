-- ===== src/Gateway/Middleware/Examples.antt =====
-- A phase of two scripts: one that fails and is passed over, one that changes the body.
use zorch.Prelude.{
  arith, true, ℕ, suc, ◌+◌, String, none, some, List, [], ◌∷◌, ◌≡◌, refl, if◌then◌else◌,
}
use zorch.Prelude.Int.{pos}
use zorch.Prelude.Classes.{◌==◌, string_eq}
use zorch.Shared.Lines.{trim, trim_start, trim_end, is_whitespace}
use zorch.Shared.Errors.{got, failed}
use zorch.External.Json.{
  Value, Table, json_of, str, map_of, entry, no_entries, get_value, find_field, str_of, same_value,
  string_map_of, strings_in, put_value, put_field,
}
use zorch.Gateway.Middleware.{
  MiddlewareContext, MiddlewareInput, MiddlewareOutput, request_pre_governance, as_str,
  phase_from_str, mode_from_str, new_error, continue_with, passed, and_pass, or_stop, fail_open,
  fail_closed,
}
use zorch.Gateway.Middleware.Audit.{record_run}
use zorch.Gateway.Middleware.Runtime.{
  Rhai, str_field, extract_source, non_empty_source, object_of, object_of_strings, context_json,
  input_json, continue_headers, continue_output, headers_of, parse_action, parse_result,
  execute_script, validate_script, has_run, is_run,
}
use zorch.Gateway.Middleware.Runtime.Results.{IsContinued, parse_result-continue}
use zorch.Gateway.Middleware.Engine.{
  MiddlewareConfig, ConfigRow, Host, parsed_or, config_of, configs_of, applied, acted, on_error,
  outcome, run_joined, run_config, then_rest, run_configs, load_phase_configs, run_loaded,
  run_phase,
}
use zorch.Gateway.Middleware.Engine.Passing.{
  Passes, done, continued, tolerated, run_phase-Passes, run_phase_complete,
}
use zorch.Gateway.Middleware.Engine.Records.{enabled_count, Counts, records-run_phase}

abbrev answer : Value
answer = map_of (
    entry "action" (str "continue") (
      entry "body" (str "new")
        (entry "headers" (map_of (entry "x-seen" (str "1") no_entries)) no_entries)))

abbrev table : Table
table = []

-- A script is its source: "both" gives the answer above, any other one fails.
abbrev rhai : Rhai Value
rhai = record {
  Engine = Unit;
  Ast = String;
  Dynamic = Value;
  new_engine = tt;
  set_max_string_size = λ n e. e;
  set_max_array_size = λ n e. e;
  set_max_map_size = λ n e. e;
  set_max_call_levels = λ n e. e;
  on_progress = λ f e. e;
  compile = λ e s. got s;
  iter_functions = λ ast. ("run", 3) ∷ [];
  to_dynamic = λ v. got v;
  from_dynamic = λ v. got v;
  call_fn = λ e ast name args. if ast == "both" then got answer else failed "boom";
  show = λ n. "1000000";
}

abbrev script : String → Value
script source = map_of (entry "source" (str source) no_entries)

abbrev row : String → String → ConfigRow Value
row source mode = record {
  id = some source;
  name = some source;
  enabled = none;
  phase = some "request.pre_governance";
  priority = none;
  failure_mode = some mode;
  config = some (script source);
}

-- The state counts the rows of the audit.
abbrev host : Host Value ℕ
host = record {
  select_configs = λ key phase w. (got (row "broken" "fail_open" ∷ row "both" "" ∷ []), w);
  join = λ v w. (got v, w);
  millis = λ w. 0;
  execute = λ entry w. (got tt, suc w);
}

abbrev counted : Counts host (λ w. w)
counted = record {
  records_select = λ key phase w. refl;
  records_join = λ v w. refl;
  records_execute = λ entry w. refl;
}

abbrev ctx : MiddlewareContext
ctx = record {
  request_id = "r";
  org_id = "o";
  api_key_id = "k";
  provider_id = "";
  model_id = "";
  route = "/v1/messages";
}

abbrev input : MiddlewareInput Value
input = record { body = str "old"; headers = [] }

abbrev changed : MiddlewareInput Value
changed = record { body = str "new"; headers = [] }

abbrev open_config : MiddlewareConfig Value
open_config = record {
  id = "broken";
  name = "broken";
  enabled = true;
  phase = request_pre_governance;
  priority = pos 100;
  failure_mode = fail_open;
  config = script "broken";
}

abbrev closed_config : MiddlewareConfig Value
closed_config = record {
  id = "both";
  name = "both";
  enabled = true;
  phase = request_pre_governance;
  priority = pos 100;
  failure_mode = fail_closed;
  config = script "both";
}

abbrev two : List (MiddlewareConfig Value)
two = open_config ∷ closed_config ∷ []

valid : validate_script (json_of table) rhai "both" ≡ got tt
unfolding validate_script has_run is_run trim trim_start trim_end is_whitespace
valid = refl

-- A new body and new headers in one result
parse_result-continue_example :
    (output : MiddlewareOutput Value) × (parse_result (json_of table) input answer ≡ passed output)
    × IsContinued
        (json_of table)
        input
        (some (str "new"))
        (some (("x-seen", "1") ∷ []))
        (map_of no_entries)
        output
unfolding str_field get_value find_field str_of headers_of string_map_of strings_in
parse_result-continue_example = parse_result-continue (json_of table) input answer refl

run_phase-Passes_example : Passes (json_of table) rhai ctx two input changed
unfolding run_phase load_phase_configs configs_of config_of parsed_or phase_from_str mode_from_str
    as_str run_loaded run_configs then_rest run_config run_joined outcome acted on_error applied
    record_run execute_script and_pass extract_source non_empty_source str_field get_value
    find_field str_of or_stop context_json input_json object_of object_of_strings put_value
    put_field parse_result parse_action continue_output continue_headers headers_of same_value
    string_map_of strings_in continue_with new_error
run_phase-Passes_example =
    run_phase-Passes (json_of table) rhai ctx host request_pre_governance "k" two input changed 0
      (λ v u w h. ground (arith, h)) refl refl

run_phase_complete_example :
    (run_phase (json_of table) rhai host request_pre_governance ctx "k" input 0).0 ≡ passed changed
unfolding run_phase load_phase_configs configs_of config_of parsed_or phase_from_str mode_from_str
    as_str run_loaded run_configs then_rest run_config run_joined outcome acted on_error applied
    record_run execute_script and_pass extract_source non_empty_source str_field get_value
    find_field str_of or_stop context_json input_json object_of object_of_strings put_value
    put_field parse_result parse_action continue_output continue_headers headers_of same_value
    string_map_of strings_in continue_with new_error
run_phase_complete_example =
    run_phase_complete (json_of table) rhai ctx host request_pre_governance "k" two input changed 0
      (λ v w. refl) refl (tolerated refl refl refl (continued refl refl refl done))

records-run_phase_example :
    (run_phase (json_of table) rhai host request_pre_governance ctx "k" input 0).1
    ≡ 0 + enabled_count two
unfolding run_phase load_phase_configs configs_of config_of parsed_or phase_from_str mode_from_str
    as_str run_loaded run_configs then_rest run_config run_joined outcome acted on_error applied
    record_run execute_script and_pass extract_source non_empty_source str_field get_value
    find_field str_of or_stop context_json input_json object_of object_of_strings put_value
    put_field parse_result parse_action continue_output continue_headers headers_of same_value
    string_map_of strings_in continue_with new_error
records-run_phase_example =
    records-run_phase (json_of table) rhai ctx host request_pre_governance (λ w. w) counted "k" two
      input changed 0 refl refl
