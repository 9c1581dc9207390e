-- ===== src/Gateway/Middleware.antt =====
-- crates/zorch-gateway/src/middleware/types.rs: what the phases of the script middleware exchange.
-- `Json` is the type of JSON values.
pub mod Runtime
pub mod Audit
pub mod Engine
mod Examples
use zorch.Prelude.{
  ℕ, Bool, true, false, String, Option, none, some, List, [], ◌⊎◌, inl, inr, ◌≡◌, refl, arith,
  if◌then◌else◌,
}
use zorch.Prelude.Classes.{◌==◌, string_eq}
use zorch.Shared.Text.{◌+++◌}
use zorch.Shared.Errors.{Reply, got, failed}

pub data MiddlewarePhase : Type 0 where
  request_pre_governance request_pre_upstream : MiddlewarePhase

unfoldable pub as_str : MiddlewarePhase → String
as_str request_pre_governance = "request.pre_governance"
as_str request_pre_upstream = "request.pre_upstream"

unfoldable pub phase_from_str : String → Reply MiddlewarePhase
phase_from_str s =
    if s == "request.pre_governance"
    then got request_pre_governance
    else if s == "request.pre_upstream"
    then got request_pre_upstream
    else failed ("unknown phase: " +++ s)

pub data MiddlewareAction : Type 0 where
  continue block : MiddlewareAction

pub data FailureMode : Type 0 where
  fail_open fail_closed : FailureMode

unfoldable pub mode_from_str : String → Reply FailureMode
mode_from_str s =
    if s == "fail_open"
    then got fail_open
    else if s == "fail_closed"
    then got fail_closed
    else failed ("unknown failure_mode: " +++ s)

pub record MiddlewareContext : Type 0 where
  pub request_id : String
  pub org_id : String
  pub api_key_id : String
  pub provider_id : String
  pub model_id : String
  pub route : String

abbrev pub Headers : Type 0
Headers = List (String × String)

pub record MiddlewareInput (Json : Type 0) : Type 0 where
  pub body : Json
  pub headers : Headers

unfoldable pub new_input : {Json : Type 0} → Json → MiddlewareInput Json
new_input body = record { body = body; headers = [] }

pub record MiddlewareOutput (Json : Type 0) : Type 0 where
  pub action : MiddlewareAction
  pub body : Option Json
  pub headers : Option Headers
  pub metadata : Json
  pub body_changed : Bool
  pub message : Option String
  pub status_code : Option ℕ  -- u16

unfoldable pub continue_with : {Json : Type 0} → Json → Json → MiddlewareOutput Json
continue_with body metadata = record {
  action = continue;
  body = some body;
  headers = none;
  metadata = metadata;
  body_changed = true;
  message = none;
  status_code = none;
}

unfoldable pub continue_unchanged : {Json : Type 0} → Json → MiddlewareOutput Json
continue_unchanged metadata = record {
  action = continue;
  body = none;
  headers = none;
  metadata = metadata;
  body_changed = false;
  message = none;
  status_code = none;
}

unfoldable pub block_output : {Json : Type 0} → ℕ → String → Json → MiddlewareOutput Json
block_output status_code message metadata = record {
  action = block;
  body = none;
  headers = none;
  metadata = metadata;
  body_changed = false;
  message = some message;
  status_code = some status_code;
}

pub record MiddlewareError : Type 0 where
  pub plugin_key : String
  pub message : String
  pub status_code : Option ℕ  -- u16

unfoldable pub new_error : String → String → MiddlewareError
new_error plugin_key message = record {
  plugin_key = plugin_key;
  message = message;
  status_code = none;
}

unfoldable pub with_status_code : ℕ → MiddlewareError → MiddlewareError
with_status_code status_code e = record e { status_code = some status_code }

-- `Result<_, MiddlewareError>`
pub data Verdict (A : Type 0) : Type 0 where
  passed : A → Verdict A
  stopped : MiddlewareError → Verdict A

unfoldable pub and_pass : {A B : Type 0} → Verdict A → (A → Verdict B) → Verdict B
and_pass (passed a) f = f a
and_pass (stopped e) f = stopped e

-- `map_err(|e| MiddlewareError::new("rhai", format!("{what}{e}")))`
unfoldable pub or_stop : {A : Type 0} → String → Reply A → Verdict A
or_stop what (got a) = passed a
or_stop what (failed e) = stopped (new_error "rhai" (what +++ e))

pub Verdict-cases :
    {A : Type 0} (v : Verdict A)
    → ((a : A) × (v ≡ passed a)) ⊎ ((e : MiddlewareError) × (v ≡ stopped e))
Verdict-cases (passed a) = inl (a, refl)
Verdict-cases (stopped e) = inr (e, refl)

pub and_pass-passed :
    {A B : Type 0} {v : Verdict A} {f : A → Verdict B} {b : B}
    → and_pass v f ≡ passed b
    → (a : A) × (v ≡ passed a) × (f a ≡ passed b)
unfolding and_pass
and_pass-passed {v = passed a} h = (a, refl, h)
and_pass-passed {v = stopped e} h = ground (arith, h)
