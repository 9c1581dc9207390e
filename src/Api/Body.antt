-- ===== src/Api/Body.antt =====
-- The JSON body of a request: inject_stream_usage_options of
-- crates/zorch-api/src/routes/v1/proxy/request.rs, extract_model of model.rs and rewrite_body_model
-- of mod.rs beside it.
pub mod Rewriting
mod Examples
use zorch.Prelude.{
  Bool, true, false, ◌||◌, String, Option, none, some, List, [], ◌∷◌, if◌then◌else◌,
}
use zorch.Prelude.Classes.{◌==◌, string_eq}
use zorch.Shared.Errors.{
  Reply, got, failed, Result, ok, err, AppError, Message, bad_request, internal, text, map_err,
}
use zorch.External.Serde.{Serde}
use zorch.Api.Request.{and_then}

-- A reference to a model; a `ModelId` is a string.
pub record ModelRef : Type 0 where
  pub raw : String
  pub model : String

unfoldable pub public_id : ModelRef → String
public_id m = m.model

abbrev missing_model : AppError
missing_model = bad_request (text "Missing or empty 'model' field in request body" ∷ [])

unfoldable pub model_named : Option String → Result ModelRef
model_named none = err missing_model
model_named (some raw) =
    if raw == "" then err missing_model else ok (record { raw = raw; model = raw })

module _ (serde : Serde) where
  unfoldable pub model_in : Reply serde.Json → Result ModelRef
  model_in (got json) = model_named (and_then (serde.get "model" json) serde.as_str)
  model_in (failed e) = err (bad_request (text "Invalid JSON in request body" ∷ []))

  unfoldable pub extract_model : String → String → Result ModelRef
  extract_model path body =
      if path == "/v1/models" || body == ""
      then err (bad_request (text "Model lookup requires a model field in the request body" ∷ []))
      else model_in (serde.from_slice body)

  -- `obj.entry("stream_options").or_insert_with(..)` and what is done with it
  unfoldable pub with_options : Option serde.Json → serde.Json → serde.Json
  with_options none obj =
      serde.insert "stream_options"
        (serde.insert "include_usage" (serde.bool true) serde.empty_object) obj
  with_options (some opts) obj =
      if serde.is_object opts
      then serde.insert "stream_options" (serde.insert "include_usage" (serde.bool true) opts) obj
      else obj

  unfoldable pub with_stream_usage : serde.Json → serde.Json
  with_stream_usage json =
      let obj = serde.insert "stream" (serde.bool true) json in
      if serde.is_object json then with_options (serde.get "stream_options" obj) obj else json

  unfoldable pub printed_or : String → Reply String → String
  printed_or body (got s) = s
  printed_or body (failed e) = body

  unfoldable pub inject_into : String → Reply serde.Json → String
  inject_into body (got json) = printed_or body (serde.to_vec (with_stream_usage json))
  inject_into body (failed e) = body

  unfoldable pub inject_stream_usage_options : String → String
  inject_stream_usage_options body = inject_into body (serde.from_slice body)

  unfoldable pub with_model : String → serde.Json → serde.Json
  with_model target_model json =
      if serde.is_object json then serde.insert "model" (serde.string target_model) json else json

  unfoldable pub rewrite_read : String → Reply serde.Json → Result String
  rewrite_read target_model (got json) =
      map_err (λ e. internal (text "Failed to serialize rewritten body: " ∷ text e ∷ []))
        (serde.to_vec (with_model target_model json))
  rewrite_read target_model (failed e) =
      err (bad_request (text "Invalid JSON body: " ∷ text e ∷ []))

  unfoldable pub rewrite_body_model : String → String → Result String
  rewrite_body_model body target_model =
      if body == "" then ok body else rewrite_read target_model (serde.from_slice body)
