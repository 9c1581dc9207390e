-- ===== src/Api/Body/Examples.antt =====
-- A request for a model, before and after the changes of its body.
use zorch.Prelude.{◌≡◌, ◌≢◌, refl, true, arith, [], ◌∷◌}
use zorch.Prelude.Classes.{ne_of_beq, string_eq}
use zorch.Shared.Errors.{got, ok}
use zorch.External.Json.{
  Value, Table, json_of, json_laws, map_of, entry, no_entries, flag, str, read_in, print_in,
  reads_as, same_value, get_value, find_field, str_of, put_value, put_field, object?,
}
use zorch.Api.Request.{and_then, is_streaming_request}
use zorch.Api.Body.{
  extract_model, model_in, model_named, rewrite_body_model, rewrite_read, with_model, with_options,
  with_stream_usage, inject_stream_usage_options,
}
use zorch.Api.Body.Rewriting.{extract_model-rewrite_body_model, inject_stream_usage_options-streams}

abbrev asked : Value
asked = map_of (entry "model" (str "gpt5") no_entries)

abbrev routed : Value
routed = map_of (entry "model" (str "gpt-4o") no_entries)

abbrev streamed : Value
streamed = map_of (
    entry "model" (str "gpt5") (
      entry "stream" (flag true) (
        entry "stream_options" (map_of (entry "include_usage" (flag true) no_entries)) no_entries)))

abbrev table : Table
table =
    ("{\"model\":\"gpt5\"}", asked)
    ∷ ("{\"model\":\"gpt-4o\"}", routed)
    ∷ ("{\"model\":\"gpt5\",\"stream\":true}", streamed)
    ∷ []

no_empty : (v : Value) → read_in table "" ≢ got v
unfolding read_in
no_empty v e = ground (arith, e)

extract_model-rewrite_body_model_example :
    extract_model (json_of table) "/v1/messages" "{\"model\":\"gpt-4o\"}"
    ≡ ok (record { raw = "gpt-4o"; model = "gpt-4o" })
unfolding read_in object? rewrite_body_model rewrite_read print_in reads_as same_value with_model
    put_value put_field
extract_model-rewrite_body_model_example =
    extract_model-rewrite_body_model (json_of table) (json_laws table no_empty) "/v1/messages"
      "{\"model\":\"gpt5\"}" "gpt-4o" "{\"model\":\"gpt-4o\"}" asked refl refl
      (ne_of_beq "/v1/messages" "/v1/models" refl) (ne_of_beq "gpt-4o" "" refl) refl

inject_stream_usage_options-streams_example :
    (is_streaming_request
        (json_of table)
        (inject_stream_usage_options (json_of table) "{\"model\":\"gpt5\"}")
        "/v1/chat/completions"
      ≡ true)
    × (extract_model
          (json_of table)
          "/v1/chat/completions"
          (inject_stream_usage_options (json_of table) "{\"model\":\"gpt5\"}")
        ≡ ok (record { raw = "gpt5"; model = "gpt5" }))
unfolding read_in object? print_in reads_as same_value with_stream_usage with_options get_value
    put_value find_field put_field extract_model model_in model_named and_then str_of
inject_stream_usage_options-streams_example =
    inject_stream_usage_options-streams (json_of table) (json_laws table no_empty)
      "/v1/chat/completions" "{\"model\":\"gpt5\"}" "{\"model\":\"gpt5\",\"stream\":true}" asked
      (record { raw = "gpt5"; model = "gpt5" }) refl refl refl
