-- ===== src/Api/Examples.antt =====
-- A path of the streaming route.
use zorch.Prelude.{◌≡◌, refl, true, false, String, [], ◌∷◌}
use zorch.Prelude.Classes.{string_eq}
use zorch.External.Json.{Table, json_of, flag, map_of, entry, no_entries}
use zorch.Api.Request.{
  strip_prefix, is_streaming_request, normalize_upstream_path, is_streaming_request-normalize,
}

abbrev same : String → String
same s = s

abbrev streams : Table
streams = ("{}", map_of (entry "stream" (flag true) no_entries)) ∷ []

is_streaming_request-normalize_example :
    is_streaming_request
      (json_of streams)
      "{}"
      (normalize_upstream_path "/v1/chat/completions/stream")
    ≡ false
unfolding strip_prefix
is_streaming_request-normalize_example =
    is_streaming_request-normalize (json_of streams) "{}" "/v1/chat/completions/stream" refl
