-- ===== src/Api/Body/Rewriting.antt =====
-- What the two changes of a body do to the questions that are asked of it.
use zorch.Prelude.{
  true, false, ◌≡◌, ◌≢◌, refl, sym, ap, ◌∙◌, String, Option, none, some, arith, Bool-cases,
  Option-cases, inl, inr,
}
use zorch.Prelude.Classes.{◌==◌, string_eq, beq_ne, ne_of_beq}
use zorch.Shared.Errors.{got, ok, Reply-cases}
use zorch.External.Serde.{Serde, SerdeLaws}
use zorch.Api.Request.{and_then, to_option, is_streaming_request}
use zorch.Api.Body.{
  extract_model, model_in, model_named, ModelRef, rewrite_body_model, rewrite_read, with_model,
  with_options, with_stream_usage, inject_stream_usage_options, inject_into, printed_or,
}

module _ (serde : Serde) (laws : SerdeLaws serde) where
  -- A text that reads as a value is not empty.
  not_empty :
      (body : String) (v : serde.Json) → serde.from_slice body ≡ got v → (body == "") ≡ false
  not_empty body v h =
      beq_ne body "" (λ e. laws.empty_is_no_json v (ap serde.from_slice (sym e) ∙ h))

  -- The model that is found in a text whose value has this name.
  extract_model-named :
      (path s : String) (w : serde.Json) (name : String)
      → serde.from_slice s ≡ got w
      → serde.get "model" w ≡ some (serde.string name)
      → (path == "/v1/models") ≡ false
      → (name == "") ≡ false
      → extract_model serde path s ≡ ok (record { raw = name; model = name })
  unfolding extract_model model_in model_named and_then
  extract_model-named path s w name read field p n =
      let e = not_empty s w read in
      let t = laws.as_str_string name in rw (p, e, read, field, t, n) refl

  -- The model that is extracted from a rewritten body is the target's model: the target has a name,
  -- the path is not that of the list, the body reads as a JSON object and the rewriting succeeds.
  pub extract_model-rewrite_body_model :
      (path body target_model out : String) (v : serde.Json)
      → serde.from_slice body ≡ got v
      → serde.is_object v ≡ true
      → path ≢ "/v1/models"
      → target_model ≢ ""
      → rewrite_body_model serde body target_model ≡ ok out
      → extract_model serde path out ≡ ok (record { raw = target_model; model = target_model })
  unfolding rewrite_body_model rewrite_read with_model
  extract_model-rewrite_body_model path body target_model out v read object p n h =
      let e = not_empty body v read in
      let w = serde.insert "model" (serde.string target_model) v in
      elim (Reply-cases (serde.to_vec w)) [
        | inl (s, printed) ↦
            let again = laws.reread w s printed in
            let same_text : s ≡ out = ground (arith, e, read, object, printed, h) in
            rw same_text at (
              extract_model-named path s again.0 target_model again.1
                (again.3 "model" target_model
                  (laws.get_insert v object "model" (serde.string target_model)))
                (beq_ne path "/v1/models" p) (beq_ne target_model "" n))
        | inr (t, broken) ↦ ground (arith, e, read, object, broken, h)
      ]

  -- `with_options` puts an object under "stream_options" and nothing else.
  get-with_options :
      (found : Option serde.Json) (obj : serde.Json) (key : String)
      → serde.is_object obj ≡ true
      → "stream_options" ≢ key
      → serde.get key (with_options serde found obj) ≡ serde.get key obj
  unfolding with_options
  get-with_options none obj key o n = laws.get_insert_other obj o "stream_options" key n _
  get-with_options (some opts) obj key o n =
      let other =
        laws.get_insert_other obj o "stream_options" key n
          (serde.insert "include_usage" (serde.bool true) opts) in
      elim (Bool-cases (serde.is_object opts)) [
        | inl b ↦ ground (arith, b, other)
        | inr b ↦ ground (arith, b)
      ]

  -- Of an object, streaming is asked for in the value, and a field that is neither "stream" nor "stream_options"
  -- keeps its value.
  get-with_stream_usage :
      (v : serde.Json)
      → serde.is_object v ≡ true
      → (serde.get "stream" (with_stream_usage serde v) ≡ some (serde.bool true))
        × ((key : String)
            → "stream" ≢ key
            → "stream_options" ≢ key
            → serde.get key (with_stream_usage serde v) ≡ serde.get key v)
  unfolding with_stream_usage
  get-with_stream_usage v o =
      let obj = serde.insert "stream" (serde.bool true) v in
      let found = serde.get "stream_options" obj in
      let o' : serde.is_object obj ≡ true = laws.is_object_insert v o "stream" (serde.bool true) in
      let first =
        get-with_options found obj "stream" o' (ne_of_beq "stream_options" "stream" refl) in
      let here = laws.get_insert v o "stream" (serde.bool true) in
      (
        rw (o, first, here) refl,
        λ key n m.
            let rest = get-with_options found obj key o' m in
            let there = laws.get_insert_other v o "stream" key n (serde.bool true) in
            rw (o, rest, there) refl,
      )

  -- What an extracted model says of the body.
  extract_model-ok :
      (path body : String) (v : serde.Json) (m : ModelRef)
      → serde.from_slice body ≡ got v
      → extract_model serde path body ≡ ok m
      → (name : String) × (serde.get "model" v ≡ some (serde.string name))
        × ((path == "/v1/models") ≡ false)
        × ((name == "") ≡ false)
        × (ok (record { raw = name; model = name }) ≡ ok m)
  unfolding extract_model model_in model_named and_then
  extract_model-ok path body v m read h =
      let e = not_empty body v read in
      elim (Bool-cases (path == "/v1/models")) [
        | inl p ↦ ground (arith, p, h)
        | inr p ↦ elim (Option-cases (serde.get "model" v)) [
          | inl n ↦ ground (arith, p, e, read, n, h)
          | inr (w, n) ↦ elim (Option-cases (serde.as_str w)) [
            | inl q ↦ ground (arith, p, e, read, n, q, h)
            | inr (name, q) ↦ elim (Bool-cases (name == "")) [
              | inl z ↦ ground (arith, p, e, read, n, q, z, h)
              | inr z ↦
                  let t = laws.string_of_str w name q in
                  (name, n ∙ ap some t, p, z, ground (arith, p, e, read, n, q, z, h))
            ]
          ]
        ]
      ]

  -- A body goes to the chat completions as a streaming request once
  -- the usage options are injected, and names the same model as before: the body reads as JSON, a
  -- model is extracted from it on the path, and the changed value is printed.
  pub inject_stream_usage_options-streams :
      (path body s : String) (v : serde.Json) (m : ModelRef)
      → serde.from_slice body ≡ got v
      → serde.to_vec (with_stream_usage serde v) ≡ got s
      → extract_model serde path body ≡ ok m
      → (is_streaming_request serde (inject_stream_usage_options serde body) "/v1/chat/completions"
          ≡ true)
        × (extract_model serde path (inject_stream_usage_options serde body) ≡ ok m)
  unfolding inject_stream_usage_options inject_into printed_or is_streaming_request and_then
      to_option
  inject_stream_usage_options-streams path body s v m read printed h =
      let (name, field, p, z, same_ref) = extract_model-ok path body v m read h in
      let kept = get-with_stream_usage v (laws.get_object v (serde.string name) "model" field) in
      let (w, again, flags, names) = laws.reread (with_stream_usage serde v) s printed in
      let out : inject_stream_usage_options serde body ≡ s = rw (read, printed) refl in
      let b = laws.as_bool_bool true in
      (
        rw (out, again, flags "stream" true kept.0, b) refl,
        rw out (
            extract_model-named path s w name again
              (names "model" name (
                kept.1 "model" (ne_of_beq "stream" "model" refl)
                  (ne_of_beq "stream_options" "model" refl)
                ∙ field))
              p z
            ∙ same_ref),
      )
