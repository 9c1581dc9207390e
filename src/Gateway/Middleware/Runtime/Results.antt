-- ===== src/Gateway/Middleware/Runtime/Results.antt =====
-- What a script's result can change.
use zorch.Prelude.{
  unwrap_or, String, Option, none, some, ◌≡◌, refl, inl, inr, arith, Bool, false, not, Bool-cases,
  is_empty, if◌then◌else◌,
}
use zorch.Prelude.Classes.{string_eq, beq_refl}
use zorch.External.Serde.{Serde}
use zorch.Gateway.Middleware.{
  MiddlewareInput, MiddlewareOutput, continue_with, continue_unchanged, Headers, passed, continue,
}
use zorch.Gateway.Middleware.Runtime.{
  continue_headers, continue_output, parse_action, parse_result, str_field, headers_of,
}
use zorch.Gateway.Middleware.Engine.{applied}

module _ (serde : Serde) where
  -- A result holds a body that is not the input's.
  abbrev pub has_new_body : MiddlewareInput serde.Json → Option serde.Json → Bool
  has_new_body i none = false
  has_new_body i (some body) = not (serde.same body i.body)

  -- The headers that a result holds, or those before if it holds none.
  abbrev pub new_or_old : Option Headers → Headers → Headers
  new_or_old none old = old
  new_or_old (some new) old = if is_empty new then old else new

  -- What a result that continues makes of its input.
  abbrev pub IsContinued :
      MiddlewareInput serde.Json
      → Option serde.Json
      → Option Headers
      → serde.Json
      → MiddlewareOutput serde.Json
      → Type 0
  IsContinued i body headers metadata output =
      ((applied output i).body ≡ (if has_new_body i body then unwrap_or body i.body else i.body))
      × ((applied output i).headers
          ≡ (if has_new_body i body then i.headers else new_or_old headers i.headers))
      × (output.body_changed ≡ has_new_body i body)
      × (output.metadata ≡ metadata)
      × (output.action ≡ continue)

  continue_headers-kept :
      (i : MiddlewareInput serde.Json) (headers : Option Headers) (metadata : serde.Json)
      → ((applied (continue_headers serde headers metadata) i).body ≡ i.body)
        × ((applied (continue_headers serde headers metadata) i).headers
            ≡ new_or_old headers i.headers)
        × ((continue_headers serde headers metadata).body_changed ≡ false)
        × ((continue_headers serde headers metadata).metadata ≡ metadata)
        × ((continue_headers serde headers metadata).action ≡ continue)
  unfolding continue_headers continue_unchanged applied
  continue_headers-kept i none metadata = (refl, refl, refl, refl, refl)
  continue_headers-kept i (some h) metadata = elim (Bool-cases (is_empty h)) [
    | inl b ↦ (
      ground (arith, b),
      ground (arith, b),
      ground (arith, b),
      ground (arith, b),
      ground (arith, b),
    )
    | inr b ↦ (
      ground (arith, b),
      ground (arith, b),
      ground (arith, b),
      ground (arith, b),
      ground (arith, b),
    )
  ]

  continue_output-IsContinued :
      (i : MiddlewareInput serde.Json) (body : Option serde.Json) (headers : Option Headers)
      (metadata : serde.Json)
      → IsContinued i body headers metadata (continue_output serde i body headers metadata)
  unfolding continue_output continue_with applied
  continue_output-IsContinued i none h metadata = continue_headers-kept i h metadata
  continue_output-IsContinued i (some b) h metadata =
      let (body, headers, flag, kept, on) = continue_headers-kept i h metadata in
      elim (Bool-cases (serde.same b i.body)) [
        | inl s ↦ (
          ground (arith, s, body),
          ground (arith, s, headers),
          ground (arith, s, flag),
          ground (arith, s, kept),
          ground (arith, s, on),
        )
        | inr s ↦ (
          ground (arith, s),
          ground (arith, s),
          ground (arith, s),
          ground (arith, s),
          ground (arith, s),
        )
      ]

  -- A result with the action "continue" passes. If it holds a body that is not the input's, that
  -- body goes on and the headers stay as they were, so that headers in the same result are dropped.
  -- Otherwise the body stays as it was, and the headers of the result, if it has any, replace the
  -- input's. The output says whether the body changed, and holds the result's metadata, or an empty
  -- object.
  pub parse_result-continue :
      (i : MiddlewareInput serde.Json) (result : serde.Json)
      → str_field serde "action" result ≡ some "continue"
      → (output : MiddlewareOutput serde.Json) × (parse_result serde i result ≡ passed output)
        × IsContinued i
            (serde.get "body" result)
            (headers_of serde (serde.get "headers" result))
            (unwrap_or (serde.get "metadata" result) serde.empty_object)
            output
  unfolding parse_result parse_action
  parse_result-continue i result a =
      let metadata = unwrap_or (serde.get "metadata" result) serde.empty_object in
      let headers = headers_of serde (serde.get "headers" result) in
      (
        continue_output serde i (serde.get "body" result) headers metadata,
        ground (arith, a, beq_refl {K = String} "continue"),
        continue_output-IsContinued i (serde.get "body" result) headers metadata,
      )
