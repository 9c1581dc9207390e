-- ===== src/Api/Request.antt =====
-- Paths and streaming: crates/zorch-api/src/routes/v1/proxy/request.rs.
use Prim.Native.Char.{code}
use text.Mathlib.TextLemmas.{cons-append, nil-append}
use zorch.Prelude.{
  Bool, true, false, not, ◌≢◌, String, Option, none, some, ◌≡◌, refl, ap, arith, nat_beq, unwrap_or,
  if◌then◌else◌, Bool-cases, Option-cases, inl, inr,
}
use zorch.Prelude.Classes.{◌==◌, string_eq, beq_ne}
use zorch.Shared.Text.{◌+++◌}
use zorch.Shared.Errors.{Reply, got, failed}
use zorch.External.Serde.{Serde}

unfoldable pub and_then {ℓ κ} : {A : Type ℓ} {B : Type κ} → Option A → (A → Option B) → Option B
and_then none f = none
and_then (some a) f = f a

-- `Result::ok`
unfoldable pub to_option {ℓ} : {A : Type ℓ} → Reply A → Option A
to_option (got a) = some a
to_option (failed e) = none

-- `str::strip_prefix`
unfoldable pub strip_prefix : String → String → Option String
strip_prefix String.[] s = some s
strip_prefix (String.◌∷◌ c p) String.[] = none
strip_prefix (String.◌∷◌ c p) (String.◌∷◌ d s) =
    let rest = strip_prefix p s in if nat_beq (code c) (code d) then rest else none

-- What is left of "/v1" is taken, "/" if that is nothing.
unfoldable pub stripped_path : String → Option String → String
stripped_path path none = path
stripped_path path (some stripped) = if stripped == "" then "/" else stripped

unfoldable pub normalize_upstream_path : String → String
normalize_upstream_path path =
    let normalized = stripped_path path (strip_prefix "/v1" path) in
    if normalized == "/chat/completions/stream" then "/chat/completions" else normalized

module _ (serde : Serde) where
  unfoldable pub is_streaming_request : String → String → Bool
  is_streaming_request body path =
      if path == "/v1/chat/completions/stream"
      then true
      else if not (path == "/v1/chat/completions")
      then false
      else unwrap_or
          (and_then (to_option (serde.from_slice body))
            (λ v. and_then (serde.get "stream" v) (λ s. serde.as_bool s)))
          false

strip_prefix-append :
    (p q s : String) → strip_prefix (p +++ q) s ≡ and_then (strip_prefix p s) (strip_prefix q)
unfolding strip_prefix and_then
strip_prefix-append String.[] q s = rw nil-append refl
strip_prefix-append (String.◌∷◌ c p) q String.[] = rw cons-append refl
strip_prefix-append (String.◌∷◌ c p) q (String.◌∷◌ d s) =
    rw cons-append (ground (arith, strip_prefix-append p q s))

slash : strip_prefix "/v1" "/" ≡ none
unfolding strip_prefix
slash = refl

chat : strip_prefix "/v1" "/chat/completions" ≡ none
unfolding strip_prefix
chat = refl

module _ (path name rest : String) (p : strip_prefix "/v1" name ≡ some rest) where
  other_prefix : (s : String) → strip_prefix "/v1" s ≡ none → s ≢ name
  other_prefix s h e = ground (arith, p, h, ap (strip_prefix "/v1") e)

  stripped_path-ne :
      strip_prefix "/v1/v1" path ≡ none → stripped_path path (strip_prefix "/v1" path) ≢ name
  unfolding stripped_path and_then
  stripped_path-ne h e =
      let a : strip_prefix "/v1/v1" path ≡ and_then (strip_prefix "/v1" path) (strip_prefix "/v1") =
        strip_prefix-append "/v1" "/v1" path in
      elim (Option-cases (strip_prefix "/v1" path)) [
        | inl n ↦ other_prefix path n (ground (arith, n, e))
        | inr (t, n) ↦ elim (Bool-cases (t == "")) [
          | inl b ↦ other_prefix "/" slash (ground (arith, n, e, b))
          | inr b ↦ other_prefix t (ground (arith, n, a, h)) (ground (arith, n, e, b))
        ]
      ]

  normalize_upstream_path-ne :
      strip_prefix "/v1/v1" path ≡ none → normalize_upstream_path path ≢ name
  unfolding normalize_upstream_path
  normalize_upstream_path-ne h e =
      let other = stripped_path-ne h in
      elim (Bool-cases
        (stripped_path path (strip_prefix "/v1" path) == "/chat/completions/stream")) [
          | inl b ↦ other_prefix "/chat/completions" chat (ground (arith, b, e))
          | inr b ↦ other (ground (arith, b, e))
        ]

-- No request counts as a streaming one once its path is normalized for the upstream, whatever its
-- body says, unless the path begins with "/v1/v1".
pub is_streaming_request-normalize :
    (serde : Serde) (body path : String)
    → strip_prefix "/v1/v1" path ≡ none
    → is_streaming_request serde body (normalize_upstream_path path) ≡ false
unfolding is_streaming_request strip_prefix
is_streaming_request-normalize serde body path h =
    let n = normalize_upstream_path path in
    let a : (n == "/v1/chat/completions/stream") ≡ false = beq_ne n "/v1/chat/completions/stream" (
      normalize_upstream_path-ne path "/v1/chat/completions/stream" "/chat/completions/stream" refl
        h) in
    let b : (n == "/v1/chat/completions") ≡ false =
      beq_ne n "/v1/chat/completions"
        (normalize_upstream_path-ne path "/v1/chat/completions" "/chat/completions" refl h) in
    rw (a, b) refl
