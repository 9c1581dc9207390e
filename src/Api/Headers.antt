-- ===== src/Api/Headers.antt =====
-- The header filters of crates/zorch-api/src/routes/v1/proxy/request.rs.
use zorch.Prelude.{
  String, Option, none, some, List, [], ◌∷◌, ◌≡◌, any, arith, Bool-cases, inl, inr, subst,
  if◌then◌else◌,
}
use zorch.Prelude.Classes.{◌==◌, string_eq, beq_refl}
use zorch.Prelude.Map.{lookup}
use zorch.Providers.AuthHeaders.{HeaderMap, Http, HttpLaws}

abbrev pub withheld_from_client : List String
withheld_from_client = "transfer-encoding" ∷ "connection" ∷ "keep-alive" ∷ "upgrade" ∷ []

abbrev pub withheld_from_upstream : List String
withheld_from_upstream =
    "host" ∷ "connection" ∷ "keep-alive" ∷ "transfer-encoding" ∷ "expect" ∷ "authorization"
    ∷ "content-length" ∷ []

-- The value of the last field with a name.
unfoldable pub last_value : String → HeaderMap → Option String → Option String
last_value name [] found = found
last_value name ((key, value) ∷ rest) found =
    last_value name rest (if key == name then some value else found)

-- `to_lowercase` is the standard library's, by the Unicode tables.
module _ (http : Http) (to_lowercase : String → String) where
  unfoldable pub copy_fields : List String → HeaderMap → HeaderMap → HeaderMap
  copy_fields excluded [] filtered = filtered
  copy_fields excluded ((key, value) ∷ rest) filtered = copy_fields excluded rest (
      if any (λ e. to_lowercase key == e) excluded
      then filtered
      else http.insert_header key value filtered)

  unfoldable pub filter_upstream_response_headers : HeaderMap → HeaderMap
  filter_upstream_response_headers headers = copy_fields withheld_from_client headers []

  unfoldable pub filter_client_headers : HeaderMap → HeaderMap
  filter_client_headers headers = copy_fields withheld_from_upstream headers []

  module _ (laws : HttpLaws http) where
    copy_step :
        (excluded : List String) (name key value : String) (filtered : HeaderMap)
        → lookup name (
            if any (λ e. to_lowercase key == e) excluded
            then filtered
            else http.insert_header key value filtered)
          ≡ (if any (λ e. to_lowercase name == e) excluded
              then lookup name filtered
              else (if key == name then some value else lookup name filtered))
    copy_step excluded name key value filtered = elim (Bool-cases (key == name)) [
      | inl e ↦
          subst
            (λ n.
              lookup n (
                if any (λ e. to_lowercase key == e) excluded
                then filtered
                else http.insert_header key value filtered)
              ≡ (if any (λ e. to_lowercase n == e) excluded
                  then lookup n filtered
                  else (if key == n then some value else lookup n filtered)))
            ((string_eq.beq_iff key name).0 e)
            (ground (arith, laws.get-insert_header key key value filtered, beq_refl key))
      | inr e ↦ ground (arith, e, laws.get-insert_header key name value filtered)
    ]

    lookup-copy_fields :
        (excluded : List String) (name : String) (headers filtered : HeaderMap)
        → lookup name (copy_fields excluded headers filtered) ≡ (
            if any (λ e. to_lowercase name == e) excluded
            then lookup name filtered
            else last_value name headers (lookup name filtered))
    unfolding copy_fields last_value
    lookup-copy_fields excluded name [] filtered = ground arith
    lookup-copy_fields excluded name ((key, value) ∷ rest) filtered = ground (
      arith,
      copy_step excluded name key value filtered,
      lookup-copy_fields excluded name rest (
          if any (λ e. to_lowercase key == e) excluded
          then filtered
          else http.insert_header key value filtered),
    )

    -- Of the client's headers, seven names are left out when they are sent on, whatever their
    -- capitals; every other name keeps one value, the last.
    pub lookup-filter_client_headers :
        (headers : HeaderMap) (name : String)
        → lookup name (filter_client_headers headers) ≡ (
            if any (λ e. to_lowercase name == e) withheld_from_upstream
            then none
            else last_value name headers none)
    unfolding filter_client_headers lookup
    lookup-filter_client_headers headers name =
        lookup-copy_fields withheld_from_upstream name headers []

    -- Of the upstream's headers, four names are left out of the answer, whatever their capitals;
    -- every other name keeps one value, the last.
    pub lookup-filter_upstream_response_headers :
        (headers : HeaderMap) (name : String)
        → lookup name (filter_upstream_response_headers headers) ≡ (
            if any (λ e. to_lowercase name == e) withheld_from_client
            then none
            else last_value name headers none)
    unfolding filter_upstream_response_headers lookup
    lookup-filter_upstream_response_headers headers name =
        lookup-copy_fields withheld_from_client name headers []
