-- ===== src/Providers/Proxy/Headers.antt =====
-- Which headers go upstream: crates/zorch-providers/src/proxy.rs, the header part of proxy_request.
use zorch.Prelude.{
  Bool, String, Option, none, some, List, [], ◌∷◌, ◌≡◌, refl, ap, ◌∙◌, any, arith, if◌then◌else◌,
}
use zorch.Prelude.Classes.{◌==◌, string_eq}
use zorch.Prelude.Map.{lookup}
use zorch.Providers.AuthHeaders.{HeaderMap, Http, HttpLaws, is_some}
use zorch.Providers.Proxy.{ProxyProvider, remove_all, fill_in, hop_headers, outgoing}

-- The first of two values that is there.
unfoldable pub or_else : Option String → Option String → Option String
or_else none b = b
or_else (some a) b = some a

unfoldable pub is_hop : String → Bool
is_hop name = any (λ k. k == name) hop_headers

module _ (http : Http) (laws : HttpLaws http) where
  lookup-remove_all :
      (j : String) (keys : List String) (h : HeaderMap)
      → lookup j (remove_all http keys h) ≡ (if any (λ k. k == j) keys then none else lookup j h)
  unfolding remove_all
  lookup-remove_all j [] h = refl
  lookup-remove_all j (k ∷ keys) h =
      ground
        (arith, lookup-remove_all j keys (http.remove_header k h), laws.get-remove_header k j h)

  fill_in_step :
      (j k v : String) (h : HeaderMap)
      → lookup j (if http.contains_key h k then h else http.insert_header k v h)
        ≡ or_else (lookup j h) (if k == j then some v else none)
  unfolding is_some or_else
  fill_in_step j k v h =
      ground
        (arith, laws.contains_key-get h k, laws.get-insert_header k j v h, string_eq.beq_iff k j)

  or_else_assoc :
      (a b : Option String) (t : Bool) (v : String)
      → or_else (or_else a (if t then some v else none)) b ≡ or_else a (if t then some v else b)
  unfolding or_else
  or_else_assoc a b t v = ground arith

  lookup-fill_in :
      (j : String) (p h : HeaderMap)
      → lookup j (fill_in http p h) ≡ or_else (lookup j h) (lookup j p)
  unfolding fill_in lookup or_else
  lookup-fill_in j [] h = ground arith
  lookup-fill_in j ((k, v) ∷ p) h =
      lookup-fill_in j p (if http.contains_key h k then h else http.insert_header k v h)
      ∙ ap (λ x. or_else x (lookup j p)) (fill_in_step j k v h)
      ∙ or_else_assoc (lookup j h) (lookup j p) (k == j) v

  -- A header that is sent upstream: of the five hop headers only what the key's headers hold, of
  -- all others the client's value, and the value of the key's headers where the client sent none.
  pub lookup-outgoing :
      (provider : ProxyProvider) (method path : String) (headers : HeaderMap) (body : String)
      (provider_headers : HeaderMap) (name : String)
      → lookup name (outgoing http provider method path headers body provider_headers).headers ≡ (
          if is_hop name
          then lookup name provider_headers
          else or_else (lookup name headers) (lookup name provider_headers))
  unfolding outgoing is_hop or_else
  lookup-outgoing provider method path headers body provider_headers name = ground (
    arith,
    lookup-fill_in name provider_headers (remove_all http hop_headers headers),
    lookup-remove_all name hop_headers headers,
  )
