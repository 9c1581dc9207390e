-- ===== src/Cache/StickyTargetKey.antt =====
-- crates/zorch-cache/src/sticky_target_key_cache.rs. The key of a client is the text of its id; an
-- id of an upstream key is a number, which the uuid crate prints and parses.
use zorch.Prelude.{
  ℕ, ◌+◌, ◌-◌, ◌%◌, ◌≤◌, ◌<◌, ◌≡◌, sym, ◌∙◌, ap, String, Option, none, some, [], ◌∷◌, inl, inr,
  arith, nat_beq, if◌then◌else◌,
}
use native.Mathlib.Nat.{mod-lt}
use zorch.Shared.Errors.{ok, got, internal, text, AppError, map_err, Reply-cases}
use zorch.Shared.Text.{◌+++◌}
use zorch.Shared.Action.{Action, pure, call, ◌>>=◌, ◌>>◌}
use zorch.External.Redis.{Redis}

pub record Uuid : Type 0 where
  pub to_string : ℕ → String
  pub parse : String → Option ℕ

abbrev pub sticky_key : String → String → String
sticky_key api_key_id provider_id =
    "zorch:sticky_target_key:" +++ api_key_id +++ ":" +++ provider_id

abbrev pub rr_key : String → String → String
rr_key api_key_id provider_id = "zorch:target_key_rr:" +++ api_key_id +++ ":" +++ provider_id

abbrev wrap : String → String → AppError
wrap what e = internal (text what ∷ text e ∷ [])

unfoldable pub parsed : Uuid → Option String → Option ℕ
parsed uuid none = none
parsed uuid (some v) = uuid.parse v

module _ (r : Redis) (uuid : Uuid) (ttl_secs : ℕ) where
  abbrev connection : Action r.Server (Unit {0})
  connection s = (
    map_err (wrap "Failed to get Redis connection for sticky target key cache: ") (r.connect s),
    s,
  )

  -- The counter gets its deadline with its first value.
  abbrev first_deadline : ℕ → String → ℕ → Action r.Server (Unit {0})
  first_deadline now key count =
      if nat_beq count 1
      then call (wrap "Failed to set round-robin counter TTL: ") (r.expire now key ttl_secs)
      else pure tt

  unfoldable pub next_key_index : ℕ → String → String → ℕ → Action r.Server ℕ
  next_key_index now api_key_id provider_id key_count =
      let key = rr_key api_key_id provider_id in
      if nat_beq key_count 0 then pure 0 else do
        connection
        count ← call (wrap "Failed to increment target key round-robin counter: ") (r.incr now key)
        first_deadline now key count
        pure ((count - 1) % key_count)

  unfoldable pub get : ℕ → String → String → Action r.Server (Option ℕ)
  get now api_key_id provider_id = do
    connection
    value ←
        call (wrap "Failed to read sticky target key from Redis: ")
          (λ s. (r.get_text now (sticky_key api_key_id provider_id) s, s))
    pure (parsed uuid value)

  unfoldable pub set : ℕ → String → String → ℕ → Action r.Server (Unit {0})
  set now api_key_id provider_id provider_api_key_id =
      let key = sticky_key api_key_id provider_id in
      do
        connection
        call (wrap "Failed to write sticky target key to Redis: ")
            (r.set_text now key (uuid.to_string provider_api_key_id))
        call (wrap "Failed to set sticky target key TTL: ") (r.expire now key ttl_secs)

  unfoldable pub invalidate : ℕ → String → String → Action r.Server (Unit {0})
  invalidate now api_key_id provider_id = do
    connection
    call (wrap "Failed to invalidate sticky target key: ")
        (r.del now (sticky_key api_key_id provider_id))

  -- The round-robin index is one of the positions, whatever the server answered.
  pub next_key_index-lt :
      (now : ℕ) (api_key_id provider_id : String) (key_count i : ℕ) (s s' : r.Server)
      → 0 < key_count
      → next_key_index now api_key_id provider_id key_count s ≡ (ok i, s')
      → i < key_count
  unfolding next_key_index
  next_key_index-lt now api_key_id provider_id key_count i s s' p h =
      let key = rr_key api_key_id provider_id in
      elim (Reply-cases (r.incr now key s).0) [
        | inl (count, e) ↦ ground (arith, e, p, h, mod-lt (count - 1) p)
        | inr (m, e) ↦ ground (arith, e, p, h)
      ]

-- What the server holds under a key for texts, at a time.
pub record TextLaws (r : Redis) : Type 1 where
  pub text_at : r.Server → ℕ → String → Option String
  pub get_ok :
      (t : ℕ) (k : String) (s : r.Server) (v : Option String)
      → r.get_text t k s ≡ got v
      → v ≡ text_at s t k
  pub set_ok :
      (t : ℕ) (k v : String) (s : r.Server)
      → (r.set_text t k v s).0 ≡ got tt
      → text_at (r.set_text t k v s).1 t k ≡ some v
  pub expire_keeps :
      (t t' : ℕ) (k : String) (secs : ℕ) (s : r.Server)
      → (r.expire t k secs s).0 ≡ got tt
      → t ≤ t'
      → t' < t + secs
      → text_at (r.expire t k secs s).1 t' k ≡ text_at s t k

-- A mapping that was stored is read back until its time to live has run.
pub get-set :
    (r : Redis) (laws : TextLaws r) (uuid : Uuid) (ttl_secs t t' : ℕ)
    (api_key_id provider_id : String) (id : ℕ) (s s1 s2 : r.Server) (found : Option ℕ)
    → uuid.parse (uuid.to_string id) ≡ some id
    → t ≤ t'
    → t' < t + ttl_secs
    → set r uuid ttl_secs t api_key_id provider_id id s ≡ (ok tt, s1)
    → get r uuid ttl_secs t' api_key_id provider_id s1 ≡ (ok found, s2)
    → found ≡ some id
unfolding set get parsed
get-set r laws uuid ttl_secs t t' api_key_id provider_id id s s1 s2 found u p q w g =
    let key = sticky_key api_key_id provider_id in
    let v = uuid.to_string id in
    let stored = (r.set_text t key v s).1 in
    elim (Reply-cases (r.get_text t' key s1)) [
      | inl (value, e) ↦
          let wrote : (r.set_text t key v s).0 ≡ got tt = ground (arith, w) in
          let renewed : (r.expire t key ttl_secs stored).0 ≡ got tt = ground (arith, w) in
          let last : (r.expire t key ttl_secs stored).1 ≡ s1 = ground (arith, w) in
          let there : value ≡ some v =
            laws.get_ok t' key s1 value e
            ∙ ap (λ x. laws.text_at x t' key) (sym last)
            ∙ laws.expire_keeps t t' key ttl_secs stored renewed p q
            ∙ laws.set_ok t key v s wrote in
          ground (arith, g, e, there, u)
      | inr (m, e) ↦ absurd (ground (arith, e, g))
    ]
