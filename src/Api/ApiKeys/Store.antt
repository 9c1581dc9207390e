-- ===== src/Api/ApiKeys/Store.antt =====
-- The handlers of crates/zorch-api/src/routes/admin/api_keys.rs that write keys.
use zorch.Prelude.{ℕ, Bool, String, Option, none, some, List, [], ◌∷◌, nat_beq, if◌then◌else◌}
use zorch.Prelude.Int.{ℤ, pos}
use zorch.Prelude.Classes.{◌==◌, string_eq}
use zorch.Shared.Text.{◌+++◌}
use zorch.Shared.Lines.{trim}
use zorch.Shared.Float.{Fpu}
use zorch.Shared.Errors.{
  Result, ok, err, AppError, text, bad_request, not_found, internal, database, Reply, map_err,
}
use zorch.Shared.Action.{Action, lift, pure, call, ◌>>=◌, ◌>>◌}
use zorch.Shared.Sql.{
  Cell, uuid, words, json, maybe_words, maybe_int, maybe_float, texts, maybe_texts,
}
use zorch.Api.ApiKeys.{
  ApiKeyTag, validate_tags, validate_access_window, validate_governance, and_check,
  CreateApiKeyRequest,
}

-- The database, and what else the handlers take from outside. `Key` is a row as it is answered.
pub record Keys (Json Key W : Type 0) : Type 0 where
  pub fpu : Fpu
  pub is_tz : String → Bool
  pub parse_uuid : String → Option ℕ
  pub tags_json : List ApiKeyTag → Json
  -- The plaintext and its hash
  pub generate_api_key : W → (String × String) × W
  pub new_uuid : W → ℕ × W
  -- Utc::now() and some days
  pub days_from_now : ℤ → W → ℕ
  pub begin : W → Reply (Unit {0}) × W
  pub commit : W → Reply (Unit {0}) × W
  -- A transaction that is dropped without its commit.
  pub rollback : W → W
  pub insert_organization : ℕ → String → W → Reply (Unit {0}) × W
  -- The row that is returned, and its id
  pub insert_api_key : List (Cell Json) → W → Reply (Reply ℕ) × W
  -- The columns with their placeholders, the placeholder of the id, the arguments; the rows affected
  pub update_api_key : List (String × ℕ) → ℕ → List (Cell Json) → W → Reply ℕ × W
  pub deactivate : ℕ → W → Reply ℕ × W
  pub select_api_key : ℕ → W → Reply (List Key) × W

-- The answer to a creation: the plaintext, its hash, the id and the name.
pub record Created : Type 0 where
  pub key : String
  pub hash : String
  pub id : ℕ
  pub name : String

abbrev default_scopes : List String → List String
default_scopes [] = "default" ∷ []
default_scopes (s ∷ ss) = s ∷ ss

abbrev as_int : Option ℕ → Option ℤ
as_int none = none
as_int (some n) = some (pos n)

module _ {Json Key W : Type 0} (keys : Keys Json Key W) where
  abbrev pub db_error : String → String → AppError
  db_error what e = database (text what ∷ text e ∷ [])

  -- The checks of a creation.
  unfoldable pub check_create : CreateApiKeyRequest → Result (Unit {0})
  check_create req =
      if trim req.name == ""
      then err (bad_request (text "name is required" ∷ []))
      else and_check (validate_tags req.tags) (
          and_check (validate_governance keys.fpu req) (
            validate_access_window keys.is_tz req.allowed_hours_start req.allowed_hours_end
              req.window_timezone))

  unfoldable pub expiry : Option ℤ → W → Option ℕ
  expiry none w = none
  expiry (some days) w = some (keys.days_from_now days w)

  unfoldable pub key_cells : ℕ → String → Option ℕ → CreateApiKeyRequest → List (Cell Json)
  key_cells org_id key_hash expires_at req =
      uuid org_id
      ∷ words (trim req.name)
      ∷ words key_hash
      ∷ texts (default_scopes req.scopes)
      ∷ maybe_int (as_int expires_at)
      ∷ json (keys.tags_json req.tags)
      ∷ maybe_int (as_int req.allowed_hours_start)
      ∷ maybe_int (as_int req.allowed_hours_end)
      ∷ maybe_words req.window_timezone
      ∷ maybe_int req.requests_per_minute
      ∷ maybe_int req.requests_per_day
      ∷ maybe_float req.max_spend_usd
      ∷ maybe_texts req.allowed_models
      ∷ []

  -- An error drops the transaction.
  unfoldable pub or_rollback : {A : Type 0} → Result A × W → Result A × W
  or_rollback (ok a, w) = (ok a, w)
  or_rollback (err e, w) = (err e, keys.rollback w)

  unfoldable pub in_transaction : ℕ → String → List (Cell Json) → Action W ℕ
  in_transaction org_id name cells = do
    call (db_error "Failed to create organization: ")
        (keys.insert_organization org_id ("Org for " +++ name))
    row ← call (db_error "Failed to create API key: ") (keys.insert_api_key cells)
    id ←
        lift (map_err (λ e. internal (text "Failed to get created API key id: " ∷ text e ∷ [])) row)
    call (db_error "Failed to commit API key transaction: ") keys.commit
    pure id

  unfoldable pub create_api_key : CreateApiKeyRequest → Action W Created
  create_api_key req = do
    lift (check_create req)
    secrets ← λ w. let (s, w') = keys.generate_api_key w in (ok s, w')
    expires_at ← λ w. (ok (expiry req.expires_in_days w), w)
    org_id ← λ w. let (o, w') = keys.new_uuid w in (ok o, w')
    call (db_error "Failed to begin transaction: ") keys.begin
    id ← λ w.
        or_rollback
          (in_transaction org_id (trim req.name) (key_cells org_id secrets.1 expires_at req) w)
    pure (record { key = secrets.0; hash = secrets.1; id = id; name = trim req.name })

  unfoldable pub parsed_id : String → Result ℕ
  parsed_id key_id = elim (keys.parse_uuid key_id) [
    | none ↦ err (bad_request (text "Invalid UUID format" ∷ []))
    | some id ↦ ok id
  ]

  unfoldable pub first_key : List Key → Result Key
  first_key [] = err (not_found (text "API key not found after update" ∷ []))
  first_key (k ∷ ks) = ok k

  unfoldable pub affected : ℕ → Result (Unit {0})
  affected rows = if nat_beq rows 0 then err (not_found (text "API key not found" ∷ [])) else ok tt

  unfoldable pub fetch_updated : ℕ → Action W Key
  fetch_updated id = do
    found ← call (λ e. database (text e ∷ [])) (keys.select_api_key id)
    lift (first_key found)

  unfoldable pub replace_api_key_tags : String → List ApiKeyTag → Action W Key
  replace_api_key_tags key_id tags = do
    id ← lift (parsed_id key_id)
    lift (validate_tags tags)
    rows ←
        call (db_error "Failed to update tags: ")
          (keys.update_api_key (("tags", 1) ∷ []) 2 (json (keys.tags_json tags) ∷ uuid id ∷ []))
    lift (affected rows)
    fetch_updated id

  unfoldable pub revoke_api_key : String → Action W (Unit {0})
  revoke_api_key key_id = do
    id ← lift (parsed_id key_id)
    rows ← call (db_error "Failed to revoke API key: ") (keys.deactivate id)
    lift (affected rows)
