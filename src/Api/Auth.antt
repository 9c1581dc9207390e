-- ===== src/Api/Auth.antt =====
-- crates/zorch-api/src/middleware/auth.rs. The digest of a token, the text's bytes, the query of
-- `api_keys` and the billing row that a refusal leaves are the database's and the libraries':
-- parameters of the model. The time is in seconds.
pub mod Secret
pub mod Access
mod Examples
use zorch.Prelude.{
  ℕ, ◌≡◌, Bool, true, false, not, ◌&&◌, ◌||◌, String, Option, none, some, List, [], ◌∷◌, any, ltb,
  unwrap_or, is_empty, if◌then◌else◌,
}
use zorch.Prelude.Int.{ℤ, as_u8}
use zorch.Prelude.Classes.{◌==◌, string_eq}
use zorch.Shared.Errors.{
  Result, ok, err, Reply, got, failed, Message, AppError, auth, database, access_window, text, num,
}
use zorch.Gateway.AccessWindow.{AccessWindow, Timezones, is_within_window_at}
use zorch.Api.Request.{strip_prefix}
use zorch.Api.Auth.Secret.{constant_time_eq}

-- The columns of the row (crates/zorch-db/src/models.rs) that the middleware uses.
pub record ApiKey : Type 0 where
  pub id : ℕ
  pub organization_id : ℕ
  pub scopes : List String
  pub expires_at : Option ℕ
  pub is_active : Bool
  pub tags : String
  pub allowed_hours_start : Option ℤ  -- i16
  pub allowed_hours_end : Option ℤ  -- i16
  pub window_timezone : Option String

abbrev pub as_hour : Option ℤ → Option ℕ
as_hour none = none
as_hour (some h) = some (as_u8 h)

abbrev pub is_admin : ApiKey → Bool
is_admin api_key = any (λ s. s == "admin") api_key.scopes

abbrev pub window_of_key : ApiKey → AccessWindow
window_of_key api_key = record {
  allowed_hours_start = as_hour api_key.allowed_hours_start;
  allowed_hours_end = as_hour api_key.allowed_hours_end;
  window_timezone = api_key.window_timezone;
}

unfoldable pub refuse_outside : AccessWindow → Result Bool → Result (Unit {0})
refuse_outside window (err e) = err e
refuse_outside window (ok true) = ok tt
refuse_outside window (ok false) = err (
    access_window (unwrap_or window.allowed_hours_start 0) (unwrap_or window.allowed_hours_end 0)
      (unwrap_or window.window_timezone "UTC"))

unfoldable pub access_window_check : Timezones → ApiKey → ℕ → Result (Unit {0})
access_window_check zones api_key now =
    if is_admin api_key
    then ok tt
    else refuse_outside (window_of_key api_key)
        (is_within_window_at zones (window_of_key api_key) now)

-- The parts of the request that are read; a header that is no text is `none`.
pub record Incoming : Type 0 where
  pub path : String
  pub admin_secret : Option String
  pub authorization : Option String

-- What the handler behind finds in the request's extensions.
pub data Passed : Type 0 where
  anonymous : Passed
  admin_key : (api_key_id org_id : ℕ) → Passed
  client : ApiKey → Passed

pub record Backing (W : Type 0) : Type 0 where
  pub bytes : String → List ℕ
  pub hash_token : String → String
  pub find_key : String → W → Reply (Option ApiKey)
  pub record_refusal : ApiKey → Message → W → W

abbrev pub is_public : String → Bool
is_public path = path == "/health" || (path == "/health/ready" || path == "/api-docs")

unfoldable pub starts_with : String → String → Bool
starts_with prefix s = elim (strip_prefix prefix s) [ none ↦ false | some rest ↦ true ]

abbrev pub is_admin_path : String → Bool
is_admin_path path = starts_with "/admin/" path || starts_with "/api/v1/admin/" path

abbrev pub is_expired : Option ℕ → ℕ → Bool
is_expired none now = false
is_expired (some expires_at) now = ltb expires_at now

module _ {W : Type 0} (backing : Backing W) (zones : Timezones) where
  unfoldable pub secret_matches : String → Option String → Bool
  secret_matches cfg_secret none = false
  secret_matches cfg_secret (some provided) =
      not (cfg_secret == "") && constant_time_eq (backing.bytes provided) (backing.bytes cfg_secret)

  admin_denied : Result Passed
  admin_denied = err (auth (text "Admin access denied" ∷ []))

  unfoldable pub admin_row : ℕ → Reply (Option ApiKey) → Result Passed
  unfolding admin_denied
  admin_row now (failed e) = err (database (text e ∷ []))
  admin_row now (got none) = admin_denied
  admin_row now (got (some api_key)) =
      if not api_key.is_active
      then admin_denied
      else if is_expired api_key.expires_at now
      then err (auth (text "API key has expired" ∷ []))
      else if is_admin api_key
      then ok (admin_key api_key.id api_key.organization_id)
      else admin_denied

  unfoldable pub admin_token : ℕ → Option String → W → Result Passed
  unfolding admin_denied
  admin_token now none w = admin_denied
  admin_token now (some auth_header) w =
      let token = unwrap_or (strip_prefix "Bearer " auth_header) auth_header in
      admin_row now (backing.find_key (backing.hash_token token) w)

  -- The row of a refusal that is due to the hours; other refusals leave none.
  unfoldable pub conclude_window : ApiKey → Result (Unit {0}) → W → Result Passed × W
  conclude_window api_key (ok u) w = (ok (client api_key), w)
  conclude_window api_key (err (access_window start end tz)) w = (
    err (access_window start end tz),
    backing.record_refusal api_key
        (text "outside_allowed_hours: window "
          ∷ num start
          ∷ text ":00"
          ∷ text "-"
          ∷ num end
          ∷ text ":00"
          ∷ text " "
          ∷ text tz
          ∷ [])
        w,
  )
  conclude_window api_key (err e) w = (err e, w)

  unfoldable pub client_row : ℕ → Reply (Option ApiKey) → W → Result Passed × W
  client_row now (failed e) w = (err (database (text e ∷ [])), w)
  client_row now (got none) w = (err (auth (text "Invalid or expired API key" ∷ [])), w)
  client_row now (got (some api_key)) w =
      if not api_key.is_active
      then (err (auth (text "API key is inactive" ∷ [])), w)
      else if is_expired api_key.expires_at now
      then (err (auth (text "API key has expired" ∷ [])), w)
      else conclude_window api_key (access_window_check zones api_key now) w

  unfoldable pub client_token : ℕ → Option String → W → Result Passed × W
  client_token now none w = (err (auth (text "Invalid Authorization format" ∷ [])), w)
  client_token now (some token) w = client_row now (backing.find_key (backing.hash_token token) w) w

  unfoldable pub client_header : ℕ → Option String → W → Result Passed × W
  client_header now none w = (err (auth (text "Missing Authorization header" ∷ [])), w)
  client_header now (some auth_header) w = client_token now (strip_prefix "Bearer " auth_header) w

  -- What reaches the next handler, or the refusal.
  unfoldable pub middleware : String → ℕ → Incoming → W → Result Passed × W
  middleware cfg_secret now req w =
      if is_public req.path
      then (ok anonymous, w)
      else if is_admin_path req.path
      then (if secret_matches cfg_secret req.admin_secret
          then (ok anonymous, w)
          else (admin_token now req.authorization w, w))
      else client_header now req.authorization w
