-- ===== src/Api/ApiKeys.antt =====
-- crates/zorch-api/src/routes/admin/api_keys.rs, and validate_tags of
-- crates/zorch-shared/src/types.rs. The database is in the state `W`; the texts of the errors of
-- validate_tags are the messages of the validation errors that every caller makes of them.
pub mod Validation
pub mod Store
pub mod Update
mod Examples
use zorch.Prelude.{
  ℕ, ◌+◌, ◌-◌, suc, Bool, true, false, not, ◌&&◌, ◌||◌, String, Option, none, some, List, [], ◌∷◌,
  ◌++◌, any, leb, ltb, nat_beq, length, is_empty, if◌then◌else◌,
}
use zorch.Prelude.Int.{ℤ, pos, int_leb, as_u8}
use zorch.Prelude.Classes.{◌==◌, string_eq}
use zorch.Shared.Text.{◌+++◌}
use zorch.Shared.Lines.{trim, byte_len, all_chars}
use zorch.Shared.Float.{F64, Fpu, f64_zero, f64_million}
use zorch.Shared.Errors.{
  Result, ok, err, AppError, Message, text, num, validation, bad_request, not_found, internal,
  database, Reply, got, failed, map_err,
}
use zorch.Shared.Action.{Action, lift, raise, pure, call, ◌>>=◌, ◌>>◌}
use zorch.Shared.Sql.{
  Cell, uuid, words, int, float, json, maybe_words, maybe_int, maybe_float, texts, maybe_texts,
}

pub record ApiKeyTag : Type 0 where
  pub key : String
  pub value : String

abbrev invalid : {A : Type 0} → Message → Result A
invalid m = err (validation m)

unfoldable pub key_char : ℕ → Bool
key_char n = (leb 97 n && leb n 122) || (leb 48 n && leb n 57) || nat_beq n 95 || nat_beq n 45

unfoldable pub check_tag : ApiKeyTag → Result (Unit {0})
check_tag tag =
    if tag.key == ""
    then invalid (text "Tag key must not be empty" ∷ [])
    else if ltb 32 (byte_len tag.key)
    then invalid (text "Tag key too long: '" ∷ text tag.key ∷ text "' (max 32 chars)" ∷ [])
    else if not (all_chars key_char tag.key)
    then invalid (
        text "Tag key contains invalid characters: '"
        ∷ text tag.key
        ∷ text "' (only lowercase a-z, 0-9, _, -)"
        ∷ [])
    else if tag.value == ""
    then invalid (text "Tag value must not be empty for key '" ∷ text tag.key ∷ text "'" ∷ [])
    else if ltb 128 (byte_len tag.value)
    then invalid
        (text "Tag value too long for key '" ∷ text tag.key ∷ text "' (max 128 chars)" ∷ [])
    else ok tt

-- What follows a check.
unfoldable pub and_check : {A : Type 0} → Result (Unit {0}) → Result A → Result A
and_check (ok u) next = next
and_check (err e) next = err e

-- `seen_keys` as the list of its keys
unfoldable pub check_tags : List String → List ApiKeyTag → Result (Unit {0})
check_tags seen_keys [] = ok tt
check_tags seen_keys (tag ∷ tags) =
    let rest = check_tags (tag.key ∷ seen_keys) tags in
    and_check (check_tag tag) (
      if any (λ k. k == tag.key) seen_keys
      then invalid (text "Duplicate tag key: '" ∷ text tag.key ∷ text "'" ∷ [])
      else rest)

unfoldable pub validate_tags : List ApiKeyTag → Result (Unit {0})
validate_tags tags =
    if ltb 16 (length tags)
    then invalid (text "Too many tags: " ∷ num (length tags) ∷ text " (max 16)" ∷ [])
    else check_tags [] tags

-- `is_tz` says whether a text is parsed by `chrono_tz::Tz`.
unfoldable pub validate_access_window :
    (String → Bool) → Option ℕ → Option ℕ → Option String → Result (Unit {0})
validate_access_window is_tz (some s) (some e) tz =
    if ltb 23 s || ltb 23 e
    then invalid (text "Access window hours must be 0-23" ∷ [])
    else elim tz [
      | none ↦ ok tt
      | some name ↦
          if is_tz name then ok tt else invalid (text "Invalid timezone: " ∷ text name ∷ [])
    ]
validate_access_window is_tz (some s) none tz =
    invalid (text "Both allowed_hours_start and allowed_hours_end must be set together" ∷ [])
validate_access_window is_tz none (some e) tz =
    invalid (text "Both allowed_hours_start and allowed_hours_end must be set together" ∷ [])
validate_access_window is_tz none none none = ok tt
validate_access_window is_tz none none (some name) =
    invalid (text "window_timezone requires both allowed_hours_start and allowed_hours_end" ∷ [])

unfoldable pub check_range : ℕ → String → Option ℤ → Result (Unit {0})
check_range max message none = ok tt
check_range max message (some v) =
    if int_leb (pos 1) v && int_leb v (pos max) then ok tt else invalid (text message ∷ [])

unfoldable pub check_spend_limit : Fpu → Option F64 → Result (Unit {0})
check_spend_limit fpu none = ok tt
check_spend_limit fpu (some budget) =
    if fpu.le f64_zero budget && fpu.le budget f64_million
    then ok tt
    else invalid (text "max_spend_usd must be between 0 and 1,000,000" ∷ [])

unfoldable pub check_names : List String → Result (Unit {0})
check_names [] = ok tt
check_names (m ∷ ms) =
    let rest = check_names ms in
    if m == "" || ltb 128 (byte_len m)
    then invalid (text "Each allowed model must be 1-128 characters" ∷ [])
    else rest

unfoldable pub check_allowed : Option (List String) → Result (Unit {0})
check_allowed none = ok tt
check_allowed (some models) =
    if ltb 128 (length models)
    then invalid (text "allowed_models must not exceed 128 entries" ∷ [])
    else check_names models

unfoldable pub check_key_limits :
    Fpu → Option ℤ → Option ℤ → Option F64 → Option (List String) → Result (Unit {0})
check_key_limits fpu rpm rpd budget models =
    and_check (check_range 1000000 "requests_per_minute must be between 1 and 1,000,000" rpm) (
      and_check (check_range 10000000 "requests_per_day must be between 1 and 10,000,000" rpd)
        (and_check (check_spend_limit fpu budget) (check_allowed models)))

pub record CreateApiKeyRequest : Type 0 where
  pub name : String
  pub scopes : List String
  pub expires_in_days : Option ℤ  -- i64
  pub tags : List ApiKeyTag
  pub allowed_hours_start : Option ℕ  -- u8
  pub allowed_hours_end : Option ℕ
  pub window_timezone : Option String
  pub requests_per_minute : Option ℤ  -- i32
  pub requests_per_day : Option ℤ
  pub max_spend_usd : Option F64
  pub allowed_models : Option (List String)

unfoldable pub validate_governance : Fpu → CreateApiKeyRequest → Result (Unit {0})
validate_governance fpu req =
    check_key_limits fpu req.requests_per_minute req.requests_per_day req.max_spend_usd
      req.allowed_models

-- The outer option is whether the field is in the request.
pub record UpdateApiKeyRequest : Type 0 where
  pub name : Option String
  pub scopes : Option (List String)
  pub tags : Option (List ApiKeyTag)
  pub allowed_hours_start : Option (Option ℤ)  -- i16
  pub allowed_hours_end : Option (Option ℤ)
  pub window_timezone : Option (Option String)
  pub requests_per_minute : Option (Option ℤ)  -- i32
  pub requests_per_day : Option (Option ℤ)
  pub max_spend_usd : Option (Option F64)
  pub allowed_models : Option (Option (List String))
