-- ===== src/Api/ApiKeys/Update.antt =====
-- update_api_key of crates/zorch-api/src/routes/admin/api_keys.rs: a statement with a placeholder for
-- each field that is given, and the arguments, which are bound one after another.
pub mod Placeholders
pub mod Window
use zorch.Prelude.{
  ℕ, suc, Bool, true, false, String, Option, none, some, List, [], ◌∷◌, ◌++◌, is_empty,
  if◌then◌else◌,
}
use zorch.Prelude.Int.{ℤ, as_u8}
use zorch.Shared.Float.{F64, Fpu}
use zorch.Shared.Errors.{
  Result, ok, err, AppError, Message, text, bad_request, database, Reply, got, failed, map_err,
}
use zorch.Shared.Action.{Action, lift, raise, pure, call, ◌>>=◌, ◌>>◌}
use zorch.Shared.Sql.{
  Cell, uuid, words, int, json, maybe_words, maybe_int, maybe_float, texts, maybe_texts,
}
use zorch.Api.ApiKeys.{
  ApiKeyTag, validate_tags, validate_access_window, check_key_limits, and_check,
  UpdateApiKeyRequest,
}
use zorch.Api.ApiKeys.Store.{Keys, parsed_id, affected, fetch_updated, db_error}

-- The columns with their placeholders, and `param_idx`, which stays below 256.
abbrev pub Sets : Type 0
Sets = List (String × ℕ) × ℕ

unfoldable pub add_set : {A : Type 0} → Option A → String → Sets → Sets
add_set none column s = s
add_set (some a) column (sets, param_idx) = (sets ++ (column, param_idx) ∷ [], suc param_idx)

unfoldable pub all_sets : UpdateApiKeyRequest → Sets
all_sets req = add_set req.allowed_models "allowed_models" (
    add_set req.max_spend_usd "max_spend_usd" (
      add_set req.requests_per_day "requests_per_day" (
        add_set req.requests_per_minute "requests_per_minute" (
          add_set req.window_timezone "window_timezone" (
            add_set req.allowed_hours_end "allowed_hours_end" (
              add_set req.allowed_hours_start "allowed_hours_start" (
                add_set req.tags "tags"
                  (add_set req.scopes "scopes" (add_set req.name "name" ([], 1))))))))))

-- The placeholder of the id is `param_idx`.
unfoldable pub build_update_sql : UpdateApiKeyRequest → Result Sets
build_update_sql req =
    if is_empty (all_sets req).0
    then err (bad_request (text "No fields to update" ∷ []))
    else ok (all_sets req)

unfoldable pub bind_if :
    {Json A : Type 0} → Option A → (A → Cell Json) → List (Cell Json) → List (Cell Json)
bind_if none cell query = query
bind_if (some a) cell query = query ++ cell a ∷ []

unfoldable pub all_binds :
    {Json : Type 0} → (List ApiKeyTag → Json) → UpdateApiKeyRequest → List (Cell Json)
all_binds tags_json req = bind_if req.allowed_models maybe_texts (
    bind_if req.max_spend_usd maybe_float (
      bind_if req.requests_per_day maybe_int (
        bind_if req.requests_per_minute maybe_int (
          bind_if req.window_timezone maybe_words (
            bind_if req.allowed_hours_end maybe_int (
              bind_if req.allowed_hours_start maybe_int (
                bind_if req.tags (λ tags. json (tags_json tags))
                  (bind_if req.scopes texts (bind_if req.name words [])))))))))

unfoldable pub flatten : {A : Type 0} → Option (Option A) → Option A
flatten none = none
flatten (some o) = o

-- `map(|h| h as u8)`
unfoldable pub hour_of : Option ℤ → Option ℕ
hour_of none = none
hour_of (some h) = some (as_u8 h)

unfoldable pub check_new_tags : Option (List ApiKeyTag) → Result (Unit {0})
check_new_tags none = ok tt
check_new_tags (some tags) = validate_tags tags

-- The window is tested if both hours are in the request.
unfoldable pub check_new_window :
    (String → Bool) → Option (Option ℤ) → Option (Option ℤ) → Option String → Result (Unit {0})
check_new_window is_tz (some start) (some end) tz =
    validate_access_window is_tz (hour_of start) (hour_of end) tz
check_new_window is_tz none end tz = ok tt
check_new_window is_tz (some start) none tz = ok tt

module _ {Json Key W : Type 0} (keys : Keys Json Key W) where
  unfoldable pub check_update : UpdateApiKeyRequest → Result (Unit {0})
  check_update req = and_check (check_new_tags req.tags) (
      and_check
        (check_new_window keys.is_tz req.allowed_hours_start req.allowed_hours_end
          (flatten req.window_timezone))
        (check_key_limits keys.fpu (flatten req.requests_per_minute) (flatten req.requests_per_day)
          (flatten req.max_spend_usd) (flatten req.allowed_models)))

  unfoldable pub update_api_key : String → UpdateApiKeyRequest → Action W Key
  update_api_key key_id req = do
    id ← lift (parsed_id keys key_id)
    lift (check_update req)
    sql ← lift (build_update_sql req)
    rows ←
        call (db_error keys "Failed to update API key: ")
          (keys.update_api_key sql.0 sql.1 (all_binds keys.tags_json req ++ uuid id ∷ []))
    lift (affected keys rows)
    fetch_updated keys id
