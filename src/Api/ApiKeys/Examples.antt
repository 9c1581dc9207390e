-- ===== src/Api/ApiKeys/Examples.antt =====
-- A key that is created, and updates of it.
use zorch.Prelude.{
  ℕ, suc, ◌≤◌, ◌-◌, Bool, false, String, none, some, List, [], ◌∷◌, ◌++◌, length, get_elem?, ◌≡◌,
  refl, ◌↔◌,
}
use zorch.Prelude.Int.{pos}
use zorch.Prelude.Classes.{◌==◌, string_eq}
use zorch.Shared.Lines.{trim, trim_start, trim_end, is_whitespace, byte_len, all_chars}
use zorch.Shared.Float.{integers}
use zorch.Shared.Errors.{ok, err, got, validation, text}
use zorch.Shared.Sql.{uuid}
use zorch.Api.ApiKeys
use zorch.Api.ApiKeys.{
  ApiKeyTag, CreateApiKeyRequest, UpdateApiKeyRequest, validate_tags, validate_access_window,
}
use zorch.Api.ApiKeys.Store
use zorch.Api.ApiKeys.Store.{Keys, Created, create_api_key}
use zorch.Api.ApiKeys.Validation.{
  AreTags, AreLimits, IsWindow, validate_access_window-ok_iff, create_api_key-ok,
}
use zorch.Api.ApiKeys.Update.{check_new_window, build_update_sql, all_binds, all_sets, add_set}
use zorch.Api.ApiKeys.Update.Placeholders.{assigned, all_wanted, build_update_sql-assigns}
use zorch.Api.ApiKeys.Update.Window.{IsHourModulo, IsZone, check_new_window-wraps}

abbrev utc : String → Bool
utc name = name == "UTC"

abbrev keys : Keys String String ℕ
keys = record {
  fpu = integers;
  is_tz = utc;
  parse_uuid = λ s. some 5;
  tags_json = λ tags. "[]";
  generate_api_key = λ w. (("sk-zorch-a", "hash"), suc w);
  new_uuid = λ w. (w, suc w);
  days_from_now = λ days w. 0;
  begin = λ w. (got tt, w);
  commit = λ w. (got tt, w);
  rollback = λ w. w;
  insert_organization = λ id name w. (got tt, w);
  insert_api_key = λ cells w. (got (got 5), w);
  update_api_key = λ sets n cells w. (got 1, w);
  deactivate = λ id w. (got 1, w);
  select_api_key = λ id w. (got ("key" ∷ []), w);
}

abbrev team : List ApiKeyTag
team = record { key = "team"; value = "blue" } ∷ []

abbrev wish : CreateApiKeyRequest
wish = record {
  name = " ci ";
  scopes = [];
  expires_in_days = none;
  tags = team;
  allowed_hours_start = some 9;
  allowed_hours_end = some 17;
  window_timezone = some "UTC";
  requests_per_minute = some (pos 60);
  requests_per_day = none;
  max_spend_usd = none;
  allowed_models = some ("gpt-4" ∷ []);
}

abbrev made : Created
made = record { key = "sk-zorch-a"; hash = "hash"; id = 5; name = "ci" }

create_api_key-ok_example :
    ((trim wish.name == "") ≡ false)
    × (made.name ≡ trim wish.name)
    × (length wish.tags ≤ 16)
    × AreTags [] wish.tags
    × AreLimits integers wish.requests_per_minute wish.requests_per_day wish.max_spend_usd
        wish.allowed_models
    × IsWindow utc wish.allowed_hours_start wish.allowed_hours_end wish.window_timezone
unfolding create_api_key Store.check_create Store.expiry Store.key_cells Store.or_rollback
    Store.in_transaction trim trim_start trim_end is_whitespace byte_len all_chars
    ApiKeys.validate_tags ApiKeys.check_tags ApiKeys.check_tag ApiKeys.key_char ApiKeys.and_check
    ApiKeys.validate_governance ApiKeys.check_key_limits ApiKeys.check_range
    ApiKeys.check_spend_limit ApiKeys.check_allowed ApiKeys.check_names
    ApiKeys.validate_access_window
create_api_key-ok_example = create_api_key-ok keys wish 0 2 made refl

validate_access_window-ok_iff_example :
    (validate_access_window utc (some 9) none none ≡ ok tt) ↔ IsWindow utc (some 9) none none
validate_access_window-ok_iff_example = validate_access_window-ok_iff utc (some 9) none none

twice :
    validate_tags (record { key = "a"; value = "1" } ∷ record { key = "a"; value = "2" } ∷ [])
    ≡ err (validation (text "Duplicate tag key: '" ∷ text "a" ∷ text "'" ∷ []))
unfolding validate_tags ApiKeys.check_tags ApiKeys.check_tag ApiKeys.and_check ApiKeys.key_char
    byte_len all_chars
twice = refl

abbrev change : UpdateApiKeyRequest
change = record {
  name = none;
  scopes = none;
  tags = some team;
  allowed_hours_start = none;
  allowed_hours_end = none;
  window_timezone = none;
  requests_per_minute = some none;
  requests_per_day = none;
  max_spend_usd = none;
  allowed_models = none;
}

build_update_sql-assigns_example :
    (assigned
        (("tags", 1) ∷ ("requests_per_minute", 2) ∷ [])
        (all_binds keys.tags_json change ++ uuid 5 ∷ [])
      ≡ all_wanted keys.tags_json change)
    × (get_elem? (all_binds keys.tags_json change ++ uuid 5 ∷ []) (3 - 1) ≡ some (uuid 5))
unfolding build_update_sql all_sets add_set
build_update_sql-assigns_example =
    build_update_sql-assigns keys.tags_json change 5
      ((("tags", 1) ∷ ("requests_per_minute", 2) ∷ []), 3) refl

check_new_window-wraps_example :
    (check_new_window utc (some (some (pos 265))) (some (some (pos 529))) none ≡ ok tt)
    ↔ (IsHourModulo (pos 265) × IsHourModulo (pos 529) × IsZone utc none)
check_new_window-wraps_example = check_new_window-wraps utc (pos 265) (pos 529) none
