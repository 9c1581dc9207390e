-- ===== src/Api/Auth/Examples.antt =====
-- Requests with concrete keys.
use zorch.Prelude.{ℕ, ◌%◌, ◌≡◌, ◌↔◌, ◌⊎◌, refl, true, none, some, List, [], ◌∷◌, arith}
use zorch.Prelude.Int.{pos}
use zorch.Prelude.Classes.{string_eq}
use zorch.Shared.Errors.{got}
use zorch.Gateway.AccessWindow.{
  Timezones, is_within_window_at, bounded, hours_window, in_zone, within,
}
use zorch.Api.Request.{strip_prefix}
use zorch.Api.Auth.{
  ApiKey, Incoming, anonymous, client, Backing, access_window_check, refuse_outside, starts_with,
  secret_matches, conclude_window, client_row, client_token, client_header, middleware,
}
use zorch.Api.Auth.Secret.{bit_xor, bit_or, differences, constant_time_eq, constant_time_eq_iff}
use zorch.Api.Auth.Access.{
  IsClientKey, ShowsSecret, IsAdminToken, middleware-client, middleware-admin,
}

-- Every zone is that of Greenwich; the time is in hours.
abbrev greenwich : Timezones
greenwich = record { Tz = Unit; parse = λ name. some tt; hour = λ tz now. now % 24 }

abbrev office : ApiKey
office = record {
  id = 1;
  organization_id = 2;
  scopes = "default" ∷ [];
  expires_at = some 1000;
  is_active = true;
  tags = "[]";
  allowed_hours_start = some (pos 9);
  allowed_hours_end = some (pos 18);
  window_timezone = none;
}

abbrev backing : Backing Unit
backing = record {
  bytes = λ s. 97 ∷ 98 ∷ [];
  hash_token = λ token. token;
  find_key = λ hash w. got (some office);
  record_refusal = λ key message w. w;
}

abbrev chat : Incoming
chat = record {
  path = "/v1/chat/completions";
  admin_secret = none;
  authorization = some "Bearer t";
}

abbrev admin : Incoming
admin = record { path = "/admin/keys"; admin_secret = some "ab"; authorization = none }

middleware-client_example :
    (api_key : ApiKey) × (client office ≡ client api_key)
    × IsClientKey backing greenwich 12 (some "Bearer t") tt api_key
unfolding middleware client_header client_token client_row conclude_window access_window_check
    refuse_outside is_within_window_at bounded hours_window in_zone within starts_with strip_prefix
middleware-client_example =
    middleware-client backing greenwich 12 "s" chat tt (client office) refl refl refl

middleware-admin_example :
    ShowsSecret backing greenwich 12 "s" (some "ab") ⊎ IsAdminToken backing greenwich 12 none tt
unfolding middleware starts_with strip_prefix secret_matches constant_time_eq differences bit_or
    bit_xor
middleware-admin_example =
    middleware-admin backing greenwich 12 "s" admin tt anonymous refl refl refl

abbrev ab : List ℕ
ab = 97 ∷ 98 ∷ []

abbrev ac : List ℕ
ac = 97 ∷ 99 ∷ []

constant_time_eq_iff_example : (constant_time_eq ab ac ≡ true) ↔ (ab ≡ ac)
constant_time_eq_iff_example =
    constant_time_eq_iff ab ac (omega arith, (omega arith, tt)) (omega arith, (omega arith, tt))
