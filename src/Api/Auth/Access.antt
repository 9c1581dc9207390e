-- ===== src/Api/Auth/Access.antt =====
-- Who passes the authentication of crates/zorch-api/src/middleware/auth.rs.
use zorch.Prelude.{
  ℕ, ◌+◌, ◌-◌, ◌%◌, ◌<◌, ◌≡◌, refl, ◌≢◌, ◌⊎◌, true, false, Bool-cases, Option-cases, inl, inr,
  String, Option, none, some, arith, leb, if◌then◌else◌, unwrap_or, ◌≤◌, any,
}
use zorch.Prelude.Int.{ℤ, pos, as_u8}
use zorch.Prelude.Classes.{◌==◌, string_eq, beq_refl}
use zorch.Shared.Errors.{Result, ok, err, Reply, got, failed, access_window}
use zorch.Gateway.AccessWindow.{
  AccessWindow, Timezones, within, in_zone, hours_window, bounded, is_within_window_at,
  is_within_window_at-around,
}
use zorch.Api.Request.{strip_prefix}
use zorch.Api.Auth.Secret.{constant_time_eq}
use zorch.Api.Auth.{
  ApiKey, Incoming, Passed, client, Backing, is_admin, is_public, is_admin_path, is_expired,
  secret_matches, admin_row, admin_denied, admin_token, conclude_window, client_row, client_token,
  client_header, middleware, access_window_check, refuse_outside, window_of_key, as_hour,
}

-- The hour lies in the window, which runs over midnight if it ends before it starts.
abbrev pub IsHourIn : ℕ → ℕ → ℕ → Type 0
IsHourIn start end hour =
    ((start ≤ end) × (start ≤ hour) × (hour ≤ end))
    ⊎ ((end < start) × ((start ≤ hour) ⊎ (hour ≤ end)))

-- A window of two hours is open at a time: both are hours of the day, its zone is known, UTC where
-- none is named, and the hour in that zone lies in it. A window without one of the hours is open.
abbrev pub IsOpen : Timezones → ℕ → Option ℤ → Option ℤ → Option String → Type 0
IsOpen zones now none end tz_str = Unit
IsOpen zones now (some start) none tz_str = Unit
IsOpen zones now (some start) (some end) tz_str =
    (as_u8 start < 24)
    × (as_u8 end < 24)
    × (tz : zones.Tz) × (zones.parse (unwrap_or tz_str "UTC") ≡ some tz)
    × IsHourIn (as_u8 start) (as_u8 end) (zones.hour tz now)

within-IsHourIn : (start end hour : ℕ) → within start end hour ≡ true → IsHourIn start end hour
unfolding within
within-IsHourIn start end hour h = elim (Bool-cases (leb start end)) [
  | inl b ↦ inl (ground (arith, b, h), ground (arith, b, h), ground (arith, b, h))
  | inr b ↦ elim (Bool-cases (leb start hour)) [
    | inl c ↦ inr (ground (arith, b), inl (ground (arith, c)))
    | inr c ↦ inr (ground (arith, b), inr (ground (arith, b, c, h)))
  ]
]

bounded-IsOpen :
    (zones : Timezones) (now : ℕ) (window : AccessWindow) (start end : Option ℤ)
    (tz_str : Option String)
    → refuse_outside window (bounded zones (as_hour start) (as_hour end) tz_str now) ≡ ok tt
    → IsOpen zones now start end tz_str
unfolding refuse_outside bounded hours_window in_zone
bounded-IsOpen zones now window none end tz_str h = tt
bounded-IsOpen zones now window (some start) none tz_str h = tt
bounded-IsOpen zones now window (some start) (some end) tz_str h =
    elim (Option-cases (zones.parse (unwrap_or tz_str "UTC"))) [
      | inl n ↦ absurd (ground (arith, n, h))
      | inr (tz, n) ↦ (
        ground (arith, n, h),
        ground (arith, n, h),
        tz,
        n,
        within-IsHourIn (as_u8 start) (as_u8 end) (zones.hour tz now) (ground (arith, n, h)),
      )
    ]

-- An administrator's key is let in at any time, another one while its window is open.
abbrev pub MayEnter : Timezones → ApiKey → ℕ → Type 0
MayEnter zones api_key now =
    (any (λ s. s == "admin") api_key.scopes ≡ true)
    ⊎ IsOpen zones now api_key.allowed_hours_start api_key.allowed_hours_end api_key.window_timezone

access_window_check-MayEnter :
    (zones : Timezones) (api_key : ApiKey) (now : ℕ)
    → access_window_check zones api_key now ≡ ok tt
    → MayEnter zones api_key now
unfolding access_window_check is_within_window_at
access_window_check-MayEnter zones api_key now h = elim (Bool-cases (is_admin api_key)) [
  | inl a ↦ inl a
  | inr a ↦ inr (
      bounded-IsOpen zones now (window_of_key api_key) api_key.allowed_hours_start
        api_key.allowed_hours_end api_key.window_timezone (ground (arith, a, h)))
]

module _ {W : Type 0} (backing : Backing W) (zones : Timezones) (now : ℕ) where
  -- The key behind an authorization header, fit for a request at this time.
  pub IsClientKey : Option String → W → ApiKey → Type 0
  IsClientKey header w api_key =
      (auth_header : String) × (token : String) × (header ≡ some auth_header)
      × (strip_prefix "Bearer " auth_header ≡ some token)
      × (backing.find_key (backing.hash_token token) w ≡ got (some api_key))
      × (api_key.is_active ≡ true)
      × (is_expired api_key.expires_at now ≡ false)
      × MayEnter zones api_key now

  conclude_window-ok :
      (api_key : ApiKey) (r : Result (Unit {0})) (w : W) (p : Passed)
      → (conclude_window backing zones api_key r w).0 ≡ ok p
      → (r ≡ ok tt) × (p ≡ client api_key)
  unfolding conclude_window
  conclude_window-ok api_key r w p h = ground arith

  client_row-ok :
      (row : Reply (Option ApiKey)) (w : W) (p : Passed)
      → (client_row backing zones now row w).0 ≡ ok p
      → (api_key : ApiKey) × (row ≡ got (some api_key))
        × (api_key.is_active ≡ true)
        × (is_expired api_key.expires_at now ≡ false)
        × (access_window_check zones api_key now ≡ ok tt)
        × (p ≡ client api_key)
  unfolding client_row
  client_row-ok (failed e) w p h = absurd (ground (arith, h))
  client_row-ok (got none) w p h = absurd (ground (arith, h))
  client_row-ok (got (some api_key)) w p h = elim (Bool-cases api_key.is_active) [
    | inl i ↦ elim (Bool-cases (is_expired api_key.expires_at now)) [
      | inl x ↦ absurd (ground (arith, i, x, h))
      | inr x ↦
          let c =
            conclude_window-ok api_key (access_window_check zones api_key now) w p
              (ground (arith, i, x, h)) in
          (api_key, refl, i, x, c.0, c.1)
    ]
    | inr i ↦ absurd (ground (arith, i, h))
  ]

  client_header-ok :
      (header : Option String) (w : W) (p : Passed)
      → (client_header backing zones now header w).0 ≡ ok p
      → (api_key : ApiKey) × (p ≡ client api_key) × IsClientKey header w api_key
  unfolding client_header client_token IsClientKey
  client_header-ok none w p h = absurd (ground (arith, h))
  client_header-ok (some auth_header) w p h =
      elim (Option-cases (strip_prefix "Bearer " auth_header)) [
        | inl n ↦ absurd (ground (arith, n, h))
        | inr (token, n) ↦
            let row = backing.find_key (backing.hash_token token) w in
            let (api_key, found, i, x, c, q) = client_row-ok row w p (ground (arith, n, h)) in
            (
              api_key,
              q,
              (
                auth_header,
                token,
                refl,
                n,
                found,
                i,
                x,
                access_window_check-MayEnter zones api_key now c,
              ),
            )
      ]

  -- An administrator's token, at this time.
  pub IsAdminToken : Option String → W → Type 0
  IsAdminToken header w =
      (auth_header : String) × (api_key : ApiKey) × (header ≡ some auth_header)
      × (backing.find_key
            (backing.hash_token (unwrap_or (strip_prefix "Bearer " auth_header) auth_header)) w
          ≡ got (some api_key))
      × (api_key.is_active ≡ true)
      × (is_expired api_key.expires_at now ≡ false)
      × (is_admin api_key ≡ true)

  admin_row-ok :
      (row : Reply (Option ApiKey)) (p : Passed)
      → admin_row backing zones now row ≡ ok p
      → (api_key : ApiKey) × (row ≡ got (some api_key))
        × (api_key.is_active ≡ true)
        × (is_expired api_key.expires_at now ≡ false)
        × (is_admin api_key ≡ true)
  unfolding admin_row admin_denied
  admin_row-ok (failed e) p h = absurd (ground (arith, h))
  admin_row-ok (got none) p h = absurd (ground (arith, h))
  admin_row-ok (got (some api_key)) p h =
      (api_key, refl, ground (arith, h), ground (arith, h), ground (arith, h))

  admin_token-ok :
      (header : Option String) (w : W) (p : Passed)
      → admin_token backing zones now header w ≡ ok p
      → IsAdminToken header w
  unfolding admin_token admin_denied IsAdminToken
  admin_token-ok none w p h = absurd (ground (arith, h))
  admin_token-ok (some auth_header) w p h =
      let token = unwrap_or (strip_prefix "Bearer " auth_header) auth_header in
      let (api_key, found, i, x, a) =
        admin_row-ok (backing.find_key (backing.hash_token token) w) p h in
      (auth_header, api_key, refl, found, i, x, a)

  -- The configured secret is not empty and the request shows it.
  pub ShowsSecret : String → Option String → Type 0
  ShowsSecret cfg_secret secret =
      (provided : String) × (secret ≡ some provided)
      × (cfg_secret ≢ "")
      × (constant_time_eq (backing.bytes provided) (backing.bytes cfg_secret) ≡ true)

  secret_matches-ok :
      (cfg_secret : String) (secret : Option String)
      → secret_matches backing zones cfg_secret secret ≡ true
      → ShowsSecret cfg_secret secret
  unfolding secret_matches ShowsSecret
  secret_matches-ok cfg_secret none h = absurd (ground (arith, h))
  secret_matches-ok cfg_secret (some provided) h =
      (provided, refl, λ e. ground (arith, h, e, beq_refl cfg_secret), ground (arith, h))

  module _ (cfg_secret : String) (req : Incoming) (w : W) (p : Passed) where
    -- On a path that is neither public nor an administrator's, only a request with the bearer token
    -- of an active key passes, not after the key's expiry; unless the key has the scope "admin" or
    -- lacks one of the two hours, the current hour in its zone lies in its window. The handler is
    -- given this key.
    pub middleware-client :
        is_public req.path ≡ false
        → is_admin_path req.path ≡ false
        → (middleware backing zones cfg_secret now req w).0 ≡ ok p
        → (api_key : ApiKey) × (p ≡ client api_key) × IsClientKey req.authorization w api_key
    unfolding middleware
    middleware-client a b h = client_header-ok req.authorization w p (ground (arith, a, b, h))

    -- On an administrator's path only a request passes that shows the configured secret, which is
    -- not empty, or the token of an active key with the scope "admin" that has not expired.
    pub middleware-admin :
        is_public req.path ≡ false
        → is_admin_path req.path ≡ true
        → (middleware backing zones cfg_secret now req w).0 ≡ ok p
        → ShowsSecret cfg_secret req.admin_secret ⊎ IsAdminToken req.authorization w
    unfolding middleware
    middleware-admin a b h =
        elim (Bool-cases (secret_matches backing zones cfg_secret req.admin_secret)) [
          | inl m ↦ inl (secret_matches-ok cfg_secret req.admin_secret m)
          | inr m ↦ inr (admin_token-ok req.authorization w p (ground (arith, a, b, m, h)))
        ]

-- A key that is no administrator's, with two hours of the day and a known zone, is refused exactly
-- outside these hours, counted around the clock from the first to the last; the refusal names them.
pub access_window_check-around :
    (zones : Timezones) (api_key : ApiKey) (now start end : ℕ) (tz : zones.Tz)
    → is_admin api_key ≡ false
    → api_key.allowed_hours_start ≡ some (pos start)
    → api_key.allowed_hours_end ≡ some (pos end)
    → start < 24
    → end < 24
    → zones.parse (unwrap_or api_key.window_timezone "UTC") ≡ some tz
    → zones.hour tz now < 24
    → access_window_check zones api_key now ≡ (
        if leb ((zones.hour tz now + 24 - start) % 24) ((end + 24 - start) % 24)
        then ok tt
        else err (access_window start end (unwrap_or api_key.window_timezone "UTC")))
unfolding access_window_check refuse_outside
access_window_check-around zones api_key now start end tz a s e p q z r =
    let window = window_of_key api_key in
    let s1 : window.allowed_hours_start ≡ some start = ground (arith, s) in
    let e1 : window.allowed_hours_end ≡ some end = ground (arith, e) in
    ground
      (arith, a, s1, e1, is_within_window_at-around zones window now start end tz s1 e1 p q z r)
