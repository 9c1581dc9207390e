-- ===== src/Api/ApiKeys/Update/Window.antt =====
-- The hours of an update.
use zorch.Prelude.{◌%◌, ◌≤◌, Bool, true, String, Option, none, some, ◌≡◌, ◌↔◌, arith}
use zorch.Prelude.Int.{ℤ, pos, negsuc, as_u8}
use zorch.Shared.Errors.{ok}
use zorch.Api.ApiKeys.{validate_access_window}
use zorch.Api.ApiKeys.Update.{hour_of, check_new_window}

-- A multiple of 256 more or less than an hour from 0 to 23.
abbrev pub IsHourModulo : ℤ → Type 0
IsHourModulo (pos n) = n % 256 ≤ 23
IsHourModulo (negsuc n) = 232 ≤ n % 256

abbrev pub IsZone : (String → Bool) → Option String → Type 0
IsZone is_tz none = Unit
IsZone is_tz (some name) = is_tz name ≡ true

as_u8-hour : (h : ℤ) → (as_u8 h ≤ 23) ↔ IsHourModulo h
as_u8-hour (pos n) = (λ p. p, λ p. p)
as_u8-hour (negsuc n) = (λ p. omega arith, λ p. omega arith)

check_new_window-cast :
    (is_tz : String → Bool) (start end : ℤ) (tz : Option String)
    → (check_new_window is_tz (some (some start)) (some (some end)) tz ≡ ok tt)
      ↔ ((as_u8 start ≤ 23) × (as_u8 end ≤ 23) × IsZone is_tz tz)
unfolding check_new_window hour_of validate_access_window
check_new_window-cast is_tz start end none = (λ h. ground (arith, h), λ h. ground (arith, h))
check_new_window-cast is_tz start end (some name) = (λ h. ground (arith, h), λ h. ground (arith, h))

-- Where an update gives both hours, its check passes exactly for hours that are, modulo 256, hours
-- from 0 to 23, and for a time zone that is known or not given: of an hour that no i16 column
-- should hold it sees only the low eight bits.
pub check_new_window-wraps :
    (is_tz : String → Bool) (start end : ℤ) (tz : Option String)
    → (check_new_window is_tz (some (some start)) (some (some end)) tz ≡ ok tt)
      ↔ (IsHourModulo start × IsHourModulo end × IsZone is_tz tz)
check_new_window-wraps is_tz start end tz =
    let (there, back) = check_new_window-cast is_tz start end tz in
    let first = as_u8-hour start in
    let last = as_u8-hour end in
    (
      λ h. let (a, b, z) = there h in (first.0 a, last.0 b, z),
      λ (a, b, z). back (first.1 a, last.1 b, z),
    )
