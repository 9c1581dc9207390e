-- ===== src/Gateway/AccessWindow.antt =====
-- crates/zorch-gateway/src/access_window.rs. The time-zone database is a parameter: a zone is found
-- by its name, and gives the hour of the day at a time.
use zorch.Prelude.{
  ℕ, ◌+◌, ◌-◌, ◌%◌, ◌<◌, ◌≡◌, Bool, true, ◌&&◌, ◌||◌, String, Option, none, some, [], ◌∷◌, arith,
  leb, ltb, unwrap_or, if◌then◌else◌,
}
use zorch.Shared.Errors.{Result, ok, err, validation, text}

pub record Timezones : Type 1 where
  pub Tz : Type 0
  pub parse : String → Option Tz
  pub hour : Tz → ℕ → ℕ

pub record AccessWindow : Type 0 where
  pub allowed_hours_start : Option ℕ  -- u8
  pub allowed_hours_end : Option ℕ  -- u8
  pub window_timezone : Option String

unfoldable pub within : ℕ → ℕ → ℕ → Bool
within start end current_hour =
    if leb start end
    then leb start current_hour && leb current_hour end
    else leb start current_hour || leb current_hour end

module _ (zones : Timezones) where
  unfoldable pub in_zone : ℕ → ℕ → ℕ → String → Option zones.Tz → Result Bool
  in_zone start end now tz_str none =
      err (validation (text "Invalid timezone: " ∷ text tz_str ∷ []))
  in_zone start end now tz_str (some tz) = ok (within start end (zones.hour tz now))

  unfoldable pub hours_window : ℕ → ℕ → Option String → ℕ → Result Bool
  hours_window start end window_timezone now =
      if ltb 23 start || ltb 23 end
      then err (validation (text "Access window hours must be 0-23" ∷ []))
      else (let tz_str = unwrap_or window_timezone "UTC" in
          in_zone start end now tz_str (zones.parse tz_str))

  unfoldable pub bounded : Option ℕ → Option ℕ → Option String → ℕ → Result Bool
  bounded (some start) (some end) window_timezone now = hours_window start end window_timezone now
  bounded _ _ window_timezone now = ok true

  unfoldable pub is_within_window_at : AccessWindow → ℕ → Result Bool
  is_within_window_at window now =
      bounded window.allowed_hours_start window.allowed_hours_end window.window_timezone now

  within_around :
      (start end hour : ℕ)
      → start < 24
      → end < 24
      → hour < 24
      → within start end hour ≡ leb ((hour + 24 - start) % 24) ((end + 24 - start) % 24)
  unfolding within
  within_around start end hour p q r = ground arith

  -- With two hours of the day and a known zone, a request is within the window exactly if the
  -- current hour comes no later than the last one, counted around the clock from the first one.
  pub is_within_window_at-around :
      (window : AccessWindow) (now start end : ℕ) (tz : zones.Tz)
      → window.allowed_hours_start ≡ some start
      → window.allowed_hours_end ≡ some end
      → start < 24
      → end < 24
      → zones.parse (unwrap_or window.window_timezone "UTC") ≡ some tz
      → zones.hour tz now < 24
      → is_within_window_at window now
        ≡ ok (leb ((zones.hour tz now + 24 - start) % 24) ((end + 24 - start) % 24))
  unfolding is_within_window_at bounded hours_window in_zone
  is_within_window_at-around window now start end tz s e p q z r =
      ground (arith, s, e, z, within_around start end (zones.hour tz now) p q r)
