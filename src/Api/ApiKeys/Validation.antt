-- ===== src/Api/ApiKeys/Validation.antt =====
-- What a created key satisfies.
use zorch.Prelude.{
  ℕ, ◌≤◌, Bool, true, false, ◌||◌, String, Option, none, some, List, [], ◌∷◌, All, any, length, ◌≡◌,
  refl, ◌↔◌, arith, Bool-cases, inl, inr, ltb,
}
use zorch.Prelude.Int.{ℤ, pos, int_leb}
use zorch.Prelude.Classes.{◌==◌, string_eq}
use zorch.Shared.Lines.{trim, byte_len, all_chars}
use zorch.Shared.Float.{F64, Fpu, f64_zero, f64_million}
use zorch.Shared.Errors.{Result, ok, err}
use zorch.Api.ApiKeys.{
  ApiKeyTag, key_char, check_tag, and_check, check_tags, validate_tags, validate_access_window,
  check_range, check_spend_limit, check_names, check_allowed, check_key_limits, validate_governance,
  CreateApiKeyRequest,
}
use zorch.Api.ApiKeys.Store.{Keys, Created, check_create, create_api_key}

-- 1 to 32 bytes of a-z, 0-9, _ and -, and a value of 1 to 128 bytes
abbrev pub IsTag : ApiKeyTag → Type 0
IsTag tag =
    ((tag.key == "") ≡ false)
    × (byte_len tag.key ≤ 32)
    × (all_chars key_char tag.key ≡ true)
    × ((tag.value == "") ≡ false)
    × (byte_len tag.value ≤ 128)

-- The keys are new, after those that were seen.
abbrev pub AreTags : List String → List ApiKeyTag → Type 0
AreTags seen [] = Unit
AreTags seen (tag ∷ tags) =
    IsTag tag × (any (λ k. k == tag.key) seen ≡ false) × AreTags (tag.key ∷ seen) tags

abbrev pub IsZone : (String → Bool) → Option String → Type 0
IsZone is_tz none = Unit
IsZone is_tz (some name) = is_tz name ≡ true

-- Both hours from 0 to 23, or no window at all.
abbrev pub IsWindow : (String → Bool) → Option ℕ → Option ℕ → Option String → Type 0
IsWindow is_tz (some s) (some e) tz = (s ≤ 23) × (e ≤ 23) × IsZone is_tz tz
IsWindow is_tz none none none = Unit
IsWindow is_tz _ _ _ = ⊥

abbrev pub InRange : ℕ → Option ℤ → Type 0
InRange max none = Unit
InRange max (some v) = (int_leb (pos 1) v ≡ true) × (int_leb v (pos max) ≡ true)

abbrev pub IsBudget : Fpu → Option F64 → Type 0
IsBudget fpu none = Unit
IsBudget fpu (some b) = (fpu.le f64_zero b ≡ true) × (fpu.le b f64_million ≡ true)

abbrev pub AreModels : Option (List String) → Type 0
AreModels none = Unit
AreModels (some ms) = (length ms ≤ 128) × All (λ m. ((m == "") ≡ false) × (byte_len m ≤ 128)) ms

and_check-ok :
    {A : Type 0} (a : Result (Unit {0})) (b : Result A) (x : A)
    → and_check a b ≡ ok x
    → (a ≡ ok tt) × (b ≡ ok x)
unfolding and_check
and_check-ok (ok u) b x h = (refl, h)
and_check-ok (err e) b x h = ground (arith, h)

check_tag-ok : (tag : ApiKeyTag) → check_tag tag ≡ ok tt → IsTag tag
unfolding check_tag
check_tag-ok tag h = ground (arith, h)

check_tags-ok :
    (seen : List String) (tags : List ApiKeyTag) → check_tags seen tags ≡ ok tt → AreTags seen tags
unfolding check_tags
check_tags-ok seen [] h = tt
check_tags-ok seen (tag ∷ tags) h =
    let (first, rest) = and_check-ok (check_tag tag) _ tt h in
    elim (Bool-cases (any (λ k. k == tag.key) seen)) [
      | inl d ↦ ground (arith, d, rest)
      | inr d ↦
          (check_tag-ok tag first, d, check_tags-ok (tag.key ∷ seen) tags (ground (arith, d, rest)))
    ]

validate_tags-ok :
    (tags : List ApiKeyTag) → validate_tags tags ≡ ok tt → (length tags ≤ 16) × AreTags [] tags
unfolding validate_tags
validate_tags-ok tags h = elim (Bool-cases (ltb 16 (length tags))) [
  | inl b ↦ ground (arith, b, h)
  | inr b ↦ (ground (arith, b), check_tags-ok [] tags (ground (arith, b, h)))
]

-- A window passes exactly if it has both hours, each from 0 to 23, and a zone that is known or none,
-- or if it has neither hours nor a zone.
pub validate_access_window-ok_iff :
    (is_tz : String → Bool) (s e : Option ℕ) (tz : Option String)
    → (validate_access_window is_tz s e tz ≡ ok tt) ↔ IsWindow is_tz s e tz
unfolding validate_access_window
validate_access_window-ok_iff is_tz (some s) (some e) none = ground arith
validate_access_window-ok_iff is_tz (some s) (some e) (some tz) = ground arith
validate_access_window-ok_iff is_tz (some s) none tz = ground arith
validate_access_window-ok_iff is_tz none (some e) tz = ground arith
validate_access_window-ok_iff is_tz none none none = ground arith
validate_access_window-ok_iff is_tz none none (some tz) = ground arith

check_range-ok :
    (max : ℕ) (message : String) (v : Option ℤ) → check_range max message v ≡ ok tt → InRange max v
unfolding check_range
check_range-ok max message none h = tt
check_range-ok max message (some v) h = ground (arith, h)

check_spend_limit-ok :
    (fpu : Fpu) (b : Option F64) → check_spend_limit fpu b ≡ ok tt → IsBudget fpu b
unfolding check_spend_limit
check_spend_limit-ok fpu none h = tt
check_spend_limit-ok fpu (some b) h = ground (arith, h)

check_names-ok :
    (ms : List String)
    → check_names ms ≡ ok tt
    → All (λ m. ((m == "") ≡ false) × (byte_len m ≤ 128)) ms
unfolding check_names
check_names-ok [] h = tt
check_names-ok (m ∷ ms) h = elim (Bool-cases ((m == "") || ltb 128 (byte_len m))) [
  | inl b ↦ ground (arith, b, h)
  | inr b ↦ (ground (arith, b), check_names-ok ms (ground (arith, b, h)))
]

check_allowed-ok : (ms : Option (List String)) → check_allowed ms ≡ ok tt → AreModels ms
unfolding check_allowed
check_allowed-ok none h = tt
check_allowed-ok (some ms) h = elim (Bool-cases (ltb 128 (length ms))) [
  | inl b ↦ ground (arith, b, h)
  | inr b ↦ (ground (arith, b), check_names-ok ms (ground (arith, b, h)))
]

-- The limits of a key are in their ranges.
abbrev pub AreLimits : Fpu → Option ℤ → Option ℤ → Option F64 → Option (List String) → Type 0
AreLimits fpu rpm rpd budget models =
    InRange 1000000 rpm × InRange 10000000 rpd × IsBudget fpu budget × AreModels models

pub check_key_limits-ok :
    (fpu : Fpu) (rpm rpd : Option ℤ) (budget : Option F64) (models : Option (List String))
    → check_key_limits fpu rpm rpd budget models ≡ ok tt
    → AreLimits fpu rpm rpd budget models
unfolding check_key_limits
check_key_limits-ok fpu rpm rpd budget models h =
    let (a, g1) = and_check-ok _ _ tt h in
    let (b, g2) = and_check-ok _ _ tt g1 in
    let (c, d) = and_check-ok _ _ tt g2 in
    (
      check_range-ok 1000000 _ rpm a,
      check_range-ok 10000000 _ rpd b,
      check_spend_limit-ok fpu budget c,
      check_allowed-ok models d,
    )

module _ {Json Key W : Type 0} (keys : Keys Json Key W) where
  checked_first :
      (req : CreateApiKeyRequest) (w w' : W) (c : Created)
      → create_api_key keys req w ≡ (ok c, w')
      → (check_create keys req ≡ ok tt) × (c.name ≡ trim req.name)
  unfolding create_api_key
  checked_first req w w' c h = ground (arith, h)

  -- A key is created only with a name, with at most sixteen tags that are well formed and have
  -- different keys, with limits in their ranges, and with a whole access window or none.
  pub create_api_key-ok :
      (req : CreateApiKeyRequest) (w w' : W) (c : Created)
      → create_api_key keys req w ≡ (ok c, w')
      → ((trim req.name == "") ≡ false)
        × (c.name ≡ trim req.name)
        × (length req.tags ≤ 16)
        × AreTags [] req.tags
        × AreLimits keys.fpu req.requests_per_minute req.requests_per_day req.max_spend_usd
            req.allowed_models
        × IsWindow keys.is_tz req.allowed_hours_start req.allowed_hours_end req.window_timezone
  unfolding check_create validate_governance
  create_api_key-ok req w w' c h =
      let (checked, named) = checked_first req w w' c h in
      elim (Bool-cases (trim req.name == "")) [
        | inl b ↦ ground (arith, b, checked)
        | inr b ↦
            let all_checks : and_check (validate_tags req.tags) (
                  and_check (validate_governance keys.fpu req) (
                    validate_access_window keys.is_tz req.allowed_hours_start req.allowed_hours_end
                      req.window_timezone))
                ≡ ok tt =
              ground (arith, b, checked) in
            let (tags, g1) = and_check-ok (validate_tags req.tags) _ tt all_checks in
            let (limits, window) = and_check-ok (validate_governance keys.fpu req) _ tt g1 in
            let (few, each_tag) = validate_tags-ok req.tags tags in
            (
              b,
              named,
              few,
              each_tag,
              check_key_limits-ok keys.fpu req.requests_per_minute req.requests_per_day
                  req.max_spend_usd req.allowed_models limits,
              (validate_access_window-ok_iff keys.is_tz req.allowed_hours_start
                    req.allowed_hours_end req.window_timezone).0
                  window,
            )
      ]
