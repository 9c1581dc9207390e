-- ===== src/Shared/Errors.antt =====
-- crates/zorch-shared/src/errors.rs. A message is what `format!` is given: the literal pieces and
-- the arguments between them, which the standard library renders.
use zorch.Prelude.{ℕ, String, Bool, ◌||◌, List, ◌≡◌, refl, ◌⊎◌, inl, inr, if◌then◌else◌}
use zorch.Shared.Float.{F64}

pub data Piece : Type 0 where
  text : String → Piece
  num : ℕ → Piece
  -- {:.2} and {:.0} of a float
  money : F64 → Piece
  rounded : F64 → Piece

abbrev pub Message : Type 0
Message = List Piece

pub data AppError : Type 0 where
  not_found validation auth provider internal database config bad_request rate_limit :
      Message → AppError
  timeout : AppError
  access_window : ℕ → ℕ → String → AppError

-- The status of `into_response`; `contains` is `str::contains` on the rendered message.
unfoldable pub status : (Message → String → Bool) → AppError → ℕ
status contains (not_found m) = 404
status contains (validation m) = 400
status contains (auth m) = if contains m "forbidden" || contains m "permission" then 403 else 401
status contains (provider m) = 502
status contains timeout = 408
status contains (internal m) = 500
status contains (database m) = 500
status contains (config m) = 500
status contains (bad_request m) = 400
status contains (rate_limit m) = 429
status contains (access_window start end timezone) = 403

pub data Result {ℓ} (A : Type ℓ) : Type ℓ where
  ok : A → Result A
  err : AppError → Result A

-- The answer of an external service: a value, or the text of its error.
pub data Reply {ℓ} (A : Type ℓ) : Type ℓ where
  got : A → Reply A
  failed : String → Reply A

-- `map_err(|e| wrap(format!("{what}{e}")))`
abbrev pub map_err {ℓ} : {A : Type ℓ} → (String → AppError) → Reply A → Result A
map_err wrap (got a) = ok a
map_err wrap (failed e) = err (wrap e)

pub Reply-cases {ℓ} :
    {A : Type ℓ} (r : Reply A) → ((a : A) × (r ≡ got a)) ⊎ ((e : String) × (r ≡ failed e))
Reply-cases (got a) = inl (a, refl)
Reply-cases (failed e) = inr (e, refl)

pub Result-cases {ℓ} :
    {A : Type ℓ} (r : Result A) → ((a : A) × (r ≡ ok a)) ⊎ ((e : AppError) × (r ≡ err e))
Result-cases (ok a) = inl (a, refl)
Result-cases (err e) = inr (e, refl)
