-- ===== src/Gateway/Billing.antt =====
-- crates/zorch-gateway/src/billing.rs. `Json` is the type of the tags. The arguments of the two
-- constructors are the fields of the record that they fill.
mod Examples
use zorch.Prelude.{
  ℕ, Bool, not, String, Option, none, some, List, [], ◌∷◌, if◌then◌else◌, ◌≡◌, true, false, arith,
  ◌↔◌,
}
use zorch.Prelude.Int.{ℤ, as_i32, is_negative}
use zorch.Shared.Float.{F64, Fpu, f64_zero, f64_one, f64_hundred}
use zorch.Shared.Sql.{Cell, uuid, maybe_uuid, words, int, float, json, maybe_words, row_of}
use zorch.Shared.Errors.{
  Result, ok, err, AppError, Message, text, validation, database, Reply, map_err,
}

pub record BillingRecord (Json : Type 0) : Type 0 where
  pub request_id : ℕ
  pub api_key_id : ℕ
  pub organization_id : ℕ
  pub provider : String
  pub provider_api_key_id : Option ℕ
  pub model : String
  pub public_model : String
  pub input_tokens : ℕ  -- u32
  pub output_tokens : ℕ  -- u32
  pub provider_cost : F64
  pub markup_percent : F64
  pub status_code : ℤ  -- i32, as the latencies
  pub latency_ms : ℤ
  pub provider_latency_ms : ℤ
  pub gateway_latency_ms : ℤ
  pub tags : Json
  pub error_message : Option String

-- The columns that the INSERT names, in its order.
abbrev pub columns : List String
columns =
    "request_id" ∷ "organization_id" ∷ "api_key_id" ∷ "provider" ∷ "provider_api_key_id" ∷ "model"
    ∷ "public_model" ∷ "status_code" ∷ "latency_ms" ∷ "provider_latency_ms" ∷ "gateway_latency_ms"
    ∷ "input_tokens" ∷ "output_tokens" ∷ "provider_cost" ∷ "markup_percent" ∷ "total_cost" ∷ "tags"
    ∷ "error_message" ∷ []

module _ {Json : Type 0} (fpu : Fpu) where
  abbrev refuse : String → Result (BillingRecord Json)
  refuse m = err (validation (text m ∷ []))

  unfoldable pub with_error : BillingRecord Json → Result (BillingRecord Json)
  with_error r =
      if not (fpu.is_finite r.provider_cost)
      then refuse "provider_cost must be finite"
      else if not (fpu.is_finite r.markup_percent)
      then refuse "markup_percent must be finite"
      else if fpu.lt r.provider_cost f64_zero
      then refuse "provider_cost must be non-negative"
      else if fpu.lt r.markup_percent f64_zero
      then refuse "markup_percent must be non-negative"
      else if is_negative r.latency_ms
      then refuse "latency_ms must be non-negative"
      else if is_negative r.provider_latency_ms
      then refuse "provider_latency_ms must be non-negative"
      else if is_negative r.gateway_latency_ms
      then refuse "gateway_latency_ms must be non-negative"
      else ok r

  unfoldable pub new : BillingRecord Json → Result (BillingRecord Json)
  new r = with_error (record r { error_message = none })

  unfoldable pub total_cost : BillingRecord Json → F64
  total_cost r = fpu.mul r.provider_cost (fpu.add f64_one (fpu.div r.markup_percent f64_hundred))

  unfoldable pub binds : BillingRecord Json → List (Cell Json)
  binds r =
      uuid r.request_id
      ∷ uuid r.organization_id
      ∷ uuid r.api_key_id
      ∷ words r.provider
      ∷ maybe_uuid r.provider_api_key_id
      ∷ words r.model
      ∷ words r.public_model
      ∷ int r.status_code
      ∷ int r.latency_ms
      ∷ int r.provider_latency_ms
      ∷ int r.gateway_latency_ms
      ∷ int (as_i32 r.input_tokens)
      ∷ int (as_i32 r.output_tokens)
      ∷ float r.provider_cost
      ∷ float r.markup_percent
      ∷ float (total_cost r)
      ∷ json r.tags
      ∷ maybe_words r.error_message
      ∷ []

  -- `execute` inserts a row into requests_log of the database `Db`.
  unfoldable pub record_request :
      {Db : Type 0}
      → (List (String × Cell Json) → Db → Reply (Unit {0}) × Db)
      → BillingRecord Json
      → Db
      → Result (Unit {0}) × Db
  record_request execute r db =
      let (reply, db') = execute (row_of columns (binds r)) db in
      (map_err (λ e. database (text "Failed to record request: " ∷ text e ∷ [])) reply, db')

  -- What a record must satisfy to be billed.
  abbrev pub IsBillable : BillingRecord Json → Type 0
  IsBillable r =
      (fpu.is_finite r.provider_cost ≡ true)
      × (fpu.is_finite r.markup_percent ≡ true)
      × (fpu.lt r.provider_cost f64_zero ≡ false)
      × (fpu.lt r.markup_percent f64_zero ≡ false)
      × (is_negative r.latency_ms ≡ false)
      × (is_negative r.provider_latency_ms ≡ false)
      × (is_negative r.gateway_latency_ms ≡ false)

  -- A record is made exactly if its cost and its markup are finite and not negative and none of its
  -- three latencies is negative, and then it has the values that were given.
  pub with_error-ok_iff :
      (r q : BillingRecord Json) → (with_error r ≡ ok q) ↔ (IsBillable r × (r ≡ q))
  unfolding with_error
  with_error-ok_iff r q = ground arith
