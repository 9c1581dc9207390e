-- ===== src/Gateway/Middleware/Audit.antt =====
-- crates/zorch-gateway/src/middleware/audit.rs
use zorch.Prelude.{Bool, String, Option, List, [], ◌∷◌}
use zorch.Prelude.Int.{ℤ}
use zorch.Shared.Errors.{Reply}
use zorch.Shared.Sql.{Cell, words, int, flag, json, maybe_words, row_of}

pub record MiddlewareRunRecord (Json : Type 0) : Type 0 where
  pub request_id : String
  pub middleware_config_id : String
  pub phase : String
  pub status : String
  pub action : String
  pub duration_ms : ℤ  -- i32
  pub body_changed : Bool
  pub metadata : Json
  pub error : Option String

-- The columns of the INSERT into middleware_runs.
abbrev pub columns : List String
columns =
    "request_id" ∷ "middleware_config_id" ∷ "phase" ∷ "status" ∷ "action" ∷ "duration_ms"
    ∷ "body_changed" ∷ "metadata" ∷ "error" ∷ []

unfoldable pub binds : {Json : Type 0} → MiddlewareRunRecord Json → List (Cell Json)
binds r =
    words r.request_id
    ∷ words r.middleware_config_id
    ∷ words r.phase
    ∷ words r.status
    ∷ words r.action
    ∷ int r.duration_ms
    ∷ flag r.body_changed
    ∷ json r.metadata
    ∷ maybe_words r.error
    ∷ []

unfoldable pub record_run :
    {Json W : Type 0}
    → (List (String × Cell Json) → W → Reply (Unit {0}) × W)
    → MiddlewareRunRecord Json
    → W
    → Reply (Unit {0}) × W
record_run execute r w = execute (row_of columns (binds r)) w
