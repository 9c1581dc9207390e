-- ===== src/External/Redis.antt =====
-- The Redis (or Dragonfly) server behind the `redis` crate, as far as the gateway uses it. Each
-- command is given the time, in seconds, at which the server runs it, and its answer may be an
-- error whatever the state. `trim_and_count` is the pipeline ZREMRANGEBYSCORE key 0 max; ZCARD key.
-- The member of a sorted set is the text "{second}:{uuid}", here the pair.
pub mod Laws
pub mod Memory
use zorch.Prelude.{ℕ, String, Option}
use zorch.Shared.Float.{F64}
use zorch.Shared.Errors.{Reply}

pub record Redis : Type 1 where
  pub Server : Type 0
  pub connect : Server → Reply (Unit {0})
  pub trim_and_count : ℕ → String → ℕ → Server → Reply ℕ × Server
  pub zadd : ℕ → String → ℕ × String → ℕ → Server → Reply (Unit {0}) × Server
  pub expire : ℕ → String → ℕ → Server → Reply (Unit {0}) × Server
  pub get_float : ℕ → String → Server → Reply (Option F64)
  pub incr_by_float : ℕ → String → F64 → Server → Reply F64 × Server
  pub get_text : ℕ → String → Server → Reply (Option String)
  pub set_text : ℕ → String → String → Server → Reply (Unit {0}) × Server
  pub incr : ℕ → String → Server → Reply ℕ × Server
  pub del : ℕ → String → Server → Reply (Unit {0}) × Server
