-- ===== src/Api/Handler/Governed.antt =====
-- What an answer of the handler has behind it.
use zorch.External.Redis.{Redis}
use zorch.External.Serde.{Serde}
