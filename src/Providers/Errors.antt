-- ===== src/Providers/Errors.antt =====
-- crates/zorch-providers/src/errors.rs
use zorch.Prelude.{ℕ, Option, none, some, [], ◌∷◌, Bool, nat_beq, if◌then◌else◌}
use zorch.Shared.Errors.{Message, text}
use zorch.Prelude.{String}

pub data ProviderError : Type 0 where
  network auth invalid_response not_found internal : Message → ProviderError
  rate_limit : Option ℕ → ProviderError
  timeout : ProviderError

-- What `reqwest::Error` answers of itself.
pub record ReqwestError : Type 0 where
  pub is_timeout : Bool
  pub is_status : Bool
  pub status : Option ℕ
  pub to_string : String

from_status : Option ℕ → String → ProviderError
from_status none e = network (text e ∷ [])
from_status (some status) e =
    if nat_beq status 401
    then auth (text "Invalid API key" ∷ [])
    else if nat_beq status 429
    then rate_limit none
    else network (text e ∷ [])

unfoldable pub from_reqwest : ReqwestError → ProviderError
unfolding from_status
from_reqwest err =
    if err.is_timeout
    then timeout
    else if err.is_status
    then from_status err.status err.to_string
    else network (text err.to_string ∷ [])
