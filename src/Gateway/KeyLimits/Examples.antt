-- ===== src/Gateway/KeyLimits/Examples.antt =====
-- The limits of a key at concrete requests, against the server in memory.
use zorch.Prelude.{◌≡◌, ◌≢◌, ◌⊎◌, refl, true, false, some, [], ◌∷◌, any, is_empty, arith}
use zorch.Prelude.Classes.{◌==◌, string_eq}
use zorch.Prelude.Map.{lookup, insert}
use zorch.Shared.Float.{integers, f64_hundred}
use zorch.Shared.Errors.{ok}
use zorch.External.Redis.Memory.{Memory, memory, memory_laws, blank}
use zorch.Gateway.SlidingWindow.{sliding_window}
use zorch.Gateway.SlidingWindow.History.{History, begins, admits}
use zorch.Gateway.KeyLimits.{
  default_config, expiry_for, check_sliding_window, check_limits, check_budget, check_model,
  refuse_unless, float_or_zero, spend_key,
}
use zorch.Gateway.KeyLimits.Admission.{check_sliding_window-forgets, check_limits-ok, TookSlots}

abbrev at_100 : Memory
at_100 = record {
  sets = ("k", record { scores = 100 ∷ []; deadline = some 220 }) ∷ [];
  floats = [];
  texts = [];
  counters = [];
}

check_sliding_window-forgets_example :
    (check_sliding_window memory "k" 220 0 100 "v" at_100).0 ≢ ok false
unfolding check_sliding_window sliding_window expiry_for memory_laws lookup insert
check_sliding_window-forgets_example =
    check_sliding_window-forgets memory memory_laws "k" 100 220 0 0 "u" "v" blank at_100 at_100
      (λ x. x) refl refl (omega arith)

abbrev limited : Memory
limited = record {
  sets =
      ("key_rpm:k", record { scores = 100000 ∷ []; deadline = some 100120 })
      ∷ ("key_rpd:k", record { scores = 100000 ∷ []; deadline = some 186500 })
      ∷ [];
  floats = [];
  texts = [];
  counters = [];
}

check_limits-ok_example :
    TookSlots memory memory_laws integers 100000 "a" "b" "k" "m" default_config blank limited
    × (integers.le f64_hundred (float_or_zero (memory.get_float 100000 (spend_key "k") limited))
        ≡ false)
    × ((is_empty default_config.allowed_models ≡ true)
        ⊎ (any (λ m. m == "m") default_config.allowed_models ≡ true))
unfolding check_limits refuse_unless check_budget check_model check_sliding_window sliding_window
    expiry_for memory_laws lookup insert
check_limits-ok_example =
    check_limits-ok memory memory_laws integers 100000 "a" "b" "k" "m" default_config blank limited
      (λ x. x, λ x. x) refl

abbrev first_of_day : Memory
first_of_day = record {
  sets = ("k", record { scores = 100 ∷ []; deadline = some 86600 }) ∷ [];
  floats = [];
  texts = [];
  counters = [];
}

one_check : History memory memory_laws "k" 86400 2 (expiry_for 2) 100 (100 ∷ []) first_of_day
unfolding sliding_window expiry_for memory_laws lookup insert
one_check = admits 100 "u" (begins {s = blank} refl) (omega arith) (λ x. x) refl
