-- ===== src/Gateway/SlidingWindow/Examples.antt =====
-- The window at concrete requests, against the server in memory.
use zorch.Prelude.{◌-◌, ◌≤◌, refl, some, [], ◌∷◌, arith}
use zorch.Prelude.Map.{lookup, insert}
use zorch.External.Redis.Memory.{Memory, memory, memory_laws, blank}
use zorch.Gateway.SlidingWindow.{sliding_window}
use zorch.Gateway.SlidingWindow.History.{History, begins, admits, count_above, History-bounded}

abbrev after_one : Memory
after_one = record {
  sets = ("k", record { scores = 100 ∷ []; deadline = some 220 }) ∷ [];
  floats = [];
  texts = [];
  counters = [];
}

one_request : History memory memory_laws "k" 60 2 120 100 (100 ∷ []) after_one
unfolding sliding_window memory_laws lookup insert
one_request = admits 100 "u" (begins {s = blank} refl) (omega arith) (λ x. x) refl

History-bounded_example : count_above (100 - 60) (100 ∷ []) ≤ 2
History-bounded_example =
    History-bounded memory memory_laws "k" 60 2 120 100 (100 ∷ []) after_one (omega arith)
      one_request
