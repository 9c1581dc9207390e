-- ===== src/Cache/Examples.antt =====
-- The sticky cache on the server in memory.
use zorch.Prelude.{
  ℕ, ◌≡◌, refl, String, Option, some, [], ◌∷◌, arith, nat_beq, if◌then◌else◌, nat_beq,
}
use zorch.Prelude.Classes.{◌==◌, string_eq, beq_refl}
use zorch.Prelude.Map.{lookup, insert, lookup-insert}
use zorch.Shared.Errors.{got}
use zorch.External.Redis.Memory.{Memory, memory, blank}
use zorch.Cache.StickyTargetKey.{Uuid, get, set, parsed, TextLaws, get-set}

-- Two ids.
abbrev ids : Uuid
ids = record {
  to_string = λ n. if nat_beq n 7 then "seven" else "eight";
  parse = λ s. if s == "seven" then some 7 else some 8;
}

got_same : (a b : Option String) → got a ≡ got b → b ≡ a
got_same a b h = ground arith

stored : (k v : String) (s : Memory) → lookup k (insert k v s.texts) ≡ some v
stored k v s = rw (lookup-insert k k v s.texts) (rw (beq_refl k))

memory_texts : TextLaws memory
memory_texts = record {
  text_at = λ s t k. lookup k s.texts;
  get_ok = λ t k s v h. got_same (lookup k s.texts) v h;
  set_ok = λ t k v s h. stored k v s;
  expire_keeps = λ t t' k secs s h p q. refl;
}

abbrev mapped : Memory
mapped = record {
  sets = ("zorch:sticky_target_key:k:openai", record { scores = []; deadline = some 400 }) ∷ [];
  floats = [];
  texts = ("zorch:sticky_target_key:k:openai", "seven") ∷ [];
  counters = [];
}

abbrev found : Option ℕ
found = some 7

get-set_example : found ≡ some 7
unfolding get set parsed lookup insert
get-set_example =
    get-set memory memory_texts ids 300 100 399 "k" "openai" 7 blank mapped mapped found refl
      (omega arith) (omega arith) refl refl

abbrev counted : Memory
counted = record {
  sets = ("zorch:target_key_rr:k:openai", record { scores = []; deadline = some 400 }) ∷ [];
  floats = [];
  texts = [];
  counters = ("zorch:target_key_rr:k:openai", 1) ∷ [];
}
