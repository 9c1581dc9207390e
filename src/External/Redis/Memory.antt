-- ===== src/External/Redis/Memory.antt =====
-- A server in memory that meets the laws of the sorted sets: it shows that the hypotheses can
-- hold, and lets the theorems be read at concrete requests. Every command succeeds.
use zorch.Prelude.{ℕ, ◌+◌, ◌≡◌, ◌≢◌, String, none, some, List, [], ◌∷◌, arith, length, unwrap_or}
use zorch.Prelude.Classes.{string_eq, beq_refl, beq_ne}
use zorch.Prelude.Map.{lookup, insert, erase, lookup-insert}
use zorch.Shared.Float.{F64}
use zorch.Shared.Errors.{Reply, got}
use zorch.External.Redis.{Redis}
use zorch.External.Redis.Laws.{Window, SortedSetLaws, above, alive, keep_deadline}

pub record Memory : Type 0 where
  pub sets : List (String × Window)
  pub floats : List (String × F64)
  pub texts : List (String × String)
  pub counters : List (String × ℕ)

abbrev pub blank : Memory
blank = record { sets = []; floats = []; texts = []; counters = [] }

abbrev empty_window : Window
empty_window = record { scores = []; deadline = none }

abbrev pub window_of : Memory → String → Window
window_of s k = unwrap_or (lookup k s.sets) empty_window

abbrev store : String → Window → Memory → Memory
store k w s = record s { sets = insert k w s.sets }

abbrev trim : ℕ → String → ℕ → Memory → Reply ℕ × Memory
trim t k hi s =
    let kept = above hi (alive t (window_of s k)) in
    (
      got (length kept),
      store k (record { scores = kept; deadline = keep_deadline kept (window_of s k).deadline }) s,
    )

abbrev add : ℕ → String → ℕ × String → ℕ → Memory → Reply (Unit {0}) × Memory
add t k m score s =
    let old = alive t (window_of s k) in
    (
      got tt,
      store k
          (record { scores = score ∷ old; deadline = keep_deadline old (window_of s k).deadline })
          s,
    )

abbrev renew : ℕ → String → ℕ → Memory → Reply (Unit {0}) × Memory
renew t k secs s =
    (got tt, store k (record { scores = alive t (window_of s k); deadline = some (t + secs) }) s)

abbrev pub memory : Redis
memory = record {
  Server = Memory;
  connect = λ s. got tt;
  trim_and_count = trim;
  zadd = add;
  expire = renew;
  get_float = λ t k s. got (lookup k s.floats);
  incr_by_float = λ t k x s. (got x, record s { floats = insert k x s.floats });
  get_text = λ t k s. got (lookup k s.texts);
  set_text = λ t k v s. (got tt, record s { texts = insert k v s.texts });
  incr = λ t k s.
      let n = unwrap_or (lookup k s.counters) 0 + 1 in
      (got n, record s { counters = insert k n s.counters });
  del = λ t k s. (got tt, record s { texts = erase k s.texts });
}

pub window-store : (k : String) (w : Window) (s : Memory) → window_of (store k w s) k ≡ w
window-store k w s = rw (lookup-insert k k w s.sets) (rw (beq_refl k))

pub window-store_other :
    (k j : String) (w : Window) (s : Memory) → k ≢ j → window_of (store k w s) j ≡ window_of s j
window-store_other k j w s h = rw (lookup-insert k j w s.sets) (rw (beq_ne k j h))

pub got_injective : (n m : ℕ) → got m ≡ got n → n ≡ m
got_injective n m h = ground arith

unfoldable pub memory_laws : SortedSetLaws memory
memory_laws = record {
  window = window_of;
  IsMember = λ s k m. ⊥;
  count_ok = λ t k hi n s h. (got_injective n _ h, window-store k _ s);
  zadd_ok = λ t k m score s f h. window-store k _ s;
  expire_ok = λ t k secs s f h. window-store k _ s;
  trim_and_count_other = λ t k j hi s h. window-store_other k j _ s h;
  zadd_other = λ t k j m score s h. window-store_other k j _ s h;
  expire_other = λ t k j secs s h. window-store_other k j _ s h;
}
