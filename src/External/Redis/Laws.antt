-- ===== src/External/Redis/Laws.antt =====
-- The documented behaviour of the sorted-set commands and of EXPIRE, as hypotheses on a server:
-- what a command that succeeds does to its key, and that no command touches another key.
use zorch.Prelude.{
  ℕ, ◌+◌, ◌≡◌, ◌≢◌, Bool, false, String, Option, none, some, List, [], ◌∷◌, leb, ltb, length,
  if◌then◌else◌,
}
use zorch.Shared.Errors.{got}
use zorch.External.Redis.{Redis}

-- The key has passed its deadline.
abbrev pub expired : ℕ → Option ℕ → Bool
expired t none = false
expired t (some d) = leb d t

-- The scores above a bound: what is left when those up to it are removed.
abbrev pub above : ℕ → List ℕ → List ℕ
above lo [] = []
above lo (t ∷ ts) = let rest = above lo ts in if ltb lo t then t ∷ rest else rest

-- The sorted set of one key: its scores, and when the key expires.
pub record Window : Type 0 where
  pub scores : List ℕ
  pub deadline : Option ℕ

abbrev pub alive : ℕ → Window → List ℕ
alive t w = if expired t w.deadline then [] else w.scores

-- Redis deletes a key, and its deadline, with the last member of its set.
abbrev pub keep_deadline : List ℕ → Option ℕ → Option ℕ
keep_deadline [] d = none
keep_deadline (x ∷ xs) d = d

pub record SortedSetLaws (r : Redis) : Type 1 where
  pub window : r.Server → String → Window
  pub IsMember : r.Server → String → ℕ × String → Type 0
  pub count_ok :
      (t : ℕ) (k : String) (hi n : ℕ) (s : r.Server)
      → (r.trim_and_count t k hi s).0 ≡ got n
      → let kept = above hi (alive t (window s k)) in
        (n ≡ length kept)
        × (window (r.trim_and_count t k hi s).1 k
            ≡ record { scores = kept; deadline = keep_deadline kept (window s k).deadline })
  pub zadd_ok :
      (t : ℕ) (k : String) (m : ℕ × String) (score : ℕ) (s : r.Server)
      → ¬ IsMember s k m
      → (r.zadd t k m score s).0 ≡ got tt
      → let old = alive t (window s k) in
        window (r.zadd t k m score s).1 k
        ≡ record { scores = score ∷ old; deadline = keep_deadline old (window s k).deadline }
  pub expire_ok :
      (t : ℕ) (k : String) (secs : ℕ) (s : r.Server)
      → alive t (window s k) ≢ []
      → (r.expire t k secs s).0 ≡ got tt
      → window (r.expire t k secs s).1 k
        ≡ record { scores = alive t (window s k); deadline = some (t + secs) }
  pub trim_and_count_other :
      (t : ℕ) (k j : String) (hi : ℕ) (s : r.Server)
      → k ≢ j
      → window (r.trim_and_count t k hi s).1 j ≡ window s j
  pub zadd_other :
      (t : ℕ) (k j : String) (m : ℕ × String) (score : ℕ) (s : r.Server)
      → k ≢ j
      → window (r.zadd t k m score s).1 j ≡ window s j
  pub expire_other :
      (t : ℕ) (k j : String) (secs : ℕ) (s : r.Server)
      → k ≢ j
      → window (r.expire t k secs s).1 j ≡ window s j
