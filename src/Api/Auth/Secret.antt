-- ===== src/Api/Auth/Secret.antt =====
-- The comparison of secrets in crates/zorch-api/src/middleware/auth.rs; bytes are numbers below 256.
use zorch.Prelude.{
  ℕ, zero, suc, ◌+◌, ◌*◌, ◌/◌, ◌%◌, ◌^◌, ◌<◌, ◌≡◌, ◌↔◌, refl, ap, Bool-cases, inl, inr, Bool, true,
  false, List, [], ◌∷◌, All, length, nat_beq, if◌then◌else◌, arith,
}

-- The bit-wise operations on w-bit numbers.
unfoldable pub bit_xor : ℕ → ℕ → ℕ → ℕ
bit_xor zero a b = 0
bit_xor (suc w) a b = (if nat_beq (a % 2) (b % 2) then 0 else 1) + 2 * bit_xor w (a / 2) (b / 2)

unfoldable pub bit_or : ℕ → ℕ → ℕ → ℕ
bit_or zero a b = 0
bit_or (suc w) a b = (if nat_beq (a % 2 + b % 2) 0 then 0 else 1) + 2 * bit_or w (a / 2) (b / 2)

-- diff |= x ^ y over the pairs of bytes
unfoldable pub differences : ℕ → List ℕ → List ℕ → ℕ
differences diff [] ys = diff
differences diff (a ∷ xs) [] = diff
differences diff (a ∷ xs) (b ∷ ys) = differences (bit_or 8 diff (bit_xor 8 a b)) xs ys

unfoldable pub constant_time_eq : List ℕ → List ℕ → Bool
constant_time_eq a b =
    if nat_beq (length a) (length b) then nat_beq (differences 0 a b) 0 else false

double : (w : ℕ) → 2 ^ suc w ≡ 2 * 2 ^ w
double w = omega arith

module _ (w a b : ℕ) (p : a < 2 ^ suc w) (q : b < 2 ^ suc w) where
  halves : (a / 2 < 2 ^ w) × (b / 2 < 2 ^ w)
  halves = (omega (arith, double w), omega (arith, double w))

bit_xor-zero : (w a b : ℕ) → a < 2 ^ w → b < 2 ^ w → (bit_xor w a b ≡ 0) ↔ (a ≡ b)
unfolding bit_xor
bit_xor-zero zero a b p q = (λ h. omega arith, λ h. refl)
bit_xor-zero (suc w) a b p q =
    let h = halves w a b p q in
    let rest = bit_xor-zero w (a / 2) (b / 2) h.0 h.1 in
    (λ e. ground (arith, e, rest), λ e. ground (arith, e, rest))

bit_xor-lt : (w a b : ℕ) → bit_xor w a b < 2 ^ w
unfolding bit_xor
bit_xor-lt zero a b = omega arith
bit_xor-lt (suc w) a b = ground (arith, double w, bit_xor-lt w (a / 2) (b / 2))

bit_or-lt : (w a b : ℕ) → bit_or w a b < 2 ^ w
unfolding bit_or
bit_or-lt zero a b = omega arith
bit_or-lt (suc w) a b = ground (arith, double w, bit_or-lt w (a / 2) (b / 2))

bit_or-zero : (w a b : ℕ) → a < 2 ^ w → b < 2 ^ w → (bit_or w a b ≡ 0) ↔ ((a ≡ 0) × (b ≡ 0))
unfolding bit_or
bit_or-zero zero a b p q = (λ h. (omega arith, omega arith), λ h. refl)
bit_or-zero (suc w) a b p q =
    let h = halves w a b p q in
    let rest = bit_or-zero w (a / 2) (b / 2) h.0 h.1 in
    (λ e. ground (arith, e, rest), λ e. ground (arith, e, rest))

abbrev pub AreBytes : List ℕ → Type 0
AreBytes = All (λ b. b < 256)

differences-zero :
    (diff : ℕ) (xs ys : List ℕ)
    → diff < 256
    → AreBytes xs
    → AreBytes ys
    → length xs ≡ length ys
    → (differences diff xs ys ≡ 0) ↔ ((diff ≡ 0) × (xs ≡ ys))
unfolding differences
differences-zero diff [] [] d p q n = (λ h. (h, refl), λ h. h.0)
differences-zero diff [] (y ∷ ys) d p q n = absurd (omega (arith, n))
differences-zero diff (x ∷ xs) [] d p q n = absurd (omega (arith, n))
differences-zero diff (x ∷ xs) (y ∷ ys) d p q n =
    let e = bit_xor-zero 8 x y p.0 q.0 in
    let o = bit_or-zero 8 diff (bit_xor 8 x y) d (bit_xor-lt 8 x y) in
    let rest =
      differences-zero (bit_or 8 diff (bit_xor 8 x y)) xs ys (bit_or-lt 8 diff (bit_xor 8 x y)) p.1
        q.1 (omega (arith, n)) in
    (λ h. ground (arith, h, e, o, rest), λ h. ground (arith, h, e, o, rest))

-- The comparison answers yes for equal secrets only, and for these always.
pub constant_time_eq_iff :
    (a b : List ℕ) → AreBytes a → AreBytes b → (constant_time_eq a b ≡ true) ↔ (a ≡ b)
unfolding constant_time_eq
constant_time_eq_iff a b p q = elim (Bool-cases (nat_beq (length a) (length b))) [
  | inl n ↦
      let d = differences-zero 0 a b (omega arith) p q (ground (arith, n)) in
      (λ h. (d.0 (ground (arith, n, h))).1, λ h. ground (arith, n, d.1 (refl, h)))
  | inr n ↦ (λ h. absurd (ground (arith, n, h)), λ h. ground (arith, n, ap length h))
]
