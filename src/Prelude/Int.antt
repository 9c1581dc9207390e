-- ===== src/Prelude/Int.antt =====
-- Signed machine integers of the source (i16, i32) and their casts.
use Prim.Native.Nat.{ℕ, suc, ◌+◌, ◌-◌, ◌%◌, ◌^◌}
use mathlib.Core.Bool.{Bool, true, false}
use mathlib.Core.Path.{◌≡◌, refl, ap}
use native.Mathlib.Omega.{arith}
use zorch.Prelude.Tests.{ltb, leb, nat_beq, if◌then◌else◌}

-- `negsuc n` is -(n + 1).
pub data ℤ : Type 0 where
  pos : ℕ → ℤ
  negsuc : ℕ → ℤ

-- `v as u64` and `v as u8`: sign extension, then the low bits.
abbrev pub as_u64 : ℤ → ℕ
as_u64 (pos n) = n % 2 ^ 64
as_u64 (negsuc n) = (2 ^ 64 - suc (n % 2 ^ 64)) % 2 ^ 64

abbrev pub as_u8 : ℤ → ℕ
as_u8 (pos n) = n % 256
as_u8 (negsuc n) = (256 - suc (n % 256)) % 256

-- `v as i32` of a u32 or a u64: the low bits, the upper half of which are negative.
abbrev pub as_i32 : ℕ → ℤ
as_i32 n = let low = n % 2 ^ 32 in if ltb low (2 ^ 31) then pos low else negsuc (2 ^ 32 - suc low)

-- `v as i64` of a u64
abbrev pub as_i64 : ℕ → ℤ
as_i64 n = let low = n % 2 ^ 64 in if ltb low (2 ^ 63) then pos low else negsuc (2 ^ 64 - suc low)

-- `v < 0`
abbrev pub is_negative : ℤ → Bool
is_negative (pos n) = false
is_negative (negsuc n) = true

-- `a <= b` and `a == b`
abbrev pub int_leb : ℤ → ℤ → Bool
int_leb (pos m) (pos n) = leb m n
int_leb (pos m) (negsuc n) = false
int_leb (negsuc m) (pos n) = true
int_leb (negsuc m) (negsuc n) = leb n m

abbrev pub int_beq : ℤ → ℤ → Bool
int_beq (pos m) (pos n) = nat_beq m n
int_beq (negsuc m) (negsuc n) = nat_beq m n
int_beq (pos m) (negsuc n) = false
int_beq (negsuc m) (pos n) = false

pub int_leb_refl : (a : ℤ) → int_leb a a ≡ true
int_leb_refl (pos n) = ground arith
int_leb_refl (negsuc n) = ground arith

pub int_leb_total : (a b : ℤ) → int_leb a b ≡ false → int_leb b a ≡ true
int_leb_total (pos m) (pos n) h = ground (arith, h)
int_leb_total (pos m) (negsuc n) h = refl
int_leb_total (negsuc m) (pos n) h = ground (arith, h)
int_leb_total (negsuc m) (negsuc n) h = ground (arith, h)

pub int_leb_trans : (a b c : ℤ) → int_leb a b ≡ true → int_leb b c ≡ true → int_leb a c ≡ true
int_leb_trans (pos m) (pos n) (pos k) h i = ground (arith, h, i)
int_leb_trans (pos m) (negsuc n) c h i = ground (arith, h)
int_leb_trans (pos m) (pos n) (negsuc k) h i = ground (arith, i)
int_leb_trans (negsuc m) b (pos k) h i = refl
int_leb_trans (negsuc m) (pos n) (negsuc k) h i = ground (arith, i)
int_leb_trans (negsuc m) (negsuc n) (negsuc k) h i = ground (arith, h, i)

pub int_beq-eq : (a b : ℤ) → int_beq a b ≡ true → a ≡ b
int_beq-eq (pos m) (pos n) h = let e : m ≡ n = ground (arith, h) in ap pos e
int_beq-eq (negsuc m) (negsuc n) h = let e : m ≡ n = ground (arith, h) in ap negsuc e
int_beq-eq (pos m) (negsuc n) h = ground (arith, h)
int_beq-eq (negsuc m) (pos n) h = ground (arith, h)

pub int_beq_refl : (a : ℤ) → int_beq a a ≡ true
int_beq_refl (pos n) = ground arith
int_beq_refl (negsuc n) = ground arith

-- `i32::saturating_sub`
abbrev pub clamp_i32 : ℤ → ℤ
clamp_i32 (pos n) = pos (if leb n 2147483647 then n else 2147483647)
clamp_i32 (negsuc n) = negsuc (if leb n 2147483647 then n else 2147483647)

abbrev pub int_sub : ℤ → ℤ → ℤ
int_sub (pos m) (pos n) = if leb n m then pos (m - n) else negsuc (n - suc m)
int_sub (pos m) (negsuc n) = pos (m + suc n)
int_sub (negsuc m) (pos n) = negsuc (m + n)
int_sub (negsuc m) (negsuc n) = if leb m n then pos (n - m) else negsuc (m - suc n)

abbrev pub saturating_sub : ℤ → ℤ → ℤ
saturating_sub a b = clamp_i32 (int_sub a b)
