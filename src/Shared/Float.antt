-- ===== src/Shared/Float.antt =====
-- f64. A value is its 64-bit pattern, so that the literals of the source are exact; the arithmetic
-- is the processor's, a parameter. `a >= b` is `le b a` and `a > b` is `lt b a`, as in IEEE 754,
-- where each of them is false at a NaN.
use zorch.Prelude.{ℕ, ◌+◌, Bool, true, ltb, leb, nat_beq}

abbrev pub F64 : Type 0
F64 = ℕ

pub record Fpu : Type 0 where
  pub add : F64 → F64 → F64
  pub mul : F64 → F64 → F64
  pub div : F64 → F64 → F64
  pub lt : F64 → F64 → Bool
  pub le : F64 → F64 → Bool
  pub eq : F64 → F64 → Bool
  pub is_finite : F64 → Bool
  pub of_int : ℕ → F64
  -- `as u64`, which truncates
  pub to_int : F64 → ℕ

-- 0.0, 0.2, 0.8, 1.0, 100.0, 1_000_000.0, f64::MAX
abbrev pub f64_zero : F64
f64_zero = 0

abbrev pub f64_0_2 : F64
f64_0_2 = 4596373779694328218

abbrev pub f64_0_8 : F64
f64_0_8 = 4605380978949069210

abbrev pub f64_one : F64
f64_one = 4607182418800017408

abbrev pub f64_hundred : F64
f64_hundred = 4636737291354636288

abbrev pub f64_million : F64
f64_million = 4696837146684686336

abbrev pub f64_max : F64
f64_max = 9218868437227405311

-- For the examples: patterns as integers, which orders the numbers that are not negative.
abbrev pub integers : Fpu
integers = record {
  add = λ a b. a + b;
  mul = λ a b. a;
  div = λ a b. a;
  lt = ltb;
  le = leb;
  eq = nat_beq;
  is_finite = λ a. true;
  of_int = λ n. n;
  to_int = λ a. a;
}
