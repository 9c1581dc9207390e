-- ===== src/Prelude/Classes.antt =====
-- Equality tests of key types, as instances.
use Prim.Native.Nat.{ℕ}
use Prim.Native.String.{String}
use mathlib.Core.Path.{◌≡◌, refl}
use mathlib.Core.Logic.{◌↔◌, ◌≢◌}
use mathlib.Core.Bool.{Bool, true, false}
use native.Mathlib.Omega.{arith}
use text.Mathlib.Text.{◌==◌ as str_eq}
use text.Mathlib.TextEquality.{eq_iff}
use zorch.Prelude.Tests.{nat_beq, nat_beq_iff}

-- `PartialEq` of a type whose test decides equality.
pub record Eq {κ} (K : Type κ) : Type κ where
  pub beq : (x y : K) → Bool
  pub beq_iff : (x y : K) → (beq x y ≡ true) ↔ (x ≡ y)

instance abbrev pub string_eq : Eq String
string_eq = record { beq_iff = eq_iff; beq = str_eq }

instance abbrev pub nat_eq : Eq ℕ
nat_eq = record { beq_iff = nat_beq_iff; beq = nat_beq }

module _ {κ} {K : Type κ} ⦃d : Eq K⦄ where
  infix 50 ◌==◌
  abbrev pub ◌==◌ : (x y : K) → Bool
  x == y = d.beq x y

  pub beq_refl : (x : K) → (x == x) ≡ true
  beq_refl x = (d.beq_iff x x).1 refl

  pub beq_ne : (x y : K) → x ≢ y → (x == y) ≡ false
  beq_ne x y h = ground (arith, d.beq_iff x y)

  pub ne_of_beq : (x y : K) → (x == y) ≡ false → x ≢ y
  ne_of_beq x y h e = ground (arith, h, (d.beq_iff x y).1 e)
