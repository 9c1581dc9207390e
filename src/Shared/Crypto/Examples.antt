-- ===== src/Shared/Crypto/Examples.antt =====
-- A cipher that adds a tag, a nonce of zeros, and an encoding of one character per byte.
use Prim.Native.Char.{char, code}
use zorch.Prelude.{
  ℕ, zero, suc, String, Option, none, some, [], ◌∷◌, ◌++◌, length, nat_beq, if◌then◌else◌, ap, ◌∙◌,
  ◌≡◌, refl, arith,
}
use zorch.Shared.Errors.{ok, got}
use zorch.Shared.Crypto.{Bytes, Ciphers, SecretVault, decoded, encrypt, decrypt, sealed}
use zorch.Shared.Crypto.Vault.{CiphersLaws, decrypt-encrypt}

-- A byte as so many marks and an end.
abbrev tally : ℕ → String → String
tally zero rest = String.◌∷◌ (char 59 tt) rest
tally (suc n) rest = String.◌∷◌ (char 97 tt) (tally n rest)

abbrev tallies : Bytes → String
tallies [] = ""
tallies (b ∷ bytes) = tally b (tallies bytes)

abbrev one_more : Bytes → Bytes
one_more [] = []
one_more (b ∷ bytes) = suc b ∷ bytes

abbrev counts : String → Bytes
counts String.[] = []
counts (String.◌∷◌ c s) =
    let rest = counts s in if nat_beq (code c) 59 then 0 ∷ rest else one_more rest

counts-tally : (n : ℕ) (rest : String) → counts (tally n rest) ≡ n ∷ counts rest
counts-tally zero rest = refl
counts-tally (suc n) rest = ap one_more (counts-tally n rest)

counts-tallies : (bytes : Bytes) → counts (tallies bytes) ≡ bytes
counts-tallies [] = refl
counts-tallies (b ∷ bytes) = counts-tally b (tallies bytes) ∙ ap (λ r. b ∷ r) (counts-tallies bytes)

abbrev zeros : ℕ → Bytes
zeros zero = []
zeros (suc n) = 0 ∷ zeros n

length-zeros : (n : ℕ) → length (zeros n) ≡ n
length-zeros zero = refl
length-zeros (suc n) = ap suc (length-zeros n)

abbrev untag : Bytes → Option Bytes
untag [] = none
untag (tag ∷ bytes) = some bytes

abbrev codes : String → Bytes
codes String.[] = []
codes (String.◌∷◌ c s) = code c ∷ codes s

-- The one text that is used is read again.
abbrev plain : Ciphers (Unit {0})
plain = record {
  sha256 = λ bytes. bytes;
  seal = λ key nonce bytes. got (0 ∷ bytes);
  unseal = λ key nonce bytes. untag bytes;
  fill_bytes = λ n w. (zeros n, w);
  encode = tallies;
  decode = λ s. decoded (counts s);
  show_decode_error = λ e. "error";
  as_bytes = codes;
  from_utf8 = λ bytes. got "key";
}

abbrev plain_laws : CiphersLaws plain
plain_laws = record {
  decode-encode = λ bytes. ap decoded (counts-tallies bytes);
  fill_bytes-length = λ n w. length-zeros n;
  unseal-seal = λ key nonce bytes c e. ground (arith, e);
}

abbrev vault : SecretVault
vault = record { key_bytes = 1 ∷ 2 ∷ [] }

abbrev stored : String
stored = tallies (zeros 12 ++ 0 ∷ codes "key")

decrypt-encrypt_example : decrypt plain vault stored ≡ ok "key"
unfolding encrypt sealed
decrypt-encrypt_example = decrypt-encrypt plain plain_laws vault "key" stored tt refl refl
