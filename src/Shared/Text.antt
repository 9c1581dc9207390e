-- ===== src/Shared/Text.antt =====
-- Texts that begin with different literals are different: the keys of the Redis server.
use Prim.Native.Char.{code}
use Prim.Native.String.{◌++◌ as cat}
use text.Mathlib.TextLemmas.{cons-append}
use zorch.Prelude.{ℕ, zero, suc, ◌<◌, ◌≡◌, ◌≢◌, sym, ap, ◌∙◌, String, arith}

infixr 65 ◌+++◌
-- `format!` of a literal and a text
abbrev pub ◌+++◌ : String → String → String
s +++ t = cat s t

abbrev pub size : String → ℕ
size String.[] = 0
size (String.◌∷◌ c s) = suc (size s)

-- the character at a position, 0 past the end
unfoldable pub code_at : ℕ → String → ℕ
code_at n String.[] = 0
code_at zero (String.◌∷◌ c s) = code c
code_at (suc n) (String.◌∷◌ c s) = code_at n s

code_at-append : (n : ℕ) (s t : String) → n < size s → code_at n (s +++ t) ≡ code_at n s
unfolding code_at
code_at-append n String.[] t h = elim h [ ]
code_at-append zero (String.◌∷◌ c s) t h = rw cons-append
code_at-append (suc n) (String.◌∷◌ c s) t h = rw cons-append (code_at-append n s t (omega arith))

pub append_apart :
    (n : ℕ) (s t a b : String)
    → n < size s
    → n < size t
    → code_at n s ≢ code_at n t
    → s +++ a ≢ t +++ b
append_apart n s t a b p q h e =
    h (sym (code_at-append n s a p) ∙ ap (code_at n) e ∙ code_at-append n t b q)
