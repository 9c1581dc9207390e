-- ===== src/Shared/Lines.antt =====
-- The methods of `str` that split a text into lines and trim it.
use Prim.Native.Char.{Char, code}
use zorch.Prelude.{
  ℕ, ◌+◌, ltb, Bool, true, false, ◌&&◌, ◌||◌, String, List, [], ◌∷◌, leb, nat_beq, if◌then◌else◌,
}
use zorch.Prelude.Classes.{◌==◌, string_eq}

unfoldable pub starts_line_feed : String → Bool
starts_line_feed String.[] = false
starts_line_feed (String.◌∷◌ c s) = nat_beq (code c) 10

unfoldable pub push_first : Char → List String → List String
push_first c [] = String.◌∷◌ c "" ∷ []
push_first c (l ∷ ls) = String.◌∷◌ c l ∷ ls

-- `lines`: a line ends with a line feed or with a carriage return and a line feed, and the last one
-- may go without.
unfoldable pub lines : String → List String
lines String.[] = []
lines (String.◌∷◌ c s) =
    let rest = lines s in
    if nat_beq (code c) 13 && starts_line_feed s
    then rest
    else if nat_beq (code c) 10
    then "" ∷ rest
    else push_first c rest

-- White_Space of Unicode
unfoldable pub is_whitespace : ℕ → Bool
is_whitespace n =
    (leb 9 n && leb n 13)
    || nat_beq n 32
    || nat_beq n 133
    || nat_beq n 160
    || nat_beq n 5760
    || (leb 8192 n && leb n 8202)
    || nat_beq n 8232
    || nat_beq n 8233
    || nat_beq n 8239
    || nat_beq n 8287
    || nat_beq n 12288

unfoldable pub trim_start : String → String
trim_start String.[] = ""
trim_start (String.◌∷◌ c s) =
    let rest = trim_start s in if is_whitespace (code c) then rest else String.◌∷◌ c s

unfoldable pub trim_end : String → String
trim_end String.[] = ""
trim_end (String.◌∷◌ c s) =
    let rest = trim_end s in if rest == "" && is_whitespace (code c) then "" else String.◌∷◌ c rest

unfoldable pub trim : String → String
trim s = trim_end (trim_start s)

-- `str::len`, in bytes of UTF-8
unfoldable pub byte_len : String → ℕ
byte_len String.[] = 0
byte_len (String.◌∷◌ c s) =
    let n = code c in
    let rest = byte_len s in
    rest + (if ltb n 128 then 1 else if ltb n 2048 then 2 else if ltb n 65536 then 3 else 4)

unfoldable pub all_chars : (ℕ → Bool) → String → Bool
all_chars p String.[] = true
all_chars p (String.◌∷◌ c s) = p (code c) && all_chars p s
