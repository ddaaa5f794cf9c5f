-- ===== src/Radios/Lines.antt =====
-- Python's text methods that radios.py calls: `splitlines`, `split`, `casefold`, `replace`,
-- `isprintable`, the UTF-8 encoding and its hexadecimal form.
pub mod Plain
use msys_hal.Prelude.{
  ℕ, zero, suc, ◌+◌, ◌-◌, ◌/◌, ◌%◌, String, Bool, false, ◌&&◌, ◌||◌, none, some, List, [], ◌∷◌,
  ◌++◌, leb, ltb, before, after, all_chars, len, length, all, if◌then◌else◌, ◌==◌, nat_eq,
}
use Prim.Native.Char.{Char, code}
use Prim.Native.String.{char_at}
use msys_hal.Validation.Patterns.{is_digit, is_upper}

-- A character in front of the first text.
abbrev pub add_char : Char → List String → List String
add_char c [] = String.◌∷◌ c String.[] ∷ []
add_char c (l ∷ ls) = String.◌∷◌ c l ∷ ls

-- The characters that end a line.
abbrev pub is_break : ℕ → Bool
is_break c = (leb 10 c && leb c 13) || (leb 28 c && leb c 30) || c == 133 || c == 8232 || c == 8233

-- `s.splitlines()`; the flag says that a carriage return has just ended a line, so that a line feed
-- belongs to it.
abbrev pub lines_from : Bool → String → List String
lines_from after_return String.[] = []
lines_from after_return (String.◌∷◌ c s) =
    let rest = lines_from (code c == 13) s in
    if after_return && code c == 10
    then rest
    else if is_break (code c)
    then String.[] ∷ rest
    else add_char c rest

unfoldable pub split_lines : String → List String
split_lines s = lines_from false s

-- `s.split(sep)`
abbrev pub pieces : ℕ → String → List String
pieces sep String.[] = String.[] ∷ []
pieces sep (String.◌∷◌ c s) =
    let rest = pieces sep s in if code c == sep then String.[] ∷ rest else add_char c rest

-- `s.split(sep, n)`
abbrev pub split_max : ℕ → ℕ → String → List String
split_max sep zero s = s ∷ []
split_max sep (suc n) s = elim (after sep s) [
  | none ↦ s ∷ []
  | some rest ↦ before sep s ∷ split_max sep n rest
]

-- `s.casefold()`, of ASCII letters; it is called on texts whose ASCII letters alone count.
abbrev pub casefold : String → String
casefold String.[] = String.[]
casefold (String.◌∷◌ c s) =
    let rest = casefold s in
    if is_upper (code c)
    then String.◌∷◌ (char_at "abcdefghijklmnopqrstuvwxyz" (code c - b'A')) rest
    else String.◌∷◌ c rest

-- `s + t`
abbrev pub glue : String → String → String
glue String.[] t = t
glue (String.◌∷◌ c s) t = String.◌∷◌ c (glue s t)

-- `s.replace(old, new)` for one character `old`.
abbrev pub replace : ℕ → String → String → String
replace old new String.[] = String.[]
replace old new (String.◌∷◌ c s) =
    let rest = replace old new s in if code c == old then glue new rest else String.◌∷◌ c rest

-- The bytes of `s.encode("utf-8")`.
abbrev pub utf8_of : ℕ → List ℕ
utf8_of c =
    if ltb c 128
    then c ∷ []
    else if ltb c 2048
    then (192 + c / 64) ∷ (128 + c % 64) ∷ []
    else if ltb c 65536
    then (224 + c / 4096) ∷ (128 + c / 64 % 64) ∷ (128 + c % 64) ∷ []
    else (240 + c / 262144) ∷ (128 + c / 4096 % 64) ∷ (128 + c / 64 % 64) ∷ (128 + c % 64) ∷ []

abbrev pub utf8 : String → List ℕ
utf8 String.[] = []
utf8 (String.◌∷◌ c s) = utf8_of (code c) ++ utf8 s

abbrev pub hex_digit : ℕ → Char
hex_digit n = char_at "0123456789abcdef" n

-- `data.hex()`, of bytes
abbrev pub hex : List ℕ → String
hex [] = String.[]
hex (b ∷ bs) = String.◌∷◌ (hex_digit (b / 16 % 16)) (String.◌∷◌ (hex_digit (b % 16)) (hex bs))

abbrev pub is_hex_lower : ℕ → Bool
is_hex_lower c = is_digit c || (leb b'a' c && leb c b'f')

abbrev pub is_hex : ℕ → Bool
is_hex c = is_hex_lower c || (leb b'A' c && leb c b'F')

-- `(?:[0-9A-Fa-f]{2}:){low,high}[0-9A-Fa-f]{2}` under `fullmatch`
unfoldable pub is_address : ℕ → ℕ → String → Bool
is_address low high s =
    let parts = pieces b':' s in
    (leb (low + 1) (length parts) && leb (length parts) (high + 1))
    && all (λ part. len part == 2 && all_chars is_hex part) parts

-- `[0-9]{1,n}` under `fullmatch`
unfoldable pub is_number : ℕ → String → Bool
is_number n s = (leb 1 (len s) && leb (len s) n) && all_chars is_digit s

-- A printable ASCII character.
abbrev pub is_plain : ℕ → Bool
is_plain c = leb 32 c && leb c 126
