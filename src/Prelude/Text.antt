-- ===== src/Prelude/Text.antt =====
-- Text: Python's `str` as the native `String`, a sequence of Unicode scalar values (a `str` with
-- a lone surrogate has no counterpart). Walks by characters, order, concatenation, decimals.
use Prim.Native.Nat.{ℕ, zero, suc, ◌+◌, ◌*◌, ◌/◌, ◌%◌, ◌≤◌, ◌<◌, Ordering}
use Prim.Native.Char.{code}
use Prim.Native.String.{String, compare, char_at}
use mathlib.Core.Bool.{Bool, true, false, not, ◌&&◌, ◌||◌}
use mathlib.Core.Option.{Option, none, some}
use mathlib.Core.List.{List, [], ◌∷◌}
use mathlib.Core.Path.{◌≡◌, refl, subst}
use mathlib.Core.Logic.{inl, inr}
use native.Mathlib.Omega.{arith}
use msys_hal.Prelude.Tests.{
  leb, ltb, ltb→lt, ltb→le, lt→ltb, &&-split, &&-both, Bool-cases, if◌then◌else◌, ◌==◌, string_eq,
  nat_eq,
}

-- The pieces of an f-string, put together.
abbrev pub concat : List String → String
concat [] = ""
concat (s ∷ rest) = Prim.Native.String.◌++◌ s (concat rest)

-- `len(s)`: the number of characters.
abbrev pub len : String → ℕ
len String.[] = 0
len (String.◌∷◌ c s) = suc (len s)

-- `s[:n]`
abbrev pub prefix : ℕ → String → String
prefix zero s = String.[]
prefix (suc n) String.[] = String.[]
prefix (suc n) (String.◌∷◌ c s) = String.◌∷◌ c (prefix n s)

-- Every character satisfies a test of its number.
abbrev pub all_chars : (ℕ → Bool) → String → Bool
all_chars p String.[] = true
all_chars p (String.◌∷◌ c s) = p (code c) && all_chars p s

-- `"\x00" in s`
abbrev pub has_nul : String → Bool
has_nul s = not (all_chars (λ c. not (c == 0)) s)

-- `s.startswith(p)`
abbrev pub starts_with : String → String → Bool
starts_with s String.[] = true
starts_with String.[] (String.◌∷◌ d p) = false
starts_with (String.◌∷◌ c s) (String.◌∷◌ d p) = (code c == code d) && starts_with s p

-- `s.split(sep, 1)[0]`: the characters before the first `sep`.
abbrev pub before : ℕ → String → String
before sep String.[] = String.[]
before sep (String.◌∷◌ c s) = if code c == sep then String.[] else String.◌∷◌ c (before sep s)

-- What stands behind the first `sep`, if there is one.
abbrev pub after : ℕ → String → Option String
after sep String.[] = none
after sep (String.◌∷◌ c s) = if code c == sep then some s else after sep s

-- `a <= b` on texts: lexicographic by code points.
abbrev pub text_le : String → String → Bool
text_le a b = elim (compare a b) [ Ordering.gt ↦ false | _ ↦ true ]

abbrev pub member : String → List String → Bool
member a [] = false
member a (x ∷ xs) = (a == x) || member a xs

-- `sorted(...)` on texts.
abbrev pub insert_text : String → List String → List String
insert_text a [] = a ∷ []
insert_text a (x ∷ xs) = if text_le a x then a ∷ x ∷ xs else x ∷ insert_text a xs

abbrev pub sort_texts : List String → List String
sort_texts [] = []
sort_texts (x ∷ xs) = insert_text x (sort_texts xs)

-- A `set` of texts, each once.
abbrev pub unique : List String → List String
unique [] = []
unique (x ∷ xs) = let rest = unique xs in if member x rest then rest else x ∷ rest

-- `sep.join(items)`
abbrev pub join : String → List String → String
join sep [] = ""
join sep (x ∷ []) = x
join sep (x ∷ y ∷ rest) = concat (x ∷ sep ∷ join sep (y ∷ rest) ∷ [])

-- `str(n)`; the fuel `n` is more than the number of divisions by ten.
decimal_digits : ℕ → ℕ → String → String
decimal_digits zero n acc = String.◌∷◌ (char_at "0123456789" (n % 10)) acc
decimal_digits (suc fuel) n acc = elim (ltb n 10) [
  | true ↦ String.◌∷◌ (char_at "0123456789" n) acc
  | false ↦ decimal_digits fuel (n / 10) (String.◌∷◌ (char_at "0123456789" (n % 10)) acc)
]

unfoldable pub decimal : ℕ → String
unfolding decimal_digits
decimal n = decimal_digits n n ""

decimal_example : (decimal 0 ≡ "0") × (decimal 65536 ≡ "65536")
unfolding decimal
decimal_example = (refl, refl)

abbrev pub is_decimal : ℕ → Bool
is_decimal c = leb 48 c && leb c 57

abbrev pub power_of_ten : ℕ → ℕ
power_of_ten zero = 1
power_of_ten (suc k) = 10 * power_of_ten k

-- A test of all numbers below a bound.
abbrev pub all_below : (ℕ → Bool) → ℕ → Bool
all_below p zero = true
all_below p (suc m) = p m && all_below p m

pub all_below-lem : (p : ℕ → Bool) (m : ℕ) → all_below p m ≡ true → (n : ℕ) → n < m → p n ≡ true
all_below-lem p zero h n small = absurd (omega arith)
all_below-lem p (suc m) h n small =
    let (here, more) = &&-split (p m) (all_below p m) h in
    elim (Bool-cases (ltb n m)) [
      | inl below ↦ all_below-lem p m more n (ltb→lt n m below)
      | inr last ↦
          let same : m ≡ n = omega (arith, ltb→le n m last) in subst (λ k. p k ≡ true) same here
    ]

digit-decimal : (n : ℕ) → n < 10 → is_decimal (code (char_at "0123456789" n)) ≡ true
digit-decimal n h = all_below-lem (λ k. is_decimal (code (char_at "0123456789" k))) 10 refl n h

decimal_digits-lem :
    (fuel k n : ℕ) (acc : String)
    → n < power_of_ten (suc k)
    → all_chars is_decimal acc ≡ true
    → (all_chars is_decimal (decimal_digits fuel n acc) ≡ true)
      × (len (decimal_digits fuel n acc) ≤ suc k + len acc)
unfolding decimal_digits
decimal_digits-lem zero k n acc small h =
    (&&-both (digit-decimal (n % 10) (omega arith)) h, omega arith)
decimal_digits-lem (suc fuel) zero n acc small h =
    rw (lt→ltb n 10 (omega arith), decimal_digits)
      (&&-both (digit-decimal n (omega arith)) h, omega arith)
decimal_digits-lem (suc fuel) (suc j) n acc small h =
    let digit = String.◌∷◌ (char_at "0123456789" (n % 10)) acc in
    let (every, size) =
      decimal_digits-lem fuel j (n / 10) digit (omega arith)
        (&&-both (digit-decimal (n % 10) (omega arith)) h) in
    elim (Bool-cases (ltb n 10)) [
      | inl last ↦
          rw (last, decimal_digits) (&&-both (digit-decimal n (ltb→lt n 10 last)) h, omega arith)
      | inr more ↦ rw (more, decimal_digits) (every, omega (arith, size))
    ]

-- A number below a power of ten is written in so many digits.
pub decimal-IsShort :
    (k n : ℕ)
    → n < power_of_ten (suc k)
    → (all_chars is_decimal (decimal n) ≡ true) × (len (decimal n) ≤ suc k)
unfolding decimal decimal_digits
decimal-IsShort k n small =
    let (every, size) = decimal_digits-lem n k n "" small refl in (every, omega (arith, size))
