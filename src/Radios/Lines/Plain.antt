-- ===== src/Radios/Lines/Plain.antt =====
-- Texts of printable ASCII characters: their pieces, decimals, hexadecimal forms and UTF-8 sizes.
use msys_hal.Prelude.{
  ℕ, suc, ◌+◌, ◌*◌, ◌/◌, ◌%◌, ◌≤◌, ◌<◌, ◌≡◌, refl, ap, String, Bool, true, List, [], ◌∷◌, len,
  length, all_chars, decimal, decimal-IsShort, is_decimal, all_below-lem, lt→ltb, ◌-◌, ◌==◌, nat_eq,
  &&-split, &&-both, arith, if◌then◌else◌, Bool-cases, inl, inr,
}
use Prim.Native.Char.{code}
use Prim.Native.String.{char_at}
use text.Mathlib.TextLemmas.{nil-append, cons-append}
use msys_hal.Validation.Patterns.{is_upper}
use msys_hal.Radios.Lines.{utf8, hex, hex_digit, is_hex, is_plain, glue, casefold, replace}

-- A text of at most so many printable ASCII characters.
pub record IsPlain (bound : ℕ) (s : String) : Type 0 where
  pub plain : all_chars is_plain s ≡ true
  pub short : len s ≤ bound

weaker :
    (p q : ℕ → Bool)
    → ((c : ℕ) → p c ≡ true → q c ≡ true)
    → (s : String) → all_chars p s ≡ true
    → all_chars q s ≡ true
weaker p q h String.[] k = refl
weaker p q h (String.◌∷◌ c s) k =
    let (here, more) = &&-split (p (code c)) (all_chars p s) k in
    &&-both (h (code c) here) (weaker p q h s more)

pub IsPlain-append :
    {m n : ℕ} (s t : String)
    → IsPlain m s
    → IsPlain n t
    → IsPlain (m + n) (Prim.Native.String.◌++◌ s t)
IsPlain-append {m} {n} String.[] t h k =
    rw (nil-append t) (record { plain = k.plain; short = omega (arith, k.short) })
IsPlain-append {m} {n} (String.◌∷◌ c s) t h k =
    let (here, more) = &&-split (is_plain (code c)) (all_chars is_plain s) h.plain in
    let rest = IsPlain-append {m = len s} s t (record { plain = more; short = omega arith }) k in
    rw (cons-append c s t)
      (record { plain = &&-both here rest.plain; short = omega (arith, rest.short, h.short) })

pub IsPlain-glue : {m n : ℕ} (s t : String) → IsPlain m s → IsPlain n t → IsPlain (m + n) (glue s t)
IsPlain-glue {m} {n} String.[] t h k = record { plain = k.plain; short = omega (arith, k.short) }
IsPlain-glue {m} {n} (String.◌∷◌ c s) t h k =
    let (here, more) = &&-split (is_plain (code c)) (all_chars is_plain s) h.plain in
    let rest = IsPlain-glue {m = len s} s t (record { plain = more; short = omega arith }) k in
    record { plain = &&-both here rest.plain; short = omega (arith, rest.short, h.short) }

pub decimal-IsPlain : (n : ℕ) → n ≤ 4095 → IsPlain 4 (decimal n)
decimal-IsPlain n h =
    let (every, size) = decimal-IsShort 3 n (omega arith) in
    record { plain = weaker is_decimal is_plain decimal_plain (decimal n) every; short = size }
  where
    decimal_plain : (c : ℕ) → is_decimal c ≡ true → is_plain c ≡ true
    decimal_plain c h = ground arith

hex_digit-plain : (n : ℕ) → n < 16 → is_plain (code (hex_digit n)) ≡ true
hex_digit-plain n h = all_below-lem (λ k. is_plain (code (hex_digit k))) 16 refl n h

pub hex-IsPlain : (bs : List ℕ) → IsPlain (2 * length bs) (hex bs)
hex-IsPlain [] = record { plain = refl; short = omega arith }
hex-IsPlain (b ∷ bs) =
    let rest = hex-IsPlain bs in
    record {
      plain =
          &&-both (hex_digit-plain (b / 16 % 16) (omega arith))
            (&&-both (hex_digit-plain (b % 16) (omega arith)) rest.plain);
      short = omega (arith, rest.short);
    }

pub all_chars-IsPlain : (s : String) → all_chars is_plain s ≡ true → IsPlain (len s) s
all_chars-IsPlain s h = record { plain = h; short = omega arith }

pub longer-IsPlain : {m n : ℕ} (s : String) → m ≤ n → IsPlain m s → IsPlain n s
longer-IsPlain s h p = record { plain = p.plain; short = omega (arith, p.short, h) }

-- `weaker` for ASCII hexadecimal digits.
pub hex_text-IsPlain : (s : String) → all_chars is_hex s ≡ true → IsPlain (len s) s
hex_text-IsPlain s h = all_chars-IsPlain s (weaker is_hex is_plain (λ c k. ground arith) s h)

letter-plain : (n : ℕ) → n < 26 → is_plain (code (char_at "abcdefghijklmnopqrstuvwxyz" n)) ≡ true
letter-plain n h =
    all_below-lem (λ k. is_plain (code (char_at "abcdefghijklmnopqrstuvwxyz" k))) 26 refl n h

pub casefold-IsPlain :
    (s : String)
    → all_chars is_plain s ≡ true
    → (all_chars is_plain (casefold s) ≡ true) × (len (casefold s) ≡ len s)
casefold-IsPlain String.[] h = (refl, refl)
casefold-IsPlain (String.◌∷◌ c s) h =
    let (here, more) = &&-split (is_plain (code c)) (all_chars is_plain s) h in
    let (every, size) = casefold-IsPlain s more in
    elim (Bool-cases (is_upper (code c))) [
      | inl upper ↦
          rw (upper, if◌then◌else◌)
            (&&-both (letter-plain (code c - 65) (upper_bound (code c) upper)) every, ap suc size)
      | inr other ↦ rw (other, if◌then◌else◌) (&&-both here every, ap suc size)
    ]
  where
    upper_bound : (c : ℕ) → is_upper c ≡ true → c - 65 < 26
    upper_bound c k = ground arith

-- A character replaced by at most two.
pub replace-IsPlain :
    {n : ℕ} (old : ℕ) (new s : String)
    → IsPlain 2 new
    → IsPlain n s
    → IsPlain (2 * n) (replace old new s)
replace-IsPlain {n} old new String.[] h k = record { plain = refl; short = omega arith }
replace-IsPlain {n} old new (String.◌∷◌ c s) h k =
    let (here, more) = &&-split (is_plain (code c)) (all_chars is_plain s) k.plain in
    let rest = replace-IsPlain old new s h (all_chars-IsPlain s more) in
    let glued = IsPlain-glue new (replace old new s) h rest in
    elim (Bool-cases (code c == old)) [
      | inl found ↦
          rw (found, if◌then◌else◌)
            (record { plain = glued.plain; short = omega (arith, glued.short, k.short) })
      | inr other ↦
          rw (other, if◌then◌else◌)
            (record { plain = &&-both here rest.plain; short = omega (arith, rest.short, k.short) })
    ]

-- ASCII takes one byte a character.
pub utf8-plain : (s : String) → all_chars is_plain s ≡ true → length (utf8 s) ≡ len s
utf8-plain String.[] h = refl
utf8-plain (String.◌∷◌ c s) h =
    let (here, more) = &&-split (is_plain (code c)) (all_chars is_plain s) h in
    let small = lt→ltb (code c) 128 (ascii (code c) here) in
    rw (small, if◌then◌else◌) (ap suc (utf8-plain s more))
  where
    ascii : (c : ℕ) → is_plain c ≡ true → c < 128
    ascii c k = ground arith
