-- ===== src/DisplaySession/Accepts.antt =====
-- What the checks of the fields of a display session accept.
use msys_hal.Prelude.{
  ℕ, ◌≤◌, ◌≡◌, refl, sym, ◌⊎◌, inl, inr, String, Bool, true, false, not, ◌&&◌, ◌||◌, List, [], ◌∷◌,
  len, has_nul, leb, leb→le, all, member, arith, &&-split, Bool-cases, ◌==◌, string_eq, eq_iff,
}
use mathlib.Core.Path.{subst}
use msys_hal.Json.{Value, null, bool, int, str, Fields, keys}
use msys_hal.Json.Int.{pos}
use msys_hal.DisplaySession.{
  has_exactly, is_text_up_to, is_between, is_natural, is_display, display_re, is_null, is_true,
}

-- A text of 1 to `maximum` characters without a null character.
pub record IsText (maximum : ℕ) (v : Value) : Type 0 where
  pub text : String
  pub is_str : v ≡ str text
  pub some_text : (text == "") ≡ false
  pub short : len text ≤ maximum
  pub no_null : has_nul text ≡ false

-- An integer from `low` to `high`, and one that is not negative.
pub record IsBetween (low high : ℕ) (v : Value) : Type 0 where
  pub number : ℕ
  pub is_int : v ≡ int (pos number)
  pub from_low : low ≤ number
  pub to_high : number ≤ high

abbrev pub IsNatural : Value → Type 0
IsNatural v = (n : ℕ) × (v ≡ int (pos n))

-- Exactly these keys.
pub record HasKeys (names : List String) (fs : Fields) : Type 0 where
  pub known : (k : String) → member k (keys fs) ≡ true → member k names ≡ true
  pub complete : (k : String) → member k names ≡ true → member k (keys fs) ≡ true

pub is_text_up_to-IsText : (m : ℕ) (v : Value) → is_text_up_to m v ≡ true → IsText m v
is_text_up_to-IsText m (str s) h = record {
  text = s;
  is_str = refl;
  some_text = ground (arith, &&-split (not (s == "")) (leb (len s) m && not (has_nul s)) h);
  short = ground (arith, &&-split (not (s == "")) (leb (len s) m && not (has_nul s)) h);
  no_null = ground (arith, &&-split (not (s == "")) (leb (len s) m && not (has_nul s)) h);
}
is_text_up_to-IsText m _ h = absurd cc

pub is_between-IsBetween :
    (low high : ℕ) (v : Value) → is_between low high v ≡ true → IsBetween low high v
is_between-IsBetween low high (int (pos n)) h =
    let (l, u) = &&-split (leb low n) (leb n high) h in
    record { number = n; is_int = refl; from_low = leb→le low n l; to_high = leb→le n high u }
is_between-IsBetween low high _ h = absurd cc

pub is_natural-IsNatural : (v : Value) → is_natural v ≡ true → IsNatural v
is_natural-IsNatural (int (pos n)) h = (n, refl)
is_natural-IsNatural _ h = absurd cc

pub is_true-true : (v : Value) → is_true v ≡ true → v ≡ bool true
is_true-true (bool true) h = refl
is_true-true _ h = absurd cc

pub is_display-re :
    (v : Value) → is_display v ≡ true → (s : String) × (v ≡ str s) × (display_re s ≡ true)
is_display-re (str s) h = (s, refl, h)
is_display-re _ h = absurd cc

all-member :
    (p : String → Bool) (xs : List String)
    → all p xs ≡ true
    → (k : String) → member k xs ≡ true
    → p k ≡ true
all-member p [] h k m = absurd cc
all-member p (x ∷ xs) h k m =
    let (first, rest) = &&-split (p x) (all p xs) h in
    elim (Bool-cases (k == x)) [
      | inl same ↦ subst (λ y. p y ≡ true) (sym ((eq_iff k x).0 same)) first
      | inr other ↦ all-member p xs rest k (ground (arith, other))
    ]

pub has_exactly-HasKeys :
    (names : List String) (fs : Fields) → has_exactly names fs ≡ true → HasKeys names fs
unfolding has_exactly
has_exactly-HasKeys names fs h =
    let (l, r) =
      &&-split (all (λ k. member k names) (keys fs)) (all (λ k. member k (keys fs)) names) h in
    record {
      known = all-member (λ k. member k names) (keys fs) l;
      complete = all-member (λ k. member k (keys fs)) names r;
    }

pub is_null-null : (v : Value) → is_null v ≡ true → v ≡ null
is_null-null null e = refl
is_null-null _ e = cc

pub null_or_text :
    (v : Value) → (is_null v || is_text_up_to 256 v) ≡ true → (v ≡ null) ⊎ IsText 256 v
null_or_text v h = elim (Bool-cases (is_null v)) [
  | inl none_here ↦ inl (is_null-null v none_here)
  | inr other ↦ inr (is_text_up_to-IsText 256 v (ground (arith, other)))
]
