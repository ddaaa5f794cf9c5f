-- ===== src/Linux/Numbers.antt =====
-- `round(a / b)` on numbers of the sizes that sysfs has.
use msys_hal.Prelude.{
  ℕ, suc, ◌+◌, ◌*◌, ◌/◌, ◌%◌, ◌≤◌, ◌≡◌, ap, if◌then◌else◌, ltb, leb, ◌==◌, nat_eq, arith,
  Bool-cases, leb→le, ◌⊎◌, inl, inr,
}
use native.Mathlib.Nat.{div-add-mod', mod-lt, mul-le-mul_right}

-- `round(n / d)`: to the nearest integer, and to the even one in the middle. The source divides in
-- floating point; for n below 2^38 and d below 2^31 no quotient that is off a middle is rounded to
-- one, since it is further from it than the error of the division.
unfoldable pub round_div : ℕ → ℕ → ℕ
round_div n d =
    let q = n / d in
    let twice = 2 * (n % d) in
    if ltb twice d then q else if ltb d twice then q + 1 else if q % 2 == 0 then q else q + 1

le_or_gt : (a b : ℕ) → (a ≤ b) ⊎ (suc b ≤ a)
le_or_gt a b = elim (Bool-cases (leb a b)) [
  | inl small ↦ inl (leb→le a b small)
  | inr big ↦ inr (ground arith)
]

-- Downwards or upwards.
round_div-cases :
    (n d : ℕ)
    → ((round_div n d ≡ n / d) × (2 * (n % d) ≤ d))
      ⊎ ((round_div n d ≡ n / d + 1) × (d ≤ 2 * (n % d)))
unfolding round_div
round_div-cases n d = ground arith

-- The nearest integer: no further off than half of the divisor.
pub round_div_nearest :
    (n d : ℕ)
    → 1 ≤ d
    → (2 * (round_div n d * d) ≤ 2 * n + d) × (2 * n ≤ 2 * (round_div n d * d) + d)
round_div_nearest n d h = elim (round_div-cases n d) [
  | inl (down, small) ↦ rw down (omega (arith, div-add-mod' n d))
  | inr (up, big) ↦ rw up (omega (arith, div-add-mod' n d, mod-lt n h))
]

-- `(percent * maximum + 50) // 100`
abbrev pub brightness_of : ℕ → ℕ → ℕ
brightness_of percent maximum = (percent * maximum + 50) / 100

-- `round(brightness * 100 / maximum)`
abbrev pub percent_of : ℕ → ℕ → ℕ
percent_of brightness maximum = round_div (brightness * 100) maximum

-- A percentage is set within the maximum.
pub brightness_of-le :
    (percent maximum : ℕ) → percent ≤ 100 → brightness_of percent maximum ≤ maximum
brightness_of-le percent maximum h = let product = mul-le-mul_right maximum h in omega arith

-- A brightness within the maximum is a percentage.
pub percent_of-le :
    (brightness maximum : ℕ)
    → 1 ≤ maximum
    → brightness ≤ maximum
    → percent_of brightness maximum ≤ 100
percent_of-le brightness maximum some_light h =
    let (low, high) = round_div_nearest (brightness * 100) maximum some_light in
    elim (le_or_gt (percent_of brightness maximum) 100) [
      | inl fits ↦ fits
      | inr more ↦ let product = mul-le-mul_right maximum more in absurd (omega arith)
    ]

-- What has been set as a percentage, 100 at most, is read as that percentage, if the display has 100
-- levels or more.
pub percent_of-brightness_of :
    (percent maximum : ℕ)
    → 100 ≤ maximum
    → percent ≤ 100
    → percent_of (brightness_of percent maximum) maximum ≡ percent
percent_of-brightness_of percent maximum levels h =
    let shown = percent_of (brightness_of percent maximum) maximum in
    let (low, high) =
      round_div_nearest (brightness_of percent maximum * 100) maximum (omega arith) in
    elim (le_or_gt maximum 100) [
      | inl few ↦
          let exact : maximum ≡ 100 = omega arith in
          let asked = ap (λ m. percent * m) exact in
          let seen = ap (λ m. shown * m) exact in omega arith
      | inr many ↦ elim (le_or_gt shown percent) [
        | inr more ↦ let product = mul-le-mul_right maximum more in absurd (omega arith)
        | inl fits ↦ elim (le_or_gt percent shown) [
          | inl other ↦ omega arith
          | inr less ↦ let product = mul-le-mul_right maximum less in absurd (omega arith)
        ]
      ]
    ]
