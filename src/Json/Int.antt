-- ===== src/Json/Int.antt =====
-- Python's integers over the native numbers: their order, their negation, `min` and `max`.
use msys_hal.Prelude.{ℕ, suc, zero, ◌+◌, ◌≤◌, Bool, arith, leb, if◌then◌else◌}

-- `negsuc n` is -(n + 1).
pub data ℤ : Type 0 where
  pos : ℕ → ℤ
  negsuc : ℕ → ℤ

abbrev pub pos_part : ℤ → ℕ
pos_part (pos n) = n
pos_part (negsuc n) = 0

abbrev pub neg_part : ℤ → ℕ
neg_part (pos n) = 0
neg_part (negsuc n) = suc n

infix 50 ◌≤ℤ◌
abbrev pub ◌≤ℤ◌ : ℤ → ℤ → Type 0
a ≤ℤ b = pos_part a + neg_part b ≤ pos_part b + neg_part a

-- `a <= b`
abbrev pub leb_ℤ : ℤ → ℤ → Bool
leb_ℤ a b = leb (pos_part a + neg_part b) (pos_part b + neg_part a)

abbrev pub neg : ℤ → ℤ
neg (pos zero) = pos 0
neg (pos (suc n)) = negsuc n
neg (negsuc n) = pos (suc n)

-- `max(low, min(n, high))`
unfoldable pub clamp : ℤ → ℤ → ℤ → ℤ
clamp low high n =
    let capped = if leb_ℤ n high then n else high in if leb_ℤ low capped then capped else low

pub clamp_bounds :
    (low high n : ℤ) → low ≤ℤ high → (low ≤ℤ clamp low high n) × (clamp low high n ≤ℤ high)
unfolding clamp
clamp_bounds low high n h = ground arith
