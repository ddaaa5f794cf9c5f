-- ===== src/Validation/Bounded/Sizes.antt =====
-- The sizes of encoded texts.
use msys_hal.Prelude.{ℕ, ◌+◌, ◌≤◌, ◌≡◌, Option, none, some, arith}
use msys_hal.Json.{obj, Fields, end, field}
use msys_hal.Validation.Bounded.{text_size, add_sizes}

add_sizes-le : (a n : ℕ) (o : Option ℕ) → add_sizes (some a) o ≡ some n → a ≤ n
add_sizes-le a n none e = cc
add_sizes-le a n (some b) e = let sum : a + b ≡ n = cc in omega arith

-- The text of a dict is not empty.
pub text_size-obj-pos : (fs : Fields) (n : ℕ) → text_size (obj fs) ≡ some n → 1 ≤ n
unfolding text_size
text_size-obj-pos end n e = let two : 2 ≡ n = cc in omega arith
text_size-obj-pos (field k x fs) n e = omega (arith, add_sizes-le _ n _ e)
