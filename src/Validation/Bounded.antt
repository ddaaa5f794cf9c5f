-- ===== src/Validation/Bounded.antt =====
-- `ensure_bounded_json` of validation.py: the walk that counts values, and the size of the text that
-- `json.dumps(value, ensure_ascii=False, separators=(",", ":"), allow_nan=False)` encodes in UTF-8.
pub mod Walk
pub mod Sizes
use Prim.Native.Char.{code, len_utf8}
use msys_hal.Prelude.{
  ℕ, suc, ◌+◌, ◌*◌, String, Bool, true, false, not, ◌&&◌, ◌||◌, Option, none, some, leb, ltb, ◌==◌,
  nat_eq, if◌then◌else◌, len, has_nul, concat, decimal, [], ◌∷◌,
}
use msys_hal.Json.{
  Value, null, bool, int, float, str, arr, obj, Items, nil, cons, Fields, end, field, count_items,
  count_fields,
}
use msys_hal.Json.Int.{ℤ, pos, negsuc}
use msys_hal.Errors.{Result, ok, err, ◌>>=◌, ◌>>◌, require, validation_error}

abbrev pub max_hal_json : ℕ
max_hal_json = 128 * 1024

-- The keyword arguments `label`, `max_depth` and `max_items`.
pub record Limits : Type 0 where
  pub label : String
  pub max_depth : ℕ
  pub max_items : ℕ

-- The defaults of `max_depth` and `max_items`.
abbrev pub default_limits : String → Limits
default_limits label = record { label = label; max_depth = 6; max_items = 512 }

-- The two tests that every value meets first; the new count.
enter : Limits → ℕ → ℕ → Result ℕ
enter l depth count = do
  let count' = count + 1
  require (leb count' l.max_items)
      (validation_error (concat (l.label ∷ " contains too many values" ∷ [])) end)
  require (leb depth l.max_depth)
      (validation_error (concat (l.label ∷ " is nested too deeply" ∷ [])) end)
  ok count'

-- `len(item) > 4096 or "\x00" in item` and its like for keys, negated.
abbrev pub text_fits : ℕ → String → Bool
text_fits maximum s = leb (len s) maximum && not (has_nul s)

mutual
  -- `walk(item, depth)`, with the count that the closure shares passed along.
  pub walk : Limits → Value → ℕ → ℕ → Result ℕ
  walk l null depth count = enter l depth count
  walk l (bool b) depth count = enter l depth count
  walk l (int n) depth count = enter l depth count
  walk l (float finite text) depth count = do
    count' ← enter l depth count
    require finite (validation_error (concat (l.label ∷ " contains a non-finite number" ∷ [])) end)
    ok count'
  walk l (str s) depth count = do
    count' ← enter l depth count
    require (text_fits 4096 s)
        (validation_error (concat (l.label ∷ " contains an invalid string" ∷ [])) end)
    ok count'
  walk l (arr xs) depth count = do
    count' ← enter l depth count
    require (leb (count_items xs) 256)
        (validation_error (concat (l.label ∷ " contains an oversized list" ∷ [])) end)
    walk_items l xs (depth + 1) count'
  walk l (obj fs) depth count = do
    count' ← enter l depth count
    require (leb (count_fields fs) 128)
        (validation_error (concat (l.label ∷ " contains an oversized object" ∷ [])) end)
    walk_fields l fs (depth + 1) count'

  pub walk_items : Limits → Items → ℕ → ℕ → Result ℕ
  walk_items l nil depth count = ok count
  walk_items l (cons x xs) depth count = do
    count' ← walk l x depth count
    walk_items l xs depth count'

  pub walk_fields : Limits → Fields → ℕ → ℕ → Result ℕ
  walk_fields l end depth count = ok count
  walk_fields l (field k x fs) depth count = do
    require (text_fits 128 k)
        (validation_error (concat (l.label ∷ " contains an invalid object key" ∷ [])) end)
    count' ← walk l x depth count
    walk_fields l fs depth count'

-- The bytes of one character inside a JSON text.
escaped_size : ℕ → ℕ → ℕ
escaped_size c utf8 =
    if c == b'"' || c == 92 || c == 8 || c == 9 || c == 10 || c == 12 || c == 13
    then 2
    else if ltb c 32
    then 6
    else utf8

quoted_size : String → ℕ
unfolding escaped_size
quoted_size String.[] = 2
quoted_size (String.◌∷◌ c s) = escaped_size (code c) (len_utf8 c) + quoted_size s

abbrev add_sizes : Option ℕ → Option ℕ → Option ℕ
add_sizes none b = none
add_sizes (some a) none = none
add_sizes (some a) (some b) = some (a + b)

-- `str` of an integer raises ValueError beyond 4300 digits.
int_size : ℤ → Option ℕ
int_size (pos n) = let digits = len (decimal n) in if leb digits 4300 then some digits else none
int_size (negsuc n) =
    let digits = len (decimal (suc n)) in if leb digits 4300 then some (digits + 1) else none

-- The bytes of the JSON text; `none` where `json.dumps` raises.
unfoldable mutual
  unfolding int_size quoted_size

  pub text_size : Value → Option ℕ
  text_size null = some 4
  text_size (bool b) = some (if b then 4 else 5)
  text_size (int n) = int_size n
  text_size (float finite text) = if finite then some (len text) else none
  text_size (str s) = some (quoted_size s)
  text_size (arr nil) = some 2
  text_size (arr (cons x xs)) = add_sizes (text_size x) (rest_size xs)
  text_size (obj end) = some 2
  text_size (obj (field k x fs)) =
      add_sizes (some (quoted_size k + 1)) (add_sizes (text_size x) (rest_fields_size fs))

  -- What stands before the first item and after it: a bracket for each end, a comma between.
  rest_size : Items → Option ℕ
  rest_size nil = some 2
  rest_size (cons x xs) = add_sizes (some 1) (add_sizes (text_size x) (rest_size xs))

  rest_fields_size : Fields → Option ℕ
  rest_fields_size end = some 2
  rest_fields_size (field k x fs) =
      add_sizes (some (quoted_size k + 2)) (add_sizes (text_size x) (rest_fields_size fs))

check_size : Limits → Option ℕ → Result (Unit {0})
check_size l none = err (validation_error (concat (l.label ∷ " is not valid JSON" ∷ [])) end)
check_size l (some n) =
    require (leb n max_hal_json) (validation_error (concat (l.label ∷ " is too large" ∷ [])) end)

unfoldable pub ensure_bounded_json : Limits → Value → Result (Unit {0})
unfolding enter walk check_size text_size
ensure_bounded_json l value = do walk l value 0 0; check_size l (text_size value)
