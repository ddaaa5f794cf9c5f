-- ===== src/DisplaySession.antt =====
-- `normalized_matrix` and `validate_display_session` of display_session.py.
pub mod Reader
pub mod Matrix
pub mod Accepts
pub mod Ready
use msys_hal.Prelude.{
  ℕ, suc, ◌-◌, ◌^◌, String, Bool, true, false, not, ◌&&◌, ◌||◌, Option, none, some, List, [], ◌∷◌,
  leb, ltb, all, member, concat, before, after, ◌==◌, string_eq, nat_eq, if◌then◌else◌,
}
use Prim.Native.Char.{code}
use msys_hal.Json.{
  Value, null, bool, int, float, str, arr, obj, Items, nil, cons, Fields, keys, field_or, is_text,
  count_items,
}
use msys_hal.Json.Int.{ℤ, pos, negsuc}
use msys_hal.Errors.{Exception, python, Result, ok, err, ◌>>=◌, ◌>>◌, require}
use msys_hal.Validation.Patterns.{is_digit, head_any}
use msys_hal.Validation.Payload.{is_bounded_text}

-- What Python finds out about a float, given by its `repr`: `abs(x) > 16`, `abs(x) > 1e-9`,
-- `abs(x - 1.0) > 1e-9`, and `int(x)` where `x.is_integer()`.
pub record Reading : Type 0 where
  pub large : Bool
  pub off_zero : Bool
  pub off_one : Bool
  pub whole : Option ℤ

abbrev magnitude : ℤ → ℕ
magnitude (pos n) = n
magnitude (negsuc n) = suc n

abbrev is_int : ℕ → ℤ → Bool
is_int k (pos n) = n == k
is_int k (negsuc n) = false

-- The same of an integer that `float` converts.
abbrev pub reading_int : ℤ → Reading
reading_int n = record {
  large = ltb 16 (magnitude n);
  off_zero = not (is_int 0 n);
  off_one = not (is_int 1 n);
  whole = some n;
}

value_error : List String → Exception
value_error message = python "ValueError" (concat message)

abbrev pub complain : Bool → String → Result (Unit {0})
complain test message = require test (python "ValueError" message)

-- `^:[0-9]+(?:\.[0-9]+)?$`
unfoldable pub display_re : String → Bool
display_re String.[] = false
display_re (String.◌∷◌ c s) =
    code c == b':'
    && head_any is_digit is_digit (before b'.' s)
    && elim (after b'.' s) [ none ↦ true | some screen ↦ head_any is_digit is_digit screen ]

-- `set(document) == {...}`
unfoldable pub has_exactly : List String → Fields → Bool
has_exactly names fs = all (λ k. member k names) (keys fs) && all (λ k. member k (keys fs)) names

abbrev pub session_schema : String
session_schema = "msys.display-session.v1"

abbrev pub session_keys : List String
session_keys =
    "schema" ∷ "state" ∷ "provider" ∷ "generation" ∷ "display" ∷ "geometry" ∷ "input_transform"
    ∷ "observed_at_unix_ms" ∷ []

abbrev pub geometry_keys : List String
geometry_keys = "width" ∷ "height" ∷ "depth" ∷ []

abbrev pub transform_keys : List String
transform_keys = "enabled" ∷ "mode" ∷ "device" ∷ "space" ∷ "matrix" ∷ "source" ∷ "verified" ∷ []

abbrev pub is_text_up_to : ℕ → Value → Bool
is_text_up_to maximum (str s) = is_bounded_text maximum s
is_text_up_to maximum v = false

-- An integer, no bool, of these bounds; `is_natural` has none above.
abbrev pub is_between : ℕ → ℕ → Value → Bool
is_between low high (int (pos n)) = leb low n && leb n high
is_between low high v = false

abbrev pub is_natural : Value → Bool
is_natural (int (pos n)) = true
is_natural v = false

abbrev pub is_display : Value → Bool
is_display (str s) = display_re s
is_display v = false

abbrev pub is_null : Value → Bool
is_null null = true
is_null v = false

abbrev pub is_true : Value → Bool
is_true (bool true) = true
is_true v = false

dict_of : Value → String → Result Fields
unfolding value_error
dict_of (obj fs) message = ok fs
dict_of v message = err (value_error (message ∷ []))

flag_of : Value → Result Bool
unfolding value_error
flag_of (bool b) = ok b
flag_of v = err (value_error ("display session input enabled flag is invalid" ∷ []))

-- From here on `float` raises an `OverflowError`.
abbrev pub float_limit : ℕ
float_limit = 2 ^ 1024 - 2 ^ 970

module _ (reading : String → Reading) where
  -- The loop body of `normalized_matrix`.
  number_of : String → Value → Result Reading
  unfolding value_error
  number_of label (int n) = do
    require (ltb (magnitude n) float_limit)
        (python "OverflowError" "int too large to convert to float")
    require (not (reading_int n).large) (value_error (label ∷ " contains an unsafe value" ∷ []))
    ok (reading_int n)
  number_of label (float finite text) = do
    require (finite && not (reading text).large)
        (value_error (label ∷ " contains an unsafe value" ∷ []))
    ok (reading text)
  number_of label v = err (value_error (label ∷ " contains a non-number" ∷ []))

  numbers_of : String → Items → Result (List Reading)
  unfolding number_of
  numbers_of label nil = ok []
  numbers_of label (cons v vs) = do x ← number_of label v; xs ← numbers_of label vs; ok (x ∷ xs)

  -- The last row is 0, 0, 1.
  is_affine : List Reading → Bool
  is_affine (a ∷ b ∷ c ∷ d ∷ e ∷ f ∷ g ∷ h ∷ i ∷ rest) =
      not (g.off_zero || h.off_zero) && not i.off_one
  is_affine xs = false

  -- `int(item) if item.is_integer() else item`
  converted : Items → List Reading → Items
  converted nil xs = nil
  converted (cons v vs) [] = nil
  converted (cons v vs) (x ∷ xs) =
      let rest = converted vs xs in elim x.whole [ none ↦ cons v rest | some n ↦ cons (int n) rest ]

  unfoldable pub normalized_matrix : Value → String → Result Items
  unfolding numbers_of is_affine converted value_error
  normalized_matrix (arr vs) label = do
    require (count_items vs == 9) (value_error (label ∷ " must contain exactly nine numbers" ∷ []))
    matrix ← numbers_of label vs
    require (is_affine matrix) (value_error (label ∷ " must be a normalized affine matrix" ∷ []))
    ok (converted vs matrix)
  normalized_matrix v label = err (value_error (label ∷ " must contain exactly nine numbers" ∷ []))

  check_matrix : Bool → Value → Result (Unit {0})
  check_matrix true v = normalized_matrix v "input transform" >> ok tt
  check_matrix false v = complain (is_null v) "disabled display input must not contain a matrix"

  check_geometry : Fields → Result (Unit {0})
  check_geometry geometry = do
    complain (has_exactly geometry_keys geometry) "display session geometry is invalid"
    complain (is_between 1 65535 (field_or null "width" geometry))
        "display session geometry.width is invalid"
    complain (is_between 1 65535 (field_or null "height" geometry))
        "display session geometry.height is invalid"
    complain (is_between 0 128 (field_or null "depth" geometry))
        "display session geometry.depth is invalid"

  check_transform : Fields → Result (Unit {0})
  unfolding flag_of check_matrix
  check_transform transform = do
    complain (has_exactly transform_keys transform) "display session input transform is invalid"
    enabled ← flag_of (field_or null "enabled" transform)
    complain (is_text_up_to 128 (field_or null "mode" transform))
        "display session input mode is invalid"
    complain (is_text_up_to 128 (field_or null "source" transform))
        "display session input source is invalid"
    complain
        (is_null (field_or null "device" transform)
          || is_text_up_to 256 (field_or null "device" transform))
        "display session input device is invalid"
    complain
        (is_text "normalized-display" (field_or null "space" transform)
          && is_true (field_or null "verified" transform))
        "display session input transform is not verified"
    check_matrix enabled (field_or null "matrix" transform)

  -- `validate_display_session` of a dict.
  validate_fields : Fields → Result (Unit {0})
  unfolding dict_of check_geometry check_transform
  validate_fields document = do
    complain (is_text session_schema (field_or null "schema" document))
        "display session must use msys.display-session.v1"
    complain (has_exactly session_keys document) "display session fields are invalid"
    complain (is_text "ready" (field_or null "state" document)) "display session is not ready"
    complain (is_text_up_to 256 (field_or null "provider" document))
        "display session provider is invalid"
    complain (is_natural (field_or null "generation" document))
        "display session generation is invalid"
    complain (is_display (field_or null "display" document)) "display session DISPLAY is invalid"
    geometry ← dict_of (field_or null "geometry" document) "display session geometry is invalid"
    check_geometry geometry
    transform ←
        dict_of (field_or null "input_transform" document)
          "display session input transform is invalid"
    check_transform transform
    complain (is_natural (field_or null "observed_at_unix_ms" document))
        "display session timestamp is invalid"

  -- `validate_display_session`; the round trip through JSON at its end gives the same value, detached.
  unfoldable pub validate_display_session : Value → Result Fields
  unfolding validate_fields value_error
  validate_display_session (obj document) = validate_fields document >> ok document
  validate_display_session v =
      err (value_error ("display session must use msys.display-session.v1" ∷ []))
