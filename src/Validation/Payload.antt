-- ===== src/Validation/Payload.antt =====
-- The typed checks of validation.py. A caller names what it checks by `label`, for the messages.
pub mod Accepts
use msys_hal.Prelude.{
  ℕ, suc, ◌+◌, ◌*◌, ◌^◌, String, Bool, true, false, not, ◌&&◌, List, [], ◌∷◌, ◌++◌, map, leb, ◌==◌,
  string_eq, len, has_nul, concat, decimal, join, member, unique, sort_texts, filter, all, is_empty,
}
use msys_hal.Json.{
  Value, null, int, str, arr, obj, Items, nil, cons, Fields, end, field, keys, count_fields,
  count_items,
}
use msys_hal.Json.Int.{ℤ, pos, negsuc, leb_ℤ}
use msys_hal.Errors.{Result, ok, err, ◌>>=◌, ◌>>◌, require, validation_error}
use msys_hal.Validation.Bounded.{Limits, default_limits, ensure_bounded_json}
use msys_hal.Validation.Patterns.{
  domain_re, device_id_re, component_re, field_re, capability_re, semver_re,
}

abbrev bad {ℓ} : {A : Type ℓ} → List String → Result A
bad message = err (validation_error (concat message) end)

abbrev check : Bool → List String → Result (Unit {0})
check test message = require test (validation_error (concat message) end)

-- The keys that are not in `allowed`, and the required ones that are not among the keys.
abbrev pub unknown_keys : Fields → List String → List String
unknown_keys fs allowed = filter (λ k. not (member k allowed)) (keys fs)

abbrev pub missing_keys : Fields → List String → List String
missing_keys fs required = filter (λ k. not (member k (keys fs))) required

unfoldable pub object_payload : Value → List String → List String → String → Result Fields
object_payload (obj fs) allowed required label = do
  check (leb (count_fields fs) 32) (label ∷ " has too many fields" ∷ [])
  let unknown = unknown_keys fs allowed
  check (is_empty unknown)
      (label ∷ " has unknown fields: " ∷ join ", " (sort_texts (unique unknown)) ∷ [])
  let missing = missing_keys fs required
  check (is_empty missing)
      (label ∷ " is missing fields: " ∷ join ", " (sort_texts (unique missing)) ∷ [])
  ensure_bounded_json (default_limits label) (obj fs)
  ok fs
object_payload v allowed required label = bad (label ∷ " must be an object" ∷ [])

-- `not value or len(value) > maximum or "\x00" in value`, negated.
abbrev pub is_bounded_text : ℕ → String → Bool
is_bounded_text maximum s = not (s == "") && (leb (len s) maximum && not (has_nul s))

unfoldable pub bounded_string : Value → String → ℕ → Result String
bounded_string (str s) label maximum = do
  check (is_bounded_text maximum s) (label ∷ " length is invalid" ∷ [])
  ok s
bounded_string v label maximum = bad (label ∷ " must be a string" ∷ [])

-- A bounded text that matches a pattern.
matching : (String → Bool) → ℕ → String → Value → String → Result String
matching pattern_test maximum complaint v label = do
  result ← bounded_string v label maximum
  check (pattern_test result) (label ∷ complaint ∷ [])
  ok result

unfoldable pub domain : Value → String → Result String
unfolding matching bounded_string
domain v label = matching domain_re 64 " is invalid" v label

unfoldable pub device_id : Value → String → Result String
unfolding matching bounded_string
device_id v label = matching device_id_re 192 " is invalid" v label

unfoldable pub component_id : Value → String → Result String
unfolding matching bounded_string
component_id v label = matching component_re 192 " is invalid" v label

unfoldable pub semantic_version : Value → String → Result String
unfolding matching bounded_string
semantic_version v label = matching semver_re 64 " is not a semantic version" v label

unfoldable pub capability : Value → String → Result String
unfolding matching bounded_string
capability v label = matching capability_re 128 " is invalid" v label

-- `str` of an integer, for the message.
show : ℤ → String
show (pos n) = decimal n
show (negsuc n) = concat ("-" ∷ decimal (suc n) ∷ [])

-- A bool is a value of its own here, as the code's second test has it.
unfoldable pub integer : Value → String → ℤ → ℤ → Result ℤ
unfolding show
integer (int n) label minimum maximum = do
  check (leb_ℤ minimum n && leb_ℤ n maximum)
      (label ∷ " is outside " ∷ show minimum ∷ ".." ∷ show maximum ∷ [])
  ok n
integer v label minimum maximum = bad (label ∷ " must be an integer" ∷ [])

-- The loop of `string_list`, with the texts read so far and the index of the next.
string_loop : String → ℕ → ℕ → List String → Items → Result (List String)
string_loop label item_maximum index result nil = ok result
string_loop label item_maximum index result (cons item rest) = do
  text ← bounded_string item (concat (label ∷ "[" ∷ decimal index ∷ "]" ∷ [])) item_maximum
  check (not (member text result)) (label ∷ " contains a duplicate" ∷ [])
  string_loop label item_maximum (index + 1) (result ++ text ∷ []) rest

unfoldable pub string_list : Value → String → ℕ → ℕ → Result (List String)
unfolding string_loop bounded_string
string_list (arr xs) label maximum_items item_maximum = do
  check (leb (count_items xs) maximum_items)
      (label ∷ " must be a list with at most " ∷ decimal maximum_items ∷ " items" ∷ [])
  string_loop label item_maximum 0 [] xs
string_list v label maximum_items item_maximum =
    bad (label ∷ " must be a list with at most " ∷ decimal maximum_items ∷ " items" ∷ [])

unfoldable pub changes : Value → Result Fields
changes (obj fs) = do
  check (leb 1 (count_fields fs) && leb (count_fields fs) 16)
      ("changes must be a non-empty object with at most 16 fields" ∷ [])
  check (all field_re (keys fs)) ("changes contains an invalid field name" ∷ [])
  ensure_bounded_json (record { label = "changes"; max_depth = 4; max_items = 64 }) (obj fs)
  ok fs
changes v = bad ("changes must be a non-empty object with at most 16 fields" ∷ [])

unfoldable pub safe_scalar_map : Value → String → ℕ → Result Fields
safe_scalar_map (obj fs) label maximum_fields = do
  check (leb (count_fields fs) maximum_fields) (label ∷ " must be a small object" ∷ [])
  ensure_bounded_json (record { label = label; max_depth = 4; max_items = 256 }) (obj fs)
  ok fs
safe_scalar_map v label maximum_fields = bad (label ∷ " must be a small object" ∷ [])
