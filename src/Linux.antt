-- ===== src/Linux.antt =====
-- The readers of sysfs in linux.py, and what its backends make of them: `_read_text`, `_read_int`,
-- `_entries`, `_device`, `_inventory` and `_name_from_id`.
pub mod Numbers
pub mod Power
pub mod Thermal
pub mod Attribute
pub mod Backlight
pub mod Display
use msys_hal.Prelude.{
  ℕ, ◌+◌, ◌*◌, ◌-◌, String, Bool, true, false, not, ◌&&◌, ◌||◌, Option, none, some, List, [], ◌∷◌,
  leb, length, take, prefix, before, after, any, filter, is_empty, sort_texts, starts_with, concat,
  if◌then◌else◌, ◌==◌, string_eq, nat_eq,
}
use Prim.Native.Char.{code}
use msys_hal.Json.{Value, bool, str, arr, obj, Fields, field, end, from_items, texts, get_field}
use msys_hal.Json.Int.{ℤ, pos, leb_ℤ, neg}
use msys_hal.Errors.{Result, ok, ◌>>=◌, ◌>>◌, require, validation_error}
use msys_hal.Validation.Patterns.{is_alnum, is_digit, head_tail}
use msys_hal.Validation.Payload.{device_id}

-- What the code finds under a class directory, named by its path, in an entry, by an attribute.
-- `none` stands for an `OSError`; `is_dir` counts one as no directory.
pub record Sysfs : Type 0 where
  pub listing : String → Option (List String)
  pub is_dir : String → String → Bool
  pub contents : String → String → String → Option (List ℕ)
  -- `resolve(strict=True)` of the directory and of an attribute, as the parts of a path; the mode
  -- and `os.access(…, os.W_OK)` of a resolved path.
  pub root_target : String → Option (List String)
  pub target : String → String → String → Option (List String)
  pub mode : List String → Option ℕ
  pub access : List String → Bool

-- `data.decode("utf-8", "strict")`
abbrev pub Decoder : Type 0
Decoder = List ℕ → Option String

-- `ENTRY_RE`
unfoldable pub entry_re : String → Bool
entry_re s = head_tail is_alnum (λ c. is_alnum c || c == b'.' || c == b'_' || c == b'-') 127 s

-- The characters that `str.strip` strips.
abbrev pub is_space : ℕ → Bool
is_space c =
    (leb 9 c && leb c 13)
    || (leb 28 c && leb c 32)
    || c == 133
    || c == 160
    || c == 5760
    || (leb 8192 c && leb c 8202)
    || c == 8232
    || c == 8233
    || c == 8239
    || c == 8287
    || c == 12288

abbrev pub strip_left : String → String
strip_left String.[] = String.[]
strip_left (String.◌∷◌ c s) = if is_space (code c) then strip_left s else String.◌∷◌ c s

abbrev pub strip_right : String → String
strip_right String.[] = String.[]
strip_right (String.◌∷◌ c s) =
    let rest = strip_right s in
    if is_space (code c) && rest == "" then String.[] else String.◌∷◌ c rest

-- `s.strip()`
abbrev pub strip : String → String
strip s = strip_right (strip_left s)

-- What `int` makes of more digits.
abbrev pub digits_from : ℕ → String → Option ℕ
digits_from n String.[] = some n
digits_from n (String.◌∷◌ c s) =
    if is_digit (code c) then digits_from (n * 10 + (code c - b'0')) s else none

abbrev pub digits : String → Option ℕ
digits String.[] = none
digits (String.◌∷◌ c s) = digits_from 0 (String.◌∷◌ c s)

-- `int(raw)` where `-?[0-9]+` matches all of `raw`.
unfoldable pub parse_int : String → Option ℤ
parse_int String.[] = none
parse_int (String.◌∷◌ c s) =
    if code c == b'-'
    then elim (digits s) [ none ↦ none | some n ↦ some (neg (pos n)) ]
    else elim (digits (String.◌∷◌ c s)) [ none ↦ none | some n ↦ some (pos n) ]

within : ℤ → ℤ → Option ℤ → Option ℤ
within minimum maximum none = none
within minimum maximum (some n) = if leb_ℤ minimum n && leb_ℤ n maximum then some n else none

module _ (decode : Decoder) where
  -- What `_read_text` makes of the bytes that it has read, at most one more than `maximum`.
  text_of : ℕ → Option (List ℕ) → Option String
  text_of maximum none = none
  text_of maximum (some bytes) =
      let found = take (maximum + 1) bytes in
      if leb (length found) maximum && not (any (λ b. b == 0) found)
      then elim (decode found) [ none ↦ none | some s ↦ some (strip s) ]
      else none

  -- `_read_text`
  unfoldable pub read_text : Sysfs → String → String → String → ℕ → Option String
  unfolding text_of
  read_text s root entry attribute maximum = text_of maximum (s.contents root entry attribute)

  int_of : ℤ → ℤ → Option String → Option ℤ
  unfolding within
  int_of minimum maximum none = none
  int_of minimum maximum (some raw) = within minimum maximum (parse_int raw)

  -- `_read_int`
  unfoldable pub read_int : Sysfs → String → String → String → ℤ → ℤ → Option ℤ
  unfolding int_of
  read_int s root entry attribute minimum maximum =
      int_of minimum maximum (read_text s root entry attribute 64)

-- `_entries`: the names, `prefixes` empty for any.
unfoldable pub entries : Sysfs → String → List String → List String
entries s root prefixes = elim (s.listing root) [
  | none ↦ []
  | some names ↦
      filter
        (λ name.
          entry_re name
          && ((is_empty prefixes || any (λ p. starts_with name p) prefixes) && s.is_dir root name))
        (take 128 (sort_texts names))
]

-- `_device`
unfoldable pub device : String → String → Bool → List String → Fields → Value
device domain name available mutable_fields metadata = obj (
    field "id" (str (concat (domain ∷ ":" ∷ name ∷ []))) (
      field "domain" (str domain) (
        field "name" (str (prefix 128 name)) (
          field "available" (bool available)
            (field "mutable" (arr (texts mutable_fields)) (field "metadata" (obj metadata) end))))))

-- `item.get("available")` of a device.
abbrev pub is_available : Value → Bool
is_available (obj fs) = elim (get_field "available" fs) [ some (bool b) ↦ b | _ ↦ false ]
is_available v = false

-- `_inventory`
unfoldable pub inventory_of : String → List Value → String → Fields
inventory_of domain devices reason =
    if any is_available devices
    then field "domain" (str domain)
        (field "status" (str "available") (field "devices" (arr (from_items devices)) end))
    else field "domain" (str domain) (
        field "status" (str "unavailable") (
          field "devices" (arr (from_items devices))
            (field "reason" (str (if reason == "" then "no-device" else reason)) end)))

abbrev text_behind : Option String → String
text_behind none = ""
text_behind (some s) = s

-- `_name_from_id`; `repr` is Python's, of a text.
unfoldable pub name_from_id : (String → String) → String → String → Result String
name_from_id repr identifier expected_domain = do
  parsed ← device_id (str identifier) "id"
  let name = text_behind (after b':' parsed)
  require (before b':' parsed == expected_domain && entry_re name) (
      validation_error
        (concat ("device " ∷ repr identifier ∷ " does not belong to " ∷ expected_domain ∷ [])) end)
  ok name

-- What `get_state` of a backend returns.
unfoldable pub state_value : String → String → Fields → List String → Value
state_value identifier domain values mutable_fields = obj (
    field "id" (str identifier) (
      field "domain" (str domain) (
        field "available" (bool true)
          (field "values" (obj values) (field "mutable" (arr (texts mutable_fields)) end)))))
