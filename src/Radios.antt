-- ===== src/Radios.antt =====
-- radios.py: its readers of sysfs, and what its backends make of them: `_entries`, `_device`,
-- `_state` and `_device_name`. Its `_read_text` and `_read_int` are those of linux.py.
pub mod Lines
pub mod Interfaces
pub mod Credentials
pub mod Responses
pub mod Control
pub mod Network
pub mod Bluetooth
use msys_hal.Prelude.{
  ℕ, String, Bool, true, not, ◌&&◌, Option, none, some, List, [], ◌∷◌, take, prefix, before, after,
  filter, member, sort_texts, concat, if◌then◌else◌, ◌==◌, string_eq,
}
use msys_hal.Json.{Value, bool, str, arr, obj, Fields, field, end, from_items, texts}
use msys_hal.Json.Int.{ℤ}
use msys_hal.Errors.{Result, ok, err, ◌>>=◌, ◌>>◌, validation_error}
use msys_hal.Linux.{Sysfs, Decoder, entry_re, read_text, read_int}

-- What Python's text type knows of Unicode: UTF-8 decoded strictly and with replacements, and
-- `isprintable` of one character.
pub record Unicode : Type 0 where
  pub decode : Decoder
  pub replacing : List ℕ → String
  pub is_printable : ℕ → Bool

abbrev pub attribute_text : Unicode → Sysfs → String → String → String → ℕ → Option String
attribute_text u = read_text u.decode

abbrev pub attribute_int : Unicode → Sysfs → String → String → String → ℤ → ℤ → Option ℤ
attribute_int u = read_int u.decode

-- `value or ""`
abbrev pub or_empty : Option String → String
or_empty none = ""
or_empty (some s) = s

-- `_entries`: the names; the first `limit` that are found count, and these are sorted.
unfoldable pub class_entries : Sysfs → String → ℕ → List String
class_entries s root limit = elim (s.listing root) [
  | none ↦ []
  | some names ↦
      sort_texts (take limit (filter (λ name. entry_re name && s.is_dir root name) names))
]

-- `_device`
unfoldable pub radio_device : String → String → List String → Fields → Value
radio_device domain name mutable_fields metadata = obj (
    field "id" (str (concat (domain ∷ ":" ∷ name ∷ []))) (
      field "domain" (str domain) (
        field "name" (str (prefix 128 name)) (
          field "available" (bool true)
            (field "mutable" (arr (texts mutable_fields)) (field "metadata" (obj metadata) end))))))

-- `_state`
unfoldable pub radio_state : String → String → Fields → List String → Value
radio_state domain name values mutable_fields = obj (
    field "id" (str (concat (domain ∷ ":" ∷ name ∷ []))) (
      field "domain" (str domain) (
        field "available" (bool true)
          (field "values" (obj values) (field "mutable" (arr (texts mutable_fields)) end)))))

-- `_device_name`, of a text.
unfoldable pub device_name_of : String → String → Result String
device_name_of identifier expected_domain = elim (after b':' identifier) [
  | none ↦ err (validation_error "device id is invalid" end)
  | some name ↦
      if before b':' identifier == expected_domain && entry_re name
      then ok name
      else err (validation_error (concat ("device does not belong to " ∷ expected_domain ∷ [])) end)
]

-- What both inventories return.
unfoldable pub class_inventory : String → String → List Value → Fields
class_inventory domain reason [] = field "domain" (str domain) (
    field "status" (str "unavailable")
      (field "reason" (str reason) (field "devices" (arr (from_items [])) end)))
class_inventory domain reason (d ∷ devices) =
    field "domain" (str domain)
      (field "status" (str "available") (field "devices" (arr (from_items (d ∷ devices))) end))

abbrev pub with_value : String → Option Value → Fields → Fields
with_value key none rest = rest
with_value key (some v) rest = field key v rest

-- `{key: value for key, value in values.items() if key in wanted}`
abbrev pub keep_fields : List String → Fields → Fields
keep_fields wanted end = end
keep_fields wanted (field k v fs) =
    let rest = keep_fields wanted fs in if member k wanted then field k v rest else rest
