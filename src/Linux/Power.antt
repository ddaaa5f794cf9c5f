-- ===== src/Linux/Power.antt =====
-- `PowerBackend` of linux.py.
use msys_hal.Prelude.{
  ◌^◌, ◌-◌, String, true, not, Option, none, some, List, [], ◌∷◌, map, prefix, member, ◌==◌,
  string_eq, nat_eq, if◌then◌else◌,
}
use msys_hal.Json.{Value, bool, int, str, Fields, field, end}
use msys_hal.Json.Int.{ℤ, pos, negsuc}
use msys_hal.Errors.{Result, ok, err, ◌>>=◌, ◌>>◌, require, unavailable_error, read_only_error}
use msys_hal.Linux.{
  Sysfs, Decoder, read_text, read_int, entries, device, inventory_of, name_from_id, state_value,
}

-- `value or default`
abbrev pub text_or : String → Option String → String
text_or default none = default
text_or default (some s) = if s == "" then default else s

-- `text_fields` and `numeric_fields` of `get_state`: the key, the attribute, the bounds.
abbrev text_table : List (String × String)
text_table =
    ("status", "status")
    ∷ ("technology", "technology")
    ∷ ("health", "health")
    ∷ ("type", "type")
    ∷ []

abbrev max_int : ℤ
max_int = pos (2 ^ 63 - 1)

abbrev min_int : ℤ
min_int = negsuc (2 ^ 63 - 1)

abbrev numeric_table : List (String × String × ℤ × ℤ)
numeric_table =
    ("capacity_percent", "capacity", pos 0, pos 100)
    ∷ ("energy_now_uwh", "energy_now", pos 0, max_int)
    ∷ ("energy_full_uwh", "energy_full", pos 0, max_int)
    ∷ ("charge_now_uah", "charge_now", pos 0, max_int)
    ∷ ("charge_full_uah", "charge_full", pos 0, max_int)
    ∷ ("voltage_now_uv", "voltage_now", pos 0, max_int)
    ∷ ("current_now_ua", "current_now", min_int, max_int)
    ∷ ("power_now_uw", "power_now", min_int, max_int)
    ∷ ("temperature_tenths_c", "temp", negsuc 2731, pos 10000)
    ∷ []

-- An entry in front of others, if there is a value for it.
abbrev pub with_text : String → Option String → Fields → Fields
with_text key none rest = rest
with_text key (some v) rest = field key (str (prefix 128 v)) rest

abbrev pub with_int : String → Option ℤ → Fields → Fields
with_int key none rest = rest
with_int key (some n) rest = field key (int n) rest

abbrev with_flag : String → Option ℤ → Fields → Fields
with_flag key none rest = rest
with_flag key (some (pos n)) rest = field key (bool (not (n == 0))) rest
with_flag key (some (negsuc n)) rest = field key (bool true) rest

module _ (decode : Decoder) (repr : String → String) (root : String) where
  -- `inventory`
  unfoldable pub inventory : Sysfs → Fields
  inventory s =
      inventory_of "power"
        (map
          (λ entry. device "power" entry true [] (
            field "type"
              (str (prefix 64 (text_or "unknown" (read_text decode s root entry "type" 64)))) end))
          (entries s root []))
        "power-supply-class-unavailable"

  text_values : Sysfs → String → List (String × String) → Fields → Fields
  text_values s entry [] rest = rest
  text_values s entry ((key, file) ∷ more) rest =
      with_text key (read_text decode s root entry file 128) (text_values s entry more rest)

  numeric_values : Sysfs → String → List (String × String × ℤ × ℤ) → Fields → Fields
  numeric_values s entry [] rest = rest
  numeric_values s entry ((key, file, low, high) ∷ more) rest =
      with_int key (read_int decode s root entry file low high) (numeric_values s entry more rest)

  -- `get_state`
  unfoldable pub get_state : String → Sysfs → Result Value
  unfolding text_values numeric_values
  get_state identifier s = do
    name ← name_from_id repr identifier "power"
    require (member name (entries s root []))
        (unavailable_error "power device is unavailable" (field "id" (str identifier) end))
    let online = with_flag "online" (read_int decode s root name "online" (pos 0) (pos 1)) end
    ok (
        state_value identifier "power"
          (text_values s name text_table (numeric_values s name numeric_table online)) [])

  -- `set_state`
  unfoldable pub set_state : String → Fields → Result Value
  set_state identifier changes = do
    name_from_id repr identifier "power"
    err (read_only_error "power devices are read-only" end)
