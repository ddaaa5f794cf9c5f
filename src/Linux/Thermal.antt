-- ===== src/Linux/Thermal.antt =====
-- `ThermalBackend` of linux.py.
use msys_hal.Prelude.{
  String, true, Option, none, some, List, [], ◌∷◌, map, prefix, member, ◌==◌, string_eq,
  if◌then◌else◌,
}
use msys_hal.Json.{Value, int, str, Fields, field, end}
use msys_hal.Json.Int.{ℤ, pos, negsuc}
use msys_hal.Errors.{Result, ok, err, ◌>>=◌, ◌>>◌, require, unavailable_error, read_only_error}
use msys_hal.Linux.{
  Sysfs, Decoder, read_text, read_int, entries, device, inventory_of, name_from_id, state_value,
}
use msys_hal.Linux.Power.{text_or}

-- `if sensor_type: values["type"] = sensor_type[:128]`
abbrev type_field : Option String → Fields
type_field none = end
type_field (some s) = if s == "" then end else field "type" (str (prefix 128 s)) end

abbrev zones : List String
zones = "thermal_zone" ∷ []

module _ (decode : Decoder) (repr : String → String) (root : String) where
  -- `inventory`
  unfoldable pub inventory : Sysfs → Fields
  inventory s =
      inventory_of "thermal"
        (map
          (λ entry. device "thermal" entry true [] (
            field "type"
              (str (prefix 128 (text_or entry (read_text decode s root entry "type" 128)))) end))
          (entries s root zones))
        "thermal-class-unavailable"

  measured : String → String → Sysfs → Option ℤ → Result Value
  measured identifier name s none = err (
      unavailable_error "thermal sensor has no readable temperature"
        (field "id" (str identifier) end))
  measured identifier name s (some temperature) = ok (
      state_value identifier "thermal"
        (field "temperature_millicelsius" (int temperature)
          (type_field (read_text decode s root name "type" 128)))
        [])

  -- `get_state`
  unfoldable pub get_state : String → Sysfs → Result Value
  unfolding measured
  get_state identifier s = do
    name ← name_from_id repr identifier "thermal"
    require (member name (entries s root zones))
        (unavailable_error "thermal sensor is unavailable" (field "id" (str identifier) end))
    measured identifier name s (read_int decode s root name "temp" (negsuc 273149) (pos 1000000))

  -- `set_state`
  unfoldable pub set_state : String → Fields → Result Value
  set_state identifier changes = do
    name_from_id repr identifier "thermal"
    err (read_only_error "thermal sensors are read-only" end)
