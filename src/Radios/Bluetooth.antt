-- ===== src/Radios/Bluetooth.antt =====
-- `BluetoothBackend` of radios.py: Bluetooth controllers and radios, whose soft block is written
-- through rfkill.
pub mod Switch
use msys_hal.Prelude.{
  ℕ, String, Bool, false, ◌&&◌, Option, none, some, List, [], ◌∷◌, ◌++◌, map, filter, member,
  starts_with, prefix, if◌then◌else◌, ◌==◌, string_eq, nat_eq,
}
use msys_hal.Json.{Value, null, bool, str, Fields, field, end}
use msys_hal.Json.Int.{ℤ, pos}
use msys_hal.Errors.{Result, ok, err, ◌>>=◌, unavailable_error}
use msys_hal.Linux.{Sysfs}
use msys_hal.Linux.Attribute.{Written}
use msys_hal.Radios.{
  Unicode, attribute_text, attribute_int, or_empty, class_entries, radio_device, radio_state,
  device_name_of, class_inventory, with_value,
}
use msys_hal.Radios.Lines.{casefold, is_number}
use msys_hal.Radios.Interfaces.{is_int, flag_value, address_value}

-- The platform of the backend: Unicode, the class directories, whether an attribute of an entry
-- below a directory is a file and may be written, and a write to it, after which the driver has
-- changed what sysfs says in any way.
pub record Platform : Type 0 where
  pub unicode : Unicode
  pub controller_root : String
  pub rfkill_root : String
  pub is_file : String → String → String → Sysfs → Bool
  pub access : String → String → String → Sysfs → Bool
  pub write : String → String → String → List ℕ → Sysfs → Written × Sysfs

-- `name[:128]` of a name that is not empty
abbrev name_value : Option String → Option Value
name_value none = none
name_value (some s) = if s == "" then none else some (str (prefix 128 s))

-- `soft` and `hard`, where the older attribute `state` stands in for a missing one, which it says by
-- the number `blocked`.
abbrev pub block_of : ℤ → Option ℤ → Option ℤ → Option ℤ
block_of blocked (some n) legacy = some n
block_of blocked none none = none
block_of blocked none (some n) = some (if is_int blocked (some n) then pos 1 else pos 0)

abbrev not_flag : Option ℤ → Option Value
not_flag none = none
not_flag (some n) = some (bool (is_int (pos 0) (some n)))

-- `re.fullmatch(r"hci[0-9]{1,6}", name)`
abbrev after_hci : String → String
after_hci (String.◌∷◌ a (String.◌∷◌ b (String.◌∷◌ c s))) = s
after_hci s = String.[]

unfoldable pub is_controller : String → Bool
unfolding is_number
is_controller name = starts_with name "hci" && is_number 6 (after_hci name)

abbrev pub pairing : Fields → Fields
pairing rest =
    field "pairing_available" (bool false)
      (field "pairing_reason" (str "no-supported-bluetooth-control-channel") rest)

-- What is known of power: nothing.
abbrev power_unknown : Fields
power_unknown = field "powered" null (field "power_state" (str "unknown") end)

-- What a device is: a radio, or a controller with the radio of its name, if there is just one.
pub data Resolved : Type 0 where
  controller : String → Option String → Resolved
  radio : String → Resolved

-- The third component of what `_resolve` returns.
unfoldable pub radio_of : Resolved → Option String
radio_of (controller name r) = r
radio_of (radio name) = some name

abbrev only_one : List String → Option String
only_one (r ∷ []) = some r
only_one rs = none

-- The values of a radio without those that a controller has of its own.
abbrev drop_shared : Fields → Fields
drop_shared end = end
drop_shared (field k v fs) =
    let rest = drop_shared fs in
    if member k ("kind" ∷ "pairing_available" ∷ "pairing_reason" ∷ []) then rest else field k v rest

module _ (p : Platform) where
  -- `_default_writable` of a radio's soft block
  unfoldable pub default_writable : String → Sysfs → Bool
  default_writable entry s =
      p.is_file p.rfkill_root entry "soft" s && p.access p.rfkill_root entry "soft" s

  -- `_controllers`
  unfoldable pub controllers : Sysfs → List String
  unfolding is_controller
  controllers s = filter is_controller (class_entries s p.controller_root 32)

  is_bluetooth : Sysfs → String → Bool
  is_bluetooth s entry =
      casefold (or_empty (attribute_text p.unicode s p.rfkill_root entry "type" 32)) == "bluetooth"

  -- `_radios`
  unfoldable pub radios : Sysfs → List String
  unfolding is_bluetooth
  radios s = filter (is_bluetooth s) (class_entries s p.rfkill_root 64)

  level : Sysfs → String → String → ℤ → Option ℤ
  level s entry attribute maximum =
      attribute_int p.unicode s p.rfkill_root entry attribute (pos 0) maximum

  unfoldable pub soft_of : String → Sysfs → Option ℤ
  unfolding level
  soft_of entry s = block_of (pos 0) (level s entry "soft" (pos 1)) (level s entry "state" (pos 2))

  unfoldable pub hard_of : String → Sysfs → Option ℤ
  unfolding level
  hard_of entry s = block_of (pos 2) (level s entry "hard" (pos 1)) (level s entry "state" (pos 2))

  -- `_radio_values`
  unfoldable pub radio_values : String → Sysfs → Fields
  unfolding soft_of hard_of
  radio_values entry s = field "kind" (str "radio") (
      pairing (
        with_value "radio_name"
          (name_value (attribute_text p.unicode s p.rfkill_root entry "name" 128))
          (with_value "rfkill_soft_blocked" (flag_value (soft_of entry s)) (
            with_value "rfkill_unblocked" (not_flag (soft_of entry s))
              (with_value "hard_blocked" (flag_value (hard_of entry s)) power_unknown)))))

  is_named : Sysfs → String → String → Bool
  is_named s name entry = elim (attribute_text p.unicode s p.rfkill_root entry "name" 128) [
    | none ↦ false
    | some found ↦ found == name
  ]

  -- `_radio_for_controller`
  unfoldable pub radio_for_controller : String → Sysfs → Option String
  unfolding is_named
  radio_for_controller name s = only_one (filter (is_named s name) (radios s))

  -- Whether the radio is there and its soft block may be written.
  unfoldable pub is_switchable : Option String → Sysfs → Bool
  unfolding default_writable
  is_switchable none s = false
  is_switchable (some entry) s = default_writable entry s

  pub mutable_of : Option String → Sysfs → List String
  mutable_of r s = if is_switchable r s then "powered" ∷ [] else []

  address_of : String → Sysfs → Option Value
  address_of name s =
      address_value (attribute_text p.unicode s p.controller_root name "address" 128)

  listed_controller : Sysfs → String → Value
  unfolding mutable_of address_of
  listed_controller s name =
      let r = radio_for_controller name s in
      radio_device "bluetooth" name (mutable_of r s) (
        field "kind" (str "controller") (
          pairing (
            field "power_control" (str (if is_switchable r s then "rfkill" else "unavailable")) (
              field "power_state" (str "unknown") (with_value "address" (address_of name s) end)))))

  listed_radio : Sysfs → String → Value
  unfolding mutable_of
  listed_radio s name =
      radio_device "bluetooth" name (mutable_of (some name) s) (radio_values name s)

  -- `inventory`
  unfoldable pub inventory : Sysfs → Fields
  unfolding listed_controller listed_radio
  inventory s =
      class_inventory "bluetooth" "bluetooth-classes-unavailable"
        (map (listed_controller s) (controllers s) ++ map (listed_radio s) (radios s))

  -- `_resolve`
  unfoldable pub resolve : String → Sysfs → Result Resolved
  resolve identifier s = elim (device_name_of identifier "bluetooth") [
    | err e ↦ err e
    | ok name ↦
        if member name (controllers s)
        then ok (controller name (radio_for_controller name s))
        else if member name (radios s)
        then ok (radio name)
        else err
            (unavailable_error "Bluetooth device is unavailable" (field "id" (str identifier) end))
  ]

  radio_part : Option String → Sysfs → Fields
  radio_part none s = field "power_control" (str "unavailable") end
  radio_part (some entry) s = drop_shared (radio_values entry s)

  state_of : Resolved → Sysfs → Value
  unfolding radio_part address_of mutable_of
  state_of (radio name) s =
      radio_state "bluetooth" name (radio_values name s) (mutable_of (some name) s)
  state_of (controller name r) s =
      radio_state "bluetooth" name
        (field "kind" (str "controller")
          (pairing (with_value "address" (address_of name s) (radio_part r s))))
        (mutable_of r s)

  -- `get_state`
  unfoldable pub get_state : String → Sysfs → Result Value
  unfolding state_of
  get_state identifier s = resolve identifier s >>= λ found. ok (state_of found s)
