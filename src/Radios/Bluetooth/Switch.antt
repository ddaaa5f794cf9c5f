-- ===== src/Radios/Bluetooth/Switch.antt =====
-- `set_state` of `BluetoothBackend` in radios.py, and the write that it does.
pub mod Verified
use msys_hal.Prelude.{
  ℕ, String, Bool, true, false, not, ◌&&◌, Option, none, some, List, [], ◌∷◌, all, length,
  if◌then◌else◌, ◌==◌, string_eq, nat_eq,
}
use msys_hal.Json.{Value, bool, str, Fields, field, end, keys, get_field}
use msys_hal.Errors.{
  python, Result, ok, err, ◌>>=◌, ◌>>◌, require, validation_error, unavailable_error,
  provider_error, read_only_error,
}
use msys_hal.Action.{Action}
use msys_hal.Linux.{Sysfs}
use msys_hal.Linux.Attribute.{Written, wrote, denied, failed}
use msys_hal.Radios.Bluetooth.{Platform, radio_of, resolve, is_switchable, radio_values, get_state}

-- `_default_write`, by how `os.open`, `os.write` and `os.close` end: an `OSError`, or none.
unfoldable pub default_write : List ℕ → Written → Result (Unit {0})
default_write bytes (wrote n) = require (n == length bytes) (python "OSError" "short sysfs write")
default_write bytes denied = err (python "PermissionError" "")
default_write bytes (failed text) = err (python "OSError" text)

-- The boolean `powered` of the changes, if that is all they hold.
unfoldable pub powered_of : Fields → Result Bool
powered_of changes = elim (get_field "powered" changes) [
  | some (bool b) ↦
      if all (λ k. k == "powered") (keys changes)
      then ok b
      else err (validation_error "Bluetooth changes must contain exactly boolean powered" end)
  | _ ↦ err (validation_error "Bluetooth changes must contain exactly boolean powered" end)
]

-- `values.get(key) is expected`
abbrev pub is_flag : Bool → Option Value → Bool
is_flag expected (some (bool b)) = if expected then b else not b
is_flag expected v = false

-- `"0\n" if requested else "1\n"`
abbrev pub soft_line : Bool → List ℕ
soft_line requested = (if requested then b'0' else b'1') ∷ 10 ∷ []

abbrev pub id_details : String → Fields
id_details identifier = field "id" (str identifier) end

-- What `set_state` is about to do: the radio, and whether it is to be powered.
pub record Plan : Type 0 where
  pub entry : String
  pub requested : Bool

module _ (p : Platform) where
  -- The radio to write to.
  unfoldable pub writable_radio : Option String → Sysfs → Result String
  writable_radio none s = err (read_only_error "Bluetooth radio power is read-only" end)
  writable_radio (some entry) s =
      if is_switchable p (some entry) s
      then ok entry
      else err (read_only_error "Bluetooth radio power is read-only" end)

  -- `set_state` in front of the write
  unfoldable pub plan_of : String → Fields → Sysfs → Result Plan
  unfolding writable_radio powered_of
  plan_of identifier changes s = do
    found ← resolve p identifier s
    requested ← powered_of changes
    entry ← writable_radio (radio_of found) s
    require (not (requested && is_flag true (get_field "hard_blocked" (radio_values p entry s))))
        (unavailable_error "Bluetooth radio is hard blocked" (id_details identifier))
    ok (record { entry = entry; requested = requested })

  -- Behind the write: the soft block that is read back must be what was asked for.
  pub confirm : String → Plan → Result (Unit {0}) → Sysfs → Result Value
  confirm identifier plan (err e) s =
      err (provider_error "Bluetooth soft-block write failed" (id_details identifier))
  confirm identifier plan (ok done) s =
      if is_flag plan.requested (get_field "rfkill_unblocked" (radio_values p plan.entry s))
      then get_state p identifier s
      else err (
          provider_error "Bluetooth soft-block write could not be verified" (id_details identifier))

  pub carry_out : String → Result Plan → Action Sysfs Value
  unfolding default_write confirm
  carry_out identifier (err e) s = (err e, s)
  carry_out identifier (ok plan) s =
      let bytes = soft_line plan.requested in
      let (written, s') = p.write p.rfkill_root plan.entry "soft" bytes s in
      (confirm identifier plan (default_write bytes written) s', s')

  -- `set_state`
  unfoldable pub set_state : String → Fields → Action Sysfs Value
  unfolding carry_out plan_of
  set_state identifier changes s = carry_out identifier (plan_of identifier changes s) s
