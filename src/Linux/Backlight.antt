-- ===== src/Linux/Backlight.antt =====
-- `BacklightBackend` of linux.py.
pub mod Writes
pub mod Readings
pub mod Asked
pub mod Verified
use msys_hal.Prelude.{
  ℕ, ◌^◌, ◌-◌, String, Bool, false, not, ◌&&◌, Option, none, some, List, [], ◌∷◌, member, is_some,
  all, ◌==◌, string_eq, nat_eq, if◌then◌else◌,
}
use msys_hal.Json.{
  Value, null, int, str, Fields, field, end, keys, count_fields, field_or, arr, nil,
}
use msys_hal.Json.Int.{ℤ, pos, pos_part}
use msys_hal.Errors.{
  Result, ok, err, ◌>>=◌, ◌>>◌, require, validation_error, unavailable_error, read_only_error,
  provider_error,
}
use msys_hal.Action.{Action}
use msys_hal.Validation.Payload.{integer}
use msys_hal.Linux.{Sysfs, entries, device, inventory_of, name_from_id, state_value}
use msys_hal.Linux.Attribute.{Platform, read_level, is_writable, safe_write}
use msys_hal.Linux.Numbers.{brightness_of, percent_of}

id_details : String → Fields
id_details identifier = field "id" (str identifier) end

abbrev pub optional_int : Option ℕ → Value
optional_int none = null
optional_int (some n) = int (pos n)

abbrev max_level : ℕ
max_level = 2 ^ 31 - 1

-- What `set_state` is about to do.
pub record Plan : Type 0 where
  pub entry : String
  pub maximum : ℕ
  pub requested : ℕ

module _ (p : Platform) (root : String) where
  pub mutable_of : Bool → List String
  mutable_of writable = if writable then "brightness" ∷ "brightness_percent" ∷ [] else []

  listed : Sysfs → String → ℕ → Value
  unfolding mutable_of
  listed s entry maximum =
      let readable = is_some (read_level p root s entry "brightness" 0 maximum) in
      let writable = readable && is_writable p root s entry in
      device "backlight" entry readable (mutable_of writable) (
        field "max_brightness" (int (pos maximum))
          (field "control" (str (if writable then "writable" else "read-only")) end))

  list_all : Sysfs → List String → List Value
  unfolding listed
  list_all s [] = []
  list_all s (entry ∷ rest) = elim (read_level p root s entry "max_brightness" 1 max_level) [
    | none ↦ list_all s rest
    | some maximum ↦ listed s entry maximum ∷ list_all s rest
  ]

  -- `inventory`
  unfoldable pub inventory : Sysfs → Fields
  unfolding list_all
  inventory s =
      inventory_of "backlight" (list_all s (entries s root [])) "backlight-class-unavailable"

  -- `_entry`
  unfoldable pub entry_of : String → Sysfs → Result String
  unfolding id_details
  entry_of identifier s = elim (name_from_id p.repr identifier "backlight") [
    | err e ↦ err e
    | ok name ↦
        if member name (entries s root [])
        then ok name
        else err (unavailable_error "backlight device is unavailable" (id_details identifier))
  ]

  actual_fields : ℕ → Option ℕ → Fields
  actual_fields maximum none = end
  actual_fields maximum (some actual) =
      field "actual_brightness" (int (pos actual))
        (field "actual_brightness_percent" (int (pos (percent_of actual maximum))) end)

  -- `values` of `get_state`
  unfoldable pub values_of : ℕ → ℕ → Option ℕ → Fields
  unfolding actual_fields
  values_of brightness maximum actual = field "brightness" (int (pos brightness)) (
      field "brightness_percent" (int (pos (percent_of brightness maximum)))
        (field "max_brightness" (int (pos maximum)) (actual_fields maximum actual)))

  observed_state : String → String → Sysfs → Option ℕ → Option ℕ → Result Value
  unfolding id_details mutable_of
  observed_state identifier entry s (some maximum) (some brightness) = ok (
      state_value identifier "backlight"
        (values_of brightness maximum (read_level p root s entry "actual_brightness" 0 maximum))
        (mutable_of (is_writable p root s entry)))
  observed_state identifier entry s maximum brightness =
      err (unavailable_error "backlight attributes are unreadable" (id_details identifier))

  -- `get_state`
  unfoldable pub get_state : String → Sysfs → Result Value
  unfolding observed_state entry_of read_level
  get_state identifier s = elim (entry_of identifier s) [
    | err e ↦ err e
    | ok entry ↦
        observed_state identifier entry s (read_level p root s entry "max_brightness" 1 max_level)
          (read_level p root s entry "brightness" 0 max_level)
  ]

  abbrev pub setting : List String
  setting = "brightness" ∷ "brightness_percent" ∷ []

  exactly : Result ℤ → Result ℕ
  exactly (err e) = err e
  exactly (ok n) = ok (pos_part n)

  share_of : ℕ → Result ℤ → Result ℕ
  share_of maximum (err e) = err e
  share_of maximum (ok percent) = ok (brightness_of (pos_part percent) maximum)

  -- What the changes ask for.
  requested_of : Fields → ℕ → Result ℕ
  unfolding exactly share_of
  requested_of changes maximum =
      if member "brightness" (keys changes)
      then exactly
          (integer (field_or null "brightness" changes) "changes.brightness" (pos 0) (pos maximum))
      else share_of maximum (
          integer (field_or null "brightness_percent" changes) "changes.brightness_percent" (pos 0)
            (pos 100))

  maximum_of : String → Option ℕ → Result ℕ
  unfolding id_details
  maximum_of identifier none =
      err (unavailable_error "backlight maximum is unreadable" (id_details identifier))
  maximum_of identifier (some n) = ok n

  unfoldable pub has_setting : Fields → Bool
  has_setting changes = count_fields changes == 1 && all (λ k. member k setting) (keys changes)

  is_level : ℕ → Option ℕ → Bool
  is_level requested none = false
  is_level requested (some n) = n == requested

  -- `set_state` in front of the write: the entry, its maximum and the brightness to set.
  unfoldable pub request : String → Fields → Sysfs → Result Plan
  unfolding requested_of maximum_of id_details
  request identifier changes s = do
    require (has_setting changes) (
        validation_error "backlight changes must contain exactly brightness or brightness_percent"
          end)
    entry ← entry_of identifier s
    maximum ← maximum_of identifier (read_level p root s entry "max_brightness" 1 max_level)
    require (is_writable p root s entry) (
        read_only_error "backlight brightness is read-only"
          (field "id" (str identifier) (field "mutable" (arr nil) end)))
    requested ← requested_of changes maximum
    ok (record { entry = entry; maximum = maximum; requested = requested })

  -- Behind the write: what is read back must be what was asked for.
  pub confirm : String → Plan → Result (Unit {0}) → Action Sysfs Value
  unfolding is_level
  confirm identifier plan (err e) s = (err e, s)
  confirm identifier plan (ok u) s =
      let seen = read_level p root s plan.entry "brightness" 0 plan.maximum in
      let answer = get_state identifier s in
      (
        if is_level plan.requested seen
            then answer
            else err (
                provider_error "backlight write could not be verified" (
                  field "id" (str identifier) (
                    field "requested" (int (pos plan.requested))
                      (field "observed" (optional_int seen) end)))),
        s,
      )

  carry_out : String → Result Plan → Action Sysfs Value
  unfolding confirm
  carry_out identifier (err e) s = (err e, s)
  carry_out identifier (ok plan) s =
      let (outcome, s') = safe_write p root plan.entry plan.requested s in
      confirm identifier plan outcome s'

  -- `set_state`
  unfoldable pub set_state : String → Fields → Action Sysfs Value
  unfolding carry_out
  set_state identifier changes s = carry_out identifier (request identifier changes s) s
