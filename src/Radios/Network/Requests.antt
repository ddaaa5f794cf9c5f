-- ===== src/Radios/Network/Requests.antt =====
-- The parts of `NetworkBackend` in radios.py that send no command: `_entry`, `inventory`, what
-- `get_state` makes of the answers, and what `set_state` asks of the device and the changes.
use msys_hal.Prelude.{
  String, Bool, false, ◌||◌, Option, some, List, [], ◌∷◌, map, member, filter, is_some,
  if◌then◌else◌, ◌==◌, string_eq, nat_eq,
}
use msys_hal.Json.{
  Value, null, bool, str, arr, obj, Fields, field, end, get_field, field_or, from_items, is_text,
}
use msys_hal.Json.Int.{pos, pos_part}
use msys_hal.Errors.{
  Exception, hal, python, Result, ok, err, ◌>>=◌, ◌>>◌, require, validation_error,
  unavailable_error, read_only_error,
}
use msys_hal.Validation.Payload.{integer}
use msys_hal.Linux.Display.{append_fields}
use msys_hal.Radios.{
  class_entries, radio_device, radio_state, device_name_of, class_inventory, keep_fields,
}
use msys_hal.Radios.Interfaces.{classify, interface_values}
use msys_hal.Radios.Credentials.{validate_ssid, validate_psk}
use msys_hal.Radios.Responses.{Scan, Network, put_field, scan_value, network_value}
use msys_hal.Radios.Network.{Surroundings, Security, no_key, key}

-- What a Wi-Fi interface's supplicant reports.
pub record Report : Type 0 where
  pub status : Fields
  pub scans : List Scan
  pub networks : List Network

-- `except (ProviderError, UnavailableError)`
unfoldable pub is_degrading : Exception → Bool
is_degrading (hal e) = e.code == "HAL_PROVIDER_ERROR" || e.code == "HAL_UNAVAILABLE"
is_degrading (python name text) = false

pub report_fields : Report → Fields
report_fields r = field "wifi_control" (str "available") (
    field "wifi_status" (obj r.status) (
      field "scan_results" (arr (from_items (map scan_value r.scans)))
        (field "configured_networks" (arr (from_items (map network_value r.networks))) end)))

-- The state of a Wi-Fi interface with a control socket, from what its supplicant has said.
unfoldable pub reported : String → Fields → Result Report → Result Value
unfolding report_fields is_degrading
reported name values (ok r) =
    ok (radio_state "network" name (append_fields values (report_fields r)) ("action" ∷ []))
reported name values (err e) =
    if is_degrading e
    then ok (
        radio_state "network" name
          (append_fields values (field "wifi_control" (str "degraded") end)) [])
    else err e

abbrev pub has : String → Fields → Bool
has k changes = is_some (get_field k changes)

abbrev pub is_open : Fields → Bool
is_open changes = is_text "open" (field_or null "security" changes)

-- `result["values"]["configuration_persisted"] = persisted`
abbrev mark_values : Bool → Value → Value
mark_values b (obj values) = obj (put_field "configuration_persisted" (bool b) values)
mark_values b v = v

abbrev pub mark : Option Bool → Value → Value
mark (some b) (obj fs) = obj (put_field "values" (mark_values b (field_or null "values" fs)) fs)
mark persisted v = v

unfoldable pub action_of : Fields → Result String
action_of changes = elim (get_field "action" changes) [
  | some (str action) ↦ ok action
  | _ ↦ err (validation_error "network changes require an action" end)
]

-- The credentials of a network that is not configured.
unfoldable pub security_of : Fields → Result Security
security_of changes =
    if is_open changes
    then ok no_key
    else (validate_psk (field_or null "psk" changes) >>= λ psk. ok (key psk))

module _ {S : Type 0} (w : Surroundings S) where
  -- `_entry`
  unfoldable pub entry_at : String → S → Result String
  entry_at identifier s = elim (device_name_of identifier "network") [
    | err e ↦ err e
    | ok name ↦
        if member name (class_entries (w.sysfs s) w.root 64)
        then ok name
        else err
            (unavailable_error "network interface is unavailable" (field "id" (str identifier) end))
  ]

  abbrev pub kind_of : String → S → String
  kind_of name s = classify w.unicode w.root name (w.sysfs s)

  abbrev pub values_at : String → S → Fields
  values_at name s = interface_values w.unicode w.root name (w.sysfs s)

  metadata_at : String → Bool → S → Fields
  metadata_at name controlled s =
      append_fields
        (keep_fields ("kind" ∷ "operstate" ∷ "carrier" ∷ "address" ∷ "mtu" ∷ []) (values_at name s))
        (if kind_of name s == "wifi"
          then field "wifi_control" (str (if controlled then "available" else "unavailable")) end
          else end)

  listed_as : String → Bool → S → Value
  unfolding metadata_at
  listed_as name controlled s =
      radio_device "network" name (if controlled then "action" ∷ [] else [])
        (metadata_at name controlled s)

  controlled_of : String → S → Result Bool
  controlled_of name s = if kind_of name s == "wifi" then w.control.available name s else ok false

  list_from : List String → S → Result (List Value)
  unfolding listed_as controlled_of
  list_from [] s = ok []
  list_from (name ∷ rest) s = do
    controlled ← controlled_of name s
    others ← list_from rest s
    ok (listed_as name controlled s ∷ others)

  -- `inventory`
  unfoldable pub inventory : S → Result Fields
  unfolding list_from
  inventory s = do
    devices ← list_from (class_entries (w.sysfs s) w.root 64) s
    ok (class_inventory "network" "network-class-unavailable" devices)

  -- The configured networks that `forget` means.
  unfoldable pub matches_of : Fields → List Network → Result (List Network)
  matches_of changes networks =
      if has "network_id" changes
      then (integer (field_or null "network_id" changes) "network_id" (pos 0) (pos 4095) >>= λ id.
          ok (filter (λ n. n.network_id == pos_part id) networks))
      else (validate_ssid w.unicode (field_or null "ssid" changes) >>= λ ssid.
          ok (filter (λ n. n.ssid == ssid) networks))

  -- What `set_state` asks of the device and the changes: the interface and the action.
  unfoldable pub admit : String → Fields → S → Result (String × String)
  unfolding entry_at action_of
  admit identifier changes s = do
    name ← entry_at identifier s
    require (kind_of name s == "wifi")
        (read_only_error "non-Wi-Fi network interfaces are read-only" end)
    ready ← w.control.available name s
    require ready (
        unavailable_error "wpa_supplicant control is unavailable" (field "id" (str identifier) end))
    action ← action_of changes
    ok (name, action)
