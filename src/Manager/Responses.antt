-- ===== src/Manager/Responses.antt =====
-- The provider's answers: `_unwrap`, `_normalize_device`, `_normalize_inventory` and
-- `_normalize_state` of manager.py.
pub mod Checked
use msys_hal.Prelude.{
  ℕ, suc, ◌+◌, String, Bool, true, false, not, ◌&&◌, ◌||◌, Option, none, some, List, [], ◌∷◌, leb,
  ltb, ◌==◌, string_eq, if◌then◌else◌, len, prefix, concat, decimal, member, before,
}
use msys_hal.Json.{
  Value, null, bool, int, float, str, arr, obj, Items, nil, cons, Fields, end, field, get_field,
  field_or, is_text, count_items,
}
use msys_hal.Errors.{
  Exception, python, Result, ok, err, ◌>>=◌, ◌>>◌, require, provider_error, hal_error,
}
use msys_hal.Validation.Bounded.{ensure_bounded_json}
use msys_hal.Validation.Payload.{
  object_payload, bounded_string, domain, device_id, string_list, safe_scalar_map,
}
use msys_hal.Manager.State.{Candidate, Env, str_of}

abbrev pub manager_interface : String
manager_interface = "org.msys.hal.manager.v1"

abbrev pub provider_interface : String
provider_interface = "org.msys.hal.provider.v1"

abbrev pub passthrough_provider_errors : List String
passthrough_provider_errors =
    "CALL_TIMEOUT" ∷ "HAL_BAD_PAYLOAD" ∷ "HAL_READ_ONLY" ∷ "HAL_UNAVAILABLE" ∷ []

-- `response.get(key, default)` as text.
text_field : Env → String → String → Fields → String
text_field env key default fs = elim (get_field key fs) [ none ↦ default | some v ↦ str_of env v ]

-- The `details` of an error response.
error_details : String → Option Value → Fields
error_details operation (some (obj details)) =
    field "operation" (str operation) (field "provider_details" (obj details) end)
error_details operation raw = field "operation" (str operation) end

append_fields : Fields → Fields → Fields
append_fields end gs = gs
append_fields (field k v fs) gs = field k v (append_fields fs gs)

error_response : Env → String → Fields → Exception
unfolding error_details append_fields text_field
error_response env operation fs =
    let code = prefix 64 (text_field env "code" "HAL_PROVIDER_ERROR" fs) in
    let message = prefix 512 (text_field env "message" (concat (operation ∷ " failed" ∷ [])) fs) in
    let details = error_details operation (get_field "payload" fs) in
    if member code passthrough_provider_errors
    then hal_error code message details
    else provider_error (concat (operation ∷ " failed" ∷ [])) (
        append_fields details (
          field "provider_code" (str code)
            (field "provider_message" (str (prefix 256 message)) end)))

return_payload : String → Option Value → Result Fields
return_payload operation (some (obj payload)) = do
  ensure_bounded_json
      (record { label = concat (operation ∷ " response" ∷ []); max_depth = 8; max_items = 2048 })
      (obj payload)
  ok payload
return_payload operation other =
    err (provider_error (concat (operation ∷ " returned a non-object" ∷ [])) end)

-- `_unwrap`
unfoldable pub unwrap : Env → Value → String → Result Fields
unfolding error_response return_payload
unwrap env (obj fs) operation =
    if is_text "return" (field_or null "type" fs)
    then return_payload operation (get_field "payload" fs)
    else err (error_response env operation fs)
unwrap env response operation = err (error_response env operation end)

pub record Device : Type 0 where
  pub id : String
  pub domain : String
  pub name : String
  pub available : Bool
  pub mutable_fields : List String
  pub metadata : Fields

pub record DomainRow : Type 0 where
  pub domain : String
  pub status : String
  pub reason : Option String

pub record Inventory : Type 0 where
  pub row : DomainRow
  pub devices : List Device

pub record DeviceState : Type 0 where
  pub id : String
  pub domain : String
  pub available : Bool
  pub values : Fields
  pub mutable_fields : List String

abbrev complain : Bool → String → Result (Unit {0})
complain test message = require test (provider_error message end)

-- `isinstance(name, str) and name and len(name) <= 128`
name_text : Value → Result String
name_text (str name) = do
  complain (not (name == "") && leb (len name) 128) "provider device name is invalid"
  ok name
name_text v = err (provider_error "provider device name is invalid" end)

flag : String → Value → Result Bool
flag complaint (bool b) = ok b
flag complaint v = err (provider_error complaint end)

abbrev device_keys : List String
device_keys = "id" ∷ "domain" ∷ "name" ∷ "available" ∷ "mutable" ∷ "metadata" ∷ []

-- `_normalize_device`
unfoldable pub normalize_device : Value → String → Result Device
unfolding name_text flag
normalize_device raw requested_domain = do
  item ← object_payload raw device_keys device_keys "HAL device"
  identifier ← device_id (field_or null "id" item) "device.id"
  complain (before b':' identifier == requested_domain) "provider device has the wrong domain"
  item_domain ← domain (field_or null "domain" item) "domain"
  complain (item_domain == requested_domain) "provider device has the wrong domain"
  name ← name_text (field_or null "name" item)
  available ← flag "provider device availability is invalid" (field_or null "available" item)
  mutable_fields ← string_list (field_or null "mutable" item) "device.mutable" 32 64
  metadata ← safe_scalar_map (field_or null "metadata" item) "device.metadata" 64
  ok (record {
    id = identifier;
    domain = requested_domain;
    name = name;
    available = available;
    mutable_fields = mutable_fields;
    metadata = metadata;
  })

normalize_devices : Items → String → Result (List Device)
normalize_devices nil requested_domain = ok []
normalize_devices (cons raw rest) requested_domain = do
  device ← normalize_device raw requested_domain
  devices ← normalize_devices rest requested_domain
  ok (device ∷ devices)

device_list : Value → String → Result (List Device)
device_list (arr raw) requested_domain = do
  complain (leb (count_items raw) 256) "provider returned too many devices"
  normalize_devices raw requested_domain
device_list v requested_domain = err (provider_error "provider returned too many devices" end)

-- `raw_domains` is a list of one dict.
single_row : Value → Result Value
single_row (arr (cons (obj fs) nil)) = ok (obj fs)
single_row v =
    err (provider_error "provider inventory must return exactly one requested domain" end)

-- `status not in STATUS_VALUES`, a set: a list or a dict has no hash.
status_text : Value → Result String
status_text (str status) = do
  complain (member status ("available" ∷ "unavailable" ∷ "degraded" ∷ []))
      "provider returned an invalid status"
  ok status
status_text (arr xs) = err (python "TypeError" "unhashable type: 'list'")
status_text (obj fs) = err (python "TypeError" "unhashable type: 'dict'")
status_text v = err (provider_error "provider returned an invalid status" end)

reason_text : Option Value → Result (Option String)
reason_text none = ok none
reason_text (some v) = do reason ← bounded_string v "provider domain reason" 256; ok (some reason)

abbrev inventory_keys : List String
inventory_keys = "schema" ∷ "provider" ∷ "domains" ∷ "devices" ∷ []

-- `_normalize_inventory`
unfoldable pub normalize_inventory : Value → String → Candidate → Result Inventory
unfolding single_row status_text reason_text device_list normalize_devices
normalize_inventory raw requested_domain candidate = do
  result ← object_payload raw inventory_keys inventory_keys "provider inventory"
  complain (is_text provider_interface (field_or null "schema" result))
      "provider inventory schema mismatch"
  complain (is_text candidate.component (field_or null "provider" result))
      "provider inventory id does not match its component"
  raw_domain ← single_row (field_or null "domains" result)
  row ←
      object_payload raw_domain ("domain" ∷ "status" ∷ "reason" ∷ []) ("domain" ∷ "status" ∷ [])
        "provider domain"
  row_domain ← domain (field_or null "domain" row) "domain"
  complain (row_domain == requested_domain) "provider returned the wrong domain"
  status ← status_text (field_or null "status" row)
  reason ← reason_text (get_field "reason" row)
  devices ← device_list (field_or null "devices" result) requested_domain
  ok (record {
    row = record { domain = requested_domain; status = status; reason = reason };
    devices = devices;
  })

abbrev state_keys : List String
state_keys = "id" ∷ "domain" ∷ "available" ∷ "values" ∷ "mutable" ∷ []

-- `_normalize_state`
unfoldable pub normalize_state : Value → String → String → Result DeviceState
unfolding flag
normalize_state raw identifier provider_component = do
  result ←
      object_payload raw ("schema" ∷ "provider" ∷ "state" ∷ [])
        ("schema" ∷ "provider" ∷ "state" ∷ []) "provider state response"
  complain (is_text provider_interface (field_or null "schema" result))
      "provider state schema mismatch"
  complain (is_text provider_component (field_or null "provider" result))
      "provider state id does not match its component"
  state ← object_payload (field_or null "state" result) state_keys state_keys "provider state"
  state_id ← device_id (field_or null "id" state) "id"
  complain (state_id == identifier) "provider returned state for another device"
  let requested_domain = before b':' identifier
  state_domain ← domain (field_or null "domain" state) "domain"
  complain (state_domain == requested_domain) "provider state has the wrong domain"
  available ← flag "provider state availability is invalid" (field_or null "available" state)
  values ← safe_scalar_map (field_or null "values" state) "state.values" 64
  mutable_fields ← string_list (field_or null "mutable" state) "state.mutable" 32 64
  ok (record {
    id = identifier;
    domain = requested_domain;
    available = available;
    values = values;
    mutable_fields = mutable_fields;
  })
