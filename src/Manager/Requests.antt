-- ===== src/Manager/Requests.antt =====
-- The requests that `handle` of manager.py reads from a method's name and payload.
pub mod Checked
use msys_hal.Prelude.{
  ℕ, ◌+◌, ◌-◌, ◌^◌, String, Bool, true, false, not, ◌&&◌, ◌||◌, Option, none, some, is_some, List,
  [], ◌∷◌, concat, decimal, ◌==◌, string_eq, if◌then◌else◌, is_empty,
}
use msys_hal.Json.{Value, null, bool, int, float, str, arr, obj, Fields, end, field_or, get_field}
use msys_hal.Json.Int.{ℤ, pos, negsuc}
use msys_hal.Errors.{Result, ok, err, ◌>>=◌, ◌>>◌, require, validation_error, hal_error}
use msys_hal.Validation.Payload.{
  object_payload, domain, device_id, component_id, integer, string_list, changes,
}

pub data Request : Type 0 where
  inventory_request : (domains : Option (List String)) (refresh : Bool) → Request
  get_state_request : (id : String) (refresh : Bool) → Request
  set_state_request : (id : String) (requested : Fields) → Request
  list_request : (of : Option String) (refresh probe : Bool) → Request
  detail_request : (of : String) (component : Option String) (refresh probe : Bool) → Request
  select_request :
      (of : String) (component : Option String) (expected : Option ℕ) (allow : Bool) → Request
  watch_request : (after_revision timeout_ms : ℕ) (domains : List String) → Request

-- `request.get(key, False)` and the test that it is a bool.
flag_of : String → Fields → Result Bool
flag_of key request = elim (get_field key request) [
  | none ↦ ok false
  | some (bool b) ↦ ok b
  | some _ ↦ err (validation_error (concat (key ∷ " must be a boolean" ∷ [])) end)
]

-- An optional value that is checked if the key is there.
if_there {ℓ} : {A : Type ℓ} → String → (Value → Result A) → Fields → Result (Option A)
if_there key read request = elim (get_field key request) [
  | none ↦ ok none
  | some v ↦ do a ← read v; ok (some a)
]

-- `raw_component = request.get("component")`, where `null` counts as none.
component_or_none : Option Value → Result (Option String)
component_or_none none = ok none
component_or_none (some null) = ok none
component_or_none (some v) = do component ← component_id v "component"; ok (some component)

abbrev natural_part : ℤ → ℕ
natural_part (pos n) = n
natural_part (negsuc n) = 0

-- A natural number up to `maximum`.
natural : String → ℕ → Value → Result ℕ
natural label maximum v = do n ← integer v label (pos 0) (pos maximum); ok (natural_part n)

-- `_expected_revision`
expected_revision_of : Fields → Result (Option ℕ)
unfolding if_there natural
expected_revision_of request =
    if_there "expected_revision" (natural "expected_revision" (2 ^ 63 - 1)) request

check_domains : ℕ → List String → Result (Unit {0})
check_domains index [] = ok tt
check_domains index (d ∷ ds) = do
  domain (str d) (concat ("domains[" ∷ decimal index ∷ "]" ∷ []))
  check_domains (index + 1) ds

-- `_requested_domains` of a value that is not `None`.
domain_list : Bool → Value → Result (List String)
unfolding check_domains
domain_list include_known raw = do
  listed ← string_list raw "domains" 32 64
  check_domains 0 listed
  require (not (is_empty listed && include_known))
      (validation_error "domains must not be empty" end)
  ok listed

-- `_requested_domains`
requested_domains : Bool → Option Value → Result (Option (List String))
unfolding domain_list
requested_domains include_known none = ok none
requested_domains include_known (some null) = ok none
requested_domains include_known (some raw) = do
  domains ← domain_list include_known raw
  ok (some domains)

abbrev or_empty : Option (List String) → List String
or_empty none = []
or_empty (some domains) = domains

inventory_of : Value → Result Request
inventory_of payload = do
  request ← object_payload payload ("domains" ∷ "refresh" ∷ []) [] "payload"
  domains ← requested_domains true (get_field "domains" request)
  refresh ← flag_of "refresh" request
  ok (inventory_request domains refresh)

get_state_of : Value → Result Request
get_state_of payload = do
  request ← object_payload payload ("id" ∷ "refresh" ∷ []) ("id" ∷ []) "payload"
  refresh ← flag_of "refresh" request
  identifier ← device_id (field_or null "id" request) "id"
  ok (get_state_request identifier refresh)

set_state_of : Value → Result Request
set_state_of payload = do
  request ← object_payload payload ("id" ∷ "changes" ∷ []) ("id" ∷ "changes" ∷ []) "payload"
  identifier ← device_id (field_or null "id" request) "id"
  requested ← changes (field_or null "changes" request)
  ok (set_state_request identifier requested)

list_of : Value → Result Request
list_of payload = do
  request ← object_payload payload ("domain" ∷ "refresh" ∷ "probe" ∷ []) [] "payload"
  requested ← if_there "domain" (λ v. domain v "domain") request
  refresh ← flag_of "refresh" request
  probe ← flag_of "probe" request
  require (not probe || is_some requested) (validation_error "probe requires a domain" end)
  ok (list_request requested refresh probe)

detail_of : Value → Result Request
detail_of payload = do
  request ←
      object_payload payload ("domain" ∷ "component" ∷ "refresh" ∷ "probe" ∷ []) ("domain" ∷ [])
        "payload"
  requested ← domain (field_or null "domain" request) "domain"
  component ← if_there "component" (λ v. component_id v "component") request
  refresh ← flag_of "refresh" request
  probe ← flag_of "probe" request
  ok (detail_request requested component refresh probe)

select_of : Value → Result Request
select_of payload = do
  request ←
      object_payload payload
        ("domain" ∷ "component" ∷ "expected_revision" ∷ "allow_unavailable" ∷ []) ("domain" ∷ [])
        "payload"
  requested ← domain (field_or null "domain" request) "domain"
  component ← component_or_none (get_field "component" request)
  expected ← expected_revision_of request
  allow ← flag_of "allow_unavailable" request
  require (is_some component || not allow)
      (validation_error "allow_unavailable requires a component" end)
  ok (select_request requested component expected allow)

reset_of : Value → Result Request
reset_of payload = do
  request ← object_payload payload ("domain" ∷ "expected_revision" ∷ []) ("domain" ∷ []) "payload"
  requested ← domain (field_or null "domain" request) "domain"
  expected ← expected_revision_of request
  ok (select_request requested none expected false)

watch_of : Value → Result Request
watch_of payload = do
  request ← object_payload payload ("after_revision" ∷ "timeout_ms" ∷ "domains" ∷ []) [] "payload"
  after_revision ←
      natural "after_revision" (2 ^ 63 - 1) (field_or (int (pos 0)) "after_revision" request)
  timeout_ms ← natural "timeout_ms" 25000 (field_or (int (pos 0)) "timeout_ms" request)
  domains ← requested_domains false (get_field "domains" request)
  ok (watch_request after_revision timeout_ms (or_empty domains))

-- The methods of `handle`, up to the call of the manager's own method; `repr` is Python's.
unfoldable pub request_of : (Value → String) → String → Value → Result Request
unfolding inventory_of get_state_of set_state_of list_of detail_of select_of reset_of watch_of
    flag_of if_there component_or_none natural expected_revision_of requested_domains
request_of repr method payload =
    if method == "inventory"
    then inventory_of payload
    else if method == "get_state"
    then get_state_of payload
    else if method == "set_state"
    then set_state_of payload
    else if method == "list_providers"
    then list_of payload
    else if method == "get_provider"
    then detail_of payload
    else if method == "select_provider"
    then select_of payload
    else if method == "reset_provider"
    then reset_of payload
    else if method == "watch"
    then watch_of payload
    else err (
        hal_error "HAL_UNKNOWN_METHOD" (concat ("unknown manager method " ∷ repr (str method) ∷ []))
          end)
