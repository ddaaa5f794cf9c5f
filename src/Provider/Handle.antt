-- ===== src/Provider/Handle.antt =====
-- `ProviderService.handle` and `_backend_for` of provider.py.
pub mod Routing
use msys_hal.Prelude.{
  ℕ, ◌+◌, String, not, Option, none, some, List, [], ◌∷◌, ◌++◌, map, filter, member, is_empty,
  concat, decimal, join, before, sort_texts, unique, ◌==◌, string_eq, if◌then◌else◌,
}
use msys_hal.Json.{
  Value, str, arr, obj, Fields, field, end, from_items, items, texts, get_field, field_or, null,
}
use msys_hal.Prelude.Dict.{get}
use msys_hal.Errors.{hal_error, Result, ok, err, validation_error}
use msys_hal.Action.{Action, pure, raise, lift, ◌>>=◌, ◌>>◌}
use msys_hal.Validation.Payload.{object_payload, string_list, domain, device_id, changes}
use msys_hal.Manager.Responses.{provider_interface}
use msys_hal.Provider.{Backend, Service}
use msys_hal.Provider.Construct.{domains_of}

-- `domain(item, f"domains[{index}]")` of each item.
read_domains : ℕ → List String → Result (List String)
read_domains index [] = ok []
read_domains index (item ∷ rest) =
    elim (domain (str item) (concat ("domains[" ∷ decimal index ∷ "]" ∷ []))) [
      | err e ↦ err e
      | ok d ↦ elim (read_domains (index + 1) rest) [ err e ↦ err e | ok ds ↦ ok (d ∷ ds) ]
    ]

-- `{key: value ... if key != "devices"}`
without_devices : Fields → Fields
without_devices end = end
without_devices (field k v rest) =
    let kept = without_devices rest in if k == "devices" then kept else field k v kept

-- `inventory.get("devices", [])`; a backend gives a list.
devices_of : Fields → List Value
devices_of inventory = elim (get_field "devices" inventory) [ some (arr vs) ↦ items vs | _ ↦ [] ]

append_all : List (List Value) → List Value
append_all [] = []
append_all (vs ∷ rest) = vs ++ append_all rest

module _ {S : Type 0} (repr : String → String) (service : Service S) where
  -- `_backend_for`
  unfoldable pub backend_for : String → Result (Backend S)
  backend_for identifier = elim (get (before b':' identifier) service.backends) [
    | none ↦ err (
        validation_error
          (concat ("provider does not implement domain " ∷ repr (before b':' identifier) ∷ [])) end)
    | some backend ↦ ok backend
  ]

  -- The domains that a request for the inventory asks for.
  selected_of : Option Value → Result (List String)
  unfolding read_domains
  selected_of none = ok (sort_texts (domains_of service.backends))
  selected_of (some v) = elim (string_list v "domains" 32 64) [
    | err e ↦ err e
    | ok listed ↦ elim (read_domains 0 listed) [
      | err e ↦ err e
      | ok requested ↦
          let unknown = filter (λ d. not (member d (domains_of service.backends))) requested in
          if is_empty unknown
          then ok requested
          else err (
              validation_error
                (concat (
                  "provider does not implement domains: "
                  ∷ join ", " (sort_texts (unique unknown))
                  ∷ []))
                end)
    ]
  ]

  -- `[self.backends[item].inventory() for item in selected]`
  inventories_of : List String → Action S (List Fields)
  inventories_of [] = pure []
  inventories_of (d ∷ rest) = elim (get d service.backends) [
    | none ↦ raise (msys_hal.Errors.python "KeyError" (repr d))
    | some backend ↦ do
      inventory ← backend.inventory
      others ← inventories_of rest
      pure (inventory ∷ others)
  ]

  state_answer : Value → Value
  state_answer state = obj (
      field "schema" (str provider_interface)
        (field "provider" (str service.provider_id) (field "state" state end)))

  -- What `describe` returns.
  unfoldable pub description : Value
  description = obj (
      field "schema" (str provider_interface) (
        field "provider"
          (obj (
            field "id" (str service.provider_id)
              (field "name" (str service.name) (field "version" (str service.version) end))))
          (field "domains" (arr (texts (sort_texts (domains_of service.backends))))
            (field "capabilities" (arr (texts service.capabilities)) end))))

  -- What `inventory` returns.
  unfoldable pub inventory_answer : List Fields → Value
  unfolding without_devices devices_of append_all
  inventory_answer inventories = obj (
      field "schema" (str provider_interface) (
        field "provider" (str service.provider_id) (
          field "domains" (arr (from_items (map (λ fs. obj (without_devices fs)) inventories)))
            (field "devices" (arr (from_items (append_all (map devices_of inventories)))) end))))

  describe : Fields → Action S Value
  describe payload = do lift (object_payload (obj payload) [] [] "payload"); pure description

  inventory : Fields → Action S Value
  unfolding selected_of inventories_of
  inventory payload = do
    request ← lift (object_payload (obj payload) ("domains" ∷ []) [] "payload")
    selected ← lift (selected_of (get_field "domains" request))
    inventories ← inventories_of selected
    pure (inventory_answer inventories)

  get_state : Fields → Action S Value
  unfolding state_answer
  get_state payload = do
    request ← lift (object_payload (obj payload) ("id" ∷ []) ("id" ∷ []) "payload")
    identifier ← lift (device_id (field_or null "id" request) "id")
    backend ← lift (backend_for identifier)
    state ← backend.get_state identifier
    pure (state_answer state)

  set_state : Fields → Action S Value
  unfolding state_answer
  set_state payload = do
    request ←
        lift
          (object_payload (obj payload) ("id" ∷ "changes" ∷ []) ("id" ∷ "changes" ∷ []) "payload")
    identifier ← lift (device_id (field_or null "id" request) "id")
    requested_changes ← lift (changes (field_or null "changes" request))
    backend ← lift (backend_for identifier)
    state ← backend.set_state identifier requested_changes
    pure (state_answer state)

  -- `handle`
  unfoldable pub handle : String → Fields → Action S Value
  unfolding describe inventory get_state set_state
  handle method payload =
      if method == "describe"
      then describe payload
      else if method == "inventory"
      then inventory payload
      else if method == "get_state"
      then get_state payload
      else if method == "set_state"
      then set_state payload
      else raise (
          hal_error "HAL_UNKNOWN_METHOD" (concat ("unknown provider method " ∷ repr method ∷ []))
            end)
