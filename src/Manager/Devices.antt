-- ===== src/Manager/Devices.antt =====
-- `_route`, `get_state` and `set_state` of manager.py.
pub mod Guarantee
use msys_hal.Prelude.{
  ℕ, String, Bool, true, false, Option, none, some, List, [], ◌∷◌, string_eq, concat, before,
}
use msys_hal.Prelude.Dict.{get}
use msys_hal.Json.{obj, str, field, end, Fields}
use msys_hal.Errors.{Exception, unavailable_error}
use msys_hal.Manager.State.{Candidate}
use msys_hal.Manager.Exec.{Exec, pure, raise, lift, gets, acquire, ◌>>=◌, ◌>>◌}
use msys_hal.Manager.Gateway.{invoke}
use msys_hal.Manager.Responses.{DeviceState, normalize_state}
use msys_hal.Manager.Journal.{record_event}
use msys_hal.Manager.Inventory.{inventory}

-- `identifier.split(":", 1)[0]`
abbrev pub domain_of : String → String
domain_of identifier = before b':' identifier

abbrev no_device : String → Exception
no_device identifier =
    unavailable_error "HAL device is unavailable" (field "id" (str identifier) end)

-- The route known so far; a refresh does not ask for it.
known_route : String → Bool → Exec (Option Candidate)
known_route identifier true = pure none
known_route identifier false = do acquire; gets (λ s. get identifier s.device_routes)

abbrev or_unavailable : String → Option Candidate → Exec Candidate
or_unavailable identifier none = raise (no_device identifier)
or_unavailable identifier (some route) = pure route

looked_up : String → Bool → Option Candidate → Exec Candidate
looked_up identifier refresh (some route) = pure route
looked_up identifier refresh none = do
  inventory (some (domain_of identifier ∷ [])) refresh
  acquire
  found ← gets (λ s. get identifier s.device_routes)
  or_unavailable identifier found

-- `_route`
unfoldable pub route : String → Bool → Exec Candidate
unfolding known_route looked_up
route identifier refresh = do
  known ← known_route identifier refresh
  looked_up identifier refresh known

-- The answer of `get_state` and `set_state`.
pub record StateAnswer : Type 0 where
  pub revision : ℕ
  pub provider : String
  pub state : DeviceState

-- `get_state`
unfoldable pub get_state : String → Bool → Exec StateAnswer
get_state identifier refresh = do
  provider ← route identifier refresh
  raw ←
      invoke
        (record {
          target = provider.target;
          method = "get_state";
          payload = obj (field "id" (str identifier) end);
          timeout_ms = 5000;
          idempotent = true;
        })
        (concat ("get state " ∷ identifier ∷ []))
  state ← lift (normalize_state (obj raw) identifier provider.component)
  acquire
  revision ← gets (λ s. s.revision)
  pure (record { revision = revision; provider = provider.component; state = state })

-- `set_state`
unfoldable pub set_state : String → Fields → Exec StateAnswer
set_state identifier requested_changes = do
  provider ← route identifier true
  raw ←
      invoke
        (record {
          target = provider.target;
          method = "set_state";
          payload = obj (field "id" (str identifier) (field "changes" (obj requested_changes) end));
          timeout_ms = 30000;
          idempotent = false;
        })
        (concat ("set state " ∷ identifier ∷ []))
  state ← lift (normalize_state (obj raw) identifier provider.component)
  revision ←
      record_event "state-changed" (domain_of identifier) (some identifier)
        (some provider.component) none
  pure (record { revision = revision; provider = provider.component; state = state })
