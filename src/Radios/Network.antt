-- ===== src/Radios/Network.antt =====
-- `NetworkBackend` of radios.py, over any control channel.
pub mod Trace
pub mod Part
pub mod Requests
pub mod Backend
pub mod Transaction
pub mod Selected
pub mod Rollback
pub mod Dialogue
pub mod Queries
pub mod Conversation
pub mod Commands
pub mod Degraded
use msys_hal.Prelude.{
  ℕ, String, Bool, true, not, ◌&&◌, Option, some, List, [], ◌∷◌, leb, concat, decimal,
  if◌then◌else◌, ◌==◌, string_eq, nat_eq,
}
use msys_hal.Json.{end}
use msys_hal.Errors.{Result, ok, err, provider_error}
use msys_hal.Action.{Action, pure, lift, guard, ◌>>=◌, ◌>>◌}
use msys_hal.Linux.{Sysfs}
use msys_hal.Radios.{Unicode}
use msys_hal.Radios.Lines.{utf8, hex, is_number}
use msys_hal.Radios.Credentials.{psk_argument}
use msys_hal.Radios.Responses.{Network, number, parse_networks}
use msys_hal.Radios.Control.{Control}

-- The platform of the backend: Unicode, the control channel, what sysfs says in a state, and the
-- class directory.
pub record Surroundings (S : Type 0) : Type 0 where
  pub unicode : Unicode
  pub control : Control S
  pub sysfs : S → Sysfs
  pub root : String

module _ {S : Type 0} (w : Surroundings S) where
  -- `_request_ok`
  unfoldable pub request_ok : String → String → String → Action S (Unit {0})
  request_ok interface command operation = do
    answer ← w.control.request interface command
    guard (answer == "OK")
        (provider_error (concat ("wpa_supplicant " ∷ operation ∷ " failed" ∷ [])) end)

  -- `_configured`
  unfoldable pub configured : String → Action S (List Network)
  configured interface = do
    answer ← w.control.request interface "LIST_NETWORKS"
    lift (parse_networks w.unicode answer)

abbrev network_command : String → ℕ → String → String
network_command verb n rest = concat (verb ∷ decimal n ∷ rest ∷ [])

abbrev pub set_ssid : ℕ → String → String
set_ssid n ssid = network_command "SET_NETWORK " n (concat (" ssid " ∷ hex (utf8 ssid) ∷ []))

abbrev pub set_open : ℕ → String
set_open n = network_command "SET_NETWORK " n " key_mgmt NONE"

abbrev pub set_psk : ℕ → String → String
set_psk n psk = network_command "SET_NETWORK " n (concat (" psk " ∷ psk_argument psk ∷ []))

abbrev pub enable_network : ℕ → String
enable_network n = network_command "ENABLE_NETWORK " n ""

abbrev pub select_network : ℕ → String
select_network n = network_command "SELECT_NETWORK " n ""

abbrev pub remove_network : ℕ → String
remove_network n = network_command "REMOVE_NETWORK " n ""

-- How a network is secured: not at all, or by a key.
pub data Security : Type 0 where
  no_key : Security
  key : String → Security

module _ {S : Type 0} (w : Surroundings S) where
  abbrev pub set_security : String → ℕ → Security → Action S (Unit {0})
  set_security interface n no_key = request_ok w interface (set_open n) "set open security"
  set_security interface n (key psk) = request_ok w interface (set_psk n psk) "set credentials"

  -- The body of the `try` in which a new network is configured.
  unfoldable pub configure : String → ℕ → String → Security → Action S (Unit {0})
  configure interface n ssid security = do
    request_ok w interface (set_ssid n ssid) "set SSID"
    set_security interface n security
    request_ok w interface (enable_network n) "enable network"
    request_ok w interface (select_network n) "select network"

  -- `except Exception`: the network is removed, and what was raised is raised again.
  unfoldable pub undo : String → ℕ → Result (Unit {0}) → Action S (Unit {0})
  undo interface n (ok done) s = (ok done, s)
  undo interface n (err raised) s =
      (err raised, (w.control.request interface (remove_network n) s).1)

  -- The `try` with its `except`.
  unfoldable pub configure_or_undo : String → ℕ → String → Security → Action S (Unit {0})
  unfolding configure undo
  configure_or_undo interface n ssid security s =
      let (r, s') = configure interface n ssid security s in undo interface n r s'

  -- `self.control.request(interface, "SAVE_CONFIG") == "OK"`
  unfoldable pub save_config : String → Action S Bool
  save_config interface = do
    answer ← w.control.request interface "SAVE_CONFIG"
    pure (answer == "OK")

  -- `ADD_NETWORK` and the number that it answers with.
  unfoldable pub add_network : String → Action S ℕ
  add_network interface = do
    added ← w.control.request interface "ADD_NETWORK"
    guard (is_number 4 added && leb (number added) 4095)
        (provider_error "wpa_supplicant could not allocate a network" end)
    pure (number added)

  -- `connect` to a network that is not configured; the flag that it is saved.
  unfoldable pub connect_new : String → String → Security → Action S (Option Bool)
  unfolding add_network configure_or_undo save_config
  connect_new interface ssid security = do
    n ← add_network interface
    configure_or_undo interface n ssid security
    persisted ← save_config interface
    pure (some persisted)

  -- `connect` to a network that is configured.
  unfoldable pub connect_known : String → ℕ → Action S (Option Bool)
  connect_known interface n = do
    request_ok w interface (enable_network n) "enable network"
    request_ok w interface (select_network n) "select network"
    pure (some true)
