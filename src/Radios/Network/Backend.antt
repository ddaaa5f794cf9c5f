-- ===== src/Radios/Network/Backend.antt =====
-- `get_state` and `set_state` of `NetworkBackend` in radios.py.
use msys_hal.Prelude.{
  String, Bool, true, false, not, ◌&&◌, ◌||◌, Option, none, some, List, [], ◌∷◌, member, all,
  filter, concat, if◌then◌else◌, ◌==◌, string_eq, nat_eq,
}
use msys_hal.Json.{Value, null, str, Fields, field, end, keys, field_or}
use msys_hal.Errors.{ok, validation_error, provider_error}
use msys_hal.Action.{Action, pure, raise, lift, gets, gets_result, guard, ◌>>=◌, ◌>>◌}
use msys_hal.Linux.Display.{append_fields}
use msys_hal.Radios.{radio_state}
use msys_hal.Radios.Credentials.{validate_ssid}
use msys_hal.Radios.Responses.{Network, parse_status, parse_scan_results}
use msys_hal.Radios.Network.Requests.{
  Report, reported, mark, has, is_open, security_of, matches_of, entry_at, kind_of, values_at,
  admit,
}
use msys_hal.Radios.Network.{
  Surroundings, request_ok, configured, connect_new, connect_known, save_config, remove_network,
}

module _ {S : Type 0} (w : Surroundings S) where
  -- The queries of `get_state`.
  unfoldable pub read_report : String → Action S Report
  read_report name = do
    answer ← w.control.request name "STATUS"
    status ← lift (parse_status w.unicode answer)
    scanned ← w.control.request name "SCAN_RESULTS"
    scans ← lift (parse_scan_results w.unicode scanned)
    networks ← configured w name
    pure (record { status = status; scans = scans; networks = networks })

  -- A Wi-Fi interface, by whether it has a control socket.
  unfoldable pub wifi_state : String → Fields → Bool → Action S Value
  unfolding read_report
  wifi_state name values true s = let (r, s') = read_report name s in (reported name values r, s')
  wifi_state name values false s = (
    ok (
        radio_state "network" name
          (append_fields values (field "wifi_control" (str "unavailable") end)) []),
    s,
  )

  unfoldable pub state_by_kind : String → String → Fields → Action S Value
  unfolding wifi_state
  state_by_kind name kind values =
      if kind == "wifi"
      then gets_result (w.control.available name) >>= wifi_state name values
      else pure (radio_state "network" name values [])

  -- `get_state`
  unfoldable pub get_state : String → Action S Value
  unfolding entry_at state_by_kind
  get_state identifier = do
    name ← gets_result (entry_at w identifier)
    kind ← gets (kind_of w name)
    values ← gets (values_at w name)
    state_by_kind name kind values

  -- `_finish_state`
  unfoldable pub finish_state : String → Option Bool → Action S Value
  unfolding get_state
  finish_state identifier persisted = do result ← get_state identifier; pure (mark persisted result)

  -- `scan` and `disconnect`
  unfoldable pub plain_action : String → Fields → String → Action S (Option Bool)
  plain_action name changes action = do
    guard (all (λ k. k == "action") (keys changes))
        (validation_error (concat (action ∷ " does not accept additional fields" ∷ [])) end)
    request_ok w name (if action == "scan" then "SCAN" else "DISCONNECT") action
    pure none

  -- `connect`, by the configured networks of the name asked for.
  unfoldable pub connect_among : String → Fields → String → List Network → Action S (Option Bool)
  connect_among name changes ssid [] = do
    guard (has "psk" changes || is_open changes)
        (validation_error "an unconfigured secured network requires psk" end)
    security ← lift (security_of changes)
    connect_new w name ssid security
  connect_among name changes ssid (n ∷ []) = do
    guard (not (has "psk" changes || has "security" changes))
        (validation_error "credentials must be omitted for a configured network" end)
    connect_known w name n.network_id
  connect_among name changes ssid (m ∷ n ∷ rest) =
      raise (provider_error "multiple configured networks have the requested SSID" end)

  unfoldable pub connect : String → Fields → Action S (Option Bool)
  unfolding connect_among
  connect name changes = do
    guard
        (all (λ k. member k ("action" ∷ "ssid" ∷ "psk" ∷ "security" ∷ [])) (keys changes)
          && has "ssid" changes)
        (validation_error "connect accepts action, ssid, and psk or open security" end)
    guard (not (has "psk" changes && has "security" changes))
        (validation_error "connect cannot combine psk and security" end)
    guard (not (has "security" changes && not (is_open changes)))
        (validation_error "security must be open when present" end)
    ssid ← lift (validate_ssid w.unicode (field_or null "ssid" changes))
    networks ← configured w name
    connect_among name changes ssid (filter (λ n. n.ssid == ssid) networks)

  unfoldable pub forget_among : String → List Network → Action S (Option Bool)
  forget_among name (n ∷ []) = do
    request_ok w name (remove_network n.network_id) "forget network"
    persisted ← save_config w name
    pure (some persisted)
  forget_among name matches =
      raise (validation_error "configured network does not resolve uniquely" end)

  unfoldable pub forget : String → Fields → Action S (Option Bool)
  unfolding forget_among matches_of
  forget name changes = do
    guard (all (λ k. member k ("action" ∷ "network_id" ∷ "ssid" ∷ [])) (keys changes))
        (validation_error "forget accepts only action and network_id or ssid" end)
    guard (if has "network_id" changes then not (has "ssid" changes) else has "ssid" changes)
        (validation_error "forget requires exactly one of network_id or ssid" end)
    networks ← configured w name
    matches ← lift (matches_of w changes networks)
    forget_among name matches

  -- The branches of `set_state`, by the action.
  unfoldable pub perform : String → Fields → String → Action S (Option Bool)
  unfolding plain_action connect forget
  perform name changes action =
      if action == "scan" || action == "disconnect"
      then plain_action name changes action
      else if action == "connect"
      then connect name changes
      else if action == "forget"
      then forget name changes
      else raise (validation_error "network action must be scan, connect, disconnect or forget" end)

  -- `set_state`, of a dict of changes.
  unfoldable pub set_state : String → Fields → Action S Value
  unfolding admit perform finish_state
  set_state identifier changes = do
    (name, action) ← gets_result (admit w identifier changes)
    persisted ← perform name changes action
    finish_state identifier persisted
