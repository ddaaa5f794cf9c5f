-- ===== src/Radios/Network/Dialogue.antt =====
-- The commands that `set_state` of `NetworkBackend` in radios.py sends, from the first to the last.
pub mod Performed
use msys_hal.Prelude.{
  ℕ, String, Bool, true, false, ◌||◌, Option, some, none, List, [], ◌∷◌, ◌++◌, filter, all, All,
  ◌≤◌, ◌≡◌, refl, inl, inr, ◌==◌, string_eq, nat_eq, eq_iff, if◌then◌else◌, Bool-cases,
}
use msys_hal.Json.{Fields, keys, null, field_or}
use msys_hal.Errors.{Exception, Result, ok, err}
use msys_hal.Action.{◌>>=◌}
use msys_hal.Radios.Credentials.{validate_ssid}
use msys_hal.Radios.Responses.{Network, parse_networks}
use msys_hal.Radios.Responses.Bounds.{parse_networks-IsNetwork}
use msys_hal.Radios.Network.{
  Surroundings, Security, enable_network, select_network, remove_network, request_ok, configured,
  connect_known,
}
use msys_hal.Radios.Network.Requests.{security_of}
use msys_hal.Radios.Network.Backend.{plain_action, connect, forget}
use msys_hal.Radios.Network.Trace.{logged, logged_request, Trace, quiet, ask_for, gate, bind}
use msys_hal.Radios.Network.Selected.{AreConfigured, IsOnly, IsMeant}
use msys_hal.Radios.Network.Part.{IsError, IsPart, step}
use msys_hal.Radios.Network.Transaction.{Transaction, request_ok-Trace}

-- `_configured`: one query, and what the channel has answered.
abbrev pub Lists :
    {S : Type 0} → Surroundings S → String → S → List String → Result (List Network) → Type 0
Lists w interface s cs r =
    (cs ≡ "LIST_NETWORKS" ∷ [])
    × ((networks : List Network) → r ≡ ok networks → AreConfigured w interface s networks)

-- The commands `cs` that carry out an action of the changes from the state `s`, which ends in `r`.
pub data Dialogue {S : Type 0} (w : Surroundings S) (interface : String) (s : S) (changes : Fields)
    (action : String) (cs : List String) (r : Result (Option Bool)) : Type 0 where
  -- Nothing is asked for but the configured networks.
  refused :
      IsPart ("LIST_NETWORKS" ∷ []) cs r → IsError r → Dialogue w interface s changes action cs r
  scanned : action ≡ "scan" → cs ≡ "SCAN" ∷ [] → Dialogue w interface s changes action cs r
  disconnected :
      action ≡ "disconnect" → cs ≡ "DISCONNECT" ∷ [] → Dialogue w interface s changes action cs r
  -- The one configured network of the name is enabled and selected.
  selected :
      (networks : List Network) (n : Network) (ssid : String)
      → n.network_id ≤ 4095
      → action ≡ "connect"
      → AreConfigured w interface s networks
      → validate_ssid w.unicode (field_or null "ssid" changes) ≡ ok ssid
      → IsOnly (λ m. m.ssid == ssid) networks n
      → IsPart
          ("LIST_NETWORKS" ∷ enable_network n.network_id ∷ select_network n.network_id ∷ [])
          cs
          r
      → Dialogue w interface s changes action cs r
  -- No configured network has the name; one is added, with the name and the credentials of the changes.
  added :
      (networks : List Network) (ssid : String) (security : Security) (ds : List String)
      → action ≡ "connect"
      → AreConfigured w interface s networks
      → validate_ssid w.unicode (field_or null "ssid" changes) ≡ ok ssid
      → All (λ m. (m.ssid == ssid) ≡ false) networks
      → security_of changes ≡ ok security
      → cs ≡ "LIST_NETWORKS" ∷ ds
      → Transaction ssid security ds r
      → Dialogue w interface s changes action cs r
  -- The one configured network that the changes name is removed, and the configuration is saved.
  forgotten :
      (networks : List Network) (n : Network)
      → n.network_id ≤ 4095
      → action ≡ "forget"
      → AreConfigured w interface s networks
      → IsMeant w changes networks n
      → IsPart ("LIST_NETWORKS" ∷ remove_network n.network_id ∷ "SAVE_CONFIG" ∷ []) cs r
      → Dialogue w interface s changes action cs r

module _ {S : Type 0} (w : Surroundings S) (interface : String) where
  pub configured-Trace :
      (s : S) (log : List (String × String))
      → Trace interface (configured (logged w) interface) (Lists w interface s) s log
  unfolding configured logged
  configured-Trace s log =
      bind (logged_request w.control interface "LIST_NETWORKS") _
        (ask_for w.control "LIST_NETWORKS") (λ cs e h. (h.0, λ ns q. absurd cc))
        λ cs answer s' log' h.
          quiet (λ x. parse_networks w.unicode answer)
            (
              rw h.0 refl,
              λ ns q. record {
                answer = answer;
                answered = h.1;
                parsed = q;
                bounded = (parse_networks-IsNetwork w.unicode answer ns q).1;
              },
            )

  -- A test that raises in front of every command.
  turned_down :
      (s : S) (changes : Fields) (action : String) (e : Exception)
      → Dialogue w interface s changes action [] (err e)
  turned_down s changes action e =
      refused (record { count = 0; is_part = refl; ending = inr (e, refl) }) (e, refl)

  plain_action-Trace :
      (changes : Fields) (action : String) (s : S) (log : List (String × String))
      → (action == "scan" || action == "disconnect") ≡ true
      → Trace interface
          (plain_action (logged w) interface changes action)
          (Dialogue w interface s changes action)
          s
          log
  unfolding plain_action
  plain_action-Trace changes action s log known =
      gate (all (λ k. k == "action") (keys changes)) _ (turned_down s changes action _) λ only.
        bind
          (request_ok (logged w) interface (if action == "scan" then "SCAN" else "DISCONNECT")
            action)
          _ (request_ok-Trace w interface _ action) (λ cs e h. asked cs _ h)
          λ cs u s1 l1 h. quiet (λ x. ok none) (asked (cs ++ []) _ (rw h refl))
    where
      asked :
          (cs : List String) (r : Result (Option Bool))
          → cs ≡ (if action == "scan" then "SCAN" else "DISCONNECT") ∷ []
          → Dialogue w interface s changes action cs r
      asked cs r h = elim (Bool-cases (action == "scan")) [
        | inl scan ↦ scanned ((eq_iff action "scan").0 scan) (rw (scan, if◌then◌else◌) at h)
        | inr other ↦
            disconnected ((eq_iff action "disconnect").0 (rw other at known))
              (rw (other, if◌then◌else◌) at h)
      ]

  connect_known-Trace :
      (n : ℕ) (s : S) (log : List (String × String))
      → Trace interface
          (connect_known (logged w) interface n)
          (IsPart (enable_network n ∷ select_network n ∷ []))
          s
          log
  unfolding connect_known
  connect_known-Trace n s log =
      step _ _ (request_ok-Trace w interface (enable_network n) "enable network") λ a1 s1 l1.
        step _ _ (request_ok-Trace w interface (select_network n) "select network") λ a2 s2 l2.
          quiet (λ x. ok (some true)) (record { count = 0; is_part = refl; ending = inl refl })
