-- ===== src/Radios/Network/Dialogue/Performed.antt =====
-- The actions of `set_state` of `NetworkBackend` in radios.py, each with its dialogue.
use msys_hal.Prelude.{
  Bool, Option, String, ◌&&◌, ◌||◌, some, List, [], ◌∷◌, filter, all, member, ◌≡◌, refl, inl, ◌==◌,
  string_eq, nat_eq, eq_iff, if◌then◌else◌, not,
}
use msys_hal.Json.{Fields, keys, null, field_or}
use msys_hal.Errors.{Exception, Result, ok, err}
use msys_hal.Action.{lift, ◌>>=◌}
use msys_hal.Radios.Credentials.{validate_ssid}
use msys_hal.Radios.Responses.{Network}
use msys_hal.Radios.Network.{Surroundings, remove_network, configured}
use msys_hal.Radios.Network.Requests.{has, is_open, security_of, matches_of}
use msys_hal.Radios.Network.Backend.{connect_among, connect, forget_among, forget, perform}
use msys_hal.Radios.Network.Trace.{logged, Trace, quiet, read, gate, bind, weaken, if-Trace}
use msys_hal.Radios.Network.Selected.{
  AreConfigured, filter-none, filter-IsOnly, matches_of-IsMeant, IsOnly-bound, IsMeant-bound,
}
use msys_hal.Radios.Network.Part.{IsPart-one, IsPart-cons, step}
use msys_hal.Radios.Network.Transaction.{
  request_ok-Trace, save_config-Trace, connect_new-Transaction,
}
use msys_hal.Radios.Network.Dialogue.{
  Dialogue, refused, selected, added, forgotten, configured-Trace, turned_down, plain_action-Trace,
  connect_known-Trace,
}

module _ {S : Type 0} (w : Surroundings S) (interface : String) where
  -- What is left of a dialogue behind the query of the configured networks.
  abbrev Rest : S → Fields → String → List String → Result (Option Bool) → Type 0
  Rest s0 changes action ds r = Dialogue w interface s0 changes action ("LIST_NETWORKS" ∷ ds) r

  turned_back :
      (s0 : S) (changes : Fields) (action : String) (e : Exception)
      → Rest s0 changes action [] (err e)
  turned_back s0 changes action e =
      refused (record { count = 1; is_part = refl; ending = inl refl }) (e, refl)

  forget_among-Trace :
      (s0 : S) (changes : Fields) (networks matches : List Network) (s : S)
      (log : List (String × String))
      → AreConfigured w interface s0 networks
      → matches_of w changes networks ≡ ok matches
      → Trace interface (forget_among (logged w) interface matches) (Rest s0 changes "forget") s log
  unfolding forget_among
  forget_among-Trace s0 changes networks [] s log known found =
      quiet (λ x. err _) (turned_back s0 changes "forget" _)
  forget_among-Trace s0 changes networks (m ∷ n ∷ rest) s log known found =
      quiet (λ x. err _) (turned_back s0 changes "forget" _)
  forget_among-Trace s0 changes networks (n ∷ []) s log known found =
      let meant = matches_of-IsMeant w changes networks n found in
      weaken
        (step _ _ (request_ok-Trace w interface (remove_network n.network_id) "forget network")
          λ a1 s1 l1. step _ _ (save_config-Trace w interface) λ a2 s2 l2.
            quiet (λ x. ok (some a2)) (record { count = 0; is_part = refl; ending = inl refl }))
        λ ds r p.
          forgotten networks n (IsMeant-bound w changes networks n known.bounded meant) refl known
            meant (IsPart-cons "LIST_NETWORKS" p)

  connect_among-Trace :
      (s0 : S) (changes : Fields) (ssid : String) (networks matches : List Network) (s : S)
      (log : List (String × String))
      → validate_ssid w.unicode (field_or null "ssid" changes) ≡ ok ssid
      → AreConfigured w interface s0 networks
      → filter (λ n. n.ssid == ssid) networks ≡ matches
      → Trace interface
          (connect_among (logged w) interface changes ssid matches)
          (Rest s0 changes "connect")
          s
          log
  unfolding connect_among
  connect_among-Trace s0 changes ssid networks [] s log named known found =
      gate (has "psk" changes || is_open changes) _ (turned_back s0 changes "connect" _) λ keyed.
        read (λ x. security_of changes) _ (λ e q. turned_back s0 changes "connect" e)
          λ security q. weaken (connect_new-Transaction w interface ssid security s log) λ ds r t.
            added networks ssid security ds refl known named
              (filter-none (λ n. n.ssid == ssid) networks found) q refl t
  connect_among-Trace s0 changes ssid networks (n ∷ []) s log named known found =
      let only = filter-IsOnly (λ n. n.ssid == ssid) networks n found in
      gate (not (has "psk" changes || has "security" changes)) _
        (turned_back s0 changes "connect" _)
        λ bare. weaken (connect_known-Trace w interface n.network_id s log) λ ds r p.
          selected networks n ssid
            (IsOnly-bound w (λ n. n.ssid == ssid) networks n known.bounded only) refl known named
            only (IsPart-cons "LIST_NETWORKS" p)
  connect_among-Trace s0 changes ssid networks (m ∷ n ∷ rest) s log named known found =
      quiet (λ x. err _) (turned_back s0 changes "connect" _)

  connect-Trace :
      (changes : Fields) (s : S) (log : List (String × String))
      → Trace interface
          (connect (logged w) interface changes)
          (Dialogue w interface s changes "connect")
          s
          log
  unfolding connect logged
  connect-Trace changes s log =
      gate
        (all (λ k. member k ("action" ∷ "ssid" ∷ "psk" ∷ "security" ∷ [])) (keys changes)
          && has "ssid" changes)
        _ (turned_down w interface s changes "connect" _)
        λ known.
          gate (not (has "psk" changes && has "security" changes)) _
            (turned_down w interface s changes "connect" _)
            λ one.
              gate (not (has "security" changes && not (is_open changes))) _
                (turned_down w interface s changes "connect" _)
                λ open_only.
                  read (λ x. validate_ssid w.unicode (field_or null "ssid" changes)) _
                    (λ e q. turned_down w interface s changes "connect" e)
                    λ ssid named.
                      bind (configured (logged w) interface) _ (configured-Trace w interface s log)
                        (λ cs e p. refused (IsPart-one "LIST_NETWORKS" cs _ p.0) (e, refl))
                        λ cs networks s1 l1 p.
                          weaken
                            (connect_among-Trace s changes ssid networks
                              (filter (λ n. n.ssid == ssid) networks) s1 l1 named
                              (p.1 networks refl) refl)
                            λ ds r d. rw p.0 d

  forget_matches-Trace :
      (s0 : S) (changes : Fields) (networks : List Network) (s : S) (log : List (String × String))
      → AreConfigured w interface s0 networks
      → Trace interface
          (lift (matches_of w changes networks) >>= forget_among (logged w) interface)
          (Rest s0 changes "forget")
          s
          log
  forget_matches-Trace s0 changes networks s log known =
      read (λ x. matches_of w changes networks) _ (λ e q. turned_back s0 changes "forget" e)
        λ matches q. forget_among-Trace s0 changes networks matches s log known q

  forget-Trace :
      (changes : Fields) (s : S) (log : List (String × String))
      → Trace interface
          (forget (logged w) interface changes)
          (Dialogue w interface s changes "forget")
          s
          log
  unfolding forget logged matches_of
  forget-Trace changes s log =
      gate (all (λ k. member k ("action" ∷ "network_id" ∷ "ssid" ∷ [])) (keys changes)) _
        (turned_down w interface s changes "forget" _)
        λ known.
          gate (if has "network_id" changes then not (has "ssid" changes) else has "ssid" changes) _
            (turned_down w interface s changes "forget" _)
            λ one.
              bind (configured (logged w) interface) _ (configured-Trace w interface s log)
                (λ cs e p. refused (IsPart-one "LIST_NETWORKS" cs _ p.0) (e, refl))
                λ cs networks s1 l1 p.
                  weaken (forget_matches-Trace s changes networks s1 l1 (p.1 networks refl))
                    λ ds r d. rw p.0 d

  -- Whatever the channel answers, the commands of an action are those of its dialogue.
  pub perform-Dialogue :
      (changes : Fields) (action : String) (s : S) (log : List (String × String))
      → Trace interface
          (perform (logged w) interface changes action)
          (Dialogue w interface s changes action)
          s
          log
  unfolding perform
  perform-Dialogue changes action s log =
      if-Trace (action == "scan" || action == "disconnect")
        (λ plain. plain_action-Trace w interface changes action s log plain)
        λ other.
          if-Trace (action == "connect")
            (λ c. rw ((eq_iff action "connect").0 c) (connect-Trace changes s log))
            λ not_connect.
              if-Trace (action == "forget")
                (λ f. rw ((eq_iff action "forget").0 f) (forget-Trace changes s log))
                λ not_forget. quiet (λ x. err _) (turned_down w interface s changes action _)
