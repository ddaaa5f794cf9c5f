-- ===== src/Radios/Network/Transaction.antt =====
-- The configuration of a new network by `connect` in radios.py: the commands between `ADD_NETWORK`
-- and `SAVE_CONFIG`.
use msys_hal.Prelude.{
  ℕ, String, Bool, List, [], ◌∷◌, ◌++◌, take, ◌≤◌, ◌≡◌, refl, sym, ap, ◌∙◌, inl, inr, Option, some,
  ◌&&◌, leb, leb→le, &&-split,
}
use mathlib.Core.Path.{subst}
use msys_hal.Errors.{Result, ok, err, require, require-eq-ok}
use msys_hal.Radios.Lines.{is_number}
use msys_hal.Radios.Responses.{number}
use msys_hal.Radios.Network.{
  Surroundings, Security, no_key, key, set_ssid, set_open, set_psk, enable_network, select_network,
  remove_network, request_ok, set_security, configure, undo, configure_or_undo, add_network,
  save_config, connect_new,
}
use mathlib.Core.List.{append_assoc}
use msys_hal.Radios.Network.Trace.{
  sent, sent-append, Logged, logged, logged_request, Trace, quiet, ask, read, bind, weaken,
}
use msys_hal.Radios.Network.Part.{IsError, IsPart, IsPart-one, Asks, step}

abbrev pub set_security_command : ℕ → Security → String
set_security_command n no_key = set_open n
set_security_command n (key psk) = set_psk n psk

-- The commands that configure the network `n`.
abbrev pub steps_of : ℕ → String → Security → List String
steps_of n ssid security =
    set_ssid n ssid ∷ set_security_command n security ∷ enable_network n ∷ select_network n ∷ []

-- The commands `cs` of a `connect` to a new network that ends in `r`.
pub data Transaction (ssid : String) (security : Security) (cs : List String)
    (r : Result (Option Bool)) : Type 0 where
  -- `ADD_NETWORK` alone is sent: no number that is accepted comes back.
  refused : cs ≡ "ADD_NETWORK" ∷ [] → IsError r → Transaction ssid security cs r
  -- The network `n` is added, some of its steps are taken, then it is removed.
  undone :
      (n count : ℕ)
      → n ≤ 4095
      → cs ≡ "ADD_NETWORK" ∷ (take count (steps_of n ssid security) ++ remove_network n ∷ [])
      → IsError r
      → Transaction ssid security cs r
  -- The network `n` is added, all its steps are taken, and the configuration is saved.
  done :
      (n : ℕ)
      → n ≤ 4095
      → cs ≡ "ADD_NETWORK" ∷ (steps_of n ssid security ++ "SAVE_CONFIG" ∷ [])
      → Transaction ssid security cs r

module _ {S : Type 0} (w : Surroundings S) (interface : String) {s : S}
    {log : List (String × String)} where
  pub request_ok-Trace :
      (command operation : String)
      → Trace interface (request_ok (logged w) interface command operation) (Asks command) s log
  unfolding request_ok logged
  request_ok-Trace command operation =
      bind (logged_request w.control interface command) _ (ask w.control command) (λ cs e h. h)
        λ cs answer s' log' h. quiet (λ x. require _ _) (rw h refl)

  pub save_config-Trace :
      Trace interface (save_config (logged w) interface) (Asks "SAVE_CONFIG") s log
  unfolding save_config logged
  save_config-Trace =
      bind (logged_request w.control interface "SAVE_CONFIG") _ (ask w.control "SAVE_CONFIG")
        (λ cs e h. h) λ cs answer s' log' h. quiet (λ x. ok _) (rw h refl)

  set_security-Trace :
      (n : ℕ) (security : Security)
      → Trace interface
          (set_security (logged w) interface n security)
          (Asks (set_security_command n security))
          s
          log
  set_security-Trace n no_key = request_ok-Trace (set_open n) "set open security"
  set_security-Trace n (key psk) = request_ok-Trace (set_psk n psk) "set credentials"

module _ {S : Type 0} (w : Surroundings S) (interface : String) where
  pub select-Trace :
      (n : ℕ) {s : S} {log : List (String × String)}
      → Trace interface
          (request_ok (logged w) interface (select_network n) "select network")
          (IsPart (select_network n ∷ []))
          s
          log
  select-Trace n =
      weaken (request_ok-Trace w interface (select_network n) "select network")
        λ cs r h. IsPart-one (select_network n) cs r h

  configure-Trace :
      (n : ℕ) (ssid : String) (security : Security) (s : S) (log : List (String × String))
      → Trace interface
          (configure (logged w) interface n ssid security)
          (IsPart (steps_of n ssid security))
          s
          log
  unfolding configure
  configure-Trace n ssid security s log =
      step _ _ (request_ok-Trace w interface (set_ssid n ssid) "set SSID") λ a1 s1 l1.
        step _ _ (set_security-Trace w interface n security) λ a2 s2 l2.
          step _ _ (request_ok-Trace w interface (enable_network n) "enable network")
            λ a3 s3 l3. select-Trace n

  -- The commands of the `try` with its `except`.
  AllOrRemoved : ℕ → List String → List String → Result (Unit {0}) → Type 0
  AllOrRemoved n steps cs (ok u) = cs ≡ steps
  AllOrRemoved n steps cs (err e) = (count : ℕ) × (cs ≡ take count steps ++ remove_network n ∷ [])

  undo-Trace :
      (n : ℕ) (ssid : String) (security : Security) (r : Result (Unit {0})) (x : Logged S) (s : S)
      (log : List (String × String)) (cs : List String)
      → x.1 ≡ log ++ sent interface cs
      → IsPart (steps_of n ssid security) cs r
      → Trace interface
          (λ y. undo (logged w) interface n r x)
          (AllOrRemoved n (steps_of n ssid security))
          s
          log
  unfolding undo logged logged_request AllOrRemoved
  undo-Trace n ssid security (ok u) x s log cs l p =
      let whole : cs ≡ steps_of n ssid security = elim p.ending [
        | inl all ↦ p.is_part ∙ ap (λ k. take k (steps_of n ssid security)) all
        | inr (e, q) ↦ absurd cc
      ] in
      record { commands = cs; logs = l; holds = whole }
  undo-Trace n ssid security (err e) (s', log') s log cs l p = record {
    commands = cs ++ remove_network n ∷ [];
    logs =
        ap (λ x. x ++ (interface, remove_network n) ∷ []) l
        ∙ (append_assoc log (sent interface cs) ((interface, remove_network n) ∷ [])
            ∙ ap (λ x. log ++ x) (sym (sent-append interface cs (remove_network n ∷ []))));
    holds = (p.count, ap (λ x. x ++ remove_network n ∷ []) p.is_part);
  }

  configure_or_undo-Trace :
      (n : ℕ) (ssid : String) (security : Security) (s : S) (log : List (String × String))
      → Trace interface
          (configure_or_undo (logged w) interface n ssid security)
          (AllOrRemoved n (steps_of n ssid security))
          s
          log
  unfolding configure_or_undo
  configure_or_undo-Trace n ssid security s log =
      let t = configure-Trace n ssid security s log in
      let c =
        undo-Trace n ssid security (configure (logged w) interface n ssid security (s, log)).0
          (configure (logged w) interface n ssid security (s, log)).1 s log t.commands t.logs
          t.holds in
      record { commands = c.commands; logs = c.logs; holds = c.holds }

  add_network-Trace :
      (s : S) (log : List (String × String))
      → Trace interface
          (add_network (logged w) interface)
          (λ cs r. (cs ≡ "ADD_NETWORK" ∷ []) × ((n : ℕ) → r ≡ ok n → n ≤ 4095))
          s
          log
  unfolding add_network logged
  add_network-Trace s log =
      bind (logged_request w.control interface "ADD_NETWORK") _ (ask w.control "ADD_NETWORK")
        (λ cs e h. (h, λ n q. absurd cc))
        λ cs added s' log' h.
          read (λ x. require (is_number 4 added && leb (number added) 4095) _) _
            (λ e q. (rw h refl, λ n q2. absurd cc))
            λ u q.
              let small =
                leb→le (number added) 4095
                  (&&-split (is_number 4 added) (leb (number added) 4095)
                    (require-eq-ok (is_number 4 added && leb (number added) 4095) _ q)).1 in
              quiet (λ x. ok (number added))
                (rw h refl, λ n q2. let l : number added ≡ n = cc in subst (λ k. k ≤ 4095) l small)

  -- However the channel answers, `connect` to a new network sends the commands of a transaction: `ADD_NETWORK` alone; or
  -- the steps of the network that is added are all sent and then `SAVE_CONFIG`; or some first steps
  -- are sent and then its removal. Without all steps an exception is raised.
  pub connect_new-Transaction :
      (ssid : String) (security : Security) (s : S) (log : List (String × String))
      → Trace interface
          (connect_new (logged w) interface ssid security)
          (Transaction ssid security)
          s
          log
  unfolding connect_new AllOrRemoved
  connect_new-Transaction ssid security s log =
      bind (add_network (logged w) interface) _ (add_network-Trace s log)
        (λ cs e p. refused p.0 (e, refl))
        λ cs n s1 l1 p.
          bind (configure_or_undo (logged w) interface n ssid security) _
            (configure_or_undo-Trace n ssid security s1 l1)
            (λ ds e q. undone n q.0 (p.1 n refl) (rw (p.0, q.1) refl) (e, refl))
            λ ds u s2 l2 q.
              bind (save_config (logged w) interface) _ (save_config-Trace w interface)
                (λ es e h. done n (p.1 n refl) (rw (p.0, q, h) refl))
                λ es saved s3 l3 h.
                  quiet (λ x. ok (some saved)) (done n (p.1 n refl) (rw (p.0, q, h) refl))
