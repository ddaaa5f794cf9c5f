-- ===== src/Radios/Network/Conversation.antt =====
-- All commands of a `set_state` of `NetworkBackend` in radios.py: those of the action, then those of
-- the state that is returned.
use msys_hal.Prelude.{
  String, Bool, true, Option, List, [], ◌++◌, ◌≡◌, refl, ap, sym, ◌∙◌, ◌⊎◌, inl, inr, ◌==◌,
  string_eq, eq_iff, member,
}
use mathlib.Core.Path.{subst}
use mathlib.Core.List.{append-nil}
use msys_hal.Json.{Value, Fields}
use msys_hal.Errors.{Exception, Result, ok, err, require, >>=-eq-ok, require-eq-ok, Result-cases}
use msys_hal.Action.{Action, continue, ◌>>=◌}
use msys_hal.Radios.{device_name_of, class_entries}
use msys_hal.Radios.Network.{Surroundings}
use msys_hal.Radios.Network.Requests.{action_of, admit, entry_at, kind_of}
use msys_hal.Radios.Network.Backend.{finish_state, perform, set_state}
use msys_hal.Radios.Network.Trace.{Logged, logged, Trace, read, bind, weaken}
use msys_hal.Radios.Network.Dialogue.{Dialogue}
use msys_hal.Radios.Network.Dialogue.Performed.{perform-Dialogue}
use msys_hal.Radios.Network.Queries.{queries, IsPrefix, entry_at-name, finish_state-Trace}

-- What `set_state` has made sure of before it sends a command to the interface `name`.
pub record IsAdmitted {S : Type 0} (w : Surroundings S) (identifier : String) (changes : Fields)
    (s : S) (name action : String) : Type 0 where
  pub names_device : device_name_of identifier "network" ≡ ok name
  pub is_listed : member name (class_entries (w.sysfs s) w.root 64) ≡ true
  pub is_wifi : kind_of w name s ≡ "wifi"
  pub is_controlled : w.control.available name s ≡ ok true
  pub is_action : action_of changes ≡ ok action

-- The commands of `set_state`.
pub record Conversation {S : Type 0} (w : Surroundings S) (name : String) (s : S) (changes : Fields)
    (action : String) (cs : List String) (r : Result Value) : Type 0 where
  pub ended : Result (Option Bool)
  pub commands : List String
  pub asked : List String
  pub dialogue : Dialogue w name s changes action commands ended
  pub queried : IsPrefix queries asked r
  pub all_of : cs ≡ commands ++ asked

module _ {S : Type 0} (w : Surroundings S) where
  admit-IsAdmitted :
      (identifier : String) (changes : Fields) (s : S) (name action : String)
      → admit w identifier changes s ≡ ok (name, action)
      → IsAdmitted w identifier changes s name action
  unfolding admit
  admit-IsAdmitted identifier changes s name action h =
      let (found, q1, h1) = >>=-eq-ok (entry_at w identifier s) _ h in
      let (u, q2, h2) = >>=-eq-ok (require (kind_of w found s == "wifi") _) _ h1 in
      let (ready, q3, h3) = >>=-eq-ok (w.control.available found s) _ h2 in
      let (v, q4, h4) = >>=-eq-ok (require ready _) _ h3 in
      let (asked, q5, h5) = >>=-eq-ok (action_of changes) _ h4 in
      let before : String × String = (found, asked) in
      let behind : String × String = (name, action) in
      let l : before ≡ behind = (let k : ok before ≡ ok behind = h5 in cc) in
      let (named, listed) = entry_at-name w identifier s found q1 in
      let both : IsAdmitted w identifier changes s found asked = record {
        names_device = named;
        is_listed = listed;
        is_wifi = (eq_iff (kind_of w found s) "wifi").0 (require-eq-ok _ _ q2);
        is_controlled = q3 ∙ ap ok (require-eq-ok ready _ q4);
        is_action = q5;
      } in
      subst (λ p. IsAdmitted w identifier changes s p.0 p.1) l both

  -- `set_state` behind its checks.
  abbrev carry_out : String → Fields → String × String → Action (Logged S) Value
  carry_out identifier changes p = perform (logged w) p.0 changes p.1 >>= λ persisted.
      finish_state (logged w) identifier persisted

  perform-Conversation :
      (identifier : String) (changes : Fields) (s : S) (log : List (String × String))
      (name action : String)
      → device_name_of identifier "network" ≡ ok name
      → Trace name
          (carry_out identifier changes (name, action))
          (Conversation w name s changes action)
          s
          log
  perform-Conversation identifier changes s log name action named =
      bind (perform (logged w) name changes action) _ (perform-Dialogue w name changes action s log)
        (λ cs e d. record {
          ended = err e;
          commands = cs;
          asked = [];
          dialogue = d;
          queried = (0, refl);
          all_of = sym (append-nil cs);
        })
        λ cs persisted s1 l1 d.
          weaken (finish_state-Trace w identifier name persisted s1 l1 named) λ es r p. record {
            ended = ok persisted;
            commands = cs;
            asked = es;
            dialogue = d;
            queried = p;
            all_of = refl;
          }

  stopped :
      {A B : Type 0} (r : Result A) {e : Exception}
      → r ≡ err e
      → (f : A → Action (Logged S) B) (x : Logged S) → continue r f x ≡ (err e, x)
  stopped r q f x = rw q refl

  -- A `set_state` that turns the device or the changes down sends nothing. Any other sends, to the
  -- Wi-Fi interface that the id names alone, the commands of one dialogue and then queries of the
  -- state, whatever the control channel answers.
  pub set_state-Conversation :
      (identifier : String) (changes : Fields) (s : S) (log : List (String × String))
      → ((e : Exception) × (set_state (logged w) identifier changes (s, log) ≡ (err e, (s, log))))
        ⊎ ((name : String) × (action : String) × IsAdmitted w identifier changes s name action
            × Trace name
                (set_state (logged w) identifier changes)
                (Conversation w name s changes action)
                s
                log)
  unfolding set_state logged admit
  set_state-Conversation identifier changes s log =
      elim (Result-cases (admit w identifier changes s)) [
        | inr (e, q) ↦
            inl
              (e, stopped (admit w identifier changes s) q (carry_out identifier changes) (s, log))
        | inl (p, q) ↦
            let known = admit-IsAdmitted identifier changes s p.0 p.1 q in
            let t = perform-Conversation identifier changes s log p.0 p.1 known.names_device in
            inr (
              p.0,
              p.1,
              known,
              read (λ x. admit w identifier changes x.0) (carry_out identifier changes)
                  (λ e q2. absurd cc)
                  λ p2 q2.
                    let l : p ≡ p2 = (let k : ok p ≡ ok p2 = sym q ∙ q2 in cc) in
                    subst
                      (λ y.
                        Trace p.0 (carry_out identifier changes y)
                          (Conversation w p.0 s changes p.1) s log)
                      l t,
            )
      ]
