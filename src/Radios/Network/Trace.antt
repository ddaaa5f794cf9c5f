-- ===== src/Radios/Network/Trace.antt =====
-- The commands that the actions of `NetworkBackend` send, whatever the control channel answers: any
-- channel, with a list of the commands beside its state, the oldest first.
use msys_hal.Prelude.{
  if◌then◌else◌, Bool, true, false, String, List, [], ◌∷◌, ◌++◌, map, ◌≡◌, refl, sym, ap, ◌∙◌,
}
use mathlib.Core.List.{append_assoc, append-nil}
use msys_hal.Errors.{Exception, Result, ok, err}
use msys_hal.Action.{Action, continue, guard, ◌>>=◌, ◌>>◌}
use msys_hal.Radios.Control.{Control}
use msys_hal.Radios.Network.{Surroundings}

abbrev pub Logged : Type 0 → Type 0
Logged S = S × List (String × String)

unfoldable pub logged_request :
    {S : Type 0} → Control S → String → String → Action (Logged S) String
logged_request c interface command (s, log) =
    let (r, s') = c.request interface command s in (r, (s', log ++ (interface, command) ∷ []))

unfoldable pub logged : {S : Type 0} → Surroundings S → Surroundings (Logged S)
logged w = record {
  unicode = w.unicode;
  control = record {
    available = λ interface (s, log). w.control.available interface s;
    request = logged_request w.control;
  };
  sysfs = λ (s, log). w.sysfs s;
  root = w.root;
}

-- Commands to one interface.
abbrev pub sent : String → List String → List (String × String)
sent interface commands = map (λ c. (interface, c)) commands

-- The commands that an action sends from a state, all to one interface, and what they and its
-- outcome satisfy.
pub record Trace {ℓ} {S : Type 0} {A : Type ℓ} (interface : String) (m : Action (Logged S) A)
    (P : List String → Result A → Type 0) (s : S) (log : List (String × String)) : Type ℓ where
  pub commands : List String
  pub logs : (m (s, log)).1.1 ≡ log ++ sent interface commands
  pub holds : P commands (m (s, log)).0

pub sent-append :
    (interface : String) (cs ds : List String)
    → sent interface (cs ++ ds) ≡ sent interface cs ++ sent interface ds
sent-append interface [] ds = refl
sent-append interface (c ∷ cs) ds = ap (◌∷◌ (interface, c)) (sent-append interface cs ds)

module _ {S : Type 0} {interface : String} {s : S} {log : List (String × String)} where
  -- An action that sends nothing.
  pub quiet {ℓ} :
      {A : Type ℓ} (g : Logged S → Result A) {P : List String → Result A → Type 0}
      → P [] (g (s, log))
      → Trace interface (λ x. (g x, x)) P s log
  quiet g h = record { commands = []; logs = sym (append-nil log); holds = h }

  pub ask :
      (c : Control S) (command : String)
      → Trace interface (logged_request c interface command) (λ cs r. cs ≡ command ∷ []) s log
  unfolding logged_request
  ask c command = record { commands = command ∷ []; logs = refl; holds = refl }

  -- The same, with what the channel answers in the state.
  pub ask_for :
      (c : Control S) (command : String)
      → Trace interface
          (logged_request c interface command)
          (λ cs r. (cs ≡ command ∷ []) × ((c.request interface command s).0 ≡ r))
          s
          log
  unfolding logged_request
  ask_for c command = record { commands = command ∷ []; logs = refl; holds = (refl, refl) }

  module _ {ℓ κ} {A : Type ℓ} {B : Type κ} where
    continue-Trace :
        (P : List String → Result A → Type 0) (Q : List String → Result B → Type 0) (r : Result A)
        (x : Logged S) (f : A → Action (Logged S) B) (cs : List String)
        → x.1 ≡ log ++ sent interface cs
        → P cs r
        → ((cs : List String) (e : Exception) → P cs (err e) → Q cs (err e))
        → ((cs : List String) (a : A) (s' : S) (log' : List (String × String))
            → P cs (ok a)
            → Trace interface (f a) (λ ds r. Q (cs ++ ds) r) s' log')
        → Trace interface (λ y. continue r f x) Q s log
    continue-Trace P Q (err e) x f cs l h failed more = record {
      commands = cs;
      logs = l;
      holds = failed cs e h;
    }
    continue-Trace P Q (ok a) (s', log') f cs l h failed more =
        let rest = more cs a s' log' h in
        record {
          commands = cs ++ rest.commands;
          logs =
              rest.logs
              ∙ (ap (λ x. x ++ sent interface rest.commands) l
                  ∙ (append_assoc log (sent interface cs) (sent interface rest.commands)
                      ∙ ap (λ x. log ++ x) (sym (sent-append interface cs rest.commands))));
          holds = rest.holds;
        }

    -- A chain: its first part, what is left if that raises, and its rest.
    pub bind :
        {P : List String → Result A → Type 0} {Q : List String → Result B → Type 0}
        (m : Action (Logged S) A) (f : A → Action (Logged S) B)
        → Trace interface m P s log
        → ((cs : List String) (e : Exception) → P cs (err e) → Q cs (err e))
        → ((cs : List String) (a : A) (s' : S) (log' : List (String × String))
            → P cs (ok a)
            → Trace interface (f a) (λ ds r. Q (cs ++ ds) r) s' log')
        → Trace interface (m >>= f) Q s log
    bind {P} {Q} m f t failed more =
        let c =
          continue-Trace P Q (m (s, log)).0 (m (s, log)).1 f t.commands t.logs t.holds failed
            more in
        record { commands = c.commands; logs = c.logs; holds = c.holds }

  -- A weaker account of an action.
  pub weaken {ℓ} :
      {A : Type ℓ} {m : Action (Logged S) A} {P Q : List String → Result A → Type 0}
      → Trace interface m P s log
      → ((cs : List String) (r : Result A) → P cs r → Q cs r)
      → Trace interface m Q s log
  weaken t h = record { commands = t.commands; logs = t.logs; holds = h t.commands _ t.holds }

  pub if-Trace {ℓ} :
      {A : Type ℓ} {m n : Action (Logged S) A} {P : List String → Result A → Type 0} (b : Bool)
      → (b ≡ true → Trace interface m P s log)
      → (b ≡ false → Trace interface n P s log)
      → Trace interface (if b then m else n) P s log
  if-Trace true h k = h refl
  if-Trace false h k = k refl

  module _ {ℓ κ} {A : Type ℓ} {B : Type κ} {Q : List String → Result B → Type 0} where
    read_from :
        (r : Result A) (f : A → Action (Logged S) B)
        → ((e : Exception) → r ≡ err e → Q [] (err e))
        → ((a : A) → r ≡ ok a → Trace interface (f a) Q s log)
        → Trace interface (λ x. continue r f x) Q s log
    read_from (ok a) f failed more =
        let t = more a refl in record { commands = t.commands; logs = t.logs; holds = t.holds }
    read_from (err e) f failed more = quiet (λ x. err e) (failed e refl)

    -- A chain whose first part sends nothing.
    pub read :
        (g : Logged S → Result A) (f : A → Action (Logged S) B)
        → ((e : Exception) → g (s, log) ≡ err e → Q [] (err e))
        → ((a : A) → g (s, log) ≡ ok a → Trace interface (f a) Q s log)
        → Trace interface ((λ x. (g x, x)) >>= f) Q s log
    read g f failed more =
        let t = read_from (g (s, log)) f failed more in
        record { commands = t.commands; logs = t.logs; holds = t.holds }

  -- A test in front.
  pub gate {ℓ} :
      {B : Type ℓ} {Q : List String → Result B → Type 0} (b : Bool) (e : Exception)
      {m : Action (Logged S) B}
      → Q [] (err e)
      → (b ≡ true → Trace interface m Q s log)
      → Trace interface (guard b e >> m) Q s log
  gate true e failed more =
      let t = more refl in record { commands = t.commands; logs = t.logs; holds = t.holds }
  gate false e failed more = quiet (λ x. err e) failed
