-- ===== src/Radios/Network/Rollback.antt =====
-- What `connect` of radios.py does with a network that it has added, by the answers to its commands.
use msys_hal.Prelude.{
  ℕ, ◌≤◌, ◌≡◌, refl, sym, ap, ◌∙◌, ◌⊎◌, inl, inr, String, Bool, true, Option, some, List, [], ◌∷◌,
  ◌++◌, ◌&&◌, leb, leb→le, le→leb, &&-split, Bool-cases, arith, ◌==◌, string_eq, eq_iff,
}
use mathlib.Core.Path.{subst}
use mathlib.Core.List.{append_assoc}
use msys_hal.Json.{end}
use msys_hal.Errors.{Exception, Result, ok, err, Result-cases, provider_error}
use msys_hal.Action.{Action, continue, pure, ◌>>=◌}
use msys_hal.Radios.Lines.{is_number}
use msys_hal.Radios.Responses.{number}
use msys_hal.Radios.Network.{
  Surroundings, Security, no_key, key, remove_network, set_ssid, set_open, set_psk, enable_network,
  select_network, request_ok, set_security, configure, undo, configure_or_undo, add_network,
  save_config, connect_new,
}
use msys_hal.Radios.Network.Transaction.{steps_of, set_security_command}

module _ {S : Type 0} (w : Surroundings S) (interface : String) where
  -- The answer to a command in a state, and the state behind it.
  abbrev pub answer_to : String → S → Result String
  answer_to command s = (w.control.request interface command s).0

  abbrev pub behind : String → S → S
  behind command s = (w.control.request interface command s).1

  -- The commands are sent one after the other, and each is answered with OK.
  pub data AreTaken : List String → S → S → Type 0 where
    none_left : {s : S} → AreTaken [] s s
    taken :
        {c : String} {cs : List String} {s t : S}
        → answer_to c s ≡ ok "OK"
        → AreTaken cs (behind c s) t
        → AreTaken (c ∷ cs) s t

  -- The commands are taken, or an exception is raised at the first one that is not.
  data IsRun (cs : List String) (s : S) : Result (Unit {0}) × S → Type 0 where
    finished : (t : S) → AreTaken cs s t → IsRun cs s (ok tt, t)
    failed :
        (before : List String) (c : String) (after : List String) (t : S) (e : Exception)
        → cs ≡ before ++ c ∷ after
        → AreTaken before s t
        → ¬ (answer_to c t ≡ ok "OK")
        → ((x : Exception) → answer_to c t ≡ err x → e ≡ x)
        → IsRun cs s (err e, behind c t)

  -- A network that has been added: its number, at most 4095, is the answer.
  pub record IsAdded (s : S) (n : ℕ) : Type 0 where
    pub answer : String
    pub answered : answer_to "ADD_NETWORK" s ≡ ok answer
    pub is_decimal : is_number 4 answer ≡ true
    pub is_answer : number answer ≡ n
    pub bound : n ≤ 4095

  -- How `connect` to a new network ends, with what result and in which state.
  pub data IsRollback (ssid : String) (security : Security) (s : S)
      : Result (Option Bool) × S → Type 0 where
    -- The answer to `ADD_NETWORK` is no number of a network, or does not arrive: nothing else is sent.
    not_added :
        (e : Exception)
        → ((n : ℕ) → ¬ IsAdded s n)
        → IsRollback ssid security s (err e, behind "ADD_NETWORK" s)
    -- A step is not taken: the network is removed, no later step is sent.
    rolled_back :
        (n : ℕ) (before : List String) (c : String) (after : List String) (t : S) (e : Exception)
        → IsAdded s n
        → steps_of n ssid security ≡ before ++ c ∷ after
        → AreTaken before (behind "ADD_NETWORK" s) t
        → ¬ (answer_to c t ≡ ok "OK")
        → ((x : Exception) → answer_to c t ≡ err x → e ≡ x)
        → IsRollback ssid security s (err e, behind (remove_network n) (behind c t))
    -- All steps are taken, and the configuration is saved; the result says whether it was.
    saved :
        (n : ℕ) (t : S) (answer : String)
        → IsAdded s n
        → AreTaken (steps_of n ssid security) (behind "ADD_NETWORK" s) t
        → answer_to "SAVE_CONFIG" t ≡ ok answer
        → IsRollback ssid security s (ok (some (answer == "OK")), behind "SAVE_CONFIG" t)
    -- All steps are taken, but the saving raises.
    not_saved :
        (n : ℕ) (t : S) (e : Exception)
        → IsAdded s n
        → AreTaken (steps_of n ssid security) (behind "ADD_NETWORK" s) t
        → answer_to "SAVE_CONFIG" t ≡ err e
        → IsRollback ssid security s (err e, behind "SAVE_CONFIG" t)

  cons-IsRun :
      (c : String) (cs : List String) (s : S) (x : Result (Unit {0}) × S)
      → answer_to c s ≡ ok "OK"
      → IsRun cs (behind c s) x
      → IsRun (c ∷ cs) s x
  cons-IsRun c cs s _ q (finished t all) = finished t (taken q all)
  cons-IsRun c cs s _ q (failed before d after t e split all refused same) =
      failed (c ∷ before) d after t e (ap (◌∷◌ c) split) (taken q all) refused same

  continue-IsRun :
      (c : String) (cs : List String) (s : S) (x : Result (Unit {0}) × S) (n : Action S (Unit {0}))
      → IsRun (c ∷ []) s x
      → ((t : S) → IsRun cs t (n t))
      → IsRun (c ∷ cs) s (continue x.0 (λ u. n) x.1)
  continue-IsRun c cs s _ n (finished t (taken q none_left)) more =
      cons-IsRun c cs s (n (behind c s)) q (more (behind c s))
  continue-IsRun c cs s _ n (failed before d after t e split all refused same) more =
      failed before d (after ++ cs) t e
        (ap (λ x. x ++ cs) split ∙ append_assoc before (d ∷ after) cs) all refused same

  request_ok-IsRun :
      (c operation : String) (s : S) → IsRun (c ∷ []) s (request_ok w interface c operation s)
  unfolding request_ok
  request_ok-IsRun c operation s = elim (Result-cases (answer_to c s)) [
    | inr (e, raised) ↦ rw raised (
        failed [] c [] s e refl none_left (λ fine. absurd (let l = sym raised ∙ fine in cc))
          (λ x q. let l : err e ≡ err x = sym raised ∙ q in cc))
    | inl (answer, given) ↦ elim (Bool-cases (answer == "OK")) [
      | inl fine ↦
          let q = (eq_iff answer "OK").0 fine in
          rw (given, fine) (finished (behind c s) (taken (given ∙ ap ok q) none_left))
      | inr other ↦
          rw (given, other)
            (failed [] c [] s _ refl none_left
              (λ fine.
                let same : answer ≡ "OK" = (let l : ok answer ≡ ok "OK" = sym given ∙ fine in cc) in
                let hit = (eq_iff answer "OK").1 same in absurd cc)
              (λ x q. absurd (let l : ok answer ≡ err x = sym given ∙ q in cc)))
    ]
  ]

  set_security-IsRun :
      (n : ℕ) (security : Security) (s : S)
      → IsRun (set_security_command n security ∷ []) s (set_security w interface n security s)
  set_security-IsRun n no_key s = request_ok-IsRun (set_open n) "set open security" s
  set_security-IsRun n (key psk) s = request_ok-IsRun (set_psk n psk) "set credentials" s

  configure-IsRun :
      (n : ℕ) (ssid : String) (security : Security) (s : S)
      → IsRun (steps_of n ssid security) s (configure w interface n ssid security s)
  unfolding configure
  configure-IsRun n ssid security s =
      continue-IsRun _ _ s _ _ (request_ok-IsRun (set_ssid n ssid) "set SSID" s) λ s1.
        continue-IsRun _ _ s1 _ _ (set_security-IsRun n security s1) λ s2.
          continue-IsRun _ _ s2 _ _ (request_ok-IsRun (enable_network n) "enable network" s2)
            λ s3. request_ok-IsRun (select_network n) "select network" s3

  add_network-cases :
      (s : S)
      → ((n : ℕ) × (add_network w interface s ≡ (ok n, behind "ADD_NETWORK" s)) × IsAdded s n)
        ⊎ ((e : Exception) × (add_network w interface s ≡ (err e, behind "ADD_NETWORK" s))
            × ((n : ℕ) → ¬ IsAdded s n))
  unfolding add_network
  add_network-cases s = elim (Result-cases (answer_to "ADD_NETWORK" s)) [
    | inr (e, raised) ↦ inr (
      e,
      rw (raised, add_network) refl,
      λ n added. absurd (let l = sym raised ∙ added.answered in cc),
    )
    | inl (answer, given) ↦ elim (Bool-cases (is_number 4 answer && leb (number answer) 4095)) [
      | inl fine ↦
          let (decimal, small) = &&-split (is_number 4 answer) (leb (number answer) 4095) fine in
          inl (
            number answer,
            rw (given, fine, add_network) refl,
            record {
              answer = answer;
              answered = given;
              is_decimal = decimal;
              is_answer = refl;
              bound = leb→le (number answer) 4095 small;
            },
          )
      | inr bad ↦ inr (
        provider_error "wpa_supplicant could not allocate a network" end,
        rw (given, bad, add_network) refl,
        λ n added.
            let same : added.answer ≡ answer =
              (let l : ok added.answer ≡ ok answer = sym added.answered ∙ given in cc) in
            let decimal = subst (λ a. is_number 4 a ≡ true) same added.is_decimal in
            let q : number answer ≡ n = ap number (sym same) ∙ added.is_answer in
            let small : number answer ≤ 4095 = subst (λ k. k ≤ 4095) (sym q) added.bound in
            let fits = le→leb (number answer) 4095 small in absurd (ground arith),
      )
    ]
  ]

  module _ (ssid : String) (security : Security) (s : S) (n : ℕ) (added : IsAdded s n) where
    save_config-IsRollback :
        (t : S)
        → AreTaken (steps_of n ssid security) (behind "ADD_NETWORK" s) t
        → IsRollback ssid security s
            ((save_config w interface >>= λ persisted. pure (some persisted)) t)
    unfolding save_config
    save_config-IsRollback t all = elim (Result-cases (answer_to "SAVE_CONFIG" t)) [
      | inr (e, raised) ↦ rw raised (not_saved n t e added all raised)
      | inl (answer, given) ↦ rw given (saved n t answer added all given)
    ]

    undo-IsRollback :
        (x : Result (Unit {0}) × S)
        → IsRun (steps_of n ssid security) (behind "ADD_NETWORK" s) x
        → let y = undo w interface n x.0 x.1 in
          IsRollback ssid security s
            (continue y.0 (λ u. save_config w interface >>= λ persisted. pure (some persisted)) y.1)
    unfolding undo
    undo-IsRollback _ (finished t all) = save_config-IsRollback t all
    undo-IsRollback _ (failed before c after t e split all refused same) =
        rolled_back n before c after t e added split all refused same

  -- `connect` to a new network is rolled back. If the answer to `ADD_NETWORK` is a decimal number n of
  -- at most 4 digits, and at most 4095, then the steps of network n (ssid, security, enable, select)
  -- are sent one after the other, in the states that the answers before leave. If all are answered
  -- with OK, then `SAVE_CONFIG` is sent and the result says whether it was answered with OK, or is
  -- what its request raised. At the first step with another answer or an exception, the removal of n
  -- is sent, no later step is, and an exception is raised, the one of the step if it raised one. If the answer to `ADD_NETWORK` is no such
  -- number, or does not arrive, then nothing else is sent, not even a removal, and an exception is
  -- raised.
  pub connect_new-IsRollback :
      (ssid : String) (security : Security) (s : S)
      → IsRollback ssid security s (connect_new w interface ssid security s)
  unfolding connect_new configure_or_undo
  connect_new-IsRollback ssid security s = elim (add_network-cases s) [
    | inr (e, stopped, refused) ↦ rw stopped (not_added e refused)
    | inl (n, went_on, added) ↦ rw went_on (
        undo-IsRollback ssid security s n added
          (configure w interface n ssid security (behind "ADD_NETWORK" s))
          (configure-IsRun n ssid security (behind "ADD_NETWORK" s)))
  ]
