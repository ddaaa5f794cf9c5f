-- ===== src/Radios/Bluetooth/Switch/Verified.antt =====
-- What `set_state` of `BluetoothBackend` in radios.py writes, and what it has done when it returns.
use msys_hal.Prelude.{
  String, Bool, true, false, not, ◌&&◌, Option, some, none, ◌≡◌, refl, sym, ap, ◌⊎◌, inl, inr,
  string_eq, if◌then◌else◌, Bool-cases, arith,
}
use mathlib.Core.Path.{subst}
use msys_hal.Json.{Value, str, Fields, field, get_field}
use msys_hal.Json.Int.{ℤ, pos}
use msys_hal.Errors.{
  Result, ok, err, require, >>=-eq-ok, require-eq-ok, Result-cases, unavailable_error,
}
use msys_hal.Linux.{Sysfs}
use msys_hal.Radios.{with_value}
use msys_hal.Radios.Interfaces.{is_int, flag_value}
use msys_hal.Radios.Bluetooth.{
  Platform, Resolved, radio_of, resolve, default_writable, is_switchable, not_flag, power_unknown,
  pairing, radio_values, soft_of, get_state,
}
use msys_hal.Radios.Bluetooth.Switch.{
  powered_of, is_flag, soft_line, Plan, writable_radio, plan_of, confirm, carry_out, set_state,
  id_details,
}

-- What `set_state` has made sure of before it writes the plan.
pub record IsPlanned (p : Platform) (identifier : String) (changes : Fields) (s : Sysfs)
    (plan : Plan) : Type 0 where
  pub found : Resolved
  pub resolved : resolve p identifier s ≡ ok found
  pub is_radio : radio_of found ≡ some plan.entry
  pub can_write : default_writable p plan.entry s ≡ true
  pub is_requested : powered_of changes ≡ ok plan.requested
  pub may_power :
      plan.requested ≡ true
      → is_flag true (get_field "hard_blocked" (radio_values p plan.entry s)) ≡ false

-- The state behind the one write of a plan.
abbrev pub written_by : Platform → Plan → Sysfs → Sysfs
written_by p plan s = (p.write p.rfkill_root plan.entry "soft" (soft_line plan.requested) s).1

module _ (p : Platform) where
  writable_radio-some :
      (r : Option String) (s : Sysfs) (entry : String)
      → writable_radio p r s ≡ ok entry
      → (r ≡ some entry) × (default_writable p entry s ≡ true)
  unfolding writable_radio is_switchable
  writable_radio-some none s entry h = absurd cc
  writable_radio-some (some found) s entry h = elim (Bool-cases (default_writable p found s)) [
    | inl there ↦
        let l : ok found ≡ ok entry = rw (there, if◌then◌else◌) at h in
        let same : found ≡ entry = cc in
        (ap some same, subst (λ e. default_writable p e s ≡ true) same there)
    | inr missing ↦ absurd (let l = rw (missing, if◌then◌else◌) at h in cc)
  ]

  plan_of-IsPlanned :
      (identifier : String) (changes : Fields) (s : Sysfs) (plan : Plan)
      → plan_of p identifier changes s ≡ ok plan
      → IsPlanned p identifier changes s plan
  unfolding plan_of
  plan_of-IsPlanned identifier changes s plan h =
      let (found, q1, h1) = >>=-eq-ok (resolve p identifier s) _ h in
      let (requested, q2, h2) = >>=-eq-ok (powered_of changes) _ h1 in
      let (entry, q3, h3) = >>=-eq-ok (writable_radio p (radio_of found) s) _ h2 in
      let hard = is_flag true (get_field "hard_blocked" (radio_values p entry s)) in
      let (u, q4, h4) =
        >>=-eq-ok
          (require (not (requested && hard))
            (unavailable_error "Bluetooth radio is hard blocked" (id_details identifier)))
          _ h3 in
      let (is_radio, can_write) = writable_radio-some (radio_of found) s entry q3 in
      let made : Plan = record { entry = entry; requested = requested } in
      let same : made ≡ plan = cc in
      let free = require-eq-ok (not (requested && hard)) _ q4 in
      subst (IsPlanned p identifier changes s) same (record {
        found = found;
        resolved = q1;
        is_radio = is_radio;
        can_write = can_write;
        is_requested = q2;
        may_power = λ on. not_both requested hard free on;
      })
    where
      not_both : (a b : Bool) → not (a && b) ≡ true → a ≡ true → b ≡ false
      not_both a b h k = ground arith

  -- `set_state` leaves sysfs alone, or does one write: to the soft block of the radio that the id
  -- resolves to, writable, of what the changes ask for, and never to power a radio that is blocked by
  -- hardware.
  pub set_state-IsSwitch :
      (identifier : String) (changes : Fields) (s : Sysfs)
      → ((set_state p identifier changes s).1 ≡ s)
        ⊎ ((plan : Plan) × IsPlanned p identifier changes s plan
            × ((set_state p identifier changes s).1 ≡ written_by p plan s))
  unfolding set_state carry_out
  set_state-IsSwitch identifier changes s = elim (Result-cases (plan_of p identifier changes s)) [
    | inr (e, q) ↦ inl (rw (q, carry_out) refl)
    | inl (plan, q) ↦
        inr (plan, plan_of-IsPlanned identifier changes s plan q, rw (q, carry_out) refl)
  ]

get-unblocked :
    (name_part : Option Value) (soft : Option ℤ) (hard_part : Option Value)
    → get_field "rfkill_unblocked" (
        field "kind" (str "radio") (
          pairing (
            with_value "radio_name" name_part (
              with_value "rfkill_soft_blocked" (flag_value soft) (
                with_value "rfkill_unblocked"
                  (not_flag soft)
                  (with_value "hard_blocked" hard_part power_unknown))))))
      ≡ not_flag soft
get-unblocked none none none = refl
get-unblocked none none (some h) = refl
get-unblocked none (some n) hard_part = refl
get-unblocked (some v) none none = refl
get-unblocked (some v) none (some h) = refl
get-unblocked (some v) (some n) hard_part = refl

flag-soft :
    (b : Bool) (soft : Option ℤ)
    → is_flag b (not_flag soft) ≡ true
    → (n : ℤ) × (soft ≡ some n) × (is_int (pos 0) (some n) ≡ b)
flag-soft b none h = absurd cc
flag-soft true (some n) h = (n, refl, h)
flag-soft false (some n) h = (n, refl, not_true (is_int (pos 0) (some n)) h)
  where
    not_true : (c : Bool) → not c ≡ true → c ≡ false
    not_true c k = ground arith

-- What a `set_state` that returns has done.
pub record IsSwitched (p : Platform) (identifier : String) (changes : Fields) (s s' : Sysfs)
    (answer : Value) : Type 0 where
  pub plan : Plan
  pub planned : IsPlanned p identifier changes s plan
  pub written : s' ≡ written_by p plan s
  pub soft : ℤ
  pub read_back : soft_of p plan.entry s' ≡ some soft
  pub as_asked : is_int (pos 0) (some soft) ≡ plan.requested
  pub answered : get_state p identifier s' ≡ ok answer

module _ (p : Platform) where
  confirm-eq-ok :
      (identifier : String) (plan : Plan) (outcome : Result (Unit {0})) (s : Sysfs) (answer : Value)
      → confirm p identifier plan outcome s ≡ ok answer
      → (is_flag plan.requested (get_field "rfkill_unblocked" (radio_values p plan.entry s)) ≡ true)
        × (get_state p identifier s ≡ ok answer)
  unfolding confirm
  confirm-eq-ok identifier plan (err e) s answer h = absurd cc
  confirm-eq-ok identifier plan (ok u) s answer h =
      elim (Bool-cases
        (is_flag plan.requested (get_field "rfkill_unblocked" (radio_values p plan.entry s)))) [
          | inl seen ↦ (seen, rw (seen, if◌then◌else◌) at h)
          | inr other ↦ absurd (let l = rw (other, if◌then◌else◌) at h in cc)
        ]

  radio_values-soft :
      (entry : String) (s : Sysfs) (b : Bool)
      → is_flag b (get_field "rfkill_unblocked" (radio_values p entry s)) ≡ true
      → (n : ℤ) × (soft_of p entry s ≡ some n) × (is_int (pos 0) (some n) ≡ b)
  unfolding radio_values
  radio_values-soft entry s b h =
      flag-soft b (soft_of p entry s)
        (subst (λ v. is_flag b v ≡ true) (get-unblocked _ (soft_of p entry s) _) h)

  -- A `set_state` that returns has written, and the soft block that sysfs then has is read back as
  -- what the changes ask for; what it returns is the state behind the write.
  pub set_state-IsSwitched :
      (identifier : String) (changes : Fields) (s s' : Sysfs) (answer : Value)
      → set_state p identifier changes s ≡ (ok answer, s')
      → IsSwitched p identifier changes s s' answer
  unfolding set_state carry_out
  set_state-IsSwitched identifier changes s s' answer h =
      elim (Result-cases (plan_of p identifier changes s)) [
        | inr (e, q) ↦ absurd (
            let l : carry_out p identifier (err e) s ≡ (ok answer, s') = rw q at h in
            let k = ap (λ x. x.0) l in cc)
        | inl (plan, q) ↦
            let l : carry_out p identifier (ok plan) s ≡ (ok answer, s') = rw q at h in
            let there : written_by p plan s ≡ s' = ap (λ x. x.1) l in
            let (seen, answered) =
              confirm-eq-ok identifier plan _ (written_by p plan s) answer (ap (λ x. x.0) l) in
            let (n, read_back, as_asked) =
              radio_values-soft plan.entry (written_by p plan s) plan.requested seen in
            record {
              plan = plan;
              planned = plan_of-IsPlanned p identifier changes s plan q;
              written = sym there;
              soft = n;
              read_back = subst (λ x. soft_of p plan.entry x ≡ some n) there read_back;
              as_asked = as_asked;
              answered = subst (λ x. get_state p identifier x ≡ ok answer) there answered;
            }
      ]
