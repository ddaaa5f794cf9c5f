-- ===== src/Linux/Backlight/Verified.antt =====
-- What an answer of `set_state` of the backlight says.
use msys_hal.Prelude.{
  ℕ, ◌≡◌, refl, sym, ap, inl, inr, String, true, Option, none, some, [], Bool-cases, member,
  nat_beq_iff,
}
use mathlib.Core.Path.{subst}
use msys_hal.Json.{Value, Fields}
use msys_hal.Errors.{Result, ok, err, Result-cases}
use msys_hal.Linux.{Sysfs, name_from_id, entries}
use msys_hal.Linux.Attribute.{Platform, read_level, safe_write}
use msys_hal.Linux.Backlight.{
  Plan, entry_of, max_level, request, is_level, carry_out, confirm, set_state, get_state,
}
use msys_hal.Linux.Backlight.Asked.{IsAsked, request-IsAsked}
use msys_hal.Linux.Backlight.Writes.{request-IsPlan, confirm-keeps}
use msys_hal.Linux.Backlight.Readings.{
  IsReading, get_state-IsReading, read_level-widen, read_level-le,
}

is_level-some :
    (p : Platform) (root : String) (n : ℕ) (o : Option ℕ) → is_level p root n o ≡ true → o ≡ some n
unfolding is_level
is_level-some p root n none e = absurd cc
is_level-some p root n (some m) e = ap some ((nat_beq_iff m n).0 e)

entry_of-name :
    (p : Platform) (root identifier entry : String) (s : Sysfs)
    → entry_of p root identifier s ≡ ok entry
    → name_from_id p.repr identifier "backlight" ≡ ok entry
unfolding entry_of
entry_of-name p root identifier entry s e =
    elim (Result-cases (name_from_id p.repr identifier "backlight")) [
      | inr (x, bad) ↦
          absurd (let l : entry_of p root identifier s ≡ err x = rw (bad, entry_of) refl in cc)
      | inl (name, fine) ↦ elim (Bool-cases (member name (entries s root []))) [
        | inl known ↦
            (let l : entry_of p root identifier s ≡ ok name = rw (fine, known, entry_of) refl in cc)
        | inr other ↦ absurd (let l = rw (fine, other, entry_of) at e in cc)
      ]
    ]

confirm-ok :
    (p : Platform) (root identifier : String) (plan : Plan) (r : Result (Unit {0})) (s : Sysfs)
    (v : Value)
    → (confirm p root identifier plan r s).0 ≡ ok v
    → (r ≡ ok tt)
      × (read_level p root s plan.entry "brightness" 0 plan.maximum ≡ some plan.requested)
      × (get_state p root identifier s ≡ ok v)
unfolding confirm
confirm-ok p root identifier plan (err e) s v h = absurd cc
confirm-ok p root identifier plan (ok u) s v h =
    let seen = read_level p root s plan.entry "brightness" 0 plan.maximum in
    elim (Bool-cases (is_level p root plan.requested seen)) [
      | inl equal ↦ (refl, is_level-some p root plan.requested seen equal, rw (equal, confirm) at h)
      | inr other ↦ absurd (let l = rw (other, confirm) at h in cc)
    ]

-- The answer of a `set_state` that has done what it was asked for: the device's maximum is the one
-- that sysfs gave in front of the write.
pub record IsDone (p : Platform) (root identifier : String) (changes : Fields) (s s' : Sysfs)
    (v : Value) : Type 0 where
  pub reading : IsReading p root identifier s' v
  pub maximum : ℕ
  pub level : ℕ
  pub read : read_level p root s reading.entry "max_brightness" 1 max_level ≡ some maximum
  pub asked : IsAsked maximum level changes
  pub as_asked : reading.brightness ≡ level

finished :
    (p : Platform) (root identifier : String) (changes : Fields) (s : Sysfs) (plan : Plan)
    (v : Value)
    → request p root identifier changes s ≡ ok plan
    → (carry_out p root identifier (ok plan) s).0 ≡ ok v
    → IsDone p root identifier changes s (carry_out p root identifier (ok plan) s).1 v
unfolding carry_out confirm
finished p root identifier changes s plan v asked e =
    let s' = (safe_write p root plan.entry plan.requested s).1 in
    let planned = request-IsPlan p root identifier changes s plan asked in
    let (fine, seen, read) =
      confirm-ok p root identifier plan (safe_write p root plan.entry plan.requested s).0 s' v e in
    let reading = get_state-IsReading p root identifier s' v read in
    let first = entry_of-name p root identifier plan.entry s planned.found in
    let second = entry_of-name p root identifier reading.entry s' reading.found in
    let same : reading.entry ≡ plan.entry = cc in
    let wide =
      read_level-widen p root s' plan.entry "brightness" plan.maximum max_level plan.requested
        (read_level-le p root s plan.entry "max_brightness" 1 max_level plan.maximum planned.read)
        seen in
    let there =
      subst (λ n. read_level p root s' n "brightness" 0 max_level ≡ some plan.requested) (sym same)
        wide in
    let bright = reading.bright in
    rw (confirm-keeps p root identifier plan (safe_write p root plan.entry plan.requested s).0 s')
      record {
        reading = reading;
        maximum = plan.maximum;
        level = plan.requested;
        read =
            subst (λ n. read_level p root s n "max_brightness" 1 max_level ≡ some plan.maximum)
              (sym same) planned.read;
        asked = request-IsAsked p root identifier changes s plan asked;
        as_asked = cc;
      }

-- An answer is verified. If `set_state` of the backlight returns, then the changes have one entry,
-- which asks for a level of the device, directly, within its maximum, or by a percentage, of which it
-- is the nearest share; the state that is returned is a reading of sysfs behind the write, of the
-- entry whose maximum was read in front of it; and its brightness is that level.
pub set_state-IsDone :
    (p : Platform) (root identifier : String) (changes : Fields) (s : Sysfs) (v : Value)
    → (set_state p root identifier changes s).0 ≡ ok v
    → IsDone p root identifier changes s (set_state p root identifier changes s).1 v
unfolding set_state carry_out
set_state-IsDone p root identifier changes s v e =
    elim (Result-cases (request p root identifier changes s)) [
      | inr (x, refused) ↦ absurd (
          let l : (set_state p root identifier changes s).0 ≡ err x =
            rw (refused, set_state, carry_out) refl in
          cc)
      | inl (plan, asked) ↦
          rw (asked, set_state, carry_out)
            (finished p root identifier changes s plan v asked
              (rw (asked, set_state, carry_out) at e))
    ]
