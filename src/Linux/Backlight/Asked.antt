-- ===== src/Linux/Backlight/Asked.antt =====
-- The brightness that the changes given to `set_state` of the backlight ask for.
use msys_hal.Prelude.{
  ℕ, ◌+◌, ◌*◌, ◌≤◌, ◌<◌, ◌≡◌, refl, ap, sym, ◌∙◌, inl, inr, String, true, Bool-cases, arith, ◌==◌,
  string_eq, nat_eq, eq_iff,
}
use mathlib.Core.Path.{subst}
use native.Mathlib.Nat.{div-add-mod', mod-lt}
use msys_hal.Json.{Value, int, Fields, field, end}
use msys_hal.Json.Int.{ℤ, pos, pos_part}
use msys_hal.Errors.{Result, ok, err, >>=-eq-ok, require, require-eq-ok}
use msys_hal.Validation.Payload.{integer}
use msys_hal.Linux.{Sysfs}
use msys_hal.Linux.Numbers.{brightness_of}
use msys_hal.Linux.Attribute.{Platform, is_writable, read_level}
use msys_hal.Linux.Backlight.{
  Plan, entry_of, max_level, maximum_of, exactly, share_of, requested_of, request, has_setting,
}
use msys_hal.Linux.Backlight.Writes.{integer-natural}

-- The changes have one entry, which asks for the level `level` of a device with `maximum` levels: by
-- the level itself, or by a percentage, of which the level is the nearest share.
pub data IsAsked (maximum level : ℕ) : Fields → Type 0 where
  by_level : level ≤ maximum → IsAsked maximum level (field "brightness" (int (pos level)) end)
  by_percent :
      (percent : ℕ)
      → percent ≤ 100
      → 100 * level ≤ percent * maximum + 50
      → percent * maximum + 50 < 100 * level + 100
      → IsAsked maximum level (field "brightness_percent" (int (pos percent)) end)

module _ (p : Platform) (root : String) (maximum : ℕ) where
  exactly-ok :
      (r : Result ℤ) (n : ℕ) → exactly p root r ≡ ok n → (m : ℤ) × (r ≡ ok m) × (pos_part m ≡ n)
  unfolding exactly
  exactly-ok (ok m) n e = (m, refl, cc)
  exactly-ok (err x) n e = absurd cc

  share_of-ok :
      (r : Result ℤ) (n : ℕ)
      → share_of p root maximum r ≡ ok n
      → (m : ℤ) × (r ≡ ok m) × (brightness_of (pos_part m) maximum ≡ n)
  unfolding share_of
  share_of-ok (ok m) n e = (m, refl, cc)
  share_of-ok (err x) n e = absurd cc

  level-IsAsked :
      (v : Value) (n : ℕ)
      → exactly p root (integer v "changes.brightness" (pos 0) (pos maximum)) ≡ ok n
      → IsAsked maximum n (field "brightness" v end)
  level-IsAsked v n e =
      let (m, read, taken) = exactly-ok _ n e in
      let (k, is_int, same, bound) = integer-natural v _ maximum m read in
      let q : k ≡ n = sym (ap pos_part same) ∙ taken in
      subst (λ x. IsAsked maximum n (field "brightness" x end)) (sym is_int)
        (subst (λ l. IsAsked maximum l (field "brightness" (int (pos k)) end)) q (by_level bound))

  percent-IsAsked :
      (v : Value) (n : ℕ)
      → share_of p root maximum (integer v "changes.brightness_percent" (pos 0) (pos 100)) ≡ ok n
      → IsAsked maximum n (field "brightness_percent" v end)
  percent-IsAsked v n e =
      let (m, read, taken) = share_of-ok _ n e in
      let (k, is_int, same, bound) = integer-natural v _ 100 m read in
      let q : brightness_of k maximum ≡ n =
        ap (λ x. brightness_of (pos_part x) maximum) (sym same) ∙ taken in
      let shared = div-add-mod' (k * maximum + 50) 100 in
      let hundred : 1 ≤ 100 = omega arith in
      let small = mod-lt (k * maximum + 50) hundred in
      subst (λ x. IsAsked maximum n (field "brightness_percent" x end)) (sym is_int)
        (by_percent k bound (omega arith) (omega arith))

  requested_of-IsAsked :
      (changes : Fields) (n : ℕ)
      → has_setting p root changes ≡ true
      → requested_of p root changes maximum ≡ ok n
      → IsAsked maximum n changes
  unfolding requested_of has_setting
  requested_of-IsAsked end n h e = absurd cc
  requested_of-IsAsked (field k v (field j w rest)) n h e = absurd (ground arith)
  requested_of-IsAsked (field k v end) n h e = elim (Bool-cases (k == "brightness")) [
    | inl exact ↦
        let same = (eq_iff k "brightness").0 exact in
        subst (λ j. IsAsked maximum n (field j v end)) (sym same)
          (level-IsAsked v n
            (subst (λ j. requested_of p root (field j v end) maximum ≡ ok n) same e))
    | inr other ↦
        let same : k ≡ "brightness_percent" = (eq_iff k "brightness_percent").0 (ground arith) in
        subst (λ j. IsAsked maximum n (field j v end)) (sym same)
          (percent-IsAsked v n
            (subst (λ j. requested_of p root (field j v end) maximum ≡ ok n) same e))
  ]

-- What `request` returns asks for a level of the device.
pub request-IsAsked :
    (p : Platform) (root identifier : String) (changes : Fields) (s : Sysfs) (plan : Plan)
    → request p root identifier changes s ≡ ok plan
    → IsAsked plan.maximum plan.requested changes
unfolding request
request-IsAsked p root identifier changes s plan e =
    let (u, shaped, e1) = >>=-eq-ok (require (has_setting p root changes) _) _ e in
    let (entry, found, e2) = >>=-eq-ok (entry_of p root identifier s) _ e1 in
    let (maximum, read, e3) =
      >>=-eq-ok
        (maximum_of p root identifier (read_level p root s entry "max_brightness" 1 max_level)) _
        e2 in
    let (v, fine, e4) = >>=-eq-ok (require (is_writable p root s entry) _) _ e3 in
    let (requested, asked, e5) = >>=-eq-ok (requested_of p root changes maximum) _ e4 in
    let same : record { entry = entry; maximum = maximum; requested = requested } ≡ plan = cc in
    subst (λ q. IsAsked q.maximum q.requested changes) same
      (requested_of-IsAsked p root maximum changes requested (require-eq-ok _ _ shaped) asked)
