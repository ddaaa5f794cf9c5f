-- ===== src/Linux/Backlight/Writes.antt =====
-- What `set_state` of the backlight writes.
use msys_hal.Prelude.{
  ℕ, ◌≤◌, ◌≡◌, refl, ap, sym, ◌∙◌, ◌⊎◌, inl, inr, String, true, ◌&&◌, Option, none, some, List,
  Bool-cases, arith, &&-split, member,
}
use mathlib.Core.Path.{subst}
use msys_hal.Json.{Value, int, Fields, keys}
use msys_hal.Json.Int.{ℤ, pos, negsuc, leb_ℤ, pos_part}
use msys_hal.Errors.{Result, ok, err, Result-cases, >>=-eq-ok, require, require-eq-ok}
use msys_hal.Validation.Payload.{integer}
use msys_hal.Linux.{Sysfs}
use msys_hal.Linux.Attribute.Cases.{safe_write-cases}
use msys_hal.Linux.Numbers.{brightness_of, brightness_of-le}
use msys_hal.Linux.Attribute.{Platform, line_of, is_writable, is_allowed, read_level, safe_write}
use msys_hal.Linux.Backlight.{
  Plan, entry_of, max_level, maximum_of, exactly, share_of, requested_of, request, has_setting,
  carry_out, confirm, set_state,
}

in_range :
    (n : ℤ) (high : ℕ)
    → leb_ℤ (pos 0) n ≡ true
    → leb_ℤ n (pos high) ≡ true
    → (k : ℕ) × (n ≡ pos k) × (k ≤ high)
in_range (pos n) high low top = (n, refl, ground arith)
in_range (negsuc n) high low top = absurd (ground arith)

-- A natural number that `integer` accepts is the argument itself.
pub integer-natural :
    (v : Value) (label : String) (high : ℕ) (n : ℤ)
    → integer v label (pos 0) (pos high) ≡ ok n
    → (k : ℕ) × (v ≡ int (pos k)) × (n ≡ pos k) × (k ≤ high)
unfolding integer
integer-natural (int n) label high m e =
    let (u, fits, same) = >>=-eq-ok (require (leb_ℤ (pos 0) n && leb_ℤ n (pos high)) _) _ e in
    let (low, top) = &&-split (leb_ℤ (pos 0) n) (leb_ℤ n (pos high)) (require-eq-ok _ _ fits) in
    let held : n ≡ m = cc in
    let (k, q, bound) = in_range n high low top in (k, ap int q, sym held ∙ q, bound)
integer-natural _ label high n e = absurd cc

integer-le :
    (v : Value) (label : String) (high : ℕ) (n : ℤ)
    → integer v label (pos 0) (pos high) ≡ ok n
    → pos_part n ≤ high
integer-le v label high n e =
    let (k, _, q, bound) = integer-natural v label high n e in
    subst (λ m. pos_part m ≤ high) (sym q) bound

exactly-le :
    (p : Platform) (root : String) (r : Result ℤ) (high n : ℕ)
    → ((m : ℤ) → r ≡ ok m → pos_part m ≤ high)
    → exactly p root r ≡ ok n
    → n ≤ high
unfolding exactly
exactly-le p root (err e) high n h same = absurd cc
exactly-le p root (ok m) high n h same =
    let taken : pos_part m ≡ n = cc in let bound = h m refl in omega arith

share_of-le :
    (p : Platform) (root : String) (r : Result ℤ) (high n : ℕ)
    → ((m : ℤ) → r ≡ ok m → pos_part m ≤ 100)
    → share_of p root high r ≡ ok n
    → n ≤ high
unfolding share_of
share_of-le p root (err e) high n h same = absurd cc
share_of-le p root (ok m) high n h same =
    let taken : brightness_of (pos_part m) high ≡ n = cc in
    let bound = brightness_of-le (pos_part m) high (h m refl) in subst (λ k. k ≤ high) taken bound

requested_of-le :
    (p : Platform) (root : String) (changes : Fields) (maximum n : ℕ)
    → requested_of p root changes maximum ≡ ok n
    → n ≤ maximum
unfolding requested_of
requested_of-le p root changes maximum n e =
    elim (Bool-cases (member "brightness" (keys changes))) [
      | inl exact ↦
          exactly-le p root _ maximum n (λ m got. integer-le _ _ maximum m got)
            (rw (exact, requested_of) at e)
      | inr percent ↦
          share_of-le p root _ maximum n (λ m got. integer-le _ _ 100 m got)
            (rw (percent, requested_of) at e)
    ]

-- What a plan says of sysfs.
pub record IsPlan (p : Platform) (root identifier : String) (s : Sysfs) (plan : Plan) : Type 0 where
  pub found : entry_of p root identifier s ≡ ok plan.entry
  pub read : read_level p root s plan.entry "max_brightness" 1 max_level ≡ some plan.maximum
  pub writable : is_writable p root s plan.entry ≡ true
  pub level : plan.requested ≤ plan.maximum

maximum_of-some :
    (p : Platform) (root identifier : String) (o : Option ℕ) (n : ℕ)
    → maximum_of p root identifier o ≡ ok n
    → o ≡ some n
unfolding maximum_of
maximum_of-some p root identifier none n e = absurd cc
maximum_of-some p root identifier (some m) n e = cc

pub request-IsPlan :
    (p : Platform) (root identifier : String) (changes : Fields) (s : Sysfs) (plan : Plan)
    → request p root identifier changes s ≡ ok plan
    → IsPlan p root identifier s plan
unfolding request
request-IsPlan p root identifier changes s plan e =
    let (u, shaped, e1) = >>=-eq-ok (require (has_setting p root changes) _) _ e in
    let (entry, found, e2) = >>=-eq-ok (entry_of p root identifier s) _ e1 in
    let (maximum, read, e3) =
      >>=-eq-ok
        (maximum_of p root identifier (read_level p root s entry "max_brightness" 1 max_level)) _
        e2 in
    let (v, fine, e4) = >>=-eq-ok (require (is_writable p root s entry) _) _ e3 in
    let (requested, asked, e5) = >>=-eq-ok (requested_of p root changes maximum) _ e4 in
    let same : record { entry = entry; maximum = maximum; requested = requested } ≡ plan = cc in
    subst (IsPlan p root identifier s) same record {
      found = found;
      read = maximum_of-some p root identifier _ maximum read;
      writable = require-eq-ok _ _ fine;
      level = requested_of-le p root changes maximum requested asked;
    }

pub confirm-keeps :
    (p : Platform) (root identifier : String) (plan : Plan) (r : Result (Unit {0})) (s : Sysfs)
    → (confirm p root identifier plan r s).1 ≡ s
unfolding confirm
confirm-keeps p root identifier plan (err e) s = refl
confirm-keeps p root identifier plan (ok u) s = refl

-- The write of a level, within the maximum, to the brightness of an entry that may be written.
pub record IsWrite (p : Platform) (root identifier : String) (s s' : Sysfs) : Type 0 where
  pub plan : Plan
  pub planned : IsPlan p root identifier s plan
  pub path : List String
  pub root_path : List String
  pub resolved : s.target root plan.entry "brightness" ≡ some path
  pub resolved_root : s.root_target root ≡ some root_path
  pub allowed : is_allowed p root root_path path ≡ true
  pub written : s' ≡ (p.write path (line_of plan.requested) s).1

-- Sysfs is written carefully: `set_state` of the backlight, whatever it is asked for and however it
-- ends, leaves sysfs alone or makes one write, of a level between 0 and the maximum that the device
-- gives, to the resolved `brightness` of the entry that the device id names, which is listed, may be
-- written and lies below /sys/devices (below the directory itself for another directory).
pub set_state-IsWrite :
    (p : Platform) (root identifier : String) (changes : Fields) (s : Sysfs)
    → ((set_state p root identifier changes s).1 ≡ s)
      ⊎ IsWrite p root identifier s (set_state p root identifier changes s).1
unfolding set_state carry_out
set_state-IsWrite p root identifier changes s =
    elim (Result-cases (request p root identifier changes s)) [
      | inr (e, refused) ↦ inl (rw (refused, set_state, carry_out) refl)
      | inl (plan, asked) ↦
          let ends : (set_state p root identifier changes s).1
              ≡ (safe_write p root plan.entry plan.requested s).1 =
            rw (asked, set_state, carry_out) (confirm-keeps p root identifier plan _ _) in
          elim (safe_write-cases p root plan.entry plan.requested s) [
            | inl untouched ↦ inl (ends ∙ untouched)
            | inr (path, root_path, resolved, resolved_root, allowed, written) ↦ inr record {
              plan = plan;
              planned = request-IsPlan p root identifier changes s plan asked;
              path = path;
              root_path = root_path;
              resolved = resolved;
              resolved_root = resolved_root;
              allowed = allowed;
              written = ends ∙ written;
            }
          ]
    ]
