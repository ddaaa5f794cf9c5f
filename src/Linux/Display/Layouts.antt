-- ===== src/Linux/Display/Layouts.antt =====
-- What the window manager is asked for.
use msys_hal.Prelude.{
  ◌≡◌, refl, sym, String, Bool, true, false, not, ◌&&◌, Option, none, some, List, [], ◌∷◌, all,
  filter, member, is_empty, ◌==◌, string_eq, eq_iff, &&-split,
}
use mathlib.Core.Path.{subst}
use msys_hal.Json.{Value, null, int, str, obj, Fields, field, end, keys, get_field, field_or}
use msys_hal.Json.Int.{ℤ, pos, leb_ℤ}
use msys_hal.Errors.{ok, >>=-eq-ok, require, require-eq-ok, ◌>>=◌}
use msys_hal.Validation.Payload.{device_id, integer}
use msys_hal.Validation.Payload.Accepts.{device_id-domain}
use msys_hal.Linux.Display.{
  profiles, orientations, physical_fields, layout_fields, sides, word_in, profile_of,
  orientation_of, inset, insets_of, append_fields, is_end, layout_request,
}

-- No entry, or one of a name, whose value satisfies a predicate.
pub data IsPart (name : String) (P : Value → Type 0) : Fields → Type 0 where
  left_out : IsPart name P end
  given : (v : Value) → P v → IsPart name P (field name v end)

-- One of some words.
pub data IsWord (allowed : List String) : Value → Type 0 where
  word : (s : String) → member s allowed ≡ true → IsWord allowed (str s)

abbrev pub is_inset : ℤ → Bool
is_inset n = leb_ℤ (pos 0) n && leb_ℤ n (pos 8192)

-- Insets: automatic, or four integers from 0 to 8192.
pub data IsInsets : Value → Type 0 where
  automatic : IsInsets (str "auto")
  four :
      (top right bottom left : ℤ)
      → is_inset top ≡ true
      → is_inset right ≡ true
      → is_inset bottom ≡ true
      → is_inset left ≡ true
      → IsInsets (
          obj (
            field "top" (int top) (
              field "right"
                (int right)
                (field "bottom" (int bottom) (field "left" (int left) end)))))

word_in-IsWord :
    (allowed : List String) (complaint : String) (v : Value) (s : String)
    → word_in allowed complaint v ≡ ok s
    → member s allowed ≡ true
unfolding word_in
word_in-IsWord allowed complaint (str t) s e =
    let (u, known, e1) = >>=-eq-ok (require (member t allowed) _) _ e in
    let same : t ≡ s = cc in subst (λ x. member x allowed ≡ true) same (require-eq-ok _ _ known)
word_in-IsWord allowed complaint _ s e = absurd cc

word_in-IsPart :
    (allowed : List String) (complaint name : String) (v : Value) (fs : Fields)
    → (word_in allowed complaint v >>= λ s. ok (field name (str s) end)) ≡ ok fs
    → IsPart name (IsWord allowed) fs
word_in-IsPart allowed complaint name v fs e =
    let (s, read, e1) = >>=-eq-ok (word_in allowed complaint v) _ e in
    let same : field name (str s) end ≡ fs = cc in
    subst (IsPart name (IsWord allowed)) same
      (given (str s) (word s (word_in-IsWord allowed complaint v s read)))

profile_of-IsPart :
    (v : Value) (fs : Fields) → profile_of v ≡ ok fs → IsPart "profile" (IsWord profiles) fs
unfolding profile_of
profile_of-IsPart null fs e =
    let same : end ≡ fs = cc in subst (IsPart "profile" (IsWord profiles)) same left_out
profile_of-IsPart v fs e =
    word_in-IsPart profiles "display profile must be mobile, kiosk or desktop" "profile" v fs e

orientation_of-IsPart :
    (o : Option Value) (fs : Fields)
    → orientation_of o ≡ ok fs
    → IsPart "orientation" (IsWord orientations) fs
unfolding orientation_of
orientation_of-IsPart none fs e =
    let same : end ≡ fs = cc in subst (IsPart "orientation" (IsWord orientations)) same left_out
orientation_of-IsPart (some v) fs e =
    word_in-IsPart orientations "display orientation must be auto, portrait or landscape"
      "orientation" v fs e

integer-between :
    (v : Value) (label : String) (n : ℤ)
    → integer v label (pos 0) (pos 8192) ≡ ok n
    → is_inset n ≡ true
unfolding integer
integer-between (int m) label n e =
    let (u, fits, e1) = >>=-eq-ok (require (is_inset m) _) _ e in
    let same : m ≡ n = cc in subst (λ k. is_inset k ≡ true) same (require-eq-ok _ _ fits)
integer-between _ label n e = absurd cc

inset-is_inset :
    (insets : Fields) (side : String) (n : ℤ) → inset insets side ≡ ok n → is_inset n ≡ true
unfolding inset
inset-is_inset insets side n e = integer-between (field_or null side insets) _ n e

insets_of-IsPart :
    (o : Option Value) (fs : Fields) → insets_of o ≡ ok fs → IsPart "insets" IsInsets fs
unfolding insets_of
insets_of-IsPart none fs e =
    let same : end ≡ fs = cc in subst (IsPart "insets" IsInsets) same left_out
insets_of-IsPart (some (str s)) fs e =
    let (u, auto, e1) = >>=-eq-ok (require (s == "auto") _) _ e in
    let same : field "insets" (str "auto") end ≡ fs = cc in
    subst (IsPart "insets" IsInsets) same (given (str "auto") automatic)
insets_of-IsPart (some (obj insets)) fs e =
    let (u, known, e0) =
      >>=-eq-ok
        (require
          (all (λ k. member k sides) (keys insets) && all (λ k. member k (keys insets)) sides) _)
        _ e in
    let (top, t, e1) = >>=-eq-ok (inset insets "top") _ e0 in
    let (right, r, e2) = >>=-eq-ok (inset insets "right") _ e1 in
    let (bottom, b, e3) = >>=-eq-ok (inset insets "bottom") _ e2 in
    let (left, l, e4) = >>=-eq-ok (inset insets "left") _ e3 in
    let same : field "insets"
          (obj (
            field "top" (int top) (
              field "right" (int right)
                (field "bottom" (int bottom) (field "left" (int left) end)))))
          end
        ≡ fs =
      cc in
    subst (IsPart "insets" IsInsets) same (
      given _ (
        four top right bottom left (inset-is_inset insets "top" top t)
          (inset-is_inset insets "right" right r) (inset-is_inset insets "bottom" bottom b)
          (inset-is_inset insets "left" left l)))
insets_of-IsPart (some _) fs e = absurd cc

-- The payload of `set_layout`.
pub record IsLayout (identifier : String) (changes payload : Fields) : Type 0 where
  pub device : identifier ≡ "display:primary"
  pub untouched : filter (λ k. member k (keys changes)) physical_fields ≡ []
  pub known : all (λ k. member k layout_fields) (keys changes) ≡ true
  pub some_change : is_end payload ≡ false
  pub profile : Fields
  pub orientation : Fields
  pub insets : Fields
  pub joined : payload ≡ append_fields profile (append_fields orientation insets)
  pub is_profile : IsPart "profile" (IsWord profiles) profile
  pub is_orientation : IsPart "orientation" (IsWord orientations) orientation
  pub is_insets : IsPart "insets" IsInsets insets

not-false : (b : Bool) → not b ≡ true → b ≡ false
not-false true e = absurd cc
not-false false e = refl

is_empty-nil : (xs : List String) → is_empty xs ≡ true → xs ≡ []
is_empty-nil [] e = refl
is_empty-nil (x ∷ xs) e = absurd cc

-- The window manager is asked for a layout alone: the payload that `set_state` of the display sends is
-- for the primary display, has at least one entry and at most a profile, an orientation and insets,
-- each of the values that there are for it, and the changes touch no physical transform and name no
-- field but profile, mode, orientation and insets.
pub layout_request-IsLayout :
    (identifier : String) (changes payload : Fields)
    → layout_request identifier changes ≡ ok payload
    → IsLayout identifier changes payload
unfolding layout_request
layout_request-IsLayout identifier changes payload e =
    let (parsed, read, e1) = >>=-eq-ok (device_id (str identifier) "id") _ e in
    let (u2, primary, e2) = >>=-eq-ok (require (parsed == "display:primary") _) _ e1 in
    let (u3, untouched, e3) =
      >>=-eq-ok (require (is_empty (filter (λ k. member k (keys changes)) physical_fields)) _) _
        e2 in
    let (u4, known, e4) =
      >>=-eq-ok
        (require
          (all (λ k. member k layout_fields) (keys changes)
            && not (member "profile" (keys changes) && member "mode" (keys changes)))
          _)
        _ e3 in
    let (profile, p, e5) =
      >>=-eq-ok (profile_of (field_or (field_or null "mode" changes) "profile" changes)) _ e4 in
    let (orientation, o, e6) = >>=-eq-ok (orientation_of (get_field "orientation" changes)) _ e5 in
    let (insets, i, e7) = >>=-eq-ok (insets_of (get_field "insets" changes)) _ e6 in
    let joined = append_fields profile (append_fields orientation insets) in
    let (u8, some_change, e8) = >>=-eq-ok (require (not (is_end joined)) _) _ e7 in
    let same : joined ≡ payload = cc in
    let given_id : str identifier ≡ str parsed =
      (device_id-domain (str identifier) "id" parsed read).0 in
    let named : parsed ≡ "display:primary" =
      (eq_iff parsed "display:primary").0 (require-eq-ok _ _ primary) in
    record {
      device = cc;
      untouched = is_empty-nil _ (require-eq-ok _ _ untouched);
      known = (&&-split _ _ (require-eq-ok _ _ known)).0;
      some_change =
          subst (λ x. is_end x ≡ false) same (not-false _ (require-eq-ok _ _ some_change));
      profile = profile;
      orientation = orientation;
      insets = insets;
      joined = sym same;
      is_profile =
          profile_of-IsPart (field_or (field_or null "mode" changes) "profile" changes) profile p;
      is_orientation = orientation_of-IsPart (get_field "orientation" changes) orientation o;
      is_insets = insets_of-IsPart (get_field "insets" changes) insets i;
    }
