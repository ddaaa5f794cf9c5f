-- ===== src/Radios/Credentials/Quoting.antt =====
-- The keys that `_validate_psk` of radios.py accepts, and the arguments that they are passed as, are
-- printable.
use msys_hal.Prelude.{
  ◌≤◌, String, ◌≡◌, refl, ◌&&◌, len, all_chars, leb, leb→le, arith, &&-split, Bool-cases, inl, inr,
  if◌then◌else◌, ◌==◌, nat_eq,
}
use mathlib.Core.Path.{subst}
use msys_hal.Json.{Value, str}
use msys_hal.Errors.{ok, require, >>=-eq-ok, require-eq-ok}
use msys_hal.Radios.Credentials.{validate_psk, psk_argument}
use msys_hal.Radios.Lines.{replace, casefold, is_hex, is_hex_lower, is_plain}
use msys_hal.Radios.Lines.Plain.{
  IsPlain, IsPlain-glue, replace-IsPlain, casefold-IsPlain, hex_text-IsPlain, longer-IsPlain,
}

pub validate_psk-IsPlain : (v : Value) (psk : String) → validate_psk v ≡ ok psk → IsPlain 64 psk
unfolding validate_psk
validate_psk-IsPlain (str s) psk h = elim (Bool-cases (len s == 64 && all_chars is_hex s)) [
  | inl digits ↦
      let (size, every) = &&-split (len s == 64) (all_chars is_hex s) digits in
      let same : casefold s ≡ psk =
        (let l : ok (casefold s) ≡ ok psk = rw (digits, if◌then◌else◌) at h in cc) in
      let (plain, short) = casefold-IsPlain s (hex_text-IsPlain s every).plain in
      let bound : len s ≤ 64 = ground arith in
      subst (IsPlain 64) same (record { plain = plain; short = omega (arith, short, bound) })
  | inr other ↦
      let (u, q, h1) =
        >>=-eq-ok (require ((leb 8 (len s) && leb (len s) 63) && all_chars is_plain s) _) _
          (rw (other, if◌then◌else◌) at h) in
      let (sizes, every) =
        &&-split (leb 8 (len s) && leb (len s) 63) (all_chars is_plain s) (require-eq-ok _ _ q) in
      let (low, high) = &&-split (leb 8 (len s)) (leb (len s) 63) sizes in
      let same : s ≡ psk = cc in
      subst (IsPlain 64) same
        (record { plain = every; short = omega (arith, leb→le (len s) 63 high) })
]
validate_psk-IsPlain _ psk h = absurd cc

-- Quoted or not, a key is passed as printable ASCII.
pub psk_argument-IsPlain : (psk : String) → IsPlain 64 psk → IsPlain 258 (psk_argument psk)
unfolding psk_argument
psk_argument-IsPlain psk h = elim (Bool-cases (len psk == 64 && all_chars is_hex_lower psk)) [
  | inl digits ↦ rw (digits, if◌then◌else◌) (longer-IsPlain psk (omega arith) h)
  | inr other ↦
      let quote : IsPlain 1 "\"" = record { plain = refl; short = omega arith } in
      let escaped =
        replace-IsPlain b'"' "\\\"" (replace b'\\' "\\\\" psk)
          (record { plain = refl; short = omega arith })
          (replace-IsPlain b'\\' "\\\\" psk (record { plain = refl; short = omega arith }) h) in
      rw (other, if◌then◌else◌) (IsPlain-glue "\"" _ quote (IsPlain-glue _ "\"" escaped quote))
]
