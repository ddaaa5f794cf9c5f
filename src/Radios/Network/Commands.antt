-- ===== src/Radios/Network/Commands.antt =====
-- The commands of `NetworkBackend` in radios.py, one by one, against what `WpaSupplicantControl` lets
-- through.
pub mod Sent
use msys_hal.Prelude.{
  ℕ, ◌+◌, ◌≤◌, String, Bool, true, not, [], ◌∷◌, ◌++◌, concat, decimal, ◌≡◌, refl, ap, ◌&&◌, len,
  length, all_chars, leb, le→leb, arith, &&-both, &&-split, Bool-cases, inl, inr, if◌then◌else◌,
  ◌==◌, string_eq, eq_iff, nat_eq,
}
use Prim.Native.Char.{code}
use text.Mathlib.TextLemmas.{cons-append}
use msys_hal.Radios.Lines.{utf8, hex, is_plain}
use msys_hal.Radios.Lines.Plain.{
  IsPlain, IsPlain-append, decimal-IsPlain, hex-IsPlain, utf8-plain, all_chars-IsPlain,
}
use msys_hal.Radios.Credentials.{psk_argument}
use msys_hal.Radios.Credentials.Quoting.{psk_argument-IsPlain}
use msys_hal.Radios.Control.Sockets.{is_command}
use msys_hal.Radios.Network.{
  set_ssid, set_open, set_psk, enable_network, select_network, remove_network,
}

abbrev pub IsCommand : String → Type 0
IsCommand c = is_command c ≡ true

no_breaks :
    (s : String)
    → all_chars is_plain s ≡ true
    → all_chars (λ c. not (c == 0) && (not (c == 10) && not (c == 13))) s ≡ true
no_breaks String.[] h = refl
no_breaks (String.◌∷◌ c s) h =
    let (here, more) = &&-split (is_plain (code c)) (all_chars is_plain s) h in
    &&-both (plain_char (code c) here) (no_breaks s more)
  where
    plain_char :
        (c : ℕ) → is_plain c ≡ true → (not (c == 0) && (not (c == 10) && not (c == 13))) ≡ true
    plain_char c k = ground arith

plain-IsCommand : {n : ℕ} (s : String) → IsPlain n s → n ≤ 4096 → 1 ≤ len s → IsCommand s
unfolding is_command
plain-IsCommand {n} s h bound one = elim (Bool-cases (s == "")) [
  | inl empty ↦ absurd (let l : len s ≡ 0 = ap len ((eq_iff s "").0 empty) in omega (arith, one, l))
  | inr some_text ↦ rw some_text (
      &&-both (le→leb (length (utf8 s)) 4096 (omega (arith, utf8-plain s h.plain, h.short)))
        (no_breaks s h.plain))
]

not_empty : (s t : String) → 1 ≤ len s → 1 ≤ len (Prim.Native.String.◌++◌ s t)
not_empty String.[] t h = absurd (omega arith)
not_empty (String.◌∷◌ c s) t h = rw (cons-append c s t) (omega arith)

-- A verb, a network's number and the rest.
numbered-IsCommand :
    {m k : ℕ} (verb : String) (n : ℕ) (rest : String)
    → IsPlain m verb
    → 1 ≤ len verb
    → n ≤ 4095
    → IsPlain k rest
    → m + k ≤ 4000
    → IsCommand (concat (verb ∷ decimal n ∷ rest ∷ []))
numbered-IsCommand {m} {k} verb n rest h one small r bound =
    let nothing : IsPlain 0 "" = record { plain = refl; short = omega arith } in
    plain-IsCommand _
      (IsPlain-append verb _ h
        (IsPlain-append (decimal n) _ (decimal-IsPlain n small) (IsPlain-append rest "" r nothing)))
      (omega arith) (not_empty verb _ one)

-- A literal.
abbrev literal : (s : String) → all_chars is_plain s ≡ true → IsPlain (len s) s
literal = all_chars-IsPlain

module _ (n : ℕ) (small : n ≤ 4095) where
  enable_network-IsCommand : IsCommand (enable_network n)
  enable_network-IsCommand =
      numbered-IsCommand "ENABLE_NETWORK " n "" (literal _ refl) (omega arith) small
        (literal _ refl) (omega arith)

  select_network-IsCommand : IsCommand (select_network n)
  select_network-IsCommand =
      numbered-IsCommand "SELECT_NETWORK " n "" (literal _ refl) (omega arith) small
        (literal _ refl) (omega arith)

  remove_network-IsCommand : IsCommand (remove_network n)
  remove_network-IsCommand =
      numbered-IsCommand "REMOVE_NETWORK " n "" (literal _ refl) (omega arith) small
        (literal _ refl) (omega arith)

  set_open-IsCommand : IsCommand (set_open n)
  set_open-IsCommand =
      numbered-IsCommand "SET_NETWORK " n " key_mgmt NONE" (literal _ refl) (omega arith) small
        (literal _ refl) (omega arith)

  set_psk-IsCommand : (psk : String) → IsPlain 64 psk → IsCommand (set_psk n psk)
  set_psk-IsCommand psk h =
      numbered-IsCommand "SET_NETWORK " n (concat (" psk " ∷ psk_argument psk ∷ []))
        (literal _ refl) (omega arith) small
        (IsPlain-append " psk " _ (literal _ refl)
          (IsPlain-append (psk_argument psk) "" (psk_argument-IsPlain psk h) (literal "" refl)))
        (omega arith)

  set_ssid-IsCommand : (ssid : String) → length (utf8 ssid) ≤ 32 → IsCommand (set_ssid n ssid)
  set_ssid-IsCommand ssid h =
      numbered-IsCommand "SET_NETWORK " n (concat (" ssid " ∷ hex (utf8 ssid) ∷ []))
        (literal _ refl) (omega arith) small
        (IsPlain-append " ssid " _ (literal _ refl)
          (IsPlain-append (hex (utf8 ssid)) "" (hex-IsPlain (utf8 ssid)) (literal "" refl)))
        (omega (arith, h))
