-- ===== src/Radios/Network/Commands/Sent.antt =====
-- All commands of a `set_state` of `NetworkBackend` in radios.py, against what the control client lets
-- through.
use msys_hal.Prelude.{
  ℕ, zero, suc, ◌≤◌, String, Bool, not, has_nul, Option, List, [], ◌∷◌, ◌++◌, All, take, ◌≡◌, refl,
  ap, sym, ◌∙◌, ◌&&◌, length, all_chars, leb, leb→le, Bool-cases, inl, inr, if◌then◌else◌, ◌==◌,
  string_eq, nat_eq,
}
use mathlib.Core.Path.{subst}
use msys_hal.Json.{Value, Fields, str, null, field_or}
use msys_hal.Errors.{Result, ok, require, >>=-eq-ok, require-eq-ok}
use msys_hal.Radios.{Unicode}
use msys_hal.Radios.Lines.{utf8}
use msys_hal.Radios.Lines.Plain.{IsPlain}
use msys_hal.Radios.Credentials.{validate_ssid, validate_psk}
use msys_hal.Radios.Credentials.Quoting.{validate_psk-IsPlain}
use msys_hal.Radios.Control.Sockets.{is_command}
use msys_hal.Radios.Network.{Surroundings, Security, no_key, key}
use msys_hal.Radios.Network.Requests.{security_of, is_open}
use msys_hal.Radios.Network.Part.{IsPart}
use msys_hal.Radios.Network.Transaction.{
  Transaction, refused, undone, done, steps_of, set_security_command,
}
use msys_hal.Radios.Network.Dialogue.{Dialogue}
use msys_hal.Radios.Network.Backend.{set_state}
use msys_hal.Radios.Network.Trace.{logged, sent}
use msys_hal.Radios.Network.Queries.{queries}
use msys_hal.Radios.Network.Conversation.{Conversation, set_state-Conversation}
use mathlib.Core.List.{append-nil}
use msys_hal.Radios.Network.Commands.{
  IsCommand, enable_network-IsCommand, select_network-IsCommand, remove_network-IsCommand,
  set_open-IsCommand, set_psk-IsCommand, set_ssid-IsCommand,
}

take-AreCommands : (n : ℕ) (xs : List String) → All IsCommand xs → All IsCommand (take n xs)
take-AreCommands zero xs h = tt
take-AreCommands (suc n) [] h = tt
take-AreCommands (suc n) (x ∷ xs) h = (h.0, take-AreCommands n xs h.1)

append-AreCommands :
    (xs ys : List String) → All IsCommand xs → All IsCommand ys → All IsCommand (xs ++ ys)
append-AreCommands [] ys h k = k
append-AreCommands (x ∷ xs) ys h k = (h.0, append-AreCommands xs ys h.1 k)

part-AreCommands :
    {A : Type 0} {steps cs : List String} {r : Result A}
    → All IsCommand steps
    → IsPart steps cs r
    → All IsCommand cs
part-AreCommands {A} {steps} h p = rw p.is_part (take-AreCommands p.count steps h)

validate_ssid-bound :
    (u : Unicode) (v : Value) (ssid : String)
    → validate_ssid u v ≡ ok ssid
    → length (utf8 ssid) ≤ 32
unfolding validate_ssid
validate_ssid-bound u (str s) ssid h =
    let (a, q1, h1) =
      >>=-eq-ok (require (not (s == "") && (not (has_nul s) && all_chars u.is_printable s)) _) _
        h in
    let (b, q2, h2) = >>=-eq-ok (require (leb (length (utf8 s)) 32) _) _ h1 in
    let same : s ≡ ssid = cc in
    subst (λ t. length (utf8 t) ≤ 32) same (leb→le (length (utf8 s)) 32 (require-eq-ok _ _ q2))
validate_ssid-bound u _ ssid h = absurd cc

security_of-key :
    (changes : Fields) (psk : String) → security_of changes ≡ ok (key psk) → IsPlain 64 psk
unfolding security_of
security_of-key changes psk h = elim (Bool-cases (is_open changes)) [
  | inl free ↦ absurd (let l = rw (free, if◌then◌else◌) at h in cc)
  | inr keyed ↦
      let (found, q, h1) =
        >>=-eq-ok (validate_psk (field_or null "psk" changes)) _ (rw (keyed, if◌then◌else◌) at h) in
      let same : found ≡ psk = cc in
      subst (IsPlain 64) same (validate_psk-IsPlain (field_or null "psk" changes) found q)
]

-- What a security that `security_of` returns has.
IsSecure : Security → Type 0
IsSecure no_key = Unit
IsSecure (key psk) = IsPlain 64 psk

security_of-IsSecure :
    (changes : Fields) (security : Security) → security_of changes ≡ ok security → IsSecure security
unfolding IsSecure
security_of-IsSecure changes no_key h = tt
security_of-IsSecure changes (key psk) h = security_of-key changes psk h

set_security-IsCommand :
    (n : ℕ) (security : Security)
    → n ≤ 4095
    → IsSecure security
    → IsCommand (set_security_command n security)
unfolding IsSecure
set_security-IsCommand n no_key small h = set_open-IsCommand n small
set_security-IsCommand n (key psk) small h = set_psk-IsCommand n small psk h

steps-AreCommands :
    (n : ℕ) (ssid : String) (security : Security)
    → n ≤ 4095
    → length (utf8 ssid) ≤ 32
    → IsSecure security
    → All IsCommand (steps_of n ssid security)
steps-AreCommands n ssid security small h k = (
  set_ssid-IsCommand n small ssid h,
  (
    set_security-IsCommand n security small k,
    (enable_network-IsCommand n small, (select_network-IsCommand n small, tt)),
  ),
)

Transaction-AreCommands :
    {ssid : String} {security : Security} {cs : List String} {r : Result (Option Bool)}
    → length (utf8 ssid) ≤ 32
    → IsSecure security
    → Transaction ssid security cs r
    → All IsCommand cs
unfolding is_command
Transaction-AreCommands h k (refused only e) = rw only (refl, tt)
Transaction-AreCommands {ssid} {security} h k (undone n count small all_of e) = rw all_of (
  refl,
  append-AreCommands (take count (steps_of n ssid security)) _
      (take-AreCommands count (steps_of n ssid security)
        (steps-AreCommands n ssid security small h k))
      (remove_network-IsCommand n small, tt),
)
Transaction-AreCommands {ssid} {security} h k (done n small all_of) = rw all_of (
  refl,
  append-AreCommands (steps_of n ssid security) ("SAVE_CONFIG" ∷ [])
      (steps-AreCommands n ssid security small h k) (refl, tt),
)

module _ {S : Type 0} (w : Surroundings S) (name : String) (s : S) (changes : Fields)
    (action : String) where
  Dialogue-AreCommands :
      {cs : List String} {r : Result (Option Bool)}
      → Dialogue w name s changes action cs r
      → All IsCommand cs
  unfolding is_command
  Dialogue-AreCommands (Dialogue.refused part e) = part-AreCommands (refl, tt) part
  Dialogue-AreCommands (Dialogue.scanned a only) = rw only (refl, tt)
  Dialogue-AreCommands (Dialogue.disconnected a only) = rw only (refl, tt)
  Dialogue-AreCommands (Dialogue.selected ns n ssid small a known named only part) =
      part-AreCommands
        (
          refl,
          (
            enable_network-IsCommand n.network_id small,
            (select_network-IsCommand n.network_id small, tt),
          ),
        )
        part
  Dialogue-AreCommands (Dialogue.added ns ssid security ds a known named new secured all_of t) =
      rw all_of (
        refl,
        Transaction-AreCommands (validate_ssid-bound w.unicode _ ssid named)
            (security_of-IsSecure changes security secured) t,
      )
  Dialogue-AreCommands (Dialogue.forgotten ns n small a known meant part) =
      part-AreCommands (refl, (remove_network-IsCommand n.network_id small, (refl, tt))) part

  Conversation-AreCommands :
      (cs : List String) (r : Result Value)
      → Conversation w name s changes action cs r
      → All IsCommand cs
  unfolding is_command
  Conversation-AreCommands cs r c = rw c.all_of (
      append-AreCommands c.commands c.asked (Dialogue-AreCommands c.dialogue)
        (rw c.queried.1 (take-AreCommands c.queried.0 queries (refl, (refl, (refl, tt))))))

-- Every command that a `set_state` sends is one line of at most 4096 bytes without NUL, whatever the
-- control channel answers: neither the name nor the key of a network can end it or begin another.
pub set_state-AreCommands :
    {S : Type 0} (w : Surroundings S) (identifier : String) (changes : Fields) (s : S)
    (log : List (String × String))
    → (name : String) × (commands : List String) × ((set_state
          (logged w)
          identifier
          changes
          (s, log)).1.1
        ≡ log ++ sent name commands)
      × All IsCommand commands
set_state-AreCommands w identifier changes s log =
    elim (set_state-Conversation w identifier changes s log) [
      | inl (e, same) ↦ ("", [], ap (λ x. x.1.1) same ∙ sym (append-nil log), tt)
      | inr (name, action, known, t) ↦ (
        name,
        t.commands,
        t.logs,
        Conversation-AreCommands w name s changes action t.commands _ t.holds,
      )
    ]
