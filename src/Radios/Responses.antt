-- ===== src/Radios/Responses.antt =====
-- `_parse_status`, `_parse_scan_results` and `_parse_networks` of radios.py: the answers of
-- wpa_supplicant.
pub mod Bounds
use msys_hal.Prelude.{
  ℕ, ◌^◌, ◌-◌, String, Bool, true, false, not, ◌&&◌, ◌||◌, Option, none, some, List, [], ◌∷◌, leb,
  length, take, member, before, after, all_chars, has_nul, len, starts_with, if◌then◌else◌, ◌==◌,
  string_eq, nat_eq,
}
use Prim.Native.Char.{code}
use msys_hal.Json.{Value, int, str, obj, Fields, field, end}
use msys_hal.Json.Int.{ℤ, pos, neg}
use msys_hal.Errors.{Result, ok, err, ◌>>◌, require, provider_error}
use msys_hal.Validation.Patterns.{is_lower, is_digit}
use msys_hal.Linux.{digits}
use msys_hal.Radios.{Unicode}
use msys_hal.Radios.Lines.{split_lines, split_max, casefold, utf8, is_address, is_number}

-- `result[key] = value`
abbrev pub put_field : String → Value → Fields → Fields
put_field k v end = field k v end
put_field k v (field j w fs) =
    let rest = put_field k v fs in if j == k then field k v fs else field j w rest

-- `WPA_KEY_RE`
unfoldable pub wpa_key_re : String → Bool
wpa_key_re s =
    (leb 1 (len s) && leb (len s) 32) && all_chars (λ c. is_lower c || is_digit c || c == b'_') s

abbrev pub status_keys : List String
status_keys =
    "bssid" ∷ "freq" ∷ "id" ∷ "ip_address" ∷ "key_mgmt" ∷ "mode" ∷ "ssid" ∷ "wpa_state" ∷ []

abbrev cap : ℕ
cap = 2 ^ 31 - 1

abbrev pub at_most : ℕ → ℕ → ℕ
at_most bound n = if leb n bound then n else bound

-- `int(s)` of a text of digits
abbrev pub number : String → ℕ
number s = elim (digits s) [ none ↦ 0 | some n ↦ n ]

module _ (u : Unicode) where
  -- What a line of a status changes, `key` and `value` from around its first `=`.
  status_entry : String → String → Fields → Fields
  unfolding wpa_key_re
  status_entry key value result =
      if not (member key status_keys) || (not (wpa_key_re key) || not (leb (len value) 256))
      then result
      else if member key ("freq" ∷ "id" ∷ []) && (not (value == "") && all_chars is_digit value)
      then put_field key (int (pos (at_most cap (number value)))) result
      else if not (has_nul value) && all_chars u.is_printable value
      then put_field key (str value) result
      else result

  status_loop : Fields → List String → Fields
  unfolding status_entry
  status_loop result [] = result
  status_loop result (line ∷ rest) = elim (after b'=' line) [
    | none ↦ status_loop result rest
    | some value ↦ status_loop (status_entry (before b'=' line) value result) rest
  ]

  -- `_parse_status`
  unfoldable pub parse_status : String → Result Fields
  unfolding status_loop
  parse_status response = do
    require (not (starts_with response "FAIL" || starts_with response "UNKNOWN COMMAND"))
        (provider_error "wpa_supplicant status query failed" end)
    ok (status_loop end (take 64 (split_lines response)))

-- A cell of a scan.
pub record Scan : Type 0 where
  pub bssid : String
  pub frequency_mhz : ℕ
  pub signal_dbm : ℤ
  pub flags : String
  pub ssid : String

-- `-?[0-9]{1,5}` under `fullmatch`, and `int` of it.
abbrev is_signal : String → Bool
is_signal String.[] = false
is_signal (String.◌∷◌ c s) = if code c == b'-' then is_number 5 s else is_number 5 (String.◌∷◌ c s)

abbrev signal_of : String → ℤ
signal_of String.[] = pos 0
signal_of (String.◌∷◌ c s) =
    if code c == b'-' then neg (pos (number s)) else pos (number (String.◌∷◌ c s))

abbrev pub some_when {ℓ} : {A : Type ℓ} → Bool → A → Option A
some_when true a = some a
some_when false a = none

module _ (u : Unicode) where
  unfoldable pub scan_fields : List String → Option Scan
  scan_fields (bssid ∷ frequency ∷ signal ∷ flags ∷ ssid ∷ []) =
      some_when
        (is_address 5 5 bssid
          && ((is_number 10 frequency && is_signal signal)
              && ((leb (len flags) 192 && leb (length (utf8 ssid)) 128)
                  && (all_chars u.is_printable flags && all_chars u.is_printable ssid))))
        (record {
          bssid = casefold bssid;
          frequency_mhz = number frequency;
          signal_dbm = signal_of signal;
          flags = flags;
          ssid = ssid;
        })
  scan_fields _ = none

  pub scan_loop : List String → List Scan
  unfolding scan_fields
  scan_loop [] = []
  scan_loop (line ∷ rest) = elim (scan_fields (split_max b'\t' 4 line)) [
    | none ↦ scan_loop rest
    | some scan ↦ scan ∷ scan_loop rest
  ]

  unfoldable pub scan_lines : List String → Result (List Scan)
  unfolding scan_loop
  scan_lines [] = err (provider_error "wpa_supplicant scan-results query failed" end)
  scan_lines (header ∷ rest) = do
    require (starts_with header "bssid /")
        (provider_error "wpa_supplicant scan-results query failed" end)
    ok (scan_loop (take 20 rest))

  -- `_parse_scan_results`
  unfoldable pub parse_scan_results : String → Result (List Scan)
  unfolding scan_lines
  parse_scan_results response = scan_lines (split_lines response)

unfoldable pub scan_value : Scan → Value
scan_value s = obj (
    field "bssid" (str s.bssid) (
      field "frequency_mhz" (int (pos s.frequency_mhz)) (
        field "signal_dbm" (int s.signal_dbm)
          (field "flags" (str s.flags) (field "ssid" (str s.ssid) end)))))

-- A configured network.
pub record Network : Type 0 where
  pub network_id : ℕ
  pub ssid : String
  pub bssid : String
  pub flags : String

module _ (u : Unicode) where
  unfoldable pub network_fields : List String → Option Network
  network_fields (number_text ∷ ssid ∷ bssid ∷ flags ∷ []) =
      some_when
        (is_number 4 number_text
          && (leb (number number_text) 4095
              && ((leb (length (utf8 ssid)) 128 && (leb (len bssid) 64 && leb (len flags) 192))
                  && (all_chars u.is_printable ssid
                      && (all_chars u.is_printable bssid && all_chars u.is_printable flags)))))
        (record { network_id = number number_text; ssid = ssid; bssid = bssid; flags = flags })
  network_fields _ = none

  pub network_loop : List String → List Network
  unfolding network_fields
  network_loop [] = []
  network_loop (line ∷ rest) = elim (network_fields (split_max b'\t' 3 line)) [
    | none ↦ network_loop rest
    | some network ↦ network ∷ network_loop rest
  ]

  unfoldable pub network_lines : List String → Result (List Network)
  unfolding network_loop
  network_lines [] = err (provider_error "wpa_supplicant configured-network query failed" end)
  network_lines (header ∷ rest) = do
    require (starts_with header "network id /")
        (provider_error "wpa_supplicant configured-network query failed" end)
    ok (network_loop (take 16 rest))

  -- `_parse_networks`
  unfoldable pub parse_networks : String → Result (List Network)
  unfolding network_lines
  parse_networks response = network_lines (split_lines response)

unfoldable pub network_value : Network → Value
network_value n = obj (
    field "network_id" (int (pos n.network_id))
      (field "ssid" (str n.ssid) (field "bssid" (str n.bssid) (field "flags" (str n.flags) end))))
