-- ===== src/Radios/Credentials.antt =====
-- `_validate_ssid`, `_validate_psk` and `_psk_argument` of radios.py.
pub mod Quoting
use msys_hal.Prelude.{
  String, not, ◌&&◌, leb, len, all_chars, has_nul, length, if◌then◌else◌, ◌==◌, string_eq, nat_eq,
}
use msys_hal.Json.{Value, str, end}
use msys_hal.Errors.{Result, ok, err, ◌>>◌, require, validation_error}
use msys_hal.Radios.{Unicode}
use msys_hal.Radios.Lines.{utf8, casefold, replace, glue, is_hex, is_hex_lower, is_plain}

-- `_validate_ssid`
unfoldable pub validate_ssid : Unicode → Value → Result String
validate_ssid u (str s) = do
  require (not (s == "") && (not (has_nul s) && all_chars u.is_printable s))
      (validation_error "ssid must be a non-empty printable string" end)
  require (leb (length (utf8 s)) 32) (validation_error "ssid must be at most 32 UTF-8 bytes" end)
  ok s
validate_ssid u v = err (validation_error "ssid must be a non-empty printable string" end)

-- `_validate_psk`
unfoldable pub validate_psk : Value → Result String
validate_psk (str s) = if len s == 64 && all_chars is_hex s then ok (casefold s) else do
  require ((leb 8 (len s) && leb (len s) 63) && all_chars is_plain s)
      (validation_error "psk must be 8..63 printable ASCII characters or 64 hexadecimal digits" end)
  ok s
validate_psk v = err (validation_error "psk must be a string" end)

-- `_psk_argument`
unfoldable pub psk_argument : String → String
psk_argument psk =
    if len psk == 64 && all_chars is_hex_lower psk
    then psk
    else glue "\"" (glue (replace b'"' "\\\"" (replace b'\\' "\\\\" psk)) "\"")
