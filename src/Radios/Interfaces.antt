-- ===== src/Radios/Interfaces.antt =====
-- `_classify_interface` and `_interface_values` of radios.py: what sysfs says of a network interface.
use msys_hal.Prelude.{
  ◌^◌, ◌-◌, String, Bool, false, not, ◌||◌, Option, none, some, List, [], ◌∷◌, member, any,
  starts_with, concat, if◌then◌else◌, ◌==◌, string_eq, nat_eq,
}
use msys_hal.Json.{Value, bool, int, str, Fields, field, end}
use msys_hal.Json.Int.{ℤ, pos, pos_part}
use msys_hal.Validation.Patterns.{is_lower, is_digit, head_tail}
use msys_hal.Linux.{Sysfs}
use msys_hal.Radios.{Unicode, attribute_text, attribute_int, or_empty, with_value}
use msys_hal.Radios.Lines.{split_lines, casefold, is_address}

abbrev pub wwan_prefixes : List String
wwan_prefixes = "wwan" ∷ "wwp" ∷ "rmnet" ∷ "ccmni" ∷ "pdp" ∷ []

-- `value == n` of an integer that may be missing and is not negative.
abbrev pub is_int : ℤ → Option ℤ → Bool
is_int n none = false
is_int n (some k) = pos_part k == pos_part n

-- `entry / name`, where the entry stands below the class directory.
abbrev pub below : String → String → String
below root entry = concat (root ∷ "/" ∷ entry ∷ [])

abbrev pub flag_value : Option ℤ → Option Value
flag_value none = none
flag_value (some n) = some (bool (not (is_int (pos 0) (some n))))

abbrev pub int_value : Option ℤ → Option Value
int_value none = none
int_value (some n) = some (int n)

-- `re.fullmatch(r"[a-z][a-z0-9_-]{0,31}", operstate)`
abbrev is_state_word : String → Bool
is_state_word s = head_tail is_lower (λ c. is_lower c || is_digit c || c == b'_' || c == b'-') 31 s

operstate_value : Option String → Option Value
operstate_value none = none
operstate_value (some s) = if is_state_word s then some (str s) else none

-- `if address and MAC_RE.fullmatch(address)`
unfoldable pub address_value : Option String → Option Value
unfolding is_address
address_value none = none
address_value (some s) = if is_address 5 31 s then some (str (casefold s)) else none

module _ (u : Unicode) (root : String) where
  -- `_classify_interface`
  unfoldable pub classify : String → Sysfs → String
  classify name s =
      let interface_type = attribute_int u s root name "type" (pos 0) (pos 65535) in
      let uevent = split_lines (or_empty (attribute_text u s root name "uevent" 2048)) in
      if name == "lo" || is_int (pos 772) interface_type
      then "loopback"
      else if s.is_dir (below root name) "wireless" || member "DEVTYPE=wlan" uevent
      then "wifi"
      else if s.is_dir (below root name) "wwan"
          || member "DEVTYPE=wwan" uevent
          || any (λ p. starts_with (casefold name) p) wwan_prefixes
      then "wwan"
      else if is_int (pos 1) interface_type
      then "ethernet"
      else "other"

  -- `_interface_values`
  unfoldable pub interface_values : String → Sysfs → Fields
  unfolding classify operstate_value address_value
  interface_values name s = field "interface" (str name) (
      field "kind" (str (classify name s)) (
        with_value "operstate" (operstate_value (attribute_text u s root name "operstate" 32)) (
          with_value "carrier" (flag_value (attribute_int u s root name "carrier" (pos 0) (pos 1)))
            (with_value "address" (address_value (attribute_text u s root name "address" 128)) (
              with_value "mtu"
                (int_value (attribute_int u s root name "mtu" (pos 68) (pos (2 ^ 31 - 1)))) end)))))
