-- ===== src/Tests/Panels.antt =====
-- The theorems on the provider, with a sysfs of one display of 200 levels.
use msys_hal.Prelude.{
  ℕ, ◌+◌, ◌*◌, ◌-◌, ◌≤◌, ◌≡◌, ◌⊎◌, refl, String, true, Option, none, some, List, [], ◌∷◌, length,
  ◌==◌, nat_eq, string_eq, if◌then◌else◌, decimal, arith,
}
use Prim.Native.String.{char_at}
use msys_hal.Json.{Value, obj, Fields, field, end, str, int, field_or, null}
use msys_hal.Json.Int.{pos}
use msys_hal.Errors.{ok}
use msys_hal.Validation.Payload.{device_id, integer, capability}
use msys_hal.Validation.Patterns.{device_id_re, capability_re}
use msys_hal.Linux.{
  Sysfs, entries, entry_re, name_from_id, read_int, read_text, parse_int, state_value,
}
use msys_hal.Linux.Numbers.{
  round_div, brightness_of, percent_of, percent_of-le, percent_of-brightness_of, round_div_nearest,
}
use msys_hal.Linux.Attribute.{Platform, wrote, safe_write, is_writable, is_allowed, read_level}
use msys_hal.Linux.Backlight.{set_state, get_state, request, entry_of, has_setting, values_of}
use msys_hal.Linux.Backlight.Writes.{IsWrite}
use msys_hal.Linux.Backlight.Verified.{IsDone, set_state-IsDone}
use msys_hal.Linux.Display.{layout_request}
use msys_hal.Linux.Display.Layouts.{IsLayout, layout_request-IsLayout}
use msys_hal.Provider.{Service}
use msys_hal.Provider.Construct.{capabilities_of}
use msys_hal.Provider.Construct.Capabilities.{IsOffer, capabilities_of-IsOffer}
use msys_hal.Provider.Handle.{handle}
use msys_hal.Provider.Handle.Routing.{IsChange, handle-IsChange}
use msys_hal.Provider.Classes.{Roots, backlight, power, is_backlight, is_power, handle-IsWrite}

decode_digits : List ℕ → String
decode_digits [] = String.[]
decode_digits (b ∷ bytes) =
    String.◌∷◌ (if b == 10 then char_at "\n" 0 else char_at "0123456789" (b - 48))
      (decode_digits bytes)

-- `200`, a line feed; and 100.
abbrev shown : String → Option (List ℕ)
shown attribute =
    if attribute == "max_brightness"
    then some (50 ∷ 48 ∷ 48 ∷ 10 ∷ [])
    else if attribute == "brightness"
    then some (49 ∷ 48 ∷ 48 ∷ 10 ∷ [])
    else none

sysfs : Sysfs
sysfs = record {
  listing = λ root. some ("panel" ∷ []);
  is_dir = λ root entry. true;
  contents = λ root entry attribute. shown attribute;
  root_target = λ root. some ("sys" ∷ "class" ∷ "backlight" ∷ []);
  target = λ root entry attribute. some ("sys" ∷ "devices" ∷ "panel" ∷ "brightness" ∷ []);
  mode = λ path. some 420;
  access = λ path. true;
}

platform : Platform
platform = record {
  decode = λ bytes. some (decode_digits bytes);
  repr = λ text. text;
  write = λ path bytes s. (
    wrote (length bytes),
    record s {
      contents = λ root entry attribute.
          if attribute == "brightness" then some bytes else s.contents root entry attribute;
    },
  );
}

abbrev root : String
root = "/sys/class/backlight"

-- `{"brightness_percent": 75}`
abbrev three_quarters : Fields
three_quarters = field "brightness_percent" (int (pos 75)) end

abbrev bright : Value
bright =
    state_value "backlight:panel" "backlight" (values_of platform root 150 200 none)
      ("brightness" ∷ "brightness_percent" ∷ [])

answers : (set_state platform root "backlight:panel" three_quarters sysfs).0 ≡ ok bright
unfolding set_state platform sysfs decode_digits device_id device_id_re request safe_write get_state
    entry_of is_writable is_allowed has_setting read_level read_int read_text parse_int entries
    entry_re name_from_id integer decimal round_div
answers = refl

abbrev roots : Roots
roots = record {
  power_root = "/sys/class/power_supply";
  thermal_root = "/sys/class/thermal";
  backlight_root = root;
}

abbrev service : Service Sysfs
service = record {
  backends = ("backlight", backlight platform roots) ∷ ("power", power platform roots) ∷ [];
  provider_id = "org.msys.hal.linux:provider";
  name = "Linux safe provider";
  version = "0.1.0";
  capabilities = [];
}

abbrev change_request : Fields
change_request = field "id" (str "backlight:panel") (field "changes" (obj three_quarters) end)

set_state-IsDone_example :
    IsDone platform root "backlight:panel" three_quarters sysfs
      (set_state platform root "backlight:panel" three_quarters sysfs).1
      bright
set_state-IsDone_example =
    set_state-IsDone platform root "backlight:panel" three_quarters sysfs bright answers

handle-IsWrite_example :
    ((handle platform.repr service "set_state" change_request sysfs).1 ≡ sysfs)
    ⊎ ((◌≡◌ {A = String} "set_state" "set_state")
        × (identifier : String) × (device_id (field_or null "id" change_request) "id"
            ≡ ok identifier)
        × IsWrite platform root identifier sysfs
            (handle platform.repr service "set_state" change_request sysfs).1)
handle-IsWrite_example =
    handle-IsWrite platform roots service "set_state" change_request sysfs
      (is_backlight, (is_power, tt))

handle-IsChange_example :
    ((handle platform.repr service "set_state" change_request sysfs).1 ≡ sysfs)
    ⊎ ((◌≡◌ {A = String} "set_state" "set_state")
        × IsChange service change_request sysfs
            (handle platform.repr service "set_state" change_request sysfs).1)
handle-IsChange_example =
    handle-IsChange platform.repr service
      (
        record { inventory_keeps = λ s. refl; get_state_keeps = λ i s. refl },
        (record { inventory_keeps = λ s. refl; get_state_keeps = λ i s. refl }, tt),
      )
      "set_state" change_request sysfs

capabilities_of-IsOffer_example :
    IsOffer
      ("power" ∷ [])
      ("power.battery" ∷ [])
      ("power.battery" ∷ "power.inventory" ∷ "power.state.read" ∷ [])
unfolding capabilities_of capability capability_re decimal
capabilities_of-IsOffer_example =
    capabilities_of-IsOffer (λ text. text) ("power" ∷ []) (some ("power.battery" ∷ []))
      ("power.battery" ∷ "power.inventory" ∷ "power.state.read" ∷ []) refl

percent_of-brightness_of_example : percent_of (brightness_of 33 255) 255 ≡ 33
percent_of-brightness_of_example = percent_of-brightness_of 33 255 (omega arith) (omega arith)

percent_of-le_example : percent_of 254 255 ≤ 100
percent_of-le_example = percent_of-le 254 255 (omega arith) (omega arith)

round_div_nearest_example :
    (2 * (round_div 25400 255 * 255) ≤ 2 * 25400 + 255)
    × (2 * 25400 ≤ 2 * (round_div 25400 255 * 255) + 255)
round_div_nearest_example = round_div_nearest 25400 255 (omega arith)

-- `{"mode": "kiosk", "insets": "auto"}`
abbrev kiosk : Fields
kiosk = field "mode" (str "kiosk") (field "insets" (str "auto") end)

layout_request-IsLayout_example :
    IsLayout "display:primary" kiosk
      (field "profile" (str "kiosk") (field "insets" (str "auto") end))
unfolding layout_request device_id device_id_re
layout_request-IsLayout_example =
    layout_request-IsLayout "display:primary" kiosk
      (field "profile" (str "kiosk") (field "insets" (str "auto") end)) refl
