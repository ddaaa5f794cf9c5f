-- ===== src/Tests/Radios.antt =====
-- The theorems on the radios, with a supplicant that does not select the network that it has added,
-- sockets on which nothing comes in, and a Bluetooth radio that follows its soft block.
use msys_hal.Prelude.{
  ℕ, suc, ◌-◌, ◌≡◌, ◌⊎◌, refl, String, true, false, Option, none, some, List, [], ◌∷◌, ◌++◌, All,
  length, drop, ◌==◌, nat_eq, string_eq, if◌then◌else◌,
}
use mathlib.Core.Path.{subst}
use Prim.Native.String.{char_at}
use msys_hal.Json.{Value, bool, str, Fields, field, end}
use msys_hal.Errors.{Exception, python, ok, err}
use msys_hal.Linux.{Sysfs, entry_re, read_text, read_int, parse_int}
use msys_hal.Linux.Attribute.{wrote, codes}
use msys_hal.Radios.{Unicode, device_name_of, class_entries, radio_state}
use msys_hal.Radios.Control.Sockets.{Sockets, request}
use msys_hal.Radios.Control.Sockets.Closed.{Tracks, request-Clean}
use msys_hal.Radios.Control.Sockets.Raised.{OnlyOs, IsOs}
use msys_hal.Radios.Network.{Surroundings, key, connect_new}
use msys_hal.Radios.Network.Requests.{entry_at}
use msys_hal.Radios.Network.Backend.{get_state, set_state}
use msys_hal.Radios.Network.Trace.{Trace, logged, sent}
use msys_hal.Radios.Network.Rollback.{IsRollback, connect_new-IsRollback}
use msys_hal.Radios.Network.Conversation.{IsAdmitted, Conversation, set_state-Conversation}
use msys_hal.Radios.Network.Commands.{IsCommand}
use msys_hal.Radios.Network.Commands.Sent.{set_state-AreCommands}
use msys_hal.Radios.Network.Degraded.{over_sockets, get_state-IsReturned}
use msys_hal.Radios.Bluetooth.{Platform, radio_values}
use msys_hal.Radios.Bluetooth
use msys_hal.Radios.Bluetooth.Switch
use msys_hal.Radios.Bluetooth.Switch.{Plan}
use msys_hal.Radios.Bluetooth.Switch.Verified.{
  IsPlanned, IsSwitched, written_by, set_state-IsSwitch, set_state-IsSwitched,
}

abbrev table : String
table =
    " !\"#$%&'()*+,-./0123456789:;<=>?@ABCDEFGHIJKLMNOPQRSTUVWXYZ[\\]^_`abcdefghijklmnopqrstuvwxyz{|}~"

decode_ascii : List ℕ → String
decode_ascii [] = String.[]
decode_ascii (b ∷ bytes) =
    String.◌∷◌ (if b == 10 then char_at "\n" 0 else char_at table (b - 32)) (decode_ascii bytes)

unicode : Unicode
unicode = record {
  decode = λ bytes. some (decode_ascii bytes);
  replacing = λ bytes. decode_ascii bytes;
  is_printable = λ c. true;
}

-- One Wi-Fi interface.
wifi : Sysfs
wifi = record {
  listing = λ root. some ("wlan0" ∷ []);
  is_dir = λ root entry. true;
  contents = λ root entry attribute. none;
  root_target = λ root. none;
  target = λ root entry attribute. none;
  mode = λ path. none;
  access = λ path. false;
}

abbrev answer_to : String → String
answer_to command =
    if command == "LIST_NETWORKS"
    then "network id / ssid / bssid / flags\n0\told\tany\t"
    else if command == "ADD_NETWORK"
    then "1"
    else if command == "SELECT_NETWORK 1"
    then "FAIL"
    else "OK"

-- The state counts the requests.
surroundings : Surroundings ℕ
surroundings = record {
  unicode = unicode;
  control = record {
    available = λ interface s. ok true;
    request = λ interface command s. (ok (answer_to command), suc s);
  };
  sysfs = λ s. wifi;
  root = "/sys/class/net";
}

abbrev connect_cafe : Fields
connect_cafe =
    field "action" (str "connect")
      (field "ssid" (str "cafe") (field "psk" (str "se\"cret\\99") end))

connect_new-IsRollback_example :
    IsRollback surroundings "wlan0" "cafe"
      (key "se\"cret\\99")
      0
      (connect_new surroundings "wlan0" "cafe" (key "se\"cret\\99") 0)
connect_new-IsRollback_example =
    connect_new-IsRollback surroundings "wlan0" "cafe" (key "se\"cret\\99") 0

set_state-Conversation_example :
    ((e : Exception) × (set_state (logged surroundings) "network:wlan0" connect_cafe (0, [])
        ≡ (err e, (0, []))))
    ⊎ ((name : String) × (action : String) × IsAdmitted surroundings "network:wlan0" connect_cafe 0
          name action
        × Trace name
            (set_state (logged surroundings) "network:wlan0" connect_cafe)
            (Conversation surroundings name 0 connect_cafe action)
            0
            [])
set_state-Conversation_example =
    set_state-Conversation surroundings "network:wlan0" connect_cafe 0 []

set_state-AreCommands_example :
    (name : String) × (commands : List String) × ((set_state
        (logged surroundings)
        "network:wlan0"
        connect_cafe
        (0, [])).1.1
      ≡ [] ++ sent name commands)
    × All IsCommand commands
set_state-AreCommands_example = set_state-AreCommands surroundings "network:wlan0" connect_cafe 0 []

-- Sockets on which `recv` runs into its timeout; the state lists the open ones.
sockets : Sockets (List ℕ)
sockets = record {
  is_socket = λ interface s. true;
  create = λ s. (ok 3, 3 ∷ s);
  settimeout = λ d s. (ok tt, s);
  token = λ s. (ok "0123456789abcdef", s);
  bind = λ d address s. (ok tt, s);
  connect = λ d interface s. (ok tt, s);
  send = λ d bytes s. (ok (length bytes), s);
  recv = λ d size s. (err (python "TimeoutError" "timed out"), s);
  close = λ d s. (ok tt, drop 1 s);
}

tracked : Tracks sockets (λ s. s ≡ []) (λ d s. s ≡ d ∷ [])
unfolding sockets
tracked = record {
  create_opens = λ s d clean q. let same : 3 ≡ d = cc in rw (clean, same) refl;
  create_fails = λ s e clean q. absurd cc;
  settimeout_keeps = λ d s h. h;
  token_keeps = λ d s h. h;
  bind_keeps = λ d a s h. h;
  connect_keeps = λ d a s h. h;
  send_keeps = λ d b s h. h;
  recv_keeps = λ d n s h. h;
  close_cleans = λ d s h. rw h refl;
}

request-Clean_example : (request sockets decode_ascii "wlan0" "STATUS" []).1 ≡ []
request-Clean_example = (request-Clean sockets decode_ascii tracked "wlan0" "STATUS").keeps [] refl

only_os : OnlyOs sockets
unfolding sockets
only_os = record {
  create_os = record { raises = λ s e q. absurd cc };
  settimeout_os = λ d. record { raises = λ s e q. absurd cc };
  token_os = record { raises = λ s e q. absurd cc };
  bind_os = λ d a. record { raises = λ s e q. absurd cc };
  connect_os = λ d a. record { raises = λ s e q. absurd cc };
  send_os = λ d b. record { raises = λ s e q. absurd cc };
  recv_os = λ d n. record {
    raises = λ s e q. let same : python "TimeoutError" "timed out" ≡ e = cc in subst IsOs same refl;
  };
  close_os = λ d. record { raises = λ s e q. absurd cc };
}

abbrev over : Surroundings (List ℕ)
over = over_sockets sockets unicode (λ s. wifi) "/sys/class/net"

is_listed : entry_at over "network:wlan0" [] ≡ ok "wlan0"
unfolding over_sockets wifi entry_at device_name_of class_entries entry_re
is_listed = refl

get_state-IsReturned_example : (v : Value) × ((get_state over "network:wlan0" []).0 ≡ ok v)
get_state-IsReturned_example =
    get_state-IsReturned sockets unicode (λ s. wifi) "/sys/class/net" only_os "network:wlan0"
      "wlan0" [] is_listed

-- A radio whose soft block holds `soft`.
abbrev shown : List ℕ → String → Option (List ℕ)
shown soft attribute =
    if attribute == "type"
    then some (codes "bluetooth\n")
    else if attribute == "soft"
    then some soft
    else if attribute == "hard"
    then some (codes "0\n")
    else none

radio_with : List ℕ → Sysfs
radio_with soft = record {
  listing = λ root. if root == "/sys/class/rfkill" then some ("rfkill0" ∷ []) else some [];
  is_dir = λ root entry. true;
  contents = λ root entry attribute. shown soft attribute;
  root_target = λ root. none;
  target = λ root entry attribute. none;
  mode = λ path. none;
  access = λ path. false;
}

platform : Platform
platform = record {
  unicode = unicode;
  controller_root = "/sys/class/bluetooth";
  rfkill_root = "/sys/class/rfkill";
  is_file = λ root entry attribute s. true;
  access = λ root entry attribute s. true;
  write = λ root entry attribute bytes s. (wrote (length bytes), radio_with bytes);
}

blocked : Sysfs
blocked = radio_with (codes "1\n")

abbrev power_on : Fields
power_on = field "powered" (bool true) end

abbrev powered_state : Value
powered_state =
    radio_state "bluetooth" "rfkill0" (radio_values platform "rfkill0" (radio_with (codes "0\n")))
      ("powered" ∷ [])

answers :
    Switch.set_state platform "bluetooth:rfkill0" power_on blocked
    ≡ (ok powered_state, radio_with (codes "0\n"))
unfolding Switch.set_state Switch.plan_of Switch.powered_of Switch.writable_radio
    Switch.default_write Bluetooth.resolve Bluetooth.get_state Bluetooth.radio_values
    Bluetooth.soft_of Bluetooth.hard_of Bluetooth.radios Bluetooth.controllers
    Bluetooth.is_controller Bluetooth.is_switchable Bluetooth.default_writable Bluetooth.radio_of
    platform blocked radio_with unicode decode_ascii device_name_of class_entries entry_re read_text
    read_int parse_int radio_state
answers = refl

set_state-IsSwitch_example :
    ((Switch.set_state platform "bluetooth:rfkill0" power_on blocked).1 ≡ blocked)
    ⊎ ((plan : Plan) × IsPlanned platform "bluetooth:rfkill0" power_on blocked plan
        × ((Switch.set_state platform "bluetooth:rfkill0" power_on blocked).1
            ≡ written_by platform plan blocked))
set_state-IsSwitch_example = set_state-IsSwitch platform "bluetooth:rfkill0" power_on blocked

set_state-IsSwitched_example :
    IsSwitched platform "bluetooth:rfkill0" power_on blocked
      (radio_with (codes "0\n"))
      powered_state
set_state-IsSwitched_example =
    set_state-IsSwitched platform "bluetooth:rfkill0" power_on blocked (radio_with (codes "0\n"))
      powered_state answers
