-- ===== src/Radios/Control/Sockets.antt =====
-- `WpaSupplicantControl` of radios.py: one datagram to the control socket of an interface, and the
-- answer.
pub mod Closed
pub mod Raised
use msys_hal.Prelude.{
  ℕ, ◌+◌, ◌*◌, String, Bool, not, ◌&&◌, ◌||◌, List, [], ◌∷◌, leb, length, any, all_chars, len,
  concat, member, if◌then◌else◌, ◌==◌, string_eq, nat_eq,
}
use msys_hal.Json.{Fields, field, end, str}
use msys_hal.Errors.{
  Exception, hal, python, Result, ok, err, validation_error, unavailable_error, provider_error,
}
use msys_hal.Action.{Action, pure, gets_result, guard, ◌>>=◌, ◌>>◌}
use msys_hal.Validation.Patterns.{is_alnum}
use msys_hal.Linux.{entry_re, strip}
use msys_hal.Radios.Control.{Control}
use msys_hal.Radios.Lines.{utf8}

-- The calls on sockets and on the file system; a socket is known by its descriptor, a path by
-- the interface that it belongs to. `is_socket` is
-- `stat.S_ISSOCK` of what `lstat` finds at an interface's path, and no for an `OSError`.
pub record Sockets (S : Type 0) : Type 0 where
  pub is_socket : String → S → Bool
  pub create : Action S ℕ
  pub settimeout : ℕ → Action S (Unit {0})
  pub token : Action S String
  pub bind : ℕ → String → Action S (Unit {0})
  pub connect : ℕ → String → Action S (Unit {0})
  pub send : ℕ → List ℕ → Action S ℕ
  pub recv : ℕ → ℕ → Action S (List ℕ)
  pub close : ℕ → Action S (Unit {0})

-- `MAX_WPA_RESPONSE`
abbrev pub max_wpa_response : ℕ
max_wpa_response = 64 * 1024

-- `[A-Za-z0-9_-]{1,32}` under `fullmatch`
unfoldable pub is_token : String → Bool
is_token s =
    (leb 1 (len s) && leb (len s) 32) && all_chars (λ c. is_alnum c || (c == b'_' || c == b'-')) s

-- The commands that `request` sends.
unfoldable pub is_command : String → Bool
is_command command =
    not (command == "")
    && (leb (length (utf8 command)) 4096
        && all_chars (λ c. not (c == 0) && (not (c == 10) && not (c == 13))) command)

pub interface_details : String → Fields
interface_details interface = field "interface" (str interface) end

-- `OSError` and the classes below it.
abbrev pub is_os_error : String → Bool
is_os_error name = member name (
    "OSError" ∷ "FileNotFoundError" ∷ "PermissionError" ∷ "IsADirectoryError" ∷ "NotADirectoryError"
    ∷ "InterruptedError" ∷ "BlockingIOError" ∷ "FileExistsError" ∷ "ProcessLookupError"
    ∷ "ChildProcessError" ∷ "TimeoutError" ∷ "ConnectionError" ∷ "BrokenPipeError"
    ∷ "ConnectionAbortedError" ∷ "ConnectionRefusedError" ∷ "ConnectionResetError" ∷ [])

-- `except HalError: raise` and `except (OSError, TimeoutError)`
pub convert : String → Exception → Exception
unfolding interface_details
convert interface (hal e) = hal e
convert interface (python name text) =
    if is_os_error name
    then unavailable_error "wpa_supplicant control request failed" (interface_details interface)
    else python name text

module _ {S : Type 0} (k : Sockets S) (replacing : List ℕ → String) where
  -- `_path`: nothing but the check of the name.
  check_path : String → Action S (Unit {0})
  check_path interface =
      guard (entry_re interface) (validation_error "network interface is invalid" end)

  -- `available`
  unfoldable pub available : String → S → Result Bool
  available interface s =
      if entry_re interface
      then ok (k.is_socket interface s)
      else err (validation_error "network interface is invalid" end)

  -- The body of the `try` behind the creation of the socket.
  pub converse : ℕ → String → String → Action S (List ℕ)
  converse socket interface command = do
    k.settimeout socket
    token ← k.token
    guard (is_token token) (provider_error "wpa_supplicant client token is invalid" end)
    k.bind socket (concat ("\0msys-hal-wpa-" ∷ token ∷ []))
    k.connect socket interface
    sent ← k.send socket (utf8 command)
    guard (sent == length (utf8 command)) (python "OSError" "short datagram send")
    k.recv socket (max_wpa_response + 1)

  -- `finally`: an `OSError` of `close` is passed over.
  pub end_with : Result (List ℕ) → Result (Unit {0}) × S → Result (List ℕ) × S
  end_with r (ok u, s) = (r, s)
  end_with r (err (hal e), s) = (err (hal e), s)
  end_with r (err (python name text), s) =
      (if is_os_error name then r else err (python name text), s)

  pub converted : String → Result (List ℕ) → Result (List ℕ)
  unfolding convert
  converted interface (ok response) = ok response
  converted interface (err e) = err (convert interface e)

  -- The `try`, from the creation of the socket to the `finally`.
  pub exchange_over : String → String → Result ℕ → Action S (List ℕ)
  unfolding converse end_with converted convert
  exchange_over interface command (err e) s = (err (convert interface e), s)
  exchange_over interface command (ok socket) s =
      let (r, s') = converse socket interface command s in
      end_with (converted interface r) (k.close socket s')

  pub exchange : String → String → Action S (List ℕ)
  unfolding exchange_over
  exchange interface command s =
      let (made, s') = k.create s in exchange_over interface command made s'

  -- `request`
  unfoldable pub request : String → String → Action S String
  unfolding check_path exchange available interface_details
  request interface command = do
    check_path interface
    guard (is_command command) (validation_error "wpa_supplicant command is invalid" end)
    ready ← gets_result (available interface)
    guard ready
        (unavailable_error "wpa_supplicant control is unavailable" (interface_details interface))
    response ← exchange interface command
    guard (leb (length response) max_wpa_response && not (any (λ b. b == 0) response))
        (provider_error "wpa_supplicant returned an invalid response" end)
    pure (strip (replacing response))

  -- `WpaSupplicantControl` as a `WifiControl`
  unfoldable pub wpa_supplicant_control : Control S
  unfolding request available
  wpa_supplicant_control = record { available = available; request = request }
