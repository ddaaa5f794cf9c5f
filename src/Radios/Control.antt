-- ===== src/Radios/Control.antt =====
-- The control channel of wpa_supplicant: the protocol `WifiControl` of radios.py, and its
-- implementation `WpaSupplicantControl` over datagram sockets.
pub mod Sockets
use msys_hal.Prelude.{String, Bool}
use msys_hal.Errors.{Result}
use msys_hal.Action.{Action}

-- `WifiControl`. Asking whether an interface has a control socket changes nothing.
pub record Control (S : Type 0) : Type 0 where
  pub available : String → S → Result Bool
  pub request : String → String → Action S String
