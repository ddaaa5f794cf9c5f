-- ===== src/Mipc/Server/Startup.antt =====
-- `ComponentServer.event`, and what `run` does in front of its loop, in mipc.py.
use msys_hal.Prelude.{
  ℕ, String, Bool, false, not, ◌&&◌, ◌||◌, Option, none, some, List, [], ◌∷◌, leb, len, ◌==◌,
  string_eq, if◌then◌else◌,
}
use msys_hal.Json.{Value, int, str, obj, Fields, field, end, field_or, null, is_text}
use msys_hal.Json.Int.{pos}
use msys_hal.Errors.{python, Result, ok, err, require, validation_error}
use msys_hal.Mipc.Packet.{Codec, decode_packet}
use msys_hal.Mipc.Server.{Wire, send, Incoming, nothing, packet, broken}

abbrev pub Sending : Type 0
Sending = Result (Unit {0}) × List Value

-- What is sent next, unless an exception has been raised.
and_then : Sending → (List Value → Sending) → Sending
and_then (ok u, sent) next = next sent
and_then (err e, sent) next = (err e, sent)

unfoldable pub event_message : String → Fields → Value
event_message topic payload =
    obj (field "type" (str "event") (field "topic" (str topic) (field "payload" (obj payload) end)))

-- `event`
unfoldable pub event : Codec → Wire → String → Fields → List Value → Sending
event codec wire topic payload sent =
    if not (topic == "") && leb (len topic) 128
    then send codec wire (event_message topic payload) sent
    else (err (validation_error "event topic is invalid" end), sent)

-- `PacketTransport.recv`
unfoldable pub recv_message : Codec → Incoming → Result Value
recv_message codec nothing = ok (obj (field "type" (str "eof") end))
recv_message codec (broken name) = err (python name "")
recv_message codec (packet bytes) = decode_packet codec bytes

unfoldable pub hello : String → ℕ → Value
hello component generation = obj (
    field "type" (str "hello")
      (field "component" (str component) (field "generation" (int (pos generation)) end)))

unfoldable pub ready : Value
ready = obj (field "type" (str "ready") end)

is_welcome : Value → Bool
is_welcome (obj fs) =
    is_text "welcome" (field_or null "type" fs) || is_text "return" (field_or null "type" fs)
is_welcome v = false

pub check_welcome : Result Value → Result (Unit {0})
unfolding is_welcome
check_welcome (err e) = err e
check_welcome (ok welcome) =
    require (is_welcome welcome) (python "RuntimeError" "msysd did not accept HAL component hello")

send_event : Codec → Wire → Option (String × Fields) → List Value → Sending
send_event codec wire none sent = (ok tt, sent)
send_event codec wire (some (topic, payload)) sent = event codec wire topic payload sent

-- `run` in front of its loop: `answer` is what the first `recv` brings in.
unfoldable pub start_up :
    Codec → Wire → String → ℕ → Incoming → Option (String × Fields) → List Value → Sending
unfolding and_then check_welcome send_event
start_up codec wire component generation answer ready_event sent =
    and_then (send codec wire (hello component generation) sent) λ greeted.
      and_then (check_welcome (recv_message codec answer), greeted)
        λ welcomed. and_then (send codec wire ready welcomed) (send_event codec wire ready_event)

abbrev pub events_of : Option (String × Fields) → List Value
events_of none = []
events_of (some (topic, payload)) = event_message topic payload ∷ []
