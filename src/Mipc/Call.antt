-- ===== src/Mipc/Call.antt =====
-- `PublicGateway.call` of mipc.py: one call over the public control socket. The clock counts
-- nanoseconds and the timeout milliseconds.
pub mod Answers
use msys_hal.Prelude.{
  ℕ, ◌+◌, ◌/◌, ◌*◌, String, Bool, not, ◌&&◌, Option, none, some, List, [], ◌∷◌, ◌++◌, leb, len,
  ◌==◌, string_eq,
}
use Prim.Native.Nat.{min, max}
use msys_hal.Json.{Value, bool, int, str, obj, Fields, field, end}
use msys_hal.Json.Int.{pos}
use msys_hal.Errors.{python, Result, ok, err, ◌>>=◌, ◌>>◌, require, validation_error}
use msys_hal.Mipc.Packet.{Bytes, newline, Codec, encode_packet}
use msys_hal.Mipc.Line.{Arrival, recv_line}

-- The other end of the socket: whether `connect` or `sendall` raises an `OSError`, what it says
-- first, and what it answers to the bytes that it is sent.
pub record Peer : Type 0 where
  pub refuses : Option String
  pub greeting : List Arrival
  pub cuts : Bytes → Option String
  pub answer : Bytes → List Arrival

-- The call's arguments.
pub record Outgoing : Type 0 where
  pub target : String
  pub method : String
  pub payload : Fields
  pub timeout_ms : ℕ
  pub idempotent : Bool

-- `min(max(float(timeout), 0.05), 30.0)`
abbrev pub bounded_timeout : ℕ → ℕ
bounded_timeout timeout_ms = min (max timeout_ms 50) 30000

-- `int(time.monotonic() * 1000 + timeout * 1000)`
unfoldable pub deadline_of : ℕ → ℕ → ℕ
deadline_of now timeout_ms = (now + bounded_timeout timeout_ms * 1000000) / 1000000

unfoldable pub request_message : ℕ → Outgoing → Value
request_message now out = obj (
    field "type" (str "call") (
      field "id" (int (pos 1)) (
        field "target" (str out.target) (
          field "method" (str out.method) (
            field "payload" (obj out.payload) (
              field "deadline_ms" (int (pos (deadline_of now out.timeout_ms)))
                (field "idempotent" (bool out.idempotent) end)))))))

-- `sock.sendall(packet + b"\n")` and the line that comes back.
exchange : Codec → Peer → List Arrival → Bytes → Option (Result Value)
exchange codec peer rest packet = elim (peer.cuts (packet ++ newline ∷ [])) [
  | some name ↦ some (err (python name ""))
  | none ↦ (recv_line codec (rest ++ peer.answer (packet ++ newline ∷ []))).0
]

-- Behind the greeting.
send_request : Codec → Peer → Value → Option (Result Value) × List Arrival → Option (Result Value)
unfolding exchange
send_request codec peer message (none, rest) = none
send_request codec peer message (some (err e), rest) = some (err e)
send_request codec peer message (some (ok greeting), rest) = elim (encode_packet codec message) [
  | err e ↦ some (err e)
  | ok packet ↦ exchange codec peer rest packet
]

converse : Codec → Peer → Value → Option (Result Value)
unfolding send_request
converse codec peer message = elim peer.refuses [
  | some name ↦ some (err (python name ""))
  | none ↦ send_request codec peer message (recv_line codec peer.greeting)
]

unfoldable pub check_call : Outgoing → Result (Unit {0})
check_call out = do
  require (not (out.target == "") && leb (len out.target) 256)
      (validation_error "mIPC target is invalid" end)
  require (not (out.method == "") && leb (len out.method) 96)
      (validation_error "mIPC method is invalid" end)

-- `call`; `none` where `_recv_line` has too few rounds.
unfoldable pub call : Codec → Peer → ℕ → Outgoing → Option (Result Value)
unfolding check_call converse
call codec peer now out = elim (check_call out) [
  | err e ↦ some (err e)
  | ok u ↦ converse codec peer (request_message now out)
]
