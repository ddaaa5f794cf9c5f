-- ===== src/Mipc/Server.antt =====
-- `PacketTransport.send`, and `_accept`, `_dispatch` and the loop of `run` of `ComponentServer` in
-- mipc.py. The handler is the component's; what it does to its own state is not seen here.
pub mod Dispatch
pub mod Steps
pub mod Startup
use msys_hal.Prelude.{
  ℕ, zero, suc, ◌+◌, ◌*◌, ◌-◌, ◌^◌, String, Bool, true, false, not, ◌&&◌, ◌||◌, Option, none, some,
  List, [], ◌∷◌, ◌++◌, leb, len, prefix, if◌then◌else◌, ◌==◌, string_eq, length, ◌<◌, ◌≡◌,
}
use msys_hal.Json.{Value, null, int, str, obj, Fields, field, end, get_field, field_or, is_text}
use msys_hal.Json.Int.{pos, leb_ℤ}
use msys_hal.Errors.{
  Exception, hal, HalError, python, Result, ok, err, ◌>>=◌, ◌>>◌, require, hal_error,
  validation_error,
}
use msys_hal.Validation.Bounded.{ensure_bounded_json}
use msys_hal.Validation.Payload.{integer}
use msys_hal.Mipc.Packet.{Bytes, Codec, encode_packet, decode_packet}

-- Whether `sendall` raises an `OSError` behind the messages sent so far, the newest first.
abbrev pub Wire : Type 0
Wire = List Value → Option String

-- `PacketTransport.send`, with the messages sent before and after it.
unfoldable pub send : Codec → Wire → Value → List Value → Result (Unit {0}) × List Value
send codec wire message sent = elim (encode_packet codec message) [
  | err e ↦ (err e, sent)
  | ok packet ↦ elim (wire sent) [
    | some name ↦ (err (python name ""), sent)
    | none ↦ (ok tt, message ∷ sent)
  ]
]

-- A call that has been admitted.
pub record Job : Type 0 where
  pub id : ℕ
  pub message : Fields

abbrev pub Handler : Type 0
Handler = String → Fields → Result Value

check_deadline : ℕ → Option Value → Result (Unit {0})
check_deadline now none = ok tt
check_deadline now (some null) = ok tt
check_deadline now (some v) = do
  deadline ← integer v "deadline_ms" (pos 0) (pos (2 ^ 63 - 1))
  require (not (leb_ℤ deadline (pos now)))
      (hal_error "CALL_TIMEOUT" "call deadline already expired" end)

method_of : Value → Result String
method_of (str method) = do
  require (not (method == "") && leb (len method) 96) (validation_error "method is invalid" end)
  ok method
method_of v = err (validation_error "method is invalid" end)

payload_of : Value → Result Fields
payload_of (obj payload) = ok payload
payload_of v = err (validation_error "payload must be an object" end)

result_of : Value → Result Fields
result_of (obj result) = ok result
result_of v = err (python "RuntimeError" "HAL handler returned a non-object")

-- The `try` of `_dispatch` up to the answer; the clock counts milliseconds.
unfoldable pub work : Handler → ℕ → Fields → Result Fields
unfolding check_deadline method_of payload_of result_of
work handler now message = do
  check_deadline now (get_field "deadline_ms" message)
  method ← method_of (field_or null "method" message)
  payload ← payload_of (field_or (obj end) "payload" message)
  ensure_bounded_json (record { label = "payload"; max_depth = 8; max_items = 1024 }) (obj payload)
  answer ← handler method payload
  result ← result_of answer
  ensure_bounded_json (record { label = "result"; max_depth = 8; max_items = 2048 }) (obj result)
  ok result

abbrev response : String → ℕ → Fields → Value
response type id rest = obj (field "type" (str type) (field "id" (int (pos id)) rest))

unfoldable pub return_message : ℕ → Fields → Value
return_message id result = response "return" id (field "payload" (obj result) end)

-- `if exc.details: error["payload"] = exc.details`
details_field : Fields → Fields
details_field end = end
details_field (field k v rest) = field "payload" (obj (field k v rest)) end

unfoldable pub error_message : ℕ → HalError → Value
unfolding details_field
error_message id e = response "error" id (
    field "code" (str (prefix 64 e.code))
      (field "message" (str (prefix 512 e.message)) (details_field e.details)))

unfoldable pub internal_message : ℕ → Value
internal_message id = response "error" id (
    field "code" (str "HAL_INTERNAL_ERROR")
      (field "message" (str "HAL component internal error") end))

unfoldable pub busy_message : ℕ → Value
busy_message id = response "error" id (
    field "code" (str "HAL_BUSY") (field "message" (str "HAL component request limit reached") end))

-- The answer, or the exception that its making or its sending raises.
answer_job : Codec → Wire → Job → Result Fields → List Value → Result (Unit {0}) × List Value
answer_job codec wire job (err e) sent = (err e, sent)
answer_job codec wire job (ok result) sent = send codec wire (return_message job.id result) sent

-- The `except` clauses; what these raise ends the job.
rescue : Codec → Wire → Job → Result (Unit {0}) × List Value → List Value
rescue codec wire job (ok u, sent) = sent
rescue codec wire job (err (hal e), sent) = (send codec wire (error_message job.id e) sent).1
rescue codec wire job (err (python name text), sent) =
    (send codec wire (internal_message job.id) sent).1

-- `_dispatch`: what has been sent behind it.
unfoldable pub dispatch : Codec → Wire → Handler → ℕ → Job → List Value → List Value
unfolding rescue answer_job
dispatch codec wire handler now job sent =
    rescue codec wire job (answer_job codec wire job (work handler now job.message) sent)

-- `slots` counts what is left of the semaphore; `queued` waits for a thread, and `running` has one.
pub record Server : Type 0 where
  pub workers : ℕ
  pub slots : ℕ
  pub queued : List Job
  pub running : List Job
  pub sent : List Value
  pub stopping : Bool

-- `max(1, min(int(workers), 16))` and twice as many slots.
unfoldable pub init : ℕ → Server
init workers =
    let bounded = Prim.Native.Nat.max 1 (Prim.Native.Nat.min workers 16) in
    record {
      workers = bounded;
      slots = bounded * 2;
      queued = [];
      running = [];
      sent = [];
      stopping = false;
    }

-- An id that is no natural number counts as 0.
unfoldable pub request_id : Fields → ℕ
request_id message = elim (get_field "id" message) [ some (int (pos n)) ↦ n | _ ↦ 0 ]

-- Behind `acquire`, with the slots that it has found.
unfoldable pub admit : Codec → Wire → Fields → Server → ℕ → Result (Unit {0}) × Server
unfolding request_id
admit codec wire message s zero =
    let (outcome, sent) = send codec wire (busy_message (request_id message)) s.sent in
    (outcome, record s { sent = sent })
admit codec wire message s (suc left) = (
  ok tt,
  record s {
    slots = left;
    queued = s.queued ++ record { id = request_id message; message = message } ∷ [];
  },
)

-- `_accept`
unfoldable pub accept : Codec → Wire → Fields → Server → Result (Unit {0}) × Server
unfolding admit
accept codec wire message s = admit codec wire message s s.slots

-- What `sock.recv` of a packet ends with.
pub data Incoming : Type 0 where
  nothing : Incoming
  packet : Bytes → Incoming
  broken : String → Incoming

-- How a round of the loop of `run` ends.
pub data Ending : Type 0 where
  goes_on : Ending
  returns : Ending
  raises : Exception → Ending

-- The `finally` clause: what no thread has taken up is cancelled.
abbrev pub stop : Server → Server
stop s = record s { stopping = true; queued = [] }

after_accept : Result (Unit {0}) × Server → Ending × Server
after_accept (ok u, s) = (goes_on, s)
after_accept (err e, s) = (raises e, stop s)

abbrev has_message_type : String → Fields → Bool
has_message_type type message = is_text type (field_or null "type" message)

serve_message : Codec → Wire → Value → Server → Ending × Server
unfolding after_accept accept
serve_message codec wire (obj message) s =
    if has_message_type "eof" message || has_message_type "shutdown" message
    then (returns, stop s)
    else if has_message_type "call" message
    then after_accept (accept codec wire message s)
    else (goes_on, s)
serve_message codec wire v s = (goes_on, s)

-- A round of the loop of `run`, with what `recv` has brought.
unfoldable pub serve : Codec → Wire → Incoming → Server → Ending × Server
unfolding serve_message
serve codec wire nothing s = (returns, stop s)
serve codec wire (broken name) s = (raises (python name ""), stop s)
serve codec wire (packet bytes) s = elim (decode_packet codec bytes) [
  | err e ↦ (raises e, stop s)
  | ok message ↦ serve_message codec wire message s
]

-- The steps of the component's threads, in any order. The loop receives until it stops; a thread of
-- the pool takes up the oldest call that waits; a thread that has one ends it.
pub data Step (codec : Codec) (wire : Wire) (s : Server) : Server → Type 0 where
  receive :
      (incoming : Incoming) → s.stopping ≡ false → Step codec wire s (serve codec wire incoming s).1
  start :
      (job : Job) (rest : List Job)
      → s.queued ≡ job ∷ rest
      → length s.running < s.workers
      → Step codec wire s (record s { queued = rest; running = job ∷ s.running })
  finish :
      (before : List Job) (job : Job) (after : List Job) (handler : Handler) (now : ℕ)
      → s.running ≡ before ++ job ∷ after
      → Step codec wire s (record s {
        slots = s.slots + 1;
        running = before ++ after;
        sent = dispatch codec wire handler now job s.sent;
      })

pub data Reach (codec : Codec) (wire : Wire) (workers : ℕ) : Server → Type 0 where
  here : Reach codec wire workers (init workers)
  next :
      {s t : Server} → Reach codec wire workers s → Step codec wire s t → Reach codec wire workers t
