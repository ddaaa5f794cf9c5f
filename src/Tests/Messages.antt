-- ===== src/Tests/Messages.antt =====
-- The theorems on the messages of mipc.py, with a codec for three messages.
use msys_hal.Prelude.{
  ◌+◌, ◌/◌, ◌≤◌, ◌≡◌, ◌≢◌, refl, ◌==◌, nat_eq, if◌then◌else◌, String, true, false, Option, none,
  some, is_some, List, [], ◌∷◌, map, arith, length, Bool, All, ◌||◌, ◌++◌, decimal, take, drop,
  nat_beq_iff, ◌<◌,
}
use msys_hal.Json.{Value, obj, Fields, field, end, str, field_or, null, is_text}
use msys_hal.Errors.{ok}
use msys_hal.Validation.Bounded.{ensure_bounded_json, text_size}
use msys_hal.Mipc.Packet.{
  Bytes, Codec, IsJson, loaded, malformed, newline, max_packet, encode_packet, decode_packet,
  has_type,
}
use msys_hal.Mipc.Packet.Inverse.{encode_packet-decode_packet}
use msys_hal.Mipc.Line.{chunk, broken, recv_line, recv_line_ends}
use msys_hal.Mipc.Line.Fragments.{recv_line-pieces}
use msys_hal.Mipc.Call.{Peer, Outgoing, call, request_message, check_call, deadline_of}
use msys_hal.Mipc.Call.Answers.{call-IsLine, call_ends, deadline_of_bounds}
use msys_hal.Mipc.Server.{
  Wire, Job, Handler, Server, init, serve, packet, work, dispatch, receive, here, next, Reach,
}
use msys_hal.Mipc.Server.Dispatch.{Answered, dispatch-Answered}
use msys_hal.Mipc.Server.Steps.{IsAdmitting, Reach-IsAdmitting}

abbrev message_of : String → Value
message_of type = obj (field "type" (str type) end)

-- The texts `{"type":"welcome"}`, `{"type":"return"}` and `{"type":"call"}`.
abbrev welcome_text : Bytes
welcome_text =
    123 ∷ 34 ∷ 116 ∷ 121 ∷ 112 ∷ 101 ∷ 34 ∷ 58 ∷ 34 ∷ 119 ∷ 101 ∷ 108 ∷ 99 ∷ 111 ∷ 109 ∷ 101 ∷ 34
    ∷ 125 ∷ []

abbrev return_text : Bytes
return_text =
    123 ∷ 34 ∷ 116 ∷ 121 ∷ 112 ∷ 101 ∷ 34 ∷ 58 ∷ 34 ∷ 114 ∷ 101 ∷ 116 ∷ 117 ∷ 114 ∷ 110 ∷ 34 ∷ 125
    ∷ []

abbrev call_text : Bytes
call_text = 123 ∷ 34 ∷ 116 ∷ 121 ∷ 112 ∷ 101 ∷ 34 ∷ 58 ∷ 34 ∷ 99 ∷ 97 ∷ 108 ∷ 108 ∷ 34 ∷ 125 ∷ []

dumps : Value → Bytes
dumps (obj fs) =
    if is_text "welcome" (field_or null "type" fs)
    then welcome_text
    else if is_text "return" (field_or null "type" fs)
    then return_text
    else call_text
dumps v = []

codec : Codec
codec = record {
  dumps = dumps;
  loads = λ text.
      if length text == 18
      then loaded (message_of "welcome")
      else if length text == 17
      then loaded (message_of "return")
      else if length text == 15
      then loaded (message_of "call")
      else malformed;
}

has_newline : Bytes → Bool
has_newline [] = false
has_newline (b ∷ bs) = b == newline || has_newline bs

without_newline : (bs : Bytes) → has_newline bs ≡ false → All (λ b. b ≢ newline) bs
unfolding has_newline
without_newline [] h = tt
without_newline (b ∷ bs) h =
    (ground (arith, nat_beq_iff b newline), without_newline bs (ground arith))

welcome-IsJson : IsJson codec (message_of "welcome")
unfolding codec dumps text_size
welcome-IsJson = record {
  sized = refl;
  one_line = without_newline welcome_text (unfold has_newline in refl);
  reads_back = refl;
}

return-IsJson : IsJson codec (message_of "return")
unfolding codec dumps text_size
return-IsJson = record {
  sized = refl;
  one_line = without_newline return_text (unfold has_newline in refl);
  reads_back = refl;
}

encoded : encode_packet codec (message_of "welcome") ≡ ok welcome_text
unfolding codec dumps encode_packet ensure_bounded_json
encoded = refl

return_encoded : encode_packet codec (message_of "return") ≡ ok return_text
unfolding codec dumps encode_packet ensure_bounded_json
return_encoded = refl

welcome_typed : has_type (message_of "welcome") ≡ true
unfolding has_type
welcome_typed = refl

return_typed : has_type (message_of "return") ≡ true
unfolding has_type
return_typed = refl

-- The greeting in two pieces and its line feed in a third one.
abbrev greeting_pieces : List Bytes
greeting_pieces = take 5 welcome_text ∷ drop 5 welcome_text ∷ (newline ∷ []) ∷ []

abbrev answer_pieces : List Bytes
answer_pieces = (return_text ++ newline ∷ []) ∷ []

abbrev outgoing : Outgoing
outgoing = record {
  target = "role:hal";
  method = "describe";
  payload = end;
  timeout_ms = 5000;
  idempotent = true;
}

abbrev peer : Peer
peer = record {
  refuses = none;
  greeting = map chunk greeting_pieces;
  cuts = λ sent. none;
  answer = λ sent. map chunk answer_pieces;
}

abbrev handler : Handler
handler method payload = ok (obj payload)

abbrev job : Job
job = record { id = 7; message = field "type" (str "call") (field "method" (str "describe") end) }

abbrev wire : Wire
wire sent = none

encode_packet-decode_packet_example :
    (welcome_text ≡ codec.dumps (message_of "welcome"))
    × (1 ≤ length welcome_text)
    × (length welcome_text < max_packet)
    × (decode_packet codec welcome_text ≡ ok (message_of "welcome"))
encode_packet-decode_packet_example =
    encode_packet-decode_packet codec (message_of "welcome") welcome_text welcome-IsJson
      welcome_typed encoded

recv_line-pieces_example :
    recv_line codec (map chunk greeting_pieces) ≡ (some (ok (message_of "welcome")), [])
recv_line-pieces_example =
    recv_line-pieces codec (message_of "welcome") welcome_text greeting_pieces welcome-IsJson
      welcome_typed encoded (omega arith, (omega arith, (omega arith, tt))) refl

recv_line_ends_example :
    is_some (recv_line codec (chunk welcome_text ∷ broken "TimeoutError" ∷ [])).0 ≡ true
recv_line_ends_example = recv_line_ends codec (chunk welcome_text ∷ broken "TimeoutError" ∷ [])

call-IsLine_example : call codec peer 0 outgoing ≡ some (ok (message_of "return"))
unfolding check_call encode_packet codec dumps ensure_bounded_json request_message deadline_of
    decimal
call-IsLine_example =
    call-IsLine codec peer 0 outgoing (message_of "welcome") (message_of "return") greeting_pieces
      answer_pieces call_text refl refl
      (record {
        packet = welcome_text;
        json = welcome-IsJson;
        typed = welcome_typed;
        encoded = encoded;
        pieces = (omega arith, (omega arith, (omega arith, tt)));
        whole = refl;
      })
      refl refl refl
      (record {
        packet = return_text;
        json = return-IsJson;
        typed = return_typed;
        encoded = return_encoded;
        pieces = (omega arith, tt);
        whole = refl;
      })
      refl

call_ends_example : is_some (call codec peer 0 outgoing) ≡ true
call_ends_example = call_ends codec peer 0 outgoing

deadline_of_bounds_example :
    (1234567890 / 1000000 + 50 ≤ deadline_of 1234567890 5000)
    × (deadline_of 1234567890 5000 ≤ 1234567890 / 1000000 + 30000)
deadline_of_bounds_example = deadline_of_bounds 1234567890 5000

dispatch-Answered_example :
    Answered codec wire 7 [] (work handler 0 job.message) (dispatch codec wire handler 0 job [])
dispatch-Answered_example = dispatch-Answered codec wire handler 0 job []

abbrev called : Server
called = (serve codec wire (packet call_text) (init 4)).1

called-Reach : Reach codec wire 4 called
unfolding init
called-Reach = next here (receive (packet call_text) refl)

Reach-IsAdmitting_example : IsAdmitting called
Reach-IsAdmitting_example = Reach-IsAdmitting codec wire 4 called called-Reach

abbrev ready_event : Option (String × Fields)
ready_event = some ("msys.hal.provider.ready", end)
