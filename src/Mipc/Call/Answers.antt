-- ===== src/Mipc/Call/Answers.antt =====
-- `call` against a peer that keeps to the protocol, and against any peer.
use msys_hal.Prelude.{
  ℕ, ◌+◌, ◌/◌, ◌≤◌, ◌≡◌, refl, true, Option, none, some, is_some, List, [], ◌∷◌, ◌++◌, map, All,
  arith, Option-cases, inl, inr,
}
use msys_hal.Json.{Value}
use msys_hal.Errors.{Result, ok, err, Result-cases}
use msys_hal.Mipc.Packet.{Bytes, newline, Codec, IsJson, encode_packet, has_type}
use msys_hal.Mipc.Line.{Arrival, chunk, recv_line, recv_line_ends}
use msys_hal.Mipc.Line.Fragments.{flat, IsPiece, recv_line-pieces}
use msys_hal.Mipc.Call.{
  Peer, Outgoing, deadline_of, request_message, exchange, send_request, converse, check_call, call,
}

-- The bytes of a line of a message, in pieces.
pub record IsLine (codec : Codec) (message : Value) (ps : List Bytes) : Type 0 where
  pub packet : Bytes
  pub json : IsJson codec message
  pub typed : has_type message ≡ true
  pub encoded : encode_packet codec message ≡ ok packet
  pub pieces : All IsPiece ps
  pub whole : flat ps ≡ packet ++ newline ∷ []

recv_line-IsLine :
    (codec : Codec) (message : Value) (ps : List Bytes)
    → IsLine codec message ps
    → recv_line codec (map chunk ps) ≡ (some (ok message), [])
recv_line-IsLine codec message ps l =
    recv_line-pieces codec message l.packet ps l.json l.typed l.encoded l.pieces l.whole

-- A call is answered: if the target and the method are in order, the peer accepts the connection,
-- greets with a line and answers the packet of the request, sent with a line feed, by the line of
-- `answer`, both cut up in any way, then `call` returns that answer.
pub call-IsLine :
    (codec : Codec) (peer : Peer) (now : ℕ) (out : Outgoing) (greeting answer : Value)
    (gs rs : List Bytes) (request : Bytes)
    → check_call out ≡ ok tt
    → peer.refuses ≡ none
    → IsLine codec greeting gs
    → peer.greeting ≡ map chunk gs
    → encode_packet codec (request_message now out) ≡ ok request
    → peer.cuts (request ++ newline ∷ []) ≡ none
    → IsLine codec answer rs
    → peer.answer (request ++ newline ∷ []) ≡ map chunk rs
    → call codec peer now out ≡ some (ok answer)
unfolding call converse send_request exchange
call-IsLine codec peer now out greeting answer gs rs request fine open_ first greets sent whole
      second answers =
    rw
      (
        fine,
        call,
        open_,
        converse,
        greets,
        recv_line-IsLine codec greeting gs first,
        send_request,
        sent,
        exchange,
        whole,
        answers,
        recv_line-IsLine codec answer rs second,
      )
      refl

exchange_ends :
    (codec : Codec) (peer : Peer) (rest : List Arrival) (packet : Bytes)
    → is_some (exchange codec peer rest packet) ≡ true
unfolding exchange
exchange_ends codec peer rest packet = elim (Option-cases (peer.cuts (packet ++ newline ∷ []))) [
  | inl whole ↦
      rw (whole, is_some, exchange)
        (recv_line_ends codec (rest ++ peer.answer (packet ++ newline ∷ [])))
  | inr (name, cut) ↦ rw (cut, is_some, exchange) refl
]

send_request_ends :
    (codec : Codec) (peer : Peer) (message : Value) (o : Option (Result Value))
    (rest : List Arrival)
    → is_some o ≡ true
    → is_some (send_request codec peer message (o, rest)) ≡ true
unfolding send_request
send_request_ends codec peer message none rest h = h
send_request_ends codec peer message (some (err e)) rest h = refl
send_request_ends codec peer message (some (ok greeting)) rest h =
    elim (Result-cases (encode_packet codec message)) [
      | inl (packet, encoded) ↦
          rw (encoded, is_some, send_request) (exchange_ends codec peer rest packet)
      | inr (e, refused) ↦ rw (refused, is_some, send_request) refl
    ]

-- `call` ends, whatever the peer does.
pub call_ends :
    (codec : Codec) (peer : Peer) (now : ℕ) (out : Outgoing)
    → is_some (call codec peer now out) ≡ true
unfolding call converse
call_ends codec peer now out = elim (Result-cases (check_call out)) [
  | inr (e, bad) ↦ rw (bad, is_some, call) refl
  | inl (u, fine) ↦ elim (Option-cases peer.refuses) [
    | inr (name, refused) ↦ rw (fine, refused, is_some, call, converse) refl
    | inl open_ ↦
        rw (fine, open_, is_some, call, converse)
          (send_request_ends codec peer (request_message now out) _ _
            (recv_line_ends codec peer.greeting))
  ]
]

-- The deadline of a request is at least 50 milliseconds and at most 30 seconds after the call.
pub deadline_of_bounds :
    (now timeout_ms : ℕ)
    → (now / 1000000 + 50 ≤ deadline_of now timeout_ms)
      × (deadline_of now timeout_ms ≤ now / 1000000 + 30000)
unfolding deadline_of
deadline_of_bounds now timeout_ms = omega arith
