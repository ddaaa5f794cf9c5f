-- ===== src/Mipc/Line.antt =====
-- `_recv_line` of mipc.py: one line of the control socket, from chunks of any size.
pub mod Fragments
use msys_hal.Prelude.{
  ℕ, zero, suc, ◌+◌, ◌-◌, ◌≤◌, ◌<◌, ◌≡◌, refl, String, Bool, true, false, ◌&&◌, Option, none, some,
  is_some, List, [], ◌∷◌, ◌++◌, leb, ltb, length, length-append, take, drop, is_empty,
  if◌then◌else◌, ◌==◌, nat_eq, arith, Bool-cases, inl, inr,
}
use Prim.Native.Nat.{min}
use msys_hal.Json.{Value, end}
use msys_hal.Errors.{python, Result, ok, err, validation_error}
use msys_hal.Mipc.Packet.{max_packet, Bytes, newline, Codec, decode_packet}

-- What comes in on a socket: bytes, or an `OSError`, by its class. After the last one, and for an
-- empty chunk, `recv` finds the end of the stream.
pub data Arrival : Type 0 where
  chunk : Bytes → Arrival
  broken : String → Arrival

-- `sock.recv(limit)` hands out the front of a chunk and keeps the rest.
unfoldable pub recv : ℕ → List Arrival → Result Bytes × List Arrival
recv limit [] = (ok [], [])
recv limit (broken name ∷ rest) = (err (python name ""), rest)
recv limit (chunk bytes ∷ rest) = (
  ok (take limit bytes),
  if leb (length bytes) limit then rest else chunk (drop limit bytes) ∷ rest,
)

-- `data.endswith(b"\n")`
ends_line : Bytes → Bool
ends_line [] = false
ends_line (b ∷ []) = b == newline
ends_line (b ∷ c ∷ rest) = ends_line (c ∷ rest)

-- `bytes(data).rstrip(b"\n")`
strip_lines : Bytes → Bytes
strip_lines [] = []
strip_lines (b ∷ rest) =
    let stripped = strip_lines rest in
    if is_empty stripped && b == newline then [] else b ∷ stripped

-- How many bytes the loop asks for.
abbrev pub limit_of : Bytes → ℕ
limit_of so_far = min 65536 (max_packet + 1 - length so_far)

-- A round of the loop behind `recv`; `next` is what follows.
received :
    (Bytes → List Arrival → Option (Result Bytes) × List Arrival)
    → Bytes
    → Result Bytes × List Arrival
    → Option (Result Bytes) × List Arrival
received next so_far (err e, arrivals) = (some (err e), arrivals)
received next so_far (ok [], arrivals) = (some (ok so_far), arrivals)
received next so_far (ok (b ∷ bytes), arrivals) =
    if ltb max_packet (length (so_far ++ b ∷ bytes))
    then (some (err (validation_error "mIPC public response is too large" end)), arrivals)
    else next (so_far ++ b ∷ bytes) arrivals

-- The loop, with at most `rounds` calls of `recv`: `none` if these are not enough.
recv_loop : ℕ → Bytes → List Arrival → Option (Result Bytes) × List Arrival
unfolding received ends_line
recv_loop zero so_far arrivals = (none, arrivals)
recv_loop (suc rounds) so_far arrivals =
    if ends_line so_far
    then (some (ok so_far), arrivals)
    else received (recv_loop rounds) so_far (recv (limit_of so_far) arrivals)

-- Behind the loop.
decode_line : Codec → Bytes → Result Value
unfolding strip_lines
decode_line codec [] = err (python "EOFError" "empty mIPC public response")
decode_line codec (b ∷ rest) = decode_packet codec (strip_lines (b ∷ rest))

read_line : Codec → Option (Result Bytes) → Option (Result Value)
unfolding decode_line
read_line codec none = none
read_line codec (some (err e)) = some (err e)
read_line codec (some (ok line)) = some (decode_line codec line)

-- `_recv_line`, and what is left to receive. Each round brings in a byte at least, so that one more
-- than the limit has room for is enough.
unfoldable pub recv_line : Codec → List Arrival → Option (Result Value) × List Arrival
unfolding recv_loop recv read_line
recv_line codec arrivals =
    let (line, rest) = recv_loop (max_packet + 2) [] arrivals in (read_line codec line, rest)

-- A round ends the loop or brings in a byte, within the limit.
received-ends :
    (next : Bytes → List Arrival → Option (Result Bytes) × List Arrival) (so_far : Bytes)
    (r : Result Bytes) (rest : List Arrival)
    → ((more : Bytes)
        → length so_far < length more
        → length more ≤ max_packet
        → is_some (next more rest).0 ≡ true)
    → is_some (received next so_far (r, rest)).0 ≡ true
unfolding received
received-ends next so_far (err e) rest go_on = refl
received-ends next so_far (ok []) rest go_on = refl
received-ends next so_far (ok (b ∷ bytes)) rest go_on =
    ground (arith, length-append so_far (b ∷ bytes), go_on (so_far ++ b ∷ bytes))

recv_loop-ends :
    (rounds : ℕ) (so_far : Bytes) (arrivals : List Arrival)
    → max_packet + 1 < rounds + length so_far
    → length so_far ≤ max_packet
    → is_some (recv_loop rounds so_far arrivals).0 ≡ true
unfolding recv_loop
recv_loop-ends zero so_far arrivals enough room = absurd (omega arith)
recv_loop-ends (suc rounds) so_far arrivals enough room = elim (Bool-cases (ends_line so_far)) [
  | inl whole ↦ rw whole refl
  | inr more ↦ rw more (
      received-ends (recv_loop rounds) so_far _ _
        λ longer grows fits. recv_loop-ends rounds longer _ (omega arith) fits)
]

read_line-is_some :
    (codec : Codec) (o : Option (Result Bytes))
    → is_some o ≡ true
    → is_some (read_line codec o) ≡ true
unfolding read_line
read_line-is_some codec none h = h
read_line-is_some codec (some (err e)) h = refl
read_line-is_some codec (some (ok line)) h = refl

-- Whatever comes in, in chunks of whatever size, `_recv_line` ends: it returns or raises.
pub recv_line_ends :
    (codec : Codec) (arrivals : List Arrival) → is_some (recv_line codec arrivals).0 ≡ true
unfolding recv_line
recv_line_ends codec arrivals =
    read_line-is_some codec _
      (recv_loop-ends (max_packet + 2) [] arrivals (omega arith) (omega arith))
