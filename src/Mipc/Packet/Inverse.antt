-- ===== src/Mipc/Packet/Inverse.antt =====
-- `decode_packet` is the inverse of `encode_packet`.
use msys_hal.Prelude.{ℕ, ◌≤◌, ◌<◌, ◌≡◌, refl, true, some, length, leb, le→leb, arith}
use msys_hal.Json.{Value, null, bool, int, float, str, arr, obj}
use msys_hal.Errors.{ok, >>=-eq-ok, require}
use msys_hal.Validation.Bounded.{ensure_bounded_json, text_size}
use msys_hal.Validation.Bounded.Sizes.{text_size-obj-pos}
use msys_hal.Validation.Bounded.Walk.{ensure_bounded_json_iff}
use msys_hal.Mipc.Packet.{
  max_packet, Bytes, Codec, IsJson, message_limits, encode_packet, decode_packet, has_type,
}

typed-pos : (v : Value) (n : ℕ) → has_type v ≡ true → text_size v ≡ some n → 1 ≤ n
unfolding has_type
typed-pos (obj fs) n typed e = text_size-obj-pos fs n e
typed-pos null n typed e = cc
typed-pos (bool x) n typed e = cc
typed-pos (int x) n typed e = cc
typed-pos (float x y) n typed e = cc
typed-pos (str x) n typed e = cc
typed-pos (arr x) n typed e = cc

-- What `encode_packet` returns for a message with a type is its JSON text, at least a byte and fewer
-- than 256 KiB long, and `decode_packet` reads the message back from it.
pub encode_packet-decode_packet :
    (codec : Codec) (message : Value) (packet : Bytes)
    → IsJson codec message
    → has_type message ≡ true
    → encode_packet codec message ≡ ok packet
    → (packet ≡ codec.dumps message)
      × (1 ≤ length packet)
      × (length packet < max_packet)
      × (decode_packet codec packet ≡ ok message)
unfolding encode_packet decode_packet
encode_packet-decode_packet codec message packet json typed e =
    let (u, bounded, e1) = >>=-eq-ok (ensure_bounded_json message_limits message) _ e in
    let (v, small, e2) =
      >>=-eq-ok (require (leb (length (codec.dumps message)) max_packet) _) _ e1 in
    let same : codec.dumps message ≡ packet = cc in
    let b = (ensure_bounded_json_iff message_limits message).0 bounded in
    let size : b.bytes ≡ length (codec.dumps message) = cc in
    let some_byte = typed-pos message b.bytes typed b.encoded in
    rw (← same) (
      refl,
      omega arith,
      omega (arith, b.fits),
      rw
          (
            le→leb 1 (length (codec.dumps message)) (omega arith),
            le→leb (length (codec.dumps message)) max_packet (omega (arith, b.fits)),
            json.reads_back,
            typed,
            bounded,
          )
          refl,
    )
