-- ===== src/Mipc/Packet.antt =====
-- `encode_packet` and `decode_packet` of mipc.py. A byte is a number.
pub mod Inverse
use msys_hal.Prelude.{
  ℕ, ◌*◌, ◌≡◌, String, Bool, true, false, ◌&&◌, some, List, All, leb, length, ◌≢◌,
}
use msys_hal.Json.{Value, str, obj, end, get_field}
use msys_hal.Errors.{python, Result, ok, err, ◌>>=◌, ◌>>◌, require, validation_error}
use msys_hal.Validation.Bounded.{Limits, ensure_bounded_json, text_size}

abbrev pub max_packet : ℕ
max_packet = 256 * 1024

abbrev pub Bytes : Type 0
Bytes = List ℕ

-- The end of a line.
abbrev pub newline : ℕ
newline = 10

-- What `json.loads(data.decode("utf-8"))` does: it returns, it raises one of the two exceptions that
-- `decode_packet` catches, or another one, by its class.
pub data Loaded : Type 0 where
  loaded : Value → Loaded
  malformed : Loaded
  failed : String → Loaded

-- Python's `json`: `dumps` is `json.dumps(message, ensure_ascii=False, separators=(",", ":"),
-- allow_nan=False).encode("utf-8")` of a value that it accepts.
pub record Codec : Type 0 where
  pub dumps : Value → Bytes
  pub loads : Bytes → Loaded

-- What the code relies on at a message: the text has the size that is computed for it, no line feed
-- stands in it, and `loads` reads the message back from it.
pub record IsJson (codec : Codec) (message : Value) : Type 0 where
  pub sized : text_size message ≡ some (length (codec.dumps message))
  pub one_line : All (λ b. b ≢ newline) (codec.dumps message)
  pub reads_back : codec.loads (codec.dumps message) ≡ loaded message

abbrev pub message_limits : Limits
message_limits = record { label = "mIPC message"; max_depth = 10; max_items = 2048 }

-- `isinstance(value, dict) and isinstance(value.get("type"), str)`
unfoldable pub has_type : Value → Bool
has_type (obj fs) = elim (get_field "type" fs) [ some (str s) ↦ true | _ ↦ false ]
has_type v = false

read_value : Loaded → Result Value
read_value (loaded v) = ok v
read_value malformed = err (validation_error "mIPC packet is invalid JSON" end)
read_value (failed name) = err (python name "")

module _ (codec : Codec) where
  unfoldable pub encode_packet : Value → Result Bytes
  encode_packet message = do
    ensure_bounded_json message_limits message
    let packet = codec.dumps message
    require (leb (length packet) max_packet) (validation_error "mIPC packet is too large" end)
    ok packet

  unfoldable pub decode_packet : Bytes → Result Value
  unfolding read_value has_type
  decode_packet packet = do
    require (leb 1 (length packet) && leb (length packet) max_packet)
        (validation_error "mIPC packet size is invalid" end)
    value ← read_value (codec.loads packet)
    require (has_type value) (validation_error "mIPC packet requires an object and string type" end)
    ensure_bounded_json message_limits value
    ok value
