-- ===== src/DisplaySession/Reader.antt =====
-- `_read_document` and `DisplaySessionReader` of display_session.py. The clock counts milliseconds.
pub mod Gathered
pub mod Newest
pub mod Ends
use msys_hal.Prelude.{
  ℕ, zero, suc, ◌+◌, ◌-◌, ◌*◌, String, Bool, true, false, not, ◌&&◌, ◌||◌, Option, none, some, List,
  [], ◌∷◌, ◌++◌, leb, ltb, length, any, member, ◌==◌, string_eq, nat_eq, if◌then◌else◌,
}
use Prim.Native.Nat.{min}
use msys_hal.Json.{Value, null, int, str, Fields, field, end, field_or}
use msys_hal.Json.Int.{ℤ, pos, neg, clamp, pos_part}
use msys_hal.Errors.{
  Exception, hal, python, Result, ok, err, ◌>>=◌, ◌>>◌, require, unavailable_error,
}
use msys_hal.Mipc.Packet.{Bytes, Loaded, loaded, malformed, failed}
use msys_hal.Mipc.Line.{Arrival, recv}
use msys_hal.DisplaySession.{Reading, validate_display_session}

abbrev pub max_state_bytes : ℕ
max_state_bytes = 64 * 1024

-- What `os.open` and `os.fstat` find under a path, and what `os.read` hands out.
pub data Opened : Type 0 where
  absent : Opened
  denied : String → Opened
  opened : (regular : Bool) (size : ℕ) (contents : List Arrival) → Opened

-- What the code asks of its surroundings: the files, `json.loads` of bytes decoded as utf-8-sig, what
-- Python finds out about floats, and the clock when the document of a path is looked at.
pub record Surroundings : Type 0 where
  pub files : String → Opened
  pub loads : Bytes → Loaded
  pub reading : String → Reading
  pub now : String → ℕ

oversized : Exception
oversized = python "ValueError" "display session state is oversized or binary"

-- A round of the loop behind `os.read`; `next` is what follows.
chunk_read :
    (Bytes → List Arrival → Option (Result Bytes))
    → Bytes
    → Result Bytes × List Arrival
    → Option (Result Bytes)
chunk_read next so_far (err e, rest) = some (err e)
chunk_read next so_far (ok [], rest) = some (ok so_far)
chunk_read next so_far (ok (b ∷ bytes), rest) = next (so_far ++ b ∷ bytes) rest

-- The loop, with at most `rounds` calls of `os.read`: `none` if these are not enough.
read_loop : ℕ → Bytes → List Arrival → Option (Result Bytes)
unfolding chunk_read
read_loop zero so_far arrivals = none
read_loop (suc rounds) so_far arrivals =
    if leb (length so_far) max_state_bytes
    then chunk_read (read_loop rounds) so_far
        (recv (min 8192 (max_state_bytes + 1 - length so_far)) arrivals)
    else some (ok so_far)

check_bytes : Result Bytes → Result Bytes
unfolding oversized
check_bytes (err e) = err e
check_bytes (ok bytes) =
    require (leb (length bytes) max_state_bytes && not (any (λ b. b == 0) bytes)) oversized
    >> ok bytes

decode_document : Surroundings → Loaded → Result Fields
decode_document w (loaded v) = validate_display_session w.reading v
decode_document w malformed = err (python "ValueError" "display session state is not valid JSON")
decode_document w (failed name) = err (python name "")

document_of : Surroundings → Option (Result Bytes) → Option (Result Fields)
unfolding check_bytes decode_document
document_of w none = none
document_of w (some r) = some (check_bytes r >>= λ bytes. decode_document w (w.loads bytes))

open_document : Surroundings → Opened → Option (Result Fields)
unfolding document_of read_loop recv
open_document w absent = some (err (python "FileNotFoundError" ""))
open_document w (denied name) = some (err (python name ""))
open_document w (opened regular size contents) =
    let read = document_of w (read_loop (max_state_bytes + 2) [] contents) in
    if regular && leb size max_state_bytes
    then read
    else some (err (python "ValueError" "display session state is not a bounded regular file"))

-- `_read_document`
unfoldable pub read_document : Surroundings → String → Option (Result Fields)
unfolding open_document
read_document w path = open_document w (w.files path)

-- `int(document["observed_at_unix_ms"])` of a validated document.
abbrev pub observed_at : Fields → ℕ
observed_at document = elim (field_or null "observed_at_unix_ms" document) [
  | int n ↦ pos_part n
  | _ ↦ 0
]

pub record SessionReader : Type 0 where
  pub paths : List String
  pub max_age_ms : ℕ

-- Each path once, in the order of the first ones.
unique_paths : List String → List String → List String
unique_paths seen [] = seen
unique_paths seen (path ∷ rest) =
    unique_paths (if member path seen then seen else seen ++ path ∷ []) rest

-- `__init__`
unfoldable pub make_reader : List String → ℤ → SessionReader
unfolding unique_paths
make_reader paths max_age_ms = record {
  paths = unique_paths [] paths;
  max_age_ms = pos_part (clamp (pos 0) (pos 300000) max_age_ms);
}

-- `age > self.max_age_ms or age < -5_000`, negated; an age limit of 0 asks for nothing.
unfoldable pub is_fresh : ℕ → ℕ → ℕ → Bool
is_fresh max_age_ms now observed =
    max_age_ms == 0 || (leb now (observed + max_age_ms) && leb observed (now + 5000))

age_of : ℕ → ℕ → ℤ
age_of now observed = if leb observed now then pos (now - observed) else neg (pos (observed - now))

-- `_require_fresh`
unfoldable pub require_fresh : ℕ → ℕ → Fields → Result (Unit {0})
unfolding age_of
require_fresh max_age_ms now document = require (is_fresh max_age_ms now (observed_at document)) (
    unavailable_error "display-session state is stale" (
      field "reason" (str "stale-state")
        (field "age_ms" (int (age_of now (observed_at document))) end)))

-- `accept`
unfoldable pub accept : (String → Reading) → ℕ → ℕ → Value → Result Fields
accept reading max_age_ms now document = do
  result ← validate_display_session reading document
  require_fresh max_age_ms now result
  ok result

-- The classes below `OSError` and `ValueError`; `FileNotFoundError` is caught before.
abbrev pub is_os_or_value_error : String → Bool
is_os_or_value_error name = member name (
    "OSError" ∷ "PermissionError" ∷ "IsADirectoryError" ∷ "NotADirectoryError" ∷ "InterruptedError"
    ∷ "BlockingIOError" ∷ "FileExistsError" ∷ "ProcessLookupError" ∷ "ChildProcessError"
    ∷ "TimeoutError" ∷ "ConnectionError" ∷ "BrokenPipeError" ∷ "ConnectionAbortedError"
    ∷ "ConnectionRefusedError" ∷ "ConnectionResetError" ∷ "ValueError" ∷ "UnicodeError"
    ∷ "UnicodeDecodeError" ∷ "JSONDecodeError" ∷ [])

-- What the loop of `load` has found.
pub record Found : Type 0 where
  pub fresh : List Fields
  pub invalid : Bool
  pub stale : Bool

-- The outcome for a path: its document, read and fresh, or what was raised.
unfoldable pub outcome : Surroundings → ℕ → String → Option (Result Fields)
outcome w max_age_ms path = elim (read_document w path) [
  | none ↦ none
  | some (err e) ↦ some (err e)
  | some (ok document) ↦ some (require_fresh max_age_ms (w.now path) document >> ok document)
]

-- The `except` clauses.
after_path : Result Fields → Found → Result Found
after_path (ok document) f = ok (record f { fresh = f.fresh ++ document ∷ [] })
after_path (err (python name text)) f =
    if name == "FileNotFoundError"
    then ok f
    else if is_os_or_value_error name
    then ok (record f { invalid = true })
    else err (python name text)
after_path (err (hal e)) f =
    if e.code == "HAL_UNAVAILABLE" then ok (record f { stale = true }) else err (hal e)

-- `max(fresh, key=...)`: the first of the newest.
pub newest : Fields → List Fields → Fields
newest best [] = best
newest best (d ∷ ds) =
    if ltb (observed_at best) (observed_at d) then newest d ds else newest best ds

unavailable : String → Exception
unavailable reason =
    unavailable_error "display-session state is unavailable" (field "reason" (str reason) end)

choose : List Fields → Found → Result Fields
unfolding newest unavailable
choose [] f = err (
    unavailable
      (if f.stale then "stale-state" else if f.invalid then "invalid-state" else "no-state"))
choose (d ∷ ds) f = ok (newest d ds)

finish : Option (Result Found) → Option (Result Fields)
unfolding choose
finish none = none
finish (some (err e)) = some (err e)
finish (some (ok f)) = some (choose f.fresh f)

next_path : (Found → Option (Result Found)) → Option (Result Fields) → Found → Option (Result Found)
unfolding after_path
next_path next none f = none
next_path next (some r) f = elim (after_path r f) [ err e ↦ some (err e) | ok g ↦ next g ]

pub load_loop : Surroundings → ℕ → List String → Found → Option (Result Found)
unfolding next_path
load_loop w max_age_ms [] f = some (ok f)
load_loop w max_age_ms (path ∷ rest) f =
    next_path (load_loop w max_age_ms rest) (outcome w max_age_ms path) f

-- `load`
unfoldable pub load : Surroundings → SessionReader → Option (Result Fields)
unfolding load_loop finish
load w reader = finish (
    load_loop w reader.max_age_ms reader.paths
      (record { fresh = []; invalid = false; stale = false }))
