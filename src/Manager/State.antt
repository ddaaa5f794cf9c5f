-- ===== src/Manager/State.antt =====
-- The data of manager.py: candidates, health records, events, the fields of `HalManager` that its
-- lock guards, and the environment (gateway, clocks, other threads, files).
use msys_hal.Prelude.{ℕ, String, Bool, false, Option, none, List, [], ◌∷◌, concat, decimal, suc}
use msys_hal.Prelude.Dict.{Dict}
use msys_hal.Json.{Value, null, bool, int, float, str, arr, obj}
use msys_hal.Json.Int.{ℤ, pos, negsuc}
use msys_hal.Errors.{HalError}
use msys_hal.SelectionStore.{Disk, Step}

pub record Candidate : Type 0 where
  pub component : String
  pub target : String
  pub priority : ℤ
  pub domains : List String
  pub name : String
  pub version : String
  pub capabilities : List String

pub record ProviderHealth : Type 0 where
  pub status : String
  pub reason : String
  pub checked_at_unix_ms : ℕ
  pub latency_ms : ℕ
  pub device_count : Option ℕ
  pub mutable_fields : List String
  pub mutable_truncated : Bool
  pub error_code : Option String

-- A row of the journal.
pub record Event : Type 0 where
  pub revision : ℕ
  pub kind : String
  pub domain : String
  pub id : Option String
  pub provider : Option String
  pub selection : Option String

-- The fields of `HalManager` that change. `active_providers` maps a domain to a component or None.
pub record Shared : Type 0 where
  pub candidates : List Candidate
  pub catalog_at : ℕ
  pub selections : Dict String String
  pub device_routes : Dict String Candidate
  pub active_providers : Dict String (Option String)
  pub provider_health : Dict (String × String) ProviderHealth
  pub revision : ℕ
  pub journal : List Event
  pub stopped : Bool
  pub has_sink : Bool
  pub last_fingerprint : Option String

-- `HalManager.__init__`, with the selections that the store loaded.
abbrev pub init : Dict String String → Shared
init loaded = record {
  candidates = [];
  catalog_at = 0;
  selections = loaded;
  device_routes = [];
  active_providers = [];
  provider_health = [];
  revision = 0;
  journal = [];
  stopped = false;
  has_sink = false;
  last_fingerprint = none;
}

-- One call of the gateway; the timeout is in milliseconds.
pub record Call : Type 0 where
  pub target : String
  pub method : String
  pub payload : Value
  pub timeout_ms : ℕ
  pub idempotent : Bool

-- How the call ends: a response, a `HalError`, an `EOFError`, `OSError` or `TimeoutError`, or any
-- other exception; these two by the names of their classes.
pub data Reply : Type 0 where
  returned : Value → Reply
  raised : HalError → Reply
  lost failed : String → Reply

-- What a method does that is seen outside, or that lets others run.
pub data Act : Type 0 where
  called : Call → Act
  acquired waited clock_read saving : Act
  emitted : Event → Act

-- The surroundings answer by what has happened so far, the newest act first. The clocks count
-- nanoseconds and, for `time.time()`, milliseconds. `others` and `others_disk` are what the other
-- threads have done to the fields and to the preference file when the lock is granted. `repr` is Python's `repr`, and `dumps` is `json.dumps` with sorted keys.
pub record Env : Type 0 where
  pub catalog_ttl : ℕ
  pub reply : List Act → Call → Reply
  pub monotonic : List Act → ℕ
  pub unix_ms : List Act → ℕ
  pub others : List Act → Shared → Shared
  pub others_disk : List Act → Disk → Disk
  pub disk_fails : List Act → Step → Option String
  pub repr : Value → String
  pub dumps : Value → String

pub record State : Type 0 where
  pub shared : Shared
  pub disk : Disk
  pub trace : List Act

-- `str(value)`
unfoldable pub str_of : Env → Value → String
str_of env null = "None"
str_of env (bool b) = elim b [ Bool.true ↦ "True" | Bool.false ↦ "False" ]
str_of env (int (pos n)) = decimal n
str_of env (int (negsuc n)) = concat ("-" ∷ decimal (suc n) ∷ [])
str_of env (float finite text) = text
str_of env (str s) = s
str_of env (arr xs) = env.repr (arr xs)
str_of env (obj fs) = env.repr (obj fs)
