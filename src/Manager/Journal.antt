-- ===== src/Manager/Journal.antt =====
-- The journal of manager.py: `_append_event_locked`, `_emit_event`, `_record_event` and `watch`.
pub mod Guarantee
pub mod History
pub mod Waiting
use msys_hal.Prelude.{
  ℕ, zero, suc, ◌+◌, ◌-◌, ◌*◌, String, Bool, true, false, not, ◌&&◌, ◌||◌, Option, none, some, List,
  [], ◌∷◌, ◌++◌, leb, ltb, length, take, drop, filter, any, if◌then◌else◌, ◌==◌, string_eq, member,
  is_empty,
}
use msys_hal.Errors.{Result, ok, err}
use msys_hal.Manager.State.{Event, Shared, Env, State, Act, emitted}
use msys_hal.Manager.Exec.{Exec, pure, gets, modify, acquire, wait, monotonic, ◌>>=◌, ◌>>◌}

abbrev pub journal_size : ℕ
journal_size = 256

-- `deque(maxlen=256)`: the newest entries.
abbrev pub trim : List Event → List Event
trim events = drop (length events - journal_size) events

-- The next event.
abbrev pub next_event :
    String → String → Option String → Option String → Option String → Shared → Event
next_event kind domain id provider selection s = record {
  revision = s.revision + 1;
  kind = kind;
  domain = domain;
  id = id;
  provider = provider;
  selection = selection;
}

-- `_append_event_locked`: what it does to the fields; the waiters are woken.
unfoldable pub append_event : Event → Shared → Shared
append_event event s = record s {
  revision = s.revision + 1;
  journal = trim (s.journal ++ event ∷ []);
}

-- `_emit_event`; what the sink does with the event, and whether it raises, is of no consequence.
unfoldable pub emit_event : Event → Exec (Unit {0})
emit_event event env s =
    (ok tt, record s { trace = if s.shared.has_sink then emitted event ∷ s.trace else s.trace })

-- `_record_event` behind the lock.
record_locked : String → String → Option String → Option String → Option String → Exec ℕ
record_locked kind domain id provider selection = do
  event ← gets (next_event kind domain id provider selection)
  modify (append_event event)
  emit_event event
  pure event.revision

-- `_record_event`
unfoldable pub record_event :
    String → String → Option String → Option String → Option String → Exec ℕ
unfolding append_event emit_event record_locked
record_event kind domain id provider selection = do
  acquire
  record_locked kind domain id provider selection

pub record WatchAnswer : Type 0 where
  pub revision : ℕ
  pub events : List Event
  pub resync : Bool

-- Whether a watcher of these domains wants the event.
abbrev pub wants : ℕ → List String → Event → Bool
wants after_revision domains e =
    ltb after_revision e.revision
    && (is_empty domains || (e.domain == "all" || member e.domain domains))

abbrev pub oldest_revision : Shared → ℕ
oldest_revision s = elim s.journal [ [] ↦ s.revision + 1 | e ∷ es ↦ e.revision ]

-- `after_revision < oldest - 1`
unfoldable pub must_resync : ℕ → Shared → Bool
must_resync after_revision s = ltb (after_revision + 1) (oldest_revision s)

unfoldable pub watch_answer : ℕ → List String → Shared → WatchAnswer
watch_answer after_revision domains s = record {
  revision = s.revision;
  events = take 128 (filter (wants after_revision domains) s.journal);
  resync = must_resync after_revision s;
}

-- Why the loop of `watch` ends before its deadline.
abbrev pub may_return : ℕ → List String → Shared → Bool
may_return after_revision domains s =
    s.stopped || (must_resync after_revision s || any (wants after_revision domains) s.journal)

-- A round of the loop of `watch`; `next` is what follows a wait.
watch_round : ℕ → List String → ℕ → Exec (Unit {0}) → Exec (Unit {0})
watch_round after_revision domains deadline next = do
  stop ← gets (may_return after_revision domains)
  if stop then pure tt else do now ← monotonic; if leb deadline now then pure tt else do wait; next

-- The loop, with the lock held and at most `rounds` waits.
watch_loop : ℕ → ℕ → List String → ℕ → Exec (Unit {0})
watch_loop zero after_revision domains deadline = pure tt
watch_loop (suc rounds) after_revision domains deadline =
    watch_round after_revision domains deadline (watch_loop rounds after_revision domains deadline)

watch_wait : ℕ → ℕ → List String → ℕ → ℕ → Exec (Unit {0})
watch_wait rounds after_revision domains zero started = pure tt
watch_wait rounds after_revision domains (suc t) started =
    watch_loop rounds after_revision domains (started + suc t * 1000000)

-- `watch`; the clock counts nanoseconds. With a timeout of 0 the loop is not entered.
unfoldable pub watch : ℕ → ℕ → ℕ → List String → Exec WatchAnswer
unfolding watch_wait watch_loop watch_round watch_answer must_resync
watch rounds after_revision timeout_ms domains = do
  started ← monotonic
  acquire
  watch_wait rounds after_revision domains timeout_ms started
  gets (watch_answer after_revision domains)
