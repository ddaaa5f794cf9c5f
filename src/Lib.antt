-- ===== src/Lib.antt =====
-- msys-hal: the manager of hardware providers and the providers, in msys_hal/.
--
-- The program is a broker. Providers (processes that serve domains such as `backlight` or
-- `network`) are found by `msys.core`; the manager asks each to describe itself, ranks them,
-- probes them, lists their devices, routes reads and writes of device state to them, keeps the
-- user's preferred provider of each domain in a file, and tells watchers what has changed by a
-- journal of events.
--
-- The files:
--   Json, Json/Int       JSON values as `json.loads` returns them, Python's integers. A `str` is a
--                        sequence of Unicode scalar values; a float has whether it is finite and its
--                        `repr`; DisplaySession alone compares floats, by a parameter.
--   Errors               msys_hal/errors.py; `Result` is what a function that may raise returns, with a
--                        `HalError` or another Python exception by its class and text.
--   Validation           msys_hal/validation.py: Validation/Patterns has the regular expressions as
--                        matchers, Validation/Bounded `ensure_bounded_json`, Validation/Payload the checks.
--   SelectionStore       `SelectionStore` of msys_hal/manager.py: `load` and `save`, the latter as its
--                        system calls in order, each of which may fail.
--   Manager              `HalManager` of msys_hal/manager.py. Manager/State has the fields that the lock
--                        guards (`Shared`) and the surroundings (`Env`), Manager/Exec the actions, and
--                        Manager/Gateway, Describe, Discovery, Catalog, Probe, Inventory, Devices, Providers,
--                        Selection, Journal, Requests and Handle the methods, under their names without
--                        the underscore; Manager/Views has the answers with a size check.
--                        Manager/Evolution says how the fields may change, and the children named
--                        Guarantee carry that through the methods.
--   Mipc                 msys_hal/mipc.py: Mipc/Packet `encode_packet` and `decode_packet`, Mipc/Line and Mipc/Call
--                        `PublicGateway`, Mipc/Server `ComponentServer`, with its threads as a step relation,
--                        and Mipc/Server/Startup `event` and the greeting of `run`.
--   Action               functions from a state to a result and a state.
--   DisplaySession       msys_hal/display_session.py; DisplaySession/Reader has `_read_document` and
--                        `DisplaySessionReader`.
--   Linux                msys_hal/linux.py: the sysfs readers, and in Linux/Power, Linux/Thermal and
--                        Linux/Backlight the backends of these names; Linux/Attribute has the writing of a
--                        brightness, Linux/Numbers `round` of a quotient, and Linux/Display the checks of
--                        `DisplayBackend.set_state` in front of its call.
--   Radios               msys_hal/radios.py: the readers of sysfs; Radios/Lines has the text methods of
--                        Python, Radios/Interfaces `_classify_interface` and `_interface_values`,
--                        Radios/Responses the parsers, Radios/Credentials names and keys of networks,
--                        Radios/Control the protocol `WifiControl` and `WpaSupplicantControl` over sockets,
--                        Radios/Network `NetworkBackend` over any control channel: Network/Requests has
--                        what sends no command, Network/Backend the methods, Network/Selected is about
--                        the network that is meant, and Network/Trace, Part, Transaction, Dialogue,
--                        Queries, Conversation and Commands are about the commands that an action sends,
--                        Network/Rollback about the answers to those of a new network, Network/Degraded
--                        about the backend over sockets.
--                        Radios/Bluetooth is `BluetoothBackend`, Bluetooth/Switch its `set_state`.
--   Provider             msys_hal/provider.py: Provider/Construct `ProviderService.__init__`, Provider/Handle
--                        `handle`; Provider/Classes the service over the three backends of Linux.
--   Tests                concrete inputs.
--
-- Threads and time. A method is a function from the surroundings and the state to a result and a
-- state. Every time the lock is granted, behind `with self._lock` and behind a wait on the
-- condition, `Env.others` and `Env.others_disk` have changed the fields and the file in any way;
-- theorems name what they assume of it. The gateway, the clocks, the failures of system calls and
-- `repr` answer by all that has happened so far, which covers every behaviour of theirs. Clocks
-- count nanoseconds, as integers; the sums of the source are done in floating point.
--
-- Bounds and fuel. `watch` takes the number of rounds of its loop; one round more than its timeout
-- has nanoseconds is enough if every wait takes a nanosecond, and `handle` gives it that many.
-- `decimal` divides by ten at most as often as the number says. Every round of the loop of
-- `_recv_line` brings in a byte, so that two rounds more than a packet may have bytes are enough,
-- and likewise for the loop of `_read_document` with the bytes of a state file. Everything else is
-- structural recursion. The limits of the source (16 candidates, 256 events, 128 in an answer, 64
-- selections, 131072 bytes) stand in the definitions.
--
-- What is left out. The describe calls of a batch and the probes of `list_providers` run in a pool
-- of threads; they stand one after another in the order in which the results are taken. A `print`
-- has no effect. The answers are records; Manager/Views has the JSON form of those whose size is
-- checked. The polling thread stands as one round, `poll_once`, in Manager/Polling, where the text
-- of `json.dumps` is a function of the surroundings; its start and stop and `main` are not
-- modelled. The json module, the sockets, the clock, the pool of threads, files and sysfs are
-- parameters of Mipc, DisplaySession, Linux, Radios and Provider. What comes in on a socket is a
-- list of chunks; a call that a thread has taken up has its answer sent in one step. A write to
-- sysfs may change anything that sysfs says. `isprintable` and the decoding of UTF-8 are
-- parameters of Radios, where `casefold` is that of ASCII letters: what it is called on is ASCII
-- or compared with an ASCII word. The rest of the display backend and the input backend of
-- msys_hal/linux.py, msys_hal/ch347.py, the reading of the environment and of the command line,
-- and the C code of native/ are not modelled.
mod Prelude
pub mod Json
pub mod Errors
pub mod Validation
pub mod SelectionStore
pub mod Manager
pub mod Mipc
mod Action
pub mod DisplaySession
pub mod Linux
pub mod Radios
pub mod Provider
mod Tests
