-- ===== src/Tests/World.antt =====
-- A world with one provider of backlights: its answers, a clock that ticks, and a quiet rest.
use msys_hal.Prelude.{
  ◌*◌, refl, arith, true, none, some, [], ◌∷◌, ◌==◌, string_eq, if◌then◌else◌, length,
}
use msys_hal.Json.{bool, int, str, arr, obj, nil, cons, Fields, end, field, texts}
use msys_hal.Json.Int.{pos}
use msys_hal.Manager.State.{Candidate, Event, Shared, init, Call, Reply, returned, Env, State}
use msys_hal.Manager.Responses.{provider_interface}
use msys_hal.Manager.Evolution.{Grows-refl}
use msys_hal.Manager.Evolution.Rules.{IsRely}
use msys_hal.Manager.Journal.History.{IsTail}
use msys_hal.Manager.Journal.Waiting.{IsClock}

abbrev pub panel : Candidate
panel = record {
  component = "org.msys.hal.linux:main";
  target = "component:org.msys.hal.linux:main";
  priority = pos 10;
  domains = "backlight" ∷ [];
  name = "Linux";
  version = "1.0.0";
  capabilities = "backlight.inventory" ∷ "backlight.state.read" ∷ [];
}

abbrev answer : Fields → Reply
answer payload = returned (obj (field "type" (str "return") (field "payload" (obj payload) end)))

abbrev discovered : Fields
discovered =
    field "services"
      (arr (
        cons
          (obj (
            field "name" (str provider_interface) (
              field "providers"
                (arr (
                  cons
                    (obj (
                      field "component" (str "org.msys.hal.linux:main")
                        (field "priority" (int (pos 10)) end)))
                    nil))
                end)))
          nil))
      end

abbrev described : Fields
described = field "schema" (str provider_interface) (
    field "provider"
      (obj (
        field "id" (str "org.msys.hal.linux:main")
          (field "name" (str "Linux") (field "version" (str "1.0.0") end))))
      (field "domains" (arr (texts ("backlight" ∷ []))) end))

abbrev device : Fields
device = field "id" (str "backlight:panel0") (
    field "domain" (str "backlight") (
      field "name" (str "Panel") (
        field "available" (bool true)
          (field "mutable" (arr (texts ("percent" ∷ []))) (field "metadata" (obj end) end)))))

abbrev pub listed : Fields
listed = field "schema" (str provider_interface) (
    field "provider" (str "org.msys.hal.linux:main") (
      field "domains"
        (arr (
          cons (obj (field "domain" (str "backlight") (field "status" (str "available") end))) nil))
        (field "devices" (arr (cons (obj device) nil)) end)))

abbrev reply_to : Call → Reply
reply_to c =
    if c.method == "discover"
    then answer discovered
    else if c.method == "describe"
    then answer described
    else answer listed

abbrev pub world : Env
world = record {
  catalog_ttl = 15 * 1000000000;
  reply = λ trace c. reply_to c;
  monotonic = λ trace. length trace;
  unix_ms = λ trace. 1700000000000;
  others = λ trace s. s;
  others_disk = λ trace d. d;
  disk_fails = λ trace step. none;
  repr = λ v. "";
  dumps = λ v. "";
}

abbrev pub start : State
start = record { shared = init []; disk = record { current = none; temporary = none }; trace = [] }

-- The start with the provider in the catalog.
abbrev pub known : State
known = record start { shared = record (init []) { candidates = panel ∷ [] } }

pub world-IsRely : IsRely world
world-IsRely = record { others_grow = λ trace s. Grows-refl s }

pub world-IsClock : IsClock world
world-IsClock = record { forward = λ t. omega arith; waits = λ t. omega arith }

abbrev pub an_event : Event
an_event = record {
  revision = 1;
  kind = "state-changed";
  domain = "backlight";
  id = some "backlight:panel0";
  provider = some "org.msys.hal.linux:main";
  selection = none;
}

-- The fields after one event.
abbrev pub after_event : Shared
after_event = record (init []) { revision = 1; journal = an_event ∷ [] }

pub after_event-IsTail : IsTail (an_event ∷ []) after_event
after_event-IsTail = record { numbered = (refl, tt); counted = refl; tail = refl }

pub start-IsTail : IsTail [] (init [])
start-IsTail = record { numbered = tt; counted = refl; tail = refl }
