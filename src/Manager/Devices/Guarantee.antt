-- ===== src/Manager/Devices/Guarantee.antt =====
-- Reading and writing device states: the one event says nothing about the selections.
use msys_hal.Prelude.{String, Bool, true, false, Option, none, some}
use msys_hal.Json.{Fields}
use msys_hal.Manager.State.{Candidate}
use msys_hal.Manager.Gateway.Guarantee.{invoke-Respects}
use msys_hal.Manager.Journal.Guarantee.{record_event-Respects}
use msys_hal.Manager.Inventory.Guarantee.{inventory-Respects}
use msys_hal.Manager.Devices.{known_route, or_unavailable, looked_up, route, get_state, set_state}
use msys_hal.Manager.Evolution.Rules.{Respects, respects_rules}

known_route-Respects :
    (identifier : String) (refresh : Bool) → Respects (known_route identifier refresh)
unfolding known_route
known_route-Respects identifier true = search respects_rules
known_route-Respects identifier false = search respects_rules

or_unavailable-Respects :
    (identifier : String) (found : Option Candidate) → Respects (or_unavailable identifier found)
or_unavailable-Respects identifier none = search respects_rules
or_unavailable-Respects identifier (some c) = search respects_rules

looked_up-Respects :
    (identifier : String) (refresh : Bool) (known : Option Candidate)
    → Respects (looked_up identifier refresh known)
unfolding looked_up
looked_up-Respects identifier refresh (some c) = search respects_rules
looked_up-Respects identifier refresh none =
    search (respects_rules, inventory-Respects, or_unavailable-Respects) depth 8

pub route-Respects : (identifier : String) (refresh : Bool) → Respects (route identifier refresh)
unfolding route
route-Respects identifier refresh =
    search (respects_rules, known_route-Respects, looked_up-Respects)

pub get_state-Respects :
    (identifier : String) (refresh : Bool) → Respects (get_state identifier refresh)
unfolding get_state
get_state-Respects identifier refresh =
    search (respects_rules, route-Respects, invoke-Respects) depth 10

pub set_state-Respects :
    (identifier : String) (changes : Fields) → Respects (set_state identifier changes)
unfolding set_state
set_state-Respects identifier changes =
    search (respects_rules, route-Respects, invoke-Respects, record_event-Respects) depth 10
