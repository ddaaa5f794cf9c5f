-- ===== src/Manager/Probe/Guarantee.antt =====
-- A probe writes a health record alone.
use msys_hal.Prelude.{ℕ, String, refl}
use msys_hal.Errors.{Result, ok, err}
use msys_hal.Manager.State.{Candidate, ProviderHealth, Shared}
use msys_hal.Manager.Exec.{modify}
use msys_hal.Manager.Responses.{Inventory}
use msys_hal.Manager.Gateway.Guarantee.{invoke-Respects}
use msys_hal.Manager.Probe.{set_health, fetch_inventory, record_health, probe_candidate}
use msys_hal.Manager.Evolution.{Grows, Grows-same}
use msys_hal.Manager.Evolution.Rules.{Respects, respects_rules, Respects-modify}

set_health-Grows :
    (component domain : String) (health : ProviderHealth) (s : Shared)
    → Grows s (set_health component domain health s)
set_health-Grows component domain health s = Grows-same s _ refl refl refl

set_health-Respects :
    (component domain : String) (health : ProviderHealth)
    → Respects (modify (set_health component domain health))
set_health-Respects component domain health =
    Respects-modify _ (set_health-Grows component domain health)

fetch_inventory-Respects :
    (candidate : Candidate) (domain : String) (timeout_ms : ℕ)
    → Respects (fetch_inventory candidate domain timeout_ms)
unfolding fetch_inventory
fetch_inventory-Respects candidate domain timeout_ms = search (respects_rules, invoke-Respects)

record_health-Respects :
    (candidate : Candidate) (domain : String) (started : ℕ) (outcome : Result Inventory)
    → Respects (record_health candidate domain started outcome)
unfolding record_health
record_health-Respects candidate domain started (err e) =
    search (respects_rules, set_health-Respects) depth 8
record_health-Respects candidate domain started (ok inventory) =
    search (respects_rules, set_health-Respects) depth 8

pub probe_candidate-Respects :
    (candidate : Candidate) (domain : String) (timeout_ms : ℕ)
    → Respects (probe_candidate candidate domain timeout_ms)
unfolding probe_candidate
probe_candidate-Respects candidate domain timeout_ms =
    search (respects_rules, fetch_inventory-Respects, record_health-Respects) depth 8
