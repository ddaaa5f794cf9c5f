-- ===== src/Manager/Describe/Guarantee.antt =====
-- Describing a candidate leaves the fields alone.
use msys_hal.Prelude.{String}
use msys_hal.Json.Int.{ℤ}
use msys_hal.Manager.Describe.{describe_candidate}
use msys_hal.Manager.Gateway.Guarantee.{invoke-Respects}
use msys_hal.Manager.Evolution.Rules.{Respects, respects_rules}

pub describe_candidate-Respects :
    (component : String) (priority : ℤ) → Respects (describe_candidate component priority)
unfolding describe_candidate
describe_candidate-Respects component priority = search (respects_rules, invoke-Respects)
