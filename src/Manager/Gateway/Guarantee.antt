-- ===== src/Manager/Gateway/Guarantee.antt =====
-- A call of the gateway leaves the fields alone.
use msys_hal.Prelude.{String}
use msys_hal.Manager.State.{Call, Reply, returned, raised, lost, failed}
use msys_hal.Manager.Gateway.{settle, invoke}
use msys_hal.Manager.Evolution.{Grows-refl}
use msys_hal.Manager.Evolution.Rules.{Respects, respects_rules}

settle-Respects : (reply : Reply) (operation : String) → Respects (settle reply operation)
unfolding settle
settle-Respects (returned v) operation = record { at = λ env s r. Grows-refl s.shared }
settle-Respects (raised e) operation = record { at = λ env s r. Grows-refl s.shared }
settle-Respects (lost name) operation = record { at = λ env s r. Grows-refl s.shared }
settle-Respects (failed name) operation = record { at = λ env s r. Grows-refl s.shared }

pub invoke-Respects : (call : Call) (operation : String) → Respects (invoke call operation)
unfolding invoke
invoke-Respects call operation = search (respects_rules, settle-Respects)
