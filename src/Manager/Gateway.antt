-- ===== src/Manager/Gateway.antt =====
-- `_invoke` of manager.py: one call of the gateway, its failures typed.
pub mod Guarantee
use msys_hal.Prelude.{String, [], ◌∷◌, concat}
use msys_hal.Json.{str, Fields, end, field}
use msys_hal.Errors.{err, hal, unavailable_error, provider_error}
use msys_hal.Manager.State.{Call, Reply, returned, raised, lost, failed}
use msys_hal.Manager.Exec.{Exec, ◌>>=◌, gateway_call}
use msys_hal.Manager.Responses.{unwrap}

-- `{"operation": operation, "cause": type(exc).__name__}`
cause_details : String → String → Fields
cause_details operation name = field "operation" (str operation) (field "cause" (str name) end)

settle : Reply → String → Exec Fields
unfolding cause_details
settle (returned response) operation env s = (unwrap env response operation, s)
settle (raised e) operation env s = (err (hal e), s)
settle (lost name) operation env s = (
  err (
      unavailable_error (concat (operation ∷ " is unavailable" ∷ []))
        (cause_details operation name)),
  s,
)
settle (failed name) operation env s = (
  err (
      provider_error (concat (operation ∷ " could not be completed" ∷ []))
        (cause_details operation name)),
  s,
)

-- `_invoke`, the call's arguments packed in a `Call`.
unfoldable pub invoke : Call → String → Exec Fields
unfolding settle gateway_call
invoke call operation = do reply ← gateway_call call; settle reply operation
