-- ===== src/Manager/Handle.antt =====
-- `handle` of manager.py: a request is read, and then the manager's method is called.
use msys_hal.Prelude.{suc, ◌*◌, String}
use msys_hal.Json.{Value}
use msys_hal.Manager.State.{Env, State}
use msys_hal.Manager.Exec.{Exec, pure, lift, ask, ◌>>=◌}
use msys_hal.Manager.Journal.{WatchAnswer, watch}
use msys_hal.Manager.Journal.Guarantee.{watch-Respects}
use msys_hal.Manager.Inventory.{InventoryAnswer, inventory}
use msys_hal.Manager.Inventory.Guarantee.{inventory-Respects}
use msys_hal.Manager.Devices.{StateAnswer, get_state, set_state}
use msys_hal.Manager.Devices.Guarantee.{get_state-Respects, set_state-Respects}
use msys_hal.Manager.Providers.{list_providers, get_provider}
use msys_hal.Manager.Views.{ProviderList, ProviderDetail}
use msys_hal.Manager.Providers.Guarantee.{list_providers-Respects, get_provider-Respects}
use msys_hal.Manager.Selection.{select_provider}
use msys_hal.Manager.Selection.Guarantee.{select_provider-Respects}
use msys_hal.Manager.Requests.{
  Request, inventory_request, get_state_request, set_state_request, list_request, detail_request,
  select_request, watch_request, request_of,
}
use msys_hal.Manager.Evolution.{Grows}
use msys_hal.Manager.Evolution.Rules.{
  IsRely, Respects, respects_rules, Respects-bind, Respects-ask, Respects-lift,
}

pub data Answer : Type 0 where
  inventory_answer : InventoryAnswer → Answer
  state_answer : StateAnswer → Answer
  list_answer : ProviderList → Answer
  detail_answer : ProviderDetail → Answer
  watched : WatchAnswer → Answer

-- The call of the method; `watch` is given one round more than its timeout has nanoseconds.
perform : Request → Exec Answer
perform (inventory_request domains refresh) = do
  answer ← inventory domains refresh
  pure (inventory_answer answer)
perform (get_state_request id refresh) = do
  answer ← get_state id refresh
  pure (state_answer answer)
perform (set_state_request id requested) = do
  answer ← set_state id requested
  pure (state_answer answer)
perform (list_request of refresh probe) = do
  answer ← list_providers of refresh probe
  pure (list_answer answer)
perform (detail_request of component refresh probe) = do
  answer ← get_provider of component refresh probe
  pure (detail_answer answer)
perform (select_request of component expected allow) = do
  answer ← select_provider of component expected allow
  pure (list_answer answer)
perform (watch_request after_revision timeout_ms domains) = do
  answer ← watch (suc (timeout_ms * 1000000)) after_revision timeout_ms domains
  pure (watched answer)

-- `handle`
unfoldable pub handle : String → Value → Exec Answer
unfolding perform
handle method payload = do
  request ← ask (λ env. request_of env.repr method payload)
  read ← lift request
  perform read

perform-Respects : (r : Request) → Respects (perform r)
unfolding perform
perform-Respects (inventory_request domains refresh) = search (respects_rules, inventory-Respects)
perform-Respects (get_state_request id refresh) = search (respects_rules, get_state-Respects)
perform-Respects (set_state_request id requested) = search (respects_rules, set_state-Respects)
perform-Respects (list_request of refresh probe) = search (respects_rules, list_providers-Respects)
perform-Respects (detail_request of component refresh probe) =
    search (respects_rules, get_provider-Respects)
perform-Respects (select_request of component expected allow) =
    search (respects_rules, select_provider-Respects)
perform-Respects (watch_request after_revision timeout_ms domains) =
    search (respects_rules, watch-Respects)

-- Whatever method is called with whatever payload, and however it ends: if the other threads change
-- the fields only by events whenever the lock is granted, then from the call to its end the revision
-- grows by the number of new events, the journal by these events, and each domain has the choice
-- that the events, replayed, give it.
pub handle-Grows :
    (method : String) (payload : Value) (env : Env) (s : State)
    → IsRely env
    → Grows s.shared (handle method payload env s).1.shared
unfolding handle
handle-Grows method payload env s rely =
    (Respects-bind (ask (λ e. request_of e.repr method payload)) _ (Respects-ask _)
        λ request. Respects-bind (lift request) _ (Respects-lift request) perform-Respects).at
      env s rely
