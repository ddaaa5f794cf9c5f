-- ===== src/Manager/Polling.antt =====
-- `poll_once` and `_stable_poll_values` of manager.py: what the polling thread does in each round. The
-- values that a provider reports are JSON, so that the copy by `json` is the same value again.
use msys_hal.Prelude.{
  String, Bool, true, false, Option, none, some, List, [], ◌∷◌, if◌then◌else◌, ◌==◌, string_eq, map,
  refl, take,
}
use msys_hal.Json.{Value, bool, str, arr, obj, Fields, field, end, from_items}
use msys_hal.Errors.{Result, ok, err}
use msys_hal.Manager.State.{Shared, Env, State}
use msys_hal.Manager.Exec.{Exec, pure, attempt, ask, gets, modify, ◌>>=◌, ◌>>◌}
use msys_hal.Manager.Journal.{record_event}
use msys_hal.Manager.Journal.Guarantee.{record_event-Respects}
use msys_hal.Manager.Inventory.{InventoryRow, ListedDevice, inventory}
use msys_hal.Manager.Inventory.Guarantee.{inventory-Respects}
use msys_hal.Manager.Devices.{StateAnswer, get_state}
use msys_hal.Manager.Devices.Guarantee.{get_state-Respects}
use msys_hal.Manager.Views.{mode_text, text_or_null}
use msys_hal.Manager.Evolution.{Grows, Grows-same}
use msys_hal.Manager.Evolution.Rules.{
  IsRely, Respects, Respects-bind, Respects-if, Respects-pure, Respects-modify, Respects-attempt,
  Respects-gets, Respects-ask,
}

without : String → Fields → Fields
without key end = end
without key (field k v rest) = if k == key then without key rest else field k v (without key rest)

-- `session.pop("observed_at_unix_ms", None)` of a session that is a dict.
stable_session : Value → Value
stable_session (obj session) = obj (without "observed_at_unix_ms" session)
stable_session v = v

-- `_stable_poll_values`
unfoldable pub stable_poll_values : Fields → Fields
unfolding stable_session without
stable_poll_values end = end
stable_poll_values (field k v rest) =
    field k (if k == "display_session" then stable_session v else v) (stable_poll_values rest)

optional : String → Option String → Fields → Fields
optional key none rest = rest
optional key (some s) rest = field key (str s) rest

-- A row of `domains`; the keys are sorted by `json.dumps`.
row_payload : InventoryRow → Value
row_payload row = obj (
    field "domain" (str row.domain) (
      field "status" (str row.status) (
        field "selection" (str (mode_text row.selection)) (
          field "provider" (text_or_null row.provider)
            (optional "reason" row.reason (optional "error" row.error end))))))

polled_state : String → Result StateAnswer → Value
unfolding stable_poll_values
polled_state id (ok answer) =
    obj (field "id" (str id) (field "values" (obj (stable_poll_values answer.state.values)) end))
polled_state id (err e) = obj (field "id" (str id) (field "unavailable" (bool true) end))

poll_available : Bool → String → Exec (List Value) → Exec (List Value)
poll_available true id others = do
  outcome ← attempt (get_state id false)
  states ← others
  pure (polled_state id outcome ∷ states)
poll_available false id others = others

-- The loop over the devices.
poll_states : List ListedDevice → Exec (List Value)
unfolding poll_available polled_state
poll_states [] = pure []
poll_states (l ∷ ls) = poll_available l.device.available l.device.id (poll_states ls)

fingerprint_of : List InventoryRow → List Value → Value
fingerprint_of rows states = obj (
    field "domains" (arr (from_items (map row_payload rows)))
      (field "states" (arr (from_items states)) end))

set_fingerprint : String → Shared → Shared
set_fingerprint fingerprint s = record s { last_fingerprint = some fingerprint }

-- The first fingerprint, and one that is the same again, are no event.
judge_fingerprint : Option String → String → Exec (Unit {0})
judge_fingerprint none fingerprint = pure tt
judge_fingerprint (some previous) fingerprint =
    if previous == fingerprint
    then pure tt
    else (record_event "inventory-changed" "all" none none none >>= λ revision. pure tt)

-- `poll_once`
unfoldable pub poll_once : Exec (Unit {0})
unfolding poll_states fingerprint_of set_fingerprint judge_fingerprint row_payload optional
poll_once = do
  answer ← inventory none true
  states ← poll_states (take 256 answer.devices)
  fingerprint ← ask (λ env. env.dumps (fingerprint_of answer.domains states))
  previous ← gets (λ s. s.last_fingerprint)
  modify (set_fingerprint fingerprint)
  judge_fingerprint previous fingerprint

poll_available-Respects :
    (b : Bool) (id : String) (others : Exec (List Value))
    → Respects others
    → Respects (poll_available b id others)
unfolding poll_available
poll_available-Respects true id others h =
    Respects-bind _ _ (Respects-attempt _ (get_state-Respects id false))
      λ outcome. Respects-bind _ _ h λ states. Respects-pure (polled_state id outcome ∷ states)
poll_available-Respects false id others h = h

poll_states-Respects : (ls : List ListedDevice) → Respects (poll_states ls)
unfolding poll_states
poll_states-Respects [] = Respects-pure []
poll_states-Respects (l ∷ ls) =
    poll_available-Respects l.device.available l.device.id (poll_states ls)
      (poll_states-Respects ls)

set_fingerprint-Respects : (fingerprint : String) → Respects (modify (set_fingerprint fingerprint))
unfolding set_fingerprint
set_fingerprint-Respects fingerprint = Respects-modify _ (λ s. Grows-same s _ refl refl refl)

judge_fingerprint-Respects :
    (previous : Option String) (fingerprint : String)
    → Respects (judge_fingerprint previous fingerprint)
unfolding judge_fingerprint
judge_fingerprint-Respects none fingerprint = Respects-pure tt
judge_fingerprint-Respects (some previous) fingerprint =
    Respects-if (previous == fingerprint) _ _ (Respects-pure tt) (
      Respects-bind _ _ (record_event-Respects "inventory-changed" "all" none none none refl refl)
        λ revision. Respects-pure tt)

poll_once-Respects : Respects poll_once
unfolding poll_once
poll_once-Respects = Respects-bind _ _ (inventory-Respects none true) λ answer.
    Respects-bind _ _ (poll_states-Respects (take 256 answer.devices)) λ states.
      Respects-bind _ _ (Respects-ask (λ env. env.dumps (fingerprint_of answer.domains states)))
        λ fingerprint. Respects-bind _ _ (Respects-gets (λ s. s.last_fingerprint)) λ previous.
          Respects-bind _ _ (set_fingerprint-Respects fingerprint)
            λ u. judge_fingerprint-Respects previous fingerprint

-- A round of the polling thread keeps to what the methods keep to: if the other threads change the
-- fields only by events whenever the lock is granted, then from its start to its end the revision
-- grows by the number of new events, the journal by these events, and each domain has the choice
-- that the events, replayed, give it.
pub poll_once-Grows :
    (env : Env) (s : State) → IsRely env → Grows s.shared (poll_once env s).1.shared
poll_once-Grows env s rely = poll_once-Respects.at env s rely
