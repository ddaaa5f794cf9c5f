-- ===== src/Manager/Selection.antt =====
-- `select_provider` and `_check_revision` of manager.py.
pub mod Guarantee
pub mod Exclusion
use msys_hal.Prelude.{
  ℕ, String, Bool, true, false, not, ◌&&◌, Option, none, some, List, [], ◌∷◌, if◌then◌else◌, ◌==◌,
  string_eq, nat_eq, is_some,
}
use msys_hal.Prelude.Dict.{Dict, get, put, pop, keep}
use msys_hal.Json.{int, str, field, end}
use msys_hal.Json.Int.{pos}
use msys_hal.Errors.{
  Exception, python, error_code, Result, ok, err, unavailable_error, persistence_error,
  conflict_error,
}
use msys_hal.SelectionStore.{save}
use msys_hal.Manager.State.{Candidate, Event, Shared, Env, State, saving}
use msys_hal.Manager.Exec.{Exec, pure, raise, attempt, gets, modify, acquire, ◌>>=◌, ◌>>◌}
use msys_hal.Manager.Responses.{Inventory}
use msys_hal.Manager.Journal.{next_event, append_event, emit_event}
use msys_hal.Manager.Catalog.{candidates_for}
use msys_hal.Manager.Probe.{probe_candidate}
use msys_hal.Manager.Devices.{domain_of}
use msys_hal.Manager.Providers.{named, require_provider, list_providers}
use msys_hal.Manager.Views.{ProviderList}

-- `_check_revision`: the details name both revisions.
unfoldable pub check_revision : Option ℕ → Exec (Unit {0})
check_revision none env s = (ok tt, s)
check_revision (some expected) env s = (judged, s)
  where
    judged : Result (Unit {0})
    judged =
        if expected == s.shared.revision
        then ok tt
        else err (
            conflict_error "HAL provider selection changed concurrently" (
              field "expected_revision" (int (pos expected))
                (field "actual_revision" (int (pos s.shared.revision)) end)))

-- `self._selections[domain] = component`, or `pop` for None.
abbrev pub set_selection : String → Option String → Dict String String → Dict String String
set_selection domain none selections = pop domain selections
set_selection domain (some component) selections = put domain component selections

abbrev same_choice : Option String → Option String → Bool
same_choice none none = true
same_choice (some a) (some b) = a == b
same_choice a b = false

-- `store.save(self._selections)`
save_selections : Exec (Unit {0})
save_selections env s =
    let (outcome, disk) = save s.shared.selections (env.disk_fails s.trace) s.disk in
    (outcome, record s { disk = disk; trace = saving ∷ s.trace })

-- `type(exc).__name__`
abbrev class_name : Exception → String
class_name (Exception.hal e) = if e.code == "HAL_BAD_PAYLOAD" then "ValidationError" else "HalError"
class_name (python name text) = name

abbrev kind_of : Option String → String
kind_of none = "provider-reset"
kind_of (some component) = "provider-selected"

abbrev mode_of : Option String → String
mode_of none = "automatic"
mode_of (some component) = "manual"

-- The device routes of other domains.
abbrev pub other_routes : String → Dict String Candidate → Dict String Candidate
other_routes domain routes = keep (λ identifier route. not (domain_of identifier == domain)) routes

-- What the commit does to the fields behind a successful `save`.
unfoldable pub committed : String → Option String → Event → Shared → Shared
committed domain component event s = append_event event (record s {
  device_routes = other_routes domain s.device_routes;
  active_providers = pop domain s.active_providers;
})

-- The end of the commit by the outcome of `save`: an error puts the old selection back.
finish_commit : String → Option String → Option String → Result (Unit {0}) → Exec (Option Event)
unfolding committed
finish_commit domain component old (err e) = do
  modify (λ s. record s { selections = set_selection domain old s.selections })
  raise (
      persistence_error "HAL provider preference could not be saved"
        (field "domain" (str domain) (field "cause" (str (class_name e)) end)))
finish_commit domain component old (ok u) = do
  event ← gets (next_event (kind_of component) domain none component (some (mode_of component)))
  modify (committed domain component event)
  pure (some event)

-- The new choice is written to the fields, then to the file.
write_choice : String → Option String → Option String → Exec (Option Event)
write_choice domain component old = do
  modify (λ s. record s { selections = set_selection domain component s.selections })
  outcome ← attempt save_selections
  finish_commit domain component old outcome

-- The block under the lock at the end of `select_provider`: None if the choice stands already.
pub commit_locked : String → Option String → Option ℕ → Exec (Option Event)
commit_locked domain component expected_revision = do
  check_revision expected_revision
  old ← gets (λ s. get domain s.selections)
  if same_choice old component then pure none else write_choice domain component old

unfoldable pub commit_selection : String → Option String → Option ℕ → Exec (Option Event)
unfolding commit_locked write_choice check_revision save_selections finish_commit
commit_selection domain component expected_revision = do
  acquire
  commit_locked domain component expected_revision

-- The preflight: a candidate that cannot be probed is refused, and one that is unavailable too,
-- unless the caller allows it.
judge_preflight : String → String → Bool → Result Inventory → Exec (Unit {0})
judge_preflight domain component allow_unavailable (err e) = raise (
    unavailable_error "HAL provider failed selection preflight" (
      field "domain" (str domain)
        (field "component" (str component) (field "error_code" (str (error_code e)) end))))
judge_preflight domain component allow_unavailable (ok inventory) =
    if inventory.row.status == "unavailable" && not allow_unavailable
    then raise (
        unavailable_error "HAL provider is unavailable for this domain" (
          field "domain" (str domain) (
            field "component" (str component) (
              field "reason"
                (str (elim inventory.row.reason [ none ↦ "unavailable" | some reason ↦ reason ]))
                end))))
    else pure tt

unfoldable pub preflight : String → Option Candidate → Bool → Exec (Unit {0})
unfolding judge_preflight
preflight domain none allow_unavailable = pure tt
preflight domain (some c) allow_unavailable = do
  outcome ← attempt (probe_candidate c domain 3000)
  judge_preflight domain c.component allow_unavailable outcome

announce : Option Event → Exec (Unit {0})
announce none = pure tt
announce (some event) = emit_event event

-- `select_provider`; `component` is None for a reset.
unfoldable pub select_provider : String → Option String → Option ℕ → Bool → Exec ProviderList
unfolding announce check_revision
select_provider domain component expected_revision allow_unavailable = do
  candidates ← candidates_for domain true
  let selected = named component candidates
  require_provider domain component selected
  acquire
  check_revision expected_revision
  unchanged ← gets (λ s. same_choice (get domain s.selections) component)
  if unchanged then list_providers (some domain) false false else do
    preflight domain selected allow_unavailable
    event ← commit_selection domain component expected_revision
    announce event
    list_providers (some domain) false false
