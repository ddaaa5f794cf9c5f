-- ===== src/Tests/Managers.antt =====
-- The manager's theorems in the world of one provider.
use msys_hal.Prelude.{
  suc, ◌+◌, ◌*◌, ◌≡◌, refl, true, Option, none, some, List, [], ◌∷◌, arith, decimal, take, filter,
}
use msys_hal.Errors.{Exception, Result, ok, err, error_code}
use msys_hal.Manager.State.{Candidate, Event, State}
use msys_hal.Manager.Exec.{acquire, monotonic, unix_ms}
use msys_hal.Manager.Selection.{commit_locked, commit_selection}
use msys_hal.Manager.Selection.Exclusion.{
  Outcome, commit_locked-Outcome, commit_selection-exclusive,
}
use msys_hal.Manager.Evolution.{Grows, Grows-refl}
use msys_hal.Manager.Inventory.{InventoryAnswer, inventory}
use msys_hal.Manager.Inventory.Routes.{AreRouted, inventory-AreRouted}
use msys_hal.Validation.Bounded.{ensure_bounded_json}
use msys_hal.Validation.Patterns.{component_re, domain_re, semver_re, device_id_re}
use msys_hal.Manager.Gateway.{invoke}
use msys_hal.Manager.Responses.{unwrap, normalize_inventory, normalize_device}
use msys_hal.Manager.Discovery.{provider_specs}
use msys_hal.Manager.Catalog.{refresh_catalog, ordered_for, candidates_for}
use msys_hal.Json.{field, end, obj, bool}
use msys_hal.Manager.Handle.{handle, handle-Grows}
use msys_hal.Json.Int.{clamp}
use msys_hal.Validation.Payload.{
  object_payload, string_list, domain, semantic_version, device_id, safe_scalar_map,
}
use msys_hal.Manager.Describe.{describe_candidate}
use msys_hal.SelectionStore.{save, selection_payload}
use msys_hal.Manager.Journal.{watch, watch_answer, must_resync, wants}
use msys_hal.Manager.Journal.History.{watch_answer_complete}
use msys_hal.Manager.Journal.Waiting.{HasReason, watch_ends}
use msys_hal.Manager.Catalog.{automatic, order_by}
use msys_hal.Manager.Catalog.Ranking.{IsCatalog, refresh_catalog-IsCatalog}
use msys_hal.Manager.Probe.{probe_candidate}
use msys_hal.Manager.Inventory.{try_candidates}
use msys_hal.Manager.Inventory.Fallback.{
  pick, probed, only_choice, try_candidates-automatic, try_candidates-manual,
}
use msys_hal.Tests.World.{
  panel, world, start, known, world-IsRely, world-IsClock, an_event, after_event,
  after_event-IsTail,
}

commit_locked-Outcome_example :
    Outcome "backlight"
      (some "org.msys.hal.linux:main")
      world
      known
      (commit_locked "backlight" (some "org.msys.hal.linux:main") (some 0) world known)
commit_locked-Outcome_example =
    commit_locked-Outcome "backlight" (some "org.msys.hal.linux:main") (some 0) world known refl

abbrev first_commit : Result (Option Event) × State
first_commit = commit_selection "backlight" (some "org.msys.hal.linux:main") (some 0) world known

abbrev chosen_event : Event
chosen_event = record {
  revision = 1;
  kind = "provider-selected";
  domain = "backlight";
  id = none;
  provider = some "org.msys.hal.linux:main";
  selection = some "manual";
}

commit_selection-exclusive_example :
    (error : Exception) × (commit_selection "backlight" none (some 0) world first_commit.1
      ≡ (err error, (acquire world first_commit.1).1))
    × (error_code error ≡ "HAL_CONFLICT")
unfolding commit_selection acquire save ensure_bounded_json domain_re component_re decimal
    selection_payload
commit_selection-exclusive_example =
    commit_selection-exclusive 0 world "backlight" "backlight" (some "org.msys.hal.linux:main") none
      known first_commit.1 first_commit.1 chosen_event world-IsRely refl refl
      (Grows-refl first_commit.1.shared)

watch_answer_complete_example :
    (watch_answer 0 [] after_event).events ≡ take 128 (filter (wants 0 []) (an_event ∷ []))
unfolding watch_answer must_resync
watch_answer_complete_example = watch_answer_complete after_event-IsTail 0 [] refl

watch_ends_example :
    let (r, t) = watch (suc 1000000) 0 1 [] world start in
    (r ≡ ok (watch_answer 0 [] t.shared))
    × HasReason world 0 [] (world.monotonic start.trace + 1 * 1000000) t
watch_ends_example = watch_ends world 1000000 0 1 [] start world-IsClock (omega arith) (omega arith)

abbrev listed_answer : Result InventoryAnswer → InventoryAnswer
listed_answer (ok r) = r
listed_answer (err e) = record { revision = 7; domains = []; devices = [] }

abbrev world_inventory : Result InventoryAnswer × State
world_inventory = inventory (some ("backlight" ∷ [])) true world start

inventory-AreRouted_example :
    AreRouted world_inventory.1.shared.device_routes (listed_answer world_inventory.0).devices
unfolding inventory refresh_catalog acquire invoke unwrap ensure_bounded_json provider_specs
    component_re monotonic ordered_for candidates_for decimal describe_candidate object_payload
    string_list domain domain_re semantic_version semver_re probe_candidate normalize_inventory
    normalize_device device_id device_id_re safe_scalar_map unix_ms clamp
inventory-AreRouted_example =
    inventory-AreRouted (some ("backlight" ∷ [])) true world start world_inventory.1
      (listed_answer world_inventory.0) refl

abbrev the_catalog : Result (List Candidate) × State
the_catalog = refresh_catalog true world start

refresh_catalog-IsCatalog_example : IsCatalog (panel ∷ []) the_catalog.1.shared
unfolding refresh_catalog acquire invoke unwrap ensure_bounded_json provider_specs component_re
    monotonic decimal describe_candidate object_payload string_list domain domain_re
    semantic_version semver_re clamp
refresh_catalog-IsCatalog_example =
    refresh_catalog-IsCatalog world start the_catalog.1 (panel ∷ []) refl

try_candidates-automatic_example :
    (try_candidates automatic "backlight" none [] (panel ∷ []) world known).0
    ≡ ok (pick (probed "backlight" (panel ∷ []) world known))
try_candidates-automatic_example =
    try_candidates-automatic automatic "backlight" (panel ∷ []) world known refl

try_candidates-manual_example :
    let (ordered, mode) = order_by (some "org.msys.hal.linux:main") (panel ∷ []) in
    let (outcome, t) = probe_candidate panel "backlight" 5000 world known in
    try_candidates mode "backlight" none [] ordered world known
    ≡ (ok (only_choice panel outcome), t)
try_candidates-manual_example =
    try_candidates-manual "org.msys.hal.linux:main" "backlight" (panel ∷ []) panel world known refl
      refl

handle-Grows_example :
    Grows start.shared
      (handle "inventory" (obj (field "refresh" (bool true) end)) world start).1.shared
handle-Grows_example =
    handle-Grows "inventory" (obj (field "refresh" (bool true) end)) world start world-IsRely
