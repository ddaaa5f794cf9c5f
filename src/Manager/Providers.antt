-- ===== src/Manager/Providers.antt =====
-- `list_providers`, `get_provider`, `_selection_for` and `_candidate_payload` of manager.py. The probes
-- of `list_providers` run in a thread pool; here they stand one after another, in the order of the
-- candidates.
pub mod Guarantee
use msys_hal.Prelude.{
  ℕ, String, Bool, true, false, not, ◌&&◌, ◌||◌, Option, none, some, List, [], ◌∷◌, map,
  if◌then◌else◌, ◌==◌, string_eq, pair_eq, find, filter, any, concat, starts_with, is_some,
}
use msys_hal.Prelude.Dict.{get, put}
use msys_hal.Json.{str, field, end, Fields}
use msys_hal.Errors.{validation_error}
use msys_hal.Manager.State.{Candidate, ProviderHealth, Shared}
use msys_hal.Manager.Exec.{Exec, pure, raise, lift, attempt, gets, modify, acquire, ◌>>=◌, ◌>>◌}
use msys_hal.Manager.Catalog.{
  SelectionMode, manual, stale, automatic, refresh_catalog, candidates_for, is_component, offers,
}
use msys_hal.Validation.Bounded.{ensure_bounded_json}
use msys_hal.Manager.Views.{
  Selected, CandidateView, ProviderRow, ProviderList, ProviderDetail, list_payload, detail_payload,
}
use msys_hal.Manager.Probe.{probe_candidate}
use msys_hal.Manager.Inventory.{available_domains}

abbrev pub has_component : Option String → List Candidate → Bool
has_component none candidates = false
has_component (some component) candidates = any (is_component component) candidates

abbrev pub first_component : List Candidate → Option String
first_component [] = none
first_component (c ∷ cs) = some c.component

abbrev pub join_option : Option (Option String) → Option String
join_option none = none
join_option (some o) = o

-- `"manual" if preferred == active and preferred is not None else "stale" if preferred else ...`
selection_mode : Option String → Option String → SelectionMode
selection_mode none active = automatic
selection_mode (some preferred) none = if preferred == "" then automatic else stale
selection_mode (some preferred) (some active) =
    if preferred == active then manual else if preferred == "" then automatic else stale

-- `_selection_for`, under the lock.
unfoldable pub selected_in : String → List Candidate → Shared → Selected
unfolding selection_mode
selected_in requested_domain matching s =
    let preferred = get requested_domain s.selections in
    let observed = join_option (get requested_domain s.active_providers) in
    let active =
      if has_component preferred matching
      then preferred
      else if has_component observed matching
      then observed
      else first_component matching in
    record { preferred = preferred; active = active; selection = selection_mode preferred active }

unfoldable pub selection_for : String → List Candidate → Exec Selected
selection_for requested_domain matching = do acquire; gets (selected_in requested_domain matching)

abbrev same_name : Option String → String → Bool
same_name none component = false
same_name (some s) component = component == s

unfoldable pub candidate_view : Candidate → String → Selected → Exec CandidateView
candidate_view candidate requested_domain chosen = do
  acquire
  health ← gets (λ s. get (candidate.component, requested_domain) s.provider_health)
  pure (record {
    candidate = candidate;
    capabilities =
        filter (λ item. starts_with item (concat (requested_domain ∷ "." ∷ [])))
          candidate.capabilities;
    selected = same_name chosen.preferred candidate.component;
    active = same_name chosen.active candidate.component;
    health = health;
  })

candidate_views : List Candidate → String → Selected → Exec (List CandidateView)
unfolding candidate_view
candidate_views [] requested_domain chosen = pure []
candidate_views (c ∷ cs) requested_domain chosen = do
  view ← candidate_view c requested_domain chosen
  views ← candidate_views cs requested_domain chosen
  pure (view ∷ views)

-- `probe_one` for each candidate; what it raises is passed.
probe_all : List Candidate → String → Exec (Unit {0})
probe_all [] requested_domain = pure tt
probe_all (c ∷ cs) requested_domain = do
  attempt (probe_candidate c requested_domain 2000)
  probe_all cs requested_domain

abbrev is_healthy : String → Shared → Candidate → Bool
is_healthy requested_domain s c = elim (get (c.component, requested_domain) s.provider_health) [
  | none ↦ false
  | some health ↦ health.status == "available" || health.status == "degraded"
]

abbrev is_structured_unavailable : String → Shared → Candidate → Bool
is_structured_unavailable requested_domain s c =
    elim (get (c.component, requested_domain) s.provider_health) [
      | none ↦ false
      | some health ↦ health.status == "unavailable" && not (is_some health.error_code)
    ]

abbrev name_of : Option Candidate → Option String
name_of none = none
name_of (some c) = some c.component

-- `healthy or structured_unavailable`: an empty component name counts as none.
abbrev or_else : Option Candidate → Option Candidate → Option String
or_else none other = name_of other
or_else (some c) other = if c.component == "" then name_of other else some c.component

-- What a probe of all candidates makes of the active provider, unless the preference is among them.
unfoldable pub adopt_probe : String → List Candidate → Shared → Shared
adopt_probe requested_domain matching s =
    if has_component (get requested_domain s.selections) matching then s else record s {
      active_providers =
          put requested_domain
            (or_else (find (is_healthy requested_domain s) matching)
              (find (is_structured_unavailable requested_domain s) matching))
            s.active_providers;
    }

probe_matching : String → List Candidate → Exec (Unit {0})
probe_matching requested_domain [] = pure tt
probe_matching requested_domain (c ∷ cs) = do
  probe_all (c ∷ cs) requested_domain
  acquire
  modify (adopt_probe requested_domain (c ∷ cs))

-- Without a requested domain the candidates are shown short, and no health is looked up.
short_view : Candidate → CandidateView
short_view c = record {
  candidate = c;
  capabilities = [];
  selected = false;
  active = false;
  health = none;
}

row_views : Bool → List Candidate → String → Selected → Exec (List CandidateView)
row_views true matching domain chosen = candidate_views matching domain chosen
row_views false matching domain chosen = pure (map short_view matching)

provider_rows : Bool → List Candidate → List String → Exec (List ProviderRow)
provider_rows detailed candidates [] = pure []
provider_rows detailed candidates (domain ∷ rest) = do
  let matching = filter (offers domain) candidates
  chosen ← selection_for domain matching
  views ← row_views detailed matching domain chosen
  rows ← provider_rows detailed candidates rest
  pure (record { domain = domain; selected = chosen; candidates = views } ∷ rows)

probe_if : Bool → Option String → List Candidate → Exec (Unit {0})
probe_if true (some domain) candidates = probe_matching domain (filter (offers domain) candidates)
probe_if probe requested_domain candidates = pure tt

or_available : Option String → List Candidate → List String
or_available none candidates = available_domains candidates
or_available (some domain) candidates = domain ∷ []

-- `list_providers`
unfoldable pub list_providers : Option String → Bool → Bool → Exec ProviderList
unfolding probe_all probe_matching provider_rows row_views candidate_views short_view probe_if
    or_available selection_for
list_providers requested_domain refresh probe = do
  candidates ← refresh_catalog refresh
  probe_if probe requested_domain candidates
  rows ←
      provider_rows (is_some requested_domain) candidates (or_available requested_domain candidates)
  acquire
  revision ← gets (λ s. s.revision)
  let answer : ProviderList = record { revision = revision; rows = rows }
  lift (
      ensure_bounded_json (record { label = "provider catalog"; max_depth = 8; max_items = 2048 })
        (list_payload (is_some requested_domain) answer))
  pure answer

-- The candidate that `get_provider` and `select_provider` mean by a component name.
abbrev pub named : Option String → List Candidate → Option Candidate
named none matching = none
named (some component) matching = find (is_component component) matching

-- `component is not None and selected is None`
unfoldable pub require_provider : String → Option String → Option Candidate → Exec (Unit {0})
require_provider domain none selected = pure tt
require_provider domain (some component) (some c) = pure tt
require_provider domain (some component) none = raise (
    validation_error "component is not a provider for this domain"
      (field "domain" (str domain) (field "component" (str component) end)))

chosen_candidate : Option String → Selected → List Candidate → Option Candidate
chosen_candidate none chosen matching = named chosen.active matching
chosen_candidate (some component) chosen matching = named (some component) matching

probe_chosen : Bool → Option Candidate → String → Exec (Unit {0})
probe_chosen true (some c) domain = do attempt (probe_candidate c domain 2000); pure tt
probe_chosen probe selected domain = pure tt

chosen_view : Option Candidate → String → Selected → Exec (Option CandidateView)
chosen_view none domain chosen = pure none
chosen_view (some c) domain chosen = do view ← candidate_view c domain chosen; pure (some view)

-- `get_provider`
unfoldable pub get_provider : String → Option String → Bool → Bool → Exec ProviderDetail
unfolding chosen_candidate probe_chosen chosen_view selection_for candidate_view
get_provider domain component refresh probe = do
  matching ← candidates_for domain refresh
  chosen ← selection_for domain matching
  let selected = chosen_candidate component chosen matching
  require_provider domain component selected
  probe_chosen probe selected domain
  acquire
  revision ← gets (λ s. s.revision)
  view ← chosen_view selected domain chosen
  let answer : ProviderDetail = record {
    revision = revision;
    domain = domain;
    selected = chosen;
    provider = view;
  }
  lift (
      ensure_bounded_json (record { label = "provider detail"; max_depth = 8; max_items = 512 })
        (detail_payload answer))
  pure answer
