-- ===== src/Manager/Providers/Guarantee.antt =====
-- Listing and probing providers appends no event and changes no selection.
use msys_hal.Prelude.{
  String, Bool, true, false, Option, none, some, List, [], ◌∷◌, refl, Bool-cases, inl, inr,
  string_eq,
}
use msys_hal.Prelude.Dict.{get}
use msys_hal.Manager.State.{Candidate, Shared}
use msys_hal.Manager.Catalog.Guarantee.{refresh_catalog-Respects, candidates_for-Respects}
use msys_hal.Manager.Probe.Guarantee.{probe_candidate-Respects}
use msys_hal.Manager.Providers.{
  selection_for, candidate_view, candidate_views, probe_all, adopt_probe, probe_matching, row_views,
  provider_rows, probe_if, list_providers, require_provider, probe_chosen, chosen_view,
  get_provider, has_component,
}
use msys_hal.Manager.Views.{Selected}
use msys_hal.Manager.Evolution.{Grows, Grows-same}
use msys_hal.Manager.Evolution.Rules.{
  Respects, respects_rules, Respects-modify, Respects-bind, Respects-pure, Respects-attempt,
}

selection_for-Respects :
    (domain : String) (matching : List Candidate) → Respects (selection_for domain matching)
unfolding selection_for
selection_for-Respects domain matching = search respects_rules

candidate_view-Respects :
    (c : Candidate) (domain : String) (chosen : Selected)
    → Respects (candidate_view c domain chosen)
unfolding candidate_view
candidate_view-Respects c domain chosen = search respects_rules

candidate_views-Respects :
    (cs : List Candidate) (domain : String) (chosen : Selected)
    → Respects (candidate_views cs domain chosen)
unfolding candidate_views
candidate_views-Respects [] domain chosen = search respects_rules
candidate_views-Respects (c ∷ cs) domain chosen =
    Respects-bind _ _ (candidate_view-Respects c domain chosen) λ view.
      Respects-bind _ _ (candidate_views-Respects cs domain chosen)
        λ views. Respects-pure (view ∷ views)

probe_all-Respects : (cs : List Candidate) (domain : String) → Respects (probe_all cs domain)
unfolding probe_all
probe_all-Respects [] domain = search respects_rules
probe_all-Respects (c ∷ cs) domain =
    Respects-bind _ _ (Respects-attempt _ (probe_candidate-Respects c domain _))
      λ u. probe_all-Respects cs domain

adopt_probe-Grows :
    (domain : String) (cs : List Candidate) (s : Shared) → Grows s (adopt_probe domain cs s)
unfolding adopt_probe
adopt_probe-Grows domain cs s = elim (Bool-cases (has_component (get domain s.selections) cs)) [
  | inl known ↦ rw (known, adopt_probe) (Grows-same s _ refl refl refl)
  | inr unknown ↦ rw (unknown, adopt_probe) (Grows-same s _ refl refl refl)
]

probe_matching-Respects :
    (domain : String) (cs : List Candidate) → Respects (probe_matching domain cs)
unfolding probe_matching
probe_matching-Respects domain [] = search respects_rules
probe_matching-Respects domain (c ∷ cs) =
    search (respects_rules, probe_all-Respects, Respects-modify, adopt_probe-Grows)

row_views-Respects :
    (detailed : Bool) (matching : List Candidate) (domain : String) (chosen : Selected)
    → Respects (row_views detailed matching domain chosen)
unfolding row_views
row_views-Respects true matching domain chosen = candidate_views-Respects matching domain chosen
row_views-Respects false matching domain chosen = search respects_rules

provider_rows-Respects :
    (detailed : Bool) (candidates : List Candidate) (domains : List String)
    → Respects (provider_rows detailed candidates domains)
unfolding provider_rows
provider_rows-Respects detailed candidates [] = search respects_rules
provider_rows-Respects detailed candidates (domain ∷ rest) =
    Respects-bind _ _ (selection_for-Respects domain _) λ chosen.
      Respects-bind _ _ (row_views-Respects detailed _ domain chosen) λ views.
        Respects-bind _ _ (provider_rows-Respects detailed candidates rest) λ rows. Respects-pure _

probe_if-Respects :
    (probe : Bool) (domain : Option String) (candidates : List Candidate)
    → Respects (probe_if probe domain candidates)
unfolding probe_if
probe_if-Respects true (some domain) candidates = probe_matching-Respects domain _
probe_if-Respects _ domain candidates = search respects_rules

pub list_providers-Respects :
    (domain : Option String) (refresh probe : Bool) → Respects (list_providers domain refresh probe)
unfolding list_providers
list_providers-Respects domain refresh probe =
    search (respects_rules, refresh_catalog-Respects, probe_if-Respects, provider_rows-Respects)
      depth 10

pub require_provider-Respects :
    (domain : String) (component : Option String) (selected : Option Candidate)
    → Respects (require_provider domain component selected)
unfolding require_provider
require_provider-Respects domain none selected = search respects_rules
require_provider-Respects domain (some component) (some c) = search respects_rules
require_provider-Respects domain (some component) none = search respects_rules

probe_chosen-Respects :
    (probe : Bool) (selected : Option Candidate) (domain : String)
    → Respects (probe_chosen probe selected domain)
unfolding probe_chosen
probe_chosen-Respects true (some c) domain = search (respects_rules, probe_candidate-Respects)
probe_chosen-Respects _ selected domain = search respects_rules

chosen_view-Respects :
    (selected : Option Candidate) (domain : String) (chosen : Selected)
    → Respects (chosen_view selected domain chosen)
unfolding chosen_view
chosen_view-Respects none domain chosen = search respects_rules
chosen_view-Respects (some c) domain chosen = search (respects_rules, candidate_view-Respects)

pub get_provider-Respects :
    (domain : String) (component : Option String) (refresh probe : Bool)
    → Respects (get_provider domain component refresh probe)
unfolding get_provider
get_provider-Respects domain component refresh probe =
    search
      (
        respects_rules, candidates_for-Respects, selection_for-Respects, require_provider-Respects,
        probe_chosen-Respects, chosen_view-Respects,
      )
      depth 12
