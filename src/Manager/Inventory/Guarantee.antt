-- ===== src/Manager/Inventory/Guarantee.antt =====
-- An inventory replaces routes and active providers, and appends no event.
use msys_hal.Prelude.{String, Bool, Option, List, [], ◌∷◌, refl}
use msys_hal.Errors.{Result, ok, err}
use msys_hal.Manager.State.{Candidate}
use msys_hal.Manager.Exec.{Exec, modify}
use msys_hal.Manager.Responses.{Inventory}
use msys_hal.Manager.Catalog.{SelectionMode}
use msys_hal.Manager.Catalog.Guarantee.{refresh_catalog-Respects, ordered_for-Respects}
use msys_hal.Manager.Probe.Guarantee.{probe_candidate-Respects}
use msys_hal.Manager.Inventory.{
  Choice, Collected, judge_probe, try_candidates, collect_ordered, collect_domains, set_routes,
  inventory,
}
use msys_hal.Manager.Evolution.{Grows-same}
use msys_hal.Manager.Evolution.Rules.{Respects, respects_rules, Respects-bind, Respects-modify}

judge_probe-Respects :
    (mode : SelectionMode) (unavailable : Option (Inventory × Candidate)) (errors : List String)
    (candidate : Candidate) (next : Option (Inventory × Candidate) → List String → Exec Choice)
    (outcome : Result Inventory)
    → ((u : Option (Inventory × Candidate)) (es : List String) → Respects (next u es))
    → Respects (judge_probe mode unavailable errors candidate next outcome)
unfolding judge_probe
judge_probe-Respects mode unavailable errors candidate next (ok inventory) h =
    search (respects_rules, h)
judge_probe-Respects mode unavailable errors candidate next (err e) h = search (respects_rules, h)

try_candidates-Respects :
    (mode : SelectionMode) (domain : String) (unavailable : Option (Inventory × Candidate))
    (errors : List String) (candidates : List Candidate)
    → Respects (try_candidates mode domain unavailable errors candidates)
unfolding try_candidates
try_candidates-Respects mode domain unavailable errors [] = search respects_rules
try_candidates-Respects mode domain unavailable errors (candidate ∷ rest) = search (
  respects_rules,
  probe_candidate-Respects,
  judge_probe-Respects mode unavailable errors candidate _ _
      (λ u es. try_candidates-Respects mode domain u es rest),
)

collect_ordered-Respects :
    (domain : String) (ordered : List Candidate) (mode : SelectionMode) (c : Collected)
    → Respects (collect_ordered domain ordered mode c)
unfolding collect_ordered
collect_ordered-Respects domain [] mode c = search respects_rules
collect_ordered-Respects domain (first ∷ rest) mode c =
    search (respects_rules, try_candidates-Respects)

collect_domains-Respects :
    (domains : List String) (c : Collected) → Respects (collect_domains domains c)
unfolding collect_domains
collect_domains-Respects [] c = search respects_rules
collect_domains-Respects (domain ∷ rest) c = Respects-bind _ _ (ordered_for-Respects domain _) λ o.
    Respects-bind _ _ (collect_ordered-Respects domain o.0 o.1 c)
      λ c'. collect_domains-Respects rest c'

set_routes-Respects : (c : Collected) → Respects (modify (set_routes c))
set_routes-Respects c = Respects-modify _ (λ s. Grows-same s _ refl refl refl)

pub inventory-Respects :
    (domains : Option (List String)) (refresh : Bool) → Respects (inventory domains refresh)
unfolding inventory
inventory-Respects domains refresh =
    search (respects_rules, refresh_catalog-Respects, collect_domains-Respects, set_routes-Respects)
      depth 8
