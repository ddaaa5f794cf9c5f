-- ===== src/Manager/Catalog/Guarantee.antt =====
-- A refresh of the catalog appends no event and changes no selection.
use msys_hal.Prelude.{ℕ, String, Bool, true, false, List, [], ◌∷◌, refl}
use msys_hal.Json.Int.{ℤ}
use msys_hal.Manager.State.{Candidate, Shared}
use msys_hal.Manager.Describe.Guarantee.{describe_candidate-Respects}
use msys_hal.Manager.Gateway.Guarantee.{invoke-Respects}
use msys_hal.Manager.Catalog.{
  describe_batches, install, fresh_at, is_fresh, discover, refresh_catalog, candidates_for,
  ordered_for,
}
use msys_hal.Manager.Evolution.{Grows, Grows-same}
use msys_hal.Manager.Evolution.Rules.{Respects, respects_rules, Respects-modify}

describe_batches-Respects :
    (specs : List (String × ℤ)) (candidates : List Candidate)
    → Respects (describe_batches specs candidates)
unfolding describe_batches
describe_batches-Respects [] candidates = search respects_rules
describe_batches-Respects ((c, p) ∷ []) candidates =
    search (respects_rules, describe_candidate-Respects)
describe_batches-Respects ((c, p) ∷ (c', p') ∷ rest) candidates =
    search (respects_rules, describe_candidate-Respects, describe_batches-Respects rest)

install-Grows :
    (candidates : List Candidate) (now : ℕ) (s : Shared) → Grows s (install candidates now s)
unfolding install
install-Grows candidates now s = Grows-same s _ refl refl refl

fresh_at-Respects : (candidates : List Candidate) → Respects (fresh_at candidates)
unfolding fresh_at
fresh_at-Respects [] = search respects_rules
fresh_at-Respects (c ∷ cs) = search respects_rules

is_fresh-Respects : (force : Bool) → Respects (is_fresh force)
unfolding is_fresh
is_fresh-Respects true = search respects_rules
is_fresh-Respects false = search (respects_rules, fresh_at-Respects)

discover-Respects : Respects discover
unfolding discover
discover-Respects =
    search
      (respects_rules, invoke-Respects, describe_batches-Respects, install-Grows, Respects-modify)
      depth 12

pub refresh_catalog-Respects : (force : Bool) → Respects (refresh_catalog force)
unfolding refresh_catalog
refresh_catalog-Respects force =
    search (respects_rules, is_fresh-Respects, discover-Respects) depth 8

pub candidates_for-Respects :
    (domain : String) (force : Bool) → Respects (candidates_for domain force)
unfolding candidates_for
candidates_for-Respects domain force = search (respects_rules, refresh_catalog-Respects)

pub ordered_for-Respects : (domain : String) (force : Bool) → Respects (ordered_for domain force)
unfolding ordered_for
ordered_for-Respects domain force = search (respects_rules, candidates_for-Respects)
