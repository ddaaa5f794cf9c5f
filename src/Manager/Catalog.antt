-- ===== src/Manager/Catalog.antt =====
-- `refresh_catalog` of manager.py, `_candidates_for` and `_ordered_for`. The describe calls of a batch
-- run in two threads; here they stand in the order in which their results are committed.
pub mod Guarantee
pub mod Ranking
use msys_hal.Prelude.{
  ℕ, ◌+◌, ◌<◌, String, Bool, true, false, not, ◌&&◌, ◌||◌, Option, none, some, List, [], ◌∷◌, ◌++◌,
  leb, ltb, length, if◌then◌else◌, ◌==◌, string_eq, pair_eq, text_le, member, filter, find, any,
}
use msys_hal.Prelude.Dict.{get, keep}
use msys_hal.Json.{Value, str, arr, obj, Fields, end, field, get_field}
use msys_hal.Json.Int.{ℤ, leb_ℤ}
use msys_hal.Errors.{Result, ok, err}
use msys_hal.Manager.State.{Candidate, Shared, Env, State}
use msys_hal.Manager.Exec.{
  Exec, pure, lift, attempt, ask, gets, modify, acquire, monotonic, ◌>>=◌, ◌>>◌,
}
use msys_hal.Manager.Gateway.{invoke}
use msys_hal.Manager.Responses.{provider_interface}
use msys_hal.Manager.Describe.{describe_candidate}
use msys_hal.Manager.Discovery.{provider_specs}

abbrev pub max_provider_candidates : ℕ
max_provider_candidates = 16

-- A description that came back is committed while there is room.
commit : Result Candidate → List Candidate → List Candidate
commit (err e) candidates = candidates
commit (ok c) candidates =
    if ltb (length candidates) max_provider_candidates then candidates ++ c ∷ [] else candidates

-- The loop over batches of two.
describe_batches : List (String × ℤ) → List Candidate → Exec (List Candidate)
describe_batches [] candidates = pure candidates
describe_batches ((component, priority) ∷ []) candidates = do
  outcome ← attempt (describe_candidate component priority)
  pure (commit outcome candidates)
describe_batches ((component, priority) ∷ (component', priority') ∷ rest) candidates = do
  outcome ← attempt (describe_candidate component priority)
  outcome' ← attempt (describe_candidate component' priority')
  let candidates' = commit outcome' (commit outcome candidates)
  if leb max_provider_candidates (length candidates')
      then pure candidates'
      else describe_batches rest candidates'

-- `candidates.sort(key=lambda item: (-item.priority, item.component))`
abbrev pub candidate_le : Candidate → Candidate → Bool
candidate_le a b =
    leb_ℤ b.priority a.priority
    && (not (leb_ℤ a.priority b.priority) || text_le a.component b.component)

insert_candidate : Candidate → List Candidate → List Candidate
insert_candidate c [] = c ∷ []
insert_candidate c (x ∷ xs) = if candidate_le c x then c ∷ x ∷ xs else x ∷ insert_candidate c xs

sort_candidates : List Candidate → List Candidate
sort_candidates [] = []
sort_candidates (c ∷ cs) = insert_candidate c (sort_candidates cs)

texts_eq : List String → List String → Bool
texts_eq [] [] = true
texts_eq (x ∷ xs) (y ∷ ys) = x == y && texts_eq xs ys
texts_eq xs ys = false

-- Equality of the entries of `previous_identity` and `new_identity`.
same_identity : Option Candidate → Option Candidate → Bool
same_identity none none = true
same_identity (some a) (some b) =
    a.version == b.version
    && (texts_eq a.domains b.domains && texts_eq a.capabilities b.capabilities)
same_identity a b = false

abbrev pub is_component : String → Candidate → Bool
is_component component c = c.component == component

-- `key in live`
abbrev pub is_live : List Candidate → String × String → Bool
is_live candidates (component, domain) =
    any (λ c. c.component == component && member domain c.domains) candidates

-- Whether a health record outlives the change of catalog.
keeps_health : List Candidate → List Candidate → String × String → Bool
unfolding same_identity texts_eq
keeps_health old new key =
    is_live new key && same_identity (find (is_component key.0) old) (find (is_component key.0) new)

-- The fields once the new catalog is in place.
unfoldable pub install : List Candidate → ℕ → Shared → Shared
unfolding keeps_health
install candidates now s = record s {
  candidates = candidates;
  catalog_at = now;
  provider_health = keep (λ key health. keeps_health s.candidates candidates key) s.provider_health;
}

-- `not force and self._candidates and time.monotonic() - self._catalog_at < self.catalog_ttl`, under
-- the lock; the clock is read only if the first two hold.
fresh_at : List Candidate → Exec Bool
fresh_at [] = pure false
fresh_at (c ∷ cs) = do
  now ← monotonic
  at ← gets (λ s. s.catalog_at)
  ttl ← ask (λ env. env.catalog_ttl)
  pure (ltb now (at + ttl))

is_fresh : Bool → Exec Bool
unfolding fresh_at
is_fresh true = do acquire; pure false
is_fresh false = do acquire; candidates ← gets (λ s. s.candidates); fresh_at candidates

-- The catalog from a new discovery.
discover : Exec (List Candidate)
unfolding describe_batches commit sort_candidates insert_candidate install
discover = do
  discovery ←
      invoke
        (record {
          target = "msys.core";
          method = "discover";
          payload =
              obj (field "kind" (str "interface") (field "name" (str provider_interface) end));
          timeout_ms = 5000;
          idempotent = true;
        })
        "provider discovery"
  result ← ask (λ env. provider_specs env discovery)
  specs ← lift result
  described ← describe_batches specs []
  let candidates = sort_candidates described
  acquire
  now ← monotonic
  modify (install candidates now)
  pure candidates

unfoldable pub refresh_catalog : Bool → Exec (List Candidate)
unfolding is_fresh discover
refresh_catalog force = do
  fresh ← is_fresh force
  if fresh then gets (λ s. s.candidates) else do
    -- `_catalog_lock` is held from here: the second look finds what another refresh installed.
    fresh' ← is_fresh force
    if fresh' then gets (λ s. s.candidates) else discover

abbrev pub offers : String → Candidate → Bool
offers requested_domain c = member requested_domain c.domains

-- `_candidates_for`
unfoldable pub candidates_for : String → Bool → Exec (List Candidate)
candidates_for requested_domain force = do
  candidates ← refresh_catalog force
  pure (filter (offers requested_domain) candidates)

pub data SelectionMode : Type 0 where
  manual stale automatic : SelectionMode

-- The choice of `_ordered_for` among the candidates of a domain; an empty preference counts as none.
unfoldable pub order_by : Option String → List Candidate → List Candidate × SelectionMode
order_by none candidates = (candidates, automatic)
order_by (some preferred) candidates =
    if preferred == ""
    then (candidates, automatic)
    else elim (find (is_component preferred) candidates) [
      | some c ↦ (c ∷ [], manual)
      | none ↦ (candidates, stale)
    ]

-- `_ordered_for`
unfoldable pub ordered_for : String → Bool → Exec (List Candidate × SelectionMode)
unfolding order_by
ordered_for requested_domain force = do
  candidates ← candidates_for requested_domain force
  acquire
  preferred ← gets (λ s. get requested_domain s.selections)
  pure (order_by preferred candidates)
