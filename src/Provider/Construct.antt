-- ===== src/Provider/Construct.antt =====
-- `ProviderService.__init__` of provider.py.
pub mod Capabilities
use msys_hal.Prelude.{
  ℕ, ◌+◌, String, Bool, not, Option, none, some, List, [], ◌∷◌, ◌++◌, map, any, member, is_empty,
  leb, length, concat, decimal, starts_with, sort_texts, ◌==◌, string_eq, if◌then◌else◌,
}
use msys_hal.Prelude.Dict.{Dict}
use msys_hal.Json.{Value, str}
use msys_hal.Errors.{Exception, python, Result, ok, ◌>>=◌, ◌>>◌, require}
use msys_hal.Validation.Payload.{domain, component_id, bounded_string, semantic_version, capability}
use msys_hal.Provider.{Backend, Service, max_provider_domains, max_provider_capabilities}

value_error : List String → Exception
value_error message = python "ValueError" (concat message)

abbrev pub domains_of : {S : Type 0} → Dict String (Backend S) → List String
domains_of d = map (λ e. e.0) d

-- `f"{item}.inventory"` of every domain, then `f"{item}.state.read"`.
abbrev pub basic_capabilities : List String → List String
basic_capabilities domains =
    map (λ d. concat (d ∷ ".inventory" ∷ [])) (sort_texts domains)
    ++ map (λ d. concat (d ∷ ".state.read" ∷ [])) (sort_texts domains)

abbrev pub is_served : List String → String → Bool
is_served domains item = any (λ d. starts_with item (concat (d ∷ "." ∷ []))) domains

module _ (repr : String → String) where
  module _ {S : Type 0} where
    normalize_backends : Dict String (Backend S) → Result (Dict String (Backend S))
    unfolding value_error
    normalize_backends [] = ok []
    normalize_backends ((key, backend) ∷ rest) = do
      normalized_key ← domain (str key) "backend domain"
      require (backend.domain == normalized_key)
          (value_error ("backend " ∷ repr key ∷ " has a mismatched domain" ∷ []))
      others ← normalize_backends rest
      ok ((normalized_key, backend) ∷ others)

  -- The loop over `declared`, with what it has collected and the index of the next.
  collect : List String → ℕ → List String → List String → Result (List String)
  unfolding value_error
  collect domains index found [] = ok found
  collect domains index found (raw ∷ rest) = do
    item ← capability (str raw) (concat ("capabilities[" ∷ decimal index ∷ "]" ∷ []))
    require (is_served domains item)
        (value_error ("capability " ∷ repr item ∷ " has no matching backend domain" ∷ []))
    collect domains (index + 1) (if member item found then found else found ++ item ∷ []) rest

  declared_of : List String → Option (List String) → Result (List String)
  unfolding value_error
  declared_of domains none = ok (basic_capabilities domains)
  declared_of domains (some capabilities) = do
    require (leb (length capabilities) max_provider_capabilities)
        (value_error ("provider declares at most 32 capabilities" ∷ []))
    ok (basic_capabilities domains ++ capabilities)

  -- `self.capabilities`
  unfoldable pub capabilities_of : List String → Option (List String) → Result (List String)
  unfolding collect declared_of value_error
  capabilities_of domains capabilities = do
    declared ← declared_of domains capabilities
    normalized ← collect domains 0 [] declared
    require (leb (length normalized) max_provider_capabilities)
        (value_error ("provider declares at most 32 capabilities" ∷ []))
    ok (sort_texts normalized)

  -- `__init__`
  unfoldable pub construct :
      {S : Type 0}
      → Dict String (Backend S)
      → Value
      → Value
      → Value
      → Option (List String)
      → Result (Service S)
  unfolding normalize_backends value_error
  construct backends provider_id name version capabilities = do
    require (not (is_empty backends)) (value_error ("provider requires at least one backend" ∷ []))
    require (leb (length backends) max_provider_domains)
        (value_error ("provider supports at most 8 domains" ∷ []))
    normalized ← normalize_backends backends
    component ← component_id provider_id "provider_id"
    shown ← bounded_string name "provider name" 128
    numbered ← semantic_version version "provider version"
    offered ← capabilities_of (domains_of normalized) capabilities
    ok (record {
      backends = normalized;
      provider_id = component;
      name = shown;
      version = numbered;
      capabilities = offered;
    })
