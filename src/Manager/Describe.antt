-- ===== src/Manager/Describe.antt =====
-- `_describe_candidate` of manager.py: a provider's description becomes a candidate.
pub mod Guarantee
use msys_hal.Prelude.{
  ℕ, ◌+◌, String, Bool, true, false, not, Option, none, some, List, [], ◌∷◌, ◌++◌, leb, length, any,
  all, concat, decimal, sort_texts, unique, starts_with, is_empty,
}
use msys_hal.Json.{
  Value, null, bool, int, float, str, arr, obj, Fields, end, get_field, field_or, is_text,
}
use msys_hal.Json.Int.{ℤ}
use msys_hal.Errors.{Result, ok, err, ◌>>=◌, ◌>>◌, require, provider_error}
use msys_hal.Validation.Payload.{
  object_payload, bounded_string, domain, semantic_version, capability, string_list,
}
use msys_hal.Manager.State.{Candidate}
use msys_hal.Manager.Exec
use msys_hal.Manager.Exec.{Exec}
use msys_hal.Manager.Gateway.{invoke}
use msys_hal.Manager.Responses.{provider_interface}

-- The domains, each checked.
checked_domains : List String → Result (List String)
checked_domains [] = ok []
checked_domains (item ∷ rest) = do
  d ← domain (str item) "provider domain"
  ds ← checked_domains rest
  ok (d ∷ ds)

-- The capabilities, each checked under its index.
checked_capabilities : ℕ → List String → Result (List String)
checked_capabilities index [] = ok []
checked_capabilities index (item ∷ rest) = do
  c ← capability (str item) (concat ("provider capabilities[" ∷ decimal index ∷ "]" ∷ []))
  cs ← checked_capabilities (index + 1) rest
  ok (c ∷ cs)

-- What every provider of a domain can do.
abbrev pub baseline : List String → List String
baseline [] = []
baseline (d ∷ ds) = concat (d ∷ ".inventory" ∷ []) ∷ concat (d ∷ ".state.read" ∷ []) ∷ baseline ds

-- `item.startswith(prefixes)`, the prefixes `f"{domain}."`.
abbrev pub has_domain : List String → String → Bool
has_domain domains item = any (λ d. starts_with item (concat (d ∷ "." ∷ []))) domains

declared_capabilities : Value → List String → Result (List String)
unfolding checked_capabilities
declared_capabilities raw domains = do
  listed ← string_list raw "provider capabilities" 32 128
  declared ← checked_capabilities 0 listed
  require (all (has_domain domains) declared)
      (provider_error "provider capability has an undeclared domain" end)
  let features = unique (declared ++ baseline domains)
  require (leb (length features) 32) (provider_error "provider declares too many capabilities" end)
  ok (sort_texts features)

-- An absent list and `null` count as no declaration.
capabilities_of : Option Value → List String → Result (List String)
capabilities_of none domains = ok (baseline domains)
capabilities_of (some null) domains = ok (baseline domains)
capabilities_of (some raw) domains = declared_capabilities raw domains

abbrev identity_keys : List String
identity_keys = "id" ∷ "name" ∷ "version" ∷ []

unfoldable pub candidate_of : Fields → String → ℤ → Result Candidate
unfolding checked_domains capabilities_of declared_capabilities
candidate_of response component priority = do
  description ←
      object_payload (obj response) ("schema" ∷ "provider" ∷ "domains" ∷ "capabilities" ∷ [])
        ("schema" ∷ "provider" ∷ "domains" ∷ []) "provider description"
  require (is_text provider_interface (field_or null "schema" description))
      (provider_error "provider schema mismatch" end)
  listed ← string_list (field_or null "domains" description) "provider domains" 8 64
  checked ← checked_domains listed
  let domains = sort_texts checked
  require (not (is_empty domains)) (provider_error "provider must describe at least one domain" end)
  info ←
      object_payload (field_or null "provider" description) identity_keys identity_keys
        "provider identity"
  require (is_text component (field_or null "id" info))
      (provider_error "provider description id does not match its component" end)
  name ← bounded_string (field_or null "name" info) "provider name" 128
  version ← semantic_version (field_or null "version" info) "provider version"
  capabilities ← capabilities_of (get_field "capabilities" description) domains
  ok (record {
    component = component;
    target = concat ("component:" ∷ component ∷ []);
    priority = priority;
    domains = domains;
    name = name;
    version = version;
    capabilities = capabilities;
  })

unfoldable pub describe_candidate : String → ℤ → Exec Candidate
unfolding candidate_of
describe_candidate component priority =
    Exec.◌>>=◌
      (invoke
        (record {
          target = concat ("component:" ∷ component ∷ []);
          method = "describe";
          payload = obj end;
          timeout_ms = 5000;
          idempotent = Bool.true;
        })
        (concat ("describe " ∷ component ∷ [])))
      (λ description. Exec.lift (candidate_of description component priority))
