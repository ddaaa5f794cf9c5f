-- ===== src/Manager/Requests/Checked.antt =====
-- What a request that was read is sure of.
use msys_hal.Prelude.{
  ℕ, ◌-◌, ◌^◌, ◌≤◌, ◌≡◌, ap, ◌∙◌, String, Bool, true, not, ◌&&◌, ◌||◌, Option, none, some, is_some,
  [], ◌∷◌, All, arith, string_eq, Option-cases, inl, inr,
}
use mathlib.Core.Path.{subst}
use msys_hal.Json.{Value, null, bool, int, float, str, arr, obj, Fields, field_or, get_field}
use msys_hal.Json.Int.{ℤ, pos, negsuc, leb_ℤ}
use msys_hal.Errors.{ok, ◌>>=◌, >>=-eq-ok, require, require-eq-ok}
use msys_hal.Validation.Patterns.{domain_re, component_re}
use msys_hal.Validation.Payload.{object_payload, domain, component_id, bounded_string, integer}
use msys_hal.Manager.Requests.{
  Request, select_request, select_of, component_or_none, flag_of, natural, natural_part,
  expected_revision_of, if_there, request_of,
}

-- The components of a request to select, each as the rest of the manager counts on.
pub record IsChoice (of : String) (component : Option String) (expected : Option ℕ) (allow : Bool)
    : Type 0 where
  pub domain_name : domain_re of ≡ true
  pub component_name :
      All (λ c. component_re c ≡ true) (elim component [ none ↦ [] | some c ↦ c ∷ [] ])
  pub revision : All (λ n. n ≤ 2 ^ 63 - 1) (elim expected [ none ↦ [] | some n ↦ n ∷ [] ])
  pub allowance : (is_some component || not allow) ≡ true

abbrev pub IsSelection : Request → Type 0
IsSelection (select_request of component expected allow) = IsChoice of component expected allow
IsSelection other = ⊥

domain-matches : (v : Value) (label d : String) → domain v label ≡ ok d → domain_re d ≡ true
unfolding domain
domain-matches v label d e =
    let (t, read, e1) = >>=-eq-ok (bounded_string v label 64) _ e in
    let (u, matches, e2) = >>=-eq-ok (require (domain_re t) _) _ e1 in
    let same : t ≡ d = cc in rw (← same) (require-eq-ok _ _ matches)

component_id-matches :
    (v : Value) (label c : String) → component_id v label ≡ ok c → component_re c ≡ true
unfolding component_id
component_id-matches v label c e =
    let (t, read, e1) = >>=-eq-ok (bounded_string v label 192) _ e in
    let (u, matches, e2) = >>=-eq-ok (require (component_re t) _) _ e1 in
    let same : t ≡ c = cc in rw (← same) (require-eq-ok _ _ matches)

natural_part-le :
    (z : ℤ) (maximum : ℕ)
    → (leb_ℤ (pos 0) z && leb_ℤ z (pos maximum)) ≡ true
    → natural_part z ≤ maximum
natural_part-le (pos n) maximum h = ground arith
natural_part-le (negsuc n) maximum h = omega arith

natural-le :
    (label : String) (maximum n : ℕ) (v : Value) → natural label maximum v ≡ ok n → n ≤ maximum
unfolding natural integer
natural-le label maximum n (int z) e =
    let (k, read, e1) = >>=-eq-ok (integer (int z) label (pos 0) (pos maximum)) _ e in
    let (u, inside, e2) = >>=-eq-ok (require (leb_ℤ (pos 0) z && leb_ℤ z (pos maximum)) _) _ read in
    let same : z ≡ k = cc in
    let value : natural_part k ≡ n = cc in
    subst (λ m. m ≤ maximum) (ap natural_part same ∙ value)
      (natural_part-le z maximum (require-eq-ok _ _ inside))
natural-le label maximum n (str x) e = cc
natural-le label maximum n (arr x) e = cc
natural-le label maximum n (obj x) e = cc
natural-le label maximum n null e = cc
natural-le label maximum n (bool x) e = cc
natural-le label maximum n (float x y) e = cc

named :
    (v : Value) (c : String)
    → (component_id v "component" >>= λ found. ok (some found)) ≡ ok (some c)
    → (component_re c ≡ true) × Unit {0}
named v c e =
    let (found, read, e1) = >>=-eq-ok (component_id v "component") _ e in
    let same : found ≡ c = cc in (component_id-matches v "component" c (read ∙ ap ok same), tt)

component_or_none-matches :
    (o : Option Value) (component : Option String)
    → component_or_none o ≡ ok component
    → All (λ c. component_re c ≡ true) (elim component [ none ↦ [] | some c ↦ c ∷ [] ])
unfolding component_or_none
component_or_none-matches o none e = tt
component_or_none-matches none (some c) e = cc
component_or_none-matches (some null) (some c) e = cc
component_or_none-matches (some (str x)) (some c) e = named (str x) c e
component_or_none-matches (some (arr x)) (some c) e = named (arr x) c e
component_or_none-matches (some (obj x)) (some c) e = named (obj x) c e
component_or_none-matches (some (bool x)) (some c) e = named (bool x) c e
component_or_none-matches (some (int x)) (some c) e = named (int x) c e
component_or_none-matches (some (float x y)) (some c) e = named (float x y) c e

expected_revision_of-le :
    (request : Fields) (expected : Option ℕ)
    → expected_revision_of request ≡ ok expected
    → All (λ n. n ≤ 2 ^ 63 - 1) (elim expected [ none ↦ [] | some n ↦ n ∷ [] ])
unfolding expected_revision_of if_there
expected_revision_of-le request none e = tt
expected_revision_of-le request (some n) e =
    elim (Option-cases (get_field "expected_revision" request)) [
      | inl absent ↦ cc (rw (absent, expected_revision_of, if_there) at e)
      | inr (v, there) ↦
          let (m, read, e1) =
            >>=-eq-ok (natural "expected_revision" (2 ^ 63 - 1) v) _
              (rw (there, expected_revision_of, if_there) at e) in
          let same : m ≡ n = cc in
          (
            subst (λ k. k ≤ 2 ^ 63 - 1) same (natural-le "expected_revision" (2 ^ 63 - 1) m v read),
            tt,
          )
    ]

-- A request to select that `handle` reads is in order: its domain is a domain name, its component, if
-- it has one, a component name, its expected revision, if it has one, at most 2 ^ 63 - 1, and it
-- allows an unavailable provider only if it names a component.
pub request_of-IsSelection :
    (repr : Value → String) (payload : Value) (r : Request)
    → request_of repr "select_provider" payload ≡ ok r
    → IsSelection r
unfolding request_of select_of
request_of-IsSelection repr payload r h =
    let (request, _, h1) = >>=-eq-ok (object_payload payload _ _ _) _ h in
    let (of, own, h2) = >>=-eq-ok (domain (field_or null "domain" request) "domain") _ h1 in
    let (component, picked, h3) =
      >>=-eq-ok (component_or_none (get_field "component" request)) _ h2 in
    let (expected, counted, h4) = >>=-eq-ok (expected_revision_of request) _ h3 in
    let (allow, _, h5) = >>=-eq-ok (flag_of "allow_unavailable" request) _ h4 in
    let (_, allowed, h6) = >>=-eq-ok (require (is_some component || not allow) _) _ h5 in
    let same : select_request of component expected allow ≡ r = cc in
    subst IsSelection same (record {
      domain_name = domain-matches _ _ of own;
      component_name = component_or_none-matches _ component picked;
      revision = expected_revision_of-le request expected counted;
      allowance = require-eq-ok _ _ allowed;
    })
