-- ===== src/Provider/Construct/Capabilities.antt =====
-- What a provider that has been constructed offers.
use msys_hal.Prelude.{
  ℕ, suc, ◌+◌, ◌≤◌, ◌≡◌, refl, sym, ap, ◌∙◌, inl, inr, String, true, ◌||◌, Option, none, some, List,
  [], ◌∷◌, ◌++◌, member, length, sort_texts, insert_text, concat, leb, leb→le, ◌==◌, string_eq,
  eq_iff, arith, if◌then◌else◌, Bool-cases, decimal,
}
use mathlib.Core.Path.{subst}
use msys_hal.Json.{str}
use msys_hal.Errors.{ok, >>=-eq-ok, require, require-eq-ok}
use msys_hal.Validation.Payload.{capability}
use msys_hal.Validation.Payload.Accepts.{capability_sound, member-snoc}
use msys_hal.Provider.{max_provider_capabilities}
use msys_hal.Provider.Construct.{
  basic_capabilities, is_served, collect, declared_of, capabilities_of,
}

member-insert_text :
    (c x : String) (xs : List String) → member c (insert_text x xs) ≡ ((c == x) || member c xs)
member-insert_text c x [] = refl
member-insert_text c x (y ∷ ys) = ground (arith, member-insert_text c x ys)

member-sort_texts : (c : String) (xs : List String) → member c (sort_texts xs) ≡ member c xs
member-sort_texts c [] = refl
member-sort_texts c (x ∷ xs) =
    member-insert_text c x (sort_texts xs) ∙ ap (λ b. (c == x) || b) (member-sort_texts c xs)

length-insert_text : (x : String) (xs : List String) → length (insert_text x xs) ≡ suc (length xs)
length-insert_text x [] = refl
length-insert_text x (y ∷ ys) = ground (arith, length-insert_text x ys)

length-sort_texts : (xs : List String) → length (sort_texts xs) ≡ length xs
length-sort_texts [] = refl
length-sort_texts (x ∷ xs) = length-insert_text x (sort_texts xs) ∙ ap suc (length-sort_texts xs)

member-append :
    (c : String) (xs ys : List String) → member c (xs ++ ys) ≡ (member c xs || member c ys)
member-append c [] ys = refl
member-append c (x ∷ xs) ys = ground (arith, member-append c xs ys)

-- What the loop makes of the rest of the list.
record Collected (domains found raws result : List String) : Type 0 where
  all_found : (c : String) → member c result ≡ (member c found || member c raws)
  served : (c : String) → member c raws ≡ true → is_served domains c ≡ true

collected-again :
    (c item : String) (found : List String)
    → member c (if member item found then found else found ++ item ∷ [])
      ≡ (member c found || (c == item))
collected-again c item found = elim (Bool-cases (member item found)) [
  | inl there ↦ elim (Bool-cases (c == item)) [
    | inl same ↦
        let held : member c found ≡ true =
          ap (λ x. member x found) ((eq_iff c item).0 same) ∙ there in
        rw (there, held) refl
    | inr other ↦ rw there (ground arith)
  ]
  | inr new ↦ rw new (member-snoc c item found)
]

collect-Collected :
    (repr : String → String) (domains : List String) (index : ℕ) (found raws result : List String)
    → collect repr domains index found raws ≡ ok result
    → Collected domains found raws result
unfolding collect
collect-Collected repr domains index found [] result e = record {
  all_found = λ c. (let same : found ≡ result = cc in ground (arith, ap (λ l. member c l) same));
  served = λ c h. absurd cc;
}
collect-Collected repr domains index found (raw ∷ rest) result e =
    let (item, valid, e1) =
      >>=-eq-ok (capability (str raw) (concat ("capabilities[" ∷ decimal index ∷ "]" ∷ []))) _ e in
    let (u, fits, e2) = >>=-eq-ok (require (is_served domains item) _) _ e1 in
    let same : raw ≡ item = (let t = capability_sound (str raw) _ item valid in cc) in
    let more =
      collect-Collected repr domains (index + 1)
        (if member item found then found else found ++ item ∷ []) rest result e2 in
    let kept : is_served domains item ≡ true = require-eq-ok _ _ fits in
    record {
      all_found = λ c.
          (let seen = more.all_found c in
            let again = collected-again c item found in
            let equal : (c == raw) ≡ (c == item) = ap (λ x. c == x) same in ground arith);
      served = λ c h. elim (Bool-cases (c == raw)) [
        | inl first ↦
            let there : item ≡ c = sym same ∙ sym ((eq_iff c raw).0 first) in
            subst (λ x. is_served domains x ≡ true) there kept
        | inr later ↦ more.served c (ground arith)
      ];
    }

-- What a provider offers.
pub record IsOffer (domains : List String) (asked : List String) (offered : List String)
    : Type 0 where
  pub few : length offered ≤ max_provider_capabilities
  pub served : (c : String) → member c offered ≡ true → is_served domains c ≡ true
  pub exactly :
      (c : String) → member c offered ≡ (member c (basic_capabilities domains) || member c asked)

abbrev pub asked_of : Option (List String) → List String
asked_of none = []
asked_of (some capabilities) = capabilities

declared_of-member :
    (repr : String → String) (domains : List String) (capabilities : Option (List String))
    (declared : List String) (c : String)
    → declared_of repr domains capabilities ≡ ok declared
    → member c declared
      ≡ (member c (basic_capabilities domains) || member c (asked_of capabilities))
unfolding declared_of
declared_of-member repr domains none declared c e =
    let same : basic_capabilities domains ≡ declared = cc in
    ground (arith, ap (λ l. member c l) same)
declared_of-member repr domains (some capabilities) declared c e =
    let (u, few, e1) =
      >>=-eq-ok (require (leb (length capabilities) max_provider_capabilities) _) _ e in
    let same : basic_capabilities domains ++ capabilities ≡ declared = cc in
    ground
      (arith, ap (λ l. member c l) same, member-append c (basic_capabilities domains) capabilities)

-- A provider offers what it serves: the capabilities of a provider that has been constructed are the
-- inventory and the reading of each of its domains and those that its caller has named, no others;
-- each begins with one of its domains and a dot, and there are at most 32.
pub capabilities_of-IsOffer :
    (repr : String → String) (domains : List String) (capabilities : Option (List String))
    (offered : List String)
    → capabilities_of repr domains capabilities ≡ ok offered
    → IsOffer domains (asked_of capabilities) offered
unfolding capabilities_of
capabilities_of-IsOffer repr domains capabilities offered e =
    let (declared, told, e1) = >>=-eq-ok (declared_of repr domains capabilities) _ e in
    let (normalized, gathered, e2) = >>=-eq-ok (collect repr domains 0 [] declared) _ e1 in
    let (u, small, e3) =
      >>=-eq-ok (require (leb (length normalized) max_provider_capabilities) _) _ e2 in
    let same : sort_texts normalized ≡ offered = cc in
    let all = collect-Collected repr domains 0 [] declared normalized gathered in
    subst (IsOffer domains (asked_of capabilities)) same record {
      few = omega (
        arith,
        length-sort_texts normalized,
        leb→le (length normalized) max_provider_capabilities (require-eq-ok _ _ small),
      );
      served =
          λ c h. all.served c (sym (all.all_found c) ∙ sym (member-sort_texts c normalized) ∙ h);
      exactly = λ c.
          member-sort_texts c normalized
          ∙ all.all_found c
          ∙ declared_of-member repr domains capabilities declared c told;
    }
