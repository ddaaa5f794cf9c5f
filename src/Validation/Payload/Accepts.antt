-- ===== src/Validation/Payload/Accepts.antt =====
-- What the checks of payloads accept, said without their order.
use msys_hal.Prelude.{
  is_empty, ℕ, suc, ◌+◌, ◌≤◌, ◌≡◌, refl, ap, ◌∙◌, ◌↔◌, inl, inr, String, Bool, true, false, not,
  ◌||◌, List, [], ◌∷◌, ◌++◌, arith, leb, leb→le, le→leb, ◌==◌, string_eq, eq_iff, member, filter,
  All, before, length, Bool-cases,
}
use mathlib.Core.List.{append-nil, append_assoc}
use msys_hal.Json.{
  Value, str, arr, obj, Items, nil, cons, Fields, keys, texts, count_fields, count_items,
}
use msys_hal.Errors.{ok, require, >>=-eq-ok, require-eq-ok}
use msys_hal.Validation.Bounded.{default_limits, ensure_bounded_json}
use msys_hal.Validation.Bounded.Walk.{IsBounded, ensure_bounded_json_iff}
use msys_hal.Validation.Patterns.{domain_re, capability_re, device_id_re}
use msys_hal.Validation.Payload.{
  unknown_keys, missing_keys, object_payload, domain, device_id, capability, is_bounded_text,
  bounded_string, string_loop, string_list, safe_scalar_map,
}

module _ (p : String → Bool) where
  -- Nothing is left by `filter (not p)` exactly when every member passes `p`.
  filter_empty-mem :
      (xs : List String)
      → is_empty (filter (λ k. not (p k)) xs) ≡ true
      → (k : String) → member k xs ≡ true
      → p k ≡ true
  filter_empty-mem [] h k m = cc
  filter_empty-mem (x ∷ xs) h k m = elim (Bool-cases (p x)) [
    | inl hit ↦ ground (arith, filter_empty-mem xs (rw hit at h) k, eq_iff k x, hit)
    | inr miss ↦ cc (rw miss at h)
  ]

  mem-filter_empty :
      (xs : List String)
      → ((k : String) → member k xs ≡ true → p k ≡ true)
      → is_empty (filter (λ k. not (p k)) xs) ≡ true
  mem-filter_empty [] h = refl
  mem-filter_empty (x ∷ xs) h =
      rw (h x (ground (arith, eq_iff x x))) (mem-filter_empty xs (λ k m. h k (ground arith)))

-- The payload is a dict of at most 32 entries with the allowed keys alone and all the required
-- ones, and it is bounded as JSON.
pub record IsPayload (v : Value) (allowed required : List String) (label : String) (fs : Fields)
    : Type 0 where
  pub is_dict : v ≡ obj fs
  pub few : count_fields fs ≤ 32
  pub known : (k : String) → member k (keys fs) ≡ true → member k allowed ≡ true
  pub complete : (k : String) → member k required ≡ true → member k (keys fs) ≡ true
  pub bounded : IsBounded (default_limits label) v

object_payload_sound :
    (v : Value) (allowed required : List String) (label : String) (fs : Fields)
    → object_payload v allowed required label ≡ ok fs
    → IsPayload v allowed required label fs
unfolding object_payload
object_payload_sound (obj gs) allowed required label fs e =
    let (u, small, e1) = >>=-eq-ok (require (leb (count_fields gs) 32) _) _ e in
    let (u, known, e2) = >>=-eq-ok (require (is_empty (unknown_keys gs allowed)) _) _ e1 in
    let (u, whole, e3) = >>=-eq-ok (require (is_empty (missing_keys gs required)) _) _ e2 in
    let (u, bounded, e4) = >>=-eq-ok (ensure_bounded_json (default_limits label) (obj gs)) _ e3 in
    let same : gs ≡ fs = cc in
    rw (← same) (record {
      is_dict = refl;
      few = leb→le _ _ (require-eq-ok _ _ small);
      known = filter_empty-mem (λ k. member k allowed) (keys gs) (require-eq-ok _ _ known);
      complete = filter_empty-mem (λ k. member k (keys gs)) required (require-eq-ok _ _ whole);
      bounded = (ensure_bounded_json_iff (default_limits label) (obj gs)).0 bounded;
    })
object_payload_sound _ allowed required label fs e = cc

object_payload_complete :
    (v : Value) (allowed required : List String) (label : String) (fs : Fields)
    → IsPayload v allowed required label fs
    → object_payload v allowed required label ≡ ok fs
unfolding object_payload
object_payload_complete v allowed required label fs h = rw (
  h.is_dict,
  le→leb _ _ h.few,
  mem-filter_empty (λ k. member k allowed) (keys fs) h.known,
  mem-filter_empty (λ k. member k (keys fs)) required h.complete,
  (ensure_bounded_json_iff (default_limits label) (obj fs)).1 (rw h.is_dict at h.bounded),
)

-- `object_payload` returns a dict exactly when it was given that dict, it has at most 32 entries,
-- all its keys are allowed, all required keys are there, and it is bounded as JSON.
pub object_payload_iff :
    (v : Value) (allowed required : List String) (label : String) (fs : Fields)
    → (object_payload v allowed required label ≡ ok fs) ↔ IsPayload v allowed required label fs
object_payload_iff v allowed required label fs = (
  object_payload_sound v allowed required label fs,
  object_payload_complete v allowed required label fs,
)

-- No text stands twice.
abbrev pub Distinct : List String → Type 0
Distinct [] = Unit
Distinct (x ∷ xs) = (member x xs ≡ false) × Distinct xs

bounded_string_sound :
    (v : Value) (label : String) (maximum : ℕ) (s : String)
    → bounded_string v label maximum ≡ ok s
    → (v ≡ str s) × (is_bounded_text maximum s ≡ true)
unfolding bounded_string
bounded_string_sound (str t) label maximum s e =
    let (u, fits, more) = >>=-eq-ok (require (is_bounded_text maximum t) _) _ e in
    let same : t ≡ s = cc in rw (← same) (refl, require-eq-ok _ _ fits)
bounded_string_sound _ label maximum s e = cc

pub member-snoc :
    (y s : String) (xs : List String) → member y (xs ++ s ∷ []) ≡ (member y xs || (y == s))
member-snoc y s [] = ground arith
member-snoc y s (x ∷ xs) = ground (arith, member-snoc y s xs)

count_items-texts : (xs : List String) → count_items (texts xs) ≡ length xs
count_items-texts [] = refl
count_items-texts (x ∷ xs) = ap suc (count_items-texts xs)

-- What the loop adds to `result`: texts that are bounded, new and different.
abbrev Adds : ℕ → List String → Items → List String → Type 0
Adds maximum result xs r =
    (added : List String) × (r ≡ result ++ added)
    × (xs ≡ texts added)
    × All (λ s. is_bounded_text maximum s ≡ true) added
    × ((y : String) → member y result ≡ true → member y added ≡ false)
    × Distinct added

string_loop-Adds :
    (label : String) (maximum index : ℕ) (result : List String) (xs : Items) (r : List String)
    → string_loop label maximum index result xs ≡ ok r
    → Adds maximum result xs r
unfolding string_loop
string_loop-Adds label maximum index result nil r e =
    ([], cc (append-nil result), refl, tt, (λ y m. refl), tt)
string_loop-Adds label maximum index result (cons item rest) r e =
    let (s, read, e1) = >>=-eq-ok (bounded_string item _ maximum) _ e in
    let (u, new, e2) = >>=-eq-ok (require (not (member s result)) _) _ e1 in
    let (is_text, fits) = bounded_string_sound item _ maximum s read in
    let (added, joined, same, bounded, apart, distinct) =
      string_loop-Adds label maximum (index + 1) (result ++ s ∷ []) rest r e2 in
    let fresh : member s result ≡ false = ground (arith, require-eq-ok _ _ new) in
    (
      s ∷ added,
      joined ∙ append_assoc result (s ∷ []) added,
      cc (is_text, same),
      (fits, bounded),
      (λ y m. ground (arith, eq_iff y s, apart y, member-snoc y s result)),
      (ground (arith, apart s, member-snoc s s result, eq_iff s s), distinct),
    )

-- The list that `string_list` returns is the whole of its argument: a JSON list of at most
-- `maximum_items` texts, each not empty, free of NUL and at most `item_maximum` characters long,
-- and no two of them equal.
pub string_list_sound :
    (v : Value) (label : String) (maximum_items item_maximum : ℕ) (r : List String)
    → string_list v label maximum_items item_maximum ≡ ok r
    → (v ≡ arr (texts r))
      × (length r ≤ maximum_items)
      × All (λ s. is_bounded_text item_maximum s ≡ true) r
      × Distinct r
unfolding string_list
string_list_sound (arr xs) label maximum_items item_maximum r e =
    let (u, few, e1) = >>=-eq-ok (require (leb (count_items xs) maximum_items) _) _ e in
    let (added, joined, same, bounded, apart, distinct) =
      string_loop-Adds label item_maximum 0 [] xs r e1 in
    rw joined (
      ap arr same,
      omega (
        arith,
        leb→le (count_items xs) maximum_items (require-eq-ok _ _ few),
        ap count_items same,
        count_items-texts added,
      ),
      bounded,
      distinct,
    )
string_list_sound _ label maximum_items item_maximum r e = cc

device_id_re-domain : (s : String) → device_id_re s ≡ true → domain_re (before b':' s) ≡ true
unfolding device_id_re
device_id_re-domain s h = ground arith

-- A device id begins with a domain: what stands before its first colon matches `DOMAIN_RE`.
pub device_id-domain :
    (v : Value) (label s : String)
    → device_id v label ≡ ok s
    → (v ≡ str s) × (domain_re (before b':' s) ≡ true)
unfolding device_id
device_id-domain v label s e =
    let (t, read, e1) = >>=-eq-ok (bounded_string v label 192) _ e in
    let (u, matches, e2) = >>=-eq-ok (require (device_id_re t) _) _ e1 in
    let same : t ≡ s = cc in
    rw (← same) (
      (bounded_string_sound v label 192 t read).0,
      device_id_re-domain t (require-eq-ok _ _ matches),
    )

-- A domain that is accepted is the text that was given.
pub domain_sound : (v : Value) (label s : String) → domain v label ≡ ok s → v ≡ str s
unfolding domain
domain_sound v label s e =
    let (t, read, e1) = >>=-eq-ok (bounded_string v label 64) _ e in
    let (u, matches, e2) = >>=-eq-ok (require (domain_re t) _) _ e1 in
    let same : t ≡ s = cc in rw (← same) (bounded_string_sound v label 64 t read).0

-- A map that is accepted is the dict that was given.
pub safe_scalar_map_sound :
    (v : Value) (label : String) (maximum_fields : ℕ) (fs : Fields)
    → safe_scalar_map v label maximum_fields ≡ ok fs
    → v ≡ obj fs
unfolding safe_scalar_map
safe_scalar_map_sound (obj gs) label maximum_fields fs e =
    let (u, few, e1) = >>=-eq-ok (require (leb (count_fields gs) maximum_fields) _) _ e in
    let (u, bounded, e2) = >>=-eq-ok (ensure_bounded_json _ (obj gs)) _ e1 in cc
safe_scalar_map_sound _ label maximum_fields fs e = absurd cc

-- A capability that is accepted is the text that was given.
pub capability_sound : (v : Value) (label s : String) → capability v label ≡ ok s → v ≡ str s
unfolding capability
capability_sound v label s e =
    let (t, read, e1) = >>=-eq-ok (bounded_string v label 128) _ e in
    let (u, matches, e2) = >>=-eq-ok (require (capability_re t) _) _ e1 in
    let same : t ≡ s = cc in rw (← same) (bounded_string_sound v label 128 t read).0
