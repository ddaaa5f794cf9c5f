-- ===== src/Radios/Network/Selected.antt =====
-- The configured networks that `connect` and `forget` of radios.py look for.
use msys_hal.Prelude.{
  ℕ, String, Bool, true, false, List, [], ◌∷◌, ◌++◌, filter, All, ◌≤◌, ◌≡◌, ap, inl, inr, ◌==◌,
  string_eq, nat_eq, if◌then◌else◌, Bool-cases,
}
use mathlib.Core.Path.{subst}
use msys_hal.Json.{Fields, int, null, field_or}
use msys_hal.Json.Int.{pos, pos_part}
use msys_hal.Errors.{ok, >>=-eq-ok}
use msys_hal.Validation.Payload.{integer}
use msys_hal.Linux.Backlight.Writes.{integer-natural}
use msys_hal.Radios.Credentials.{validate_ssid}
use msys_hal.Radios.Responses.{Network, parse_networks}
use msys_hal.Radios.Responses.Bounds.{IsNetwork}
use msys_hal.Radios.Network.{Surroundings}
use msys_hal.Radios.Network.Requests.{has, matches_of}

-- The networks that the control channel lists in a state, within their bounds.
pub record AreConfigured {S : Type 0} (w : Surroundings S) (interface : String) (s : S)
    (networks : List Network) : Type 0 where
  pub answer : String
  pub answered : (w.control.request interface "LIST_NETWORKS" s).0 ≡ ok answer
  pub parsed : parse_networks w.unicode answer ≡ ok networks
  pub bounded : All (IsNetwork w.unicode) networks

-- The one network of the list that passes the test.
pub record IsOnly (p : Network → Bool) (networks : List Network) (n : Network) : Type 0 where
  pub before : List Network
  pub after : List Network
  pub is_listed : networks ≡ before ++ n ∷ after
  pub passes : p n ≡ true
  pub none_before : All (λ m. p m ≡ false) before
  pub none_after : All (λ m. p m ≡ false) after

-- The one network that the changes name, by its number or by its ssid.
pub data IsMeant {S : Type 0} (w : Surroundings S) (changes : Fields) (networks : List Network)
    (n : Network) : Type 0 where
  by_number :
      (k : ℕ)
      → field_or null "network_id" changes ≡ int (pos k)
      → IsOnly (λ m. m.network_id == k) networks n
      → IsMeant w changes networks n
  by_name :
      (ssid : String)
      → validate_ssid w.unicode (field_or null "ssid" changes) ≡ ok ssid
      → IsOnly (λ m. m.ssid == ssid) networks n
      → IsMeant w changes networks n

module _ (p : Network → Bool) where
  pub filter-none : (ns : List Network) → filter p ns ≡ [] → All (λ m. p m ≡ false) ns
  filter-none [] h = tt
  filter-none (n ∷ ns) h = elim (Bool-cases (p n)) [
    | inl hit ↦ absurd (let l = rw (hit, if◌then◌else◌) at h in cc)
    | inr miss ↦ (miss, filter-none ns (rw (miss, if◌then◌else◌) at h))
  ]

  pub filter-IsOnly : (ns : List Network) (n : Network) → filter p ns ≡ n ∷ [] → IsOnly p ns n
  filter-IsOnly [] n h = absurd cc
  filter-IsOnly (m ∷ ns) n h = elim (Bool-cases (p m)) [
    | inl hit ↦
        let split : (m ∷ filter p ns) ≡ n ∷ [] = rw (hit, if◌then◌else◌) at h in
        let same : m ≡ n = cc in
        let rest : filter p ns ≡ [] = cc in
        record {
          before = [];
          after = ns;
          is_listed = ap (λ k. k ∷ ns) same;
          passes = subst (λ k. p k ≡ true) same hit;
          none_before = tt;
          none_after = filter-none ns rest;
        }
    | inr miss ↦
        let rest = filter-IsOnly ns n (rw (miss, if◌then◌else◌) at h) in
        record {
          before = m ∷ rest.before;
          after = rest.after;
          is_listed = ap (◌∷◌ m) rest.is_listed;
          passes = rest.passes;
          none_before = (miss, rest.none_before);
          none_after = rest.none_after;
        }
  ]

pub matches_of-IsMeant :
    {S : Type 0} (w : Surroundings S) (changes : Fields) (networks : List Network) (n : Network)
    → matches_of w changes networks ≡ ok (n ∷ [])
    → IsMeant w changes networks n
unfolding matches_of
matches_of-IsMeant w changes networks n q = elim (Bool-cases (has "network_id" changes)) [
  | inl numbered ↦
      let (id, e, q1) =
        >>=-eq-ok (integer (field_or null "network_id" changes) "network_id" (pos 0) (pos 4095)) _
          (rw (numbered, if◌then◌else◌) at q) in
      let (k, is_int, same, _) = integer-natural _ _ 4095 id e in
      let found : filter (λ m. m.network_id == pos_part id) networks ≡ n ∷ [] = cc in
      by_number k is_int (
        filter-IsOnly (λ m. m.network_id == k) networks n
          (subst (λ j. filter (λ m. m.network_id == pos_part j) networks ≡ n ∷ []) same found))
  | inr named ↦
      let (ssid, e, q1) =
        >>=-eq-ok (validate_ssid w.unicode (field_or null "ssid" changes)) _
          (rw (named, if◌then◌else◌) at q) in
      let found : filter (λ m. m.ssid == ssid) networks ≡ n ∷ [] = cc in
      by_name ssid e (filter-IsOnly (λ m. m.ssid == ssid) networks n found)
]

All-middle :
    (P : Network → Type 0) (before after : List Network) (n : Network)
    → All P (before ++ n ∷ after)
    → P n
All-middle P [] after n h = h.0
All-middle P (m ∷ before) after n h = All-middle P before after n h.1

module _ {S : Type 0} (w : Surroundings S) where
  pub IsOnly-bound :
      (p : Network → Bool) (networks : List Network) (n : Network)
      → All (IsNetwork w.unicode) networks
      → IsOnly p networks n
      → n.network_id ≤ 4095
  IsOnly-bound p networks n h only =
      (All-middle (IsNetwork w.unicode) only.before only.after n
        (subst (All (IsNetwork w.unicode)) only.is_listed h)).id_bound

  pub IsMeant-bound :
      (changes : Fields) (networks : List Network) (n : Network)
      → All (IsNetwork w.unicode) networks
      → IsMeant w changes networks n
      → n.network_id ≤ 4095
  IsMeant-bound changes networks n h (by_number k _ only) = IsOnly-bound _ networks n h only
  IsMeant-bound changes networks n h (by_name ssid _ only) = IsOnly-bound _ networks n h only
