-- ===== src/Manager/Catalog/Ranking.antt =====
-- What a refresh of the catalog leaves: at most sixteen candidates in their ranking, and health
-- records of these alone.
use msys_hal.Prelude.{
  suc, ◌≤◌, ◌≡◌, refl, ap, String, true, false, List, [], ◌∷◌, length, length-append, leb, ltb→lt,
  text_le, All, arith, Bool-cases, inl, inr, string_eq, pair_eq,
}
use Prim.Native.String.compare.{cons-cons, nil-cons}
use Prim.Native.String.{[] as empty, ◌∷◌ as ◌∷ₛ◌}
use mathlib.Core.Path.{subst, subst₂}
use msys_hal.Prelude.Dict.{Dict, keep}
use msys_hal.Json.Int.{ℤ}
use msys_hal.Errors.{Result, ok, err}
use msys_hal.Manager.State.{Candidate, ProviderHealth, Shared, Env, State}
use msys_hal.Manager.Exec.{lift, acquire, monotonic, >>=-eq-ok}
use msys_hal.Manager.Gateway.{invoke}
use msys_hal.Manager.Discovery.{provider_specs}
use msys_hal.Manager.Describe.{describe_candidate}
use msys_hal.Manager.Catalog.{
  commit, describe_batches, candidate_le, insert_candidate, sort_candidates, is_live, keeps_health,
  install, is_fresh, discover, refresh_catalog,
}

text_le-total : (a b : String) → text_le a b ≡ false → text_le b a ≡ true
text_le-total empty empty h = refl
text_le-total empty (d ∷ₛ t) h = ground (arith, nil-cons d t)
text_le-total (c ∷ₛ s) empty h = ground (arith, nil-cons c s)
text_le-total (c ∷ₛ s) (d ∷ₛ t) h =
    ground (arith, cons-cons c d s t, cons-cons d c t s, text_le-total s t)

candidate_le-total : (a b : Candidate) → candidate_le a b ≡ false → candidate_le b a ≡ true
candidate_le-total a b h = ground (arith, text_le-total a.component b.component)

-- Each candidate ranks at least as high as the next: by the higher priority, then by the name.
abbrev pub IsRanked : List Candidate → Type 0
IsRanked [] = Unit
IsRanked (c ∷ []) = Unit
IsRanked (c ∷ d ∷ rest) = (candidate_le c d ≡ true) × IsRanked (d ∷ rest)

-- What an insertion puts in front is the new candidate or the old front.
insert_candidate-IsRanked-cons :
    (d c : Candidate) (xs : List Candidate)
    → candidate_le d c ≡ true
    → IsRanked (d ∷ xs)
    → IsRanked (insert_candidate c xs)
    → IsRanked (d ∷ insert_candidate c xs)
unfolding insert_candidate
insert_candidate-IsRanked-cons d c [] le h k = (le, tt)
insert_candidate-IsRanked-cons d c (x ∷ xs) le h k = elim (Bool-cases (candidate_le c x)) [
  | inl e ↦ rw (e, insert_candidate) (le, (e, h.1))
  | inr e ↦ rw (e, insert_candidate) (h.0, (let k' = rw (e, insert_candidate) at k in k'))
]

insert_candidate-IsRanked :
    (c : Candidate) (xs : List Candidate) → IsRanked xs → IsRanked (insert_candidate c xs)
unfolding insert_candidate
insert_candidate-IsRanked c [] h = tt
insert_candidate-IsRanked c (x ∷ xs) h = elim (Bool-cases (candidate_le c x)) [
  | inl e ↦ rw (e, insert_candidate) (e, h)
  | inr e ↦
      rw (e, insert_candidate)
        (insert_candidate-IsRanked-cons x c xs (candidate_le-total c x e) h
          (insert_candidate-IsRanked c xs (rest x xs h)))
]
  where
    rest : (y : Candidate) (ys : List Candidate) → IsRanked (y ∷ ys) → IsRanked ys
    rest y [] k = tt
    rest y (z ∷ zs) k = k.1

sort_candidates-IsRanked : (cs : List Candidate) → IsRanked (sort_candidates cs)
unfolding sort_candidates
sort_candidates-IsRanked [] = tt
sort_candidates-IsRanked (c ∷ cs) =
    insert_candidate-IsRanked c (sort_candidates cs) (sort_candidates-IsRanked cs)

length-insert_candidate :
    (c : Candidate) (xs : List Candidate) → length (insert_candidate c xs) ≡ suc (length xs)
unfolding insert_candidate
length-insert_candidate c [] = omega arith
length-insert_candidate c (x ∷ xs) = ground (arith, length-insert_candidate c xs)

length-sort_candidates : (cs : List Candidate) → length (sort_candidates cs) ≡ length cs
unfolding sort_candidates
length-sort_candidates [] = refl
length-sort_candidates (c ∷ cs) =
    omega (arith, length-insert_candidate c (sort_candidates cs), length-sort_candidates cs)

length-commit-le :
    (r : Result Candidate) (cs : List Candidate) → length cs ≤ 16 → length (commit r cs) ≤ 16
unfolding commit
length-commit-le (err e) cs h = h
length-commit-le (ok c) cs h = ground (arith, length-append cs (c ∷ []), ltb→lt (length cs) 16)

describe_batches-bounded :
    (specs : List (String × ℤ)) (cs : List Candidate) (env : Env) (s t : State) (r : List Candidate)
    → describe_batches specs cs env s ≡ (ok r, t)
    → length cs ≤ 16
    → length r ≤ 16
unfolding describe_batches
describe_batches-bounded [] cs env s t r e h =
    let same : cs ≡ r = cc in subst (λ l. length l ≤ 16) same h
describe_batches-bounded ((c, p) ∷ []) cs env s t r e h =
    let outcome = (describe_candidate c p env s).0 in
    let same : commit outcome cs ≡ r = cc in
    subst (λ l. length l ≤ 16) same (length-commit-le outcome cs h)
describe_batches-bounded ((c, p) ∷ (d, q) ∷ rest) cs env s t r e h =
    let (outcome, s') = describe_candidate c p env s in
    let (outcome', s'') = describe_candidate d q env s' in
    let cs' = commit outcome' (commit outcome cs) in
    let h' : length cs' ≤ 16 =
      length-commit-le outcome' (commit outcome cs) (length-commit-le outcome cs h) in
    elim (Bool-cases (leb 16 (length cs'))) [
      | inl full ↦
          let e' = rw full at e in let same : cs' ≡ r = cc in subst (λ l. length l ≤ 16) same h'
      | inr room ↦ let e' = rw room at e in describe_batches-bounded rest cs' env s'' t r e' h'
    ]

-- The catalog behind a refresh.
pub record IsCatalog (candidates : List Candidate) (s : Shared) : Type 0 where
  pub installed : s.candidates ≡ candidates
  pub few : length candidates ≤ 16
  pub ranked : IsRanked candidates
  pub live : All (λ entry. is_live candidates entry.0 ≡ true) s.provider_health

kept-live :
    (old new : List Candidate) (d : Dict (String × String) ProviderHealth)
    → All (λ entry. is_live new entry.0 ≡ true) (keep (λ key health. keeps_health old new key) d)
unfolding keeps_health
kept-live old new [] = tt
kept-live old new ((key, h) ∷ d) = elim (Bool-cases (keeps_health old new key)) [
  | inl e ↦ rw e (ground arith, kept-live old new d)
  | inr e ↦ rw e (kept-live old new d)
]

abbrev returned : Result (List Candidate) → List Candidate
returned (ok cs) = cs
returned (err e) = []

discover-IsCatalog :
    (env : Env) (s t : State) (cs : List Candidate)
    → discover env s ≡ (ok cs, t)
    → IsCatalog cs t.shared
unfolding discover acquire monotonic install
discover-IsCatalog env s t cs e =
    let (discovery, _, e1) = >>=-eq-ok (invoke _ _) _ e in
    let (specs, _, e2) = >>=-eq-ok (lift (provider_specs env discovery)) _ e1 in
    let (described, batches, e3) = >>=-eq-ok (describe_batches specs []) _ e2 in
    let cs' = sort_candidates described in
    let u = (describe_batches specs [] env _).1 in
    let u' = (acquire env u).1 in
    let now = env.monotonic u'.trace in
    let same : cs' ≡ cs = ap (λ x. returned x.0) e3 in
    let led : install cs' now u'.shared ≡ t.shared = ap (λ x. x.1.shared) e3 in
    let few : length described ≤ 16 =
      describe_batches-bounded specs [] env _ _ described batches (omega arith) in
    subst₂ IsCatalog same led (record {
      installed = refl;
      few = omega (arith, length-sort_candidates described);
      ranked = sort_candidates-IsRanked described;
      live = kept-live u'.shared.candidates cs' u'.shared.provider_health;
    })

-- A forced refresh that returns leaves the catalog that it returns: at most sixteen candidates, each
-- ranked at least as high as the next by its priority and then its name, and every health record
-- is of a candidate of the catalog and a domain that it serves.
pub refresh_catalog-IsCatalog :
    (env : Env) (s t : State) (cs : List Candidate)
    → refresh_catalog true env s ≡ (ok cs, t)
    → IsCatalog cs t.shared
unfolding refresh_catalog is_fresh acquire
refresh_catalog-IsCatalog env s t cs e = discover-IsCatalog env _ t cs e
