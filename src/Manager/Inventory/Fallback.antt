-- ===== src/Manager/Inventory/Fallback.antt =====
-- The loop of `inventory` over the candidates of a domain, against its description: the outcomes of
-- the probes one after another, and the choice among them.
use msys_hal.Prelude.{
  ◌≡◌, refl, sym, ap, ◌∙◌, String, false, Option, none, some, List, [], ◌∷◌, ◌++◌, if◌then◌else◌,
  ◌==◌, string_eq, Bool-cases, inl, inr, prefix, find, arith,
}
use mathlib.Core.List.{append-nil, append_assoc}
use msys_hal.Errors.{Exception, error_text, Result, ok, err}
use msys_hal.Manager.State.{Candidate, Env, State}
use msys_hal.Manager.Responses.{Inventory}
use msys_hal.Manager.Probe.{probe_candidate}
use msys_hal.Manager.Catalog.{SelectionMode, manual, is_component, order_by}
use msys_hal.Manager.Inventory.{
  Choice, chosen, nobody, settle_choice, judge_probe, try_candidates, first_of_two, is_manual,
}

-- The outcomes of the probes of the candidates, each in the state that the one before has left.
abbrev pub probed : String → List Candidate → Env → State → List (Candidate × Result Inventory)
probed domain [] env s = []
probed domain (c ∷ cs) env s =
    let (outcome, s') = probe_candidate c domain 5000 env s in
    (c, outcome) ∷ probed domain cs env s'

-- The first inventory that is not unavailable.
abbrev pub first_usable : List (Candidate × Result Inventory) → Option (Inventory × Candidate)
first_usable [] = none
first_usable ((c, err e) ∷ rest) = first_usable rest
first_usable ((c, ok i) ∷ rest) =
    if i.row.status == "unavailable" then first_usable rest else some (i, c)

-- The first inventory at all.
abbrev pub first_answer : List (Candidate × Result Inventory) → Option (Inventory × Candidate)
first_answer [] = none
first_answer ((c, err e) ∷ rest) = first_answer rest
first_answer ((c, ok i) ∷ rest) = some (i, c)

-- The texts of all errors.
abbrev pub error_texts : List (Candidate × Result Inventory) → List String
error_texts [] = []
error_texts ((c, err e) ∷ rest) = prefix 160 (error_text e) ∷ error_texts rest
error_texts ((c, ok i) ∷ rest) = error_texts rest

abbrev or_first :
    Option (Inventory × Candidate) → Option (Inventory × Candidate) → Option (Inventory × Candidate)
or_first none later = later
or_first (some first) later = some first

abbrev pub decide :
    Option (Inventory × Candidate) → Option (Inventory × Candidate) → List String → Choice
decide (some (i, c)) answer errors = chosen i c
decide none answer errors = settle_choice answer errors

abbrev pick_from :
    Option (Inventory × Candidate) → List String → List (Candidate × Result Inventory) → Choice
pick_from unavailable errors outcomes =
    decide (first_usable outcomes) (or_first unavailable (first_answer outcomes))
      (errors ++ error_texts outcomes)

-- The first usable inventory, else the first at all, else the errors.
abbrev pub pick : List (Candidate × Result Inventory) → Choice
pick outcomes = decide (first_usable outcomes) (first_answer outcomes) (error_texts outcomes)

-- One outcome more in front.
pick_from-err :
    (u : Option (Inventory × Candidate)) (es : List String) (c : Candidate) (e : Exception)
    (outcomes : List (Candidate × Result Inventory))
    → pick_from u (es ++ prefix 160 (error_text e) ∷ []) outcomes
      ≡ pick_from u es ((c, err e) ∷ outcomes)
pick_from-err u es c e outcomes =
    ap (decide (first_usable outcomes) (or_first u (first_answer outcomes)))
      (append_assoc es (prefix 160 (error_text e) ∷ []) (error_texts outcomes))

pick_from-ok :
    (u : Option (Inventory × Candidate)) (es : List String) (c : Candidate) (i : Inventory)
    (outcomes : List (Candidate × Result Inventory))
    → pick_from (first_of_two u i c) es outcomes
      ≡ decide (first_usable outcomes) (or_first u (some (i, c))) (es ++ error_texts outcomes)
pick_from-ok none es c i outcomes = refl
pick_from-ok (some first) es c i outcomes = refl

judged :
    (mode : SelectionMode) (domain : String) (unavailable : Option (Inventory × Candidate))
    (errors : List String) (c : Candidate) (cs : List Candidate) (env : Env)
    (outcome : Result Inventory) (s : State)
    → is_manual mode ≡ false
    → ((u : Option (Inventory × Candidate)) (es : List String)
        → (try_candidates mode domain u es cs env s).0
          ≡ ok (pick_from u es (probed domain cs env s)))
    → (judge_probe mode unavailable errors c
        (λ u es. try_candidates mode domain u es cs)
        outcome
        env
        s).0
      ≡ ok (pick_from unavailable errors ((c, outcome) ∷ probed domain cs env s))
unfolding judge_probe
judged mode domain unavailable errors c cs env (err e) s auto on = rw auto (
    on unavailable (errors ++ prefix 160 (error_text e) ∷ [])
    ∙ ap ok (pick_from-err unavailable errors c e (probed domain cs env s)))
judged mode domain unavailable errors c cs env (ok i) s auto on =
    elim (Bool-cases (i.row.status == "unavailable")) [
      | inl out ↦
          rw (auto, out)
            (on (first_of_two unavailable i c) errors
              ∙ ap ok (pick_from-ok unavailable errors c i (probed domain cs env s)))
      | inr usable ↦ rw (auto, usable) refl
    ]

fallback :
    (mode : SelectionMode) (domain : String) (u : Option (Inventory × Candidate)) (es : List String)
    (cs : List Candidate) (env : Env) (s : State)
    → is_manual mode ≡ false
    → (try_candidates mode domain u es cs env s).0 ≡ ok (pick_from u es (probed domain cs env s))
unfolding try_candidates
fallback mode domain none es [] env s auto = ap (λ x. ok (nobody x)) (sym (append-nil es))
fallback mode domain (some (i, c)) es [] env s auto = refl
fallback mode domain u es (c ∷ cs) env s auto =
    judged mode domain u es c cs env (probe_candidate c domain 5000 env s).0
      (probe_candidate c domain 5000 env s).1 auto
      (λ u' es'. fallback mode domain u' es' cs env (probe_candidate c domain 5000 env s).1 auto)

-- Without a preference in force, the loop over the candidates never raises, and it chooses among the
-- outcomes of the probes: the first inventory that is not unavailable with its provider, if there is
-- none the first inventory at all, and if there is none either nobody, with the texts of all errors
-- in the order of the candidates.
pub try_candidates-automatic :
    (mode : SelectionMode) (domain : String) (candidates : List Candidate) (env : Env) (s : State)
    → is_manual mode ≡ false
    → (try_candidates mode domain none [] candidates env s).0
      ≡ ok (pick (probed domain candidates env s))
try_candidates-automatic mode domain candidates env s auto =
    fallback mode domain none [] candidates env s auto

-- The probe of the one candidate, whatever becomes of it.
abbrev pub only_choice : Candidate → Result Inventory → Choice
only_choice c (ok i) = chosen i c
only_choice c (err e) = nobody (prefix 160 (error_text e) ∷ [])

-- With a preference in force there is no failover: of the candidates in which the preferred
-- component is first found as `c`, `_ordered_for` hands the loop `c` alone, and the loop probes it
-- once and ends in the state that this leaves, with its inventory even if that is unavailable, or
-- with its error.
pub try_candidates-manual :
    (preferred domain : String) (candidates : List Candidate) (c : Candidate) (env : Env)
    (s : State)
    → (preferred == "") ≡ false
    → find (is_component preferred) candidates ≡ some c
    → let (ordered, mode) = order_by (some preferred) candidates in
      let (outcome, t) = probe_candidate c domain 5000 env s in
      try_candidates mode domain none [] ordered env s ≡ (ok (only_choice c outcome), t)
unfolding order_by try_candidates judge_probe
try_candidates-manual preferred domain candidates c env s named found =
    rw (named, found)
      (alone (probe_candidate c domain 5000 env s).0 (probe_candidate c domain 5000 env s).1)
  where
    alone :
        (outcome : Result Inventory) (t : State)
        → judge_probe manual none [] c (λ u es. try_candidates manual domain u es []) outcome env t
          ≡ (ok (only_choice c outcome), t)
    alone (ok i) t = ground arith
    alone (err e) t = refl
