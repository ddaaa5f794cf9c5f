-- ===== src/Manager/Selection/Exclusion.antt =====
-- What the commit at the end of `select_provider` does, and that it is done for at most one of two
-- callers that expect the same revision.
use msys_hal.Prelude.{
  ℕ, ◌+◌, ◌≡◌, refl, ap, sym, ◌∙◌, String, true, false, Option, none, some, [], ◌∷◌, ◌++◌,
  Bool-cases, ◌⊎◌, inl, inr, not, arith, ◌==◌, string_eq, nat_eq, eq_iff, if◌then◌else◌,
}
use mathlib.Core.Path.{subst}
use msys_hal.Prelude.Dict.{Dict, get, get-pop, get-keep}
use msys_hal.Errors.{Exception, Result, ok, err, error_code}
use msys_hal.SelectionStore.{unlink_temporary, file_of, selection_payload}
use msys_hal.SelectionStore.Atomic.{save_atomic}
use msys_hal.Manager.State.{Candidate, Event, Env, State}
use msys_hal.Manager.Exec.{acquire, gets, pure, ◌>>=◌}
use msys_hal.Manager.Journal.{trim, append_event}
use msys_hal.Manager.Selection.{
  check_revision, other_routes, set_selection, same_choice, save_selections, finish_commit,
  committed, write_choice, commit_locked, commit_selection,
}
use msys_hal.Manager.Selection.Guarantee.{get-set_selection, get-set_selection_back}
use msys_hal.Manager.Devices.{domain_of}
use msys_hal.Manager.Evolution.{Grows}
use msys_hal.Manager.Evolution.Rules.{IsRely}

-- A commit that went through with the event `e`.
pub record IsChosen (domain : String) (component : Option String) (e : Event) (s t : State)
    : Type 0 where
  pub next : e.revision ≡ s.shared.revision + 1
  pub counted : t.shared.revision ≡ s.shared.revision + 1
  pub journal : t.shared.journal ≡ trim (s.shared.journal ++ e ∷ [])
  pub selected :
      (d : String)
      → get d t.shared.selections ≡ (if domain == d then component else get d s.shared.selections)
  pub routes :
      (i : String)
      → get i t.shared.device_routes
        ≡ (if domain_of i == domain then none else get i s.shared.device_routes)
  pub active :
      (d : String)
      → get d t.shared.active_providers
        ≡ (if domain == d then none else get d s.shared.active_providers)
  pub stored : t.disk.current ≡ some (file_of (selection_payload t.shared.selections))

-- A commit that left the fields as they were.
pub record IsKept (s t : State) : Type 0 where
  pub revision : t.shared.revision ≡ s.shared.revision
  pub journal : t.shared.journal ≡ s.shared.journal
  pub routes : t.shared.device_routes ≡ s.shared.device_routes
  pub active : t.shared.active_providers ≡ s.shared.active_providers
  pub selected : (d : String) → get d t.shared.selections ≡ get d s.shared.selections

-- The file holds the choices that were to be saved, although `save` has raised: the temporary name
-- could not be unlinked behind `os.replace`.
pub record IsStrayed (domain : String) (component : Option String) (env : Env) (s t : State)
    : Type 0 where
  pub choices : Dict String String
  pub selected :
      (d : String) → get d choices ≡ (if domain == d then component else get d s.shared.selections)
  pub stored : t.disk.current ≡ some (file_of (selection_payload choices))
  pub cause : String
  pub unlinking : env.disk_fails s.trace unlink_temporary ≡ some cause
  pub other_cause : (cause == "FileNotFoundError") ≡ false

abbrev pub Outcome : String → Option String → Env → State → Result (Option Event) × State → Type 0
Outcome domain component env s (ok (some e), t) = IsChosen domain component e s t
Outcome domain component env s (ok none, t) =
    IsKept s t × (t.disk.current ≡ s.disk.current) × (get domain s.shared.selections ≡ component)
Outcome domain component env s (err x, t) =
    IsKept s t × ((t.disk.current ≡ s.disk.current) ⊎ IsStrayed domain component env s t)

IsKept-refl : (s : State) → IsKept s s
IsKept-refl s = record {
  revision = refl;
  journal = refl;
  routes = refl;
  active = refl;
  selected = λ d. refl;
}

same_choice-eq : (a b : Option String) → same_choice a b ≡ true → a ≡ b
same_choice-eq none none e = refl
same_choice-eq none (some b) e = cc
same_choice-eq (some a) none e = cc
same_choice-eq (some a) (some b) e = ap some ((eq_iff a b).0 e)

-- The routes that are left are those of the other domains.
other_routes-get :
    (domain i : String) (routes : Dict String Candidate)
    → get i (other_routes domain routes) ≡ (if domain_of i == domain then none else get i routes)
other_routes-get domain i routes =
    get-keep (λ k. not (domain_of k == domain)) i routes
    ∙ elim (Bool-cases (domain_of i == domain)) [ inl e ↦ rw e refl | inr e ↦ rw e refl ]

write_choice-Outcome :
    (domain : String) (component : Option String) (env : Env) (s : State)
    → s.disk.temporary ≡ none
    → Outcome domain component env s
        (write_choice domain component (get domain s.shared.selections) env s)
unfolding write_choice save_selections finish_commit committed append_event
write_choice-Outcome domain component env s clear =
    let choices = set_selection domain component s.shared.selections in
    let selected : (d : String)
        → get d choices ≡ (if domain == d then component else get d s.shared.selections) =
      λ d. get-set_selection domain d component s.shared.selections in
    elim (save_atomic (env.disk_fails s.trace) choices s.disk clear) [
      | inl (done, (installed, _)) ↦ rw done (record {
        next = refl;
        counted = refl;
        journal = refl;
        selected = selected;
        routes = λ i. other_routes-get domain i s.shared.device_routes;
        active = λ d. get-pop domain d s.shared.active_providers;
        stored = installed;
      })
      | inr (e, failed, ending) ↦ rw failed (
        record {
          revision = refl;
          journal = refl;
          routes = refl;
          active = refl;
          selected = λ d. get-set_selection_back domain d component s.shared.selections;
        },
        elim ending [
          | inl (old, _) ↦ inl old
          | inr ((installed, _), cause, unlinking, other) ↦ inr (record {
            choices = choices;
            selected = selected;
            stored = installed;
            cause = cause;
            unlinking = unlinking;
            other_cause = other;
          })
        ],
      )
    ]

commit_choice-Outcome :
    (domain : String) (component : Option String) (env : Env) (s : State)
    → s.disk.temporary ≡ none
    → Outcome domain component env s (
        (gets (λ s. get domain s.selections) >>= λ old.
        if same_choice old component then pure none else write_choice domain component old)
          env s)
commit_choice-Outcome domain component env s clear =
    elim (Bool-cases (same_choice (get domain s.shared.selections) component)) [
      | inl e ↦
          rw e (IsKept-refl s, refl, same_choice-eq (get domain s.shared.selections) component e)
      | inr e ↦ rw e (write_choice-Outcome domain component env s clear)
    ]

-- A caller whose revision is not the current one is turned away.
commit_locked-stale :
    (domain : String) (component : Option String) (n : ℕ) (env : Env) (s : State)
    → (n == s.shared.revision) ≡ false
    → (error : Exception) × (commit_locked domain component (some n) env s ≡ (err error, s))
      × (error_code error ≡ "HAL_CONFLICT")
unfolding commit_locked check_revision
commit_locked-stale domain component n env s other = rw other (_, refl, refl)

-- What the commit under the lock does, whatever the file system does, if no temporary file lies beside
-- the preference file. With an event: the event is the next one, the revision is one higher, the
-- event is appended to the journal, the domain has the new choice and every other domain its old
-- one, the device routes and the active provider of the domain are gone and those of every other
-- domain stand, and the file holds the document of just these selections. Without an event, or with
-- an exception: the revision, the journal, the routes, the active providers and the choice of every
-- domain are as before. Without an event the file is as before and the choice stood already. With an
-- exception the file is as before, or it holds the choices that were to be saved; the latter only if
-- the `unlink` of the temporary name has failed with another exception than FileNotFoundError.
pub commit_locked-Outcome :
    (domain : String) (component : Option String) (expected : Option ℕ) (env : Env) (s : State)
    → s.disk.temporary ≡ none
    → Outcome domain component env s (commit_locked domain component expected env s)
unfolding commit_locked check_revision
commit_locked-Outcome domain component none env s clear =
    commit_choice-Outcome domain component env s clear
commit_locked-Outcome domain component (some n) env s clear =
    elim (Bool-cases (n == s.shared.revision)) [
      | inl e ↦ rw e (commit_choice-Outcome domain component env s clear)
      | inr e ↦ rw e (IsKept-refl s, inl refl)
    ]

-- With an expected revision, an event is committed only at that revision.
commit_locked-expected :
    (domain : String) (component : Option String) (n : ℕ) (env : Env) (s t : State) (e : Event)
    → commit_locked domain component (some n) env s ≡ (ok (some e), t)
    → n ≡ s.shared.revision
commit_locked-expected domain component n env s t e done =
    elim (Bool-cases (n == s.shared.revision)) [
      | inl same ↦ ground arith
      | inr other ↦
          let (error, refused, code) = commit_locked-stale domain component n env s other in
          let clash = sym refused ∙ done in cc
    ]

-- Of two callers of `select_provider` that expect the same revision, at most one commits: when the
-- first has committed an event, with no temporary file left over from before, and the fields have
-- then evolved by the events of any threads, the commit of the second, for any domain and choice,
-- raises HAL_CONFLICT and leaves the fields and the file as it found them under the lock.
pub commit_selection-exclusive :
    (n : ℕ) (env : Env) (first second : String) (c d : Option String) (s t u : State) (e : Event)
    → IsRely env
    → (env.others_disk s.trace s.disk).temporary ≡ none
    → commit_selection first c (some n) env s ≡ (ok (some e), t)
    → Grows t.shared u.shared
    → (error : Exception) × (commit_selection second d (some n) env u
        ≡ (err error, (acquire env u).1))
      × (error_code error ≡ "HAL_CONFLICT")
unfolding commit_selection commit_locked acquire
commit_selection-exclusive n env first second c d s t u e rely clear done later =
    let (_, locked) = acquire env s in
    let chosen =
      subst (Outcome first c env locked) done
        (commit_locked-Outcome first c (some n) env locked clear) in
    let expected = commit_locked-expected first c n env locked t e done in
    let now = rely.others_grow u.trace u.shared in
    let other : (n == (acquire env u).1.shared.revision) ≡ false =
      ground (arith, later.counted, now.counted, chosen.counted) in
    let (error, refused, code) = commit_locked-stale second d n env (acquire env u).1 other in
    (error, refused, code)
