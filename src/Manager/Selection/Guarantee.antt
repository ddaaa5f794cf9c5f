-- ===== src/Manager/Selection/Guarantee.antt =====
-- `select_provider` keeps to `Grows`: the selection changes exactly by the event that it appends.
use msys_hal.Prelude.{
  ℕ, ◌≡◌, refl, ap, sym, String, Bool, Option, none, some, List, [], Bool-cases, inl, inr, arith,
  ◌==◌, string_eq, nat_eq, eq_iff, if◌then◌else◌,
}
use msys_hal.Prelude.Dict.{Dict, get, get-put, get-pop}
use msys_hal.Errors.{Result, ok, err}
use msys_hal.SelectionStore.{Disk}
use msys_hal.Manager.State.{Candidate, Event, Shared, Env, State, Act}
use msys_hal.Manager.Exec.{gets, pure, ◌>>=◌}
use msys_hal.Manager.Responses.{Inventory}
use msys_hal.Manager.Journal.{trim, next_event}
use msys_hal.Manager.Journal.Guarantee.{append_event-Grows, emit_event-Respects}
use msys_hal.Manager.Catalog.Guarantee.{candidates_for-Respects}
use msys_hal.Manager.Probe.Guarantee.{probe_candidate-Respects}
use msys_hal.Manager.Providers.Guarantee.{list_providers-Respects, require_provider-Respects}
use msys_hal.Manager.Selection.{
  check_revision, set_selection, same_choice, save_selections, finish_commit, committed,
  write_choice, commit_locked, commit_selection, judge_preflight, preflight, announce,
  select_provider, kind_of, mode_of,
}
use msys_hal.Manager.Evolution.{Grows, Grows-refl, replay_event}
use mathlib.Core.List.{append-nil}
use msys_hal.Manager.Evolution.Rules.{Respects, respects_rules, Respects-bind, Respects-acquire}

-- The event of a selection, replayed, is the selection.
replay_event-next_event :
    (domain : String) (component : Option String) (s : Shared) (d : String)
    → get d (set_selection domain component s.selections)
      ≡ get d (
          replay_event
            (next_event (kind_of component) domain none component (some (mode_of component)) s)
            s.selections)
replay_event-next_event domain none s d = refl
replay_event-next_event domain (some c) s d = refl

pub get-set_selection :
    (domain d : String) (component : Option String) (selections : Dict String String)
    → get d (set_selection domain component selections)
      ≡ (if domain == d then component else get d selections)
get-set_selection domain d none selections = get-pop domain d selections
get-set_selection domain d (some c) selections = get-put domain d c selections

-- Putting the old selection back.
pub get-set_selection_back :
    (domain d : String) (component : Option String) (selections : Dict String String)
    → get d
        (set_selection domain (get domain selections) (set_selection domain component selections))
      ≡ get d selections
get-set_selection_back domain d component selections =
    rw
      (
        get-set_selection domain d (get domain selections)
            (set_selection domain component selections),
        get-set_selection domain d component selections,
      )
      (elim (Bool-cases (domain == d)) [
        | inl same ↦ rw same (ap (λ k. get k selections) ((eq_iff domain d).0 same))
        | inr other ↦ rw other
      ])

abbrev chosen_shared : String → Option String → Shared → Shared
chosen_shared domain component s = record s {
  selections = set_selection domain component s.selections;
}

finish_commit-Grows :
    (domain : String) (component : Option String) (s : Shared) (outcome : Result (Unit {0}))
    (env : Env) (disk : Disk) (trace : List Act)
    → Grows s
        (finish_commit domain component (get domain s.selections) outcome env (record {
          shared = chosen_shared domain component s;
          disk = disk;
          trace = trace;
        })).1.shared
unfolding finish_commit
finish_commit-Grows domain component s (err e) env disk trace = record {
  news = [];
  numbered = tt;
  counted = omega arith;
  journal = ap trim (sym (append-nil s.journal));
  short = λ h. h;
  selections = λ d. get-set_selection_back domain d component s.selections;
}
finish_commit-Grows domain component s (ok u) env disk trace =
    unfold committed in
    append_event-Grows s _ _ refl refl refl (λ d. replay_event-next_event domain component s d)

write_choice-Grows :
    (domain : String) (component : Option String) (env : Env) (s : State)
    → Grows s.shared (write_choice domain component (get domain s.shared.selections) env s).1.shared
unfolding write_choice save_selections
write_choice-Grows domain component env s = finish_commit-Grows domain component s.shared _ env _ _

check_revision-Respects : (expected : Option ℕ) → Respects (check_revision expected)
unfolding check_revision
check_revision-Respects none = record { at = λ env s r. Grows-refl s.shared }
check_revision-Respects (some n) = record { at = λ env s r. Grows-refl s.shared }

commit_choice-Respects :
    (domain : String) (component : Option String)
    → Respects (
        gets (λ s. get domain s.selections) >>= λ old.
        if same_choice old component then pure none else write_choice domain component old)
commit_choice-Respects domain component = record {
  at = λ env s r. elim (Bool-cases (same_choice (get domain s.shared.selections) component)) [
    | inl e ↦ rw e (Grows-refl s.shared)
    | inr e ↦ rw e (write_choice-Grows domain component env s)
  ];
}

commit_locked-Respects :
    (domain : String) (component : Option String) (expected : Option ℕ)
    → Respects (commit_locked domain component expected)
unfolding commit_locked
commit_locked-Respects domain component expected =
    Respects-bind _ _ (check_revision-Respects expected)
      λ u. commit_choice-Respects domain component

pub commit_selection-Respects :
    (domain : String) (component : Option String) (expected : Option ℕ)
    → Respects (commit_selection domain component expected)
unfolding commit_selection
commit_selection-Respects domain component expected =
    Respects-bind _ _ Respects-acquire λ u. commit_locked-Respects domain component expected

judge_preflight-Respects :
    (domain component : String) (allow : Bool) (outcome : Result Inventory)
    → Respects (judge_preflight domain component allow outcome)
unfolding judge_preflight
judge_preflight-Respects domain component allow (err e) = search respects_rules
judge_preflight-Respects domain component allow (ok inventory) = search respects_rules

preflight-Respects :
    (domain : String) (selected : Option Candidate) (allow : Bool)
    → Respects (preflight domain selected allow)
unfolding preflight
preflight-Respects domain none allow = search respects_rules
preflight-Respects domain (some c) allow =
    search (respects_rules, probe_candidate-Respects, judge_preflight-Respects)

announce-Respects : (event : Option Event) → Respects (announce event)
unfolding announce
announce-Respects none = search respects_rules
announce-Respects (some e) = emit_event-Respects e

pub select_provider-Respects :
    (domain : String) (component : Option String) (expected : Option ℕ) (allow : Bool)
    → Respects (select_provider domain component expected allow)
unfolding select_provider
select_provider-Respects domain component expected allow =
    search
      (
        respects_rules, candidates_for-Respects, require_provider-Respects, check_revision-Respects,
        list_providers-Respects, preflight-Respects, commit_selection-Respects, announce-Respects,
      )
      depth 14
