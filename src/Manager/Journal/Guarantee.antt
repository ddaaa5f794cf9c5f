-- ===== src/Manager/Journal/Guarantee.antt =====
-- Recording an event and watching keep to `Grows`.
use msys_hal.Prelude.{
  ℕ, zero, suc, ◌+◌, ◌≡◌, refl, ap, ◌∙◌, String, false, Option, List, [], ◌∷◌, ◌++◌, arith, ◌==◌,
  string_eq,
}
use msys_hal.Manager.State.{Event, Shared}
use msys_hal.Manager.Exec.{Exec}
use msys_hal.Prelude.Dict.{get}
use msys_hal.Manager.Journal.{
  trim, next_event, append_event, emit_event, record_locked, record_event, watch_round, watch_loop,
  watch_wait, watch,
}
use msys_hal.Manager.Evolution.{Grows, Grows-refl, replay_event, trim_short, length-trim-le}
use msys_hal.Manager.Evolution.Rules.{Respects, respects_rules}

-- Appending the next event to fields whose selections the event already accounts for.
pub append_event-Grows :
    (s t : Shared) (e : Event)
    → e.revision ≡ s.revision + 1
    → t.revision ≡ s.revision
    → t.journal ≡ s.journal
    → ((d : String) → get d t.selections ≡ get d (replay_event e s.selections))
    → Grows s (append_event e t)
unfolding append_event
append_event-Grows s t e next r j chosen = record {
  news = e ∷ [];
  numbered = (next, tt);
  counted = omega arith;
  journal = trim_short _ (length-trim-le (t.journal ++ e ∷ [])) ∙ ap (λ k. trim (k ++ e ∷ [])) j;
  short = λ h. length-trim-le (t.journal ++ e ∷ []);
  selections = chosen;
}

pub emit_event-Respects : (e : Event) → Respects (emit_event e)
unfolding emit_event
emit_event-Respects e = record { at = λ env s r. Grows-refl s.shared }

module _ (kind domain : String) (id provider selection : Option String)
    (unselected : (kind == "provider-selected") ≡ false)
    (unreset : (kind == "provider-reset") ≡ false) where
  record_locked-Respects : Respects (record_locked kind domain id provider selection)
  unfolding record_locked emit_event
  record_locked-Respects = record {
    at = λ env s r.
        append_event-Grows s.shared s.shared (next_event kind domain id provider selection s.shared)
          refl refl refl (λ d. rw (unselected, unreset));
  }

  -- An event of a kind that says nothing about the selections.
  pub record_event-Respects : Respects (record_event kind domain id provider selection)
  unfolding record_event
  record_event-Respects = search (respects_rules, record_locked-Respects)

watch_round-Respects :
    (after : ℕ) (domains : List String) (deadline : ℕ) (next : Exec (Unit {0}))
    → Respects next
    → Respects (watch_round after domains deadline next)
unfolding watch_round
watch_round-Respects after domains deadline next h = search respects_rules depth 8

watch_loop-Respects :
    (rounds after : ℕ) (domains : List String) (deadline : ℕ)
    → Respects (watch_loop rounds after domains deadline)
unfolding watch_loop
watch_loop-Respects zero after domains deadline = search respects_rules
watch_loop-Respects (suc rounds) after domains deadline =
    watch_round-Respects after domains deadline _
      (watch_loop-Respects rounds after domains deadline)

watch_wait-Respects :
    (rounds after : ℕ) (domains : List String) (timeout_ms started : ℕ)
    → Respects (watch_wait rounds after domains timeout_ms started)
unfolding watch_wait
watch_wait-Respects rounds after domains zero started = search respects_rules
watch_wait-Respects rounds after domains (suc t) started = watch_loop-Respects _ _ _ _

pub watch-Respects :
    (rounds after timeout_ms : ℕ) (domains : List String)
    → Respects (watch rounds after timeout_ms domains)
unfolding watch
watch-Respects rounds after timeout_ms domains =
    search (respects_rules, watch_wait-Respects) depth 8
