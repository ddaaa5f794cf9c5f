-- ===== src/Manager/Journal/History.antt =====
-- The journal against the history of all events: what `watch` answers from the newest 256.
use msys_hal.Prelude.{
  ℕ, zero, suc, ◌+◌, ◌-◌, ◌≤◌, ◌<◌, ◌≡◌, refl, ap, sym, ◌∙◌, true, false, String, List, [], ◌∷◌,
  ◌++◌, arith, length, length-append, length-drop, take, drop, filter, le→ltb, lt→ltb, ltb→lt,
  ltb→le, ◌↔◌,
}
use mathlib.Core.Path.{subst}
use native.Mathlib.Nat.{add-zero}
use msys_hal.Manager.State.{Event, Shared}
use msys_hal.Manager.Journal.{trim, append_event, wants, oldest_revision, must_resync, watch_answer}

-- The revisions follow one another from `n + 1` on.
abbrev pub Numbered : ℕ → List Event → Type 0
Numbered n [] = Unit
Numbered n (e ∷ es) = (e.revision ≡ n + 1) × Numbered (n + 1) es

-- The fields stand at the end of a history: every event ever appended, oldest first.
pub record IsTail (history : List Event) (s : Shared) : Type 0 where
  pub numbered : Numbered 0 history
  pub counted : s.revision ≡ length history
  pub tail : s.journal ≡ trim history

module _ {ℓ} {A : Type ℓ} where
  drop-append : (n : ℕ) (xs ys : List A) → n ≤ length xs → drop n (xs ++ ys) ≡ drop n xs ++ ys
  drop-append zero xs ys h = refl
  drop-append (suc n) [] ys h = elim h [ ]
  drop-append (suc n) (x ∷ xs) ys h = drop-append n xs ys (omega arith)

  drop-nil : (n : ℕ) → drop {A = A} n [] ≡ []
  drop-nil zero = refl
  drop-nil (suc n) = refl

  drop-drop : (m n : ℕ) (xs : List A) → drop m (drop n xs) ≡ drop (n + m) xs
  drop-drop m zero xs = ap (λ k. drop k xs) (omega arith)
  drop-drop m (suc n) [] = drop-nil m ∙ sym (drop-nil (suc n + m))
  drop-drop m (suc n) (x ∷ xs) =
      drop-drop m n xs
      ∙ ap (λ k. drop k (x ∷ xs)) (let e : suc (n + m) ≡ suc n + m = omega arith in e)

-- Trimming before more events are appended changes nothing.
pub trim-append : (xs ys : List Event) → trim (trim xs ++ ys) ≡ trim (xs ++ ys)
trim-append xs ys =
    let k = length xs - 256 in
    rw (← drop-append k xs ys (omega arith)) (
      drop-drop (length (drop k (xs ++ ys)) - 256) k (xs ++ ys)
      ∙ ap (λ n. drop n (xs ++ ys)) (omega (arith, length-drop k (xs ++ ys), length-append xs ys)))

pub Numbered-append :
    (n : ℕ) (xs ys : List Event)
    → Numbered n xs
    → Numbered (n + length xs) ys
    → Numbered n (xs ++ ys)
Numbered-append n [] ys h k = rw (← add-zero n) k
Numbered-append n (x ∷ xs) ys h k = (
  h.0,
  Numbered-append (n + 1) xs ys h.1 (
      subst (λ m. Numbered m ys)
        (let e : n + suc (length xs) ≡ n + 1 + length xs = omega arith in e) k),
)

Numbered-drop :
    (n k : ℕ) (xs : List Event) → Numbered n xs → k ≤ length xs → Numbered (n + k) (drop k xs)
Numbered-drop n zero xs h le = rw (add-zero n) h
Numbered-drop n (suc k) [] h le = elim le [ ]
Numbered-drop n (suc k) (x ∷ xs) h le =
    subst (λ m. Numbered m (drop k xs)) (let e : n + 1 + k ≡ n + suc k = omega arith in e)
      (Numbered-drop (n + 1) k xs h.1 (omega arith))

-- No event is wanted that is not newer than `after`.
filter-drop :
    (n k after : ℕ) (domains : List String) (xs : List Event)
    → Numbered n xs
    → n + k ≤ after
    → k ≤ length xs
    → filter (wants after domains) (drop k xs) ≡ filter (wants after domains) xs
filter-drop n zero after domains xs h old le = refl
filter-drop n (suc k) after domains [] h old le = elim le [ ]
filter-drop n (suc k) after domains (x ∷ xs) h old le =
    rw (le→ltb x.revision after (omega (arith, h.0)))
      (filter-drop (n + 1) k after domains xs h.1 (omega arith) (omega arith))

module _ {history : List Event} {s : Shared} (t : IsTail history s) where
  oldest_revision-IsTail : oldest_revision s ≡ length history - 256 + 1
  oldest_revision-IsTail = rw t.tail (
      head (drop (length history - 256) history)
        (Numbered-drop 0 (length history - 256) history t.numbered (omega arith))
        (length-drop (length history - 256) history))
    where
      head :
          (l : List Event)
          → Numbered (0 + (length history - 256)) l
          → length l ≡ length history - (length history - 256)
          → elim l as (λ _. ℕ) [ [] ↦ s.revision + 1 | e ∷ es ↦ e.revision ]
            ≡ length history - 256 + 1
      head [] h len = omega (arith, t.counted)
      head (e ∷ es) h len = omega (arith, h.0)

  -- With a history of events behind the journal, a watcher is asked to synchronise anew exactly when
  -- an event newer than `after` has left the journal, which holds the newest 256.
  pub watch_answer-resync :
      (after : ℕ) (domains : List String)
      → ((watch_answer after domains s).resync ≡ true) ↔ (after + 256 < length history)
  unfolding watch_answer must_resync
  watch_answer-resync after domains = (
    (λ e. omega (arith, ltb→lt _ _ e, oldest_revision-IsTail)),
    (λ h. lt→ltb _ _ (omega (arith, oldest_revision-IsTail))),
  )

  -- A watcher misses no event: with a history of events behind the journal, an answer that does not
  -- ask to synchronise anew has the first 128 of all the events ever that are newer than `after` and
  -- of a wanted domain, though the journal holds the newest 256 alone.
  pub watch_answer_complete :
      (after : ℕ) (domains : List String)
      → (watch_answer after domains s).resync ≡ false
      → (watch_answer after domains s).events ≡ take 128 (filter (wants after domains) history)
  unfolding watch_answer must_resync
  watch_answer_complete after domains e = rw t.tail (
      ap (take 128) (
        filter-drop 0 (length history - 256) after domains history t.numbered
          (omega (arith, ltb→le _ _ e, oldest_revision-IsTail)) (omega arith)))

-- With a history of events behind the journal, appending an event with the next revision appends it
-- to the history: the history and the event then stand behind the new journal.
pub append_event-IsTail :
    (history : List Event) (s : Shared) (e : Event)
    → IsTail history s
    → e.revision ≡ s.revision + 1
    → IsTail (history ++ e ∷ []) (append_event e s)
unfolding append_event
append_event-IsTail history s e t next = record {
  numbered = Numbered-append 0 history (e ∷ []) t.numbered (omega (arith, t.counted), tt);
  counted = omega (arith, t.counted, length-append history (e ∷ []));
  tail = rw t.tail (trim-append history (e ∷ []));
}
