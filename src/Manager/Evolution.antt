-- ===== src/Manager/Evolution.antt =====
-- How the fields of `HalManager` may change between two moments at which the lock is free: events
-- are appended, and the selections change by them alone. Theorems assume it of the other threads.
pub mod Rules
use msys_hal.Prelude.{
  ℕ, ◌+◌, ◌-◌, ◌≤◌, ◌≡◌, refl, sym, ap, ◌∙◌, String, Bool, Option, none, some, List, [], ◌∷◌, ◌++◌,
  arith, length, length-append, length-drop, drop, if◌then◌else◌, ◌==◌, string_eq, Bool-cases, inl,
  inr,
}
use mathlib.Core.List.{append-nil, append_assoc}
use mathlib.Core.Path.{subst}
use native.Mathlib.Nat.{zero-add}
use msys_hal.Prelude.Dict.{Dict, get, put, pop, get-put, get-pop}
use msys_hal.Manager.State.{Event, Shared}
use msys_hal.Manager.Journal.{trim}
use msys_hal.Manager.Journal.History.{Numbered, Numbered-append, IsTail, trim-append}

-- What an event says about the selections.
abbrev pub replay_event : Event → Dict String String → Dict String String
replay_event e selections =
    if e.kind == "provider-selected"
    then elim e.provider [ none ↦ selections | some c ↦ put e.domain c selections ]
    else if e.kind == "provider-reset"
    then pop e.domain selections
    else selections

abbrev pub replay : List Event → Dict String String → Dict String String
replay [] selections = selections
replay (e ∷ es) selections = replay es (replay_event e selections)

-- From `s` to `t`: the events `news` are appended to the journal, numbered on from the revision, and
-- the selections of `t` are those of `s` after these events.
pub record Grows (s t : Shared) : Type 0 where
  pub news : List Event
  pub numbered : Numbered s.revision news
  pub counted : t.revision ≡ s.revision + length news
  pub journal : trim t.journal ≡ trim (s.journal ++ news)
  pub short : length s.journal ≤ 256 → length t.journal ≤ 256
  pub selections : (d : String) → get d t.selections ≡ get d (replay news s.selections)

-- Equal answers stay equal under the same events.
replay-get :
    (news : List Event) (p q : Dict String String)
    → ((d : String) → get d p ≡ get d q)
    → (d : String) → get d (replay news p) ≡ get d (replay news q)
replay-get [] p q h d = h d
replay-get (e ∷ es) p q h d = replay-get es (replay_event e p) (replay_event e q) one d
  where
    one : (d : String) → get d (replay_event e p) ≡ get d (replay_event e q)
    one d = elim (Bool-cases (e.kind == "provider-selected")) [
      | inl yes' ↦ rw yes' (chosen e.provider)
      | inr no' ↦ rw no' (elim (Bool-cases (e.kind == "provider-reset")) [
        | inl reset ↦ rw reset (rw (get-pop e.domain d p, get-pop e.domain d q, h d))
        | inr other ↦ rw other (h d)
      ])
    ]
      where
        chosen :
            (o : Option String)
            → get d (elim o [ none ↦ p | some c ↦ put e.domain c p ])
              ≡ get d (elim o [ none ↦ q | some c ↦ put e.domain c q ])
        chosen none = h d
        chosen (some c) = rw (get-put e.domain d c p, get-put e.domain d c q, h d)

replay-append :
    (xs ys : List Event) (p : Dict String String) → replay (xs ++ ys) p ≡ replay ys (replay xs p)
replay-append [] ys p = refl
replay-append (x ∷ xs) ys p = replay-append xs ys (replay_event x p)

-- Fields that agree on the revision, the journal and the selections.
pub Grows-same :
    (s t : Shared)
    → t.revision ≡ s.revision
    → t.journal ≡ s.journal
    → t.selections ≡ s.selections
    → Grows s t
Grows-same s t r j p = record {
  news = [];
  numbered = tt;
  counted = omega arith;
  journal = rw (j, append-nil s.journal);
  short = λ h. rw j h;
  selections = λ d. rw p;
}

pub Grows-refl : (s : Shared) → Grows s s
Grows-refl s = Grows-same s s refl refl refl

pub Grows-trans : {s t u : Shared} → Grows s t → Grows t u → Grows s u
Grows-trans {s} {t} {u} g h = record {
  news = g.news ++ h.news;
  numbered =
      Numbered-append s.revision g.news h.news g.numbered
        (subst (λ n. Numbered n h.news) g.counted h.numbered);
  counted = omega (arith, g.counted, h.counted, length-append g.news h.news);
  journal =
      h.journal
      ∙ sym (trim-append t.journal h.news)
      ∙ ap (λ j. trim (j ++ h.news)) g.journal
      ∙ trim-append (s.journal ++ g.news) h.news
      ∙ ap trim (append_assoc s.journal g.news h.news);
  short = λ b. h.short (g.short b);
  selections = λ d.
      h.selections d
      ∙ replay-get h.news t.selections (replay g.news s.selections) g.selections d
      ∙ ap (get d) (sym (replay-append g.news h.news s.selections));
}

pub trim_short : (xs : List Event) → length xs ≤ 256 → trim xs ≡ xs
trim_short xs h = ap (λ n. drop n xs) (let e : length xs - 256 ≡ 0 = omega arith in e)

pub length-trim-le : (xs : List Event) → length (trim xs) ≤ 256
length-trim-le xs = omega (arith, length-drop (length xs - 256) xs)

-- A history goes on by the news.
pub IsTail-Grows :
    (history : List Event) (s t : Shared) (g : Grows s t)
    → IsTail history s
    → IsTail (history ++ g.news) t
IsTail-Grows history s t g h = record {
  numbered =
      Numbered-append 0 history g.news h.numbered
        (subst (λ n. Numbered n g.news) (h.counted ∙ sym (zero-add (length history))) g.numbered);
  counted = omega (arith, g.counted, h.counted, length-append history g.news);
  tail =
      sym (trim_short t.journal (g.short short))
      ∙ g.journal
      ∙ ap (λ j. trim (j ++ g.news)) h.tail
      ∙ trim-append history g.news;
}
  where
    short : length s.journal ≤ 256
    short = rw h.tail (omega (arith, length-drop (length history - 256) history))

-- No new revision, no new selection.
pub Grows-unchanged :
    (s t : Shared)
    → Grows s t
    → t.revision ≡ s.revision
    → (d : String) → get d t.selections ≡ get d s.selections
Grows-unchanged s t g same d = g.selections d ∙ none_new g.news (omega (arith, g.counted))
  where
    none_new :
        (news : List Event)
        → length news ≡ 0
        → get d (replay news s.selections) ≡ get d s.selections
    none_new [] e = refl
    none_new (x ∷ xs) e = absurd (omega arith)
