-- ===== src/Prelude/Dict.antt =====
-- A Python dict, in insertion order, and its laws. An assignment to a present key keeps its place.
use mathlib.Core.Path.{◌≡◌, refl}
use mathlib.Core.Bool.{Bool}
use mathlib.Core.Option.{Option, none, some}
use mathlib.Core.List.{List, [], ◌∷◌}
use native.Mathlib.Omega.{arith}
use msys_hal.Prelude.Tests.{Eq, ◌==◌, if◌then◌else◌}

abbrev pub Dict {ℓ} : Type ℓ → Type ℓ → Type ℓ
Dict K V = List (K × V)

module _ {ℓ} {K V : Type ℓ} ⦃e : Eq K⦄ where
  -- `d.get(k)`
  abbrev pub get : K → Dict K V → Option V
  get k [] = none
  get k ((j, v) ∷ d) = if j == k then some v else get k d

  -- `d[k] = v`
  abbrev pub put : K → V → Dict K V → Dict K V
  put k v [] = (k, v) ∷ []
  put k v ((j, w) ∷ d) = if j == k then (j, v) ∷ d else (j, w) ∷ put k v d

  -- `d.pop(k, None)`; a key stands once in a dict, and here each entry of the key goes.
  abbrev pub pop : K → Dict K V → Dict K V
  pop k [] = []
  pop k ((j, w) ∷ d) = if j == k then pop k d else (j, w) ∷ pop k d

  -- `{k: v for k, v in d.items() if p(k, v)}`
  abbrev pub keep : (K → V → Bool) → Dict K V → Dict K V
  keep p [] = []
  keep p ((j, w) ∷ d) = if p j w then (j, w) ∷ keep p d else keep p d

  -- `d.update(other)`
  abbrev pub update : Dict K V → Dict K V → Dict K V
  update [] d = d
  update ((k, v) ∷ other) d = update other (put k v d)

  pub get-put :
      (k j : K) (v : V) (d : Dict K V) → get j (put k v d) ≡ (if k == j then some v else get j d)
  get-put k j v [] = refl
  get-put k j v ((i, w) ∷ d) =
      ground (arith, e.decides k j, e.decides i k, e.decides i j, get-put k j v d)

  pub get-pop : (k j : K) (d : Dict K V) → get j (pop k d) ≡ (if k == j then none else get j d)
  get-pop k j [] = ground arith
  get-pop k j ((i, w) ∷ d) =
      ground (arith, e.decides k j, e.decides i k, e.decides i j, get-pop k j d)

  -- A test of the key alone keeps or drops the key's entry whole.
  pub get-keep :
      (q : K → Bool) (j : K) (d : Dict K V)
      → get j (keep (λ k v. q k) d) ≡ (if q j then get j d else none)
  get-keep q j [] = ground arith
  get-keep q j ((i, w) ∷ d) = ground (arith, e.decides i j, get-keep q j d)

pub ruleset dict_laws = (get-put, get-pop, get-keep)
