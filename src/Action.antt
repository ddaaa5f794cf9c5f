-- ===== src/Action.antt =====
-- Methods of the provider process that read and change a state and may raise: the state comes back
-- beside an exception too.
use msys_hal.Prelude.{Bool, true, false, ◌≡◌, refl, ap}
use mathlib.Core.Path.{subst}
use msys_hal.Errors.{Exception, Result, ok, err, require}

abbrev pub Action {ℓ} : Type 0 → Type ℓ → Type ℓ
Action S A = S → Result A × S

module _ {ℓ} {S : Type 0} {A : Type ℓ} where
  abbrev pub pure : A → Action S A
  pure a s = (ok a, s)

  abbrev pub raise : Exception → Action S A
  raise e s = (err e, s)

  abbrev pub lift : Result A → Action S A
  lift r s = (r, s)

  -- What is read off the state.
  abbrev pub gets : (S → A) → Action S A
  gets f s = (ok (f s), s)

  abbrev pub gets_result : (S → Result A) → Action S A
  gets_result f s = (f s, s)

abbrev pub guard : {S : Type 0} → Bool → Exception → Action S (Unit {0})
guard b e s = (require b e, s)

module _ {ℓ κ} {S : Type 0} {A : Type ℓ} {B : Type κ} where
  abbrev pub continue : Result A → (A → Action S B) → Action S B
  continue (ok a) f s = f a s
  continue (err e) f s = (err e, s)

  infixl 5 ◌>>=◌ ◌>>◌
  abbrev pub ◌>>=◌ : Action S A → (A → Action S B) → Action S B
  ◌>>=◌ m f s = let (r, s') = m s in continue r f s'

  abbrev pub ◌>>◌ : Action S A → Action S B → Action S B
  m >> n = m >>= λ _. n

-- What a chain of actions ends in, from what its parts end in.
pub continue-ends {ℓ κ} :
    {S : Type 0} {A : Type ℓ} {B : Type κ} (P : S → Type 0) (r : Result A) (f : A → Action S B)
    (s : S)
    → P s
    → ((a : A) → r ≡ ok a → P (f a s).1)
    → P (continue r f s).1
continue-ends P (ok a) f s h more = more a refl
continue-ends P (err e) f s h more = h

-- What a chain of actions raises, from what its parts raise.
pub continue-raises {ℓ κ} :
    {S : Type 0} {A : Type ℓ} {B : Type κ} (Q : Exception → Type 0) (r : Result A)
    (f : A → Action S B) (s : S)
    → ((e : Exception) → r ≡ err e → Q e)
    → ((a : A) → r ≡ ok a → (e : Exception) → (f a s).0 ≡ err e → Q e)
    → (e : Exception) → (continue r f s).0 ≡ err e
    → Q e
continue-raises Q (ok a) f s failed more e h = more a refl e h
continue-raises Q (err x) f s failed more e h = let same : x ≡ e = cc in failed e (ap err same)

-- An action that leaves a state as `P` has it where it finds it so.
pub record Keeps {ℓ} {S : Type 0} {A : Type ℓ} (P : S → Type 0) (m : Action S A) : Type ℓ where
  pub keeps : (s : S) → P s → P (m s).1

pub Keeps-bind {ℓ κ} :
    {S : Type 0} {A : Type ℓ} {B : Type κ} {P : S → Type 0} (m : Action S A) (f : A → Action S B)
    → Keeps P m
    → ((a : A) → Keeps P (f a))
    → Keeps P (m >>= f)
Keeps-bind {P} m f h more = record {
  keeps = λ s p.
      continue-ends P (m s).0 f (m s).1 (h.keeps s p) λ a q. (more a).keeps (m s).1 (h.keeps s p);
}

-- An action that reads.
pub Keeps-quiet {ℓ} :
    {S : Type 0} {A : Type ℓ} {P : S → Type 0} (g : S → Result A) → Keeps P (λ s. (g s, s))
Keeps-quiet g = record { keeps = λ s p. p }

-- An action that raises nothing but what `Q` has.
pub record Raises {ℓ} {S : Type 0} {A : Type ℓ} (Q : Exception → Type 0) (m : Action S A)
    : Type ℓ where
  pub raises : (s : S) (e : Exception) → (m s).0 ≡ err e → Q e

pub Raises-bind {ℓ κ} :
    {S : Type 0} {A : Type ℓ} {B : Type κ} {Q : Exception → Type 0} (m : Action S A)
    (f : A → Action S B)
    → Raises Q m
    → ((a : A) → Raises Q (f a))
    → Raises Q (m >>= f)
Raises-bind {Q} m f h more = record {
  raises = λ s e q.
      continue-raises Q (m s).0 f (m s).1 (h.raises s) (λ a q2 x q3. (more a).raises (m s).1 x q3) e
        q;
}

pub Raises-quiet {ℓ} :
    {S : Type 0} {A : Type ℓ} {Q : Exception → Type 0} (g : S → Result A)
    → ((s : S) (e : Exception) → g s ≡ err e → Q e)
    → Raises Q (λ s. (g s, s))
Raises-quiet g h = record { raises = h }

-- A test that raises what `Q` has, and a test that is passed.
pub Raises-guard :
    {S : Type 0} {Q : Exception → Type 0} (b : Bool) (e : Exception)
    → (b ≡ false → Q e)
    → Raises {S = S} Q (guard b e)
Raises-guard true e h = record { raises = λ s x q. absurd cc }
Raises-guard {Q} false e h = record {
  raises = λ s x q. let same : e ≡ x = cc in subst Q same (h refl);
}
