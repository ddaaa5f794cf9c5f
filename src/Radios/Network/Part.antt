-- ===== src/Radios/Network/Part.antt =====
-- Commands that are sent one after the other until one of them fails.
use msys_hal.Prelude.{ℕ, suc, String, List, [], ◌∷◌, take, length, ◌≡◌, refl, ap, ◌⊎◌, inl, inr}
use msys_hal.Errors.{Exception, Result, err}
use msys_hal.Action.{Action, ◌>>=◌}
use msys_hal.Radios.Network.Trace.{Logged, Trace, bind, weaken}

abbrev pub IsError {ℓ} : {A : Type ℓ} → Result A → Type ℓ
IsError r = (e : Exception) × (r ≡ err e)

-- The commands are the first ones of the steps: all, or an exception was raised.
pub record IsPart {ℓ} {A : Type ℓ} (steps cs : List String) (r : Result A) : Type ℓ where
  pub count : ℕ
  pub is_part : cs ≡ take count steps
  pub ending : (count ≡ length steps) ⊎ IsError r

abbrev pub Asks {ℓ} : {A : Type ℓ} → String → List String → Result A → Type 0
Asks c cs r = cs ≡ c ∷ []

module _ {A : Type 0} where
  pub IsPart-cons :
      (c : String) {steps cs : List String} {r : Result A}
      → IsPart steps cs r
      → IsPart (c ∷ steps) (c ∷ cs) r
  IsPart-cons c p = record {
    count = suc p.count;
    is_part = ap (◌∷◌ c) p.is_part;
    ending = elim p.ending [ inl every ↦ inl (ap suc every) | inr raised ↦ inr raised ];
  }

  pub IsPart-one :
      (c : String) (cs : List String) (r : Result A) → Asks c cs r → IsPart (c ∷ []) cs r
  IsPart-one c cs r h = record { count = 1; is_part = h; ending = inl refl }

module _ {S : Type 0} {interface : String} {A B : Type 0} {s : S}
    {log : List (String × String)} where
  -- A command in front.
  pub step :
      (m : Action (Logged S) A) (f : A → Action (Logged S) B) {c : String} {rest : List String}
      → Trace interface m (Asks c) s log
      → ((a : A) (s' : S) (log' : List (String × String))
          → Trace interface (f a) (IsPart rest) s' log')
      → Trace interface (m >>= f) (IsPart (c ∷ rest)) s log
  step m f {c} {rest} t more =
      bind m f t (λ cs e h. record { count = 1; is_part = h; ending = inr (e, refl) })
        λ cs a s' log' h. weaken (more a s' log') λ ds r p. record {
          count = suc p.count;
          is_part = rw h (ap (◌∷◌ c) p.is_part);
          ending = elim p.ending [ inl all ↦ inl (ap suc all) | inr raised ↦ inr raised ];
        }
