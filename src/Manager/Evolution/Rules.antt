-- ===== src/Manager/Evolution/Rules.antt =====
-- The rules by which a method is shown to keep to `Grows`, one for each way to build an action.
use msys_hal.Prelude.{Bool, true, false, List, if◌then◌else◌}
use msys_hal.Errors.{Exception, Result, ok, err}
use msys_hal.Manager.State.{Shared, Env, State, Act, Call}
use msys_hal.Manager.Exec.{
  Exec, pure, raise, lift, attempt, ask, gets, modify, continue, ◌>>=◌, acquire, wait, monotonic,
  unix_ms, gateway_call,
}
use msys_hal.Manager.Evolution.{Grows, Grows-refl, Grows-trans}

-- The assumption on the other threads.
pub record IsRely (env : Env) : Type 0 where
  pub others_grow : (trace : List Act) (s : Shared) → Grows s (env.others trace s)

-- The guarantee of a method.
pub record Respects {ℓ} {A : Type ℓ} (m : Exec A) : Type ℓ where
  pub at : (env : Env) (s : State) → IsRely env → Grows s.shared (m env s).1.shared

module _ {ℓ} {A : Type ℓ} where
  pub Respects-pure : (a : A) → Respects (pure a)
  Respects-pure a = record { at = λ env s r. Grows-refl s.shared }

  pub Respects-raise : (e : Exception) → Respects (raise {A = A} e)
  Respects-raise e = record { at = λ env s r. Grows-refl s.shared }

  pub Respects-lift : (x : Result A) → Respects (lift x)
  Respects-lift x = record { at = λ env s r. Grows-refl s.shared }

  pub Respects-gets : (f : Shared → A) → Respects (gets f)
  Respects-gets f = record { at = λ env s r. Grows-refl s.shared }

  pub Respects-ask : (f : Env → A) → Respects (ask f)
  Respects-ask f = record { at = λ env s r. Grows-refl s.shared }

  pub Respects-attempt : (m : Exec A) → Respects m → Respects (attempt m)
  Respects-attempt m h = record { at = h.at }

pub Respects-modify : (f : Shared → Shared) → ((s : Shared) → Grows s (f s)) → Respects (modify f)
Respects-modify f h = record { at = λ env s r. h s.shared }

pub Respects-acquire : Respects acquire
unfolding acquire
Respects-acquire = record { at = λ env s r. r.others_grow s.trace s.shared }

pub Respects-wait : Respects wait
unfolding wait
Respects-wait = record { at = λ env s r. r.others_grow s.trace s.shared }

pub Respects-monotonic : Respects monotonic
unfolding monotonic
Respects-monotonic = record { at = λ env s r. Grows-refl s.shared }

pub Respects-unix_ms : Respects unix_ms
unfolding unix_ms
Respects-unix_ms = record { at = λ env s r. Grows-refl s.shared }

pub Respects-gateway_call : (c : Call) → Respects (gateway_call c)
unfolding gateway_call
Respects-gateway_call c = record { at = λ env s r. Grows-refl s.shared }

module _ {ℓ κ} {A : Type ℓ} {B : Type κ} where
  Respects-continue :
      (x : Result A) (f : A → Exec B) → ((a : A) → Respects (f a)) → Respects (continue x f)
  Respects-continue (ok a) f h = record { at = (h a).at }
  Respects-continue (err e) f h = record { at = λ env s r. Grows-refl s.shared }

  pub Respects-bind :
      (m : Exec A) (f : A → Exec B) → Respects m → ((a : A) → Respects (f a)) → Respects (m >>= f)
  Respects-bind m f hm hf = record {
    at = λ env s r.
        let (x, s') = m env s in
        Grows-trans (hm.at env s r) ((Respects-continue x f hf).at env s' r);
  }

pub Respects-if {ℓ} :
    {A : Type ℓ} (b : Bool) (m n : Exec A) → Respects m → Respects n → Respects (if b then m else n)
Respects-if true m n h k = h
Respects-if false m n h k = k

pub ruleset respects_rules = (
  Respects-pure, Respects-raise, Respects-lift, Respects-gets, Respects-ask, Respects-attempt,
  Respects-acquire, Respects-wait, Respects-monotonic, Respects-unix_ms, Respects-gateway_call,
  Respects-bind, Respects-if,
)
