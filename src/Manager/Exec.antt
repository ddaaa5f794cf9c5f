-- ===== src/Manager/Exec.antt =====
-- Methods that change the fields and may raise: the state comes back beside an exception too.
use msys_hal.Prelude.{ℕ, ◌∷◌, ◌≡◌, refl, ap}
use msys_hal.Errors.{Exception, Result, ok, err}
use msys_hal.Manager.State.{Env, State, Shared, Call, Reply, called, acquired, clock_read, waited}

abbrev pub Exec {ℓ} : Type ℓ → Type ℓ
Exec A = Env → State → Result A × State

module _ {ℓ} {A : Type ℓ} where
  abbrev pub pure : A → Exec A
  pure a env s = (ok a, s)

  abbrev pub raise : Exception → Exec A
  raise e env s = (err e, s)

  abbrev pub lift : Result A → Exec A
  lift r env s = (r, s)

  -- `try: ... except Exception`: the outcome as a value.
  abbrev pub attempt : Exec A → Exec (Result A)
  attempt m env s = let (r, s') = m env s in (ok r, s')

module _ {ℓ κ} {A : Type ℓ} {B : Type κ} where
  abbrev pub continue : Result A → (A → Exec B) → Exec B
  continue (ok a) f env s = f a env s
  continue (err e) f env s = (err e, s)

  infixl 5 ◌>>=◌ ◌>>◌
  abbrev pub ◌>>=◌ : Exec A → (A → Exec B) → Exec B
  ◌>>=◌ m f env s = let (r, s') = m env s in continue r f env s'

  abbrev pub ◌>>◌ : Exec A → Exec B → Exec B
  m >> n = m >>= λ _. n

abbrev pub ask {ℓ} : {A : Type ℓ} → (Env → A) → Exec A
ask f env s = (ok (f env), s)

-- Reading and writing the fields, with the lock held.
abbrev pub gets {ℓ} : {A : Type ℓ} → (Shared → A) → Exec A
gets f env s = (ok (f s.shared), s)

abbrev pub modify : (Shared → Shared) → Exec (Unit {0})
modify f env s = (ok tt, record s { shared = f s.shared })

-- `with self._lock:` up to where the lock is granted: the other threads have run.
unfoldable pub acquire : Exec (Unit {0})
acquire env s = (
  ok tt,
  record {
    shared = env.others s.trace s.shared;
    disk = env.others_disk s.trace s.disk;
    trace = acquired ∷ s.trace;
  },
)

-- `self._condition.wait(...)`: the lock is released and granted again.
unfoldable pub wait : Exec (Unit {0})
wait env s = (
  ok tt,
  record {
    shared = env.others s.trace s.shared;
    disk = env.others_disk s.trace s.disk;
    trace = waited ∷ s.trace;
  },
)

-- `time.monotonic()`, in nanoseconds, and `int(time.time() * 1000)`.
unfoldable pub monotonic : Exec ℕ
monotonic env s = (ok (env.monotonic s.trace), record s { trace = clock_read ∷ s.trace })

unfoldable pub unix_ms : Exec ℕ
unix_ms env s = (ok (env.unix_ms s.trace), record s { trace = clock_read ∷ s.trace })

-- `self.gateway.call(...)`
unfoldable pub gateway_call : Call → Exec Reply
gateway_call c env s = (ok (env.reply s.trace c), record s { trace = called c ∷ s.trace })

module _ {ℓ κ} {A : Type ℓ} {B : Type κ} where
  continue-eq-ok :
      (r : Result A) (u : State) (f : A → Exec B) (env : Env) {t : State} {b : B}
      → continue r f env u ≡ (ok b, t)
      → (a : A) × (r ≡ ok a) × (f a env u ≡ (ok b, t))
  continue-eq-ok (ok a) u f env h = (a, refl, h)
  continue-eq-ok (err x) u f env h = cc

  -- A chain that returned: its first part returned, and so did the rest.
  pub >>=-eq-ok :
      (m : Exec A) (f : A → Exec B) {env : Env} {s t : State} {b : B}
      → (m >>= f) env s ≡ (ok b, t)
      → (a : A) × (m env s ≡ (ok a, (m env s).1)) × (f a env (m env s).1 ≡ (ok b, t))
  >>=-eq-ok m f {env} {s} h =
      let (a, e, more) = continue-eq-ok (m env s).0 (m env s).1 f env h in
      (a, ap (λ r. (r, (m env s).1)) e, more)
