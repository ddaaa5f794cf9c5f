-- ===== src/Manager/Journal/Waiting.antt =====
-- The loop of `watch` ends, and for a reason.
use msys_hal.Prelude.{
  ℕ, zero, suc, ◌+◌, ◌*◌, ◌≤◌, ◌<◌, ◌≡◌, refl, ◌⊎◌, inl, inr, true, String, List, ◌∷◌, arith, leb,
  leb→le, Bool-cases,
}
use msys_hal.Errors.{Result, ok, err}
use msys_hal.Manager.State.{Env, State, Act, waited, clock_read, acquired}
use msys_hal.Manager.Exec.{Exec, monotonic, acquire, wait, gets, continue}
use msys_hal.Manager.Journal.{
  WatchAnswer, watch_answer, may_return, watch_round, watch_loop, watch_wait, watch,
}

-- The clock does not go back while the lock is waited for, and a wait takes at least a nanosecond.
pub record IsClock (env : Env) : Type 0 where
  pub forward : (t : List Act) → env.monotonic t ≤ env.monotonic (acquired ∷ clock_read ∷ t)
  pub waits : (t : List Act) → env.monotonic t < env.monotonic (waited ∷ clock_read ∷ t)

-- The reasons for which `watch` returns from the loop: one that it was waiting for, or the deadline.
abbrev pub HasReason : Env → ℕ → List String → ℕ → State → Type 0
HasReason env after_revision domains deadline t =
    (may_return after_revision domains t.shared ≡ true)
    ⊎ ((now : List Act) × (t.trace ≡ clock_read ∷ now) × (deadline ≤ env.monotonic now))

module _ (env : Env) (clock : IsClock env) (after_revision : ℕ) (domains : List String)
    (deadline : ℕ) where
  abbrev Ends : Result (Unit {0}) × State → Type 0
  Ends (r, t) = (r ≡ ok tt) × HasReason env after_revision domains deadline t

  -- A round ends the loop, or the deadline is ahead and the loop goes on behind a wait.
  watch_round-Ends :
      (next : Exec (Unit {0})) (s : State)
      → (env.monotonic s.trace < deadline → Ends (next env (wait env (monotonic env s).1).1))
      → Ends (watch_round after_revision domains deadline next env s)
  unfolding watch_round monotonic wait
  watch_round-Ends next s on = elim (Bool-cases (may_return after_revision domains s.shared)) [
    | inl stop ↦ rw stop (refl, inl stop)
    | inr go ↦ elim (Bool-cases (leb deadline (env.monotonic s.trace))) [
      | inl late ↦ rw (go, late) (refl, inr (s.trace, refl, leb→le _ _ late))
      | inr early ↦ rw (go, early) (on (ground arith))
    ]
  ]

  watch_loop-Ends :
      (rounds : ℕ) (s : State)
      → deadline ≤ env.monotonic s.trace + rounds
      → Ends (watch_loop (suc rounds) after_revision domains deadline env s)
  unfolding watch_loop monotonic wait
  watch_loop-Ends zero s h =
      watch_round-Ends (watch_loop zero after_revision domains deadline) s
        (λ early. absurd (omega arith))
  watch_loop-Ends (suc rounds) s h =
      watch_round-Ends (watch_loop (suc rounds) after_revision domains deadline) s
        (λ early. watch_loop-Ends rounds _ (omega (arith, clock.waits s.trace)))

  abbrev Answers : Result WatchAnswer × State → Type 0
  Answers (r, t) =
      (r ≡ ok (watch_answer after_revision domains t.shared))
      × HasReason env after_revision domains deadline t

  -- The answer behind the loop.
  answer-Ends :
      (r : Result (Unit {0})) (t : State)
      → Ends (r, t)
      → Answers (continue r (λ u. gets (watch_answer after_revision domains)) env t)
  answer-Ends (ok u) t (ended, why) = (refl, why)
  answer-Ends (err e) t (ended, why) = cc

-- `watch` with a timeout ends, if the clock does not go back while the lock is waited for and every
-- wait takes at least a nanosecond: with one round more than the timeout has nanoseconds, it returns
-- the answer for the fields as they are at the end, and then either the manager has been stopped, or
-- the watcher has to synchronise anew, or the journal has an event that it wants, or the last thing
-- that it did was to read a clock at or behind the deadline.
pub watch_ends :
    (env : Env) (rounds after_revision timeout_ms : ℕ) (domains : List String) (s : State)
    → IsClock env
    → 0 < timeout_ms
    → timeout_ms * 1000000 ≤ rounds
    → let (r, t) = watch (suc rounds) after_revision timeout_ms domains env s in
      (r ≡ ok (watch_answer after_revision domains t.shared))
      × HasReason env after_revision domains (env.monotonic s.trace + timeout_ms * 1000000) t
unfolding watch watch_wait monotonic acquire
watch_ends env rounds after_revision zero domains s clock some_time enough = absurd (omega arith)
watch_ends env rounds after_revision (suc timeout) domains s clock some_time enough =
    let started = env.monotonic s.trace in
    answer-Ends env clock after_revision domains (started + suc timeout * 1000000) _ _ (
      watch_loop-Ends env clock after_revision domains (started + suc timeout * 1000000) rounds
        (acquire env (monotonic env s).1).1 (omega (arith, clock.forward s.trace)))
