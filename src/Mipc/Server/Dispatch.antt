-- ===== src/Mipc/Server/Dispatch.antt =====
-- How many answers a call gets.
use msys_hal.Prelude.{ℕ, ◌≡◌, refl, ap, sym, ◌⊎◌, inl, inr, List, ◌∷◌, Option-cases}
use mathlib.Core.Path.{subst}
use msys_hal.Json.{Value, Fields}
use msys_hal.Errors.{Exception, hal, python, Result, ok, err, Result-cases}
use msys_hal.Mipc.Packet.{Codec, encode_packet}
use msys_hal.Mipc.Server.{
  Wire, send, Job, Handler, work, return_message, error_message, internal_message, answer_job,
  rescue, dispatch,
}

-- The message that refuses a call for what was raised.
abbrev pub failure_of : ℕ → Exception → Value
failure_of id (hal e) = error_message id e
failure_of id (python name text) = internal_message id

-- What the `try` of `_dispatch` has raised: the work, or the sending of its result.
pub data IsRaised (codec : Codec) (wire : Wire) (id : ℕ) (before : List Value)
    (outcome : Result Fields) (e : Exception) : Type 0 where
  by_work : outcome ≡ err e → IsRaised codec wire id before outcome e
  by_sending :
      (result : Fields)
      → outcome ≡ ok result
      → (send codec wire (return_message id result) before).0 ≡ err e
      → IsRaised codec wire id before outcome e

-- The messages behind a job, by the outcome of its work: the result more; or the refusal for what was
-- raised more; or no message more, because the sending of that refusal raised too.
pub data Answered (codec : Codec) (wire : Wire) (id : ℕ) (before : List Value)
    (outcome : Result Fields) : List Value → Type 0 where
  returned :
      (result : Fields)
      → outcome ≡ ok result
      → Answered codec wire id before outcome (return_message id result ∷ before)
  refused :
      (e : Exception)
      → IsRaised codec wire id before outcome e
      → Answered codec wire id before outcome (failure_of id e ∷ before)
  silent :
      (e again : Exception)
      → IsRaised codec wire id before outcome e
      → (send codec wire (failure_of id e) before).0 ≡ err again
      → Answered codec wire id before outcome before

-- `send` sends the message, or raises and sends nothing.
pub send-cases :
    (codec : Codec) (wire : Wire) (m : Value) (sent : List Value)
    → (send codec wire m sent ≡ (ok tt, m ∷ sent))
      ⊎ ((e : Exception) × (send codec wire m sent ≡ (err e, sent)))
unfolding send
send-cases codec wire m sent = elim (Result-cases (encode_packet codec m)) [
  | inr (e, bad) ↦ inr (e, rw (bad, send) refl)
  | inl (p, fine) ↦ elim (Option-cases (wire sent)) [
    | inl whole ↦ inl (rw (fine, whole, send) refl)
    | inr (name, cut) ↦ inr (python name "", rw (fine, cut, send) refl)
  ]
]

module _ (codec : Codec) (wire : Wire) (job : Job) (sent : List Value) where
  rescue-send :
      (e : Exception)
      → rescue codec wire job (err e, sent) ≡ (send codec wire (failure_of job.id e) sent).1
  unfolding rescue
  rescue-send (hal e) = refl
  rescue-send (python name text) = refl

  rescue-Answered :
      (outcome : Result Fields) (e : Exception)
      → IsRaised codec wire job.id sent outcome e
      → Answered codec wire job.id sent outcome (rescue codec wire job (err e, sent))
  rescue-Answered outcome e raised =
      rw (rescue-send e) (elim (send-cases codec wire (failure_of job.id e) sent) [
        | inl done ↦ rw done (refused e raised)
        | inr (again, bad) ↦
            subst (λ r. Answered codec wire job.id sent outcome r.1) (sym bad)
              (silent e again raised (ap (λ r. r.0) bad))
      ])

  answer_job-Answered :
      (outcome : Result Fields)
      → Answered codec wire job.id sent outcome
          (rescue codec wire job (answer_job codec wire job outcome sent))
  unfolding answer_job rescue
  answer_job-Answered (err e) = rescue-Answered (err e) e (by_work refl)
  answer_job-Answered (ok result) =
      elim (send-cases codec wire (return_message job.id result) sent) [
        | inl done ↦
            subst (λ r. Answered codec wire job.id sent (ok result) (rescue codec wire job r))
              (sym done) (returned result refl)
        | inr (e, bad) ↦
            subst (λ r. Answered codec wire job.id sent (ok result) (rescue codec wire job r))
              (sym bad) (rescue-Answered (ok result) e (by_sending result refl (ap (λ r. r.0) bad)))
      ]

-- A job that is done has sent one message more, or none. If the work gave a result, and it could be
-- sent, the message returns it with the id of the call. If the work or the sending of its result
-- raised, the message refuses the call for that: a HalError by its code, message and details,
-- anything else as an internal error; and only if the sending of this very refusal raised too there
-- is no message.
pub dispatch-Answered :
    (codec : Codec) (wire : Wire) (handler : Handler) (now : ℕ) (job : Job) (sent : List Value)
    → Answered codec wire job.id sent
        (work handler now job.message)
        (dispatch codec wire handler now job sent)
unfolding dispatch
dispatch-Answered codec wire handler now job sent =
    answer_job-Answered codec wire job sent (work handler now job.message)
