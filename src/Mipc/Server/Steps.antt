-- ===== src/Mipc/Server/Steps.antt =====
-- How many calls the component holds at once, and that all of them can end.
use msys_hal.Prelude.{
  ℕ, zero, suc, ◌+◌, ◌*◌, ◌≤◌, ◌≡◌, refl, ap, ◌∙◌, false, [], ◌∷◌, length, length-append, arith,
  Bool-cases, inl, inr, ◌||◌,
}
use msys_hal.Json.{Value, null, bool, int, float, str, arr, obj, Fields}
use msys_hal.Errors.{Result, ok, err, Result-cases}
use msys_hal.Mipc.Packet.{Codec, decode_packet}
use msys_hal.Mipc.Server.{
  Wire, Server, init, request_id, admit, accept, Incoming, nothing, packet, broken, stop,
  after_accept, has_message_type, serve_message, serve, Step, receive, start, finish, Reach, here,
  next,
}

-- The calls that wait and the calls that have a thread.
abbrev pub held : Server → ℕ
held s = length s.queued + length s.running

-- Each call that is held has taken a slot of the semaphore, and each call with a thread one of the
-- threads; only stopping loses a slot, with the calls that it cancels.
pub record IsAdmitting (s : Server) : Type 0 where
  pub some_worker : 1 ≤ s.workers
  pub few_workers : s.workers ≤ 16
  pub threads : length s.running ≤ s.workers
  pub bounded : s.slots + held s ≤ 2 * s.workers
  pub exact : s.stopping ≡ false → s.slots + held s ≡ 2 * s.workers

init-IsAdmitting : (workers : ℕ) → IsAdmitting (init workers)
unfolding init
init-IsAdmitting workers = record {
  some_worker = omega arith;
  few_workers = omega arith;
  threads = omega arith;
  bounded = omega arith;
  exact = λ going. omega arith;
}

stop-IsAdmitting : (s : Server) → IsAdmitting s → IsAdmitting (stop s)
stop-IsAdmitting s a = record {
  some_worker = a.some_worker;
  few_workers = a.few_workers;
  threads = a.threads;
  bounded = let h = a.bounded in omega arith;
  exact = λ going. absurd cc;
}

admit-IsAdmitting :
    (codec : Codec) (wire : Wire) (message : Fields) (s : Server) (n : ℕ)
    → s.slots ≡ n
    → IsAdmitting s
    → IsAdmitting (admit codec wire message s n).1
unfolding admit
admit-IsAdmitting codec wire message s zero full a = record {
  some_worker = a.some_worker;
  few_workers = a.few_workers;
  threads = a.threads;
  bounded = a.bounded;
  exact = a.exact;
}
admit-IsAdmitting codec wire message s (suc left) free a =
    let longer =
      length-append s.queued (record { id = request_id message; message = message } ∷ []) in
    let h = a.bounded in
    record {
      some_worker = a.some_worker;
      few_workers = a.few_workers;
      threads = a.threads;
      bounded = omega arith;
      exact = λ going. let e = a.exact going in omega arith;
    }

after_accept-IsAdmitting :
    (r : Result (Unit {0})) (s : Server) → IsAdmitting s → IsAdmitting (after_accept (r, s)).1
unfolding after_accept
after_accept-IsAdmitting (ok u) s a = a
after_accept-IsAdmitting (err e) s a = stop-IsAdmitting s a

serve_message-IsAdmitting :
    (codec : Codec) (wire : Wire) (message : Value) (s : Server)
    → IsAdmitting s
    → IsAdmitting (serve_message codec wire message s).1
unfolding serve_message accept
serve_message-IsAdmitting codec wire null s a = a
serve_message-IsAdmitting codec wire (bool b) s a = a
serve_message-IsAdmitting codec wire (int n) s a = a
serve_message-IsAdmitting codec wire (float f t) s a = a
serve_message-IsAdmitting codec wire (str t) s a = a
serve_message-IsAdmitting codec wire (arr vs) s a = a
serve_message-IsAdmitting codec wire (obj message) s a =
    elim (Bool-cases (has_message_type "eof" message || has_message_type "shutdown" message)) [
      | inl over ↦ rw (over, serve_message) (stop-IsAdmitting s a)
      | inr more ↦ elim (Bool-cases (has_message_type "call" message)) [
        | inl call ↦
            rw (more, call, serve_message)
              (after_accept-IsAdmitting _ _ (admit-IsAdmitting codec wire message s s.slots refl a))
        | inr other ↦ rw (more, other, serve_message) a
      ]
    ]

serve-IsAdmitting :
    (codec : Codec) (wire : Wire) (incoming : Incoming) (s : Server)
    → IsAdmitting s
    → IsAdmitting (serve codec wire incoming s).1
unfolding serve
serve-IsAdmitting codec wire nothing s a = stop-IsAdmitting s a
serve-IsAdmitting codec wire (broken name) s a = stop-IsAdmitting s a
serve-IsAdmitting codec wire (packet bytes) s a = elim (Result-cases (decode_packet codec bytes)) [
  | inl (message, fine) ↦ rw (fine, serve) (serve_message-IsAdmitting codec wire message s a)
  | inr (e, bad) ↦ rw (bad, serve) (stop-IsAdmitting s a)
]

Step-IsAdmitting :
    (codec : Codec) (wire : Wire) {s t : Server}
    → Step codec wire s t
    → IsAdmitting s
    → IsAdmitting t
Step-IsAdmitting codec wire {s} (receive incoming going) a =
    serve-IsAdmitting codec wire incoming s a
Step-IsAdmitting codec wire {s} (start job rest waits free) a =
    let shorter : length s.queued ≡ suc (length rest) = ap length waits in
    let h = a.bounded in
    record {
      some_worker = a.some_worker;
      few_workers = a.few_workers;
      threads = omega arith;
      bounded = omega arith;
      exact = λ going. let e = a.exact going in omega arith;
    }
Step-IsAdmitting codec wire {s} (finish before job after handler now runs) a =
    let one : length s.running ≡ length before + suc (length after) =
      ap length runs ∙ length-append before (job ∷ after) in
    let rest = length-append before after in
    let h = a.bounded in
    let few = a.threads in
    record {
      some_worker = a.some_worker;
      few_workers = a.few_workers;
      threads = omega arith;
      bounded = omega arith;
      exact = λ going. let e = a.exact going in omega arith;
    }

-- Work is admitted within bounds: however the threads of the component interleave, it has 1 to 16
-- threads, no more calls in work than threads, and at most two calls per thread in work or waiting.
-- Until it stops, these calls and the free slots of the semaphore are two per thread together, so that
-- no slot is lost and none is released too often.
pub Reach-IsAdmitting :
    (codec : Codec) (wire : Wire) (workers : ℕ) (s : Server)
    → Reach codec wire workers s
    → IsAdmitting s
Reach-IsAdmitting codec wire workers s here = init-IsAdmitting workers
Reach-IsAdmitting codec wire workers s (next before step) =
    Step-IsAdmitting codec wire step (Reach-IsAdmitting codec wire workers _ before)
