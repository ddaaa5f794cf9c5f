-- ===== src/DisplaySession/Reader/Ends.antt =====
-- `load` ends.
use msys_hal.Prelude.{
  ℕ, zero, suc, ◌+◌, ◌≤◌, ◌<◌, ◌≡◌, refl, ap, ◌∙◌, inl, inr, String, true, ◌&&◌, Option, none, some,
  is_some, List, [], ◌∷◌, ◌++◌, length, length-append, leb, leb→le, Bool-cases, Option-cases, arith,
}
use msys_hal.Json.{Fields}
use msys_hal.Errors.{Result, ok, err, Result-cases}
use msys_hal.Mipc.Packet.{Bytes}
use msys_hal.Mipc.Line.{Arrival}
use msys_hal.DisplaySession.Reader.{
  Surroundings, Opened, absent, denied, opened, SessionReader, Found, max_state_bytes, chunk_read,
  read_loop, document_of, open_document, read_document, outcome, after_path, next_path, load_loop,
  finish, load,
}

chunk_read-ends :
    (next : Bytes → List Arrival → Option (Result Bytes)) (so_far : Bytes) (r : Result Bytes)
    (rest : List Arrival)
    → ((more : Bytes) → length so_far < length more → is_some (next more rest) ≡ true)
    → is_some (chunk_read next so_far (r, rest)) ≡ true
unfolding chunk_read
chunk_read-ends next so_far (err e) rest go_on = refl
chunk_read-ends next so_far (ok []) rest go_on = refl
chunk_read-ends next so_far (ok (b ∷ bytes)) rest go_on =
    go_on (so_far ++ b ∷ bytes) (omega (arith, length-append so_far (b ∷ bytes)))

read_loop-ends :
    (rounds : ℕ) (so_far : Bytes) (arrivals : List Arrival)
    → max_state_bytes + 1 < rounds + length so_far
    → 1 ≤ rounds
    → is_some (read_loop rounds so_far arrivals) ≡ true
unfolding read_loop
read_loop-ends zero so_far arrivals enough some_round = absurd (omega arith)
read_loop-ends (suc rounds) so_far arrivals enough some_round =
    elim (Bool-cases (leb (length so_far) max_state_bytes)) [
      | inr whole ↦ rw (whole, read_loop) refl
      | inl more ↦
          let room = leb→le (length so_far) max_state_bytes more in
          rw (more, read_loop)
            (chunk_read-ends (read_loop rounds) so_far _ _
              λ longer grows. read_loop-ends rounds longer _ (omega arith) (omega arith))
    ]

document_of-ends :
    (w : Surroundings) (o : Option (Result Bytes))
    → is_some o ≡ true
    → is_some (document_of w o) ≡ true
unfolding document_of
document_of-ends w none h = h
document_of-ends w (some r) h = refl

open_document-ends : (w : Surroundings) (o : Opened) → is_some (open_document w o) ≡ true
unfolding open_document
open_document-ends w absent = refl
open_document-ends w (denied name) = refl
open_document-ends w (opened regular size contents) =
    elim (Bool-cases (regular && leb size max_state_bytes)) [
      | inr refused ↦ rw (refused, open_document) refl
      | inl fine ↦
          rw (fine, open_document)
            (document_of-ends w _
              (read_loop-ends (max_state_bytes + 2) [] contents (omega arith) (omega arith)))
    ]

outcome-ends : (w : Surroundings) (age : ℕ) (path : String) → is_some (outcome w age path) ≡ true
unfolding outcome read_document
outcome-ends w age path = elim (Option-cases (read_document w path)) [
  | inl endless ↦ absurd (let h = open_document-ends w (w.files path) in cc)
  | inr (r, read) ↦ elim (Result-cases r) [
    | inl (d, fine) ↦ rw (read ∙ ap some fine, outcome) refl
    | inr (x, bad) ↦ rw (read ∙ ap some bad, outcome) refl
  ]
]

next_path-ends :
    (next : Found → Option (Result Found)) (o : Option (Result Fields)) (f : Found)
    → is_some o ≡ true
    → ((g : Found) → is_some (next g) ≡ true)
    → is_some (next_path next o f) ≡ true
unfolding next_path
next_path-ends next none f h more = h
next_path-ends next (some r) f h more = elim (Result-cases (after_path r f)) [
  | inl (g, fine) ↦ rw (fine, next_path) (more g)
  | inr (x, bad) ↦ rw (bad, next_path) refl
]

load_loop-ends :
    (w : Surroundings) (age : ℕ) (paths : List String) (f : Found)
    → is_some (load_loop w age paths f) ≡ true
unfolding load_loop
load_loop-ends w age [] f = refl
load_loop-ends w age (path ∷ rest) f =
    next_path-ends (load_loop w age rest) (outcome w age path) f (outcome-ends w age path)
      (load_loop-ends w age rest)

finish-ends : (o : Option (Result Found)) → is_some o ≡ true → is_some (finish o) ≡ true
unfolding finish
finish-ends none h = h
finish-ends (some (ok f)) h = refl
finish-ends (some (err e)) h = refl

-- `load` ends, whatever the files hold: it returns a document or raises.
pub load_ends : (w : Surroundings) (reader : SessionReader) → is_some (load w reader) ≡ true
unfolding load
load_ends w reader = finish-ends _ (load_loop-ends w reader.max_age_ms reader.paths _)
