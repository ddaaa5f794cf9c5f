-- ===== src/Tests/Sessions.antt =====
-- The theorems on display sessions, with two state files.
use msys_hal.Prelude.{ℕ, ◌≡◌, refl, true, some, [], ◌∷◌, ◌==◌, string_eq, nat_eq, if◌then◌else◌}
use msys_hal.Json.{null, bool, int, str, arr, obj, Items, nil, cons, Fields, field, end}
use msys_hal.Json.Int.{pos, clamp}
use msys_hal.Errors.{ok}
use msys_hal.Mipc.Packet.{loaded, malformed}
use msys_hal.Mipc.Line.{chunk, recv}
use msys_hal.DisplaySession.{
  reading_int, validate_display_session, normalized_matrix, display_re, has_exactly,
}
use msys_hal.DisplaySession.Ready.{IsSession, validate_display_session-IsSession}
use msys_hal.DisplaySession.Reader.{
  Surroundings, opened, absent, SessionReader, make_reader, load, read_document, require_fresh,
  is_fresh, outcome,
}
use msys_hal.DisplaySession.Reader.Newest.{IsNewest, load-IsNewest}

abbrev number : ℕ → Items → Items
number n rest = cons (int (pos n)) rest

abbrev identity : Items
identity =
    number 1
      (number 0 (number 0 (number 0 (number 1 (number 0 (number 0 (number 0 (number 1 nil))))))))

abbrev session : ℕ → Fields
session observed = field "schema" (str "msys.display-session.v1") (
    field "state" (str "ready") (
      field "provider" (str "org.msys.x11:main") (
        field "generation" (int (pos 2)) (
          field "display" (str ":0.0") (
            field "geometry"
              (obj (
                field "width" (int (pos 320))
                  (field "height" (int (pos 480)) (field "depth" (int (pos 16)) end))))
              (field "input_transform"
                (obj (
                  field "enabled" (bool true) (
                    field "mode" (str "matrix") (
                      field "device" null (
                        field "space" (str "normalized-display") (
                          field "matrix" (arr identity) (
                            field "source" (str "provider")
                              (field "verified" (bool true) end))))))))
                (field "observed_at_unix_ms" (int (pos observed)) end)))))))

-- A file of one byte has an older session, one of two bytes a newer one.
surroundings : Surroundings
surroundings = record {
  files = λ path.
      if path == "/run/a.json"
      then opened true 1 (chunk (49 ∷ []) ∷ [])
      else if path == "/run/b.json"
      then opened true 2 (chunk (50 ∷ []) ∷ chunk (50 ∷ []) ∷ [])
      else absent;
  loads = λ bytes. elim bytes [
    | [] ↦ malformed
    | b ∷ rest ↦ if b == 49 then loaded (obj (session 1000)) else loaded (obj (session 2000))
  ];
  reading = λ text. reading_int (pos 17);
  now = λ path. 3000;
}

reader : SessionReader
reader =
    make_reader ("/run/a.json" ∷ "/run/c.json" ∷ "/run/b.json" ∷ "/run/a.json" ∷ []) (pos 45000)

valid :
    validate_display_session (λ text. reading_int (pos 17)) (obj (session 2000)) ≡ ok (session 2000)
unfolding validate_display_session normalized_matrix display_re has_exactly
valid = refl

loads_newer : load surroundings reader ≡ some (ok (session 2000))
unfolding load surroundings reader make_reader read_document require_fresh is_fresh outcome clamp
    validate_display_session normalized_matrix display_re has_exactly recv
loads_newer = refl

validate_display_session-IsSession_example :
    (obj (session 2000) ≡ obj (session 2000))
    × IsSession (λ text. reading_int (pos 17)) (session 2000)
validate_display_session-IsSession_example =
    validate_display_session-IsSession (λ text. reading_int (pos 17)) (obj (session 2000))
      (session 2000) valid

load-IsNewest_example : IsNewest surroundings reader (session 2000)
load-IsNewest_example = load-IsNewest surroundings reader (session 2000) loads_newer
