-- ===== src/DisplaySession/Ready.antt =====
-- What a display session that is accepted says.
use msys_hal.Prelude.{
  ◌≡◌, refl, sym, ◌⊎◌, String, Bool, true, false, ◌&&◌, ◌||◌, [], ◌∷◌, &&-split, string_eq,
}
use mathlib.Core.Path.{subst}
use msys_hal.Json.{Value, null, bool, str, obj, Fields, keys, field_or, is_text, is_text-str}
use msys_hal.DisplaySession.Accepts.{
  IsText, IsBetween, IsNatural, HasKeys, is_text_up_to-IsText, is_between-IsBetween,
  is_natural-IsNatural, is_true-true, is_display-re, has_exactly-HasKeys, is_null-null,
  null_or_text,
}
use msys_hal.DisplaySession.Matrix.{IsAffine, normalized_matrix-IsAffine}
use msys_hal.Errors.{ok, >>=-eq-ok, require, require-eq-ok}
use msys_hal.DisplaySession.{
  Reading, session_schema, session_keys, geometry_keys, transform_keys, has_exactly, is_text_up_to,
  is_between, is_natural, is_display, display_re, is_null, is_true, dict_of, flag_of,
  normalized_matrix, check_matrix, check_geometry, check_transform, validate_fields,
  validate_display_session,
}

-- A matrix where the input is enabled, and none where it is not.
pub data IsMatrix (reading : String → Reading) : Bool → Value → Type 0 where
  enabled : {v : Value} → IsAffine reading v → IsMatrix reading true v
  disabled : IsMatrix reading false null

-- The geometry and the input transform of a session.
pub record IsGeometry (geometry : Fields) : Type 0 where
  pub keys : HasKeys ("width" ∷ "height" ∷ "depth" ∷ []) geometry
  pub width : IsBetween 1 65535 (field_or null "width" geometry)
  pub height : IsBetween 1 65535 (field_or null "height" geometry)
  pub depth : IsBetween 0 128 (field_or null "depth" geometry)

pub record IsTransform (reading : String → Reading) (transform : Fields) : Type 0 where
  pub keys :
      HasKeys
        ("enabled" ∷ "mode" ∷ "device" ∷ "space" ∷ "matrix" ∷ "source" ∷ "verified" ∷ [])
        transform
  pub is_enabled : Bool
  pub flag : field_or null "enabled" transform ≡ bool is_enabled
  pub mode : IsText 128 (field_or null "mode" transform)
  pub source : IsText 128 (field_or null "source" transform)
  pub device :
      (field_or null "device" transform ≡ null) ⊎ IsText 256 (field_or null "device" transform)
  pub space : field_or null "space" transform ≡ str "normalized-display"
  pub verified : field_or null "verified" transform ≡ bool true
  pub matrix : IsMatrix reading is_enabled (field_or null "matrix" transform)

pub record IsSession (reading : String → Reading) (document : Fields) : Type 0 where
  pub keys :
      HasKeys
        ("schema" ∷ "state" ∷ "provider" ∷ "generation" ∷ "display" ∷ "geometry" ∷ "input_transform"
          ∷ "observed_at_unix_ms" ∷ [])
        document
  pub schema : field_or null "schema" document ≡ str "msys.display-session.v1"
  pub state : field_or null "state" document ≡ str "ready"
  pub provider : IsText 256 (field_or null "provider" document)
  pub generation : IsNatural (field_or null "generation" document)
  pub display : String
  pub has_display : field_or null "display" document ≡ str display
  pub display_matches : display_re display ≡ true
  pub geometry : Fields
  pub has_geometry : field_or null "geometry" document ≡ obj geometry
  pub in_bounds : IsGeometry geometry
  pub transform : Fields
  pub has_transform : field_or null "input_transform" document ≡ obj transform
  pub usable : IsTransform reading transform
  pub observed : IsNatural (field_or null "observed_at_unix_ms" document)

dict_of-ok : (v : Value) (m : String) (fs : Fields) → dict_of v m ≡ ok fs → v ≡ obj fs
unfolding dict_of
dict_of-ok (obj gs) m fs e = cc
dict_of-ok _ m fs e = cc

flag_of-ok : (v : Value) (b : Bool) → flag_of v ≡ ok b → v ≡ bool b
unfolding flag_of
flag_of-ok (bool c) b e = cc
flag_of-ok _ b e = cc

check_matrix-IsMatrix :
    (reading : String → Reading) (b : Bool) (v : Value) {u : Unit {0}}
    → check_matrix reading b v ≡ ok u
    → IsMatrix reading b v
unfolding check_matrix
check_matrix-IsMatrix reading true v e =
    let (matrix, read, more) = >>=-eq-ok (normalized_matrix reading v "input transform") _ e in
    enabled (normalized_matrix-IsAffine reading v _ matrix read)
check_matrix-IsMatrix reading false v e =
    subst (IsMatrix reading false) (sym (is_null-null v (require-eq-ok _ _ e))) disabled

check_geometry-IsGeometry :
    (reading : String → Reading) (geometry : Fields) {u : Unit {0}}
    → check_geometry reading geometry ≡ ok u
    → IsGeometry geometry
unfolding check_geometry
check_geometry-IsGeometry reading geometry e =
    let (u1, keys, e1) = >>=-eq-ok (require (has_exactly geometry_keys geometry) _) _ e in
    let (u2, width, e2) =
      >>=-eq-ok (require (is_between 1 65535 (field_or null "width" geometry)) _) _ e1 in
    let (u3, height, e3) =
      >>=-eq-ok (require (is_between 1 65535 (field_or null "height" geometry)) _) _ e2 in
    record {
      keys = has_exactly-HasKeys _ _ (require-eq-ok _ _ keys);
      width = is_between-IsBetween _ _ _ (require-eq-ok _ _ width);
      height = is_between-IsBetween _ _ _ (require-eq-ok _ _ height);
      depth = is_between-IsBetween _ _ _ (require-eq-ok _ _ e3);
    }

check_transform-IsTransform :
    (reading : String → Reading) (transform : Fields) {u : Unit {0}}
    → check_transform reading transform ≡ ok u
    → IsTransform reading transform
unfolding check_transform
check_transform-IsTransform reading transform e =
    let (u1, keys, e1) = >>=-eq-ok (require (has_exactly transform_keys transform) _) _ e in
    let (b, flag, e2) = >>=-eq-ok (flag_of (field_or null "enabled" transform)) _ e1 in
    let (u3, mode, e3) =
      >>=-eq-ok (require (is_text_up_to 128 (field_or null "mode" transform)) _) _ e2 in
    let (u4, source, e4) =
      >>=-eq-ok (require (is_text_up_to 128 (field_or null "source" transform)) _) _ e3 in
    let (u5, device, e5) =
      >>=-eq-ok
        (require
          (is_null (field_or null "device" transform)
            || is_text_up_to 256 (field_or null "device" transform))
          _)
        _ e4 in
    let (u6, verified, e6) =
      >>=-eq-ok
        (require
          (is_text "normalized-display" (field_or null "space" transform)
            && is_true (field_or null "verified" transform))
          _)
        _ e5 in
    let (space, is_so) =
      &&-split (is_text "normalized-display" (field_or null "space" transform))
        (is_true (field_or null "verified" transform)) (require-eq-ok _ _ verified) in
    record {
      keys = has_exactly-HasKeys _ _ (require-eq-ok _ _ keys);
      is_enabled = b;
      flag = flag_of-ok _ b flag;
      mode = is_text_up_to-IsText _ _ (require-eq-ok _ _ mode);
      source = is_text_up_to-IsText _ _ (require-eq-ok _ _ source);
      device = null_or_text _ (require-eq-ok _ _ device);
      space = is_text-str _ _ space;
      verified = is_true-true _ is_so;
      matrix = check_matrix-IsMatrix reading b _ e6;
    }

validate_fields-IsSession :
    (reading : String → Reading) (document : Fields) {u : Unit {0}}
    → validate_fields reading document ≡ ok u
    → IsSession reading document
unfolding validate_fields
validate_fields-IsSession reading document e =
    let (u1, schema, e1) =
      >>=-eq-ok (require (is_text session_schema (field_or null "schema" document)) _) _ e in
    let (u2, keys, e2) = >>=-eq-ok (require (has_exactly session_keys document) _) _ e1 in
    let (u3, state, e3) =
      >>=-eq-ok (require (is_text "ready" (field_or null "state" document)) _) _ e2 in
    let (u4, provider, e4) =
      >>=-eq-ok (require (is_text_up_to 256 (field_or null "provider" document)) _) _ e3 in
    let (u5, generation, e5) =
      >>=-eq-ok (require (is_natural (field_or null "generation" document)) _) _ e4 in
    let (u6, display, e6) =
      >>=-eq-ok (require (is_display (field_or null "display" document)) _) _ e5 in
    let (shown, is_shown, matches) = is_display-re _ (require-eq-ok _ _ display) in
    let (geometry, g, e7) = >>=-eq-ok (dict_of (field_or null "geometry" document) _) _ e6 in
    let (u8, bounds, e8) = >>=-eq-ok (check_geometry reading geometry) _ e7 in
    let (transform, t, e9) =
      >>=-eq-ok (dict_of (field_or null "input_transform" document) _) _ e8 in
    let (u10, usable, e10) = >>=-eq-ok (check_transform reading transform) _ e9 in
    record {
      keys = has_exactly-HasKeys _ _ (require-eq-ok _ _ keys);
      schema = is_text-str _ _ (require-eq-ok _ _ schema);
      state = is_text-str _ _ (require-eq-ok _ _ state);
      provider = is_text_up_to-IsText _ _ (require-eq-ok _ _ provider);
      generation = is_natural-IsNatural _ (require-eq-ok _ _ generation);
      display = shown;
      has_display = is_shown;
      display_matches = matches;
      geometry = geometry;
      has_geometry = dict_of-ok _ _ geometry g;
      in_bounds = check_geometry-IsGeometry reading geometry bounds;
      transform = transform;
      has_transform = dict_of-ok _ _ transform t;
      usable = check_transform-IsTransform reading transform usable;
      observed = is_natural-IsNatural _ (require-eq-ok _ _ e10);
    }

-- An accepted session is ready to use. A document that `validate_display_session` returns is the one
-- that it was given, has the eight fields and no others, is ready, names its provider in 1 to 256
-- characters and a display, and has a generation and a time that are not negative; its geometry has
-- the three fields and no others, a width and a height from 1 to 65535 and a depth from 0 to 128; and
-- its input transform has the seven fields and no others, is verified and in normalized display
-- space, and has a matrix just if it is enabled: of nine numbers, integers or finite floats, none of
-- which is larger than 16 or smaller than -16, with the last row 0, 0, 1.
pub validate_display_session-IsSession :
    (reading : String → Reading) (v : Value) (document : Fields)
    → validate_display_session reading v ≡ ok document
    → (v ≡ obj document) × IsSession reading document
unfolding validate_display_session
validate_display_session-IsSession reading (obj fs) document e =
    let (u, fine, e1) = >>=-eq-ok (validate_fields reading fs) _ e in
    let same : fs ≡ document = cc in
    subst (λ d. (obj fs ≡ obj d) × IsSession reading d) same
      (refl, validate_fields-IsSession reading fs fine)
validate_display_session-IsSession reading _ document e = absurd cc
