-- ===== src/Validation/Bounded/Walk.antt =====
-- What the walk of `ensure_bounded_json` accepts, said without the walk: a number of values, a
-- height, and a test of every scalar, key and container.
use Prim.Native.Nat.{max}
use msys_hal.Prelude.{
  ℕ, ◌+◌, ◌≤◌, ◌≡◌, refl, ap, ◌↔◌, Bool, true, ◌&&◌, leb, leb→le, le→leb, &&-split, &&-both, arith,
  Option, some, none,
}
use msys_hal.Json.{
  Value, float, str, arr, obj, Items, nil, cons, Fields, end, field, count_items, count_fields,
}
use msys_hal.Errors.{Exception, ok, ◌>>=◌, ◌>>◌, require, >>=-eq-ok, require-eq-ok}
use msys_hal.Validation.Bounded.{
  Limits, enter, text_fits, walk, walk_items, walk_fields, text_size, check_size,
  ensure_bounded_json, max_hal_json,
}

-- The values in a value, itself included.
unfoldable mutual
  pub nodes : Value → ℕ
  nodes (arr xs) = 1 + nodes_items xs
  nodes (obj fs) = 1 + nodes_fields fs
  nodes v = 1

  pub nodes_items : Items → ℕ
  nodes_items nil = 0
  nodes_items (cons x xs) = nodes x + nodes_items xs

  pub nodes_fields : Fields → ℕ
  nodes_fields end = 0
  nodes_fields (field k x fs) = nodes x + nodes_fields fs

-- How deeply values are nested: 0 for a scalar and an empty container.
unfoldable mutual
  pub height : Value → ℕ
  height (arr xs) = height_items xs
  height (obj fs) = height_fields fs
  height v = 0

  pub height_items : Items → ℕ
  height_items nil = 0
  height_items (cons x xs) = max (1 + height x) (height_items xs)

  pub height_fields : Fields → ℕ
  height_fields end = 0
  height_fields (field k x fs) = max (1 + height x) (height_fields fs)

-- Floats are finite, texts short and free of NUL, containers small.
unfoldable mutual
  pub clean : Value → Bool
  clean (float finite text) = finite
  clean (str s) = text_fits 4096 s
  clean (arr xs) = leb (count_items xs) 256 && clean_items xs
  clean (obj fs) = leb (count_fields fs) 128 && clean_fields fs
  clean v = true

  pub clean_items : Items → Bool
  clean_items nil = true
  clean_items (cons x xs) = clean x && clean_items xs

  pub clean_fields : Fields → Bool
  clean_fields end = true
  clean_fields (field k x fs) = text_fits 128 k && (clean x && clean_fields fs)

abbrev Accepts : Limits → ℕ → ℕ → ℕ → ℕ → Bool → Type 0
Accepts l depth count n h tested =
    (count + n ≤ l.max_items) × (depth + h ≤ l.max_depth) × (tested ≡ true)

enter-eq :
    (l : Limits) (depth count : ℕ)
    → count + 1 ≤ l.max_items
    → depth ≤ l.max_depth
    → enter l depth count ≡ ok (count + 1)
unfolding enter
enter-eq l depth count m d = rw (le→leb _ _ m, le→leb _ _ d)

mutual
  unfolding walk nodes height clean

  walk_complete :
      (l : Limits) (v : Value) (depth count : ℕ)
      → Accepts l depth count (nodes v) (height v) (clean v)
      → walk l v depth count ≡ ok (count + nodes v)
  walk_complete l (float finite text) depth count h =
      rw (enter-eq l depth count (omega arith) (omega arith), h.2)
  walk_complete l (str s) depth count h =
      rw (enter-eq l depth count (omega arith) (omega arith), h.2)
  walk_complete l (arr xs) depth count h =
      let (small, rest) = &&-split (leb (count_items xs) 256) (clean_items xs) h.2 in
      rw
        (
          enter-eq l depth count (omega arith) (omega arith),
          small,
          walk_items_complete l xs depth (count + 1) (omega arith, omega arith, rest),
        )
        (ap ok (omega arith))
  walk_complete l (obj fs) depth count h =
      let (small, rest) = &&-split (leb (count_fields fs) 128) (clean_fields fs) h.2 in
      rw
        (
          enter-eq l depth count (omega arith) (omega arith),
          small,
          walk_fields_complete l fs depth (count + 1) (omega arith, omega arith, rest),
        )
        (ap ok (omega arith))
  walk_complete l _ depth count h = enter-eq l depth count (omega arith) (omega arith)

  walk_items_complete :
      (l : Limits) (xs : Items) (depth count : ℕ)
      → Accepts l depth count (nodes_items xs) (height_items xs) (clean_items xs)
      → walk_items l xs (depth + 1) count ≡ ok (count + nodes_items xs)
  walk_items_complete l nil depth count h = ap ok (omega arith)
  walk_items_complete l (cons x xs) depth count h =
      let (first, rest) = &&-split (clean x) (clean_items xs) h.2 in
      rw
        (
          walk_complete l x (depth + 1) count (omega arith, omega arith, first),
          walk_items_complete l xs depth (count + nodes x) (omega arith, omega arith, rest),
        )
        (ap ok (omega arith))

  walk_fields_complete :
      (l : Limits) (fs : Fields) (depth count : ℕ)
      → Accepts l depth count (nodes_fields fs) (height_fields fs) (clean_fields fs)
      → walk_fields l fs (depth + 1) count ≡ ok (count + nodes_fields fs)
  walk_fields_complete l end depth count h = ap ok (omega arith)
  walk_fields_complete l (field k x fs) depth count h =
      let (key, both) = &&-split (text_fits 128 k) (clean x && clean_fields fs) h.2 in
      let (first, rest) = &&-split (clean x) (clean_fields fs) both in
      rw
        (
          key,
          walk_complete l x (depth + 1) count (omega arith, omega arith, first),
          walk_fields_complete l fs depth (count + nodes x) (omega arith, omega arith, rest),
        )
        (ap ok (omega arith))

abbrev Accepted : Limits → ℕ → ℕ → ℕ → ℕ → Bool → ℕ → Type 0
Accepted l depth count n h tested count' =
    (count' ≡ count + n) × (count' ≤ l.max_items) × (depth + h ≤ l.max_depth) × (tested ≡ true)

enter_sound :
    (l : Limits) (depth count : ℕ) {count' : ℕ}
    → enter l depth count ≡ ok count'
    → Accepted l depth count 1 0 true count'
unfolding enter
enter_sound l depth count e = ground arith

-- A test after `enter` that raises or hands on the count.
tested_sound :
    (l : Limits) (depth count : ℕ) (tested : Bool) (x : Exception) {count' : ℕ}
    → (do c ← enter l depth count; require tested x; ok c) ≡ ok count'
    → Accepted l depth count 1 0 tested count'
tested_sound l depth count tested x e =
    let (c, entered, more) = >>=-eq-ok (enter l depth count) _ e in
    ground (arith, enter_sound l depth count entered)

mutual
  unfolding walk nodes height clean

  walk_sound :
      (l : Limits) (v : Value) (depth count : ℕ) {count' : ℕ}
      → walk l v depth count ≡ ok count'
      → Accepted l depth count (nodes v) (height v) (clean v) count'
  walk_sound l (float finite text) depth count e = tested_sound l depth count finite _ e
  walk_sound l (str s) depth count e = tested_sound l depth count (text_fits 4096 s) _ e
  walk_sound l (arr xs) depth count e =
      let (c, entered, more) = >>=-eq-ok (enter l depth count) _ e in
      let (u, small, rest) = >>=-eq-ok (require (leb (count_items xs) 256) _) _ more in
      let a = enter_sound l depth count entered in
      let b = walk_items_sound l xs depth c (omega arith) (omega arith) rest in
      (omega arith, omega arith, omega arith, &&-both (require-eq-ok _ _ small) b.3)
  walk_sound l (obj fs) depth count e =
      let (c, entered, more) = >>=-eq-ok (enter l depth count) _ e in
      let (u, small, rest) = >>=-eq-ok (require (leb (count_fields fs) 128) _) _ more in
      let a = enter_sound l depth count entered in
      let b = walk_fields_sound l fs depth c (omega arith) (omega arith) rest in
      (omega arith, omega arith, omega arith, &&-both (require-eq-ok _ _ small) b.3)
  walk_sound l _ depth count e = enter_sound l depth count e

  walk_items_sound :
      (l : Limits) (xs : Items) (depth count : ℕ) {count' : ℕ}
      → count ≤ l.max_items
      → depth ≤ l.max_depth
      → walk_items l xs (depth + 1) count ≡ ok count'
      → Accepted l depth count (nodes_items xs) (height_items xs) (clean_items xs) count'
  walk_items_sound l nil depth count m d e = ground arith
  walk_items_sound l (cons x xs) depth count m d e =
      let (c, first, more) = >>=-eq-ok (walk l x (depth + 1) count) _ e in
      let a = walk_sound l x (depth + 1) count first in
      let b = walk_items_sound l xs depth c (omega arith) d more in
      (omega arith, omega arith, omega arith, &&-both a.3 b.3)

  walk_fields_sound :
      (l : Limits) (fs : Fields) (depth count : ℕ) {count' : ℕ}
      → count ≤ l.max_items
      → depth ≤ l.max_depth
      → walk_fields l fs (depth + 1) count ≡ ok count'
      → Accepted l depth count (nodes_fields fs) (height_fields fs) (clean_fields fs) count'
  walk_fields_sound l end depth count m d e = ground arith
  walk_fields_sound l (field k x fs) depth count m d e =
      let (u, key, more) = >>=-eq-ok (require (text_fits 128 k) _) _ e in
      let (c, first, rest) = >>=-eq-ok (walk l x (depth + 1) count) _ more in
      let a = walk_sound l x (depth + 1) count first in
      let b = walk_fields_sound l fs depth c (omega arith) d rest in
      (omega arith, omega arith, omega arith, &&-both (require-eq-ok _ _ key) (&&-both a.3 b.3))

-- Within the limits, and a text of at most `max_hal_json` bytes.
pub record IsBounded (l : Limits) (v : Value) : Type 0 where
  pub few : nodes v ≤ l.max_items
  pub shallow : height v ≤ l.max_depth
  pub tested : clean v ≡ true
  pub bytes : ℕ
  pub encoded : text_size v ≡ some bytes
  pub fits : bytes ≤ max_hal_json

check_size_sound :
    (l : Limits) (o : Option ℕ) {u : Unit {0}}
    → check_size l o ≡ ok u
    → (n : ℕ) × (o ≡ some n) × (n ≤ max_hal_json)
unfolding check_size
check_size_sound l none e = cc
check_size_sound l (some n) e = (n, refl, leb→le n max_hal_json (require-eq-ok _ _ e))

-- `ensure_bounded_json` returns exactly on the values that hold at most `max_items` values, are
-- nested at most `max_depth` deep, pass the tests of scalars, keys and container sizes, and whose
-- JSON text exists and has at most 131072 bytes.
pub ensure_bounded_json_iff :
    (l : Limits) (v : Value) → (ensure_bounded_json l v ≡ ok tt) ↔ IsBounded l v
unfolding ensure_bounded_json
ensure_bounded_json_iff l v = (sound, complete)
  where
    sound : ensure_bounded_json l v ≡ ok tt → IsBounded l v
    sound e =
        let (c, walked, more) = >>=-eq-ok (walk l v 0 0) _ e in
        let a = walk_sound l v 0 0 walked in
        let (n, encoded, fits) = check_size_sound l (text_size v) more in
        record {
          few = omega arith;
          shallow = omega arith;
          tested = a.3;
          bytes = n;
          encoded = encoded;
          fits = fits;
        }

    complete : IsBounded l v → ensure_bounded_json l v ≡ ok tt
    complete h = rw (
      walk_complete l v 0 0 (omega (arith, h.few), omega (arith, h.shallow), h.tested),
      h.encoded,
      check_size,
      le→leb _ _ h.fits,
    )
