-- ===== src/Linux/Backlight/Readings.antt =====
-- What `get_state` of the backlight reads.
use msys_hal.Prelude.{ℕ, ◌≤◌, ◌≡◌, refl, inl, inr, String, Option, none, some, Option-cases, arith}
use msys_hal.Json.{Value}
use msys_hal.Json.Int.{ℤ, pos, negsuc, pos_part}
use msys_hal.Errors.{ok, err, Result-cases}
use msys_hal.Linux.{Sysfs, parse_int, int_of, within, read_int, read_text, state_value}
use msys_hal.Linux.Attribute.{Platform, is_writable, read_level}
use msys_hal.Linux.Backlight.{entry_of, max_level, mutable_of, get_state, observed_state, values_of}

-- The state that `get_state` returns has the brightness that is read off the entry.
pub record IsReading (p : Platform) (root identifier : String) (s : Sysfs) (v : Value)
    : Type 0 where
  pub entry : String
  pub found : entry_of p root identifier s ≡ ok entry
  pub brightness : ℕ
  pub maximum : ℕ
  pub bright : read_level p root s entry "brightness" 0 max_level ≡ some brightness
  pub most : read_level p root s entry "max_brightness" 1 max_level ≡ some maximum
  pub shown :
      v
      ≡ state_value identifier "backlight"
          (values_of p root brightness maximum
            (read_level p root s entry "actual_brightness" 0 maximum))
          (mutable_of p root (is_writable p root s entry))

observed_state-ok :
    (p : Platform) (root identifier entry : String) (s : Sysfs) (m b : Option ℕ) (v : Value)
    → observed_state p root identifier entry s m b ≡ ok v
    → (maximum : ℕ) × (brightness : ℕ) × (m ≡ some maximum)
      × (b ≡ some brightness)
      × (v
          ≡ state_value identifier "backlight"
              (values_of p root brightness maximum
                (read_level p root s entry "actual_brightness" 0 maximum))
              (mutable_of p root (is_writable p root s entry)))
unfolding observed_state
observed_state-ok p root identifier entry s (some m) (some b) v e = (m, b, refl, refl, cc)
observed_state-ok p root identifier entry s (some m) none v e = absurd cc
observed_state-ok p root identifier entry s none (some b) v e = absurd cc
observed_state-ok p root identifier entry s none none v e = absurd cc

pub get_state-IsReading :
    (p : Platform) (root identifier : String) (s : Sysfs) (v : Value)
    → get_state p root identifier s ≡ ok v
    → IsReading p root identifier s v
unfolding get_state
get_state-IsReading p root identifier s v e = elim (Result-cases (entry_of p root identifier s)) [
  | inr (x, missing) ↦
      absurd (let bad : get_state p root identifier s ≡ err x = rw (missing, get_state) refl in cc)
  | inl (entry, found) ↦
      let read = rw (found, get_state) at e in
      let (maximum, brightness, most, bright, shown) =
        observed_state-ok p root identifier entry s _ _ v read in
      record {
        entry = entry;
        found = found;
        brightness = brightness;
        maximum = maximum;
        bright = bright;
        most = most;
        shown = shown;
      }
]

-- A level that is within bounds is within wider ones.
within-widen :
    (low high : ℕ) (o : Option ℤ) (n : ℤ)
    → low ≤ high
    → within (pos 0) (pos low) o ≡ some n
    → within (pos 0) (pos high) o ≡ some n
unfolding within
within-widen low high none n h e = absurd cc
within-widen low high (some (pos k)) n h e = ground arith
within-widen low high (some (negsuc k)) n h e = ground arith

int_of-widen :
    (p : Platform) (low high : ℕ) (o : Option String) (n : ℤ)
    → low ≤ high
    → int_of p.decode (pos 0) (pos low) o ≡ some n
    → int_of p.decode (pos 0) (pos high) o ≡ some n
unfolding int_of
int_of-widen p low high none n h e = absurd cc
int_of-widen p low high (some raw) n h e = within-widen low high (parse_int raw) n h e

pub read_level-widen :
    (p : Platform) (root : String) (s : Sysfs) (entry attribute : String) (low high n : ℕ)
    → low ≤ high
    → read_level p root s entry attribute 0 low ≡ some n
    → read_level p root s entry attribute 0 high ≡ some n
unfolding read_level read_int
read_level-widen p root s entry attribute low high n h e =
    elim (Option-cases (read_int p.decode s root entry attribute (pos 0) (pos low))) [
      | inl missing ↦ absurd (
          let bad : read_level p root s entry attribute 0 low ≡ none =
            rw (missing, read_level) refl in
          cc)
      | inr (k, read) ↦
          let same : pos_part k ≡ n =
            (let l : read_level p root s entry attribute 0 low ≡ some (pos_part k) =
                rw (read, read_level) refl in
              cc) in
          let wide =
            int_of-widen p low high (read_text p.decode s root entry attribute 64) k h read in
          rw (← same) (rw (wide, read_level) refl)
    ]

within-le :
    (low : ℤ) (high : ℕ) (o : Option ℤ) (n : ℤ)
    → within low (pos high) o ≡ some n
    → pos_part n ≤ high
unfolding within
within-le low high none n e = absurd cc
within-le low high (some (negsuc k)) (pos n) e = ground arith
within-le low high (some (negsuc k)) (negsuc n) e = omega arith
within-le low high (some (pos k)) (negsuc n) e = omega arith
within-le low high (some (pos k)) (pos n) e = ground arith

int_of-le :
    (p : Platform) (low : ℤ) (high : ℕ) (o : Option String) (n : ℤ)
    → int_of p.decode low (pos high) o ≡ some n
    → pos_part n ≤ high
unfolding int_of
int_of-le p low high none n e = absurd cc
int_of-le p low high (some raw) n e = within-le low high (parse_int raw) n e

-- What is read is within its bounds.
pub read_level-le :
    (p : Platform) (root : String) (s : Sysfs) (entry attribute : String) (low high n : ℕ)
    → read_level p root s entry attribute low high ≡ some n
    → n ≤ high
unfolding read_level read_int
read_level-le p root s entry attribute low high n e =
    elim (Option-cases (read_int p.decode s root entry attribute (pos low) (pos high))) [
      | inl missing ↦ absurd (
          let bad : read_level p root s entry attribute low high ≡ none =
            rw (missing, read_level) refl in
          cc)
      | inr (k, read) ↦
          let l : read_level p root s entry attribute low high ≡ some (pos_part k) =
            rw (read, read_level) refl in
          let same : pos_part k ≡ n = cc in
          let bound =
            int_of-le p (pos low) high (read_text p.decode s root entry attribute 64) k read in
          omega arith
    ]
