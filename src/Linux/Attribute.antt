-- ===== src/Linux/Attribute.antt =====
-- `_is_writable` and `_safe_write` of `BacklightBackend` in linux.py: the brightness of an entry.
pub mod Cases
use msys_hal.Prelude.{
  ℕ, ◌+◌, ◌/◌, ◌%◌, ◌-◌, String, Bool, true, false, ◌&&◌, ◌||◌, Option, none, some, List, [], ◌∷◌,
  ◌++◌, prefix, decimal, length, ◌==◌, string_eq, nat_eq, if◌then◌else◌,
}
use Prim.Native.Char.{code}
use msys_hal.Json.{str, field, end}
use msys_hal.Json.Int.{pos, pos_part}
use msys_hal.Errors.{Result, err, ◌>>◌, require, unavailable_error, read_only_error, provider_error}
use msys_hal.Action.{Action}
use msys_hal.Linux.{Sysfs, Decoder, read_int}

-- How `os.open`, `os.write` and `os.close` end: with the number of bytes written, with a
-- `PermissionError`, or with another `OSError`, by its text.
pub data Written : Type 0 where
  wrote : ℕ → Written
  denied : Written
  failed : String → Written

-- The surroundings: UTF-8, `repr` of a text, and a write to a resolved path, after which the driver
-- has changed what sysfs says in any way.
pub record Platform : Type 0 where
  pub decode : Decoder
  pub repr : String → String
  pub write : List String → List ℕ → Sysfs → Written × Sysfs

abbrev pub codes : String → List ℕ
codes String.[] = []
codes (String.◌∷◌ c s) = code c ∷ codes s

-- `path == root or root in path.parents`
abbrev pub is_below : List String → List String → Bool
is_below path [] = true
is_below [] (r ∷ root) = false
is_below (p ∷ path) (r ∷ root) = p == r && is_below path root

-- `path.name`
abbrev pub file_name : List String → String
file_name [] = ""
file_name (p ∷ []) = p
file_name (p ∷ q ∷ path) = file_name (q ∷ path)

-- `f"{value}\n".encode("ascii")`
abbrev pub line_of : ℕ → List ℕ
line_of value = codes (decimal value) ++ 10 ∷ []

-- `mode & (stat.S_IWUSR | stat.S_IWGRP | stat.S_IWOTH)`: the bits 7, 4 and 1.
has_write_bit : ℕ → Bool
has_write_bit mode = mode / 128 % 2 == 1 || mode / 16 % 2 == 1 || mode / 2 % 2 == 1

module _ (p : Platform) (root : String) where
  -- `_read_int` with bounds that leave no negative number.
  unfoldable pub read_level : Sysfs → String → String → ℕ → ℕ → Option ℕ
  read_level s entry attribute minimum maximum =
      elim (read_int p.decode s root entry attribute (pos minimum) (pos maximum)) [
        | none ↦ none
        | some n ↦ some (pos_part n)
      ]

  -- `_is_writable` of the brightness of an entry.
  unfoldable pub is_writable : Sysfs → String → Bool
  unfolding has_write_bit
  is_writable s entry = elim (s.target root entry "brightness") [
    | none ↦ false
    | some path ↦ elim (s.mode path) [
      | none ↦ false
      | some mode ↦ has_write_bit mode && s.access path
    ]
  ]

  -- Whether a write to the resolved attribute is let through.
  unfoldable pub is_allowed : List String → List String → Bool
  is_allowed root_path path =
      (if root == "/sys/class/backlight"
        then is_below path ("sys" ∷ "devices" ∷ [])
        else is_below path root_path)
      && file_name path == "brightness"

  write_outcome : ℕ → Written → Result (Unit {0})
  write_outcome size denied = err (read_only_error "backlight brightness is read-only" end)
  write_outcome size (failed text) =
      err (provider_error "backlight write failed" (field "error" (str (prefix 256 text)) end))
  write_outcome size (wrote n) =
      require (n == size)
        (provider_error "backlight write failed" (field "error" (str "short sysfs write") end))

  attempt_write : ℕ → Written × Sysfs → Result (Unit {0}) × Sysfs
  unfolding write_outcome
  attempt_write size (written, s) = (write_outcome size written, s)

  write_allowed : List String → List String → ℕ → Action Sysfs (Unit {0})
  unfolding attempt_write
  write_allowed root_path path value s =
      if is_allowed root_path path
      then attempt_write (length (line_of value)) (p.write path (line_of value) s)
      else (
        err (provider_error "refusing backlight write outside the validated sysfs attribute" end),
        s,
      )

  resolved_write : Option (List String) → Option (List String) → ℕ → Action Sysfs (Unit {0})
  unfolding write_allowed
  resolved_write (some path) (some root_path) value s = write_allowed root_path path value s
  resolved_write path root_path value s =
      (err (unavailable_error "backlight attribute is unavailable" end), s)

  -- `_safe_write`
  unfoldable pub safe_write : String → ℕ → Action Sysfs (Unit {0})
  unfolding resolved_write
  safe_write entry value s =
      resolved_write (s.target root entry "brightness") (s.root_target root) value s
