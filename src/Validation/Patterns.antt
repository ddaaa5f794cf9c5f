-- ===== src/Validation/Patterns.antt =====
-- The regular expressions of validation.py under `fullmatch`, each as a walk over the text. Every
-- class is ASCII, and no class holds the character that follows it, so each match is forced.
use Prim.Native.Char.{code}
use msys_hal.Prelude.{
  ℕ, zero, suc, String, Bool, true, false, ◌&&◌, ◌||◌, leb, ◌==◌, nat_eq, if◌then◌else◌, len,
  all_chars, before, after, Option, none, some,
}

abbrev pub is_lower : ℕ → Bool
is_lower c = leb b'a' c && leb c b'z'

abbrev pub is_upper : ℕ → Bool
is_upper c = leb b'A' c && leb c b'Z'

abbrev pub is_digit : ℕ → Bool
is_digit c = leb b'0' c && leb c b'9'

abbrev pub is_alnum : ℕ → Bool
is_alnum c = is_upper c || is_lower c || is_digit c

-- `^[first][rest]{0,n}$`
abbrev pub head_tail : (ℕ → Bool) → (ℕ → Bool) → ℕ → String → Bool
head_tail first rest n String.[] = false
head_tail first rest n (String.◌∷◌ c s) = first (code c) && (all_chars rest s && leb (len s) n)

-- `^[first][rest]*$`
abbrev pub head_any : (ℕ → Bool) → (ℕ → Bool) → String → Bool
head_any first rest String.[] = false
head_any first rest (String.◌∷◌ c s) = first (code c) && all_chars rest s

abbrev pub domain_char : ℕ → Bool
domain_char c = is_lower c || is_digit c || c == b'.' || c == b'-'

-- `DOMAIN_RE`
unfoldable pub domain_re : String → Bool
domain_re s = head_tail is_lower domain_char 63 s

-- What `DEVICE_ID_RE` asks behind the colon.
abbrev pub device_name : String → Bool
device_name s = head_tail is_alnum (λ c. is_alnum c || c == b'.' || c == b'_' || c == b'-') 127 s

-- `DEVICE_ID_RE`: no colon stands in either class, so the first colon divides the text.
unfoldable pub device_id_re : String → Bool
unfolding domain_re
device_id_re s = elim (after b':' s) [
  | none ↦ false
  | some name ↦ domain_re (before b':' s) && device_name name
]

-- `[a-z0-9][a-z0-9_-]*(?:\.[a-z0-9][a-z0-9_-]*)+`: at the start of a label, and with a dot seen.
package_labels : Bool → Bool → String → Bool
package_labels true dotted String.[] = false
package_labels false dotted String.[] = dotted
package_labels true dotted (String.◌∷◌ c s) =
    (is_lower (code c) || is_digit (code c)) && package_labels false dotted s
package_labels false dotted (String.◌∷◌ c s) =
    let next = package_labels true true s in
    let same = package_labels false dotted s in
    let inside = is_lower (code c) || is_digit (code c) || code c == b'_' || code c == b'-' in
    if code c == b'.' then next else inside && same

-- `COMPONENT_RE`
unfoldable pub component_re : String → Bool
unfolding package_labels
component_re s = elim (after b':' s) [
  | none ↦ false
  | some name ↦
      package_labels true false (before b':' s)
      && head_any is_lower (λ c. is_lower c || is_digit c || c == b'.' || c == b'_' || c == b'-')
          name
]

-- `FIELD_RE`
unfoldable pub field_re : String → Bool
field_re s = head_tail is_lower (λ c. is_lower c || is_digit c || c == b'_') 63 s

-- `CAPABILITY_RE`
unfoldable pub capability_re : String → Bool
capability_re s = head_tail is_lower domain_char 127 s

-- Where the match of `SEMVER_RE` stands: in a number, with the dots to come and whether a digit was
-- seen; behind `-`; behind `+`; the flag says that a character was seen there.
pub data VersionPart : Type 0 where
  number : ℕ → Bool → VersionPart
  prerelease : Bool → VersionPart
  build : Bool → VersionPart

version_tail : ℕ → Bool
version_tail c = is_alnum c || c == b'.' || c == b'-'

version_step : VersionPart → ℕ → Option VersionPart
unfolding version_tail
version_step (number dots false) c = if is_digit c then some (number dots true) else none
version_step (number (suc dots) true) c =
    if is_digit c
    then some (number (suc dots) true)
    else if c == b'.'
    then some (number dots false)
    else none
version_step (number zero true) c =
    if is_digit c
    then some (number zero true)
    else if c == b'-'
    then some (prerelease false)
    else if c == b'+'
    then some (build false)
    else none
version_step (prerelease seen) c =
    if version_tail c
    then some (prerelease true)
    else if seen && c == b'+'
    then some (build false)
    else none
version_step (build seen) c = if version_tail c then some (build true) else none

version_walk : Option VersionPart → String → Bool
version_walk none s = false
version_walk (some (number zero seen)) String.[] = seen
version_walk (some (number (suc dots) seen)) String.[] = false
version_walk (some (prerelease seen)) String.[] = seen
version_walk (some (build seen)) String.[] = seen
version_walk (some part) (String.◌∷◌ c s) = version_walk (version_step part (code c)) s

-- `SEMVER_RE`
unfoldable pub semver_re : String → Bool
unfolding version_walk version_step
semver_re s = version_walk (some (number 2 false)) s
