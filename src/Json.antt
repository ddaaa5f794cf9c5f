-- ===== src/Json.antt =====
-- The JSON values that the Python code handles: what `json.loads` returns.
pub mod Int
use msys_hal.Prelude.{
  ℕ, suc, String, Bool, true, false, Option, none, some, List, [], ◌∷◌, ◌==◌, string_eq,
  if◌then◌else◌, unique, ◌≡◌, ap, eq_iff,
}
use Int.{ℤ}

-- A float is given by the answer of `math.isfinite` and the text that `repr` prints for it.
-- A dict is its list of entries in insertion order; its keys are texts, as JSON has them.
mutual
  pub data Value : Type 0 where
    null : Value
    bool : Bool → Value
    int : ℤ → Value
    float : Bool → String → Value
    str : String → Value
    obj : Fields → Value
    arr : Items → Value

  -- The entries of a dict.
  pub data Fields : Type 0 where
    field : (key : String) (value : Value) (rest : Fields) → Fields
    end : Fields

  -- The members of a list.
  pub data Items : Type 0 where
    cons : (head : Value) (rest : Items) → Items
    nil : Items

-- `value.get(key)` of a dict
abbrev pub get_field : String → Fields → Option Value
get_field k end = none
get_field k (field j v fs) = if j == k then some v else get_field k fs

-- `value[key]` after `object_payload` has seen that the key is there
abbrev pub field_or : Value → String → Fields → Value
field_or d k fs = elim (get_field k fs) [ none ↦ d | some v ↦ v ]

abbrev pub keys : Fields → List String
keys end = []
keys (field k v fs) = k ∷ keys fs

abbrev pub count_fields : Fields → ℕ
count_fields end = 0
count_fields (field k v fs) = suc (count_fields fs)

abbrev pub count_items : Items → ℕ
count_items nil = 0
count_items (cons v vs) = suc (count_items vs)

abbrev pub items : Items → List Value
items nil = []
items (cons v vs) = v ∷ items vs

abbrev pub from_items : List Value → Items
from_items [] = nil
from_items (v ∷ vs) = cons v (from_items vs)

abbrev pub texts : List String → Items
texts [] = nil
texts (s ∷ rest) = cons (str s) (texts rest)

-- `value == text` for a value of any type
abbrev pub is_text : String → Value → Bool
is_text s (str t) = t == s
is_text s null = false
is_text s (bool b) = false
is_text s (int n) = false
is_text s (float f t) = false
is_text s (arr vs) = false
is_text s (obj fs) = false

-- The one value that is equal to a text is that text.
pub is_text-str : (t : String) (v : Value) → is_text t v ≡ true → v ≡ str t
is_text-str t (str s) h = ap str ((eq_iff s t).0 h)
is_text-str t _ h = absurd cc
