-- ===== src/Errors.antt =====
-- errors.py: the typed errors, and the other exceptions that the code lets through. A function that
-- may raise and changes no state returns a `Result`.
use msys_hal.Prelude.{String, ◌≡◌, refl, ◌⊎◌, inl, inr, Bool, true, false}
use msys_hal.Json.{Fields}

pub record HalError : Type 0 where
  pub code : String
  pub message : String
  pub details : Fields

-- `python` is any other exception: the name of its class, and its text.
pub data Exception : Type 0 where
  hal : HalError → Exception
  python : String → String → Exception

abbrev pub hal_error : String → String → Fields → Exception
hal_error code message details = hal (record { code = code; message = message; details = details })

abbrev pub validation_error : String → Fields → Exception
validation_error message details = hal_error "HAL_BAD_PAYLOAD" message details

abbrev pub unavailable_error : String → Fields → Exception
unavailable_error message details = hal_error "HAL_UNAVAILABLE" message details

abbrev pub read_only_error : String → Fields → Exception
read_only_error message details = hal_error "HAL_READ_ONLY" message details

abbrev pub provider_error : String → Fields → Exception
provider_error message details = hal_error "HAL_PROVIDER_ERROR" message details

abbrev pub persistence_error : String → Fields → Exception
persistence_error message details = hal_error "HAL_PERSISTENCE_ERROR" message details

abbrev pub conflict_error : String → Fields → Exception
conflict_error message details = hal_error "HAL_CONFLICT" message details

-- `exc.code if isinstance(exc, HalError) else "HAL_PROVIDER_ERROR"`
abbrev pub error_code : Exception → String
error_code (hal e) = e.code
error_code (python name text) = "HAL_PROVIDER_ERROR"

-- `str(exc)`
abbrev pub error_text : Exception → String
error_text (hal e) = e.message
error_text (python name text) = text

pub data Result {ℓ} (A : Type ℓ) : Type ℓ where
  ok : A → Result A
  err : Exception → Result A

module _ {ℓ κ} {A : Type ℓ} {B : Type κ} where
  infixl 5 ◌>>=◌ ◌>>◌
  -- What follows is skipped once an exception is raised.
  abbrev pub ◌>>=◌ : Result A → (A → Result B) → Result B
  err raised >>= next = err raised
  ok value >>= next = next value

  abbrev pub ◌>>◌ : Result A → Result B → Result B
  first >> second = first >>= λ _. second

  -- A chain that returned: its first part returned, and so did the rest.
  pub >>=-eq-ok :
      (first : Result A) (next : A → Result B) {answer : B}
      → (first >>= next) ≡ ok answer
      → (value : A) × (first ≡ ok value) × (next value ≡ ok answer)
  >>=-eq-ok (err raised) next h = cc
  >>=-eq-ok (ok value) next h = (value, refl, h)

-- `if not test: raise exception`
abbrev pub require : Bool → Exception → Result (Unit {0})
require true e = ok tt
require false e = err e

pub require-eq-ok : (b : Bool) (e : Exception) {u : Unit {0}} → require b e ≡ ok u → b ≡ true
require-eq-ok true e h = refl
require-eq-ok false e h = cc

pub Result-cases {ℓ} :
    {A : Type ℓ} (r : Result A) → ((a : A) × (r ≡ ok a)) ⊎ ((e : Exception) × (r ≡ err e))
Result-cases (ok a) = inl (a, refl)
Result-cases (err e) = inr (e, refl)
