-- ===== src/Core/Errors.antt =====
-- The exceptions that the modelled code raises, with the texts that its callers can tell apart, and
-- the results of code that may raise.
use ptf.Prelude.{String, Bool, true, false, ◌≡◌, refl, ◌⊎◌, inl, inr}

pub data Error : Type 0 where
  lookup_error : String → Error  -- `LookupError`
  value_error : String → Error  -- `ValueError`
  type_error : String → Error  -- `TypeError`
  assertion_error : Error  -- a failed `assert`
  runtime_error : String → Error  -- `RuntimeError`
  timeout_error : Error  -- `TimeoutError`
  registration_error : String → Error  -- registry.py `RegistrationError`
  invariant_violation : String → Error  -- core/errors.py `InvariantViolationError`
  planning_drift : String → Error  -- core/errors.py `PlanningDriftError`
  cancellation_error : String → Error  -- core/lifecycle.py `CancellationError`
  invalid_identifier : String → Error  -- core/errors.py `InvalidIdentifierError`
  unsupported_version : Error  -- core/errors.py `UnsupportedVersionError`
  configuration_error : String → Error  -- core/config.py `ConfigurationError`
  unique_violation : Error  -- PostgreSQL, on a duplicate key
  foreign_key_violation : Error  -- PostgreSQL, on a missing parent row

pub data Result {ℓ} (A : Type ℓ) : Type ℓ where
  ok : A → Result A
  err : Error → Result A

-- `if not test: raise e`
abbrev pub require : Bool → Error → Result (Unit {0})
require false e = err e
require true e = ok tt

-- Code that returns a value or raises, and changes no state.
infixl 5 ◌>>=◌ ◌>>◌
abbrev pub ◌>>=◌ {ℓ κ} : {A : Type ℓ} {B : Type κ} → Result A → (A → Result B) → Result B
err raised >>= next = err raised
ok value >>= next = next value

abbrev pub ◌>>◌ {ℓ} : {B : Type ℓ} → Result (Unit {0}) → Result B → Result B
first >> second = first >>= λ done. second

pub Result-cases {ℓ} :
    {A : Type ℓ} (r : Result A) → ((a : A) × (r ≡ ok a)) ⊎ ((e : Error) × (r ≡ err e))
Result-cases (ok a) = inl (a, refl)
Result-cases (err e) = inr (e, refl)

-- what a chain that returned went through
pub >>=-eq-ok {ℓ κ} :
    {A : Type ℓ} {B : Type κ} (m : Result A) (next : A → Result B) {b : B}
    → (m >>= next) ≡ ok b
    → (a : A) × (m ≡ ok a) × (next a ≡ ok b)
>>=-eq-ok (ok a) next e = (a, refl, e)
>>=-eq-ok (err raised) next e = absurd (cc)

pub require-eq-ok {ℓ} :
    {B : Type ℓ} (test : Bool) (raised : Error) (next : Result B) {b : B}
    → (require test raised >> next) ≡ ok b
    → (test ≡ true) × (next ≡ ok b)
require-eq-ok true raised next e = (refl, e)
require-eq-ok false raised next e = absurd (cc)
