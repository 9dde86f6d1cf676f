-- ===== src/Effect/Raises.antt =====
-- Exceptions as values, and pure code that may raise.
use Prim.{Unit, tt}
use fresh_stackable_data_pla.Prelude.{◌⊎◌, inl, inr, ℕ, Bool, true, false, String, ◌≡◌, refl}

pub data Error : Type 0 where
  -- `HTTPException(status_code, detail)`; of an interpolated detail only the fixed part.
  http : ℕ → String → Error
  -- An error of the HTTP client: no answer, or `raise_for_status`.
  client_error : Error
  -- Any other exception: a missing key, a method that a value lacks.
  crash : Error
  -- No exception of the program: the bound that a model puts on a loop was reached.
  out_of_fuel : Error

-- The status of an answer that FastAPI makes of the exception.
abbrev pub status_of : Error → ℕ
status_of (http status detail) = status
status_of client_error = 500
status_of crash = 500
status_of out_of_fuel = 500

pub data Result {ℓ} (A : Type ℓ) : Type ℓ where
  ok : A → Result A
  err : Error → Result A

-- What follows a pure part, if that did not raise.
infixl 5 ◌>>=◌ ◌>>◌
abbrev pub ◌>>=◌ {ℓ κ} : {A : Type ℓ} {B : Type κ} → Result A → (A → Result B) → Result B
err failure >>= next = err failure
ok value >>= next = next value

abbrev pub ◌>>◌ {ℓ κ} : {A : Type ℓ} {B : Type κ} → Result A → Result B → Result B
first >> next = first >>= λ _. next

-- `if not b: raise e`
abbrev pub guard : Bool → Error → Result (Unit {0})
guard false failure = err failure
guard true failure = ok tt

pub guard-ok : (b : Bool) (e : Error) → guard b e ≡ ok tt → b ≡ true
guard-ok true e h = refl
guard-ok false e h = cc

-- Inversion of a chain that returned, for a proof that goes on with what its first part returned.
pub >>=-inspect {ℓ κ μ} :
    {A : Type ℓ} {B : Type κ} {C : Type μ} (m : Result A) (f : A → Result B) {b : B}
    → (m >>= f) ≡ ok b
    → ((a : A) → m ≡ ok a → f a ≡ ok b → C)
    → C
>>=-inspect (ok a) f h k = k a refl h
>>=-inspect (err e) f h k = absurd (cc)

pub Result-cases {ℓ} :
    {A : Type ℓ} (r : Result A) → ((e : Error) × (r ≡ err e)) ⊎ ((a : A) × (r ≡ ok a))
Result-cases (ok a) = inr (a, refl)
Result-cases (err e) = inl (e, refl)
