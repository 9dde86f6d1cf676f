-- ===== src/Effect/Keeps.antt =====
-- What a call keeps of the state, whether it returns or raises.
use fresh_stackable_data_pla.Prelude.{
  ◌≡◌, refl, Option, none, some, Bool, true, false, if◌then◌else◌,
}
use fresh_stackable_data_pla.Effect.{
  Result, ok, err, Error, Outcome, returned, raised, Exec, final, continue, pure, raise, lift, gets,
  modify, per_option, ◌>>=◌,
}

pub record Keeps {ℓ κ μ} {S : Type ℓ} {A : Type κ} (P : S → Type μ) (m : Exec S A)
    : Type (ℓ ⊔ μ) where
  pub at : (s : S) → P s → P (final (m s))

module _ {ℓ κ μ ν} {S : Type ℓ} {A : Type κ} {B : Type ν} {P : S → Type μ} where
  continue-Keeps :
      (f : A → Exec S B) (o : Outcome S A)
      → ((a : A) → Keeps P (f a))
      → P (final o)
      → P (final (continue f o))
  continue-Keeps f (returned a s) k h = (k a).at s h
  continue-Keeps f (raised e s) k h = h

  -- A chain keeps what its parts keep.
  pub >>=-Keeps :
      {m : Exec S A} {f : A → Exec S B} → Keeps P m → ((a : A) → Keeps P (f a)) → Keeps P (m >>= f)
  unfolding ◌>>=◌
  >>=-Keeps {m} {f} km kf = record { at = λ s h. continue-Keeps f (m s) kf (km.at s h) }

module _ {ℓ κ μ} {S : Type ℓ} {A : Type κ} {P : S → Type μ} where
  pub pure-Keeps : (a : A) → Keeps P (pure {S = S} a)
  unfolding pure
  pure-Keeps a = record { at = λ s h. h }

  pub raise-Keeps : (e : Error) → Keeps P (raise {S = S} {A = A} e)
  unfolding raise
  raise-Keeps e = record { at = λ s h. h }

  pub lift-Keeps : (r : Result A) → Keeps P (lift {S = S} r)
  unfolding lift
  lift-Keeps (ok a) = record { at = λ s h. h }
  lift-Keeps (err e) = record { at = λ s h. h }

  pub gets-Keeps : (f : S → A) → Keeps P (gets f)
  unfolding gets
  gets-Keeps f = record { at = λ s h. h }

  pub if-Keeps : (b : Bool) {m n : Exec S A} → Keeps P m → Keeps P n → Keeps P (if b then m else n)
  if-Keeps true k l = k
  if-Keeps false k l = l

module _ {ℓ μ} {S : Type ℓ} {P : S → Type μ} where
  pub modify-Keeps : (f : S → S) → ((s : S) → P s → P (f s)) → Keeps P (modify f)
  unfolding modify
  modify-Keeps f k = record { at = k }

module _ {ℓ κ μ ν} {S : Type ℓ} {A : Type κ} {B : Type ν} {P : S → Type μ} where
  pub per_option-Keeps :
      (o : Option A) {m : Exec S B} {f : A → Exec S B}
      → Keeps P m
      → ((a : A) → Keeps P (f a))
      → Keeps P (per_option m f o)
  unfolding per_option
  per_option-Keeps none k l = k
  per_option-Keeps (some a) k l = l a

pub ruleset keeps =
    (>>=-Keeps, pure-Keeps, raise-Keeps, lift-Keeps, gets-Keeps, if-Keeps, per_option-Keeps)

-- What follows a pure part, which knows the value that was returned.
pub lift->>=-Keeps {ℓ κ μ ν} :
    {S : Type ℓ} {A : Type κ} {B : Type ν} {P : S → Type μ} (r : Result A) {f : A → Exec S B}
    → ((a : A) → r ≡ ok a → Keeps P (f a))
    → Keeps P (lift r >>= f)
unfolding ◌>>=◌
lift->>=-Keeps (ok a) k = record { at = λ s h. (k a refl).at s h }
lift->>=-Keeps (err e) k = record { at = λ s h. h }
