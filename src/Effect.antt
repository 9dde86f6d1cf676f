-- ===== src/Effect.antt =====
-- Python code that may raise: pure (`Result`), and over a state that keeps what was written
-- before the exception (`Exec`).
pub mod Raises
pub mod Keeps
pub mod Gives
pub mod Zoom
pub mod Takes
pub use Raises.{status_of, Error, http, client_error, crash, out_of_fuel, Result, ok, err}
use Prim.{Unit, tt}
use fresh_stackable_data_pla.Prelude.{
  refl, ap, arith, ◌⊎◌, inl, inr, ℕ, Bool, true, false, String, ◌≡◌, Option, none, some, List, [],
  ◌∷◌,
}

pub data Outcome {ℓ κ} (S : Type ℓ) (A : Type κ) : Type (ℓ ⊔ κ) where
  returned : A → S → Outcome S A
  raised : Error → S → Outcome S A

abbrev pub Exec {ℓ κ} : Type ℓ → Type κ → Type (ℓ ⊔ κ)
Exec S A = S → Outcome S A

-- The state after a call.
abbrev pub final {ℓ κ} : {S : Type ℓ} {A : Type κ} → Outcome S A → S
final (returned a s) = s
final (raised e s) = s

module _ {ℓ κ} {S : Type ℓ} {A : Type κ} where
  unfoldable pub pure : A → Exec S A
  pure a s = returned a s

  unfoldable pub raise : Error → Exec S A
  raise e s = raised e s

  unfoldable pub lift : Result A → Exec S A
  lift (ok a) s = returned a s
  lift (err e) s = raised e s

  unfoldable pub gets : (S → A) → Exec S A
  gets f s = returned (f s) s

abbrev pub continue {ℓ κ μ} :
    {S : Type ℓ} {A : Type κ} {B : Type μ} → (A → Exec S B) → Outcome S A → Outcome S B
continue f (returned a s) = f a s
continue f (raised e s) = raised e s

unfoldable pub modify {ℓ} : {S : Type ℓ} → (S → S) → Exec S (Unit {0})
modify f s = returned tt (f s)

infixl 5 ◌>>=◌ ◌>>◌
-- Opening this opens `pure`, `raise`, `lift` and `gets` too.
unfoldable pub ◌>>=◌ {ℓ κ μ} :
    {S : Type ℓ} {A : Type κ} {B : Type μ} → Exec S A → (A → Exec S B) → Exec S B
unfolding pure raise lift gets modify
◌>>=◌ m f s = continue f (m s)

abbrev pub ◌>>◌ {ℓ κ μ} : {S : Type ℓ} {A : Type κ} {B : Type μ} → Exec S A → Exec S B → Exec S B
m >> k = m >>= λ _. k

-- Inversion of a chain that returned, for a proof that goes on with what the first part returned.
module _ {ℓ κ μ ν} {S : Type ℓ} {A : Type κ} {B : Type μ} {C : Type ν} where
  continue_inspect :
      (f : A → Exec S B) (o : Outcome S A) {b : B} {t : S}
      → continue f o ≡ returned b t
      → ((a : A) (s : S) → o ≡ returned a s → f a s ≡ returned b t → C)
      → C
  continue_inspect f (returned a s) h k = k a s refl h
  continue_inspect f (raised e s) h k = absurd (cc)

  pub >>=-inspect :
      (m : Exec S A) (f : A → Exec S B) (s : S) {b : B} {t : S}
      → (m >>= f) s ≡ returned b t
      → ((a : A) (u : S) → m s ≡ returned a u → f a u ≡ returned b t → C)
      → C
  unfolding ◌>>=◌
  >>=-inspect m f s h k = continue_inspect f (m s) h k

module _ {ℓ κ ν} {S : Type ℓ} {A : Type κ} {C : Type ν} where
  pub lift-inspect :
      (r : Result A) (s : S) {a : A} {t : S} → lift r s ≡ returned a t → (r ≡ ok a → s ≡ t → C) → C
  unfolding lift
  lift-inspect (ok a) s h k = k (ground arith) (ground arith)
  lift-inspect (err e) s h k = absurd (cc)

-- The steps of a chain, whose parts are known.
module _ {ℓ κ μ} {S : Type ℓ} {A : Type κ} {B : Type μ} where
  pub >>=-returned :
      (m : Exec S A) (f : A → Exec S B) {s t : S} {a : A} → m s ≡ returned a t → (m >>= f) s ≡ f a t
  unfolding ◌>>=◌
  >>=-returned m f h = ap (continue f) h

  pub lift-ok :
      {r : Result A} (f : A → Exec S B) {s : S} {a : A} → r ≡ ok a → (lift r >>= f) s ≡ f a s
  unfolding ◌>>=◌ lift
  lift-ok f {s} h = ap (λ q. continue f (lift q s)) h

abbrev pub put_back {ℓ κ μ} :
    {S : Type ℓ} {T : Type κ} {A : Type μ} → (T → S → S) → Outcome T A → S → Outcome S A
put_back set (returned a t) s = returned a (set t s)
put_back set (raised e t) s = raised e (set t s)

-- A call on a part of the state.
unfoldable pub zoom {ℓ κ μ} :
    {S : Type ℓ} {T : Type κ} {A : Type μ} → (S → T) → (T → S → S) → Exec T A → Exec S A
zoom get set m s = put_back set (m (get s)) s

-- The rest of a program where a value may be missing: first what happens without it.
unfoldable pub per_option {ℓ κ μ} :
    {S : Type ℓ} {A : Type κ} {B : Type μ} → Exec S B → (A → Exec S B) → Option A → Exec S B
per_option m f none = m
per_option m f (some a) = f a
