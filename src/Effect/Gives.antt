-- ===== src/Effect/Gives.antt =====
-- What a call keeps of the state, and what holds of the value that it returns.
use Prim.{Unit, tt}
use mathlib.Core.Path.{subst}
use fresh_stackable_data_pla.Prelude.{◌≡◌, refl, Bool, true, false, if◌then◌else◌}
use fresh_stackable_data_pla.Effect.{
  Result, ok, err, Error, Outcome, returned, raised, Exec, final, continue, gets, pure, raise, lift,
  ◌>>=◌,
}
use fresh_stackable_data_pla.Effect.Keeps.{Keeps}

module _ {S A : Type 0} (P : S → Type 0) (Q : A → Type 0) where
  abbrev pub Holds : Outcome S A → Type 0
  Holds (returned a s) = P s × Q a
  Holds (raised e s) = P s

  pub record Gives (m : Exec S A) : Type 0 where
    pub at : (s : S) → P s → Holds (m s)

-- What is known after a call that returned.
pub Gives-returned :
    {S A : Type 0} {P : S → Type 0} {Q : A → Type 0} {m : Exec S A}
    → Gives P Q m
    → (s : S) → P s
    → {a : A} {t : S} → m s ≡ returned a t
    → P t × Q a
Gives-returned {P} {Q} g s p e = subst (Holds P Q) e (g.at s p)

then_gets-Holds :
    {S A B : Type 0} {P : S → Type 0} (Q : A → Type 0) (g : S → A) (o : Outcome S B)
    → ((s : S) → P s → Q (g s))
    → P (final o)
    → Holds P Q (continue (λ b. gets g) o)
unfolding gets
then_gets-Holds Q g (returned b s) k p = (p, k s p)
then_gets-Holds Q g (raised e s) k p = p

module _ {S A B : Type 0} {P : S → Type 0} {Q : A → Type 0} where
  continue-Holds :
      (f : A → Exec S B) (o : Outcome S A)
      → ((a : A) → Q a → Keeps P (f a))
      → Holds P Q o
      → P (final (continue f o))
  continue-Holds f (returned a s) k (p, q) = (k a q).at s p
  continue-Holds f (raised e s) k p = p

  -- A chain whose first part gives what the rest needs.
  pub Gives->>=-Keeps :
      {m : Exec S A} {f : A → Exec S B}
      → Gives P Q m
      → ((a : A) → Q a → Keeps P (f a))
      → Keeps P (m >>= f)
  unfolding ◌>>=◌
  Gives->>=-Keeps {m} {f} g k = record { at = λ s p. continue-Holds f (m s) k (g.at s p) }

  -- A chain that ends in reading the state.
  pub gets-Gives :
      {m : Exec S B} (g : S → A)
      → Keeps P m
      → ((s : S) → P s → Q (g s))
      → Gives P Q (m >>= λ b. gets g)
  unfolding ◌>>=◌
  gets-Gives {m} g km k = record { at = λ s p. then_gets-Holds Q g (m s) k (km.at s p) }

  -- A chain that begins with reading the state.
  pub gets_then-Gives :
      {f : B → Exec S A} (h : S → B) → ((b : B) → Gives P Q (f b)) → Gives P Q (gets h >>= f)
  unfolding ◌>>=◌
  gets_then-Gives h k = record { at = λ s p. (k (h s)).at s p }

module _ {S A : Type 0} {P : S → Type 0} {Q : A → Type 0} where
  pub pure-Gives : (a : A) → Q a → Gives P Q (pure a)
  unfolding pure
  pure-Gives a q = record { at = λ s p. (p, q) }

  pub raise-Gives : (e : Error) → Gives P Q (raise e)
  unfolding raise
  raise-Gives e = record { at = λ s p. p }

  pub lift-Gives : (r : Result A) → ((a : A) → r ≡ ok a → Q a) → Gives P Q (lift r)
  unfolding lift
  lift-Gives (ok a) q = record { at = λ s p. (p, q a refl) }
  lift-Gives (err e) q = record { at = λ s p. p }

  pub if-Gives :
      (b : Bool) {m n : Exec S A}
      → (b ≡ true → Gives P Q m)
      → (b ≡ false → Gives P Q n)
      → Gives P Q (if b then m else n)
  if-Gives true k l = k refl
  if-Gives false k l = l refl

module _ {S A B : Type 0} {P : S → Type 0} {Q : A → Type 0} {R : B → Type 0} where
  continue-Gives :
      (f : A → Exec S B) (o : Outcome S A)
      → ((a : A) → Q a → Gives P R (f a))
      → Holds P Q o
      → Holds P R (continue f o)
  continue-Gives f (returned a s) k (p, q) = (k a q).at s p
  continue-Gives f (raised e s) k p = p

  -- A chain gives what its last part gives, from what its first part gives.
  pub >>=-Gives :
      {m : Exec S A} {f : A → Exec S B}
      → Gives P Q m
      → ((a : A) → Q a → Gives P R (f a))
      → Gives P R (m >>= f)
  unfolding ◌>>=◌
  >>=-Gives {m} {f} g k = record { at = λ s p. continue-Gives f (m s) k (g.at s p) }

keeps_Holds :
    {S A : Type 0} (P : S → Type 0) (o : Outcome S A) → P (final o) → Holds P (λ a. Unit {0}) o
keeps_Holds P (returned a s) p = (p, tt)
keeps_Holds P (raised e s) p = p

module _ {S A B : Type 0} {P : S → Type 0} {R : B → Type 0} where
  -- A first part of which only the state matters.
  pub Keeps->>=-Gives :
      {m : Exec S A} {f : A → Exec S B}
      → Keeps P m
      → ((a : A) → Gives P R (f a))
      → Gives P R (m >>= f)
  Keeps->>=-Gives {m} k g =
      >>=-Gives (record { at = λ s p. keeps_Holds P (m s) (k.at s p) }) λ a _. g a

  pub lift->>=-Gives :
      (r : Result A) {f : A → Exec S B}
      → ((a : A) → r ≡ ok a → Gives P R (f a))
      → Gives P R (lift r >>= f)
  lift->>=-Gives r k = >>=-Gives (lift-Gives {Q = λ a. r ≡ ok a} r λ a e. e) k
