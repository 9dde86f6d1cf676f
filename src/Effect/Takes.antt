-- ===== src/Effect/Takes.antt =====
-- What holds after a call, whether it returns or raises, of a state of which something held before.
use fresh_stackable_data_pla.Prelude.{◌≡◌, refl, Bool, true, false, if◌then◌else◌}
use fresh_stackable_data_pla.Effect.{Result, ok, err, Exec, final, pure, lift, gets, modify, ◌>>=◌}
use fresh_stackable_data_pla.Effect.Keeps.{Keeps}

pub record Takes {S A : Type 0} (P R : S → Type 0) (m : Exec S A) : Type 0 where
  pub at : (s : S) → P s → R (final (m s))

pub Takes-Keeps : {S A : Type 0} {P : S → Type 0} {m : Exec S A} → Takes P P m → Keeps P m
Takes-Keeps t = record { at = t.at }

module _ {S : Type 0} {P R : S → Type 0} where
  pub pure-Takes : {A : Type 0} (a : A) → ((s : S) → P s → R s) → Takes P R (pure {S = S} a)
  unfolding pure
  pure-Takes a k = record { at = k }

  pub modify-Takes : (f : S → S) → ((s : S) → P s → R (f s)) → Takes P R (modify f)
  unfolding modify
  modify-Takes f k = record { at = k }

  pub if-Takes :
      {A : Type 0} (b : Bool) {m n : Exec S A}
      → (b ≡ true → Takes P R m)
      → (b ≡ false → Takes P R n)
      → Takes P R (if b then m else n)
  if-Takes true k l = k refl
  if-Takes false k l = l refl

  -- A pure part that may raise comes first.
  pub lift->>=-Takes :
      {A B : Type 0} (r : Result A) {f : A → Exec S B}
      → ((s : S) → P s → R s)
      → ((a : A) → Takes P R (f a))
      → Takes P R (lift r >>= f)
  unfolding ◌>>=◌
  lift->>=-Takes (ok a) w k = record { at = λ s p. (k a).at s p }
  lift->>=-Takes (err e) w k = record { at = w }

  -- The rest knows what was read of the state.
  pub gets->>=-Takes :
      {A B : Type 0} (g : S → A) {f : A → Exec S B}
      → ((a : A) → Takes (λ s. P s × (g s ≡ a)) R (f a))
      → Takes P R (gets g >>= f)
  unfolding ◌>>=◌
  gets->>=-Takes g k = record { at = λ s p. (k (g s)).at s (p, refl) }

  -- The state changes before the rest.
  pub modify->>=-Takes :
      {B : Type 0} {Q : S → Type 0} (g : S → S) {n : Exec S B}
      → ((s : S) → P s → Q (g s))
      → Takes Q R n
      → Takes P R (modify g >>= λ u. n)
  unfolding ◌>>=◌ modify
  modify->>=-Takes g w k = record { at = λ s p. k.at (g s) (w s p) }
