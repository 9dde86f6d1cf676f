-- ===== src/Prelude/Alls.antt =====
-- A predicate on every element of a list or on every value of a dict.
use mathlib.Core.Path.{◌≡◌, subst}
use mathlib.Core.Logic.{inl, inr}
use mathlib.Core.Bool.{Bool}
use mathlib.Core.Option.{some}
use mathlib.Core.List.{List, [], ◌∷◌}
use Prim.Native.Nat.{ℕ, zero, suc}
use fresh_stackable_data_pla.Prelude.Tests.{Eq, ◌==◌, Bool-cases}
use fresh_stackable_data_pla.Prelude.Lists.{All, Dict, keep, drop, lookup, insert}

pub All-map {ℓ κ μ} :
    {A : Type ℓ} (P : A → Type κ) (Q : A → Type μ) (xs : List A)
    → ((a : A) → P a → Q a)
    → All P xs
    → All Q xs
All-map P Q [] k h = tt
All-map P Q (x ∷ xs) k (p, h) = (k x p, All-map P Q xs k h)

pub All-drop {ℓ κ} :
    {A : Type ℓ} (P : A → Type κ) (n : ℕ) (xs : List A) → All P xs → All P (drop n xs)
All-drop P zero xs h = h
All-drop P (suc n) [] h = tt
All-drop P (suc n) (x ∷ xs) (p, h) = All-drop P n xs h

pub All-keep {ℓ κ} :
    {A : Type ℓ} (P : A → Type κ) (f : A → Bool) (xs : List A) → All P xs → All P (keep f xs)
unfolding keep
All-keep P f [] h = tt
All-keep P f (x ∷ xs) (p, h) = elim (Bool-cases (f x)) [
  | inl e ↦ rw e (p, All-keep P f xs h)
  | inr e ↦ rw e (All-keep P f xs h)
]

module _ {ℓ κ μ} {K : Type ℓ} {V : Type κ} ⦃e : Eq K⦄ (P : V → Type μ) where
  pub All-insert :
      (k : K) (v : V) (d : Dict K V) → P v → All (λ q. P q.1) d → All (λ q. P q.1) (insert k v d)
  unfolding insert
  All-insert k v [] p h = (p, tt)
  All-insert k v ((j, w) ∷ d) p (q, h) = elim (Bool-cases (k == j)) [
    | inl e ↦ rw e (p, h)
    | inr e ↦ rw e (q, All-insert k v d p h)
  ]

  pub All-lookup : (k : K) (v : V) (d : Dict K V) → lookup k d ≡ some v → All (λ q. P q.1) d → P v
  unfolding lookup
  All-lookup k v [] l h = absurd (cc)
  All-lookup k v ((j, w) ∷ d) l (q, h) = elim (Bool-cases (k == j)) [
    | inl e ↦ subst P (some_same w v (rw e at l)) q
    | inr e ↦ All-lookup k v d (rw e at l) h
  ]
    where
      some_same : (w v : V) → some w ≡ some v → w ≡ v
      some_same w v s = cc
