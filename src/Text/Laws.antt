-- ===== src/Text/Laws.antt =====
-- Laws of the text operations.
use fresh_stackable_data_pla.Prelude.{
  ℕ, ◌≡◌, ◌≢◌, ◌⊎◌, inl, inr, Bool-cases, eq_of_==, ◌==◌, refl, ap, true, false, some, List, [],
  ◌∷◌, ◌++◌, Text, nat_eq, arith, All, contains,
}
use fresh_stackable_data_pla.Text.{
  lower, lower_code, after_prefix, starts_with, is_infix, push_head, split, join, lstrip, rstrip,
  strip, is_space, before_newline,
}

pub after_prefix-append : (p s : Text) → after_prefix p (p ++ s) ≡ some s
unfolding after_prefix
after_prefix-append [] s = refl
after_prefix-append (c ∷ p) s = ground (arith, after_prefix-append p s)

pub after_prefix_sound : (p s r : Text) → after_prefix p s ≡ some r → s ≡ p ++ r
unfolding after_prefix
after_prefix_sound [] s r h = ground arith
after_prefix_sound (c ∷ p) [] r h = ground arith
after_prefix_sound (c ∷ p) (d ∷ s) r h = ground (arith, after_prefix_sound p s r)

pub starts_with-append : (p s : Text) → starts_with (p ++ s) p ≡ true
unfolding starts_with
starts_with-append p s = ground (arith, after_prefix-append p s)

is_infix_of_starts_with : (p s : Text) → starts_with s p ≡ true → is_infix p s ≡ true
unfolding is_infix
is_infix_of_starts_with p [] h = h
is_infix_of_starts_with p (c ∷ s) h = ground arith

-- A text contains each of its parts.
pub is_infix-append : (p r s : Text) → is_infix p (r ++ (p ++ s)) ≡ true
unfolding is_infix
is_infix-append p [] s = is_infix_of_starts_with p (p ++ s) (starts_with-append p s)
is_infix-append p (c ∷ r) s = ground (arith, is_infix-append p r s)

pub lower-append : (s t : Text) → lower (s ++ t) ≡ lower s ++ lower t
unfolding lower
lower-append [] t = refl
lower-append (c ∷ s) t = ap (λ r. lower_code c ∷ r) (lower-append s t)

-- No separator in the word, and what follows: the word is the first part.
pub split-word :
    (sep : ℕ) (w s : Text) → contains w sep ≡ false → split sep (w ++ (sep ∷ s)) ≡ w ∷ split sep s
unfolding split contains
split-word sep [] s h = ground arith
split-word sep (c ∷ w) s h = ground (arith, split-word sep w s)

pub split-last : (sep : ℕ) (w : Text) → contains w sep ≡ false → split sep w ≡ w ∷ []
unfolding split contains
split-last sep [] h = refl
split-last sep (c ∷ w) h = ground (arith, split-last sep w)

join-push_head : (sep : Text) (c : ℕ) (ws : List Text) → join sep (push_head c ws) ≡ c ∷ join sep ws
unfolding join push_head
join-push_head sep c [] = refl
join-push_head sep c (w ∷ []) = refl
join-push_head sep c (w ∷ v ∷ ws) = refl

join-nil_cons : (sep : Text) (ws : List Text) → ws ≢ [] → join sep ([] ∷ ws) ≡ sep ++ join sep ws
unfolding join
join-nil_cons sep [] h = absurd (h refl)
join-nil_cons sep (w ∷ ws) h = refl

pub split-ne-nil : (sep : ℕ) (s : Text) → split sep s ≢ []
unfolding split push_head
split-ne-nil sep [] = ground arith
split-ne-nil sep (c ∷ s) = ground arith

-- Joining the parts gives the text back.
pub join-split : (sep : ℕ) (s : Text) → join (sep ∷ []) (split sep s) ≡ s
unfolding join split
join-split sep [] = refl
join-split sep (c ∷ s) = ground (
  arith,
  join-split sep s,
  join-push_head (sep ∷ []) c (split sep s),
  join-nil_cons (sep ∷ []) (split sep s) (split-ne-nil sep s),
)

lstrip_of_no_space : (s : Text) → All (λ c. is_space c ≡ false) s → lstrip s ≡ s
unfolding lstrip
lstrip_of_no_space [] h = refl
lstrip_of_no_space (c ∷ s) (p, h) = ground arith

rstrip_of_no_space : (s : Text) → All (λ c. is_space c ≡ false) s → rstrip s ≡ s
unfolding rstrip
rstrip_of_no_space [] h = refl
rstrip_of_no_space (c ∷ []) (p, h) = ground arith
rstrip_of_no_space (c ∷ d ∷ s) (p, h) = rw (rstrip_of_no_space (d ∷ s) h, rstrip) refl

pub strip_of_no_space : (s : Text) → All (λ c. is_space c ≡ false) s → strip s ≡ s
unfolding strip
strip_of_no_space s h = rw (lstrip_of_no_space s h) (rstrip_of_no_space s h)

-- The text, or the text before the newline at its end.
pub before_newline-cases : (s : Text) → (before_newline s ≡ s) ⊎ (s ≡ before_newline s ++ (10 ∷ []))
unfolding before_newline
before_newline-cases [] = inl refl
before_newline-cases (c ∷ []) = elim (Bool-cases (c == 10)) [
  | inl e ↦ inr (rw e (ap (λ d. d ∷ []) (eq_of_== c 10 e)))
  | inr e ↦ inl (rw e refl)
]
before_newline-cases (c ∷ d ∷ s) = elim (before_newline-cases (d ∷ s)) [
  | inl e ↦ inl (ap (λ t. c ∷ t) e)
  | inr e ↦ inr (ap (λ t. c ∷ t) e)
]

pub before_newline-append : (s : Text) → before_newline (s ++ (10 ∷ [])) ≡ s
unfolding before_newline nat_eq
before_newline-append [] = refl
before_newline-append (c ∷ []) = refl
before_newline-append (c ∷ d ∷ s) = ap (λ t. c ∷ t) (before_newline-append (d ∷ s))
