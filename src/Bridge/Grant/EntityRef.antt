-- ===== src/Bridge/Grant/EntityRef.antt =====
-- The expression `^<#E::[^:]+::(?P<fqn>.+)>$` of platform/18-om-access-bridge/app/app.py.
-- `.` matches no newline, and `$` also matches before a newline at the end.
use fresh_stackable_data_pla.Prelude.{
  ℕ, ◌≡◌, refl, false, Option, none, some, [], ◌∷◌, ◌++◌, Text, nat_eq, ◌==◌, arith, if◌then◌else◌,
  contains,
}
use fresh_stackable_data_pla.Text.{txt, after_prefix}
use fresh_stackable_data_pla.Text.Laws.{after_prefix-append}

-- The text before the code point that ends it.
drop_last : ℕ → Text → Option Text
drop_last k [] = none
drop_last k (c ∷ []) = if c == k then some [] else none
drop_last k (c ∷ d ∷ s) = elim (drop_last k (d ∷ s)) [ none ↦ none | some r ↦ some (c ∷ r) ]

-- What follows the run of code points other than `:`.
from_colon : Text → Text
from_colon [] = []
from_colon (c ∷ s) = if c == b':' then c ∷ s else from_colon s

-- What follows `[^:]+::`.
after_type : Text → Option Text
unfolding from_colon
after_type [] = none
after_type (c ∷ s) = if c == b':' then none else after_prefix (txt "::") (from_colon s)

-- `.+>$`, without a newline at the end.
fqn_of_line : Text → Option Text
unfolding drop_last
fqn_of_line s = elim (drop_last b'>' s) [
  | none ↦ none
  | some [] ↦ none
  | some (c ∷ r) ↦ if contains (c ∷ r) 10 then none else some (c ∷ r)
]

fqn_of : Text → Option Text
unfolding fqn_of_line
fqn_of s = elim (drop_last 10 s) [ none ↦ fqn_of_line s | some r ↦ fqn_of_line r ]

unfoldable pub entity_ref : Text → Option Text
unfolding after_type fqn_of
entity_ref s = elim (after_prefix (txt "<#E::") s) [
  | none ↦ none
  | some r ↦ elim (after_type r) [ none ↦ none | some t ↦ fqn_of t ]
]

drop_last-append : (k : ℕ) (s : Text) → drop_last k (s ++ (k ∷ [])) ≡ some s
unfolding drop_last
drop_last-append k [] = ground arith
drop_last-append k (c ∷ []) = ground arith
drop_last-append k (c ∷ d ∷ s) = ground (arith, drop_last-append k (d ∷ s))

drop_last-ne : (j k : ℕ) (s : Text) → (j == k) ≡ false → drop_last k (s ++ (j ∷ [])) ≡ none
unfolding drop_last
drop_last-ne j k [] h = ground arith
drop_last-ne j k (c ∷ []) h = ground arith
drop_last-ne j k (c ∷ d ∷ s) h = ground (arith, drop_last-ne j k (d ∷ s) h)

fqn_of-append :
    (c : ℕ) (s : Text)
    → contains (c ∷ s) 10 ≡ false
    → fqn_of ((c ∷ s) ++ (b'>' ∷ [])) ≡ some (c ∷ s)
unfolding fqn_of
fqn_of-append c s h =
    rw (drop_last-ne b'>' 10 (c ∷ s) (unfold nat_eq in refl))
      (ground (arith, drop_last-append b'>' (c ∷ s)))

after_type-table : (s : Text) → after_type (txt "table::" ++ s) ≡ some s
unfolding after_type txt nat_eq
after_type-table s = after_prefix-append (txt "::") s

-- A wrapped FQN is found again, if it is not empty and has no newline.
pub entity_ref-table :
    (c : ℕ) (s : Text)
    → contains (c ∷ s) 10 ≡ false
    → entity_ref (txt "<#E::" ++ (txt "table::" ++ ((c ∷ s) ++ txt ">"))) ≡ some (c ∷ s)
unfolding entity_ref after_prefix txt nat_eq
entity_ref-table c s h = fqn_of-append c s h
