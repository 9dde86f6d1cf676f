-- ===== src/Persona/Check.antt =====
-- The ninth digit that `calculate_bsn_check_digit` gives is the one that `is_valid_bsn` accepts.
use fresh_stackable_data_pla.Prelude.{
  ℕ, suc, ◌+◌, ◌-◌, ◌%◌, ◌<◌, ◌≡◌, ◌≢◌, ◌↔◌, refl, Bool, true, false, ◌&&◌, none, some, [], ◌∷◌,
  ◌++◌, Text, nat_eq, ◌==◌, arith, if◌then◌else◌, length, every,
}
use fresh_stackable_data_pla.Text.Number.{is_digit}
use fresh_stackable_data_pla.Persona.{
  Failure, ok, err, bsn_weights_8, bsn_weights_9, total_mod, all_digits, digits_of,
  calculate_bsn_check_digit, first_is_zero, is_valid_bsn,
}

-- Eight digits, the first of which is not zero.
pub record IsPrefix (s : Text) : Type 0 where
  pub eight : length s ≡ 8
  pub digits : all_digits s ≡ true
  pub first : first_is_zero s ≡ false

weighted :
    (s : Text) (d : ℕ)
    → length s ≡ 8
    → d < 10
    → total_mod bsn_weights_9 (digits_of (s ++ ((b'0' + d) ∷ [])))
      ≡ (total_mod bsn_weights_8 (digits_of s) + 11 - d) % 11
unfolding total_mod digits_of
weighted (a ∷ b ∷ c ∷ e ∷ f ∷ g ∷ h ∷ i ∷ []) d n lt = omega arith
weighted s d n lt = absurd (omega arith)

every_append : (p : ℕ → Bool) (s : Text) (d : ℕ) → every p (s ++ (d ∷ [])) ≡ (every p s && p d)
unfolding every
every_append p [] d = ground arith
every_append p (c ∷ s) d = ground (arith, every_append p s d)

all_digits_append :
    (s : Text) (d : ℕ) → all_digits s ≡ true → d < 10 → all_digits (s ++ ((b'0' + d) ∷ [])) ≡ true
unfolding all_digits is_digit
all_digits_append [] d h lt = absurd (cc)
all_digits_append (c ∷ s) d h lt = ground (arith, every_append is_digit (c ∷ s) (b'0' + d))

length-snoc : (s : Text) (d : ℕ) → length (s ++ (d ∷ [])) ≡ suc (length s)
length-snoc [] d = refl
length-snoc (c ∷ s) d = omega (arith, length-snoc s d)

first_snoc : (s : Text) (d : ℕ) → length s ≡ 8 → first_is_zero (s ++ (d ∷ [])) ≡ first_is_zero s
unfolding first_is_zero
first_snoc [] d h = absurd (omega arith)
first_snoc (c ∷ s) d h = refl

total_mod_lt : (s : Text) → total_mod bsn_weights_8 s < 11
unfolding total_mod
total_mod_lt s = omega arith

calculated :
    (s : Text)
    → IsPrefix s
    → calculate_bsn_check_digit s ≡ (
        if total_mod bsn_weights_8 (digits_of s) == 10
        then ok none
        else ok (some (total_mod bsn_weights_8 (digits_of s))))
unfolding calculate_bsn_check_digit
calculated s p = ground (arith, p.eight, p.digits)

validated :
    (s : Text) (d : ℕ)
    → IsPrefix s
    → d < 10
    → is_valid_bsn (s ++ ((b'0' + d) ∷ []))
      ≡ (total_mod bsn_weights_9 (digits_of (s ++ ((b'0' + d) ∷ []))) == 0)
unfolding is_valid_bsn
validated s d p lt = ground (
  arith,
  length-snoc s (b'0' + d),
  p.eight,
  all_digits_append s d p.digits lt,
  first_snoc s (b'0' + d) p.eight,
  p.first,
)

-- For eight digits that do not begin with zero, a ninth digit makes a valid BSN exactly if it is
-- the calculated one.
pub is_valid_bsn_iff :
    (s : Text) (d : ℕ)
    → IsPrefix s
    → d < 10
    → (is_valid_bsn (s ++ ((b'0' + d) ∷ [])) ≡ true) ↔ (calculate_bsn_check_digit s ≡ ok (some d))
is_valid_bsn_iff s d p lt =
    ground (
      arith,
      validated s d p lt,
      calculated s p,
      weighted s d p.eight lt,
      total_mod_lt (digits_of s),
    )

-- A digit that is calculated is one.
pub calculated_digit :
    (s : Text) (d : ℕ) → IsPrefix s → calculate_bsn_check_digit s ≡ ok (some d) → d < 10
calculated_digit s d p h = ground (arith, calculated s p, total_mod_lt (digits_of s))

pub calculated_total : (s : Text) (e : Failure) → IsPrefix s → calculate_bsn_check_digit s ≢ err e
calculated_total s e p h = ground (arith, calculated s p)
