-- ===== src/Persona/Tests.antt =====
-- Test BSNs, and the theorems at such inputs.
use fresh_stackable_data_pla.Prelude.{
  ℕ, ◌+◌, ◌<◌, ◌≡◌, ◌↔◌, refl, ◌⊎◌, true, false, some, [], ◌∷◌, ◌++◌, Text, nat_eq, arith, every,
}
use fresh_stackable_data_pla.Text.{txt}
use fresh_stackable_data_pla.Text.Number.{is_digit}
use fresh_stackable_data_pla.Persona.{
  exhausted, ok, err, calculate_bsn_check_digit, is_valid_bsn, generate_test_bsn,
}
use fresh_stackable_data_pla.Persona.Check.{IsPrefix, is_valid_bsn_iff}
use fresh_stackable_data_pla.Persona.Generate.{IsTestBsn, generate_test_bsn_lem}

known_valid : is_valid_bsn (txt "111222333") ≡ true
unfolding is_valid_bsn every txt nat_eq is_digit
known_valid = refl

known_invalid : is_valid_bsn (txt "012345678") ≡ false
unfolding is_valid_bsn every txt nat_eq is_digit
known_invalid = refl

abbrev eight : Text
eight = 49 ∷ 49 ∷ 49 ∷ 50 ∷ 50 ∷ 50 ∷ 51 ∷ 51 ∷ []

eight-IsPrefix : IsPrefix eight
unfolding is_valid_bsn every nat_eq is_digit
eight-IsPrefix = record { eight = refl; digits = refl; first = refl }

is_valid_bsn_iff_example :
    (is_valid_bsn (eight ++ ((48 + 3) ∷ [])) ≡ true)
    ↔ (calculate_bsn_check_digit eight ≡ ok (some 3))
is_valid_bsn_iff_example = is_valid_bsn_iff eight 3 eight-IsPrefix (omega arith)

abbrev fives : ℕ → ℕ
fives i = 5

fives_below : (i : ℕ) → fives i < 10
fives_below i = omega arith

generate_test_bsn_lem_example :
    (generate_test_bsn fives ≡ err exhausted)
    ⊎ ((bsn : Text) × (generate_test_bsn fives ≡ ok bsn) × IsTestBsn fives fives_below bsn)
generate_test_bsn_lem_example = generate_test_bsn_lem fives fives_below
