-- ===== src/Persona/Generate.antt =====
-- What `generate_test_bsn` returns, for every sequence of digits that the generator draws.
use fresh_stackable_data_pla.Prelude.{
  ℕ, zero, suc, ◌+◌, ◌<◌, ◌≡◌, refl, ◌⊎◌, inl, inr, true, Option, none, some, [], ◌∷◌, ◌++◌, Text,
  nat_eq, arith, length, every, length-append, Option-cases,
}
use mathlib.Core.Path.{subst}
use fresh_stackable_data_pla.Text.Number.{is_digit, decimal, decimal_digit}
use fresh_stackable_data_pla.Persona.{
  exhausted, Attempt, ok, err, all_digits, calculate_bsn_check_digit, first_is_zero, is_valid_bsn,
  draw_text, finish, attempt, rounds, generate_test_bsn,
}
use fresh_stackable_data_pla.Persona.Check.{
  IsPrefix, is_valid_bsn_iff, calculated_digit, calculated_total,
}

module _ (draw : ℕ → ℕ) (in_range : (i : ℕ) → draw i < 10) where
  length-draw_text : (k n : ℕ) → length (draw_text draw k n) ≡ n
  unfolding draw_text
  length-draw_text k zero = refl
  length-draw_text k (suc n) =
      ground (arith, decimal_digit (draw k) (in_range k), length-draw_text (k + 1) n)

  every-draw_text : (k n : ℕ) → every is_digit (draw_text draw k n) ≡ true
  unfolding draw_text every is_digit
  every-draw_text k zero = refl
  every-draw_text k (suc n) =
      ground (arith, decimal_digit (draw k) (in_range k), in_range k, every-draw_text (k + 1) n)

  abbrev prefix : ℕ → Text
  prefix k = b'9' ∷ draw_text draw k 7

  prefix-IsPrefix : (k : ℕ) → IsPrefix (prefix k)
  unfolding all_digits every first_is_zero is_digit nat_eq
  prefix-IsPrefix k = record {
    eight = omega (arith, length-draw_text k 7);
    digits = every-draw_text k 7;
    first = refl;
  }

  -- A valid BSN of nine digits that begins with a 9.
  pub record IsTestBsn (bsn : Text) : Type 0 where
    pub valid : is_valid_bsn bsn ≡ true
    pub nine : length bsn ≡ 9
    pub rest : Text
    pub begins : bsn ≡ b'9' ∷ rest

  -- What one round may end in.
  abbrev IsGood : Attempt Text → Type 0
  IsGood (ok bsn) = IsTestBsn bsn
  IsGood (err e) = ⊥

  made-IsTestBsn :
      (k d : ℕ)
      → calculate_bsn_check_digit (prefix k) ≡ ok (some d)
      → IsTestBsn (prefix k ++ decimal d)
  made-IsTestBsn k d h =
      let lt = calculated_digit (prefix k) d (prefix-IsPrefix k) h in
      rw (decimal_digit d lt) (record {
        valid = (is_valid_bsn_iff (prefix k) d (prefix-IsPrefix k) lt).1 h;
        nine = omega (arith, length-append {0} (prefix k) ((b'0' + d) ∷ []), length-draw_text k 7);
        rest = draw_text draw k 7 ++ ((b'0' + d) ∷ []);
        begins = refl;
      })

  finish-IsGood :
      (k : ℕ) (o : Attempt (Option ℕ)) (r : Attempt Text)
      → calculate_bsn_check_digit (prefix k) ≡ o
      → finish (prefix k) o ≡ some r
      → IsGood r
  unfolding finish
  finish-IsGood k (err e) r c h = absurd (calculated_total (prefix k) e (prefix-IsPrefix k) c)
  finish-IsGood k (ok none) r c h = absurd (cc)
  finish-IsGood k (ok (some d)) r c h =
      let made = made-IsTestBsn k d c in
      let e : ok (prefix k ++ decimal d) ≡ r = ground (arith, made.valid) in subst IsGood e made

  rounds_good :
      (k n : ℕ)
      → (rounds draw k n ≡ err exhausted)
        ⊎ ((bsn : Text) × (rounds draw k n ≡ ok bsn) × IsTestBsn bsn)
  unfolding rounds
  rounds_good k zero = inl refl
  rounds_good k (suc n) = elim (Option-cases (attempt draw k)) [
    | inl e ↦ rw (e, rounds) (rounds_good (k + 7) n)
    | inr (err f, e) ↦ absurd (finish-IsGood k _ (err f) refl (unfold attempt in e))
    | inr (ok bsn, e) ↦
        inr (bsn, rw (e, rounds) refl, finish-IsGood k _ (ok bsn) refl (unfold attempt in e))
  ]

  -- Whatever digits are drawn, the generator returns a valid BSN of nine digits that begins with
  -- a 9, or gives up after its 100 rounds; its assertion never fails.
  pub generate_test_bsn_lem :
      (generate_test_bsn draw ≡ err exhausted)
      ⊎ ((bsn : Text) × (generate_test_bsn draw ≡ ok bsn) × IsTestBsn bsn)
  unfolding generate_test_bsn
  generate_test_bsn_lem = rounds_good 0 100
