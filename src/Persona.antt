-- ===== src/Persona.antt =====
-- The test BSNs of data-generation/generators/persona.py. Digits are ASCII digits; the random
-- generator is the sequence of what `rng.randint(0, 9)` returns.
pub mod Check
pub mod Generate
mod Tests
use fresh_stackable_data_pla.Prelude.{
  ℕ, zero, suc, ◌+◌, ◌-◌, ◌*◌, ◌%◌, Bool, true, false, ◌&&◌, ◌||◌, not, Option, none, some, List,
  [], ◌∷◌, ◌++◌, map, Text, nat_eq, ◌==◌, if◌then◌else◌, length, every, is_empty,
}
use fresh_stackable_data_pla.Text.{txt}
use fresh_stackable_data_pla.Text.Number.{is_digit, decimal}

pub data Failure : Type 0 where
  -- `ValueError`, `AssertionError` and `RuntimeError`
  bad_prefix bad_bsn exhausted : Failure

pub data Attempt (A : Type 0) : Type 0 where
  ok : A → Attempt A
  err : Failure → Attempt A

-- A weight, with its sign.
pub data Weight : Type 0 where
  plus minus : ℕ → Weight

abbrev pub bsn_weights_8 : List Weight
bsn_weights_8 = plus 9 ∷ plus 8 ∷ plus 7 ∷ plus 6 ∷ plus 5 ∷ plus 4 ∷ plus 3 ∷ plus 2 ∷ []

abbrev pub bsn_weights_9 : List Weight
bsn_weights_9 = plus 9 ∷ plus 8 ∷ plus 7 ∷ plus 6 ∷ plus 5 ∷ plus 4 ∷ plus 3 ∷ plus 2 ∷ minus 1 ∷ []

-- `sum(w * d for w, d in zip(...))` is the first of the two sums less the second.
unfoldable pub plus_sum : List Weight → List ℕ → ℕ
plus_sum (plus w ∷ ws) (d ∷ ds) = w * d + plus_sum ws ds
plus_sum (minus w ∷ ws) (d ∷ ds) = plus_sum ws ds
plus_sum _ _ = 0

unfoldable pub minus_sum : List Weight → List ℕ → ℕ
minus_sum (plus w ∷ ws) (d ∷ ds) = minus_sum ws ds
minus_sum (minus w ∷ ws) (d ∷ ds) = w * d + minus_sum ws ds
minus_sum _ _ = 0

-- `total % 11`, which Python takes to lie from 0 to 10.
unfoldable pub total_mod : List Weight → List ℕ → ℕ
unfolding plus_sum minus_sum
total_mod ws ds = (plus_sum ws ds % 11 + 11 - minus_sum ws ds % 11) % 11

-- `s.isdigit()`
unfoldable pub all_digits : Text → Bool
all_digits s = not (is_empty s) && every is_digit s

-- `[int(c) for c in s]`
unfoldable pub digits_of : Text → List ℕ
digits_of [] = []
digits_of (c ∷ s) = (c - b'0') ∷ digits_of s

unfoldable pub calculate_bsn_check_digit : Text → Attempt (Option ℕ)
unfolding total_mod digits_of all_digits
calculate_bsn_check_digit first_8_digits =
    if not (length first_8_digits == 8) || not (all_digits first_8_digits)
    then err bad_prefix
    else (let check = total_mod bsn_weights_8 (digits_of first_8_digits) in
        if check == 10 then ok none else ok (some check))

unfoldable pub first_is_zero : Text → Bool
first_is_zero [] = false
first_is_zero (c ∷ s) = c == b'0'

unfoldable pub is_valid_bsn : Text → Bool
unfolding total_mod digits_of all_digits first_is_zero
is_valid_bsn bsn =
    if not (length bsn == 9) || not (all_digits bsn)
    then false
    else if first_is_zero bsn
    then false
    else total_mod bsn_weights_9 (digits_of bsn) == 0

-- The text of `n` draws from the k-th on.
unfoldable pub draw_text : (ℕ → ℕ) → ℕ → ℕ → Text
draw_text draw k zero = []
draw_text draw k (suc n) = decimal (draw k) ++ draw_text draw (k + 1) n

-- The rest of a round; none is a round that goes on.
unfoldable pub finish : Text → Attempt (Option ℕ) → Option (Attempt Text)
finish first_8 (err e) = some (err e)
finish first_8 (ok none) = none
finish first_8 (ok (some check)) =
    let bsn = first_8 ++ decimal check in some (if is_valid_bsn bsn then ok bsn else err bad_bsn)

-- One round of the loop, which draws from the k-th digit on.
unfoldable pub attempt : (ℕ → ℕ) → ℕ → Option (Attempt Text)
attempt draw k =
    let first_8 = b'9' ∷ draw_text draw k 7 in finish first_8 (calculate_bsn_check_digit first_8)

-- The loop with the rounds that are left.
unfoldable pub rounds : (ℕ → ℕ) → ℕ → ℕ → Attempt Text
rounds draw k zero = err exhausted
rounds draw k (suc n) =
    let rest = rounds draw (k + 7) n in elim (attempt draw k) [ some r ↦ r | none ↦ rest ]

unfoldable pub generate_test_bsn : (ℕ → ℕ) → Attempt Text
unfolding rounds attempt finish draw_text
generate_test_bsn draw = rounds draw 0 100
