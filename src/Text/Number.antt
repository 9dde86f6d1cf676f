-- ===== src/Text/Number.antt =====
-- Decimal numbers: `str(n)` and `int(s)`.
use fresh_stackable_data_pla.Prelude.{
  ◌<◌, arith, ℕ, zero, suc, ◌+◌, ◌-◌, ◌*◌, ◌/◌, ◌%◌, ◌≡◌, refl, Bool, true, false, ◌&&◌, ◌||◌, not,
  Option, none, some, [], ◌∷◌, ◌++◌, Text, nat_eq, ◌==◌, leb, ltb, if◌then◌else◌,
}
use fresh_stackable_data_pla.Text.{strip, txt}

unfoldable pub is_digit : ℕ → Bool
is_digit c = leb b'0' c && leb c b'9'

decimal_fuel : ℕ → ℕ → Text
decimal_fuel zero n = []
decimal_fuel (suc f) n =
    let rest = decimal_fuel f (n / 10) in
    let last : ℕ = b'0' + n % 10 in if ltb n 10 then last ∷ [] else rest ++ (last ∷ [])

-- `str(n)`: a number has no more digits than `n + 1`.
unfoldable pub decimal : ℕ → Text
unfolding decimal_fuel
decimal n = decimal_fuel (suc n) n

-- The digits of a literal of `int`; one `_` may stand between two digits.
int_digits : ℕ → Bool → Text → Option ℕ
int_digits acc fresh [] = if fresh then none else some acc
int_digits acc fresh (c ∷ s) =
    let next = int_digits (acc * 10 + (c - b'0')) false s in
    let skip = int_digits acc true s in
    if is_digit c then next else if c == b'_' && not fresh then skip else none

-- `int(s)`: the sign (true if negative) and the magnitude; none is a `ValueError`.
signed : Text → Option (Bool × ℕ)
unfolding int_digits is_digit
signed [] = none
signed (c ∷ s) =
    elim (if c == b'-' || c == b'+' then int_digits 0 true s else int_digits 0 true (c ∷ s)) [
      | none ↦ none
      | some n ↦ some (c == b'-', n)
    ]

unfoldable pub parse_int : Text → Option (Bool × ℕ)
unfolding signed strip
parse_int s = signed (strip s)

parse_int_test : parse_int (txt " -1_2 ") ≡ some (true, 12)
unfolding parse_int txt nat_eq
parse_int_test = refl

decimal_test : decimal 2026 ≡ txt "2026"
unfolding decimal txt
decimal_test = refl

pub decimal_digit : (n : ℕ) → n < 10 → decimal n ≡ (b'0' + n) ∷ []
unfolding decimal
decimal_digit n h = ground arith
