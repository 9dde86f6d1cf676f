-- ===== src/Text.antt =====
-- Python's `str` operations that the program uses, on code points. `lower`, `strip` and
-- `isdigit` are their ASCII part.
pub mod Laws
pub mod Number
use Prim.Native.Char.{code}
use Prim.Native.String
use fresh_stackable_data_pla.Prelude.{
  ℕ, ◌+◌, ◌≡◌, refl, Bool, true, false, ◌&&◌, ◌||◌, Option, none, some, List, [], ◌∷◌, ◌++◌, map,
  String, Text, nat_eq, ◌==◌, leb, if◌then◌else◌,
}

-- A literal. It stays shut in proofs.
unfoldable pub txt : String → Text
txt String.[] = []
txt (String.◌∷◌ c s) = code c ∷ txt s

unfoldable pub lower_code : ℕ → ℕ
lower_code c = if leb b'A' c && leb c b'Z' then c + 32 else c

-- `s.lower()`
unfoldable pub lower : Text → Text
unfolding lower_code
lower [] = []
lower (c ∷ s) = lower_code c ∷ lower s

-- `[a-z]` of a pattern
unfoldable pub is_lower : ℕ → Bool
is_lower c = leb b'a' c && leb c b'z'

unfoldable pub is_space : ℕ → Bool
is_space c = c == 32 || (leb 9 c && leb c 13) || (leb 28 c && leb c 31)

-- `s.lstrip()`
unfoldable pub lstrip : Text → Text
unfolding is_space
lstrip [] = []
lstrip (c ∷ s) = let rest = lstrip s in if is_space c then rest else c ∷ s

-- `s.rstrip()`
unfoldable pub rstrip : Text → Text
unfolding is_space
rstrip [] = []
rstrip (c ∷ s) = elim (rstrip s) [ [] ↦ if is_space c then [] else c ∷ [] | d ∷ r ↦ c ∷ d ∷ r ]

-- `s.strip()`
unfoldable pub strip : Text → Text
unfolding lstrip rstrip
strip s = rstrip (lstrip s)

-- What follows the prefix, if `s.startswith(p)`.
unfoldable pub after_prefix : Text → Text → Option Text
after_prefix [] s = some s
after_prefix (c ∷ p) [] = none
after_prefix (c ∷ p) (d ∷ s) = if c == d then after_prefix p s else none

-- `s.startswith(p)`
unfoldable pub starts_with : Text → Text → Bool
unfolding after_prefix
starts_with s p = elim (after_prefix p s) [ none ↦ false | some _ ↦ true ]

-- `p in s`
unfoldable pub is_infix : Text → Text → Bool
unfolding starts_with
is_infix p [] = starts_with [] p
is_infix p (c ∷ s) = starts_with (c ∷ s) p || is_infix p s

unfoldable pub push_head : ℕ → List Text → List Text
push_head c [] = (c ∷ []) ∷ []
push_head c (w ∷ ws) = (c ∷ w) ∷ ws

-- `s.split(sep)` for one character: never empty.
unfoldable pub split : ℕ → Text → List Text
unfolding push_head
split sep [] = [] ∷ []
split sep (c ∷ s) = if c == sep then [] ∷ split sep s else push_head c (split sep s)

-- `sep.join(xs)`
unfoldable pub join : Text → List Text → Text
join sep [] = []
join sep (x ∷ []) = x
join sep (x ∷ y ∷ xs) = x ++ (sep ++ join sep (y ∷ xs))

-- `s.rstrip(c)`
unfoldable pub rstrip_code : ℕ → Text → Text
rstrip_code k [] = []
rstrip_code k (c ∷ s) = elim (rstrip_code k s) [
  | [] ↦ if c == k then [] else c ∷ []
  | d ∷ r ↦ c ∷ d ∷ r
]

-- What stands before a final newline, where the `$` of a pattern also matches; else the text.
unfoldable pub before_newline : Text → Text
before_newline [] = []
before_newline (c ∷ []) = if c == 10 then [] else c ∷ []
before_newline (c ∷ d ∷ s) = c ∷ before_newline (d ∷ s)
