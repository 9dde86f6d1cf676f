-- ===== src/Upload/Shared.antt =====
-- Addresses that share a folder, and what the pattern of a name admits.
use fresh_stackable_data_pla.Prelude.{
  ℕ, ◌≤◌, ◌≡◌, ◌↔◌, All, every, length, ◌⊎◌, inl, inr, refl, sym, ap, ◌∙◌, Bool, true, false, ◌||◌,
  [], ◌∷◌, ◌++◌, Text, nat_eq, arith, Bool-cases,
}
use mathlib.Core.List.{append_assoc}
use Prim.{tt}
use fresh_stackable_data_pla.Text.{strip, lstrip, rstrip, is_space, is_lower, lower, before_newline}
use fresh_stackable_data_pla.Text.Number.{is_digit}
use fresh_stackable_data_pla.Text.Laws.{lower-append, before_newline-cases, before_newline-append}
use fresh_stackable_data_pla.Upload.Names.{
  is_name_char, sanitize_char, sanitize_all, sanitize_email, is_name, is_identifier,
}

lstrip-append :
    (s : Text) (x : ℕ) (t : Text) → is_space x ≡ false → lstrip (s ++ (x ∷ t)) ≡ lstrip s ++ (x ∷ t)
unfolding lstrip
lstrip-append [] x t h = rw h refl
lstrip-append (c ∷ s) x t h = elim (Bool-cases (is_space c)) [
  | inl e ↦ rw e (lstrip-append s x t h)
  | inr e ↦ rw e refl
]

rstrip_cons : (x : ℕ) (t : Text) → is_space x ≡ false → rstrip (x ∷ t) ≡ x ∷ rstrip t
unfolding rstrip
rstrip_cons x t h = ground (arith, h)

rstrip_kept : (c d : ℕ) (s u : Text) → rstrip s ≡ d ∷ u → rstrip (c ∷ s) ≡ c ∷ d ∷ u
unfolding rstrip
rstrip_kept c d s u h = rw h refl

rstrip-append :
    (s : Text) (x : ℕ) (t : Text) → is_space x ≡ false → rstrip (s ++ (x ∷ t)) ≡ s ++ (x ∷ rstrip t)
rstrip-append [] x t h = rstrip_cons x t h
rstrip-append (c ∷ []) x t h = rstrip_kept c x (x ∷ t) (rstrip t) (rstrip_cons x t h)
rstrip-append (c ∷ d ∷ s) x t h =
    rstrip_kept c d (d ∷ (s ++ (x ∷ t))) (s ++ (x ∷ rstrip t)) (rstrip-append (d ∷ s) x t h)

strip-append :
    (s : Text) (x : ℕ) (t : Text)
    → is_space x ≡ false
    → strip (s ++ (x ∷ t)) ≡ lstrip s ++ (x ∷ rstrip t)
unfolding strip
strip-append s x t h = rw (lstrip-append s x t h) (rstrip-append (lstrip s) x t h)

sanitize_all-append : (s t : Text) → sanitize_all (s ++ t) ≡ sanitize_all s ++ sanitize_all t
unfolding sanitize_all
sanitize_all-append [] t = refl
sanitize_all-append (c ∷ s) t =
    ap (λ u. sanitize_char c ++ u) (sanitize_all-append s t)
    ∙ sym (append_assoc (sanitize_char c) (sanitize_all s) (sanitize_all t))

dot_as_underscore : (t : Text) → sanitize_all (lower (b'.' ∷ t)) ≡ sanitize_all (lower (b'_' ∷ t))
unfolding sanitize_all lower sanitize_char is_name_char nat_eq
dot_as_underscore t = refl

not_space : (is_space b'.' ≡ false) × (is_space b'_' ≡ false)
unfolding is_space nat_eq
not_space = (refl, refl)

-- Two addresses that differ in a dot and an underscore have the same folder.
pub sanitize_email_shared :
    (s t : Text) → sanitize_email (s ++ (b'.' ∷ t)) ≡ sanitize_email (s ++ (b'_' ∷ t))
unfolding sanitize_email
sanitize_email_shared s t =
    rw
      (
        strip-append s b'.' t not_space.0,
        strip-append s b'_' t not_space.1,
        lower-append (lstrip s) (b'.' ∷ rstrip t),
        lower-append (lstrip s) (b'_' ∷ rstrip t),
        sanitize_all-append (lower (lstrip s)) (lower (b'.' ∷ rstrip t)),
        sanitize_all-append (lower (lstrip s)) (lower (b'_' ∷ rstrip t)),
        dot_as_underscore (rstrip t),
      )
      refl

or_cases : (a b : Bool) → a || b ≡ true → (a ≡ true) ⊎ (b ≡ true)
or_cases true b h = inl refl
or_cases false b h = inr h

abbrev IsNameChar : ℕ → Type 0
IsNameChar c = ((97 ≤ c) × (c ≤ 122)) ⊎ (((48 ≤ c) × (c ≤ 57)) ⊎ (c ≡ 95))

-- A lower-case letter, and at most 62 lower-case letters, digits and underscores.
pub record IsName (s : Text) : Type 0 where
  pub first : ℕ
  pub rest : Text
  pub parts : s ≡ first ∷ rest
  pub at_least : 97 ≤ first
  pub at_most : first ≤ 122
  pub chars : All IsNameChar rest
  pub bound : length rest ≤ 62

every-chars : (s : Text) → every is_name_char s ≡ true → All IsNameChar s
unfolding every is_name_char is_lower is_digit
every-chars [] h = tt
every-chars (c ∷ s) h = (ground (arith, h), every-chars s (ground (arith, h)))

chars-every : (s : Text) → All IsNameChar s → every is_name_char s ≡ true
unfolding every is_name_char is_lower is_digit
chars-every [] h = refl
chars-every (c ∷ s) (p, h) = ground (arith, p, chars-every s h)

is_name-IsName : (s : Text) → is_name s ≡ true → IsName s
unfolding is_name is_lower
is_name-IsName [] h = absurd (cc)
is_name-IsName (c ∷ s) h = record {
  first = c;
  rest = s;
  parts = refl;
  at_least = ground (arith, h);
  at_most = ground (arith, h);
  chars = every-chars s (ground (arith, h));
  bound = ground (arith, h);
}

letter_name :
    (c : ℕ) (s : Text)
    → 97 ≤ c
    → c ≤ 122
    → every is_name_char s ≡ true
    → length s ≤ 62
    → is_name (c ∷ s) ≡ true
unfolding is_name is_lower
letter_name c s a b h l = ground (arith, a, b, h, l)

IsName-is_name : (s : Text) → IsName s → is_name s ≡ true
IsName-is_name s p =
    ap is_name p.parts
    ∙ letter_name p.first p.rest p.at_least p.at_most (chars-every p.rest p.chars) p.bound

abbrev HasNewline : Text → Type 0
HasNewline name = (s : Text) × (name ≡ s ++ (10 ∷ [])) × IsName s

passed : (name : Text) → is_identifier name ≡ true → IsName name ⊎ HasNewline name
unfolding is_identifier
passed name h = elim (or_cases (is_name name) (is_name (before_newline name)) h) [
  | inl k ↦ inl (is_name-IsName name k)
  | inr k ↦ elim (before_newline-cases name) [
    | inl e ↦ inl (is_name-IsName name (ap is_name (sym e) ∙ k))
    | inr e ↦ inr (before_newline name, e, is_name-IsName (before_newline name) k)
  ]
]

passes : (name : Text) → IsName name ⊎ HasNewline name → is_identifier name ≡ true
unfolding is_identifier
passes name (inl h) = rw (IsName-is_name name h) refl
passes name (inr (s, e, k)) =
    ground (arith, ap is_name (ap before_newline e ∙ before_newline-append s), IsName-is_name s k)

-- The names that pass are a lower-case letter with at most 62 lower-case letters, digits and
-- underscores after it, and those with a newline at the end.
pub is_identifier_iff :
    (name : Text)
    → (is_identifier name ≡ true)
      ↔ (IsName name ⊎ ((s : Text) × (name ≡ s ++ (10 ∷ [])) × IsName s))
is_identifier_iff name = (passed name, passes name)
