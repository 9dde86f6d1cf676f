-- ===== src/Academy/Keys.antt =====
-- The keys and the values of a progress that pass the filter of `put_progress`, without its code.
use fresh_stackable_data_pla.Prelude.{
  ℕ, ◌≤◌, ◌≡◌, ◌≢◌, ◌↔◌, ◌⊎◌, inl, inr, refl, sym, ap, ◌∙◌, true, false, List, [], ◌∷◌, ◌++◌, Text,
  All, arith, contains, every, is_empty, text_eq, nat_eq, ◌==◌, ◌||◌, Bool-cases,
}
use Prim.{tt}
use mathlib.Core.Path.{subst}
use fresh_stackable_data_pla.Text.{txt, split, join, is_lower, before_newline}
use fresh_stackable_data_pla.Text.Number.{is_digit}
use fresh_stackable_data_pla.Text.Laws.{
  split-word, split-last, join-split, before_newline-cases, before_newline-append,
}
use fresh_stackable_data_pla.Json.{Json, str}
use fresh_stackable_data_pla.Effect.{ok}
use fresh_stackable_data_pla.Academy.{
  is_module_name, is_level, is_number, is_step, is_key, is_progress,
}

-- A lower-case letter or an underscore.
abbrev pub IsLetter : ℕ → Type 0
IsLetter c = ((97 ≤ c) × (c ≤ 122)) ⊎ (c ≡ 95)

abbrev pub IsDigit : ℕ → Type 0
IsDigit c = (48 ≤ c) × (c ≤ 57)

-- A module, a level and a number, with a slash between them.
pub record IsPath (s : Text) : Type 0 where
  pub name : Text
  pub level : Text
  pub number : Text
  pub parts : s ≡ name ++ (b'/' ∷ (level ++ (b'/' ∷ number)))
  pub named : name ≢ []
  pub letters : All IsLetter name
  pub of_levels :
      (level ≡ txt "foundation") ⊎ ((level ≡ txt "practitioner") ⊎ (level ≡ txt "expert"))
  pub numbered : number ≢ []
  pub digits : All IsDigit number

-- Such a path, or such a path with a newline at its end.
abbrev pub IsKey : Text → Type 0
IsKey k = IsPath k ⊎ ((s : Text) × IsPath s × (k ≡ s ++ (10 ∷ [])))

abbrev pub IsDone : Json → Type 0
IsDone v = (v ≡ str (txt "done")) ⊎ (v ≡ str (txt "in-progress"))

every-letters : (s : Text) → every (λ c. is_lower c || c == b'_') s ≡ true → All IsLetter s
unfolding every is_lower
every-letters [] h = tt
every-letters (c ∷ s) h = (ground (arith, h), every-letters s (ground (arith, h)))

letters-every : (s : Text) → All IsLetter s → every (λ c. is_lower c || c == b'_') s ≡ true
unfolding every is_lower
letters-every [] h = refl
letters-every (c ∷ s) (p, h) = ground (arith, p, letters-every s h)

every-digits : (s : Text) → every is_digit s ≡ true → All IsDigit s
unfolding every is_digit
every-digits [] h = tt
every-digits (c ∷ s) h = (ground (arith, h), every-digits s (ground (arith, h)))

digits-every : (s : Text) → All IsDigit s → every is_digit s ≡ true
unfolding every is_digit
digits-every [] h = refl
digits-every (c ∷ s) (p, h) = ground (arith, p, digits-every s h)

letters-slash : (s : Text) → All IsLetter s → contains s b'/' ≡ false
unfolding contains
letters-slash [] h = refl
letters-slash (c ∷ s) (p, h) = ground (arith, p, letters-slash s h)

digits-slash : (s : Text) → All IsDigit s → contains s b'/' ≡ false
unfolding contains
digits-slash [] h = refl
digits-slash (c ∷ s) (p, h) = ground (arith, p, digits-slash s h)

IsDone-is_progress : (v : Json) → IsDone v → is_progress v ≡ ok true
unfolding is_progress contains txt text_eq nat_eq
IsDone-is_progress v (inl e) = rw e refl
IsDone-is_progress v (inr e) = rw e refl

is_progress-IsDone : (v : Json) → is_progress v ≡ ok true → IsDone v
unfolding is_progress contains
is_progress-IsDone (str s) h = elim (Bool-cases (s == txt "done")) [
  | inl e ↦ inl (ap str (ground (arith, e)))
  | inr e ↦ inr (ap str (ground (arith, h, e)))
]
is_progress-IsDone _ h = absurd (cc)

is_level-cases :
    (s : Text)
    → is_level s ≡ true
    → (s ≡ txt "foundation") ⊎ ((s ≡ txt "practitioner") ⊎ (s ≡ txt "expert"))
unfolding is_level contains
is_level-cases s h = ground (arith, h)

cases-is_level :
    (s : Text)
    → (s ≡ txt "foundation") ⊎ ((s ≡ txt "practitioner") ⊎ (s ≡ txt "expert"))
    → (is_level s ≡ true) × (contains s b'/' ≡ false)
unfolding is_level contains txt text_eq nat_eq
cases-is_level s (inl e) = rw e (refl, refl)
cases-is_level s (inr (inl e)) = rw e (refl, refl)
cases-is_level s (inr (inr e)) = rw e (refl, refl)

full : (s : Text) → is_empty s ≡ false → s ≢ []
full [] h = absurd (cc)
full (c ∷ s) h = λ e. cc

full-not : (s : Text) → s ≢ [] → is_empty s ≡ false
full-not [] n = absurd (n refl)
full-not (c ∷ s) n = refl

step-IsPath : (s : Text) (ws : List Text) → join (b'/' ∷ []) ws ≡ s → is_step ws ≡ true → IsPath s
unfolding is_step is_module_name is_number join
step-IsPath s (name ∷ level ∷ number ∷ []) e h = record {
  name = name;
  level = level;
  number = number;
  parts = sym e;
  named = full name (ground (arith, h));
  letters = every-letters name (ground (arith, h));
  of_levels = is_level-cases level (ground (arith, h));
  numbered = full number (ground (arith, h));
  digits = every-digits number (ground (arith, h));
}
step-IsPath s _ e h = absurd (cc)

IsPath-step : (s : Text) → IsPath s → is_step (split b'/' s) ≡ true
unfolding is_step is_module_name is_number
IsPath-step s p =
    let (l, n) = cases-is_level p.level p.of_levels in
    subst (λ t. is_step (split b'/' t) ≡ true) (sym p.parts)
      (rw
        (
          split-word b'/' p.name (p.level ++ (b'/' ∷ p.number)) (letters-slash p.name p.letters),
          split-word b'/' p.level p.number n,
          split-last b'/' p.number (digits-slash p.number p.digits),
        )
        (ground (
          arith,
          l,
          full-not p.name p.named,
          full-not p.number p.numbered,
          letters-every p.name p.letters,
          digits-every p.number p.digits,
        )))

-- The test of a key accepts exactly these keys.
pub is_key_iff : (k : Text) → (is_key k ≡ true) ↔ IsKey k
unfolding is_key
is_key_iff k = (
  λ h. elim (Bool-cases (is_step (split b'/' k))) [
    | inl y ↦ inl (step-IsPath k _ (join-split b'/' k) y)
    | inr n ↦
        let p =
          step-IsPath (before_newline k) _ (join-split b'/' (before_newline k))
            (ground (arith, h, n)) in
        elim (before_newline-cases k) [
          | inl e ↦ inl (subst IsPath e p)
          | inr e ↦ inr (before_newline k, p, e)
        ]
  ],
  λ d. elim d [
    | inl p ↦ ground (arith, IsPath-step k p)
    | inr (s, p, e) ↦ ground (
      arith,
      subst (λ t. is_step (split b'/' t) ≡ true)
          (sym (ap before_newline e ∙ before_newline-append s)) (IsPath-step s p),
    )
  ],
)

-- The test of a value accepts exactly these values.
pub is_progress_iff : (v : Json) → (is_progress v ≡ ok true) ↔ IsDone v
is_progress_iff v = (is_progress-IsDone v, IsDone-is_progress v)
