-- ===== src/Observer/ReadOnly.antt =====
-- The statements that reach Trino, and the rows that are shown.
use fresh_stackable_data_pla.Prelude.{
  ℕ, zero, suc, ◌+◌, ◌≡◌, ◌⊎◌, inl, inr, refl, ap, ◌∙◌, Bool, true, Option, none, some, List, [],
  ◌∷◌, Text, text_eq, arith, ltb, is_empty, contains, length, take, Bool-cases,
}
use fresh_stackable_data_pla.Text.{lower}
use fresh_stackable_data_pla.Observer.{
  Table, QueryAnswer, failed, table, read_only_prefixes, first_word, stripped, shown, answer_for,
  query_trino,
}

-- An execution of the statement, which begins with a word of the list: the answer holds the first
-- rows of its result, no more than the maximum, and says whether there are more.
pub record Executed (trino : List Text → Text → Option Table) (trino_max_rows : ℕ) (sql : Text)
    (before after : List Text) (answer : QueryAnswer) : Type 0 where
  pub executed : after ≡ stripped sql ∷ before
  pub allowed : contains read_only_prefixes (lower (first_word (stripped sql))) ≡ true
  pub result :
      ((trino before (stripped sql) ≡ none) × (answer ≡ failed))
      ⊎ ((t : Table) × (trino before (stripped sql) ≡ some t)
          × (answer
              ≡ table t.columns (take trino_max_rows t.rows) (ltb trino_max_rows (length t.rows))))

abbrev pub IsTable : QueryAnswer → Type 0
IsTable (table columns rows truncated) = Unit
IsTable _ = ⊥

take-take : {A : Type 0} (n : ℕ) (xs : List A) → take n (take (suc n) xs) ≡ take n xs
take-take zero xs = refl
take-take (suc n) [] = refl
take-take (suc n) (x ∷ xs) = ap (λ ys. x ∷ ys) (take-take n xs)

more-take :
    {A : Type 0} (n : ℕ) (xs : List A) → ltb n (length (take (suc n) xs)) ≡ ltb n (length xs)
more-take zero [] = refl
more-take zero (x ∷ xs) = ground arith
more-take (suc n) [] = refl
more-take (suc n) (x ∷ xs) = ground (arith, more-take n xs)

shown-all :
    (n : ℕ) (t : Table) → shown n t ≡ table t.columns (take n t.rows) (ltb n (length t.rows))
unfolding shown
shown-all n t =
    ap (λ m. table t.columns (take n (take m t.rows)) (ltb n (length (take m t.rows)))) (next n)
    ∙ (λ i. table t.columns (take-take n t.rows i) (more-take n t.rows i))
  where
    next : (n : ℕ) → n + 1 ≡ suc n
    next n = omega arith

module _ (installed : Bool) (trino : List Text → Text → Option Table) (trino_max_rows : ℕ) where
  answered :
      (before : List Text) (sql : Text) (o : Option Table)
      → trino before (stripped sql) ≡ o
      → contains read_only_prefixes (lower (first_word (stripped sql))) ≡ true
      → Executed trino trino_max_rows sql before
          (stripped sql ∷ before)
          (answer_for trino_max_rows o)
  unfolding answer_for
  answered before sql none e m = record { executed = refl; allowed = m; result = inl (e, refl) }
  answered before sql (some t) e m = record {
    executed = refl;
    allowed = m;
    result = inr (t, e, shown-all trino_max_rows t);
  }

  -- Either nothing is executed and no table is answered, or the statement, without white space and
  -- semicolons around it, is executed once and begins with a word of the list; then the answer is a
  -- failure of Trino or the first rows of its result, no more than the maximum, and says whether
  -- there are more.
  pub query_trino-Executed :
      (sql : Text) (before : List Text)
      → (((query_trino installed trino trino_max_rows sql before).1 ≡ before)
          × (IsTable (query_trino installed trino trino_max_rows sql before).0 → ⊥))
        ⊎ Executed trino trino_max_rows sql before
            (query_trino installed trino trino_max_rows sql before).1
            (query_trino installed trino trino_max_rows sql before).0
  unfolding query_trino
  query_trino-Executed sql before = elim (Bool-cases (is_empty (stripped sql))) [
    | inl e ↦ rw e (inl (refl, λ t. t))
    | inr n ↦ elim (Bool-cases (contains read_only_prefixes (lower (first_word (stripped sql))))) [
      | inr r ↦ rw (n, r) (inl (refl, λ t. t))
      | inl m ↦ elim (Bool-cases installed) [
        | inr i ↦ rw (n, m, i) (inl (refl, λ t. t))
        | inl i ↦ rw (n, m, i) (inr (answered before sql _ refl m))
      ]
    ]
  ]
