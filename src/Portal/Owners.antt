-- ===== src/Portal/Owners.antt =====
-- Each user's rows are the user's own, and a favourite stays as it was starred.
use fresh_stackable_data_pla.Prelude.{
  ℕ, ◌≡◌, refl, ap, ◌∙◌, Bool, true, false, not, ◌||◌, List, [], ◌∷◌, Text, text_eq, ◌==◌, arith,
  if◌then◌else◌, keep, inl, inr, Bool-cases,
}
use fresh_stackable_data_pla.Portal.Store.{
  Item, Row, Db, is_row, rows_of, upsert_row, delete_row, prune, db_upsert_recent,
  db_upsert_favorite, db_delete_favorite,
}

apart : (email other : Text) → other == email ≡ false → email == other ≡ false
apart email other h = ground (arith, h)

row_apart :
    (email other key : Text) (r : Row)
    → other == email ≡ false
    → is_row email key r ≡ true
    → r.user_email == other ≡ false
unfolding is_row
row_apart email other key r h k = ground (arith, h, k)

module _ (email other : Text) (differ : other == email ≡ false) where
  rows_of-upsert_row :
      (bump : Bool) (item : Item) (now : ℕ) (rows : List Row)
      → rows_of other (upsert_row bump email item now rows) ≡ rows_of other rows
  unfolding rows_of upsert_row keep
  rows_of-upsert_row bump item now [] = rw (apart email other differ) refl
  rows_of-upsert_row bump item now (r ∷ rows) = elim (Bool-cases (is_row email item.key r)) [
    | inl e ↦ rw (e, row_apart email other item.key r differ e) refl
    | inr e ↦ rw (e, rows_of-upsert_row bump item now rows) refl
  ]

  rows_of-delete_row :
      (key : Text) (rows : List Row)
      → rows_of other (delete_row email key rows) ≡ rows_of other rows
  unfolding rows_of delete_row keep
  rows_of-delete_row key [] = refl
  rows_of-delete_row key (r ∷ rows) = elim (Bool-cases (is_row email key r)) [
    | inl e ↦ rw (e, row_apart email other key r differ e) (rows_of-delete_row key rows)
    | inr e ↦ rw e (
        ap (λ rest. if r.user_email == other then r ∷ rest else rest) (rows_of-delete_row key rows))
  ]

  own : (email' : Text) → email' == email ≡ true → email' == other ≡ false
  own email' h = ground (arith, differ, h)

  keep-apart :
      (p : Row → Bool) (rows : List Row)
      → rows_of other (keep (λ r. not (r.user_email == email) || p r) rows) ≡ rows_of other rows
  unfolding rows_of keep
  keep-apart p [] = refl
  keep-apart p (r ∷ rows) = elim (Bool-cases (r.user_email == email)) [
    | inl e ↦ elim (Bool-cases (p r)) [
      | inl q ↦ rw (e, q) (rw (own r.user_email e) (keep-apart p rows))
      | inr q ↦ rw (e, q, own r.user_email e) (keep-apart p rows)
    ]
    | inr e ↦
        rw e (ap (λ rest. if r.user_email == other then r ∷ rest else rest) (keep-apart p rows))
  ]

-- The rows of a user are the same in both tables.
pub record SameRows (other : Text) (before after : Db) : Type 0 where
  pub same_recents : rows_of other after.recents ≡ rows_of other before.recents
  pub same_favorites : rows_of other after.favorites ≡ rows_of other before.favorites

-- Whatever the order of SQLite, the operations for one user leave the rows of another alone.
pub upsert_row-SameRows :
    (newest_first : List Row → List Row) (email other : Text) (item : Item) (key : Text) (now : ℕ)
    (db : Db)
    → other == email ≡ false
    → SameRows other db (db_upsert_recent newest_first email item now db)
      × SameRows other db (db_upsert_favorite email item now db)
      × SameRows other db (db_delete_favorite email key db)
unfolding db_upsert_recent db_upsert_favorite db_delete_favorite prune
upsert_row-SameRows newest_first email other item key now db h = (
  record {
    same_recents =
        keep-apart email other h _ (upsert_row true email item now db.recents)
        ∙ rows_of-upsert_row email other h true item now db.recents;
    same_favorites = refl;
  },
  record {
    same_recents = refl;
    same_favorites = rows_of-upsert_row email other h false item now db.favorites;
  },
  record {
    same_recents = refl;
    same_favorites = rows_of-delete_row email other h key db.favorites;
  },
)
