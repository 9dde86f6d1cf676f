-- ===== src/Portal/Favorites.antt =====
-- What a favourite is after a post and after a delete.
use fresh_stackable_data_pla.Prelude.{
  ℕ, ◌≡◌, refl, true, false, Option, none, some, List, [], ◌∷◌, Text, text_eq, arith, if◌then◌else◌,
  keep, eq_of_==, ==-refl, inl, inr, Bool-cases,
}
use fresh_stackable_data_pla.Portal.Store.{
  Item, Row, Db, is_row, upsert_row, delete_row, db_upsert_favorite, db_delete_favorite,
}

-- The first row with the primary key.
unfoldable pub find_row : Text → Text → List Row → Option Row
find_row email key [] = none
find_row email key (r ∷ rows) =
    let rest = find_row email key rows in if is_row email key r then some r else rest

-- The time of the row, or the default.
abbrev pub at_or : ℕ → Option Row → ℕ
at_or now none = now
at_or now (some r) = r.at

is_row_new :
    (email : Text) (item : Item) (now : ℕ)
    → is_row email item.key (record { user_email = email; item = item; at = now }) ≡ true
unfolding is_row
is_row_new email item now = rw (==-refl email, ==-refl item.key) refl

row_owner : (email key : Text) (r : Row) → is_row email key r ≡ true → r.user_email ≡ email
unfolding is_row
row_owner email key r h = eq_of_== r.user_email email (ground (arith, h))

find-upsert_row :
    (email : Text) (item : Item) (now : ℕ) (rows : List Row)
    → find_row email item.key (upsert_row false email item now rows)
      ≡ some (record {
        user_email = email;
        item = item;
        at = at_or now (find_row email item.key rows);
      })
unfolding find_row upsert_row
find-upsert_row email item now [] = rw (is_row_new email item now) refl
find-upsert_row email item now (r ∷ rows) = elim (Bool-cases (is_row email item.key r)) [
  | inl e ↦ rw e (rw (row_owner email item.key r e, is_row_new email item r.at) refl)
  | inr e ↦ rw e (rw e (find-upsert_row email item now rows))
]

find-delete_row :
    (email key : Text) (rows : List Row) → find_row email key (delete_row email key rows) ≡ none
unfolding find_row delete_row keep
find-delete_row email key [] = refl
find-delete_row email key (r ∷ rows) = elim (Bool-cases (is_row email key r)) [
  | inl e ↦ rw e (find-delete_row email key rows)
  | inr e ↦ rw e (rw e (find-delete_row email key rows))
]

-- After a post the favourite is the one that was posted, with the time at which it was first
-- starred; after a delete it is gone.
pub db_upsert_favorite-db_delete_favorite :
    (email : Text) (item : Item) (now : ℕ) (db : Db)
    → (find_row email item.key (db_upsert_favorite email item now db).favorites
        ≡ some (record {
          user_email = email;
          item = item;
          at = at_or now (find_row email item.key db.favorites);
        }))
      × (find_row email item.key
            (db_delete_favorite email item.key (db_upsert_favorite email item now db)).favorites
          ≡ none)
unfolding db_upsert_favorite db_delete_favorite
db_upsert_favorite-db_delete_favorite email item now db = (
  find-upsert_row email item now db.favorites,
  find-delete_row email item.key (upsert_row false email item now db.favorites),
)
