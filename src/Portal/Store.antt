-- ===== src/Portal/Store.antt =====
-- `_email_from_request`, and the recents and favourites. A table is its rows in the order of their
-- first insertion, a time is in seconds. The order in which SQLite answers rows of the same second
-- is a parameter, as it is SQLite's own.
use Prim.{Unit}
use fresh_stackable_data_pla.Prelude.{
  ℕ, Bool, true, false, not, ◌&&◌, ◌||◌, List, [], ◌∷◌, map, Text, text_eq, ◌==◌, if◌then◌else◌,
  contains, keep, take, length,
}
use fresh_stackable_data_pla.Text.{strip}
use fresh_stackable_data_pla.Effect.{
  Result, ok, err, http, Exec, lift, pure, gets, modify, ◌>>=◌, ◌>>◌,
}

-- The three headers, in the order in which they are tried; a missing one is empty.
pub record Headers : Type 0 where
  pub x_auth_request_email : Text
  pub x_forwarded_email : Text
  pub x_auth_request_user : Text

first_value : List Text → Result Text
first_value [] = err (http 401 "not authenticated")
first_value ([] ∷ vals) = first_value vals
first_value ((c ∷ val) ∷ vals) = ok (c ∷ val)

unfoldable pub email_from_request : Headers → Result Text
unfolding first_value
email_from_request req = first_value (
    strip req.x_auth_request_email
    ∷ strip req.x_forwarded_email
    ∷ strip req.x_auth_request_user
    ∷ [])

-- The body of a post, which pydantic has checked.
pub record Item : Type 0 where
  pub key : Text
  pub type : Text
  pub service : Text
  pub title : Text
  pub subtitle : Text
  pub href : Text

-- A row; `at` is `opened_at` or `starred_at`.
pub record Row : Type 0 where
  pub user_email : Text
  pub item : Item
  pub at : ℕ

pub record Db : Type 0 where
  pub recents : List Row
  pub favorites : List Row

-- The row with this primary key.
unfoldable pub is_row : Text → Text → Row → Bool
is_row email key r = r.user_email == email && r.item.key == key

-- `WHERE user_email = ?`
unfoldable pub rows_of : Text → List Row → List Row
rows_of email rows = keep (λ r. r.user_email == email) rows

-- `INSERT ... ON CONFLICT (user_email, item_key) DO UPDATE`; the time is set again if `bump`.
unfoldable pub upsert_row : Bool → Text → Item → ℕ → List Row → List Row
unfolding is_row
upsert_row bump email item now [] = record { user_email = email; item = item; at = now } ∷ []
upsert_row bump email item now (r ∷ rows) =
    let rest = upsert_row bump email item now rows in
    if is_row email item.key r
    then record { user_email = r.user_email; item = item; at = if bump then now else r.at } ∷ rows
    else r ∷ rest

-- `DELETE FROM favorites WHERE user_email = ? AND item_key = ?`
unfoldable pub delete_row : Text → Text → List Row → List Row
unfolding is_row
delete_row email key rows = keep (λ r. not (is_row email key r)) rows

module _ (newest_first : List Row → List Row) where
  -- `DELETE FROM recents WHERE user_email = ? AND item_key NOT IN (...)`
  unfoldable pub prune : Text → List Row → List Row
  unfolding rows_of
  prune email rows =
      let kept = map (λ (r : Row). r.item.key) (take 20 (newest_first (rows_of email rows))) in
      keep (λ r. not (r.user_email == email) || contains kept r.item.key) rows

  unfoldable pub db_get_recents : Text → Db → List Row
  unfolding rows_of
  db_get_recents email db = take 20 (newest_first (rows_of email db.recents))

  unfoldable pub db_upsert_recent : Text → Item → ℕ → Db → Db
  unfolding prune upsert_row
  db_upsert_recent email item now db = record db {
    recents = prune email (upsert_row true email item now db.recents);
  }

  unfoldable pub db_get_favorites : Text → Db → List Row
  unfolding rows_of
  db_get_favorites email db = newest_first (rows_of email db.favorites)

  unfoldable pub get_recents : Headers → Exec Db (List Row)
  unfolding db_get_recents
  get_recents req = do email ← lift (email_from_request req); gets (db_get_recents email)

  unfoldable pub post_recents : Headers → Item → ℕ → Exec Db (Unit {0})
  unfolding db_upsert_recent
  post_recents req item now = do
    email ← lift (email_from_request req)
    modify (db_upsert_recent email item now)

  unfoldable pub get_favorites : Headers → Exec Db (List Row)
  unfolding db_get_favorites
  get_favorites req = do email ← lift (email_from_request req); gets (db_get_favorites email)

unfoldable pub db_upsert_favorite : Text → Item → ℕ → Db → Db
unfolding upsert_row
db_upsert_favorite email item now db = record db {
  favorites = upsert_row false email item now db.favorites;
}

unfoldable pub db_delete_favorite : Text → Text → Db → Db
unfolding delete_row
db_delete_favorite email key db = record db { favorites = delete_row email key db.favorites }

unfoldable pub post_favorites : Headers → Item → ℕ → Exec Db (Unit {0})
unfolding db_upsert_favorite
post_favorites req item now = do
  email ← lift (email_from_request req)
  modify (db_upsert_favorite email item now)

-- The answer is the number of rows that were removed.
unfoldable pub delete_favorite : Text → Headers → Exec Db ℕ
unfolding db_delete_favorite
delete_favorite key req = do
  email ← lift (email_from_request req)
  removed ← gets (λ db. length (keep (is_row email key) db.favorites))
  modify (db_delete_favorite email key)
  pure removed
