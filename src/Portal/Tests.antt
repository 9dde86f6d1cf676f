-- ===== src/Portal/Tests.antt =====
-- A table with a favourite of one user, and the theorems there.
use fresh_stackable_data_pla.Prelude.{
  ℕ, ltb, length, insert, nat_eq, arith, ◌≡◌, refl, true, false, some, none, List, [], ◌∷◌, Text,
  text_eq, ◌==◌,
}
use fresh_stackable_data_pla.Portal.Store.{
  Headers, email_from_request, Item, Row, Db, db_upsert_recent, db_upsert_favorite,
  db_delete_favorite,
}
use fresh_stackable_data_pla.Text.{strip, lower}
use fresh_stackable_data_pla.Effect.{ok, returned}
use fresh_stackable_data_pla.Portal.Search.{Hit, Sources, cache_set}
use fresh_stackable_data_pla.Portal.Search.Endpoint
use fresh_stackable_data_pla.Portal.Search.Endpoint.{search, search-cache_set}
use fresh_stackable_data_pla.Portal.Owners.{SameRows, upsert_row-SameRows}
use fresh_stackable_data_pla.Portal.Favorites.{
  find_row, at_or, db_upsert_favorite-db_delete_favorite,
}

abbrev anna : Text
anna = b'a' ∷ []

abbrev bram : Text
bram = b'b' ∷ []

abbrev superset : Item
superset = record {
  key = b's' ∷ [];
  type = b'd' ∷ [];
  service = b's' ∷ [];
  title = b't' ∷ [];
  subtitle = [];
  href = b'/' ∷ [];
}

abbrev starred : Db
starred = record {
  recents = [];
  favorites = record { user_email = anna; item = superset; at = 7 } ∷ [];
}

abbrev as_stored : List Row → List Row
as_stored rows = rows

differ : anna == bram ≡ false
unfolding text_eq
differ = refl

upsert_row-SameRows_example :
    SameRows anna starred (db_upsert_recent as_stored bram superset 9 starred)
    × SameRows anna starred (db_upsert_favorite bram superset 9 starred)
    × SameRows anna starred (db_delete_favorite bram superset.key starred)
upsert_row-SameRows_example =
    upsert_row-SameRows as_stored bram anna superset superset.key 9 starred differ

db_upsert_favorite-db_delete_favorite_example :
    (find_row anna superset.key (db_upsert_favorite anna superset 9 starred).favorites
      ≡ some (record {
        user_email = anna;
        item = superset;
        at = at_or 9 (find_row anna superset.key starred.favorites);
      }))
    × (find_row anna superset.key
          (db_delete_favorite anna superset.key
            (db_upsert_favorite anna superset 9 starred)).favorites
        ≡ none)
db_upsert_favorite-db_delete_favorite_example =
    db_upsert_favorite-db_delete_favorite anna superset 9 starred

-- A header with a name, an empty cache, and a query.
abbrev signed_in : Headers
signed_in = record { x_auth_request_email = anna; x_forwarded_email = []; x_auth_request_user = [] }

abbrev silent : Endpoint.Remote
silent log c = none

abbrev no_urls : Sources
no_urls = record { openmetadata_url = false; airflow_url = false; grafana_url = false }

abbrev fresh : Endpoint.World
fresh = record { cache = []; log = [] }

given_email : email_from_request signed_in ≡ ok anna
unfolding email_from_request strip nat_eq
given_email = refl

long_enough : ltb (length (strip (b'a' ∷ b'b' ∷ []))) 2 ≡ false
unfolding strip nat_eq
long_enough = refl

room :
    ltb 200 (length (insert {V = ℕ × List Hit} (lower (strip (b'a' ∷ b'b' ∷ []))) (5, []) []))
    ≡ false
unfolding insert
room = refl

search-cache_set_example :
    search silent no_urls signed_in
      (b'a' ∷ b'b' ∷ [])
      9
      9
      (record fresh { cache = cache_set 5 (lower (strip (b'a' ∷ b'b' ∷ []))) [] [] })
    ≡ returned
        (record { items = []; q = strip (b'a' ∷ b'b' ∷ []); cached = true })
        (record fresh { cache = cache_set 5 (lower (strip (b'a' ∷ b'b' ∷ []))) [] [] })
search-cache_set_example =
    search-cache_set silent no_urls signed_in anna (b'a' ∷ b'b' ∷ []) 9 5 9 [] fresh given_email
      long_enough room (omega arith)
