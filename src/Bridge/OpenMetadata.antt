-- ===== src/Bridge/OpenMetadata.antt =====
-- The class `OpenMetadata` of platform/18-om-access-bridge/app/app.py. User names in the
-- service's answers are texts; a name of another type ends in an error.
pub mod Laws
use Prim.{Unit, tt}
use fresh_stackable_data_pla.Prelude.{
  ℕ, Bool, true, false, ◌||◌, not, Option, none, some, List, [], ◌∷◌, ◌++◌, Text, Eq, nat_eq,
  text_eq, ◌==◌, if◌then◌else◌, contains, lookup, insert, is_empty,
}
use fresh_stackable_data_pla.Text.{txt}
use fresh_stackable_data_pla.Json.{Json, arr, nil, get, truthy, or_else, as_text, iterate}
use fresh_stackable_data_pla.Effect.{
  Result, ok, err, http, returned, raised, continue, Exec, lift, pure, raise, gets, modify, ◌>>=◌,
  ◌>>◌,
}
use fresh_stackable_data_pla.Bridge.World.{
  Assignee, Thread, Call, get_user, create_user, get_table, get_team, create_thread, Reply, Remote,
  World, send, json_of, raise_for_status,
}

-- The message of a request; 10 is the newline.
unfoldable pub request_message : Text → Text → Text → Text → Text
request_message requester purpose motivation duration =
    txt "Request Access — gebruiker "
    ++ (requester
        ++ (txt ", doel "
            ++ (purpose
                ++ ((if is_empty duration then [] else txt ", geldig " ++ duration)
                    ++ (txt "."
                        ++ (10
                            ∷ 10
                            ∷ (txt "Motivatie:"
                                ++ (10
                                    ∷ (if is_empty motivation
                                        then txt "(geen)"
                                        else motivation)))))))))

unfoldable pub entity_link : Text → Text
entity_link fqn = txt "<#E::" ++ (txt "table::" ++ (fqn ++ txt ">"))

-- The texts among the names of the users of a team.
user_names : List Json → Result (List Text)
user_names [] = ok []
user_names (u ∷ us) = elim (get "name" u) [
  | err e ↦ err e
  | ok v ↦ elim (user_names us) [
    | err e ↦ err e
    | ok rest ↦
        if truthy v then (elim (as_text v) [ err e ↦ err e | ok s ↦ ok (s ∷ rest) ]) else ok rest
  ]
]

-- A user with an id becomes a reference.
add_ref : Text → Option Json → List Assignee → List Assignee
add_ref u none refs = refs
add_ref u (some uid) refs = record { id = uid; name = u } ∷ refs

-- `self._user_id_cache[username] = uid`
cache_id : Text → Json → World → World
cache_id username uid w = record w { user_ids = insert username uid w.user_ids }

-- What an answer with an id adds to the cache.
remember : Text → Json → Exec World (Option Json)
unfolding cache_id
remember username body = do
  uid ← lift (get "id" body)
  if truthy uid then (do modify (cache_id username uid); pure (some uid)) else pure none

-- The answer of a lookup, or the error of `ensure_user`.
or_bad_gateway : Option Json → Exec World Json
or_bad_gateway (some uid) = pure uid
or_bad_gateway none = raise (http 502 "Kan OM-user niet aanmaken")

module _ (remote : Remote) where
  fetch_user_id : Text → Exec World (Option Json)
  unfolding remember
  fetch_user_id username = do
    r ← send remote (get_user username)
    if r.status == 200 then (do body ← lift (json_of r); remember username body) else pure none

  cached_or_fetched : Text → Option Json → Exec World (Option Json)
  unfolding fetch_user_id
  cached_or_fetched username (some uid) = pure (some uid)
  cached_or_fetched username none = fetch_user_id username

  unfoldable pub lookup_user_id : Text → Exec World (Option Json)
  unfolding cached_or_fetched
  lookup_user_id username = do
    known ← gets (λ w. lookup username w.user_ids)
    cached_or_fetched username known

  -- After the creation: its id, or a second lookup where another request was first.
  created_or_found : Text → Reply → Option Json → Exec World Json
  unfolding or_bad_gateway
  created_or_found username r (some uid) = pure uid
  created_or_found username r none =
      if r.status == 409
      then (do uid ← lookup_user_id username; or_bad_gateway uid)
      else raise (http 502 "Kan OM-user niet aanmaken")

  create_missing_user : Text → Exec World Json
  unfolding remember created_or_found
  create_missing_user username = do
    r ← send remote (create_user username)
    uid ←
        if contains (200 ∷ 201 ∷ []) r.status
        then (do body ← lift (json_of r); remember username body)
        else pure none
    created_or_found username r uid

  found_or_created : Text → Option Json → Exec World Json
  unfolding create_missing_user
  found_or_created username (some uid) = pure uid
  found_or_created username none = create_missing_user username

  unfoldable pub ensure_user : Text → Exec World Json
  unfolding found_or_created
  ensure_user username = do found ← lookup_user_id username; found_or_created username found

  -- `get_table`
  unfoldable pub get_asset : Text → Exec World Json
  get_asset fqn = do
    r ← send remote (get_table fqn)
    if r.status == 404
        then raise (http 404 "Asset niet gevonden in OpenMetadata")
        else do lift (raise_for_status r); lift (json_of r)

  unfoldable pub resolve_assignee_refs : List Text → Exec World (List Assignee)
  unfolding add_ref
  resolve_assignee_refs [] = pure []
  resolve_assignee_refs (u ∷ us) = do
    uid ← lookup_user_id u
    refs ← resolve_assignee_refs us
    pure (add_ref u uid refs)

  unfoldable pub lookup_team_users : Text → Exec World (List Text)
  unfolding user_names
  lookup_team_users team_name = do
    r ← send remote (get_team team_name)
    if r.status == 200
        then (do
          body ← lift (json_of r)
          users ← lift (get "users" body)
          vs ← lift (iterate (or_else users (arr nil)))
          lift (user_names vs))
        else pure []

  unfoldable pub create_request_task :
      Text → Text → Text → Text → Text → List Assignee → Exec World Json
  unfolding request_message entity_link
  create_request_task requester fqn purpose motivation duration assignees = do
    r ← send remote (
        create_thread (record {
          from = requester;
          message = request_message requester purpose motivation duration;
          about = entity_link fqn;
          assignees = assignees;
        }))
    if contains (200 ∷ 201 ∷ []) r.status
        then lift (json_of r)
        else raise (http 502 "OM Task POST faalde")
