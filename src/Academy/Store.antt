-- ===== src/Academy/Store.antt =====
-- `_kc_admin_token`, `_kc_user_attr`, `get_progress` and `put_progress`.
use fresh_stackable_data_pla.Prelude.{ℕ, Bool, Option, List, Text, if◌then◌else◌}
use fresh_stackable_data_pla.Json.{
  Json, Fields, str, arr, obj, nil, cons, end, item, first_item, truthy, is_dict,
}
use fresh_stackable_data_pla.Json.Dicts.{get_or, dict_of, set_field}
use fresh_stackable_data_pla.Effect.Raises.{guard}
use fresh_stackable_data_pla.Effect.{Result, http, crash, Exec, pure, raise, lift, ◌>>=◌, ◌>>◌}
use fresh_stackable_data_pla.Http.{Remote, json_of, raise_for_error, send}
use fresh_stackable_data_pla.Academy.{username_from_request, clean, size, progress_of}

pub data Call : Type 0 where
  token : Call
  -- GET users?username={user}&exact=true
  find_user : Json → Text → Call
  -- PUT users/{uid} with the attributes
  put_user : Json → Json → Fields → Call

-- `KEYCLOAK_URL` and the variables of the client are set.
pub record Settings : Type 0 where
  pub url_set : Bool
  pub client_set : Bool

-- `users[0].get("attributes", {})`
unfoldable pub attributes_of : Json → Result Json
attributes_of user = get_or "attributes" (obj end) user

-- `attrs[ATTR_KEY] = [str(write)]`
unfoldable pub with_progress : Text → Fields → Fields
with_progress written attrs = set_field "udp_progress" (arr (cons (str written) nil)) attrs

module _ (remote : Remote Call) (settings : Settings) where
  unfoldable pub kc_admin_token : Exec (List Call) Json
  kc_admin_token = do
    lift (guard settings.url_set (http 503 "KEYCLOAK_URL not set"))
    lift (guard settings.client_set crash)
    r ← send remote token
    lift (raise_for_error r)
    body ← lift (json_of r)
    lift (item "access_token" body)

  -- The user of the name, as Keycloak has it.
  unfoldable pub kc_user : Json → Text → Exec (List Call) Json
  kc_user tok user = do
    r ← send remote (find_user tok user)
    lift (raise_for_error r)
    users ← lift (json_of r)
    if truthy users then lift (first_item users) else raise (http 404 "user not found")

  -- `_kc_user_attr(user, write)` for a text to write.
  unfoldable pub write_user_attr : Text → Text → Exec (List Call) Text
  unfolding kc_admin_token kc_user attributes_of with_progress
  write_user_attr user written = do
    tok ← kc_admin_token
    found ← kc_user tok user
    uid ← lift (item "id" found)
    old ← lift (attributes_of found)
    attrs ← lift (dict_of old)
    r ← send remote (put_user tok uid (with_progress written attrs))
    lift (raise_for_error r)
    pure written

  -- `_kc_user_attr(user)`
  unfoldable pub read_user_attr : Text → Exec (List Call) Json
  unfolding kc_admin_token kc_user attributes_of
  read_user_attr user = do
    tok ← kc_admin_token
    found ← kc_user tok user
    uid ← lift (item "id" found)
    lift (attributes_of found)

  module _ (dumps : Json → Text) (loads : Text → Option Json) where
    unfoldable pub get_progress : Text → Exec (List Call) (Text × Json)
    unfolding username_from_request read_user_attr progress_of
    get_progress header = do
      user ← lift (username_from_request header)
      attrs ← read_user_attr user
      progress ← lift (progress_of loads attrs)
      pure (user, progress)

    -- The body of the request as JSON, if it is any.
    unfoldable pub put_progress : Text → Result Json → Exec (List Call) ℕ
    unfolding username_from_request write_user_attr clean size
    put_progress header request = do
      user ← lift (username_from_request header)
      body ← lift request
      progress ← lift (get_or "progress" (obj end) body)
      lift (guard (is_dict progress) (http 400 "progress must be an object"))
      entries ← lift (dict_of progress)
      cleaned ← lift (clean entries)
      write_user_attr user (dumps (obj cleaned))
      pure (size cleaned)
