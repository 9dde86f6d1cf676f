-- ===== src/Sync/Users.antt =====
-- keycloak_user_sync.py: the users of Keycloak's realm into OpenMetadata. The texts of a user are
-- texts; a value of another type, which Keycloak does not answer, is taken to raise.
pub mod Realm
pub mod Patches
use Prim.{Unit, tt}
use fresh_stackable_data_pla.Prelude.{
  ℕ, zero, suc, ◌+◌, Bool, true, false, not, ◌&&◌, ◌||◌, Option, none, some, List, [], ◌∷◌, ◌++◌,
  Text, nat_eq, text_eq, ◌==◌, ltb, if◌then◌else◌, is_empty, contains, length,
}
use fresh_stackable_data_pla.Text.{txt, join}
use fresh_stackable_data_pla.Json.{
  arr, nil, Json, str, get, item, iterate, truthy, or_else, as_text,
}
use fresh_stackable_data_pla.Effect.{out_of_fuel, Exec, pure, raise, lift, ◌>>=◌, ◌>>◌}
use fresh_stackable_data_pla.Http.{Reply, Remote, send, json_of, raise_for_error}

-- The body of `POST /api/v1/users`.
pub record Body : Type 0 where
  pub name : Text
  pub display_name : Text
  pub email : Text
  pub is_bot : Bool
  pub is_admin : Bool

pub data Verb : Type 0 where
  add replace : Verb

pub data Field : Type 0 where
  display_name_path email_path : Field

-- One operation of a JSON patch.
pub record Op : Type 0 where
  pub op : Verb
  pub path : Field
  pub value : Text

pub data Call : Type 0 where
  -- POST {kc}/realms/master/protocol/openid-connect/token
  token : Call
  -- GET {kc}/admin/realms/{realm}/users, from the first user on, at most so many
  list_users : Json → ℕ → ℕ → Call
  -- POST {om}/api/v1/users, GET {om}/api/v1/users/name/{name}, PATCH {om}/api/v1/users/{id}
  create_user : Body → Call
  get_user : Text → Call
  patch_user : Json → List Op → Call

-- `existing.get(k) == v`
unfoldable pub is_value : Json → Text → Bool
is_value (str s) v = s == v
is_value _ v = false

unfoldable pub op_for : Field → Json → Text → List Op
unfolding is_value
op_for path current value =
    if is_value current value
    then []
    else record { op = if truthy current then replace else add; path = path; value = value } ∷ []

-- The list `ops`, of the name and the address that OpenMetadata has.
unfoldable pub user_ops : Json → Json → Text → Text → List Op
unfolding op_for
user_ops display_now email_now display email =
    op_for display_name_path display_now display ++ op_for email_path email_now email

-- `filter(None, [...])` of two names
unfoldable pub true_names : Text → Text → List Text
true_names first last =
    (if is_empty first then [] else first ∷ []) ++ (if is_empty last then [] else last ∷ [])

-- `v or d` for texts
unfoldable pub text_or : Text → Text → Text
text_or [] d = d
text_or (c ∷ v) d = c ∷ v

-- `display`
unfoldable pub display_of : Text → Text → Text → Text
unfolding true_names text_or
display_of first last username = text_or (join (32 ∷ []) (true_names first last)) username

module _ (remote : Remote Call) where
  unfoldable pub get_kc_token : Exec (List Call) Json
  get_kc_token = do
    r ← send remote token
    lift (raise_for_error r)
    body ← lift (json_of r)
    lift (item "access_token" body)

  -- The loop of `list_kc_users`; fuel bounds the pages.
  unfoldable pub kc_users_from : ℕ → Json → ℕ → List Json → Exec (List Call) (List Json)
  kc_users_from zero tok first out = raise out_of_fuel
  kc_users_from (suc fuel) tok first out = do
    r ← send remote (list_users tok first 100)
    lift (raise_for_error r)
    body ← lift (json_of r)
    batch ← lift (iterate (or_else body (arr nil)))
    if is_empty batch
        then pure out
        else if ltb (length batch) 100
        then pure (out ++ batch)
        else kc_users_from fuel tok (first + 100) (out ++ batch)

  unfoldable pub list_kc_users : ℕ → Json → Exec (List Call) (List Json)
  unfolding kc_users_from
  list_kc_users fuel tok = kc_users_from fuel tok 0 []

  -- What follows an answer 409 or 422.
  unfoldable pub update_om_user : Text → Text → Text → Exec (List Call) (Unit {0})
  unfolding user_ops
  update_om_user username display email = do
    rr ← send remote (get_user username)
    if not (rr.status == 200) then pure tt else do
      existing ← lift (json_of rr)
      display_now ← lift (get "displayName" existing)
      email_now ← lift (get "email" existing)
      let ops = user_ops display_now email_now display email
      if is_empty ops
          then pure tt
          else do id ← lift (item "id" existing); upd ← send remote (patch_user id ops); pure tt

  unfoldable pub put_om_user : Text → Text → Text → Exec (List Call) (Unit {0})
  unfolding update_om_user
  put_om_user username display email = do
    r ← send remote (
        create_user (record {
          name = username;
          display_name = display;
          email = email;
          is_bot = false;
          is_admin = false;
        }))
    if contains (200 ∷ 201 ∷ []) r.status
        then pure tt
        else if contains (409 ∷ 422 ∷ []) r.status
        then update_om_user username display email
        else pure tt

  unfoldable pub upsert_om_user : Json → Exec (List Call) (Unit {0})
  unfolding put_om_user text_or display_of
  upsert_om_user user = do
    name ← lift (get "username" user)
    if not (truthy name) then pure tt else do
      username ← lift (as_text name)
      mail ← lift (get "email" user)
      given_mail ← lift (as_text (or_else mail (str [])))
      first ← lift (get "firstName" user)
      given_first ← lift (as_text (or_else first (str [])))
      last ← lift (get "lastName" user)
      given_last ← lift (as_text (or_else last (str [])))
      put_om_user username (display_of given_first given_last username)
          (text_or given_mail (username ++ txt "@uwv-platform.local"))

  unfoldable pub upsert_all : List Json → Exec (List Call) (Unit {0})
  upsert_all [] = pure tt
  upsert_all (u ∷ users) = do upsert_om_user u; upsert_all users

  unfoldable pub main : ℕ → Exec (List Call) ℕ
  unfolding list_kc_users upsert_all
  main fuel = do tok ← get_kc_token; users ← list_kc_users fuel tok; upsert_all users; pure 0
