-- ===== src/Bridge/Keycloak.antt =====
-- The class `Keycloak` of platform/18-om-access-bridge/app/app.py.
pub mod Laws
use Prim.{Unit, tt}
use fresh_stackable_data_pla.Prelude.{
  ℕ, Bool, true, false, Option, none, some, List, [], ◌∷◌, Text, Eq, nat_eq, ◌==◌, if◌then◌else◌,
}
use fresh_stackable_data_pla.Json.{Json, item, first_item, truthy}
use fresh_stackable_data_pla.Effect.{
  ok, err, http, returned, raised, continue, Exec, lift, pure, raise, ◌>>=◌, ◌>>◌,
}
use fresh_stackable_data_pla.Bridge.World.{
  Call, token, find_user, get_role, create_role, assign_role, Reply, Remote, World, send, json_of,
  raise_for_status, raise_unless,
}

module _ (remote : Remote) where
  -- `_token`
  unfoldable pub access_token : Exec World Json
  access_token = do
    r ← send remote token
    lift (raise_for_status r)
    body ← lift (json_of r)
    lift (item "access_token" body)

  -- `_find_user`
  unfoldable pub find_keycloak_user : Json → Json → Exec World Json
  find_keycloak_user tok username = do
    r ← send remote (find_user tok username)
    lift (raise_for_status r)
    users ← lift (json_of r)
    if truthy users then lift (first_item users) else raise (http 404 "Keycloak-user niet gevonden")

  create_missing_role : Json → Text → Exec World Json
  create_missing_role tok role_name = do
    create ← send remote (create_role tok role_name)
    lift (raise_unless (201 ∷ 409 ∷ []) create)
    get_after ← send remote (get_role tok role_name)
    lift (raise_for_status get_after)
    lift (json_of get_after)

  -- `_ensure_role`
  unfoldable pub ensure_role : Json → Text → Exec World Json
  unfolding create_missing_role
  ensure_role tok role_name = do
    get ← send remote (get_role tok role_name)
    if get.status == 200
        then lift (json_of get)
        else do lift (raise_unless (404 ∷ []) get); create_missing_role tok role_name

  -- `grant_role`
  unfoldable pub grant_role : Json → Text → Exec World (Unit {0})
  grant_role username role_name = do
    tok ← access_token
    user ← find_keycloak_user tok username
    role ← ensure_role tok role_name
    user_id ← lift (item "id" user)
    role_id ← lift (item "id" role)
    name ← lift (item "name" role)
    r ← send remote (assign_role tok user_id role_id name)
    lift (raise_unless (204 ∷ 409 ∷ []) r)
