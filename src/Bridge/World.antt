-- ===== src/Bridge/World.antt =====
-- The requests that the bridge sends, their answers, and its state (the clients of
-- platform/18-om-access-bridge/app/app.py). The other services are a function of the requests so
-- far, so that nothing is assumed of them.
pub mod Since
pub mod Answered
pub use fresh_stackable_data_pla.Http.{Reply}
unfoldable pub use fresh_stackable_data_pla.Http.{json_of, raise_for_status}
use Prim.{Unit, tt}
use fresh_stackable_data_pla.Prelude.{
  ℕ, Bool, true, false, ◌&&◌, ◌||◌, Option, none, some, List, [], ◌∷◌, Text, Dict, Eq, nat_eq, ◌==◌,
  leb, if◌then◌else◌, contains,
}
use fresh_stackable_data_pla.Json.{Json}
use fresh_stackable_data_pla.Effect.{
  Result, ok, err, client_error, crash, Outcome, returned, raised, Exec, lift, pure, raise, ◌>>=◌,
  ◌>>◌,
}

-- An assignee reference; its `type` is always "user".
pub record Assignee : Type 0 where
  pub id : Json
  pub name : Text

-- The body of `POST /api/v1/feed`; its `type` is "Task", that of its details "RequestDescription".
pub record Thread : Type 0 where
  pub from : Text
  pub message : Text
  pub about : Text
  pub assignees : List Assignee

pub data Call : Type 0 where
  -- POST {keycloak}/realms/{realm}/protocol/openid-connect/token
  token : Call
  -- GET {keycloak}/admin/realms/{realm}/users, exact on the user name
  find_user : Json → Json → Call
  -- GET and POST {keycloak}/admin/realms/{realm}/roles
  get_role : Json → Text → Call
  create_role : Json → Text → Call
  -- POST {keycloak}/admin/realms/{realm}/users/{id}/role-mappings/realm, with the role's id and name
  assign_role : Json → Json → Json → Json → Call
  -- GET {om}/api/v1/users/name/{name} and POST {om}/api/v1/users
  get_user : Text → Call
  create_user : Text → Call
  -- GET {om}/api/v1/tables/name/{fqn} and {om}/api/v1/teams/name/{name}
  get_table : Text → Call
  get_team : Text → Call
  -- POST {om}/api/v1/feed
  create_thread : Thread → Call

-- None is a request that got no answer.
abbrev pub Remote : Type 0
Remote = List Call → Call → Option Reply

-- `_processed_events`, the user ids that `OpenMetadata` caches, and the requests, newest first.
pub record World : Type 0 where
  pub processed : List Text
  pub user_ids : Dict Text Json
  pub log : List Call

answered : Call → World → Option Reply → Outcome World Reply
answered c w none = raised client_error (record w { log = c ∷ w.log })
answered c w (some r) = returned r (record w { log = c ∷ w.log })

unfoldable pub send : Remote → Call → Exec World Reply
unfolding answered
send remote c w = answered c w (remote w.log c)

-- `if r.status_code not in (...): r.raise_for_status()`
unfoldable pub raise_unless : List ℕ → Reply → Result (Unit {0})
unfolding raise_for_status
raise_unless expected r = if contains expected r.status then ok tt else raise_for_status r
