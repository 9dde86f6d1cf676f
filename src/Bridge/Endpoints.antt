-- ===== src/Bridge/Endpoints.antt =====
-- The endpoints of platform/18-om-access-bridge/app/app.py: `create_access_request`, `webhook_om`
-- and `replay_task`.
pub mod Laws
pub mod Replay
pub mod RoundTrip
pub mod Requests
use Prim.{Unit, tt}
use fresh_stackable_data_pla.Prelude.{
  ℕ, zero, suc, Bool, true, false, ◌&&◌, ◌||◌, not, Option, none, some, List, [], ◌∷◌, ◌++◌, map,
  Text, Eq, text_eq, ◌==◌, if◌then◌else◌, contains, is_empty, keep,
}
use fresh_stackable_data_pla.Text.{txt, split}
use fresh_stackable_data_pla.Json.{
  Json, arr, nil, obj, end, str, get, is_dict, truthy, or_else, as_text, iterate,
}
use fresh_stackable_data_pla.Effect.{
  Result, ok, err, http, crash, returned, raised, continue, Exec, lift, pure, raise, gets, modify,
  ◌>>=◌, ◌>>◌,
}
use fresh_stackable_data_pla.Bridge.Signature.{Bytes, Codec, Config, verify_signature}
use fresh_stackable_data_pla.Bridge.Grant.{Python, Grant, supported_services, is_text, parse_grant}
use fresh_stackable_data_pla.Bridge.World.{Assignee, Remote, World}
use fresh_stackable_data_pla.Bridge.Keycloak.{grant_role}
use fresh_stackable_data_pla.Bridge.OpenMetadata.{
  ensure_user, get_asset, resolve_assignee_refs, lookup_team_users, create_request_task,
}

-- `AccessRequestBody`, whose requester and purpose pydantic wants non-empty.
pub record AccessRequest : Type 0 where
  pub asset_fqn : Text
  pub requester : Text
  pub purpose : Text
  pub motivation : Text
  pub duration : Text

-- The answer of `POST /api/request`.
pub record Created : Type 0 where
  pub task_id : Json
  pub asset_fqn : Text
  pub assignees : List Text

-- The answers of the webhook and of the replay.
pub data Answer : Type 0 where
  duplicate : Text → Answer
  granted : Text → Json → Text → Answer
  replayed : Text → Json → Text → Answer

-- The test on the parts of `asset_fqn`.
unfoldable pub is_asset : List Text → Bool
is_asset (service ∷ catalog ∷ schema ∷ table ∷ rest) = contains supported_services service
is_asset _ = false

-- The first of each, in order; the list holds the names that were seen.
unfoldable pub dedup : List Text → List Text → List Text
dedup seen [] = []
dedup seen (n ∷ ns) =
    let old = dedup seen ns in
    let new = n ∷ dedup (n ∷ seen) ns in if contains seen n then old else new

-- `_processed_events.add(task_id)` and `.discard(task_id)`
unfoldable pub mark : Text → World → World
mark id w = record w { processed = id ∷ w.processed }

unfoldable pub discard : Text → World → World
discard id w = record w { processed = keep (λ t. not (t == id)) w.processed }

-- `(event.get("task") or {}).get("id")`
unfoldable pub event_task_id : Json → Result Json
event_task_id event = elim (get "task" event) [
  | err e ↦ err e
  | ok task ↦ get "id" (or_else task (obj end))
]

module _ (remote : Remote) where
  -- The names that one owner stands for: a user, or the users of a team.
  owner_names_of : Json → Exec World (List Text)
  owner_names_of o = do
    name ← lift (get "name" o)
    otype ← lift (get "type" o)
    if truthy name
        then (do
          n ← lift (as_text name)
          if is_text (txt "user") otype
              then pure (n ∷ [])
              else if is_text (txt "team") otype
              then lookup_team_users remote n
              else pure [])
        else pure []

  owner_names : List Json → Exec World (List Text)
  unfolding owner_names_of
  owner_names [] = pure []
  owner_names (o ∷ os) = do ns ← owner_names_of o; rest ← owner_names os; pure (ns ++ rest)

  assignee_names : List Text → List Text
  assignee_names [] = txt "data.steward" ∷ []
  assignee_names (n ∷ ns) = n ∷ ns

  -- The end of `create_access_request`, from the test on the assignees.
  assign_task : AccessRequest → List Assignee → Exec World Created
  assign_task body [] = raise (http 500 "Geen van de assignees vindbaar")
  assign_task body (a ∷ more) = do
    task ←
        create_request_task remote body.requester body.asset_fqn body.purpose body.motivation
          body.duration (a ∷ more)
    id ← lift (get "id" task)
    pure (record {
      task_id = id;
      asset_fqn = body.asset_fqn;
      assignees = map (λ (r : Assignee). r.name) (a ∷ more);
    })

  -- The part of `create_access_request` behind the checks of its arguments.
  request_task : AccessRequest → Exec World Created
  unfolding owner_names assignee_names assign_task
  request_task body = do
    ensure_user remote body.requester
    asset ← get_asset remote body.asset_fqn
    owners ← lift (get "owners" asset)
    os ← lift (iterate (or_else owners (arr nil)))
    names ← owner_names os
    assignees ← resolve_assignee_refs remote (assignee_names (dedup [] names))
    assign_task body assignees

  -- `OM_ADMIN_TOKEN` comes from the environment.
  unfoldable pub create_access_request : Text → AccessRequest → Exec World Created
  unfolding request_task is_asset
  create_access_request om_admin_token body =
      if is_empty body.requester || is_empty body.purpose
      then raise (http 422 "")
      else if is_empty om_admin_token
      then raise (http 500 "OM_ADMIN_TOKEN niet geconfigureerd in bridge")
      else if is_asset (split b'.' body.asset_fqn)
      then request_task body
      else raise (http 400 "asset_fqn ongeldig")

  module _ (py : Python) where
    -- The part of the webhook behind the parsing.
    apply_grant : Grant → Exec World Answer
    apply_grant g w =
        if contains w.processed g.task_id
        then returned (duplicate g.task_id) w
        else (do
          grant_role remote g.requester g.role_name
          modify (mark g.task_id)
          pure (granted g.task_id g.requester g.role_name))
            w

    -- `parse_body` is `request.json()`; `now` is the clock in microseconds.
    unfoldable pub webhook_om :
        Codec → Config → (Bytes → Option Json) → ℕ → Bytes → Text → Text → Exec World Answer
    unfolding apply_grant
    webhook_om c g parse_body now raw x_om_signature x_om_timestamp = do
      lift (verify_signature c g now raw x_om_signature x_om_timestamp)
      event ← elim (parse_body raw) [ none ↦ raise crash | some v ↦ pure v ]
      grant ← lift (parse_grant py event)
      apply_grant grant

    -- FastAPI refuses a body that is no dict.
    unfoldable pub replay_task : Text → Json → Exec World Answer
    replay_task task_id event = if not (is_dict event) then raise (http 422 "") else do
      modify (discard task_id)
      id ← lift (event_task_id event)
      if not (is_text task_id id)
          then raise (http 400 "Body task.id mismatcht pad-parameter")
          else do
            grant ← lift (parse_grant py event)
            grant_role remote grant.requester grant.role_name
            modify (mark grant.task_id)
            pure (replayed grant.task_id grant.requester grant.role_name)
