-- ===== src/Bridge/OpenMetadata/Laws.antt =====
-- The requests of the methods of `OpenMetadata`.
use fresh_stackable_data_pla.Prelude.{Option, none, some, List, [], ◌∷◌, Text}
use fresh_stackable_data_pla.Json.{Json}
use fresh_stackable_data_pla.Effect.{modify}
use fresh_stackable_data_pla.Effect.Keeps.{Keeps, >>=-Keeps, pure-Keeps, modify-Keeps, keeps}
use fresh_stackable_data_pla.Bridge.World.{
  Assignee, Call, get_user, create_user, get_table, get_team, create_thread, Reply, Remote, World,
}
use fresh_stackable_data_pla.Bridge.World.Since.{Since, send-Since}
use fresh_stackable_data_pla.Bridge.OpenMetadata.{
  request_message, entity_link, cache_id, remember, fetch_user_id, cached_or_fetched,
  lookup_user_id, or_bad_gateway, created_or_found, create_missing_user, found_or_created,
  ensure_user, get_asset, resolve_assignee_refs, lookup_team_users, create_request_task,
}

module _ (remote : Remote) (Q : Call → Type 0) (w₀ : World) where
  cache_id-Since : (u : Text) (uid : Json) → Keeps (Since Q w₀) (modify (cache_id u uid))
  unfolding cache_id
  cache_id-Since u uid =
      modify-Keeps _ λ w s. record {
        new = s.new;
        log_eq = s.log_eq;
        sent = s.sent;
        processed_eq = s.processed_eq;
      }

  remember-Since : (u : Text) (body : Json) → Keeps (Since Q w₀) (remember u body)
  unfolding remember
  remember-Since u body = search (keeps, cache_id-Since)

  fetch_user_id-Since : (u : Text) → Q (get_user u) → Keeps (Since Q w₀) (fetch_user_id remote u)
  unfolding fetch_user_id
  fetch_user_id-Since u q = search (keeps, send-Since remote, remember-Since) depth 8

  cached_or_fetched-Since :
      (u : Text) (known : Option Json)
      → Q (get_user u)
      → Keeps (Since Q w₀) (cached_or_fetched remote u known)
  unfolding cached_or_fetched
  cached_or_fetched-Since u (some uid) q = pure-Keeps _
  cached_or_fetched-Since u none q = fetch_user_id-Since u q

  pub lookup_user_id-Since :
      (u : Text) → Q (get_user u) → Keeps (Since Q w₀) (lookup_user_id remote u)
  unfolding lookup_user_id
  lookup_user_id-Since u q = search (keeps, cached_or_fetched-Since)

  or_bad_gateway-Since : (o : Option Json) → Keeps (Since Q w₀) (or_bad_gateway o)
  unfolding or_bad_gateway
  or_bad_gateway-Since (some uid) = search keeps
  or_bad_gateway-Since none = search keeps

  created_or_found-Since :
      (u : Text) (r : Reply) (o : Option Json)
      → Q (get_user u)
      → Keeps (Since Q w₀) (created_or_found remote u r o)
  unfolding created_or_found
  created_or_found-Since u r (some uid) q = search keeps
  created_or_found-Since u r none q = search (keeps, lookup_user_id-Since, or_bad_gateway-Since)

  create_missing_user-Since :
      (u : Text)
      → Q (get_user u)
      → Q (create_user u)
      → Keeps (Since Q w₀) (create_missing_user remote u)
  unfolding create_missing_user
  create_missing_user-Since u q r =
      search (keeps, send-Since remote, remember-Since, created_or_found-Since) depth 9

  found_or_created-Since :
      (u : Text) (o : Option Json)
      → Q (get_user u)
      → Q (create_user u)
      → Keeps (Since Q w₀) (found_or_created remote u o)
  unfolding found_or_created
  found_or_created-Since u (some uid) q r = pure-Keeps _
  found_or_created-Since u none q r = create_missing_user-Since u q r

  pub ensure_user-Since :
      (u : Text) → Q (get_user u) → Q (create_user u) → Keeps (Since Q w₀) (ensure_user remote u)
  unfolding ensure_user
  ensure_user-Since u q r = search (keeps, lookup_user_id-Since, found_or_created-Since)

  pub get_asset-Since : (fqn : Text) → Q (get_table fqn) → Keeps (Since Q w₀) (get_asset remote fqn)
  unfolding get_asset
  get_asset-Since fqn q = search (keeps, send-Since remote) depth 8

  pub resolve_assignee_refs-Since :
      (us : List Text)
      → ((u : Text) → Q (get_user u))
      → Keeps (Since Q w₀) (resolve_assignee_refs remote us)
  unfolding resolve_assignee_refs
  resolve_assignee_refs-Since [] q = pure-Keeps _
  resolve_assignee_refs-Since (u ∷ us) q =
      >>=-Keeps (lookup_user_id-Since u (q u))
        λ uid. >>=-Keeps (resolve_assignee_refs-Since us q) λ refs. pure-Keeps _

  pub lookup_team_users-Since :
      (t : Text) → Q (get_team t) → Keeps (Since Q w₀) (lookup_team_users remote t)
  unfolding lookup_team_users
  lookup_team_users-Since t q = search (keeps, send-Since remote) depth 9

  pub create_request_task-Since :
      (requester fqn purpose motivation duration : Text) (assignees : List Assignee)
      → Q (
          create_thread (record {
            from = requester;
            message = request_message requester purpose motivation duration;
            about = entity_link fqn;
            assignees = assignees;
          }))
      → Keeps
          (Since Q w₀)
          (create_request_task remote requester fqn purpose motivation duration assignees)
  unfolding create_request_task
  create_request_task-Since requester fqn purpose motivation duration assignees q =
      search (keeps, send-Since remote) depth 8
