-- ===== src/Bridge/Endpoints/Requests.antt =====
-- `create_access_request`: the requests that it sends, and the names that it assigns.
use Prim.{Unit, tt}
use fresh_stackable_data_pla.Prelude.{
  ◌≡◌, ◌≢◌, refl, ◌&&◌, ◌||◌, not, List, [], ◌∷◌, Text, text_eq, arith, is_empty, contains, IsNodup,
}
use fresh_stackable_data_pla.Text.{split}
use fresh_stackable_data_pla.Json.{Json}
use fresh_stackable_data_pla.Effect.{http}
use fresh_stackable_data_pla.Effect.Keeps.{
  Keeps, >>=-Keeps, lift-Keeps, pure-Keeps, raise-Keeps, if-Keeps,
}
use fresh_stackable_data_pla.Bridge.World.{
  Assignee, Call, get_user, create_user, get_table, get_team, create_thread, Remote, World,
}
use fresh_stackable_data_pla.Bridge.World.Since.{Since}
use fresh_stackable_data_pla.Bridge.OpenMetadata.{request_message, entity_link}
use fresh_stackable_data_pla.Bridge.OpenMetadata.Laws.{
  ensure_user-Since, get_asset-Since, resolve_assignee_refs-Since, lookup_team_users-Since,
  create_request_task-Since,
}
use fresh_stackable_data_pla.Bridge.Endpoints.{
  AccessRequest, is_asset, dedup, owner_names_of, owner_names, assign_task, request_task,
  create_access_request,
}

-- What a request for access may send: look-ups, the account of the requester, and a task from the
-- requester about the asset, with the request's message and at least one assignee.
abbrev pub Asks : AccessRequest → Call → Type 0
Asks body (get_user u) = Unit
Asks body (create_user u) = u ≡ body.requester
Asks body (get_table fqn) = fqn ≡ body.asset_fqn
Asks body (get_team t) = Unit
Asks body (create_thread t) =
    (t.from ≡ body.requester)
    × (t.about ≡ entity_link body.asset_fqn)
    × (t.message ≡ request_message body.requester body.purpose body.motivation body.duration)
    × (t.assignees ≢ [])
Asks body _ = ⊥

module _ (remote : Remote) (body : AccessRequest) (w₀ : World) where
  owner_names_of-Since : (o : Json) → Keeps (Since (Asks body) w₀) (owner_names_of remote o)
  unfolding owner_names_of
  owner_names_of-Since o = >>=-Keeps (lift-Keeps _) λ name. >>=-Keeps (lift-Keeps _) λ otype.
      if-Keeps _
        (>>=-Keeps (lift-Keeps _) λ n.
          if-Keeps _ (pure-Keeps _)
            (if-Keeps _ (lookup_team_users-Since remote _ w₀ n tt) (pure-Keeps _)))
        (pure-Keeps _)

  owner_names-Since : (os : List Json) → Keeps (Since (Asks body) w₀) (owner_names remote os)
  unfolding owner_names
  owner_names-Since [] = pure-Keeps _
  owner_names-Since (o ∷ os) =
      >>=-Keeps (owner_names_of-Since o) λ ns. >>=-Keeps (owner_names-Since os) λ rest. pure-Keeps _

  assigned-Since :
      (assignees : List Assignee) → Keeps (Since (Asks body) w₀) (assign_task remote body assignees)
  unfolding assign_task
  assigned-Since [] = raise-Keeps _
  assigned-Since (a ∷ more) =
      >>=-Keeps
        (create_request_task-Since remote (Asks body) w₀ _ _ _ _ _ _ (refl, refl, refl, λ e. cc))
        λ task. >>=-Keeps (lift-Keeps _) λ id. pure-Keeps _

  request_task-Since : Keeps (Since (Asks body) w₀) (request_task remote body)
  unfolding request_task
  request_task-Since = >>=-Keeps (ensure_user-Since remote _ w₀ body.requester tt refl) λ u.
      >>=-Keeps (get_asset-Since remote _ w₀ body.asset_fqn refl) λ asset.
        >>=-Keeps (lift-Keeps _) λ owners. >>=-Keeps (lift-Keeps _) λ os.
          >>=-Keeps (owner_names-Since os) λ names.
            >>=-Keeps (resolve_assignee_refs-Since remote _ w₀ _ (λ v. tt))
              λ refs. assigned-Since refs

-- Whatever the services answer, a request for access marks no task, sends nothing to Keycloak, and
-- creates a task only from its requester about its asset and with an assignee.
pub create_access_request-Since :
    (remote : Remote) (om_admin_token : Text) (body : AccessRequest) (w : World)
    → Keeps (Since (Asks body) w) (create_access_request remote om_admin_token body)
unfolding create_access_request
create_access_request-Since remote om_admin_token body w =
    if-Keeps (is_empty body.requester || is_empty body.purpose) (raise-Keeps (http 422 "")) (
      if-Keeps (is_empty om_admin_token)
        (raise-Keeps (http 500 "OM_ADMIN_TOKEN niet geconfigureerd in bridge"))
        (if-Keeps (is_asset (split b'.' body.asset_fqn)) (request_task-Since remote body w)
          (raise-Keeps (http 400 "asset_fqn ongeldig"))))

-- The names behind `seen` that the list has.
contains-dedup_seen :
    (seen ns : List Text) (n : Text)
    → contains (dedup seen ns) n ≡ (not (contains seen n) && contains ns n)
unfolding dedup contains
contains-dedup_seen seen [] n = ground arith
contains-dedup_seen seen (m ∷ ns) n =
    ground (arith, contains-dedup_seen seen ns n, contains-dedup_seen (m ∷ seen) ns n)

dedup_seen-IsNodup : (seen ns : List Text) → IsNodup (dedup seen ns)
unfolding dedup contains
dedup_seen-IsNodup seen [] = tt
dedup_seen-IsNodup seen (m ∷ ns) = ground (
  arith,
  dedup_seen-IsNodup seen ns,
  dedup_seen-IsNodup (m ∷ seen) ns,
  contains-dedup_seen (m ∷ seen) ns m,
)

-- The assignees' names are the owners' names, each once.
pub dedup_lem :
    (ns : List Text)
    → IsNodup (dedup [] ns) × ((n : Text) → contains (dedup [] ns) n ≡ contains ns n)
unfolding contains
dedup_lem ns = (dedup_seen-IsNodup [] ns, λ n. contains-dedup_seen [] ns n)
