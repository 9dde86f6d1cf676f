-- ===== src/Bridge/Keycloak/Laws.antt =====
-- The requests of `grant_role`, and how they follow from the answers of Keycloak.
use Prim.{Unit, tt}
use fresh_stackable_data_pla.Prelude.{
  ◌≤◌, ◌≡◌, refl, sym, ap, ◌∙◌, Text, List, [], ◌∷◌, some, nat_eq, ◌==◌, arith, contains, ◌⊎◌,
}
use fresh_stackable_data_pla.Json.{Json, item, first_item, truthy}
use fresh_stackable_data_pla.Effect.{returned, ok, lift, >>=-inspect, lift-inspect}
use fresh_stackable_data_pla.Effect.Keeps.{Keeps, >>=-Keeps, lift-Keeps, lift->>=-Keeps}
use fresh_stackable_data_pla.Effect.Gives.{
  Gives, Gives->>=-Keeps, Gives-returned, >>=-Gives, lift->>=-Gives, lift-Gives, if-Gives,
  raise-Gives, Keeps->>=-Gives,
}
use fresh_stackable_data_pla.Bridge.World.{
  Call, token, find_user, get_role, create_role, assign_role, Reply, Remote, World, send,
  raise_unless, raise_for_status,
}
use fresh_stackable_data_pla.Bridge.World.Since.{
  Since, Since-refl, send-Since, send-Gives, send-returned,
}
use fresh_stackable_data_pla.Bridge.World.Answered.{Answered, fine-Answered, equal-Answered}
use fresh_stackable_data_pla.Bridge.Keycloak.{
  access_token, find_keycloak_user, create_missing_role, ensure_role, grant_role,
}

module _ (remote : Remote) where
  -- A token that Keycloak gave.
  abbrev pub IsToken : Json → Type 0
  IsToken tok = (body : Json) × Answered remote token body × (item "access_token" body ≡ ok tok)

  -- The id of the first of the users that Keycloak answered for the name.
  pub record IsUserId (tok username user_id : Json) : Type 0 where
    pub users : Json
    pub user : Json
    pub answered : Answered remote (find_user tok username) users
    pub first : first_item users ≡ ok user
    pub id : item "id" user ≡ ok user_id

  -- The id and the name in the role that Keycloak answered for the name.
  pub record IsRole (tok : Json) (role_name : Text) (role_id name : Json) : Type 0 where
    pub role : Json
    pub answered : Answered remote (get_role tok role_name) role
    pub id : item "id" role ≡ ok role_id
    pub named : item "name" role ≡ ok name

  -- The requests that a grant of the role to the user may send: each names the user or the role
  -- that was granted, none goes to OpenMetadata, and the assignment takes its ids from Keycloak's
  -- answers for the user and the role.
  abbrev pub Serves : Json → Text → Call → Type 0
  Serves username role_name token = Unit
  Serves username role_name (find_user tok u) = (u ≡ username) × IsToken tok
  Serves username role_name (get_role tok r) = (r ≡ role_name) × IsToken tok
  Serves username role_name (create_role tok r) = (r ≡ role_name) × IsToken tok
  Serves username role_name (assign_role tok user_id role_id name) =
      IsToken tok × IsUserId tok username user_id × IsRole tok role_name role_id name
  Serves username role_name _ = ⊥

module _ (remote : Remote) (username : Json) (role_name : Text) (w₀ : World) where
  abbrev P : World → Type 0
  P = Since (Serves remote username role_name) w₀

  access_token-Gives : Gives P (IsToken remote) (access_token remote)
  unfolding access_token
  access_token-Gives = >>=-Gives (send-Gives remote token tt) λ r (log, e). lift->>=-Gives _ λ t f.
      lift->>=-Gives _
        λ body b. lift-Gives _ λ tok i. (body, fine-Answered remote token r log e t body f b, i)

  module _ (tok : Json) (given : IsToken remote tok) where
    abbrev Found : Json → Type 0
    Found user =
        (users : Json) × Answered remote (find_user tok username) users
        × (first_item users ≡ ok user)

    find_keycloak_user-Gives : Gives P Found (find_keycloak_user remote tok username)
    unfolding find_keycloak_user
    find_keycloak_user-Gives =
        >>=-Gives (send-Gives remote (find_user tok username) (refl, given)) λ r (log, e).
          lift->>=-Gives _ λ t f. lift->>=-Gives _ λ users b.
            if-Gives (truthy users)
              (λ _. lift-Gives _ λ user i.
                (users, fine-Answered remote (find_user tok username) r log e t users f b, i))
              (λ _. raise-Gives _)

    create_missing_role-Gives :
        Gives P
          (Answered remote (get_role tok role_name))
          (create_missing_role remote tok role_name)
    unfolding create_missing_role
    create_missing_role-Gives =
        Keeps->>=-Gives (send-Since remote (create_role tok role_name) (refl, given)) λ create.
          lift->>=-Gives _ λ u _.
            >>=-Gives (send-Gives remote (get_role tok role_name) (refl, given)) λ r (log, e).
              lift->>=-Gives _ λ t f.
                lift-Gives _
                  λ role b. fine-Answered remote (get_role tok role_name) r log e t role f b

    ensure_role-Gives :
        Gives P (Answered remote (get_role tok role_name)) (ensure_role remote tok role_name)
    unfolding ensure_role
    ensure_role-Gives =
        >>=-Gives (send-Gives remote (get_role tok role_name) (refl, given)) λ r (log, e).
          if-Gives (r.status == 200)
            (λ q.
              lift-Gives _
                λ role b. equal-Answered remote (get_role tok role_name) r log e role q b)
            (λ _. lift->>=-Gives _ λ u _. create_missing_role-Gives)

  -- Whatever Keycloak answers, a grant marks no task and sends only requests that serve it.
  pub grant_role-Since : Keeps P (grant_role remote username role_name)
  unfolding grant_role
  grant_role-Since = Gives->>=-Keeps access_token-Gives λ tok t.
      Gives->>=-Keeps (find_keycloak_user-Gives tok t) λ user (users, a, f).
        Gives->>=-Keeps (ensure_role-Gives tok t) λ role b. lift->>=-Keeps _ λ user_id i.
          lift->>=-Keeps _ λ role_id j. lift->>=-Keeps _ λ name k.
            >>=-Keeps
              (send-Since remote (assign_role tok user_id role_id name) (
                t,
                record { users = users; user = user; answered = a; first = f; id = i },
                record { role = role; answered = b; id = j; named = k },
              ))
              λ r. lift-Keeps _

-- The assignment that a grant ends in: of the role that Keycloak answered for the name of the role,
-- to the user whom it answered for the name of the user; it was accepted, or the user had the role.
pub record Assigned (remote : Remote) (username : Json) (role_name : Text) (after : World)
    : Type 0 where
  pub tok : Json
  pub user_id : Json
  pub role_id : Json
  pub name : Json
  pub earlier : List Call
  pub reply : Reply
  pub newest : after.log ≡ assign_role tok user_id role_id name ∷ earlier
  pub serves : Serves remote username role_name (assign_role tok user_id role_id name)
  pub answer : remote earlier (assign_role tok user_id role_id name) ≡ some reply
  pub accepted : (reply.status ≡ 409) ⊎ ((200 ≤ reply.status) × (reply.status ≤ 299))

accepted_lem :
    (r : Reply) (t : Unit {0})
    → raise_unless (204 ∷ 409 ∷ []) r ≡ ok t
    → (r.status ≡ 409) ⊎ ((200 ≤ r.status) × (r.status ≤ 299))
unfolding raise_unless raise_for_status contains
accepted_lem r t h = ground (arith, h)

-- A grant that returns has assigned the role: its last request is the assignment, with a token of
-- Keycloak, of the id and the name in the role that Keycloak answered for the name of the role, to
-- the id of the first user whom it answered for the name of the user; the answer to it is a success,
-- or a 409.
pub grant_role-Assigned :
    (remote : Remote) (username : Json) (role_name : Text) (w w' : World)
    → grant_role remote username role_name w ≡ returned tt w'
    → Assigned remote username role_name w'
unfolding grant_role
grant_role-Assigned remote username role_name w w' h =
    >>=-inspect (access_token remote) _ w h λ tok w₁ e₁ h₁.
      >>=-inspect (find_keycloak_user remote tok username) _ w₁ h₁ λ user w₂ e₂ h₂.
        >>=-inspect (ensure_role remote tok role_name) _ w₂ h₂ λ role w₃ e₃ h₃.
          >>=-inspect (lift (item "id" user)) _ w₃ h₃ λ user_id w₄ e₄ h₄.
            >>=-inspect (lift (item "id" role)) _ w₄ h₄ λ role_id w₅ e₅ h₅.
              >>=-inspect (lift (item "name" role)) _ w₅ h₅ λ name w₆ e₆ h₆.
                >>=-inspect (send remote (assign_role tok user_id role_id name)) _ w₆ h₆
                  λ r w₇ e₇ h₇. lift-inspect _ w₃ e₄ λ i s₄. lift-inspect _ w₄ e₅ λ j s₅.
                    lift-inspect _ w₅ e₆ λ k s₆. lift-inspect _ w₇ h₇ λ c s₇.
                      let (p₁, t) =
                        Gives-returned (access_token-Gives remote username role_name w) w
                          (Since-refl _ w) e₁ in
                      let (p₂, f) =
                        Gives-returned (find_keycloak_user-Gives remote username role_name w tok t)
                          w₁ p₁ e₂ in
                      let (p₃, a) =
                        Gives-returned (ensure_role-Gives remote username role_name w tok t) w₂ p₂
                          e₃ in
                      let (answer, log) = send-returned remote _ w₆ w₇ r e₇ in
                      record {
                        tok = tok;
                        user_id = user_id;
                        role_id = role_id;
                        name = name;
                        earlier = w₆.log;
                        reply = r;
                        newest = ap (λ u. u.log) (sym s₇) ∙ log;
                        serves = (
                          t,
                          record { users = f.0; user = user; answered = f.1; first = f.2; id = i },
                          record { role = role; answered = a; id = j; named = k },
                        );
                        answer = answer;
                        accepted = accepted_lem r tt c;
                      }
