-- ===== src/Bridge/Endpoints/Laws.antt =====
-- What the webhook does to the state: nothing unless the request is signed and approved, and
-- nothing twice.
use Prim.{Unit, tt}
use fresh_stackable_data_pla.Prelude.{
  ℕ, ◌≡◌, sym, ap, ◌∙◌, ◌⊎◌, inl, inr, true, false, Option, some, List, ◌∷◌, ◌++◌, Text, text_eq,
  ==-refl, arith, contains, All, Bool-cases, Option-cases,
}
use fresh_stackable_data_pla.Json.{Json}
use fresh_stackable_data_pla.Effect.{
  Error, ok, crash, Outcome, returned, raised, final, continue, Exec, pure, modify, ◌>>=◌, ◌>>◌,
  >>=-inspect,
}
use fresh_stackable_data_pla.Effect.Raises.{Result-cases}
use fresh_stackable_data_pla.Bridge.Signature.{Bytes, Codec, Config, verify_signature}
use fresh_stackable_data_pla.Bridge.Grant.{Python, Grant, parse_grant}
use fresh_stackable_data_pla.Bridge.Grant.Laws.{IsApproved, parse_grant_sound}
use fresh_stackable_data_pla.Bridge.World.{Call, Remote, World}
use fresh_stackable_data_pla.Bridge.World.Since.{Since, Since-refl}
use fresh_stackable_data_pla.Bridge.Keycloak.{grant_role}
use fresh_stackable_data_pla.Bridge.Keycloak.Laws.{Serves, grant_role-Since}
use fresh_stackable_data_pla.Bridge.Endpoints.{
  Answer, duplicate, granted, mark, apply_grant, webhook_om,
}

-- The requests between two states serve the grant; the task is marked at most once, and nothing
-- else is.
pub record Applied (remote : Remote) (g : Grant) (w w' : World) : Type 0 where
  pub new : List Call
  pub log_eq : w'.log ≡ new ++ w.log
  pub serving : All (Serves remote g.requester g.role_name) new
  pub marked : (w'.processed ≡ w.processed) ⊎ (w'.processed ≡ g.task_id ∷ w.processed)

module _ (remote : Remote) (py : Python) (g : Grant) where
  abbrev after_role : Unit {0} → Exec World Answer
  after_role t = do modify (mark g.task_id); pure (granted g.task_id g.requester g.role_name)

  after_role-Applied :
      (w : World) (o : Outcome World Unit)
      → Since (Serves remote g.requester g.role_name) w (final o)
      → Applied remote g w (final (continue after_role o))
  unfolding mark ◌>>=◌
  after_role-Applied w (returned t w') s = record {
    new = s.new;
    log_eq = s.log_eq;
    serving = s.sent;
    marked = inr (ap (λ l. g.task_id ∷ l) s.processed_eq);
  }
  after_role-Applied w (raised e w') s = record {
    new = s.new;
    log_eq = s.log_eq;
    serving = s.sent;
    marked = inl s.processed_eq;
  }

  apply_grant-Applied :
      (w : World)
      → contains w.processed g.task_id ≡ false
      → Applied remote g w (final (apply_grant remote py g w))
  unfolding apply_grant ◌>>=◌
  apply_grant-Applied w fresh =
      rw (fresh, apply_grant)
        (after_role-Applied w (grant_role remote g.requester g.role_name w)
          ((grant_role-Since remote g.requester g.role_name w).at w (Since-refl _ w)))

  apply_grant_twice :
      (w : World)
      → contains w.processed g.task_id ≡ true
      → apply_grant remote py g w ≡ returned (duplicate g.task_id) w
  unfolding apply_grant
  apply_grant_twice w old = ground arith

module _ (remote : Remote) (py : Python) (g : Grant) where
  apply_grant_marked :
      (w w' : World) (answer : Answer)
      → apply_grant remote py g w ≡ returned answer w'
      → contains w'.processed g.task_id ≡ true
  unfolding apply_grant contains mark ◌>>=◌
  apply_grant_marked w w' answer h = elim (Bool-cases (contains w.processed g.task_id)) [
    | inl old ↦ ground (arith, old, h)
    | inr fresh ↦
        >>=-inspect (grant_role remote g.requester g.role_name) (after_role remote py g) w
          (rw (fresh, apply_grant) at h) λ t u e k. ground (arith, ==-refl g.task_id)
  ]

  continue_raised :
      (w : World) (o : Outcome World Unit) (e : Error) (w' : World)
      → Since (Serves remote g.requester g.role_name) w (final o)
      → continue (after_role remote py g) o ≡ raised e w'
      → w'.processed ≡ w.processed
  unfolding ◌>>=◌
  continue_raised w (returned t u) e w' s h = absurd (cc)
  continue_raised w (raised e' u) e w' s h = ground (arith, s.processed_eq)

  apply_grant_raised :
      (w w' : World) (e : Error)
      → apply_grant remote py g w ≡ raised e w'
      → w'.processed ≡ w.processed
  unfolding apply_grant ◌>>=◌
  apply_grant_raised w w' e h = elim (Bool-cases (contains w.processed g.task_id)) [
    | inl old ↦ ground arith
    | inr fresh ↦
        continue_raised w (grant_role remote g.requester g.role_name w) e w'
          ((grant_role-Since remote g.requester g.role_name w).at w (Since-refl _ w))
          (rw (fresh, apply_grant) at h)
  ]

module _ (remote : Remote) (py : Python) (c : Codec) (cfg : Config)
    (parse_body : Bytes → Option Json) (raw : Bytes) (sig ts : Text) where
  abbrev hook : ℕ → Exec World Answer
  hook now = webhook_om remote py c cfg parse_body now raw sig ts

  -- What a request holds that reaches the grant.
  pub record IsAuthentic (now : ℕ) (g : Grant) : Type 0 where
    pub event : Json
    pub verified : verify_signature c cfg now raw sig ts ≡ ok tt
    pub parsed : parse_body raw ≡ some event
    pub grants : parse_grant py event ≡ ok g

  hook_verified :
      (now : ℕ) (g : Grant) (w : World) → IsAuthentic now g → hook now w ≡ apply_grant remote py g w
  unfolding webhook_om ◌>>=◌
  hook_verified now g w a = ground (arith, a.verified, a.parsed, a.grants)

  -- A request that is not signed, is no JSON or is no grant leaves the state alone.
  hook_refused :
      (now : ℕ) (w : World)
      → ((g : Grant) × IsAuthentic now g) ⊎ ((e : Error) × (hook now w ≡ raised e w))
  unfolding webhook_om ◌>>=◌
  hook_refused now w = elim (Result-cases (verify_signature c cfg now raw sig ts)) [
    | inl (e, h) ↦ inr (e, ground (arith, h))
    | inr (t, h) ↦ elim (Option-cases (parse_body raw)) [
      | inl k ↦ inr (crash, ground (arith, h, k))
      | inr (event, k) ↦ elim (Result-cases (parse_grant py event)) [
        | inl (e, l) ↦ inr (e, ground (arith, h, k, l))
        | inr (g, l) ↦ inl (g, record { event = event; verified = h; parsed = k; grants = l })
      ]
    ]
  ]

  -- Whatever the services answer, a request to the webhook either leaves the state as it was, or
  -- its signature holds, it is approved by the rules for a grant of a task that was not processed,
  -- and then no other task is marked and every request that is sent serves this grant: it asks for a
  -- token, the user or the role, creates the role, or assigns the role that Keycloak answered for its
  -- name to the id of the first user that Keycloak answered for the requester.
  pub webhook_om_safe :
      (now : ℕ) (w : World)
      → (final (hook now w) ≡ w)
        ⊎ ((g : Grant) × (a : IsAuthentic now g) × IsApproved py a.event g
            × (contains w.processed g.task_id ≡ false)
            × Applied remote g w (final (hook now w)))
  webhook_om_safe now w = elim (hook_refused now w) [
    | inr (e, same) ↦ inl (ap final same)
    | inl (g, a) ↦ elim (Bool-cases (contains w.processed g.task_id)) [
      | inl old ↦ inl (ap final (hook_verified now g w a ∙ apply_grant_twice remote py g w old))
      | inr fresh ↦ inr (
        g,
        a,
        parse_grant_sound py a.event g a.grants,
        fresh,
        rw (hook_verified now g w a) (apply_grant-Applied remote py g w fresh),
      )
    ]
  ]

  granted-IsAuthentic :
      (now : ℕ) (w w' : World) (answer : Answer)
      → hook now w ≡ returned answer w'
      → (g : Grant) × IsAuthentic now g × (apply_grant remote py g w ≡ returned answer w')
  granted-IsAuthentic now w w' answer h = elim (hook_refused now w) [
    | inl (g, a) ↦ (g, a, sym (hook_verified now g w a) ∙ h)
    | inr (e, same) ↦ absurd (cc)
  ]

  -- A request that was answered, with a grant or as a duplicate, changes nothing when it is
  -- delivered again, at any time at which its signature still holds.
  pub webhook_om_twice :
      (now later : ℕ) (w w' : World) (answer : Answer)
      → hook now w ≡ returned answer w'
      → verify_signature c cfg later raw sig ts ≡ ok tt
      → (id : Text) × (hook later w' ≡ returned (duplicate id) w')
  webhook_om_twice now later w w' answer h v =
      let (g, a, e) = granted-IsAuthentic now w w' answer h in
      (
        g.task_id,
        hook_verified later g w'
              (record { event = a.event; verified = v; parsed = a.parsed; grants = a.grants })
            ∙ apply_grant_twice remote py g w' (apply_grant_marked remote py g w w' answer e),
      )

  -- A request that ends in an error marks no task, so that it can be delivered again.
  pub webhook_om_failed :
      (now : ℕ) (w w' : World) (e : Error) → hook now w ≡ raised e w' → w'.processed ≡ w.processed
  webhook_om_failed now w w' e h = elim (hook_refused now w) [
    | inl (g, a) ↦ apply_grant_raised remote py g w w' e (sym (hook_verified now g w a) ∙ h)
    | inr (e', same) ↦ ground (arith, sym same ∙ h)
  ]
