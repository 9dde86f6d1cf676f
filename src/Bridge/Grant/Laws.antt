-- ===== src/Bridge/Grant/Laws.antt =====
-- What an event must hold for `_parse_grant` to return a grant.
use Prim.{tt}
use fresh_stackable_data_pla.Prelude.{
  ◌≡◌, refl, ap, ◌⊎◌, true, List, ◌∷◌, Text, text_eq, arith, contains,
}
use mathlib.Core.Path.{subst}
use fresh_stackable_data_pla.Text.{txt, is_infix, split}
use fresh_stackable_data_pla.Json.{Json, str, get, truthy}
use fresh_stackable_data_pla.Effect.{Result, ok, err}
use fresh_stackable_data_pla.Effect.Raises.{>>=-inspect, guard-ok}
use fresh_stackable_data_pla.Bridge.Grant.{
  Python, Grant, is_text, lower_field, supported_services, check_event_type, check_closed,
  requester_of, title_or_msg, check_marked, about_of, bare_fqn, role_for, role_of_parts,
  role_of_about, role_of, task_id_of, thread_of, task_of, parse_grant,
}

is_text_sound : (s : Text) (v : Json) → is_text s v ≡ true → v ≡ str s
unfolding is_text
is_text_sound s v h = ground arith

check_event_type_sound :
    (event : Json)
    → check_event_type event ≡ ok tt
    → get "eventType" event ≡ ok (str (txt "taskResolved"))
unfolding check_event_type
check_event_type_sound event h = ground arith

check_closed_sound :
    (task : Json)
    → check_closed task ≡ ok tt
    → (lower_field "status" task ≡ ok (txt "closed"))
      ⊎ (lower_field "resolution" task ≡ ok (txt "approved"))
unfolding check_closed
check_closed_sound task h = ground arith

check_marked_sound :
    (thread task : Json)
    → check_marked thread task ≡ ok tt
    → (t : Text) × (title_or_msg thread task ≡ ok t) × (is_infix (txt "request access") t ≡ true)
unfolding check_marked
check_marked_sound thread task h =
    >>=-inspect (title_or_msg thread task) _ h λ t e g. (t, e, guard-ok _ _ g)

requester_of_sound :
    (thread event task v : Json) → requester_of thread event task ≡ ok v → truthy v ≡ true
unfolding requester_of
requester_of_sound thread event task v h = ground arith

-- The role names the second and third part of a FQN of a supported service.
abbrev pub IsTarget : Text → Text → Type 0
IsTarget about role =
    (service : Text) × (catalog : Text) × (schema : Text) × (rest : List Text) × (split b'.'
        (bare_fqn about)
      ≡ service ∷ catalog ∷ schema ∷ rest)
    × (contains supported_services service ≡ true)
    × (role ≡ role_for catalog schema)

role_of_parts_sound :
    (parts : List Text) (role : Text)
    → role_of_parts parts ≡ ok role
    → (service : Text) × (catalog : Text) × (schema : Text) × (rest : List Text) × (parts
        ≡ service ∷ catalog ∷ schema ∷ rest)
      × (contains supported_services service ≡ true)
      × (role ≡ role_for catalog schema)
unfolding role_of_parts
role_of_parts_sound (service ∷ catalog ∷ schema ∷ rest) role h =
    (service, catalog, schema, rest, refl, ground arith, ground arith)
role_of_parts_sound _ role h = cc

role_of_sound :
    (thread task : Json) (role : Text)
    → role_of thread task ≡ ok role
    → (about : Text) × (about_of thread task ≡ ok about) × IsTarget about role
unfolding role_of_about
role_of_sound thread task role h =
    >>=-inspect (about_of thread task) role_of_about {b = role} (unfold role_of in h)
      λ about e g. (about, e, role_of_parts_sound (split b'.' (bare_fqn about)) role g)

-- What `_parse_grant` has checked of an event, with the Thread and the task that it read.
pub record IsApproved (py : Python) (event : Json) (g : Grant) : Type 0 where
  pub thread : Json
  pub task : Json
  pub about : Text
  pub marker : Text
  pub resolved : get "eventType" event ≡ ok (str (txt "taskResolved"))
  pub of_thread : thread_of py event ≡ ok thread
  pub of_task : task_of thread event ≡ ok task
  pub closed :
      (lower_field "status" task ≡ ok (txt "closed"))
      ⊎ (lower_field "resolution" task ≡ ok (txt "approved"))
  pub requested : truthy g.requester ≡ true
  pub of_marker : title_or_msg thread task ≡ ok marker
  pub marked : is_infix (txt "request access") marker ≡ true
  pub of_about : about_of thread task ≡ ok about
  pub target : IsTarget about g.role_name
  pub identified : task_id_of py task ≡ ok g.task_id

abbrev ok_or {ℓ} : {A : Type ℓ} → A → Result A → A
ok_or a (ok b) = b
ok_or a (err e) = a

module _ (py : Python) where
  collect :
      (event : Json) (g : Grant) (thread task requester : Json) (role id : Text)
      → ok (record { requester = requester; role_name = role; task_id = id }) ≡ ok g
      → check_event_type event ≡ ok tt
      → thread_of py event ≡ ok thread
      → task_of thread event ≡ ok task
      → check_closed task ≡ ok tt
      → requester_of thread event task ≡ ok requester
      → check_marked thread task ≡ ok tt
      → role_of thread task ≡ ok role
      → task_id_of py task ≡ ok id
      → IsApproved py event g
  collect event g thread task requester role id made e₁ e₂ e₃ e₄ e₅ e₆ e₇ e₈ =
      let (about, about_eq, target) = role_of_sound thread task role e₇ in
      let (marker, marker_eq, marked) = check_marked_sound thread task e₆ in
      subst (IsApproved py event) (ap (ok_or g) made) (record {
        thread = thread;
        task = task;
        about = about;
        marker = marker;
        resolved = check_event_type_sound event e₁;
        of_thread = e₂;
        of_task = e₃;
        closed = check_closed_sound task e₄;
        requested = requester_of_sound thread event task requester e₅;
        of_marker = marker_eq;
        marked = marked;
        of_about = about_eq;
        target = target;
        identified = e₈;
      })

  -- A grant is returned only for a resolved event whose task is closed or approved, which has a
  -- requester and a task id and says "request access"; the role is `data_access:` with the second
  -- and third part of the target's FQN, under a supported service.
  pub parse_grant_sound :
      (event : Json) (g : Grant) → parse_grant py event ≡ ok g → IsApproved py event g
  unfolding parse_grant
  parse_grant_sound event g h = >>=-inspect (check_event_type event) _ h λ t₁ e₁ h₁.
      >>=-inspect (thread_of py event) _ h₁ λ thread e₂ h₂.
        >>=-inspect (task_of thread event) _ h₂ λ task e₃ h₃.
          >>=-inspect (check_closed task) _ h₃ λ t₄ e₄ h₄.
            >>=-inspect (requester_of thread event task) _ h₄ λ requester e₅ h₅.
              >>=-inspect (check_marked thread task) _ h₅ λ t₆ e₆ h₆.
                >>=-inspect (role_of thread task) _ h₆ λ role e₇ h₇.
                  >>=-inspect (task_id_of py task) _ h₇ λ id e₈ h₈.
                    collect event g thread task requester role id h₈ e₁ e₂ e₃ e₄ e₅ e₆ e₇ e₈
