-- ===== src/Bridge/Endpoints/RoundTrip.antt =====
-- From a request for access to the role: the event of the task that `create_access_request` makes
-- is one that `_parse_grant` accepts.
use Prim.{tt}
use fresh_stackable_data_pla.Prelude.{
  ℕ, ◌≡◌, ◌≢◌, refl, true, false, some, List, [], ◌∷◌, Text, nat_eq, text_eq, arith, contains,
}
use fresh_stackable_data_pla.Text.{
  txt, lower, is_infix, split, join, after_prefix, starts_with, lstrip,
}
use fresh_stackable_data_pla.Text.Number.{decimal}
use fresh_stackable_data_pla.Json.{Json, int, str, obj, field, end, truthy, get, or_else, as_text}
use fresh_stackable_data_pla.Effect.{ok}
use fresh_stackable_data_pla.Bridge.Grant.{
  Python, supported_services, bare_fqn, role_for, role_of_about, parse_grant, check_event_type,
  check_closed, check_marked, title_or_msg, requester_of, role_of, thread_of, task_of, task_id_of,
}
use fresh_stackable_data_pla.Bridge.Grant.EntityRef.{entity_ref-table}
use fresh_stackable_data_pla.Bridge.OpenMetadata.{request_message, entity_link}

-- The event that OpenMetadata 1.12 sends once the task of a thread is resolved, in the form that
-- `_parse_grant` documents: the thread, as JSON text, stands under `entity`.
abbrev task_fields : ℕ → Json
task_fields n = obj (field "id" (int n) (field "status" (str (txt "Closed")) end))

abbrev pub thread_fields : Text → Text → Text → ℕ → Json
thread_fields from message about n = obj (
    field "createdBy" (str from) (
      field "message" (str message) (field "about" (str about) (field "task" (task_fields n) end))))

abbrev pub resolved_event : Text → Json
resolved_event entity = obj (
    field "eventType" (str (txt "taskResolved"))
      (field "entityType" (str (txt "THREAD")) (field "entity" (str entity) end)))

-- The message of every request has the mark.
message_marked :
    (requester purpose motivation duration : Text)
    → is_infix
        (txt "request access")
        (lower (request_message requester purpose motivation duration))
      ≡ true
unfolding request_message txt lower is_infix after_prefix nat_eq
message_marked requester purpose motivation duration = refl

bare_fqn-entity_link :
    (c : ℕ) (s : Text) → contains (c ∷ s) 10 ≡ false → bare_fqn (entity_link (c ∷ s)) ≡ c ∷ s
unfolding bare_fqn entity_link
bare_fqn-entity_link c s h = ground (arith, entity_ref-table c s h)

role_of_link :
    (fqn service catalog schema : Text) (rest : List Text)
    → split b'.' fqn ≡ service ∷ catalog ∷ schema ∷ rest
    → contains supported_services service ≡ true
    → contains fqn 10 ≡ false
    → role_of_about (entity_link fqn) ≡ ok (role_for catalog schema)
unfolding role_of_about split
role_of_link [] service catalog schema rest parts supported line = absurd (cc)
role_of_link (c ∷ s) service catalog schema rest parts supported line =
    rw (bare_fqn-entity_link c s line, parts) (ground (arith, supported))

marked-ok :
    (from message about : Text) (n : ℕ)
    → is_infix (txt "request access") (lower message) ≡ true
    → check_marked (thread_fields from message about n) (task_fields n) ≡ ok tt
unfolding check_marked title_or_msg get truthy as_text join is_infix lower after_prefix txt
marked-ok from [] about n marked = absurd (cc)
marked-ok from (c ∷ s) about n marked = rw marked refl

role-ok :
    (from message about role : Text) (n : ℕ)
    → role_of_about about ≡ ok role
    → role_of (thread_fields from message about n) (task_fields n) ≡ ok role
unfolding role_of get or_else truthy as_text
role-ok from message [] role n target = target
role-ok from message (c ∷ s) role n target = target

module _ (py : Python) (from message about : Text) (n : ℕ) (entity : Text) where
  abbrev event : Json
  event = resolved_event entity

  abbrev thread : Json
  thread = thread_fields from message about n

  event_type-ok : check_event_type event ≡ ok tt
  unfolding check_event_type get txt lower contains text_eq as_text or_else
  event_type-ok = refl

  thread-ok :
      starts_with (lstrip entity) (txt "{") ≡ true
      → py.loads entity ≡ some thread
      → thread_of py event ≡ ok thread
  unfolding thread_of get
  thread-ok dict loaded = rw (dict, loaded) refl

  task-ok : task_of thread event ≡ ok (task_fields n)
  unfolding task_of get or_else
  task-ok = refl

  closed-ok : check_closed (task_fields n) ≡ ok tt
  unfolding check_closed get txt lower text_eq as_text or_else
  closed-ok = refl

  id-ok : task_id_of py (task_fields n) ≡ ok (decimal n)
  unfolding task_id_of get
  id-ok = refl

  requester-ok : from ≢ [] → requester_of thread event (task_fields n) ≡ ok (str from)
  unfolding requester_of get or_else truthy
  requester-ok named = ground arith

  parse_grant-ok :
      (role : Text)
      → starts_with (lstrip entity) (txt "{") ≡ true
      → py.loads entity ≡ some thread
      → from ≢ []
      → is_infix (txt "request access") (lower message) ≡ true
      → role_of_about about ≡ ok role
      → parse_grant py event
        ≡ ok (record { requester = str from; role_name = role; task_id = decimal n })
  unfolding parse_grant
  parse_grant-ok role dict loaded named marked target =
      rw
        (
          event_type-ok,
          thread-ok dict loaded,
          task-ok,
          closed-ok,
          requester-ok named,
          marked-ok from message about n marked,
          role-ok from message about role n target,
          id-ok,
        )
        refl

-- The task of a request for access, once resolved, is a grant: of the role of the asset's catalog
-- and schema, to the requester. The asset has its parts under a supported service and no newline,
-- the requester has a name, and the text under `entity` begins like a JSON object and is read as
-- the thread.
pub parse_grant-request :
    (py : Python) (requester purpose motivation duration fqn service catalog schema : Text)
    (rest : List Text) (n : ℕ) (entity : Text)
    → starts_with (lstrip entity) (txt "{") ≡ true
    → py.loads entity
      ≡ some (
          thread_fields requester
            (request_message requester purpose motivation duration)
            (entity_link fqn)
            n)
    → requester ≢ []
    → split b'.' fqn ≡ service ∷ catalog ∷ schema ∷ rest
    → contains supported_services service ≡ true
    → contains fqn 10 ≡ false
    → parse_grant py (resolved_event entity)
      ≡ ok (record {
        requester = str requester;
        role_name = role_for catalog schema;
        task_id = decimal n;
      })
parse_grant-request py requester purpose motivation duration fqn service catalog schema rest n
      entity dict loaded named parts supported line =
    parse_grant-ok py requester (request_message requester purpose motivation duration)
      (entity_link fqn) n entity (role_for catalog schema) dict loaded named
      (message_marked requester purpose motivation duration)
      (role_of_link fqn service catalog schema rest parts supported line)
