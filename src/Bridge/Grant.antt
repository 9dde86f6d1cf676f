-- ===== src/Bridge/Grant.antt =====
-- `_parse_grant` of platform/18-om-access-bridge/app/app.py: from an OpenMetadata event to a role.
-- `json.loads` and the `repr` of a container are parameters.
pub mod EntityRef
pub mod Laws
use Prim.{Unit, tt}
use fresh_stackable_data_pla.Prelude.{
  ℕ, zero, suc, ◌+◌, Bool, true, false, ◌&&◌, ◌||◌, not, Option, none, some, List, [], ◌∷◌, ◌++◌,
  String, Text, Eq, text_eq, ◌==◌, if◌then◌else◌, contains,
}
use fresh_stackable_data_pla.Text.{txt, lower, lstrip, starts_with, is_infix, split, join}
use fresh_stackable_data_pla.Text.Number.{decimal}
use fresh_stackable_data_pla.Json.{
  Json, null, bool, int, negint, float, str, arr, obj, end, get, truthy, or_else, as_text, is_dict,
}
use fresh_stackable_data_pla.Effect.{Result, ok, err, http, crash}
use fresh_stackable_data_pla.Effect.Raises.{◌>>=◌, ◌>>◌, guard}
use fresh_stackable_data_pla.Bridge.Grant.EntityRef.{entity_ref}

-- What Python does with JSON text, and with a container that it prints.
pub record Python : Type 0 where
  pub loads : Text → Option Json
  pub repr : Json → Text

pub record Grant : Type 0 where
  pub requester : Json
  pub role_name : Text
  pub task_id : Text

unfoldable pub is_text : Text → Json → Bool
is_text s (str t) = t == s
is_text s _ = false

-- `(d.get(k) or "").lower()`
unfoldable pub lower_field : String → Json → Result Text
lower_field k d = do v ← get k d; s ← as_text (or_else v (str [])); ok (lower s)

abbrev pub supported_services : List Text
supported_services = txt "trino" ∷ txt "uwv-trino" ∷ []

unfoldable pub check_event_type : Json → Result (Unit {0})
unfolding is_text lower_field
check_event_type event = do
  event_type ← get "eventType" event
  guard (is_text (txt "taskResolved") event_type) (http 400 "Niet-taskResolved event")
  entity_type ← lower_field "entityType" event
  guard (contains (txt "task" ∷ txt "thread" ∷ []) entity_type) (http 400 "Niet-task/thread event")

-- The test on `status` and `resolution`.
unfoldable pub check_closed : Json → Result (Unit {0})
unfolding lower_field
check_closed task = do
  status ← lower_field "status" task
  resolution ← lower_field "resolution" task
  guard (status == txt "closed" || resolution == txt "approved")
      (http 400 "Task niet approved/closed")

unfoldable pub requester_of : Json → Json → Json → Result Json
requester_of thread event task = do
  a ← get "createdBy" thread
  b ← get "createdBy" event
  c ← get "createdBy" task
  let requester = or_else a (or_else b c)
  guard (truthy requester) (http 400 "Task mist 'createdBy'")
  ok requester

-- `filter(None, ...)`, and the error of `join` at an element that is no text.
unfoldable pub true_texts : List Json → Result (List Text)
true_texts [] = ok []
true_texts (v ∷ vs) =
    let rest = true_texts vs in if truthy v then (do s ← as_text v; r ← rest; ok (s ∷ r)) else rest

-- `title_or_msg`
unfoldable pub title_or_msg : Json → Json → Result Text
unfolding true_texts
title_or_msg thread task = do
  a ← get "message" thread
  b ← get "description" thread
  c ← get "description" task
  d ← get "message" task
  e ← get "taskName" task
  texts ← true_texts (a ∷ b ∷ c ∷ d ∷ e ∷ [])
  ok (lower (join (txt " ") texts))

unfoldable pub check_marked : Json → Json → Result (Unit {0})
check_marked thread task = do
  title ← title_or_msg thread task
  guard (is_infix (txt "request access") title)
      (http 400 "Task is niet als access-request gemarkeerd")

unfoldable pub about_of : Json → Json → Result Text
about_of thread task = do
  a ← get "about" thread
  b ← get "about" task
  as_text (or_else a (or_else b (str [])))

-- The FQN without its entity-ref token.
unfoldable pub bare_fqn : Text → Text
bare_fqn about_raw = elim (entity_ref about_raw) [ none ↦ about_raw | some fqn ↦ fqn ]

unfoldable pub role_for : Text → Text → Text
role_for catalog schema = txt "data_access:" ++ (catalog ++ (txt "." ++ schema))

-- The role of the parts of a FQN.
unfoldable pub role_of_parts : List Text → Result Text
role_of_parts (service ∷ catalog ∷ schema ∷ rest) =
    if contains supported_services service
    then ok (role_for catalog schema)
    else err (http 400 "Asset FQN niet bruikbaar")
role_of_parts _ = err (http 400 "Asset FQN niet bruikbaar")

unfoldable pub role_of_about : Text → Result Text
unfolding bare_fqn role_of_parts
role_of_about about_raw = role_of_parts (split b'.' (bare_fqn about_raw))

unfoldable pub role_of : Json → Json → Result Text
unfolding about_of role_of_about
role_of thread task = do about_raw ← about_of thread task; role_of_about about_raw

unfoldable pub task_of : Json → Json → Result Json
task_of thread event = do
  a ← get "task" thread
  b ← get "task" event
  ok (or_else a (or_else b (obj end)))

module _ (py : Python) where
  -- `str(v)`
  unfoldable pub to_str : Json → Text
  to_str null = txt "None"
  to_str (bool true) = txt "True"
  to_str (bool false) = txt "False"
  to_str (int n) = decimal n
  to_str (negint n) = txt "-" ++ decimal (n + 1)
  to_str (float r) = r
  to_str (str s) = s
  to_str v = py.repr v

  unfoldable pub task_id_of : Json → Result Text
  unfolding to_str
  task_id_of task = do
    v ← get "id" task
    elim v [
      | null ↦ err (http 400 "Task mist 'id'")
      | str [] ↦ err (http 400 "Task mist 'id'")
      | w ↦ ok (to_str w)
    ]

  -- The Thread: parsed from `entity` where it is JSON text, or the flat event.
  unfoldable pub thread_of : Json → Result Json
  thread_of event = do
    raw_entity ← get "entity" event
    elim raw_entity [
      | str s ↦
          if starts_with (lstrip s) (txt "{")
          then (elim (py.loads s) [
            | none ↦ err (http 400 "event.entity is geen geldige JSON")
            | some v ↦ ok v
          ])
          else ok event
      | obj fs ↦ ok (obj fs)
      | _ ↦ ok event
    ]

  unfoldable pub parse_grant : Json → Result Grant
  parse_grant event = do
    check_event_type event
    thread ← thread_of event
    task ← task_of thread event
    check_closed task
    requester ← requester_of thread event task
    check_marked thread task
    role_name ← role_of thread task
    task_id ← task_id_of task
    ok (record { requester = requester; role_name = role_name; task_id = task_id })
