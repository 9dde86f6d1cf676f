-- ===== src/Watcher/Tests.antt =====
-- A Multica with one filed issue and the labels of a workspace, and the theorems there.
use fresh_stackable_data_pla.Prelude.{
  ◌≡◌, refl, ap, ◌∙◌, false, none, some, List, [], ◌∷◌, Text, arith, All, text_eq,
}
use mathlib.Core.Path.{subst}
use fresh_stackable_data_pla.Text.{txt}
use fresh_stackable_data_pla.Json.{
  Json, str, arr, obj, nil, cons, end, field, get, field_of, iterate, or_else, truthy, to_list,
  find_field,
}
use fresh_stackable_data_pla.Effect.{ok, returned}
use fresh_stackable_data_pla.Effect.Keeps.{Keeps}
use fresh_stackable_data_pla.Http.{json_of}
use fresh_stackable_data_pla.Json.Dicts.{get_or}
use fresh_stackable_data_pla.Watcher.Checklist.{build_issue_payload}
use fresh_stackable_data_pla.Watcher.Tools.{
  Call, search_issues, list_labels, World, Remote, success, body_of, find_existing_multica_tasks,
}
use fresh_stackable_data_pla.Watcher.Labels.{file_multica_task}
use fresh_stackable_data_pla.Watcher.Filed.{
  filed_issue, find_existing_multica_tasks-build_issue_payload,
}
use fresh_stackable_data_pla.Watcher.Approval.{
  Honest, HonestBody, Withheld, file_multica_task-Withheld,
}

abbrev an_id : Text
an_id = b'O' ∷ b'1' ∷ []

abbrev a_label : Json
a_label = obj (field "name" (str (txt "approved")) (field "id" (str an_id) end))

abbrev labels_body : Json
labels_body = obj (
    field "labels"
      (arr (cons (obj (field "name" (str (txt "approved")) (field "id" (str an_id) end))) nil)) end)

abbrev multica : Remote
multica log (search_issues f) = some (record {
  status = 200;
  body = some (
      obj (
        field "issues"
          (arr (cons (filed_issue an_id (build_issue_payload [] [] [] [] f).description) nil))
          end));
})
multica log list_labels = some (record { status = 200; body = some labels_body })
multica log c = none

abbrev start : World
start = record { label_ids = []; log = [] }

find_existing_multica_tasks-build_issue_payload_example :
    find_existing_multica_tasks multica false (b'f' ∷ []) start
    ≡ returned
        (obj (field "matches" (arr (cons (str an_id) nil)) end))
        (record start { log = search_issues (b'f' ∷ []) ∷ [] })
find_existing_multica_tasks-build_issue_payload_example =
    find_existing_multica_tasks-build_issue_payload multica an_id [] [] [] [] (b'f' ∷ []) start refl
      refl

ok_list : {xs ys : List Json} → ok xs ≡ ok ys → xs ≡ ys
ok_list h = ground (arith, h)

found_is : (found : Json) → ok (arr (cons a_label nil)) ≡ ok found → arr (cons a_label nil) ≡ found
found_is found h = ground (arith, h)

one_label :
    (found : Json) (labels : List Json)
    → get_or "labels" (arr nil) labels_body ≡ ok found
    → iterate (or_else found (arr nil)) ≡ ok labels
    → (a_label ∷ []) ≡ labels
unfolding get_or find_field iterate or_else truthy to_list
one_label found labels f l =
    ok_list (ap (λ v. iterate (or_else v (arr nil))) (found_is found f) ∙ l)

body_is : (body : Json) → ok (some labels_body) ≡ ok (some body) → labels_body ≡ body
body_is body h = ground (arith, h)

honest_labels : HonestBody (str an_id) labels_body
unfolding get_or find_field iterate or_else truthy get field_of to_list
honest_labels found labels f l =
    let same : (a_label ∷ []) ≡ labels = one_label found labels f l in
    subst (All (Honest (str an_id))) same (λ name n id. ground (arith, n), tt)

honest_multica :
    (log : List Call) (body : Json)
    → body_of (success (multica log list_labels)) ≡ ok (some body)
    → HonestBody (str an_id) body
unfolding body_of success json_of
honest_multica log body h = subst (HonestBody (str an_id)) (body_is body h) honest_labels

file_multica_task-Withheld_example :
    Keeps (Withheld (str an_id)) (file_multica_task multica false [] [] (txt "info") [] [])
file_multica_task-Withheld_example =
    file_multica_task-Withheld (str an_id) multica honest_multica false [] [] (txt "info") [] []
