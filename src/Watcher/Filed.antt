-- ===== src/Watcher/Filed.antt =====
-- A filed task is found again by its fingerprint, and it never gets the label "approved".
use fresh_stackable_data_pla.Prelude.{
  ◌≡◌, refl, sym, ap, ◌∙◌, true, false, some, [], ◌∷◌, ◌++◌, Text, text_eq, is_empty,
}
use mathlib.Core.List.{append_assoc}
use fresh_stackable_data_pla.Text.{is_infix, rstrip}
use fresh_stackable_data_pla.Text.Laws.{is_infix-append}
use fresh_stackable_data_pla.Json.{
  Json, str, obj, field, end, arr, cons, nil, iterate, truthy, get, as_text, field_of, or_else,
  is_dict, to_list,
}
use fresh_stackable_data_pla.Json.Dicts.{items_of}
use fresh_stackable_data_pla.Effect.{ok, returned, lift, ◌>>=◌}
use fresh_stackable_data_pla.Http.{json_of}
use fresh_stackable_data_pla.Watcher.Checklist.{
  checklist_start, checklist_end, wrap_body_with_approval_checklist, build_issue_payload,
}
use fresh_stackable_data_pla.Watcher.Tools.{
  World, Remote, send, success, body_of, matches_of, search_issues, found_tasks, issues_of,
  find_existing_multica_tasks,
}

regroup : (a b c d e : Text) → (a ++ (b ++ (c ++ d))) ++ e ≡ (a ++ b) ++ (c ++ (d ++ e))
regroup a b c d e =
    append_assoc a (b ++ (c ++ d)) e
    ∙ (ap (λ t. a ++ t) (append_assoc b (c ++ d) e ∙ ap (λ t. b ++ t) (append_assoc c d e))
        ∙ sym (append_assoc a b (c ++ (d ++ e))))

infix_regroup : (a b c d e : Text) → is_infix c ((a ++ (b ++ (c ++ d))) ++ e) ≡ true
infix_regroup a b c d e = rw (regroup a b c d e) (is_infix-append c (a ++ b) (d ++ e))

description-infix :
    (title body severity area fingerprint : Text)
    → is_infix fingerprint (build_issue_payload title body severity area fingerprint).description
      ≡ true
unfolding build_issue_payload wrap_body_with_approval_checklist
description-infix title body severity area fingerprint =
    infix_regroup (rstrip body) checklist_start fingerprint checklist_end _

-- The issue that Multica makes of a payload, under an identifier.
abbrev pub filed_issue : Text → Text → Json
filed_issue identifier description =
    obj (field "identifier" (str identifier) (field "description" (str description) end))

filed_match :
    (identifier fingerprint description : Text)
    → is_infix fingerprint description ≡ true
    → is_empty identifier ≡ false
    → matches_of fingerprint (filed_issue identifier description ∷ []) ≡ ok (str identifier ∷ [])
unfolding matches_of get field_of as_text or_else truthy is_dict
filed_match [] fingerprint description h n = absurd (cc)
filed_match (c ∷ identifier) fingerprint [] h n = rw h refl
filed_match (c ∷ identifier) fingerprint (d ∷ description) h n = rw h refl

-- If Multica answers the search for the fingerprint with the filed issue, the watcher finds it.
pub find_existing_multica_tasks-build_issue_payload :
    (remote : Remote) (identifier title body severity area fingerprint : Text) (w : World)
    → is_empty identifier ≡ false
    → remote w.log (search_issues fingerprint)
      ≡ some (record {
        status = 200;
        body = some (
            obj (
              field "issues"
                (arr (
                  cons
                    (filed_issue identifier
                      (build_issue_payload title body severity area fingerprint).description)
                    nil))
                end));
      })
    → find_existing_multica_tasks remote false fingerprint w
      ≡ returned
          (obj (field "matches" (arr (cons (str identifier) nil)) end))
          (record w { log = search_issues fingerprint ∷ w.log })
unfolding find_existing_multica_tasks send success body_of json_of found_tasks issues_of iterate get
    field_of to_list items_of ◌>>=◌ lift
find_existing_multica_tasks-build_issue_payload remote identifier title body severity area
      fingerprint w n h =
    rw
      (
        h,
        filed_match identifier fingerprint _
            (description-infix title body severity area fingerprint) n,
      )
      refl
