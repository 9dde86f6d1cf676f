-- ===== src/Sync/Tests.antt =====
-- Runs of the scripts on small answers, and the theorems at such inputs.
use fresh_stackable_data_pla.Prelude.{
  ◌≡◌, refl, true, false, Option, none, some, List, [], ◌∷◌, Text, String, Dict, nat_eq, text_eq,
  arith, contains, take, drop,
}
use fresh_stackable_data_pla.Text.{txt, lower, after_prefix, join}
use fresh_stackable_data_pla.Json.{
  Json, null, str, arr, obj, nil, cons, end, field, get, iterate, truthy, field_of, find_field,
  to_list, as_text, or_else,
}
use fresh_stackable_data_pla.Json.Dicts.{get_or}
use fresh_stackable_data_pla.Effect.{ok, returned}
use fresh_stackable_data_pla.Effect.Keeps.{Keeps}
use fresh_stackable_data_pla.Http.{Remote}
use fresh_stackable_data_pla.Http.Sent.{Sent}
use fresh_stackable_data_pla.Sync.Policy.{
  glob_from_fqn, schema_glob, aggregate_resource_purposes, merge_purposes, read_table, by_glob_of,
  sorted_globs, update_glob,
}
use fresh_stackable_data_pla.Sync.Policy.Run.{
  list_page, read_configmap, patch_configmap, list_tables,
}
use fresh_stackable_data_pla.Sync.Policy.Run
use fresh_stackable_data_pla.Sync.Policy.Globs.{Part, written, IsPart, glob_from_fqn-join}
use fresh_stackable_data_pla.Sync.Policy.Tagged.{is_tagged, some_json}
use fresh_stackable_data_pla.Sync.Policy.Purposes.{names, names-aggregate_resource_purposes}
use fresh_stackable_data_pla.Sync.Policy.Merge.{Merged, merge_purposes-Merged}
use fresh_stackable_data_pla.Sync.Policy.Pages.{Answers, Pages, last, requests, list_tables-Pages}
use fresh_stackable_data_pla.Sync.Policy.Updates.{policy_main-Sent}
use fresh_stackable_data_pla.Sync.Policy.Updates
use fresh_stackable_data_pla.Sync.Users
use fresh_stackable_data_pla.Sync.Users.{user_ops, list_kc_users, list_users}
use fresh_stackable_data_pla.Sync.Users.Realm.{of_list, list_kc_users_lem}
use fresh_stackable_data_pla.Sync.Users.Patches.{apply_ops, apply_ops-user_ops, users_main-Sent}
use fresh_stackable_data_pla.Sync.Users.Patches

abbrev plain : Text → Part
plain s = record { quoted = false; name = s }

-- trino."my.db".wia.t
abbrev dotted : Part
dotted = record { quoted = true; name = b'm' ∷ b'.' ∷ b'd' ∷ [] }

dotted-IsPart : IsPart dotted
unfolding contains nat_eq
dotted-IsPart = record { no_quote = refl; no_dot = refl }

t-IsPart : IsPart (plain (b't' ∷ []))
unfolding contains nat_eq
t-IsPart = record { no_quote = refl; no_dot = refl }

glob_from_fqn-join_example :
    glob_from_fqn (
      join (b'.' ∷ []) (
        written (plain (b't' ∷ []))
        ∷ written dotted
        ∷ written (plain (b't' ∷ []))
        ∷ written (plain (b't' ∷ []))
        ∷ []))
    ≡ some (schema_glob dotted.name (b't' ∷ []))
glob_from_fqn-join_example =
    glob_from_fqn-join (plain (b't' ∷ [])) dotted (plain (b't' ∷ [])) (plain (b't' ∷ [])) t-IsPart
      dotted-IsPart t-IsPart t-IsPart refl

-- A table of the schema g.s with the tag Doelbinding.WIA.
abbrev table : Json
table = obj (
    field "fullyQualifiedName" (str (b't' ∷ b'.' ∷ b'g' ∷ b'.' ∷ b's' ∷ b'.' ∷ b't' ∷ []))
      (field "tags" (arr (cons (obj (field "tagFQN" (str (txt "Doelbinding.WIA")) end)) nil)) end))

abbrev wia_map : Dict Text (List Text)
wia_map = ((b'g' ∷ b'.' ∷ b's' ∷ b'.' ∷ b'*' ∷ []), (txt "wia" ∷ [])) ∷ []

aggregated : aggregate_resource_purposes (table ∷ []) ≡ ok wia_map
unfolding aggregate_resource_purposes by_glob_of read_table sorted_globs update_glob txt contains
    get field_of iterate truthy or_else as_text after_prefix lower nat_eq text_eq to_list
aggregated = refl

names-aggregate_resource_purposes_example :
    names wia_map (b'g' ∷ b'.' ∷ b's' ∷ b'.' ∷ b'*' ∷ []) (txt "wia")
    ≡ some_json (is_tagged (b'g' ∷ b'.' ∷ b's' ∷ b'.' ∷ b'*' ∷ []) (txt "wia")) (table ∷ [])
names-aggregate_resource_purposes_example =
    names-aggregate_resource_purposes (table ∷ []) wia_map _ (txt "wia") aggregated

-- Data with a purpose that OpenMetadata does not name.
abbrev old_data : Json
old_data = obj (
    field "uwv_role_mappings"
      (obj (field "resource_purposes" (obj (field "a.b.*" (str []) end)) end)) end)

abbrev new_data : Json
new_data = obj (
    field "uwv_role_mappings"
      (obj (
        field "resource_purposes"
          (obj (field "a.b.*" (str []) (field "g.s.*" (arr (cons (str (b'w' ∷ [])) nil)) end)))
          end))
      end)

abbrev keyed_map : Dict String (List Text)
keyed_map = ("g.s.*", (b'w' ∷ []) ∷ []) ∷ []

merged : merge_purposes keyed_map old_data ≡ ok new_data
unfolding merge_purposes
merged = refl

merge_purposes-Merged_example : Merged keyed_map old_data new_data
merge_purposes-Merged_example = merge_purposes-Merged keyed_map old_data new_data merged

-- A service with one page.
abbrev page_body : Json
page_body = obj (field "data" (arr (cons table nil)) (field "paging" (obj end) end))

-- A config map whose data is a text of JSON.
abbrev config_body : Json
config_body = obj (field "data" (obj (field "data.json" (str (txt "{}")) end)) end)

abbrev metadata : Remote Run.Call
metadata log (list_page after) = some (record { status = 200; body = some page_body })
metadata log read_configmap = some (record { status = 200; body = some config_body })
metadata log c = none

one_answer : Answers metadata none (table ∷ []) null
unfolding get_or get iterate field_of find_field to_list
one_answer = record {
  status = 200;
  no_error = omega arith;
  body = page_body;
  listed = arr (cons table nil);
  paging = obj end;
  answer = λ log. refl;
  has_data = refl;
  has_page = refl;
  has_paging = refl;
  has_next = refl;
}

one_page : Pages metadata none (table ∷ []) 1
unfolding truthy
one_page = last one_answer refl

list_tables-Pages_example : list_tables metadata 2 [] ≡ returned (table ∷ []) (requests one_page [])
list_tables-Pages_example = list_tables-Pages metadata (table ∷ []) 1 2 one_page [] (omega arith)

abbrev read_data : Text → Option Json
read_data s = some old_data

abbrev no_text : Json → Text
no_text j = []

abbrev no_key : Text → String
no_key s = ""

policy_main-Sent_example :
    Keeps
      (Sent (Updates.MaySend metadata read_data no_text no_key false) [])
      (Run.main metadata read_data no_text no_key false 2)
policy_main-Sent_example = policy_main-Sent metadata read_data no_text no_key false 2 []

apply_ops-user_ops_example :
    apply_ops (user_ops null (str (b'e' ∷ [])) (b'd' ∷ []) (b'f' ∷ [])) (null, str (b'e' ∷ []))
    ≡ some (str (b'd' ∷ []), str (b'f' ∷ []))
apply_ops-user_ops_example = apply_ops-user_ops null (str (b'e' ∷ [])) (b'd' ∷ []) (b'f' ∷ [])

-- A realm with one user, who has the name u.
abbrev realm_users : List Json
realm_users = obj (field "username" (str (b'u' ∷ [])) end) ∷ []

abbrev realm : Remote Users.Call
realm log (list_users tok first page) =
    some (record { status = 200; body = some (arr (of_list (take page (drop first realm_users)))) })
realm log c = none

list_kc_users_lem_example :
    (log' : List Users.Call) × (list_kc_users realm 1 null [] ≡ returned realm_users log')
list_kc_users_lem_example =
    list_kc_users_lem realm null realm_users (λ log first. refl) 1 [] (omega arith)

users_main-Sent_example : Keeps (Sent Patches.MaySend []) (Users.main realm 1)
users_main-Sent_example = users_main-Sent realm [] 1
