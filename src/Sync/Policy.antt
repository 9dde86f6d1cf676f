-- ===== src/Sync/Policy.antt =====
-- om_to_opa_sync.py: the purposes that OpenMetadata's tags name, into the policy's data.
pub mod Run
pub mod Pages
pub mod Globs
pub mod Tagged
pub mod Purposes
pub mod Answered
pub mod Updates
pub mod Merge
use fresh_stackable_data_pla.Prelude.{
  ℕ, zero, suc, Bool, true, false, not, ◌&&◌, ◌||◌, Option, none, some, List, [], ◌∷◌, ◌++◌, Text,
  String, Dict, nat_eq, text_eq, ◌==◌, ltb, str_eq, if◌then◌else◌, is_empty, contains, map, keep,
}
use fresh_stackable_data_pla.Text.{txt, lower, after_prefix}
use fresh_stackable_data_pla.Json.{
  Json, Items, Fields, null, str, arr, obj, nil, cons, end, field, find_field, get, or_else, truthy,
  as_text, iterate,
}
use fresh_stackable_data_pla.Json.Dicts.{get_or, set_field, copy_dict, dict_of}
use fresh_stackable_data_pla.Effect.Raises.{Result, ok, err, crash, ◌>>=◌, ◌>>◌}

-- The loop of `_glob_from_fqn`: the parts that are still to come, `cur` being read.
unfoldable pub fqn_parts : Bool → Text → Text → List Text
fqn_parts in_quote cur [] = if is_empty cur then [] else cur ∷ []
fqn_parts in_quote cur (ch ∷ fqn) =
    let unquoted = fqn_parts (not in_quote) cur fqn in
    let next = fqn_parts in_quote [] fqn in
    let longer = fqn_parts in_quote (cur ++ (ch ∷ [])) fqn in
    if ch == b'"' then unquoted else if ch == b'.' && not in_quote then cur ∷ next else longer

-- `f"{parts[1]}.{parts[2]}.*"`
unfoldable pub schema_glob : Text → Text → Text
schema_glob database schema = database ++ (b'.' ∷ schema ++ (b'.' ∷ b'*' ∷ []))

unfoldable pub glob_of_parts : List Text → Option Text
unfolding schema_glob
glob_of_parts (service ∷ database ∷ schema ∷ table ∷ rest) = some (schema_glob database schema)
glob_of_parts _ = none

unfoldable pub glob_from_fqn : Text → Option Text
unfolding fqn_parts glob_of_parts
glob_from_fqn fqn = glob_of_parts (fqn_parts false [] fqn)

-- `out.add(x)` for a set
unfoldable pub add_member : Text → List Text → List Text
add_member x out = if contains out x then out else x ∷ out

unfoldable pub extract_doelbindingen : List Json → Result (List Text)
unfolding add_member
extract_doelbindingen [] = ok []
extract_doelbindingen (t ∷ tags) = do
  tag ← get "tagFQN" t
  fqn ← as_text (or_else tag (str []))
  out ← extract_doelbindingen tags
  elim (after_prefix (txt "Doelbinding.") fqn) [
    | none ↦ ok out
    | some x ↦ ok (add_member (lower x) out)
  ]

-- `set.update`
unfoldable pub add_members : List Text → List Text → List Text
unfolding add_member
add_members [] out = out
add_members (x ∷ xs) out = add_member x (add_members xs out)

-- `by_glob[glob].update(db)`
unfoldable pub update_glob : Text → List Text → Dict Text (List Text) → Dict Text (List Text)
unfolding add_members
update_glob glob db [] = (glob, add_members db []) ∷ []
update_glob glob db ((g, s) ∷ by_glob) =
    let rest = update_glob glob db by_glob in
    if glob == g then (g, add_members db s) ∷ by_glob else (g, s) ∷ rest

-- What the loop reads of a table: none is a table without a glob, which it skips.
unfoldable pub read_table : Json → Result (Option (Text × List Text))
unfolding glob_from_fqn extract_doelbindingen
read_table tbl = do
  name ← get "fullyQualifiedName" tbl
  fqn ← as_text (or_else name (str []))
  elim (glob_from_fqn fqn) [
    | none ↦ ok none
    | some glob ↦ do
      tags ← get "tags" tbl
      listed ← iterate (or_else tags (arr nil))
      db ← extract_doelbindingen listed
      ok (some (glob, db))
  ]

unfoldable pub by_glob_of : List Json → Dict Text (List Text) → Result (Dict Text (List Text))
unfolding read_table update_glob
by_glob_of [] by_glob = ok by_glob
by_glob_of (tbl ∷ tables) by_glob = do
  table ← read_table tbl
  elim table [
    | none ↦ by_glob_of tables by_glob
    | some (glob, db) ↦ by_glob_of tables (update_glob glob db by_glob)
  ]

-- The order of Python's texts.
unfoldable pub text_before : Text → Text → Bool
text_before s [] = false
text_before [] (d ∷ t) = true
text_before (c ∷ s) (d ∷ t) = ltb c d || (c == d && text_before s t)

insert_sorted : Text → List Text → List Text
unfolding text_before
insert_sorted x [] = x ∷ []
insert_sorted x (y ∷ ys) =
    let rest = insert_sorted x ys in if text_before y x then y ∷ rest else x ∷ y ∷ ys

-- `sorted(s)`
unfoldable pub sorted : List Text → List Text
unfolding insert_sorted
sorted [] = []
sorted (x ∷ xs) = insert_sorted x (sorted xs)

-- `{g: sorted(s) for g, s in by_glob.items() if s}`
unfoldable pub sorted_globs : Dict Text (List Text) → Dict Text (List Text)
unfolding sorted
sorted_globs [] = []
sorted_globs ((g, s) ∷ by_glob) =
    let rest = sorted_globs by_glob in if is_empty s then rest else (g, sorted s) ∷ rest

unfoldable pub aggregate_resource_purposes : List Json → Result (Dict Text (List Text))
unfolding by_glob_of sorted_globs
aggregate_resource_purposes tables = do by_glob ← by_glob_of tables []; ok (sorted_globs by_glob)

unfoldable pub texts : List Text → Items
texts [] = nil
texts (x ∷ xs) = cons (str x) (texts xs)

-- `for glob, purposes in om_map.items(): merged[glob] = purposes`
unfoldable pub put_all : Dict String (List Text) → Fields → Fields
unfolding set_field texts
put_all [] merged = merged
put_all ((glob, purposes) ∷ om_map) merged =
    put_all om_map (set_field glob (arr (texts purposes)) merged)

-- The lines of `main` from `setdefault` on, to the data that is written.
unfoldable pub merge_purposes : Dict String (List Text) → Json → Result Json
unfolding put_all get_or copy_dict dict_of
merge_purposes om_map opa_data = do
  found ← get_or "uwv_role_mappings" (obj end) opa_data
  role_mappings ← dict_of found
  opa ← dict_of opa_data
  existing ← get_or "resource_purposes" (obj end) found
  merged ← copy_dict existing
  ok (
      obj (
        set_field "uwv_role_mappings"
          (obj (set_field "resource_purposes" (obj (put_all om_map merged)) role_mappings)) opa))
