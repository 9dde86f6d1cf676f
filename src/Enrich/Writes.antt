-- ===== src/Enrich/Writes.antt =====
-- The operations that `build_table_patch_ops` builds without a request: tags, custom properties,
-- and what it appends to the domains and the data products; `iter_model_nodes`.
use fresh_stackable_data_pla.Prelude.{
  Bool, false, not, ◌&&◌, ◌||◌, Option, none, some, List, [], ◌∷◌, ◌++◌, Text, nat_eq, text_eq,
  if◌then◌else◌, is_empty,
}
use fresh_stackable_data_pla.Text.{txt}
use fresh_stackable_data_pla.Json.{
  is_str, Json, Fields, arr, obj, nil, end, field, get, item, or_else, truthy, as_text, iterate,
}
use fresh_stackable_data_pla.Json.Dicts.{dict_of, items_of}
use fresh_stackable_data_pla.Effect.Raises.{Result, ok, err, crash, ◌>>=◌}
use fresh_stackable_data_pla.Enrich.Tags.{Runtime, build_table_tags}
use fresh_stackable_data_pla.Enrich.Columns.{
  Op, Place, tags, extension, domains, data_products, verb_for,
}
use fresh_stackable_data_pla.Enrich.Extension.{build_extension, merge_extension}

-- `[{"op": ..., "path": path, "value": value}]`, where `existing` is what the path holds.
unfoldable pub write_over : Json → Place → Json → List Op
unfolding verb_for
write_over existing path value = record { op = verb_for existing; path = path; value = value } ∷ []

-- A set takes no list and no dict.
unfoldable pub hashed : Json → List Json → Result (List Json)
hashed (arr vs) names = err crash
hashed (obj fs) names = err crash
hashed v names = ok (v ∷ names)

-- `{d.get("name") for d in existing}`
unfoldable pub names_of : List Json → Result (List Json)
unfolding hashed
names_of [] = ok []
names_of (d ∷ ds) = do v ← get "name" d; names ← names_of ds; hashed v names

-- `name in existing_names`
unfoldable pub named : Text → List Json → Bool
unfolding is_str
named name [] = false
named name (v ∷ names) = is_str name v || named name names

-- What the loop over the references appends.
unfoldable pub unlisted : List Json → List Json → Result (List Json)
unfolding named
unlisted names [] = ok []
unlisted names (ref ∷ refs) = do
  v ← item "name" ref
  name ← as_text v
  rest ← unlisted names refs
  ok (if named name names then rest else ref ∷ rest)

-- The block of the domain.
unfoldable pub domain_ops : Json → Json → Result (List Op)
unfolding unlisted names_of write_over items_of
domain_ops found dom = do
  existing ← iterate (or_else found (arr nil))
  names ← names_of existing
  new ← unlisted names (dom ∷ [])
  ok (
      if is_empty new
      then []
      else write_over (arr (items_of existing)) domains (arr (items_of (existing ++ new))))

-- The block of the data products.
unfoldable pub product_ops : Json → List Json → Result (List Op)
unfolding unlisted names_of write_over items_of
product_ops found refs = if is_empty refs then ok [] else do
  existing ← iterate (or_else found (arr nil))
  names ← names_of existing
  new ← unlisted names refs
  ok (
      if is_empty new
      then []
      else write_over (arr (items_of existing)) data_products (arr (items_of (existing ++ new))))

module _ (py : Runtime) where
  unfoldable pub tag_ops : Json → Json → Json → Result (List Op)
  unfolding build_table_tags write_over items_of
  tag_ops node mapping found = do
    existing ← iterate (or_else found (arr nil))
    new_tags ← build_table_tags py node mapping existing
    ok (if is_empty new_tags then [] else write_over found tags (arr (items_of new_tags)))

  unfoldable pub extension_ops : Json → Json → Result (List Op)
  unfolding build_extension merge_extension write_over
  extension_ops node found = do
    new_ext ← build_extension py node
    if not (truthy (obj new_ext))
        then ok []
        else do merged ← merge_extension found new_ext; ok (write_over found extension (obj merged))

  -- The name of a model's table in OpenMetadata; none for another node.
  unfoldable pub model_fqn : Text → Json → Result (Option Text)
  unfolding is_str
  model_fqn service node = do
    kind ← get "resource_type" node
    if not (is_str (txt "model") kind) then ok none else do
      database ← get "database" node
      schema ← get "schema" node
      alias ← get "alias" node
      name ← get "name" node
      let table = or_else alias name
      ok (
          if truthy database && (truthy schema && truthy table)
          then some (
              service
              ++ (b'.'
                  ∷ (py.str_of database
                      ++ (b'.' ∷ (py.str_of schema ++ (b'.' ∷ py.str_of table))))))
          else none)

values_of : Fields → List Json
values_of end = []
values_of (field k v fs) = v ∷ values_of fs

-- `(manifest.get("nodes") or {}).items()`, without the ids.
unfoldable pub nodes_of : Json → Result (List Json)
unfolding values_of
nodes_of manifest = do
  found ← get "nodes" manifest
  nodes ← dict_of (or_else found (obj end))
  ok (values_of nodes)
