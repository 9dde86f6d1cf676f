-- ===== src/Enrich/Columns.antt =====
-- The operations of a JSON patch, and `build_column_patches`.
use fresh_stackable_data_pla.Prelude.{
  ℕ, zero, suc, Bool, true, false, not, none, some, List, [], ◌∷◌, ◌++◌, Text, Dict, text_eq,
  if◌then◌else◌, is_empty, lookup, insert,
}
use fresh_stackable_data_pla.Text.{txt, lower}
use fresh_stackable_data_pla.Json.{
  is_str, Json, null, str, arr, nil, get, item, or_else, truthy, as_text, iterate,
}
use fresh_stackable_data_pla.Json.Dicts.{get_text, elements, items_of}
use fresh_stackable_data_pla.Effect.Raises.{Result, ok, err, crash, ◌>>=◌}
use fresh_stackable_data_pla.Enrich.Tags.{Runtime, tag_label, meta_of}

pub data Verb : Type 0 where
  add replace : Verb

pub data Place : Type 0 where
  tags extension owners domains data_products : Place
  -- `/columns/{idx}/tags`
  column_tags : ℕ → Place

pub record Op : Type 0 where
  pub op : Verb
  pub path : Place
  pub value : Json

-- `"add" if not existing else "replace"`
unfoldable pub verb_for : Json → Verb
verb_for existing = if truthy existing then replace else add

-- `name_to_idx`; the last column of a name counts.
unfoldable pub name_to_idx : ℕ → List Json → Dict Text ℕ → Result (Dict Text ℕ)
name_to_idx idx [] out = ok out
name_to_idx idx (col ∷ cols) out = do
  found ← get "name" col
  name ← as_text (or_else found (str []))
  name_to_idx (suc idx) cols (insert (lower name) idx out)

-- `table_columns[idx]`
unfoldable pub column_at : ℕ → List Json → Result Json
column_at idx [] = err crash
column_at zero (col ∷ cols) = ok col
column_at (suc idx) (col ∷ cols) = column_at idx cols

-- `any(t.get("tagFQN") == pii_fqn for t in existing)`
unfoldable pub has_tag : Text → List Json → Result Bool
unfolding is_str
has_tag fqn [] = ok false
has_tag fqn (t ∷ existing) = do
  v ← get "tagFQN" t
  if is_str fqn v then ok true else has_tag fqn existing

-- A column of the table: an operation or none.
unfoldable pub column_write : Json → List Json → Text → ℕ → Result (List Op)
unfolding column_at has_tag items_of
column_write pii_map cols name idx = do
  mapped ← get_text name null pii_map
  if not (truthy mapped) then ok [] else do
    pii_fqn ← as_text mapped
    col ← column_at idx cols
    found ← get "tags" col
    existing ← iterate (or_else found (arr nil))
    present ← has_tag pii_fqn existing
    if present
        then ok []
        else ok (
            record {
              op = if is_empty existing then add else replace;
              path = column_tags idx;
              value = arr (items_of (existing ++ (tag_label pii_fqn (txt "Classification") ∷ [])));
            }
            ∷ [])

-- One column name of the loop.
unfoldable pub column_op : Json → List Json → Dict Text ℕ → Text → Result (List Op)
unfolding column_write
column_op pii_map cols indexes name = elim (lookup name indexes) [
  | none ↦ ok []
  | some idx ↦ column_write pii_map cols name idx
]

module _ (py : Runtime) where
  unfoldable pub column_ops : Json → List Json → Dict Text ℕ → List Json → Result (List Op)
  unfolding column_op
  column_ops pii_map cols indexes [] = ok []
  column_ops pii_map cols indexes (name ∷ names) = do
    o ← column_op pii_map cols indexes (lower (py.str_of name))
    ops ← column_ops pii_map cols indexes names
    ok (o ++ ops)

  unfoldable pub build_column_patches : Json → Json → List Json → Result (List Op)
  unfolding column_ops name_to_idx
  build_column_patches node mapping table_columns = do
    meta ← meta_of py node
    found ← get "pii_kolommen" meta
    if not (truthy found) then ok [] else do
      pii_cols ← elements found
      pii_map ← item "pii_column_to_tag" mapping
      indexes ← name_to_idx 0 table_columns []
      column_ops pii_map table_columns indexes pii_cols
