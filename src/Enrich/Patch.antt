-- ===== src/Enrich/Patch.antt =====
-- `build_table_patch_ops` and `main` of enrich_from_dbt_meta.py. The manifest and the mapping that
-- `main` reads first are its arguments; what it logs of its work it returns.
pub mod Conservative
pub mod Places
pub mod Requests
pub mod Sends
use fresh_stackable_data_pla.Prelude.{
  ℕ, ◌+◌, Bool, true, false, Option, none, some, List, [], ◌∷◌, ◌++◌, Text, if◌then◌else◌, is_empty,
}
use fresh_stackable_data_pla.Json.{Json, arr, nil, cons, get, or_else, truthy, iterate}
use fresh_stackable_data_pla.Json.Dicts.{dict_of}
use fresh_stackable_data_pla.Effect.{Exec, pure, lift, per_option, ◌>>=◌, ◌>>◌}
use fresh_stackable_data_pla.Http.{Remote}
use fresh_stackable_data_pla.Enrich.Tags.{Runtime}
use fresh_stackable_data_pla.Enrich.Columns.{Op, add, owners, build_column_patches}
use fresh_stackable_data_pla.Enrich.Refs.{
  Call, World, get_table, resolve_owner, resolve_domain, resolve_data_products, patch_table,
}
use fresh_stackable_data_pla.Enrich.Writes.{
  domain_ops, product_ops, tag_ops, extension_ops, model_fqn, nodes_of,
}

-- `total`, `enriched` and `missing`.
pub record Counts : Type 0 where
  pub total : ℕ
  pub enriched : ℕ
  pub missing : ℕ

abbrev pub count : ℕ → ℕ → Counts → Counts
count e m c = record { total = 1 + c.total; enriched = e + c.enriched; missing = m + c.missing }

-- `if owner: ops.append(...)`
unfoldable pub owner_write : Option Json → List Op
owner_write none = []
owner_write (some o) =
    if truthy o then record { op = add; path = owners; value = arr (cons o nil) } ∷ [] else []

module _ (remote : Remote Call) (py : Runtime) where
  -- The block of the owner.
  unfoldable pub owner_ops : Json → Json → Json → Exec World (List Op)
  unfolding owner_write
  owner_ops found node mapping = if truthy found then pure [] else do
    owner ← resolve_owner remote py node mapping
    pure (elim owner [
      | none ↦ []
      | some o ↦
          if truthy o then record { op = add; path = owners; value = arr (cons o nil) } ∷ [] else []
    ])

  -- The domain that was found, if any.
  unfoldable pub domain_part : Json → Option Json → Exec World (List Op)
  unfolding domain_ops per_option
  domain_part found dom =
      per_option (pure []) (λ d. if truthy d then lift (domain_ops found d) else pure []) dom

  unfoldable pub build_table_patch_ops : Json → Json → Json → Exec World (List Op)
  unfolding owner_ops domain_part
  build_table_patch_ops table node mapping = do
    old_tags ← lift (get "tags" table)
    a ← lift (tag_ops py node mapping old_tags)
    old_extension ← lift (get "extension" table)
    b ← lift (extension_ops py node old_extension)
    old_owners ← lift (get "owners" table)
    c ← owner_ops old_owners node mapping
    dom ← resolve_domain remote py node mapping
    old_domains ← lift (get "domains" table)
    d ← domain_part old_domains dom
    dp_refs ← resolve_data_products remote py node mapping
    old_products ← lift (get "dataProducts" table)
    e ← lift (product_ops old_products dp_refs)
    found ← lift (get "columns" table)
    columns ← lift (iterate (or_else found (arr nil)))
    f ← lift (build_column_patches py node mapping columns)
    pure (a ++ (b ++ (c ++ (d ++ (e ++ f)))))

  -- One model of the loop.
  unfoldable pub enrich_model : Json → Json → Text → Exec World (Counts → Counts)
  unfolding build_table_patch_ops per_option
  enrich_model node mapping fqn = do
    found ← get_table remote fqn
    elim found [
      | none ↦ pure (count 0 1)
      | some table ↦ do
        ops ← build_table_patch_ops table node mapping
        if is_empty ops then pure (count 0 0) else do patch_table remote table ops; pure (count 1 0)
    ]

  unfoldable pub enrich_all : Text → Json → List Json → Exec World Counts
  unfolding enrich_model per_option
  enrich_all service mapping [] = pure (record { total = 0; enriched = 0; missing = 0 })
  enrich_all service mapping (node ∷ nodes) = do
    fqn ← lift (model_fqn py service node)
    per_option (enrich_all service mapping nodes)
        (λ name. do
          tally ← enrich_model node mapping name
          counts ← enrich_all service mapping nodes
          pure (tally counts))
        fqn

  unfoldable pub main : Text → Json → Json → Exec World Counts
  unfolding enrich_all
  main service mapping manifest = do
    nodes ← lift (nodes_of manifest)
    enrich_all service mapping nodes
