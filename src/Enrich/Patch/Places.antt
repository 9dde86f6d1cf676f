-- ===== src/Enrich/Patch/Places.antt =====
-- What the operations of `build_table_patch_ops` may write at each place of a table.
use fresh_stackable_data_pla.Prelude.{◌≡◌, sym, ap, ◌∙◌, false, not, List, [], ◌∷◌, String, All}
use mathlib.Core.Path.{subst}
use fresh_stackable_data_pla.Json.{Json, arr, obj, nil, get, or_else, truthy, iterate}
use fresh_stackable_data_pla.Json.Dicts.Laws.{value_at, get_value}
use fresh_stackable_data_pla.Effect.Raises
use fresh_stackable_data_pla.Effect.{ok}
use fresh_stackable_data_pla.Enrich.Tags.{Runtime}
use fresh_stackable_data_pla.Enrich.Columns.{
  Op, Place, tags, extension, owners, domains, data_products, column_tags, build_column_patches,
}
use fresh_stackable_data_pla.Enrich.Extension.{build_extension, merge_extension}
use fresh_stackable_data_pla.Enrich.Extension.Kept.{
  OtherProperty, merge_extension_kept, build_extension-Lacks,
}
use fresh_stackable_data_pla.Enrich.Writes.{
  write_over, domain_ops, product_ops, tag_ops, extension_ops,
}
use fresh_stackable_data_pla.Enrich.Patch.Conservative.{
  Appended, TagsKept, ColumnKept, if-inspect, same_list, tag_ops_kept, domain_ops-Appended,
  product_ops-Appended, column_patches_kept,
}

-- What an operation may write at a place of the table.
abbrev pub WriteAt : Json → Op → Place → Type 0
WriteAt table o tags = TagsKept (value_at "tags" table) o.value
WriteAt table o extension =
    (k : String) → OtherProperty k → value_at k o.value ≡ value_at k (value_at "extension" table)
WriteAt table o owners = truthy (value_at "owners" table) ≡ false
WriteAt table o domains = Appended (value_at "domains" table) o.value
WriteAt table o data_products = Appended (value_at "dataProducts" table) o.value
WriteAt table o (column_tags idx) =
    (columns : List Json) × (iterate (or_else (value_at "columns" table) (arr nil)) ≡ ok columns)
    × ColumnKept columns o

abbrev pub MayWrite : Json → Op → Type 0
MayWrite table o = WriteAt table o o.path

All-map : {P Q : Op → Type 0} (ops : List Op) → ((o : Op) → P o → Q o) → All P ops → All Q ops
All-map [] k h = tt
All-map (o ∷ ops) k (p, h) = (k o p, All-map ops k h)

module _ (table : Json) where
  pub at_place : (p : Place) (o : Op) → o.path ≡ p → WriteAt table o p → MayWrite table o
  at_place p o e w = subst (WriteAt table o) (sym e) w

  pub tag_ops-MayWrite :
      (py : Runtime) (node mapping found : Json) (ops : List Op)
      → get "tags" table ≡ ok found
      → tag_ops py node mapping found ≡ ok ops
      → All (MayWrite table) ops
  tag_ops-MayWrite py node mapping found ops g h =
      All-map ops
        (λ o (e, k).
          at_place tags o e (subst (λ j. TagsKept j o.value) (get_value "tags" table found g) k))
        (tag_ops_kept py node mapping found ops h)

  pub domain_ops-MayWrite :
      (found dom : Json) (ops : List Op)
      → get "domains" table ≡ ok found
      → domain_ops found dom ≡ ok ops
      → All (MayWrite table) ops
  domain_ops-MayWrite found dom ops g h =
      All-map ops
        (λ o (e, k).
          at_place domains o e
            (subst (λ j. Appended j o.value) (get_value "domains" table found g) k))
        (domain_ops-Appended found dom ops h)

  pub product_ops-MayWrite :
      (found : Json) (refs : List Json) (ops : List Op)
      → get "dataProducts" table ≡ ok found
      → product_ops found refs ≡ ok ops
      → All (MayWrite table) ops
  product_ops-MayWrite found refs ops g h =
      All-map ops
        (λ o (e, k).
          at_place data_products o e
            (subst (λ j. Appended j o.value) (get_value "dataProducts" table found g) k))
        (product_ops-Appended found refs ops h)

  pub extension_ops-MayWrite :
      (py : Runtime) (node found : Json) (ops : List Op)
      → get "extension" table ≡ ok found
      → extension_ops py node found ≡ ok ops
      → All (MayWrite table) ops
  unfolding extension_ops write_over value_at
  extension_ops-MayWrite py node found ops g h =
      Raises.>>=-inspect (build_extension py node) _ h λ new b r.
        if-inspect (not (truthy (obj new))) (ok []) _ r (λ e. subst (All _) (same_list [] ops e) tt)
          λ s. Raises.>>=-inspect (merge_extension found new) _ s λ merged m t.
            subst (All _) (same_list _ ops t) (
              (λ k other.
                  merge_extension_kept k found new merged m
                    (build_extension-Lacks py k node new other b)
                  ∙ ap (value_at k) (get_value "extension" table found g)),
              tt,
            )

  pub columns-MayWrite :
      (py : Runtime) (node mapping found : Json) (cols : List Json) (ops : List Op)
      → get "columns" table ≡ ok found
      → iterate (or_else found (arr nil)) ≡ ok cols
      → build_column_patches py node mapping cols ≡ ok ops
      → All (MayWrite table) ops
  columns-MayWrite py node mapping found cols ops g i h =
      All-map ops
        (λ o (idx, col, e, c, k). at_place (column_tags idx) o e (
          cols,
          ap (λ j. iterate (or_else j (arr nil))) (sym (get_value "columns" table found g)) ∙ i,
          (idx, col, e, c, k),
        ))
        (column_patches_kept py node mapping cols ops h)
