-- ===== src/Enrich/Patch/Conservative.antt =====
-- What the operations of `build_table_patch_ops` may write over what the table holds.
use fresh_stackable_data_pla.Prelude.{
  ℕ, ◌≡◌, refl, sym, ap, ◌∙◌, Bool, true, false, not, some, List, [], ◌∷◌, ◌++◌, Text, Dict,
  text_eq, if◌then◌else◌, is_empty, All, All-append, Option-cases, inl, inr, lookup,
}
use mathlib.Core.Path.{subst}
use fresh_stackable_data_pla.Text.{lower}
use fresh_stackable_data_pla.Json.{
  Json, null, arr, nil, get, or_else, truthy, iterate, as_text, item,
}
use fresh_stackable_data_pla.Json.Dicts.{items_of, get_text, elements}
use fresh_stackable_data_pla.Json.Dicts.Laws.{get_value, value_at}
use fresh_stackable_data_pla.Effect.Raises.{ok, >>=-inspect}
use fresh_stackable_data_pla.Enrich.Tags.{Runtime, build_table_tags, new_tags, meta_of}
use fresh_stackable_data_pla.Enrich.Tags.Union.{
  find_tag, last_tag, or_option, first_label, union_tags_lem,
}
use fresh_stackable_data_pla.Enrich.Columns.{
  Op, tags, domains, data_products, column_tags, column_at, column_op, column_ops,
  build_column_patches, column_write, has_tag, name_to_idx,
}
use fresh_stackable_data_pla.Enrich.Writes.{
  write_over, names_of, unlisted, domain_ops, product_ops, tag_ops,
}

-- What was listed stays in front.
abbrev pub Appended : Json → Json → Type 0
Appended found value =
    (existing : List Json) × (new : List Json) × (iterate (or_else found (arr nil)) ≡ ok existing)
    × (value ≡ arr (items_of (existing ++ new)))

-- Every tag is still there, under its name the last that there was.
abbrev pub TagsKept : Json → Json → Type 0
TagsKept found value =
    (existing : List Json) × (out : List Json) × (iterate (or_else found (arr nil)) ≡ ok existing)
    × (value ≡ arr (items_of out))
    × ((k : Text) (t : Json) → last_tag k existing ≡ some t → find_tag k out ≡ some t)

pub same_list : (a b : List Op) → ok a ≡ ok b → a ≡ b
same_list a b h = cc

module _ (P : Op → Type 0) where
  All-if :
      (b : Bool) (ops out : List Op)
      → (b ≡ false → All P ops)
      → ok (if b then [] else ops) ≡ ok out
      → All P out
  All-if true ops out k h = subst (All P) (same_list [] out h) tt
  All-if false ops out k h = subst (All P) (same_list ops out h) (k refl)

module _ (py : Runtime) where
  build_table_tags_kept :
      (node mapping : Json) (existing out : List Json)
      → build_table_tags py node mapping existing ≡ ok out
      → (k : Text) (t : Json) → last_tag k existing ≡ some t
      → find_tag k out ≡ some t
  unfolding build_table_tags
  build_table_tags_kept node mapping existing out h k t e =
      >>=-inspect (new_tags py node mapping) _ h
        λ new _ u. union_tags_lem existing out new u k ∙ ap (λ o. or_option o (first_label k new)) e

  pub tag_ops_kept :
      (node mapping found : Json) (ops : List Op)
      → tag_ops py node mapping found ≡ ok ops
      → All (λ o. (o.path ≡ tags) × TagsKept found o.value) ops
  unfolding tag_ops write_over
  tag_ops_kept node mapping found ops h =
      >>=-inspect (iterate (or_else found (arr nil))) _ h λ existing i r.
        >>=-inspect (build_table_tags py node mapping existing) _ r λ out b s.
          All-if _ (is_empty out) _ ops
            (λ _. (
              (refl, (existing, out, i, refl, build_table_tags_kept node mapping existing out b)),
              tt,
            ))
            s

pub domain_ops-Appended :
    (found dom : Json) (ops : List Op)
    → domain_ops found dom ≡ ok ops
    → All (λ o. (o.path ≡ domains) × Appended found o.value) ops
unfolding domain_ops write_over
domain_ops-Appended found dom ops h =
    >>=-inspect (iterate (or_else found (arr nil))) _ h λ existing i r.
      >>=-inspect (names_of existing) _ r λ names _ s.
        >>=-inspect (unlisted names (dom ∷ [])) _ s
          λ new _ u. All-if _ (is_empty new) _ ops (λ _. ((refl, (existing, new, i, refl)), tt)) u

pub product_ops-Appended :
    (found : Json) (refs : List Json) (ops : List Op)
    → product_ops found refs ≡ ok ops
    → All (λ o. (o.path ≡ data_products) × Appended found o.value) ops
unfolding product_ops write_over
product_ops-Appended found [] ops h = subst (All _) (same_list [] ops h) tt
product_ops-Appended found (ref ∷ refs) ops h =
    >>=-inspect (iterate (or_else found (arr nil))) _ h λ existing i r.
      >>=-inspect (names_of existing) _ r λ names _ s.
        >>=-inspect (unlisted names (ref ∷ refs)) _ s
          λ new _ u. All-if _ (is_empty new) _ ops (λ _. ((refl, (existing, new, i, refl)), tt)) u

-- A tag that is not there yet, behind the tags of a column of the table.
abbrev pub ColumnKept : List Json → Op → Type 0
ColumnKept cols o =
    (idx : ℕ) × (col : Json) × (o.path ≡ column_tags idx)
    × (column_at idx cols ≡ ok col)
    × Appended (value_at "tags" col) o.value

pub if-inspect :
    {R C : Type 0} (b : Bool) (x y : R) {z : R}
    → (if b then x else y) ≡ z
    → (x ≡ z → C)
    → (y ≡ z → C)
    → C
if-inspect true x y h k l = k h
if-inspect false x y h k l = l h

from_col :
    (col found : Json) (existing : List Json)
    → get "tags" col ≡ ok found
    → iterate (or_else found (arr nil)) ≡ ok existing
    → iterate (or_else (value_at "tags" col) (arr nil)) ≡ ok existing
from_col col found existing g i =
    ap (λ j. iterate (or_else j (arr nil))) (sym (get_value "tags" col found g)) ∙ i

column_write_kept :
    (pii_map : Json) (cols : List Json) (name : Text) (idx : ℕ) (ops : List Op)
    → column_write pii_map cols name idx ≡ ok ops
    → All (ColumnKept cols) ops
unfolding column_write
column_write_kept pii_map cols name idx ops h =
    >>=-inspect (get_text name null pii_map) _ h λ mapped _ r.
      if-inspect (not (truthy mapped)) (ok []) _ r (λ e. subst (All _) (same_list [] ops e) tt)
        λ s. >>=-inspect (as_text mapped) _ s λ fqn _ u.
          >>=-inspect (column_at idx cols) _ u λ col c v.
            >>=-inspect (get "tags" col) _ v λ found g w.
              >>=-inspect (iterate (or_else found (arr nil))) _ w λ existing i x.
                >>=-inspect (has_tag fqn existing) _ x λ present _ y.
                  if-inspect present (ok []) _ y (λ e. subst (All _) (same_list [] ops e) tt)
                    λ e. subst (All _) (same_list _ ops e) (
                      (idx, col, refl, c, (existing, _, from_col col found existing g i, refl)),
                      tt,
                    )

column_op_kept :
    (pii_map : Json) (cols : List Json) (indexes : Dict Text ℕ) (name : Text) (ops : List Op)
    → column_op pii_map cols indexes name ≡ ok ops
    → All (ColumnKept cols) ops
unfolding column_op
column_op_kept pii_map cols indexes name ops h = elim (Option-cases (lookup name indexes)) [
  | inl e ↦ subst (All _) (same_list [] ops (rw (column_op, e) at h)) tt
  | inr (idx, e) ↦ column_write_kept pii_map cols name idx ops (rw (column_op, e) at h)
]

module _ (py : Runtime) where
  column_ops_kept :
      (pii_map : Json) (cols : List Json) (indexes : Dict Text ℕ) (names : List Json)
      (ops : List Op)
      → column_ops py pii_map cols indexes names ≡ ok ops
      → All (ColumnKept cols) ops
  unfolding column_ops
  column_ops_kept pii_map cols indexes [] ops h = subst (All _) (same_list [] ops h) tt
  column_ops_kept pii_map cols indexes (name ∷ names) ops h =
      >>=-inspect (column_op pii_map cols indexes (lower (py.str_of name))) _ h λ o e r.
        >>=-inspect (column_ops py pii_map cols indexes names) _ r λ rest f s.
          subst (All _) (same_list _ ops s) (
            All-append _ o rest (column_op_kept pii_map cols indexes _ o e)
              (column_ops_kept pii_map cols indexes names rest f))

  pub column_patches_kept :
      (node mapping : Json) (cols : List Json) (ops : List Op)
      → build_column_patches py node mapping cols ≡ ok ops
      → All (ColumnKept cols) ops
  unfolding build_column_patches
  column_patches_kept node mapping cols ops h = >>=-inspect (meta_of py node) _ h λ meta _ r.
      >>=-inspect (get "pii_kolommen" meta) _ r λ found _ s.
        if-inspect (not (truthy found)) (ok []) _ s (λ e. subst (All _) (same_list [] ops e) tt)
          λ t. >>=-inspect (elements found) _ t λ names _ u.
            >>=-inspect (item "pii_column_to_tag" mapping) _ u λ pii_map _ v.
              >>=-inspect (name_to_idx 0 cols []) _ v
                λ indexes _ w. column_ops_kept pii_map cols indexes names ops w
