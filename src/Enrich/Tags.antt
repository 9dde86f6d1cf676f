-- ===== src/Enrich/Tags.antt =====
-- `_strip_accents`, `tag_label`, `union_tags`, `derive_tier`, the mappings and `build_table_tags`.
pub mod Union
pub mod Tiers
use fresh_stackable_data_pla.Prelude.{
  ℕ, Bool, true, false, not, Option, none, some, List, [], ◌∷◌, ◌++◌, String, Text, Dict, text_eq,
  nat_eq, ◌==◌, ltb, if◌then◌else◌, keep, lookup, insert,
}
use fresh_stackable_data_pla.Text.{txt, lower}
use fresh_stackable_data_pla.Json.{
  Json, null, str, arr, obj, nil, end, field, get, item, or_else, truthy, as_text,
}
use fresh_stackable_data_pla.Json.Dicts.{get_or, get_text, elements}
use fresh_stackable_data_pla.Effect.Raises.{Result, ok, err, ◌>>=◌, ◌>>◌}

-- `str(v)`, `int(v)` and `unicodedata` of Python; none is a `ValueError` or a `TypeError`.
pub record Runtime : Type 0 where
  pub str_of : Json → Text
  pub int_of : Json → Option Json
  pub nfkd : Text → Text
  pub combining : ℕ → Bool

unfoldable pub tag_label : Text → Text → Json
tag_label fqn source = obj (
    field "tagFQN" (str fqn) (
      field "source" (str source)
        (field "labelType" (str (txt "Automated")) (field "state" (str (txt "Confirmed")) end))))

-- `t["tagFQN"]`
unfoldable pub tag_fqn : Json → Result Text
tag_fqn t = do v ← item "tagFQN" t; as_text v

-- `{t["tagFQN"]: t for t in existing or []}`
unfoldable pub index_tags : List Json → Dict Text Json → Result (Dict Text Json)
unfolding tag_fqn
index_tags [] by_fqn = ok by_fqn
index_tags (t ∷ existing) by_fqn = do fqn ← tag_fqn t; index_tags existing (insert fqn t by_fqn)

-- `if fqn not in by_fqn: by_fqn[fqn] = tag_label(fqn, source)`
unfoldable pub add_tag : Text × Text → Dict Text Json → Dict Text Json
unfolding tag_label
add_tag (fqn, source) by_fqn = elim (lookup fqn by_fqn) [
  | none ↦ insert fqn (tag_label fqn source) by_fqn
  | some t ↦ by_fqn
]

unfoldable pub add_tags : List (Text × Text) → Dict Text Json → Dict Text Json
unfolding add_tag
add_tags [] by_fqn = by_fqn
add_tags (new ∷ new_fqns) by_fqn = add_tags new_fqns (add_tag new by_fqn)

-- `list(by_fqn.values())`
unfoldable pub values : Dict Text Json → List Json
values [] = []
values ((k, v) ∷ d) = v ∷ values d

unfoldable pub union_tags : List Json → List (Text × Text) → Result (List Json)
unfolding index_tags add_tags values
union_tags existing new_fqns = do
  by_fqn ← index_tags existing []
  ok (values (add_tags new_fqns by_fqn))

-- `ranks.get(tier, 5)`
unfoldable pub rank : Text → ℕ
rank tier =
    if tier == txt "Tier1"
    then 1
    else if tier == txt "Tier2"
    then 2
    else if tier == txt "Tier3"
    then 3
    else if tier == txt "Tier4"
    then 4
    else 5

-- The loop of `derive_tier`.
unfoldable pub best_tier : Json → Text → List Text → Result Text
best_tier by_tag best [] = ok best
best_tier by_tag best (t ∷ model_tags) = do
  candidate ← get_text t null by_tag
  if truthy candidate
      then (do
        tier ← as_text candidate
        best_tier by_tag (if ltb (rank tier) (rank best) then tier else best) model_tags)
      else best_tier by_tag best model_tags

unfoldable pub derive_tier : List Text → Json → Result Text
unfolding best_tier
derive_tier model_tags mapping = do
  rules ← get_or "tier_rules" (obj end) mapping
  by_tag ← get_or "by_dbt_tag" (obj end) rules
  default ← get_or "default" (str (txt "Tier4")) rules
  best ← as_text default
  best_tier by_tag best model_tags

module _ (py : Runtime) where
  unfoldable pub strip_accents : Text → Text
  strip_accents value = keep (λ c. not (py.combining c)) (py.nfkd value)

  -- `str(v).lower()` of each
  unfoldable pub lower_texts : List Json → List Text
  lower_texts [] = []
  lower_texts (v ∷ vs) = lower (py.str_of v) ∷ lower_texts vs

  -- The loop of `map_doelbinding`.
  unfoldable pub doelbinding_tags : Json → List Json → Result (List Text)
  doelbinding_tags mapping [] = ok []
  doelbinding_tags mapping (v ∷ vs) = do
    table ← item "doelbinding_to_tag" mapping
    fqn ← get_text (lower (py.str_of v)) null table
    out ← doelbinding_tags mapping vs
    if truthy fqn then (do s ← as_text fqn; ok (s ∷ out)) else ok out

  unfoldable pub map_doelbinding : Json → Json → Result (List Text)
  unfolding doelbinding_tags
  map_doelbinding listed mapping = do
    vs ← elements (or_else listed (arr nil))
    doelbinding_tags mapping vs

  texts_of : List Json → Result (List Text)
  texts_of [] = ok []
  texts_of (v ∷ vs) = do s ← as_text v; rest ← texts_of vs; ok (s ∷ rest)

  unfoldable pub map_legal_basis : Json → Json → Result (List Text)
  unfolding texts_of
  map_legal_basis value mapping = if not (truthy value) then ok [] else do
    table ← item "legal_basis_to_tags" mapping
    key ← as_text value
    found ← get_text key (arr nil) table
    fqns ← elements found
    texts_of fqns

  -- `map_bio_classificatie` and `map_risk_tier`, which differ in the table: one tag or none.
  unfoldable pub map_value : String → Json → Json → Result (List Text)
  map_value k value mapping = if not (truthy value) then ok [] else do
    table ← item k mapping
    fqn ← get_text (lower (py.str_of value)) null table
    if truthy fqn then (do s ← as_text fqn; ok (s ∷ [])) else ok []

  -- `f"CGM.{_strip_accents(str(term))}"` of each
  term_fqns : List Json → List Text
  unfolding strip_accents
  term_fqns [] = []
  term_fqns (term ∷ terms) = (txt "CGM." ++ strip_accents (py.str_of term)) ∷ term_fqns terms

  from_source : Text → List Text → List (Text × Text)
  from_source source [] = []
  from_source source (fqn ∷ fqns) = (fqn, source) ∷ from_source source fqns

  -- `(node.get("config") or {}).get("tags") or []`
  unfoldable pub config_tags : Json → Result (List Text)
  unfolding lower_texts
  config_tags node = do
    config ← get "config" node
    tags ← get "tags" (or_else config (obj end))
    vs ← elements (or_else tags (arr nil))
    ok (lower_texts vs)

  -- `node.get("meta") or {}`
  unfoldable pub meta_of : Json → Result Json
  meta_of node = do meta ← get "meta" node; ok (or_else meta (obj end))

  unfoldable pub new_tags : Json → Json → Result (List (Text × Text))
  unfolding map_doelbinding map_legal_basis map_value config_tags term_fqns from_source meta_of
  new_tags node mapping = do
    meta ← meta_of node
    purposes ← get_or "doelbinding" (arr nil) meta
    a ← map_doelbinding purposes mapping
    basis ← get "legal_basis" meta
    b ← map_legal_basis basis mapping
    bio ← get "bio_classificatie" meta
    c ← map_value "bio_classificatie_to_tag" bio mapping
    risk ← get "risk_tier" meta
    d ← map_value "risk_tier_to_tag" risk mapping
    tags ← config_tags node
    tier ← derive_tier tags mapping
    entities ← get_or "cgm_entiteiten" (arr nil) meta
    terms ← elements (or_else entities (arr nil))
    human ← get "human_in_the_loop" meta
    ok (
        from_source (txt "Classification") (a ++ (b ++ (c ++ (d ++ ((txt "Tier." ++ tier) ∷ [])))))
        ++ (from_source (txt "Glossary") (term_fqns terms)
            ++ (if truthy human then (txt "AI.HumanInTheLoop", txt "Classification") ∷ [] else [])))

  unfoldable pub build_table_tags : Json → Json → List Json → Result (List Json)
  unfolding new_tags union_tags
  build_table_tags node mapping existing_tags = do
    new_fqns ← new_tags node mapping
    union_tags existing_tags new_fqns
