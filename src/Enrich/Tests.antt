-- ===== src/Enrich/Tests.antt =====
-- Tags, tiers, and the theorems there.
use fresh_stackable_data_pla.Prelude.{
  ◌≡◌, refl, false, none, some, [], ◌∷◌, text_eq, nat_eq, lookup, insert,
}
use fresh_stackable_data_pla.Text.{txt}
use fresh_stackable_data_pla.Json.{
  Json, str, arr, obj, nil, cons, end, field, item, find_field, as_text, truthy,
}
use fresh_stackable_data_pla.Json.Dicts.{get_or, get_text, find_text}
use fresh_stackable_data_pla.Effect.Raises.{ok}
use fresh_stackable_data_pla.Effect.Keeps.{Keeps}
use fresh_stackable_data_pla.Http.{Remote}
use fresh_stackable_data_pla.Enrich.Tags.{
  Runtime, tag_label, union_tags, tag_fqn, index_tags, add_tags, add_tag, values, rank, best_tier,
  derive_tier,
}
use fresh_stackable_data_pla.Enrich.Tags.Union.{
  find_tag, last_tag, or_option, first_label, union_tags_lem,
}
use fresh_stackable_data_pla.Enrich.Tags.Tiers.{Best, derive_tier-Best}
use fresh_stackable_data_pla.Enrich.Refs.{Call}
use fresh_stackable_data_pla.Enrich.Patch.{main}
use fresh_stackable_data_pla.Enrich.Patch.Requests.{Kept}
use fresh_stackable_data_pla.Enrich.Patch.Sends.{enrich_main-Sent}

abbrev python : Runtime
python = record { str_of = λ v. txt "x"; int_of = λ v. none; nfkd = λ s. s; combining = λ c. false }

abbrev manual : Json
manual = obj (field "tagFQN" (str (txt "PII.BSN")) end)

tagged :
    union_tags
      (manual ∷ [])
      ((txt "PII.BSN", txt "Classification") ∷ (txt "Tier.Tier2", txt "Classification") ∷ [])
    ≡ ok (manual ∷ tag_label (txt "Tier.Tier2") (txt "Classification") ∷ [])
unfolding union_tags tag_fqn index_tags add_tags add_tag values item find_field as_text txt text_eq
    nat_eq lookup insert
tagged = refl

union_tags_lem_example :
    find_tag (txt "PII.BSN") (manual ∷ tag_label (txt "Tier.Tier2") (txt "Classification") ∷ [])
    ≡ or_option (last_tag (txt "PII.BSN") (manual ∷ [])) (
        first_label
          (txt "PII.BSN")
          ((txt "PII.BSN", txt "Classification") ∷ (txt "Tier.Tier2", txt "Classification") ∷ []))
union_tags_lem_example =
    union_tags_lem (manual ∷ []) (manual ∷ tag_label (txt "Tier.Tier2") (txt "Classification") ∷ [])
      ((txt "PII.BSN", txt "Classification") ∷ (txt "Tier.Tier2", txt "Classification") ∷ []) tagged
      (txt "PII.BSN")

abbrev by_tag : Json
by_tag = obj (field "gold" (str (txt "Tier1")) end)

abbrev mapping : Json
mapping = obj (field "tier_rules" (obj (field "by_dbt_tag" by_tag end)) end)

gold : derive_tier (txt "gold" ∷ []) mapping ≡ ok (txt "Tier1")
unfolding derive_tier best_tier get_or get_text find_text find_field txt text_eq nat_eq as_text rank
    truthy
gold = refl

derive_tier-Best_example : Best by_tag (txt "gold" ∷ []) (txt "Tier4") (txt "Tier1")
unfolding get_or find_field
derive_tier-Best_example =
    derive_tier-Best (txt "gold" ∷ []) mapping (obj (field "by_dbt_tag" by_tag end)) by_tag
      (txt "Tier4") (txt "Tier1") refl refl refl gold

-- An OpenMetadata that answers a table with a tag to every request, and a manifest with one model.
abbrev tagged_table : Json
tagged_table = obj (field "id" (str (txt "7")) (field "tags" (arr (cons manual nil)) end))

abbrev metadata : Remote Call
metadata log c = some (record { status = 200; body = some tagged_table })

abbrev model : Json
model = obj (
    field "resource_type" (str (txt "model")) (
      field "database" (str (txt "gold"))
        (field "schema" (str (txt "wia")) (field "name" (str (txt "mart")) end))))

abbrev manifest : Json
manifest = obj (field "nodes" (obj (field "model.wia.mart" model end)) end)

enrich_main-Sent_example :
    Keeps (Kept metadata []) (main metadata python (txt "uwv-trino") mapping manifest)
enrich_main-Sent_example = enrich_main-Sent metadata [] python (txt "uwv-trino") mapping manifest
