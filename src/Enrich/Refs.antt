-- ===== src/Enrich/Refs.antt =====
-- The requests of enrich_from_dbt_meta.py and its caches: `get_table`, `lookup_entity_id`,
-- `_domain_ref`, `_dataproduct_ref`, `resolve_owner`, `resolve_domain`, `resolve_data_products` and
-- `patch_table`.
use Prim.{Unit, tt}
use fresh_stackable_data_pla.Prelude.{
  not, ◌||◌, Option, none, some, List, [], ◌∷◌, Text, Dict, nat_eq, text_eq, ◌==◌, if◌then◌else◌,
  is_empty, contains, lookup, insert,
}
use fresh_stackable_data_pla.Text.{txt, lower}
use fresh_stackable_data_pla.Json.{
  Json, null, str, arr, obj, nil, end, field, get, item, truthy, as_text,
}
use fresh_stackable_data_pla.Json.Dicts.{get_or, get_text, elements}
use fresh_stackable_data_pla.Effect.{Exec, pure, lift, gets, modify, zoom, per_option, ◌>>=◌, ◌>>◌}
use fresh_stackable_data_pla.Http.{Reply, Remote, json_of}
use fresh_stackable_data_pla.Http
use fresh_stackable_data_pla.Enrich.Tags.{Runtime, meta_of, config_tags}
use fresh_stackable_data_pla.Enrich.Columns.{Op}

pub data Kind : Type 0 where
  teams users domain data_product : Kind

pub data Call : Type 0 where
  -- GET {om}/api/v1/tables/name/{fqn} and {om}/api/v1/{kind}/name/{name}
  read_table : Text → Call
  read_entity : Kind → Text → Call
  -- PATCH {om}/api/v1/tables/{id}
  patch : Json → List Op → Call

-- `_DOMAIN_REF_CACHE`, `_DATAPRODUCT_REF_CACHE`, and the requests, newest first.
pub record World : Type 0 where
  pub domain_refs : Dict Text Json
  pub product_refs : Dict Text Json
  pub log : List Call

module _ (remote : Remote Call) where
  unfoldable pub send : Call → Exec World Reply
  send c = zoom (λ w. w.log) (λ log w. record w { log = log }) (Http.send remote c)

  unfoldable pub get_table : Text → Exec World (Option Json)
  get_table fqn = do
    r ← send (read_table fqn)
    if r.status == 200 then (do body ← lift (json_of r); pure (some body)) else pure none

  unfoldable pub lookup_entity_id : Kind → Text → Exec World Json
  lookup_entity_id kind name = do
    r ← send (read_entity kind name)
    if r.status == 200 then (do body ← lift (json_of r); lift (get "id" body)) else pure null

  -- The reference of an entity that was read.
  unfoldable pub entity_ref : Json → Text → Text → Json
  entity_ref id type name =
      obj (field "id" id (field "type" (str type) (field "name" (str name) end)))

  unfoldable pub cache_domain : Text → Json → World → World
  cache_domain name ref w = record w { domain_refs = insert name ref w.domain_refs }

  unfoldable pub cache_product : Text → Json → World → World
  cache_product name ref w = record w { product_refs = insert name ref w.product_refs }

  unfoldable pub domain_ref : Text → Exec World (Option Json)
  unfolding cache_domain entity_ref per_option
  domain_ref name = do
    cached ← gets (λ w. lookup name w.domain_refs)
    per_option
        (do
          r ← send (read_entity domain name)
          if not (r.status == 200) then pure none else do
            body ← lift (json_of r)
            id ← lift (item "id" body)
            let ref = entity_ref id (txt "domain") name
            modify (cache_domain name ref)
            pure (some ref))
        (λ ref. pure (some ref)) cached

  unfoldable pub dataproduct_ref : Text → Exec World (Option Json)
  unfolding cache_product entity_ref per_option
  dataproduct_ref name = do
    cached ← gets (λ w. lookup name w.product_refs)
    per_option
        (do
          r ← send (read_entity data_product name)
          if not (r.status == 200) then pure none else do
            body ← lift (json_of r)
            id ← lift (item "id" body)
            let ref = entity_ref id (txt "dataProduct") name
            modify (cache_product name ref)
            pure (some ref))
        (λ ref. pure (some ref)) cached

  unfoldable pub patch_table : Json → List Op → Exec World (Unit {0})
  patch_table table ops = if is_empty ops then pure tt else do
    id ← lift (item "id" table)
    r ← send (patch id ops)
    if contains (200 ∷ 201 ∷ []) r.status
        then pure tt
        else (do name ← lift (item "fullyQualifiedName" table); pure tt)

  module _ (py : Runtime) where
    unfoldable pub resolve_owner : Json → Json → Exec World (Option Json)
    unfolding entity_ref
    resolve_owner node mapping = do
      meta ← lift (meta_of py node)
      eigenaar ← lift (get "eigenaar" meta)
      if not (truthy eigenaar) then pure none else do
        owner ← lift (as_text eigenaar)
        table ← lift (item "eigenaar_to_team" mapping)
        team ← lift (get_text owner (str owner) table)
        team_name ← lift (as_text team)
        team_id ← lookup_entity_id teams team_name
        if truthy team_id then pure (some (entity_ref team_id (txt "team") team_name)) else do
          user_id ← lookup_entity_id users owner
          pure (if truthy user_id then some (entity_ref user_id (txt "user") owner) else none)

    unfoldable pub resolve_domain : Json → Json → Exec World (Option Json)
    unfolding domain_ref
    resolve_domain node mapping = do
      meta ← lift (meta_of py node)
      dbt_domain ← lift (get "domain" meta)
      if not (truthy dbt_domain) then pure none else do
        table ← lift (get_or "dbt_domain_to_om" (obj end) mapping)
        om_name ← lift (get_text (lower (py.str_of dbt_domain)) null table)
        if not (truthy om_name)
            then pure none
            else do name ← lift (as_text om_name); domain_ref name

    -- The loop of `resolve_data_products`.
    unfoldable pub product_refs_of : List Text → List Json → Exec World (List Json)
    unfolding dataproduct_ref
    product_refs_of tags [] = pure []
    product_refs_of tags (p ∷ products) = do
      given ← lift (get_or "dbt_tag" (str []) p)
      let tag = lower (py.str_of given)
      if is_empty tag || not (contains tags tag) then product_refs_of tags products else do
        n ← lift (item "name" p)
        name ← lift (as_text n)
        ref ← dataproduct_ref name
        refs ← product_refs_of tags products
        pure (elim ref [ none ↦ refs | some r ↦ if truthy r then r ∷ refs else refs ])

    unfoldable pub resolve_data_products : Json → Json → Exec World (List Json)
    unfolding product_refs_of
    resolve_data_products node mapping = do
      tags ← lift (config_tags py node)
      listed ← lift (get_or "data_products" (arr nil) mapping)
      products ← lift (elements listed)
      product_refs_of tags products
