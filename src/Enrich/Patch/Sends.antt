-- ===== src/Enrich/Patch/Sends.antt =====
-- The requests of a run of the enricher.
use Prim.{tt}
use fresh_stackable_data_pla.Prelude.{
  ◌≡◌, sym, ap, ◌∙◌, false, nat_eq, if◌then◌else◌, Option, none, some, List, [], ◌∷◌, Text,
  is_empty, All, All-append, Bool-cases, inl, inr,
}
use fresh_stackable_data_pla.Json.{Json, get, truthy}
use fresh_stackable_data_pla.Json.Dicts.Laws.{value_at, get_value}
use fresh_stackable_data_pla.Effect.{ok, per_option, pure, ◌>>=◌, ◌>>◌}
use fresh_stackable_data_pla.Effect.Keeps.{
  Keeps, keeps, per_option-Keeps, >>=-Keeps, lift-Keeps, pure-Keeps, if-Keeps,
}
use fresh_stackable_data_pla.Effect.Gives.{
  Gives, Gives->>=-Keeps, pure-Gives, lift-Gives, if-Gives, >>=-Gives, Keeps->>=-Gives,
  lift->>=-Gives,
}
use fresh_stackable_data_pla.Http.{Remote}
use fresh_stackable_data_pla.Enrich.Tags.{Runtime}
use fresh_stackable_data_pla.Enrich.Refs.{
  Call, patch_table, resolve_owner, resolve_domain, product_refs_of, resolve_data_products,
}
use fresh_stackable_data_pla.Enrich.Patch.{
  count, owner_write, owner_ops, domain_part, build_table_patch_ops, enrich_model, enrich_all, main,
}
use fresh_stackable_data_pla.Enrich.Patch.Places.{
  MayWrite, tag_ops-MayWrite, domain_ops-MayWrite, product_ops-MayWrite, extension_ops-MayWrite,
  columns-MayWrite,
}
use fresh_stackable_data_pla.Enrich.Patch.Requests.{
  IsFound, Kept, get_table-Gives, lookup_entity_id-Kept, domain_ref-Kept, dataproduct_ref-Kept,
  patch_table-Kept,
}

owners_free :
    (table : Json) (owner : Option Json)
    → truthy (value_at "owners" table) ≡ false
    → All (MayWrite table) (owner_write owner)
unfolding owner_write
owners_free table none e = tt
owners_free table (some o) e = elim (Bool-cases (truthy o)) [
  | inl y ↦ rw y (e, tt)
  | inr n ↦ rw n tt
]

module _ (remote : Remote Call) (log : List Call) where
  module _ (py : Runtime) where
    resolve_owner-Kept :
        (node mapping : Json) → Keeps (Kept remote log) (resolve_owner remote py node mapping)
    unfolding resolve_owner
    resolve_owner-Kept node mapping = search (keeps, lookup_entity_id-Kept remote log) depth 24

    resolve_domain-Kept :
        (node mapping : Json) → Keeps (Kept remote log) (resolve_domain remote py node mapping)
    unfolding resolve_domain
    resolve_domain-Kept node mapping = search (keeps, domain_ref-Kept remote log) depth 24

    product_refs_of-Kept :
        (names : List Text) (products : List Json)
        → Keeps (Kept remote log) (product_refs_of remote py names products)
    unfolding product_refs_of
    product_refs_of-Kept names [] = pure-Keeps _
    product_refs_of-Kept names (p ∷ products) = >>=-Keeps (lift-Keeps _) λ given.
        if-Keeps _ (product_refs_of-Kept names products) (
          >>=-Keeps (lift-Keeps _) λ n. >>=-Keeps (lift-Keeps _) λ name.
            >>=-Keeps (dataproduct_ref-Kept remote log name)
              λ ref. >>=-Keeps (product_refs_of-Kept names products) λ refs. pure-Keeps _)

    resolve_data_products-Kept :
        (node mapping : Json)
        → Keeps (Kept remote log) (resolve_data_products remote py node mapping)
    unfolding resolve_data_products
    resolve_data_products-Kept node mapping = search (keeps, product_refs_of-Kept) depth 24

    owner_ops-Gives :
        (table found node mapping : Json)
        → get "owners" table ≡ ok found
        → Gives (Kept remote log) (All (MayWrite table)) (owner_ops remote py found node mapping)
    unfolding owner_ops
    owner_ops-Gives table found node mapping g =
        if-Gives (truthy found) (λ e. pure-Gives [] tt)
          (λ e. Keeps->>=-Gives (resolve_owner-Kept node mapping) λ owner.
            pure-Gives _
              (owners_free table owner (ap truthy (sym (get_value "owners" table found g)) ∙ e)))

    domain_part-Gives :
        (table found : Json) (dom : Option Json)
        → get "domains" table ≡ ok found
        → Gives (Kept remote log) (All (MayWrite table)) (domain_part remote py found dom)
    unfolding domain_part per_option
    domain_part-Gives table found none g = pure-Gives [] tt
    domain_part-Gives table found (some d) g =
        if-Gives (truthy d) (λ e. lift-Gives _ λ ops h. domain_ops-MayWrite table found d ops g h)
          (λ e. pure-Gives [] tt)

    table_ops-Gives :
        (table node mapping : Json)
        → Gives
            (Kept remote log)
            (All (MayWrite table))
            (build_table_patch_ops remote py table node mapping)
    unfolding build_table_patch_ops
    table_ops-Gives table node mapping = lift->>=-Gives _ λ old_tags g1. lift->>=-Gives _ λ a h1.
        lift->>=-Gives _ λ old_extension g2. lift->>=-Gives _ λ b h2.
          lift->>=-Gives _ λ old_owners g3.
            >>=-Gives (owner_ops-Gives table old_owners node mapping g3) λ c h3.
              Keeps->>=-Gives (resolve_domain-Kept node mapping) λ dom.
                lift->>=-Gives _ λ old_domains g4.
                  >>=-Gives (domain_part-Gives table old_domains dom g4) λ d h4.
                    Keeps->>=-Gives (resolve_data_products-Kept node mapping) λ refs.
                      lift->>=-Gives _ λ old_products g5. lift->>=-Gives _ λ e h5.
                        lift->>=-Gives _ λ found g6. lift->>=-Gives _ λ columns g7.
                          lift->>=-Gives _ λ f h6. pure-Gives _ (
                            All-append _ a _
                              (tag_ops-MayWrite table py node mapping old_tags a g1 h1)
                              (All-append _ b _
                                (extension_ops-MayWrite table py node old_extension b g2 h2)
                                (All-append _ c _ h3 (
                                  All-append _ d _ h4 (
                                    All-append _ e f
                                      (product_ops-MayWrite table old_products refs e g5 h5)
                                      (columns-MayWrite table py node mapping found columns f g6 g7
                                        h6))))))

    found-Kept :
        (node mapping : Json) (found : Option Json)
        → IsFound remote found
        → Keeps (Kept remote log) (
            per_option
              (pure (count 0 1))
              (λ table. do
                ops ← build_table_patch_ops remote py table node mapping
                if is_empty ops
                    then pure (count 0 0)
                    else do patch_table remote table ops; pure (count 1 0))
              found)
    unfolding per_option
    found-Kept node mapping none k = pure-Keeps _
    found-Kept node mapping (some table) k =
        Gives->>=-Keeps (table_ops-Gives table node mapping) λ ops may.
          if-Keeps _ (pure-Keeps _)
            (>>=-Keeps (patch_table-Kept remote log table ops k may) λ _. pure-Keeps _)

    enrich_model-Kept :
        (node mapping : Json) (fqn : Text)
        → Keeps (Kept remote log) (enrich_model remote py node mapping fqn)
    unfolding enrich_model per_option
    enrich_model-Kept node mapping fqn =
        Gives->>=-Keeps (get_table-Gives remote log fqn) λ found k. found-Kept node mapping found k

    enrich_all-Kept :
        (service : Text) (mapping : Json) (nodes : List Json)
        → Keeps (Kept remote log) (enrich_all remote py service mapping nodes)
    unfolding enrich_all
    enrich_all-Kept service mapping [] = pure-Keeps _
    enrich_all-Kept service mapping (node ∷ nodes) = >>=-Keeps (lift-Keeps _) λ fqn.
        per_option-Keeps fqn (enrich_all-Kept service mapping nodes) λ name.
          >>=-Keeps (enrich_model-Kept node mapping name)
            λ tally. >>=-Keeps (enrich_all-Kept service mapping nodes) λ counts. pure-Keeps _

    -- Whatever OpenMetadata answers and wherever the run ends, it writes by patches only, none of
    -- them empty, and each is for one table that OpenMetadata answered with status 200: of what
    -- that answer holds, every tag, domain, data product and tag of a column stays, a custom
    -- property that the enricher does not know keeps its value, and owners are written only if
    -- there were none.
    pub enrich_main-Sent :
        (service : Text) (mapping manifest : Json)
        → Keeps (Kept remote log) (main remote py service mapping manifest)
    unfolding main
    enrich_main-Sent service mapping manifest =
        >>=-Keeps (lift-Keeps _) λ nodes. enrich_all-Kept service mapping nodes
