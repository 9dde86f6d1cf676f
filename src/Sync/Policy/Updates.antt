-- ===== src/Sync/Policy/Updates.antt =====
-- What a run of om_to_opa_sync.py may send.
use Prim.{Unit, tt}
use fresh_stackable_data_pla.Prelude.{
  ℕ, ◌≡◌, refl, ap, ◌∙◌, Bool, false, ◌||◌, Option, none, some, List, [], Text, String, Dict,
  text_eq, ◌==◌, arith, is_empty, map, inl, inr, Option-cases, Bool-cases,
}
use fresh_stackable_data_pla.Json.{Json}
use fresh_stackable_data_pla.Effect.{ok}
use fresh_stackable_data_pla.Effect.Keeps.{Keeps, >>=-Keeps, lift->>=-Keeps, pure-Keeps, keeps}
use fresh_stackable_data_pla.Effect.Gives.{Gives->>=-Keeps}
use fresh_stackable_data_pla.Json.Dicts.Laws.{as_text_str}
use fresh_stackable_data_pla.Sync.Policy.Answered.{
  ReadAll, start, ConfigText, list_tables_from-Gives, get_configmap-Gives,
}
use fresh_stackable_data_pla.Http.{Remote}
use fresh_stackable_data_pla.Http.Sent.{Sent, send-Sent}
use fresh_stackable_data_pla.Sync.Policy.{aggregate_resource_purposes, merge_purposes}
use fresh_stackable_data_pla.Sync.Policy.Run.{
  Call, list_page, read_configmap, patch_configmap, list_tables, patch_configmap_data, write_bundle,
  update_bundle, main,
}

module _ (remote : Remote Call) (loads : Text → Option Json) (dumps : Json → Text)
    (key : Text → String) (dry_run : Bool) where
  -- A patch: the text of the config map that was answered, with the purposes of the tables that
  -- were answered merged in, at least one glob, when the text is another and the run is no dry run.
  pub record IsUpdate (new_raw : Text) : Type 0 where
    pub not_dry : dry_run ≡ false
    pub tables : List Json
    pub all_read : ReadAll remote tables
    pub om_map : Dict Text (List Text)
    pub aggregated : aggregate_resource_purposes tables ≡ ok om_map
    pub not_empty : is_empty om_map ≡ false
    pub raw : Text
    pub was_text : ConfigText remote raw
    pub opa_data : Json
    pub merged : Json
    pub parsed : loads raw ≡ some opa_data
    pub is_merged : merge_purposes (map (λ e. (key e.0, e.1)) om_map) opa_data ≡ ok merged
    pub printed : new_raw ≡ dumps merged
    pub changed : new_raw == raw ≡ false

  abbrev pub MaySend : Call → Type 0
  MaySend (list_page after) = Unit
  MaySend read_configmap = Unit
  MaySend (patch_configmap new_raw) = IsUpdate new_raw

  module _ (log : List Call) where
    patch-Sent :
        (new_raw : Text)
        → IsUpdate new_raw
        → Keeps (Sent MaySend log) (patch_configmap_data remote new_raw)
    unfolding patch_configmap_data
    patch-Sent new_raw u = >>=-Keeps (send-Sent remote _ u) λ r. search keeps

    write_bundle-Sent :
        (raw new_raw : Text)
        → (dry_run ≡ false → new_raw == raw ≡ false → IsUpdate new_raw)
        → Keeps (Sent MaySend log) (write_bundle remote loads dumps key dry_run raw new_raw)
    unfolding write_bundle
    write_bundle-Sent raw new_raw u = elim (Bool-cases (dry_run || new_raw == raw)) [
      | inl e ↦ rw e (pure-Keeps _)
      | inr e ↦ rw e (
          >>=-Keeps (patch-Sent new_raw (u (ground (arith, e)) (ground (arith, e))))
            λ _. pure-Keeps _)
    ]

    update_bundle-Sent :
        (tables : List Json) (om_map : Dict Text (List Text))
        → ReadAll remote tables
        → aggregate_resource_purposes tables ≡ ok om_map
        → is_empty om_map ≡ false
        → Keeps (Sent MaySend log) (update_bundle remote loads dumps key dry_run om_map)
    unfolding update_bundle
    update_bundle-Sent tables om_map all h n =
        Gives->>=-Keeps (get_configmap-Gives remote tt) λ cm a. lift->>=-Keeps _ λ found g.
          lift->>=-Keeps _ λ value v. lift->>=-Keeps _ λ raw t. elim (Option-cases (loads raw)) [
            | inl e ↦ rw e (pure-Keeps _)
            | inr (opa_data, e) ↦ rw e (
                lift->>=-Keeps _ λ merged m. write_bundle-Sent raw (dumps merged) λ d c. record {
                  not_dry = d;
                  tables = tables;
                  all_read = all;
                  om_map = om_map;
                  aggregated = h;
                  not_empty = n;
                  raw = raw;
                  was_text = record {
                    cm = cm;
                    found = found;
                    answered = a;
                    has_data = g;
                    has_text = v ∙ ap ok (as_text_str value raw t);
                  };
                  opa_data = opa_data;
                  merged = merged;
                  parsed = e;
                  is_merged = m;
                  printed = refl;
                  changed = c;
                })
          ]

  -- Whatever the services answer, a run that is no dry run patches the policy's data only with
  -- the text of the config map that was answered, into which the purposes of all tables are merged,
  -- those of the pages that were answered from the first to the last; there is at least one glob,
  -- and the text changes. A dry run patches nothing.
  pub policy_main-Sent :
      (fuel : ℕ) (log : List Call)
      → Keeps (Sent MaySend log) (main remote loads dumps key dry_run fuel)
  unfolding main list_tables
  policy_main-Sent fuel log =
      Gives->>=-Keeps (list_tables_from-Gives remote (λ after. tt) fuel none [] start) λ tables all.
        lift->>=-Keeps _ λ om_map h. elim (Bool-cases (is_empty om_map)) [
          | inl e ↦ rw e (pure-Keeps _)
          | inr e ↦ rw e (update_bundle-Sent log tables om_map all h e)
        ]
