-- ===== src/Sync/Policy/Run.antt =====
-- The requests of om_to_opa_sync.py: its pages, the config map and `main`. The parsing and the
-- printing of JSON (`json.loads`, `json.dumps` with sorted keys) are parameters, and so is the text
-- of a dict's key.
use Prim.{Unit, tt}
use fresh_stackable_data_pla.Prelude.{
  ℕ, zero, suc, Bool, ◌||◌, Option, none, some, List, [], ◌∷◌, ◌++◌, Text, String, Dict, text_eq,
  nat_eq, ◌==◌, if◌then◌else◌, is_empty, map, contains,
}
use fresh_stackable_data_pla.Text.{txt}
use fresh_stackable_data_pla.Json.{
  Json, str, arr, obj, nil, end, get, or_else, truthy, as_text, iterate,
}
use fresh_stackable_data_pla.Json.Dicts.{get_or}
use fresh_stackable_data_pla.Effect.{out_of_fuel, Exec, pure, raise, lift, ◌>>=◌, ◌>>◌}
use fresh_stackable_data_pla.Http.{Remote, send, json_of, raise_for_error}
use fresh_stackable_data_pla.Sync.Policy.{aggregate_resource_purposes, merge_purposes}

pub data Call : Type 0 where
  -- GET {om}/api/v1/tables with this cursor
  list_page : Option Json → Call
  -- GET and PATCH {kube}/api/v1/namespaces/{ns}/configmaps/{name}
  read_configmap : Call
  patch_configmap : Text → Call

-- `list_tables`; fuel bounds the pages.
module _ (remote : Remote Call) where
  unfoldable pub list_tables_from : ℕ → Option Json → List Json → Exec (List Call) (List Json)
  list_tables_from zero after out = raise out_of_fuel
  list_tables_from (suc fuel) after out = do
    r ← send remote (list_page after)
    lift (raise_for_error r)
    body ← lift (json_of r)
    listed ← lift (get_or "data" (arr nil) body)
    page ← lift (iterate listed)
    paging ← lift (get_or "paging" (obj end) body)
    next ← lift (get "after" paging)
    if truthy next then list_tables_from fuel (some next) (out ++ page) else pure (out ++ page)

  unfoldable pub list_tables : ℕ → Exec (List Call) (List Json)
  unfolding list_tables_from
  list_tables fuel = list_tables_from fuel none []

  unfoldable pub get_configmap : Exec (List Call) Json
  get_configmap = do r ← send remote read_configmap; lift (raise_for_error r); lift (json_of r)

  unfoldable pub patch_configmap_data : Text → Exec (List Call) (Unit {0})
  patch_configmap_data new_data_json = do
    r ← send remote (patch_configmap new_data_json)
    if contains (200 ∷ 201 ∷ []) r.status then pure tt else lift (raise_for_error r)

  module _ (loads : Text → Option Json) (dumps : Json → Text) (key : Text → String)
      (dry_run : Bool) where
    -- The end of `main`, once the new text is known.
    unfoldable pub write_bundle : Text → Text → Exec (List Call) ℕ
    unfolding patch_configmap_data
    write_bundle raw new_raw =
        if dry_run || new_raw == raw then pure 0 else do patch_configmap_data new_raw; pure 0

    unfoldable pub update_bundle : Dict Text (List Text) → Exec (List Call) ℕ
    unfolding get_configmap write_bundle
    update_bundle om_map = do
      cm ← get_configmap
      found ← lift (get "data" cm)
      value ← lift (get_or "data.json" (str (txt "{}")) (or_else found (obj end)))
      raw ← lift (as_text value)
      elim (loads raw) [
        | none ↦ pure 1
        | some opa_data ↦ do
          merged ← lift (merge_purposes (map (λ e. (key e.0, e.1)) om_map) opa_data)
          write_bundle raw (dumps merged)
      ]

    unfoldable pub main : ℕ → Exec (List Call) ℕ
    unfolding update_bundle
    main fuel = do
      tables ← list_tables fuel
      om_map ← lift (aggregate_resource_purposes tables)
      if is_empty om_map then pure 0 else update_bundle om_map
