-- ===== src/Enrich/Extension.antt =====
-- `build_extension` and `merge_extension`.
pub mod Kept
use fresh_stackable_data_pla.Prelude.{
  Bool, true, false, Option, none, some, List, [], ◌∷◌, String, Text, if◌then◌else◌,
}
use fresh_stackable_data_pla.Text.{txt}
use fresh_stackable_data_pla.Json.{
  Json, Fields, str, arr, obj, nil, cons, end, field, find_field, get, or_else, truthy,
}
use fresh_stackable_data_pla.Json.Dicts.{set_field, copy_dict, dict_of}
use fresh_stackable_data_pla.Effect.Raises.{Result, ok, err, crash, ◌>>=◌, ◌>>◌}
use fresh_stackable_data_pla.Enrich.Tags.{Runtime, meta_of}

module _ (py : Runtime) where
  -- `if meta.get(k): ext[j] = str(meta[k])`
  text_property : Fields → String → String → Fields → Fields
  text_property meta k j ext = elim (find_field k meta) [
    | none ↦ ext
    | some v ↦ if truthy v then set_field j (str (py.str_of v)) ext else ext
  ]

  -- `if boolflag in meta: ...`
  unfoldable pub flag_property : Fields → String → Fields → Fields
  flag_property meta k ext = elim (find_field k meta) [
    | none ↦ ext
    | some v ↦ set_field k (arr (cons (str (if truthy v then txt "true" else txt "false")) nil)) ext
  ]

  flag_properties : Fields → List String → Fields → Fields
  unfolding flag_property
  flag_properties meta [] ext = ext
  flag_properties meta (k ∷ flags) ext = flag_properties meta flags (flag_property meta k ext)

  -- `if "bewaartermijn_jaren" in meta: ...`
  retention : Fields → Result Fields
  retention meta = elim (find_field "bewaartermijn_jaren" meta) [
    | none ↦ ok end
    | some v ↦ elim (py.int_of v) [
      | none ↦ err crash
      | some n ↦ ok (set_field "bewaartermijn_jaren" n end)
    ]
  ]

  unfoldable pub build_extension : Json → Result Fields
  unfolding retention text_property flag_properties
  build_extension node = do
    found ← meta_of py node
    meta ← dict_of found
    years ← retention meta
    let texts = text_property meta "domain" "dbt_domain" (
        text_property meta "legal_basis" "legal_basis_text" (
          text_property meta "algoritmeregister_id" "algoritmeregister_id"
            (text_property meta "dpia_id" "dpia_id" years)))
    ok (
        flag_properties meta
          ("human_in_the_loop" ∷ "toegang_via_OPA_policies" ∷ "profilering" ∷ "opt_out_supported"
            ∷ "sandbox_only" ∷ "pseudonymized" ∷ "publiek_te_publiceren" ∷ "juistheid_AVG_art_5_1d"
            ∷ [])
          texts)

-- `out.update(new)`
unfoldable pub update_fields : Fields → Fields → Fields
update_fields end out = out
update_fields (field k v new) out = update_fields new (set_field k v out)

unfoldable pub merge_extension : Json → Fields → Result Fields
unfolding update_fields
merge_extension existing new = do
  out ← copy_dict (or_else existing (obj end))
  ok (update_fields new out)
