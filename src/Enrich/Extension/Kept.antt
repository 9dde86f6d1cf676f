-- ===== src/Enrich/Extension/Kept.antt =====
-- Custom properties that the enricher does not write.
use fresh_stackable_data_pla.Prelude.{
  ◌≡◌, refl, sym, ap, ◌∙◌, Bool, true, false, none, List, [], ◌∷◌, String, arith, str_eq,
  if◌then◌else◌, All, Option-cases, Bool-cases, inl, inr,
}
use mathlib.Core.Path.{subst}
use text.Mathlib.TextEquality.{eq_iff}
use fresh_stackable_data_pla.Json.{
  Json, Fields, null, str, arr, obj, nil, end, field, field_of, find_field, or_else, truthy,
}
use fresh_stackable_data_pla.Json.Dicts.{set_field, copy_dict, dict_of}
use fresh_stackable_data_pla.Json.Dicts.Laws.{value_at, field_of-set_field}
use fresh_stackable_data_pla.Effect.Raises.{ok, err, crash, >>=-inspect}
use fresh_stackable_data_pla.Enrich.Tags.{Runtime, meta_of}
use fresh_stackable_data_pla.Enrich.Extension.{
  text_property, flag_property, flag_properties, retention, build_extension, update_fields,
  merge_extension,
}

-- The flags of dbt's meta, and the custom properties of OpenMetadata that the enricher knows.
abbrev flags : List String
flags =
    "human_in_the_loop" ∷ "toegang_via_OPA_policies" ∷ "profilering" ∷ "opt_out_supported"
    ∷ "sandbox_only" ∷ "pseudonymized" ∷ "publiek_te_publiceren" ∷ "juistheid_AVG_art_5_1d" ∷ []

abbrev pub OtherProperty : String → Type 0
OtherProperty k =
    All (λ j. str_eq k j ≡ false)
      ("bewaartermijn_jaren" ∷ "dpia_id" ∷ "algoritmeregister_id" ∷ "legal_basis_text"
        ∷ "dbt_domain" ∷ flags)

abbrev Lacks : String → Fields → Type 0
Lacks k fs = find_field k fs ≡ none

if-Lacks :
    (k : String) (b : Bool) (x y : Fields) → Lacks k x → Lacks k y → Lacks k (if b then x else y)
if-Lacks k true x y p q = p
if-Lacks k false x y p q = q

ok_fields : {x y : Fields} → ok x ≡ ok y → y ≡ x
ok_fields h = cc

set_field-Lacks :
    (k j : String) (v : Json) (fs : Fields)
    → str_eq k j ≡ false
    → Lacks k fs
    → Lacks k (set_field j v fs)
unfolding find_field set_field
set_field-Lacks k j v end n h = ground (arith, n)
set_field-Lacks k j v (field i w fs) n h =
    ground (arith, set_field-Lacks k j v fs n, eq_iff k j, eq_iff k i, eq_iff j i, n, h)

head_differs :
    (k j : String) (v : Json) (fs : Fields)
    → Lacks k (field j v fs)
    → (str_eq k j ≡ false) × Lacks k fs
unfolding find_field
head_differs k j v fs h = (ground (arith, h), ground (arith, h))

update_fields_kept :
    (k : String) (new out : Fields)
    → Lacks k new
    → field_of k (update_fields new out) ≡ field_of k out
unfolding update_fields
update_fields_kept k end out h = refl
update_fields_kept k (field j v new) out h =
    update_fields_kept k new (set_field j v out) (head_differs k j v new h).1
    ∙ field_of-set_field k j v out
    ∙ ap (λ b. if b then v else field_of k out) (head_differs k j v new h).0

copy_dict-value :
    (k : String) (j : Json) (out : Fields) → copy_dict j ≡ ok out → field_of k out ≡ value_at k j
unfolding copy_dict value_at field_of
copy_dict-value k (obj fs) out h = ap (field_of k) (ok_fields h)
copy_dict-value k (arr nil) out h = ap (field_of k) (ok_fields h)
copy_dict-value k (str []) out h = ap (field_of k) (ok_fields h)
copy_dict-value k _ out h = absurd (cc)

falsy-value : (k : String) (j : Json) → truthy j ≡ false → value_at k j ≡ null
unfolding value_at field_of truthy
falsy-value k (obj end) h = refl
falsy-value k (obj (field j v fs)) h = absurd (cc)
falsy-value k _ h = refl

or_else-value : (k : String) (j : Json) → value_at k (or_else j (obj end)) ≡ value_at k j
unfolding or_else value_at field_of
or_else-value k j = elim (Bool-cases (truthy j)) [
  | inl e ↦ rw e refl
  | inr e ↦ rw e (sym (falsy-value k j e))
]

-- What the merge leaves of the old custom properties.
pub merge_extension_kept :
    (k : String) (found : Json) (new merged : Fields)
    → merge_extension found new ≡ ok merged
    → Lacks k new
    → field_of k merged ≡ value_at k found
unfolding merge_extension
merge_extension_kept k found new merged h l =
    >>=-inspect (copy_dict (or_else found (obj end))) _ h λ out e r.
      ap (field_of k) (ok_fields r)
      ∙ update_fields_kept k new out l
      ∙ copy_dict-value k (or_else found (obj end)) out e
      ∙ or_else-value k found

module _ (py : Runtime) (k : String) where
  text_property-Lacks :
      (meta : Fields) (i j : String) (ext : Fields)
      → str_eq k j ≡ false
      → Lacks k ext
      → Lacks k (text_property py meta i j ext)
  unfolding text_property
  text_property-Lacks meta i j ext n h = elim (Option-cases (find_field i meta)) [
    | inl e ↦ rw (text_property, e) h
    | inr (v, e) ↦
        rw (text_property, e)
          (if-Lacks k (truthy v) _ ext (set_field-Lacks k j (str (py.str_of v)) ext n h) h)
  ]

  flag_properties-Lacks :
      (meta : Fields) (fs : List String) (ext : Fields)
      → All (λ j. str_eq k j ≡ false) fs
      → Lacks k ext
      → Lacks k (flag_properties py meta fs ext)
  unfolding flag_properties flag_property
  flag_properties-Lacks meta [] ext n h = h
  flag_properties-Lacks meta (f ∷ fs) ext (n, ns) h = elim (Option-cases (find_field f meta)) [
    | inl e ↦ rw (flag_property, e) (flag_properties-Lacks meta fs ext ns h)
    | inr (v, e) ↦
        rw (flag_property, e) (flag_properties-Lacks meta fs _ ns (set_field-Lacks k f _ ext n h))
  ]

  retention-Lacks :
      (meta years : Fields)
      → str_eq k "bewaartermijn_jaren" ≡ false
      → retention py meta ≡ ok years
      → Lacks k years
  unfolding retention find_field
  retention-Lacks meta years n h = elim (Option-cases (find_field "bewaartermijn_jaren" meta)) [
    | inl e ↦ subst (Lacks k) (sym (ok_fields (rw (retention, e) at h))) none_yet
    | inr (v, e) ↦ elim (Option-cases (py.int_of v)) [
      | inl f ↦ absurd (no_years (rw (retention, e, f) at h))
      | inr (y, f) ↦
          subst (Lacks k) (sym (ok_fields (rw (retention, e, f) at h)))
            (set_field-Lacks k _ y end n none_yet)
    ]
  ]
    where
      none_yet : Lacks k end
      none_yet = refl

      no_years : err crash ≡ ok years → ⊥
      no_years q = cc

  -- The enricher builds its own custom properties only.
  pub build_extension-Lacks :
      (node : Json) (new : Fields)
      → OtherProperty k
      → build_extension py node ≡ ok new
      → Lacks k new
  unfolding build_extension
  build_extension-Lacks node new (y, (d, (a, (l, (m, fl))))) h =
      >>=-inspect (meta_of py node) _ h λ found _ r. >>=-inspect (dict_of found) _ r λ meta _ s.
        >>=-inspect (retention py meta) _ s λ years e t. subst (Lacks k) (sym (ok_fields t)) (
          flag_properties-Lacks meta flags _ fl (
            text_property-Lacks meta "domain" "dbt_domain" _ m (
              text_property-Lacks meta "legal_basis" "legal_basis_text" _ l (
                text_property-Lacks meta "algoritmeregister_id" "algoritmeregister_id" _ a (
                  text_property-Lacks meta "dpia_id" "dpia_id" _ d
                    (retention-Lacks meta years y e))))))
