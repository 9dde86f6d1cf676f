-- ===== src/Sync/Policy/Merge.antt =====
-- The merge of the purposes into the policy's data.
use fresh_stackable_data_pla.Prelude.{
  ◌≡◌, refl, sym, ◌∙◌, ap, false, none, some, List, [], ◌∷◌, Text, String, Dict, arith, str_eq,
  if◌then◌else◌, inl, inr, Option-cases,
}
use mathlib.Core.Path.{subst}
use fresh_stackable_data_pla.Json.{
  Json, Fields, null, arr, str, obj, nil, end, field, field_of, find_field,
}
use fresh_stackable_data_pla.Json.Dicts.{get_or, set_field, copy_dict, dict_of}
use fresh_stackable_data_pla.Json.Dicts.Laws.{field_of-set_field, value_at, set_same, set_other}
use fresh_stackable_data_pla.Effect.Raises.{ok, >>=-inspect}
use fresh_stackable_data_pla.Sync.Policy.{texts, put_all, merge_purposes}

-- The value under a key once the assignments were made: the last one counts.
unfoldable pub override : Dict String (List Text) → String → Json → Json
override [] g v = v
override ((h, ps) ∷ m) g v =
    let set = override m g (arr (texts ps)) in
    let left = override m g v in if str_eq g h then set else left

field_of-put_all :
    (m : Dict String (List Text)) (fs : Fields) (g : String)
    → field_of g (put_all m fs) ≡ override m g (field_of g fs)
unfolding put_all override
field_of-put_all [] fs g = refl
field_of-put_all ((h, ps) ∷ m) fs g = ground (
  arith,
  field_of-put_all m (set_field h (arr (texts ps)) fs) g,
  field_of-set_field g h (arr (texts ps)) fs,
)

field_of-find_field :
    (k : String) (fs : Fields) → field_of k fs ≡ elim (find_field k fs) [ none ↦ null | some v ↦ v ]
unfolding find_field field_of
field_of-find_field k end = refl
field_of-find_field k (field j v fs) = ground (arith, field_of-find_field k fs)

get_or_value :
    (k : String) (fs : Fields) (w : Json) (g : String)
    → get_or k (obj end) (obj fs) ≡ ok w
    → value_at g w ≡ value_at g (value_at k (obj fs))
unfolding value_at get_or field_of
get_or_value k fs w g h = elim (Option-cases (find_field k fs)) [
  | inl e ↦ ground (arith, field_of-find_field k fs, e)
  | inr (v, e) ↦ ground (arith, field_of-find_field k fs, e)
]

copied_value :
    (v : Json) (fs : Fields) (g : String) → copy_dict v ≡ ok fs → field_of g fs ≡ value_at g v
unfolding copy_dict value_at field_of
copied_value (obj fs') fs g h = ground arith
copied_value (arr nil) fs g h = ground arith
copied_value (str []) fs g h = ground arith
copied_value _ fs g h = absurd (cc)

-- What the merged data holds: the purposes under each glob, the other role mappings and the
-- other data.
pub record Merged (om_map : Dict String (List Text)) (old new : Json) : Type 0 where
  pub purposes :
      (g : String)
      → value_at g (value_at "resource_purposes" (value_at "uwv_role_mappings" new))
        ≡ override om_map g
            (value_at g (value_at "resource_purposes" (value_at "uwv_role_mappings" old)))
  pub mappings :
      (k : String)
      → str_eq k "resource_purposes" ≡ false
      → value_at k (value_at "uwv_role_mappings" new)
        ≡ value_at k (value_at "uwv_role_mappings" old)
  pub others : (k : String) → str_eq k "uwv_role_mappings" ≡ false → value_at k new ≡ value_at k old

dict_is : (v : Json) (fs : Fields) → dict_of v ≡ ok fs → v ≡ obj fs
unfolding dict_of
dict_is (obj fs') fs h = ground arith
dict_is _ fs h = absurd (cc)

abbrev written_data : Dict String (List Text) → Fields → Fields → Fields → Json
written_data m opa rm merged = obj (
    set_field "uwv_role_mappings" (obj (set_field "resource_purposes" (obj (put_all m merged)) rm))
      opa)

put_all-Merged :
    (m : Dict String (List Text)) (opa rm old_purposes : Fields) (existing : Json)
    → get_or "uwv_role_mappings" (obj end) (obj opa) ≡ ok (obj rm)
    → get_or "resource_purposes" (obj end) (obj rm) ≡ ok existing
    → copy_dict existing ≡ ok old_purposes
    → Merged m (obj opa) (
        obj (
          set_field "uwv_role_mappings"
            (obj (set_field "resource_purposes" (obj (put_all m old_purposes)) rm))
            opa))
put_all-Merged m opa rm old_purposes existing h₁ h₂ h₃ = record {
  purposes = λ g.
      rw
        (
          set_same "uwv_role_mappings"
              (obj (set_field "resource_purposes" (obj (put_all m old_purposes)) rm)) opa,
          set_same "resource_purposes" (obj (put_all m old_purposes)) rm,
        )
        (unfold value_at in
          field_of-put_all m old_purposes g
          ∙ ap (override m g) (
              copied_value existing old_purposes g h₃
              ∙ (get_or_value "resource_purposes" rm existing g h₂
                  ∙ ap (value_at g)
                      (get_or_value "uwv_role_mappings" opa (obj rm) "resource_purposes" h₁))));
  mappings = λ k n.
      rw
        (set_same "uwv_role_mappings"
          (obj (set_field "resource_purposes" (obj (put_all m old_purposes)) rm)) opa)
        (set_other k "resource_purposes" (obj (put_all m old_purposes)) rm n
          ∙ get_or_value "uwv_role_mappings" opa (obj rm) k h₁);
  others = λ k n. set_other k "uwv_role_mappings" _ opa n;
}

ok_eq : {v w : Json} → ok v ≡ ok w → v ≡ w
ok_eq h = ground (arith, h)

-- A merge that succeeds gives every glob that OpenMetadata names its purposes, and leaves every
-- other purpose, role mapping and datum as it was.
pub merge_purposes-Merged :
    (m : Dict String (List Text)) (opa_data new : Json)
    → merge_purposes m opa_data ≡ ok new
    → Merged m opa_data new
unfolding merge_purposes
merge_purposes-Merged m opa_data new h =
    >>=-inspect (get_or "uwv_role_mappings" (obj end) opa_data) _ h λ found e₁ h₁.
      >>=-inspect (dict_of found) _ h₁ λ rm e₂ h₂. >>=-inspect (dict_of opa_data) _ h₂ λ opa e₃ h₃.
        >>=-inspect (get_or "resource_purposes" (obj end) found) _ h₃ λ existing e₄ h₄.
          >>=-inspect (copy_dict existing) _ h₄ λ old_purposes e₅ h₅.
            let p : found ≡ obj rm = dict_is found rm e₂ in
            let q : opa_data ≡ obj opa = dict_is opa_data opa e₃ in
            subst (λ n. Merged m opa_data n) (ok_eq h₅)
              (subst (λ d. Merged m d (written_data m opa rm old_purposes)) (sym q)
                (put_all-Merged m opa rm old_purposes existing (cc) (cc) e₅))
