-- ===== src/Json/Dicts/Laws.antt =====
-- Reading a dict that was written to.
use fresh_stackable_data_pla.Prelude.{◌≡◌, false, String, Text, arith, str_eq, if◌then◌else◌}
use text.Mathlib.TextEquality.{eq_iff}
use fresh_stackable_data_pla.Json.{Json, Fields, null, str, obj, end, field, field_of, get, as_text}
use fresh_stackable_data_pla.Effect.Raises.{ok}
use fresh_stackable_data_pla.Json.Dicts.{set_field}

pub field_of-set_field :
    (k j : String) (v : Json) (fs : Fields)
    → field_of k (set_field j v fs) ≡ (if str_eq k j then v else field_of k fs)
unfolding field_of set_field
field_of-set_field k j v end = ground arith
field_of-set_field k j v (field i w fs) =
    ground (arith, field_of-set_field k j v fs, eq_iff k j, eq_iff k i, eq_iff j i)

-- The value under a key, and null where there is none.
unfoldable pub value_at : String → Json → Json
value_at k (obj fs) = field_of k fs
value_at k _ = null

-- What is read under a key.
pub get_value : (k : String) (j v : Json) → get k j ≡ ok v → v ≡ value_at k j
unfolding get value_at
get_value k (obj fs) v h = cc
get_value k _ v h = absurd (cc)

pub set_same : (k : String) (v : Json) (fs : Fields) → value_at k (obj (set_field k v fs)) ≡ v
unfolding value_at
set_same k v fs = ground (arith, field_of-set_field k k v fs, eq_iff k k)

pub set_other :
    (k j : String) (v : Json) (fs : Fields)
    → str_eq k j ≡ false
    → value_at k (obj (set_field j v fs)) ≡ value_at k (obj fs)
unfolding value_at
set_other k j v fs n = ground (arith, field_of-set_field k j v fs, n)

pub as_text_str : (v : Json) (s : Text) → as_text v ≡ ok s → v ≡ str s
unfolding as_text
as_text_str (str t) s h = ground (arith, h)
as_text_str _ s h = absurd (cc)
