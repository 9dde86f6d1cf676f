-- ===== src/Json/Dicts.antt =====
-- Dicts that the code reads with a default, copies and writes to.
pub mod Laws
use fresh_stackable_data_pla.Prelude.{
  ℕ, Bool, true, false, Option, none, some, List, [], ◌∷◌, Text, String, str_eq, text_eq, ◌==◌,
  if◌then◌else◌,
}
use fresh_stackable_data_pla.Text.{txt}
use fresh_stackable_data_pla.Json.{
  Json, Items, Fields, null, str, arr, obj, nil, cons, end, field, find_field,
}
use fresh_stackable_data_pla.Effect.Raises.{Result, ok, err, crash}

-- `v.get(k, d)`
unfoldable pub get_or : String → Json → Json → Result Json
unfolding find_field
get_or k d (obj fs) = elim (find_field k fs) [ none ↦ ok d | some v ↦ ok v ]
get_or k d _ = err crash

-- A dict that the code writes to; no other value takes a text for a key.
unfoldable pub dict_of : Json → Result Fields
dict_of (obj fs) = ok fs
dict_of _ = err crash

-- `d[k] = v`
unfoldable pub set_field : String → Json → Fields → Fields
set_field k v end = field k v end
set_field k v (field j w fs) =
    let rest = set_field k v fs in if str_eq k j then field j v fs else field j w rest

-- `dict(v)` of a dict or of something empty.
unfoldable pub copy_dict : Json → Result Fields
copy_dict (obj fs) = ok fs
copy_dict (arr nil) = ok end
copy_dict (str []) = ok end
copy_dict _ = err crash

-- `v.get(k, d)` for a key that is a computed text.
unfoldable pub find_text : Text → Fields → Option Json
find_text k end = none
find_text k (field j v fs) = if k == txt j then some v else find_text k fs

unfoldable pub get_text : Text → Json → Json → Result Json
unfolding find_text
get_text k d (obj fs) = elim (find_text k fs) [ none ↦ ok d | some v ↦ ok v ]
get_text k d _ = err crash

keys_of : Fields → List Json
keys_of end = []
keys_of (field k v fs) = str (txt k) ∷ keys_of fs

letters_of : Text → List Json
letters_of [] = []
letters_of (c ∷ s) = str (c ∷ []) ∷ letters_of s

list_of : Items → List Json
list_of nil = []
list_of (cons v vs) = v ∷ list_of vs

-- `for v in j`: over a list, the letters of a text or the keys of a dict.
unfoldable pub elements : Json → Result (List Json)
unfolding keys_of letters_of list_of
elements (arr vs) = ok (list_of vs)
elements (str s) = ok (letters_of s)
elements (obj fs) = ok (keys_of fs)
elements _ = err crash

unfoldable pub items_of : List Json → Items
items_of [] = nil
items_of (v ∷ vs) = cons v (items_of vs)
