-- ===== src/Json.antt =====
-- JSON values as Python holds them, with `dict.get`, truthiness and the errors of a value of
-- another type. A `dict` is a list of fields with different keys.
pub mod Dicts
use fresh_stackable_data_pla.Prelude.{
  ℕ, zero, suc, Bool, true, false, not, ◌||◌, List, [], ◌∷◌, String, Text, str_eq, text_eq, ◌==◌,
  if◌then◌else◌, Option, none, some,
}
use fresh_stackable_data_pla.Text.{txt}
use fresh_stackable_data_pla.Effect.{Result, ok, err, crash}

mutual
  -- `float` holds the `repr` of the number.
  pub data Json : Type 0 where
    null : Json
    bool : Bool → Json
    int : ℕ → Json
    negint : ℕ → Json
    float : Text → Json
    str : Text → Json
    arr : Items → Json
    obj : Fields → Json

  pub data Items : Type 0 where
    nil : Items
    cons : Json → Items → Items

  pub data Fields : Type 0 where
    end : Fields
    field : String → Json → Fields → Fields

-- `d.get(k)`, where `None` is also the value of a missing key.
unfoldable pub field_of : String → Fields → Json
field_of k end = null
field_of k (field j v fs) = if str_eq k j then v else field_of k fs

-- `v.get(k)` on any value: only a dict has the method.
unfoldable pub get : String → Json → Result Json
unfolding field_of
get k (obj fs) = ok (field_of k fs)
get k _ = err crash

unfoldable pub find_field : String → Fields → Option Json
find_field k end = none
find_field k (field j v fs) = if str_eq k j then some v else find_field k fs

-- `v[k]` for a text `k`: a `KeyError` where the key is missing.
unfoldable pub item : String → Json → Result Json
unfolding find_field
item k (obj fs) = elim (find_field k fs) [ none ↦ err crash | some v ↦ ok v ]
item k _ = err crash

-- `v[0]`
unfoldable pub first_item : Json → Result Json
first_item (arr (cons v vs)) = ok v
first_item (str (c ∷ s)) = ok (str (c ∷ []))
first_item _ = err crash

-- `bool(v)`
unfoldable pub truthy : Json → Bool
unfolding txt
truthy null = false
truthy (bool b) = b
truthy (int zero) = false
truthy (int (suc n)) = true
truthy (negint n) = true
truthy (float r) = not (r == txt "0.0" || r == txt "-0.0")
truthy (str []) = false
truthy (str (c ∷ s)) = true
truthy (arr nil) = false
truthy (arr (cons v vs)) = true
truthy (obj end) = false
truthy (obj (field k v fs)) = true

-- `a or b`
unfoldable pub or_else : Json → Json → Json
unfolding truthy
or_else a b = if truthy a then a else b

unfoldable pub is_dict : Json → Bool
is_dict (obj fs) = true
is_dict _ = false

-- A value whose text methods the code calls.
unfoldable pub as_text : Json → Result Text
as_text (str s) = ok s
as_text _ = err crash

-- A value that the code iterates over as a list of JSON values.
unfoldable pub to_list : Items → List Json
to_list nil = []
to_list (cons v vs) = v ∷ to_list vs

-- `for v in j`, of a list; the services answer no other iterable there.
unfoldable pub iterate : Json → Result (List Json)
iterate (arr vs) = ok (to_list vs)
iterate _ = err crash

-- `v == s` for a text `s`
unfoldable pub is_str : Text → Json → Bool
is_str s (str t) = t == s
is_str s _ = false
