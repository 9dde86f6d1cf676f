-- ===== src/Observer/Catalog.antt =====
-- `openmetadata_search` and `openmetadata_get`.
use fresh_stackable_data_pla.Prelude.{
  ℕ, min, zero, suc, Bool, true, false, none, some, List, [], ◌∷◌, Text, text_eq, nat_eq, ◌==◌, ltb,
  if◌then◌else◌, length, take,
}
use fresh_stackable_data_pla.Text.{txt, after_prefix}
use fresh_stackable_data_pla.Json.{
  Json, bool, str, arr, obj, nil, end, field, get, or_else, is_dict, as_text,
}
use fresh_stackable_data_pla.Json.Dicts.{get_or, elements, items_of}
use fresh_stackable_data_pla.Effect.Raises.{Result, ok, ◌>>=◌}

-- `max(1, min(size, 50))`, of a negative (true) or a natural number.
unfoldable pub page_size : Bool × ℕ → ℕ
page_size (true, n) = 1
page_size (false, zero) = 1
page_size (false, suc n) = min (suc n) 50

-- `[t.get("tagFQN") for t in ... if isinstance(t, dict)]`
unfoldable pub tag_names : List Json → Result (List Json)
tag_names [] = ok []
tag_names (t ∷ ts) =
    if is_dict t
    then (do name ← get "tagFQN" t; rest ← tag_names ts; ok (name ∷ rest))
    else tag_names ts

-- One hit as the tool answers it.
unfoldable pub hit_of : Json → Result Json
unfolding tag_names items_of
hit_of h = do
  src ← (if is_dict h then get_or "_source" (obj end) h else ok (obj end))
  fqn ← get "fullyQualifiedName" src
  name ← get "name" src
  kind ← get "entityType" src
  found ← get "description" src
  description ← as_text (or_else found (str []))
  listed ← get_or "tags" (arr nil) src
  ts ← elements listed
  names ← tag_names ts
  ok (
      obj (
        field "fqn" fqn (
          field "name" name (
            field "entityType" kind (
              field "description" (str (take 280 description))
                (field "tags" (arr (items_of names)) end))))))

unfoldable pub hits_of : List Json → Result (List Json)
unfolding hit_of
hits_of [] = ok []
hits_of (h ∷ hs) = do hit ← hit_of h; rest ← hits_of hs; ok (hit ∷ rest)

-- What `openmetadata_search` makes of the body of an answer.
unfoldable pub search_results : Json → Result (List Json)
unfolding hits_of
search_results body =
    if is_dict body
    then (do
      outer ← get_or "hits" (obj end) body
      inner ← get_or "hits" (arr nil) outer
      hs ← elements inner
      hits_of hs)
    else ok []

-- `path.lstrip("/")`
unfoldable pub lstrip_slash : Text → Text
lstrip_slash [] = []
lstrip_slash (c ∷ s) = let rest = lstrip_slash s in if c == b'/' then rest else c ∷ s

-- The path below the API that `openmetadata_get` reads.
unfoldable pub clean_path : Text → Text
unfolding lstrip_slash after_prefix
clean_path path = elim (after_prefix (txt "api/") (lstrip_slash path)) [
  | none ↦ lstrip_slash path
  | some rest ↦ rest
]

-- What `openmetadata_get` answers for a body, printed by `json.dumps`: 12,000 characters at most of
-- it.
unfoldable pub capped : (Json → Text) → Json → Json
capped dumps body =
    if ltb 12000 (length (dumps body))
    then obj (
        field "truncated" (bool true) (
          field "note" (str (txt "response > 12k chars; narrow with ?fields="))
            (field "head" (str (take 12000 (dumps body))) end)))
    else body
