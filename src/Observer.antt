-- ===== src/Observer.antt =====
-- platform/19-nanitics-observatory/app/platform_tools.py: the tools with which the observatory's
-- language model reads Trino and OpenMetadata. Trino is a function of the statements so far and the
-- statement, to its whole result or to none where the driver raises; printing JSON is a parameter.
pub mod Catalog
pub mod Requests
pub mod ReadOnly
mod Tests
use Prim.{Unit, tt}
use fresh_stackable_data_pla.Prelude.{
  ℕ, ◌+◌, min, Bool, true, false, not, ◌&&◌, Option, none, some, List, [], ◌∷◌, ◌++◌, Text, text_eq,
  nat_eq, ◌==◌, ltb, if◌then◌else◌, is_empty, contains, length, take,
}
use fresh_stackable_data_pla.Text.{
  txt, lower, strip, is_space, rstrip_code, after_prefix, starts_with,
}
use fresh_stackable_data_pla.Json.{
  Json, Fields, null, bool, str, arr, obj, nil, cons, end, field, get, or_else, is_dict, as_text,
}
use fresh_stackable_data_pla.Json.Dicts.{get_or, elements, items_of}
use fresh_stackable_data_pla.Effect.Raises.{Result, ok, err, ◌>>=◌, ◌>>◌}

-- What Trino answers to a statement.
pub record Table : Type 0 where
  pub columns : List Text
  pub rows : List Json

pub data QueryAnswer : Type 0 where
  empty_query not_installed failed : QueryAnswer
  refused : Text → QueryAnswer
  table : List Text → List Json → Bool → QueryAnswer

-- `_READ_ONLY_PREFIXES`
unfoldable pub read_only_prefixes : List Text
read_only_prefixes =
    txt "select" ∷ txt "show" ∷ txt "describe" ∷ txt "desc" ∷ txt "with" ∷ txt "explain" ∷ []

-- `s.split(None, 1)[0]` of a text without white space before it.
unfoldable pub first_word : Text → Text
unfolding is_space
first_word [] = []
first_word (c ∷ s) = let rest = first_word s in if is_space c then [] else c ∷ rest

-- `sql.strip().rstrip(";").strip()`
unfoldable pub stripped : Text → Text
unfolding strip rstrip_code
stripped sql = strip (rstrip_code b';' (strip sql))

-- What is shown of a result: `fetchmany` gives one row more than is shown.
unfoldable pub shown : ℕ → Table → QueryAnswer
shown trino_max_rows t =
    let rows = take (trino_max_rows + 1) t.rows in
    table t.columns (take trino_max_rows rows) (ltb trino_max_rows (length rows))

unfoldable pub answer_for : ℕ → Option Table → QueryAnswer
unfolding shown
answer_for trino_max_rows none = failed
answer_for trino_max_rows (some t) = shown trino_max_rows t

module _ (installed : Bool) (trino : List Text → Text → Option Table) (trino_max_rows : ℕ) where
  -- The answer, and the statements that were executed, newest first.
  unfoldable pub query_trino : Text → List Text → QueryAnswer × List Text
  unfolding answer_for read_only_prefixes
  query_trino sql executed =
      if is_empty (stripped sql)
      then (empty_query, executed)
      else if not (contains read_only_prefixes (lower (first_word (stripped sql))))
      then (refused (lower (first_word (stripped sql))), executed)
      else if not installed
      then (not_installed, executed)
      else (answer_for trino_max_rows (trino executed (stripped sql)), stripped sql ∷ executed)
