-- ===== src/Portal/Search.antt =====
-- The search of portal-backend.py: `_cache_get`, `_cache_set`, `_normalize_om`, the four sources
-- and `search`. The requests of `gather` are sent in its order; a value of a hit that is no text is
-- taken to raise. Times are in seconds.
pub mod Endpoint
use fresh_stackable_data_pla.Prelude.{
  ℕ, ◌+◌, Bool, true, false, not, ◌&&◌, ◌||◌, Option, none, some, List, [], ◌∷◌, ◌++◌, map, String,
  Text, Dict, nat_eq, text_eq, ◌==◌, ltb, leb, if◌then◌else◌, is_empty, contains, keep, take,
  length, lookup, insert,
}
use fresh_stackable_data_pla.Text.{txt, strip, lower}
use fresh_stackable_data_pla.Json.{
  Json, null, str, arr, obj, nil, end, get, or_else, truthy, as_text, iterate,
}
use fresh_stackable_data_pla.Effect.Raises.{Result, ok, err, client_error, ◌>>=◌, ◌>>◌}
use fresh_stackable_data_pla.Http.{Reply, json_of, raise_for_status}
use fresh_stackable_data_pla.Json.Dicts.{get_or}

-- One result.
pub record Hit : Type 0 where
  pub type : Text
  pub service : Text
  pub title : Text
  pub sub : Text
  pub href : Text

pub data Call : Type 0 where
  -- GET {om}/api/v1/search/query, {airflow}/api/v1/dags and {grafana}/api/search
  openmetadata airflow grafana : Text → Call

-- Which of the addresses are set.
pub record Sources : Type 0 where
  pub openmetadata_url : Bool
  pub airflow_url : Bool
  pub grafana_url : Bool

abbrev pub Cache : Type 0
Cache = Dict Text (ℕ × List Hit)

-- `_cache_get`
unfoldable pub cache_get : ℕ → Text → Cache → Option (List Hit)
cache_get now key cache = elim (lookup key cache) [
  | none ↦ none
  | some (at, value) ↦ if ltb now (at + 30) then some value else none
]

insert_by_time : Text × (ℕ × List Hit) → Cache → Cache
insert_by_time e [] = e ∷ []
insert_by_time e (f ∷ cache) =
    let rest = insert_by_time e cache in if leb e.1.0 f.1.0 then e ∷ f ∷ cache else f ∷ rest

by_time : Cache → Cache
unfolding insert_by_time
by_time [] = []
by_time (e ∷ cache) = insert_by_time e (by_time cache)

-- `_cache_set`
unfoldable pub cache_set : ℕ → Text → List Hit → Cache → Cache
unfolding by_time
cache_set now key value cache =
    let full = insert key (now, value) cache in
    let oldest = map (λ (e : Text × (ℕ × List Hit)). e.0) (take 50 (by_time full)) in
    if ltb 200 (length full) then keep (λ e. not (contains oldest e.0)) full else full

-- The entity types that are shown, with the type and service of the result, the words before the
-- name and the path.
kind_of : Text → Option (Text × Text × Text × Text)
kind_of et =
    if et == txt "table"
    then some (txt "table", txt "openmetadata", txt "Catalog · ", txt "table")
    else if et == txt "dashboard"
    then some (txt "dashboard", txt "superset", txt "Dashboard · ", txt "dashboard")
    else if et == txt "pipeline"
    then some (txt "pipeline", txt "airflow", txt "Pipeline · ", txt "pipeline")
    else if et == txt "glossaryTerm"
    then some (txt "table", txt "openmetadata", txt "Glossary · ", txt "glossary")
    else none

shown_kind : Json → Option (Text × Text × Text × Text)
unfolding kind_of
shown_kind (str et) = kind_of et
shown_kind _ = none

unfoldable pub normalize_om : Json → Result (Option Hit)
unfolding shown_kind
normalize_om hit = do
  source ← get "_source" hit
  let src = or_else source (obj end)
  et ← get_or "entityType" (str []) src
  display ← get "displayName" src
  own ← get "name" src
  name ← as_text (or_else display (or_else own (str [])))
  given ← get "fullyQualifiedName" src
  fqn ← as_text (or_else given (str name))
  if is_empty name then ok none else elim (shown_kind et) [
    | none ↦ ok none
    | some (shown, service, word, path) ↦ ok (
        some (record {
          type = shown;
          service = service;
          title = name;
          sub = word ++ fqn;
          href = txt "/embed/openmetadata/?path=%2F" ++ (path ++ (txt "%2F" ++ fqn));
        }))
  ]

unfoldable pub normalize_all : List Json → Result (List Hit)
unfolding normalize_om
normalize_all [] = ok []
normalize_all (h ∷ hits) = do
  norm ← normalize_om h
  out ← normalize_all hits
  elim norm [ none ↦ ok out | some n ↦ ok (n ∷ out) ]

-- The body of an answer with a 2xx status.
answer_of : Option Reply → Result Json
answer_of none = err client_error
answer_of (some r) = do raise_for_status r; json_of r

-- `except Exception: return []` around the reading of an answer, whose values are then listed.
or_none : Result Json → Result (List Json)
or_none (err e) = ok []
or_none (ok v) = iterate (or_else v (arr nil))

unfoldable pub hits_of_openmetadata : Option Reply → Result (List Hit)
unfolding answer_of or_none normalize_all
hits_of_openmetadata r = do
  listed ←
      or_none (do body ← answer_of r; hits ← get "hits" body; get "hits" (or_else hits (obj end)))
  normalize_all listed

-- A comprehension with a test on one field.
hits_where : String → (Json → Result Hit) → List Json → Result (List Hit)
hits_where k f [] = ok []
hits_where k f (d ∷ ds) = do
  v ← get k d
  rest ← hits_where k f ds
  if truthy v then (do h ← f d; ok (h ∷ rest)) else ok rest

dag_hit : Json → Result Hit
dag_hit d = do
  id ← get "dag_id" d
  dag_id ← as_text id
  described ← get "description" d
  description ← as_text (or_else described (str (txt "Airflow DAG")))
  ok (record {
    type = txt "dag";
    service = txt "airflow";
    title = dag_id;
    sub = take 120 description;
    href = txt "/embed/airflow/?path=%2Fdags%2F" ++ dag_id;
  })

unfoldable pub hits_of_airflow : Option Reply → Result (List Hit)
unfolding answer_of or_none hits_where dag_hit
hits_of_airflow r = do
  listed ← or_none (do body ← answer_of r; get "dags" body)
  hits_where "dag_id" dag_hit listed

board_hit : Json → Result Hit
board_hit row = do
  shown ← get_or "title" (str (txt "untitled")) row
  title ← as_text shown
  held ← get_or "folderTitle" (str (txt "General")) row
  folder ← as_text held
  id ← get "uid" row
  uid ← as_text id
  ok (record {
    type = txt "dashboard";
    service = txt "grafana";
    title = title;
    sub = txt "Grafana · " ++ folder;
    href = txt "/embed/grafana/?path=%2Fd%2F" ++ uid;
  })

unfoldable pub hits_of_grafana : Option Reply → Result (List Hit)
unfolding answer_of or_none hits_where board_hit
hits_of_grafana r = do listed ← or_none (answer_of r); hits_where "uid" board_hit listed

-- `_GROUP_PRIORITY.get(type, 99)`
unfoldable pub group_priority : Text → ℕ
group_priority type =
    if type == txt "dashboard"
    then 0
    else if type == txt "dag"
    then 1
    else if type == txt "table"
    then 2
    else if type == txt "notebook"
    then 3
    else if type == txt "query"
    then 4
    else if type == txt "pipeline"
    then 5
    else 99
