-- ===== src/Sources/Coerce.antt =====
-- `_coerce`, `_coerce_csv_ingest` and `load_all_sources`.
use fresh_stackable_data_pla.Prelude.{
  Bool, true, false, ◌&&◌, ◌||◌, Option, none, some, List, [], ◌∷◌, ◌++◌, String, Text, str_eq,
  text_eq, ◌==◌, if◌then◌else◌,
}
use fresh_stackable_data_pla.Text.{txt}
use fresh_stackable_data_pla.Json.{
  is_str, Json, Fields, bool, str, arr, obj, nil, end, field, get, item, or_else, truthy, as_text,
}
use fresh_stackable_data_pla.Json.Dicts.{get_or, dict_of, elements}
use fresh_stackable_data_pla.Effect.Raises.{Result, ok, err, crash, guard, ◌>>=◌, ◌>>◌}
use fresh_stackable_data_pla.Sources.{
  StreamSpec, BronzeSpec, SilverSpec, GovernanceSpec, SlaSpec, CsvColumnSpec, CsvIngestSpec,
  SourceSpec, validate_uniqueness,
}

-- `d[k]` for a text.
unfoldable pub text_at : String → Json → Result Text
text_at k d = do v ← item k d; as_text v

is_among : List String → String → Bool
is_among [] k = false
is_among (j ∷ names) k = str_eq k j || is_among names k

only_keys : List String → Fields → Bool
unfolding is_among
only_keys names end = true
only_keys names (field k v fs) = is_among names k && only_keys names fs

-- `Spec(**d)`: a key that is no field of the dataclass raises, as does a missing one below.
unfoldable block : List String → Json → Result Json
unfolding only_keys
block names d = do fs ← dict_of d; guard (only_keys names fs) crash; ok (obj fs)

unfoldable pub stream_spec : Json → Result StreamSpec
unfolding block text_at
stream_spec given = do
  d ← block ("name" ∷ "key" ∷ []) given
  name ← text_at "name" d
  key ← text_at "key" d
  ok (record { name = name; key = key })

unfoldable pub bronze_spec : Json → Result BronzeSpec
unfolding block text_at
bronze_spec given = do
  d ← block ("catalog" ∷ "schema" ∷ "table" ∷ "partition_by" ∷ []) given
  catalog ← text_at "catalog" d
  schema ← text_at "schema" d
  table ← text_at "table" d
  partition_by ← text_at "partition_by" d
  ok (record { catalog = catalog; schema = schema; table = table; partition_by = partition_by })

unfoldable pub silver_spec : Json → Result SilverSpec
unfolding block text_at
silver_spec given = do
  d ← block ("catalog" ∷ "schema" ∷ "staging_model" ∷ "dbt_tag" ∷ []) given
  catalog ← text_at "catalog" d
  schema ← text_at "schema" d
  staging_model ← text_at "staging_model" d
  dbt_tag ← text_at "dbt_tag" d
  ok (record {
    catalog = catalog;
    schema = schema;
    staging_model = staging_model;
    dbt_tag = dbt_tag;
  })

unfoldable pub sla_spec : Json → Result SlaSpec
unfolding block text_at
sla_spec given = do
  d ←
      block
        ("mode" ∷ "expected_event_freq" ∷ "max_acceptable_lag_seconds" ∷ "alert_threshold_seconds"
          ∷ [])
        given
  mode ← text_at "mode" d
  freq ← item "expected_event_freq" d
  lag ← item "max_acceptable_lag_seconds" d
  alert ← item "alert_threshold_seconds" d
  ok (record {
    mode = mode;
    expected_event_freq = freq;
    max_acceptable_lag_seconds = lag;
    alert_threshold_seconds = alert;
  })

unfoldable csv_columns : List Json → Result (List CsvColumnSpec)
csv_columns [] = ok []
csv_columns (c ∷ cs) = do
  name ← item "name" c
  type ← item "type" c
  required ← get_or "required" (bool true) c
  least ← get "min" c
  most ← get "max" c
  rest ← csv_columns cs
  ok (
      record { name = name; type = type; required = truthy required; min = least; max = most }
      ∷ rest)

unfoldable pub coerce_csv_ingest : Json → Result CsvIngestSpec
unfolding text_at csv_columns
coerce_csv_ingest d = do
  kind ← get "kind" d
  guard (is_str (txt "csv") kind) crash
  staging ← item "staging" d
  csv_cfg ← get_or "csv" (obj end) d
  listed ← item "schema" d
  cs ← elements listed
  cols ← csv_columns cs
  bucket ← item "bucket" staging
  prefix ← text_at "prefix" staging
  processed ← get_or "processed_prefix" (str (prefix ++ txt "_processed")) staging
  delimiter ← get_or "delimiter" (str (txt ",")) csv_cfg
  header ← get_or "has_header" (bool true) csv_cfg
  encoding ← get_or "encoding" (str (txt "utf-8")) csv_cfg
  ok (record {
    staging_bucket = bucket;
    staging_prefix = prefix;
    processed_prefix = processed;
    delimiter = delimiter;
    has_header = truthy header;
    encoding = encoding;
    schema = cols;
  })

-- `Spec(block) if block else None`
unfoldable pub if_given : {A : Type 0} → (Json → Result A) → Json → Result (Option A)
if_given spec given = if truthy given then (do s ← spec given; ok (some s)) else ok none

module _ (int_of : Json → Option Json) where
  unfoldable pub as_int : Json → Result Json
  as_int v = elim (int_of v) [ none ↦ err crash | some n ↦ ok n ]

  unfoldable pub governance_spec : Json → Result GovernanceSpec
  unfolding as_int
  governance_spec g = do
    legal_basis ← item "legal_basis" g
    purposes ← item "doelbinding" g
    doelbinding ← elements purposes
    bio ← item "bio_classificatie" g
    years ← item "bewaartermijn_jaren" g
    jaren ← as_int years
    eigenaar ← item "eigenaar" g
    listed ← get "pii_kolommen" g
    pii ← elements (or_else listed (arr nil))
    risk ← item "risk_tier" g
    ok (record {
      legal_basis = legal_basis;
      doelbinding = doelbinding;
      bio_classificatie = bio;
      bewaartermijn_jaren = jaren;
      eigenaar = eigenaar;
      pii_kolommen = pii;
      risk_tier = risk;
    })

  unfoldable pub coerce : Json → Result SourceSpec
  unfolding sla_spec stream_spec coerce_csv_ingest bronze_spec silver_spec governance_spec if_given
      as_int text_at is_str
  coerce d = do
    sla_block ← item "sla" d
    sla ← sla_spec sla_block
    stream_block ← get "stream" d
    ingest_block ← get "ingest" d
    guard (truthy (if sla.mode == txt "csv_batch" then ingest_block else stream_block)) crash
    version ← item "schema_version" d
    schema_version ← as_int version
    name ← text_at "name" d
    domain ← item "domain" d
    stream ← if_given stream_spec stream_block
    csv_ingest ← if_given coerce_csv_ingest ingest_block
    bronze_block ← item "bronze" d
    bronze ← bronze_spec bronze_block
    silver_block ← item "silver" d
    silver ← silver_spec silver_block
    governance_block ← item "governance" d
    governance ← governance_spec governance_block
    used ← get "used_by_use_cases" d
    use_cases ← elements (or_else used (arr nil))
    anchor ← get_or "anchor" (bool false) d
    ok (record {
      schema_version = schema_version;
      name = name;
      domain = domain;
      bronze = bronze;
      silver = silver;
      governance = governance;
      sla = sla;
      used_by_use_cases = use_cases;
      anchor = truthy anchor;
      stream = stream;
      csv_ingest = csv_ingest;
    })

  unfoldable pub coerce_all : List Json → Result (List SourceSpec)
  unfolding coerce
  coerce_all [] = ok []
  coerce_all (d ∷ files) = do spec ← coerce d; specs ← coerce_all files; ok (spec ∷ specs)

  -- The files are none where the directory does not exist.
  unfoldable pub load_all_sources : Option (List Json) → Result (List SourceSpec)
  unfolding coerce_all validate_uniqueness
  load_all_sources none = ok []
  load_all_sources (some files) = do specs ← coerce_all files; validate_uniqueness specs; ok specs
