-- ===== src/Sources/Tests.antt =====
-- A source with a stream, and the theorem there.
use fresh_stackable_data_pla.Prelude.{
  ◌≡◌, refl, false, some, none, Option, [], ◌∷◌, text_eq, nat_eq, contains,
}
use fresh_stackable_data_pla.Text.{txt}
use fresh_stackable_data_pla.Json.{
  Json, Fields, str, int, arr, obj, nil, end, field, get, item, find_field, or_else, truthy,
  as_text,
}
use fresh_stackable_data_pla.Json.Dicts.{get_or, dict_of, elements}
use fresh_stackable_data_pla.Effect.Raises.{ok}
use fresh_stackable_data_pla.Sources.{SourceSpec, validate_from, validate_uniqueness}
use fresh_stackable_data_pla.Sources.Coerce.{coerce, coerce_all, load_all_sources}
use fresh_stackable_data_pla.Sources.Loaded.{Loaded, load_all_sources-Loaded}

abbrev whole : Json → Option Json
whole v = some v

abbrev table : Fields
table = field "catalog" (str (txt "bronze")) (field "schema" (str (txt "wia")) end)

abbrev persona_file : Json
persona_file = obj (
    field "schema_version" (int 1) (
      field "name" (str (txt "persona")) (
        field "domain" (str (txt "crm")) (
          field "stream"
            (obj (field "name" (str (txt "uwv.persona")) (field "key" (str (txt "bsn")) end)))
            (field "bronze"
              (obj
                (field "table" (str (txt "persona")) (field "partition_by" (str (txt "dt")) table)))
              (field "silver"
                (obj (
                  field "staging_model" (str (txt "stg_persona"))
                    (field "dbt_tag" (str (txt "crm")) table)))
                (field "governance"
                  (obj (
                    field "legal_basis" (str (txt "wia")) (
                      field "doelbinding" (arr nil) (
                        field "bio_classificatie" (str (txt "BBN2")) (
                          field "bewaartermijn_jaren" (int 7) (
                            field "eigenaar" (str (txt "crm"))
                              (field "risk_tier" (str (txt "high")) end)))))))
                  (field "sla"
                    (obj (
                      field "mode" (str (txt "streaming")) (
                        field "expected_event_freq" (str (txt "1m")) (
                          field "max_acceptable_lag_seconds" (int 60)
                            (field "alert_threshold_seconds" (int 300) end)))))
                    end))))))))

abbrev persona : SourceSpec
persona = record {
  schema_version = int 1;
  name = txt "persona";
  domain = str (txt "crm");
  bronze = record {
    catalog = txt "bronze";
    schema = txt "wia";
    table = txt "persona";
    partition_by = txt "dt";
  };
  silver = record {
    catalog = txt "bronze";
    schema = txt "wia";
    staging_model = txt "stg_persona";
    dbt_tag = txt "crm";
  };
  governance = record {
    legal_basis = str (txt "wia");
    doelbinding = [];
    bio_classificatie = str (txt "BBN2");
    bewaartermijn_jaren = int 7;
    eigenaar = str (txt "crm");
    pii_kolommen = [];
    risk_tier = str (txt "high");
  };
  sla = record {
    mode = txt "streaming";
    expected_event_freq = str (txt "1m");
    max_acceptable_lag_seconds = int 60;
    alert_threshold_seconds = int 300;
  };
  used_by_use_cases = [];
  anchor = false;
  stream = some (record { name = txt "uwv.persona"; key = txt "bsn" });
  csv_ingest = none;
}

one_loaded : load_all_sources whole (some (persona_file ∷ [])) ≡ ok (persona ∷ [])
unfolding load_all_sources coerce_all coerce txt text_eq nat_eq get item find_field or_else truthy
    as_text get_or dict_of elements validate_uniqueness validate_from contains
one_loaded = refl

load_all_sources-Loaded_example : Loaded (persona ∷ [])
load_all_sources-Loaded_example =
    load_all_sources-Loaded whole (some (persona_file ∷ [])) (persona ∷ []) one_loaded
