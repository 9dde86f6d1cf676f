-- ===== src/Sources.antt =====
-- platform/11-airflow/include/sources_loader.py: the sources of the platform that Airflow's DAGs are
-- made of. The files that PyYAML parsed, in the order of their names, are an argument, and `int` is a
-- parameter. A name is a text; another value is taken to raise, as a missing key does.
pub mod Coerce
pub mod Unique
pub mod Loaded
mod Tests
use Prim.{Unit, tt}
use fresh_stackable_data_pla.Prelude.{
  ℕ, Bool, true, false, not, ◌||◌, Option, none, some, List, [], ◌∷◌, ◌++◌, Text, text_eq, ◌==◌,
  if◌then◌else◌, contains, keep,
}
use fresh_stackable_data_pla.Text.{txt}
use fresh_stackable_data_pla.Json.{Json, is_str}
use fresh_stackable_data_pla.Effect.Raises.{Result, ok, err, crash, guard, ◌>>=◌, ◌>>◌}

pub record StreamSpec : Type 0 where
  pub name : Text
  pub key : Text

pub record BronzeSpec : Type 0 where
  pub catalog : Text
  pub schema : Text
  pub table : Text
  pub partition_by : Text

pub record SilverSpec : Type 0 where
  pub catalog : Text
  pub schema : Text
  pub staging_model : Text
  pub dbt_tag : Text

pub record GovernanceSpec : Type 0 where
  pub legal_basis : Json
  pub doelbinding : List Json
  pub bio_classificatie : Json
  pub bewaartermijn_jaren : Json
  pub eigenaar : Json
  pub pii_kolommen : List Json
  pub risk_tier : Json

pub record SlaSpec : Type 0 where
  pub mode : Text
  pub expected_event_freq : Json
  pub max_acceptable_lag_seconds : Json
  pub alert_threshold_seconds : Json

pub record CsvColumnSpec : Type 0 where
  pub name : Json
  pub type : Json
  pub required : Bool
  pub min : Json
  pub max : Json

pub record CsvIngestSpec : Type 0 where
  pub staging_bucket : Json
  pub staging_prefix : Text
  pub processed_prefix : Json
  pub delimiter : Json
  pub has_header : Bool
  pub encoding : Json
  pub schema : List CsvColumnSpec

pub record SourceSpec : Type 0 where
  pub schema_version : Json
  pub name : Text
  pub domain : Json
  pub bronze : BronzeSpec
  pub silver : SilverSpec
  pub governance : GovernanceSpec
  pub sla : SlaSpec
  pub used_by_use_cases : List Json
  pub anchor : Bool
  pub stream : Option StreamSpec
  pub csv_ingest : Option CsvIngestSpec

-- `BronzeSpec.fqn`
unfoldable pub bronze_fqn : BronzeSpec → Text
bronze_fqn b = b.catalog ++ (b'.' ∷ (b.schema ++ (b'.' ∷ b.table)))

-- `s.stream and s.stream.name in seen_streams`
unfoldable pub stream_seen : Option StreamSpec → List Text → Bool
stream_seen none seen = false
stream_seen (some s) seen = contains seen s.name

unfoldable pub see_stream : Option StreamSpec → List Text → List Text
see_stream none seen = seen
see_stream (some s) seen = s.name ∷ seen

unfoldable pub validate_from :
    List Text → List Text → List Text → List SourceSpec → Result (Unit {0})
unfolding bronze_fqn stream_seen see_stream
validate_from names streams bronze [] = ok tt
validate_from names streams bronze (s ∷ specs) = do
  guard (not (contains names s.name)) crash
  guard (not (stream_seen s.stream streams)) crash
  guard (not (contains bronze (bronze_fqn s.bronze))) crash
  validate_from (s.name ∷ names) (see_stream s.stream streams) (bronze_fqn s.bronze ∷ bronze) specs

-- `_validate_uniqueness`
unfoldable pub validate_uniqueness : List SourceSpec → Result (Unit {0})
unfolding validate_from
validate_uniqueness specs = validate_from [] [] [] specs

-- `get_source`; a name that is not there is a `KeyError`.
unfoldable pub get_source : List SourceSpec → Text → Result SourceSpec
get_source [] name = err crash
get_source (spec ∷ specs) name = if spec.name == name then ok spec else get_source specs name

-- `uc in s.used_by_use_cases`
is_used_by : Text → List Json → Bool
unfolding is_str
is_used_by uc [] = false
is_used_by uc (v ∷ vs) = is_str uc v || is_used_by uc vs

unfoldable pub sources_for_use_case : List SourceSpec → Text → List SourceSpec
unfolding is_used_by
sources_for_use_case specs uc = keep (λ s. is_used_by uc s.used_by_use_cases) specs

unfoldable pub csv_batch_sources : List SourceSpec → List SourceSpec
csv_batch_sources specs = keep (λ s. s.sla.mode == txt "csv_batch") specs

is_stream : Option StreamSpec → Bool
is_stream none = false
is_stream (some s) = true

unfoldable pub stream_sources : List SourceSpec → List SourceSpec
unfolding is_stream
stream_sources specs = keep (λ s. is_stream s.stream) specs
