-- ===== src/Upload/Trigger.antt =====
-- `_trigger_dag` and `trigger_convert` of airflow-bridge.py. The literals and the lengths of the
-- body are those that pydantic has checked.
use Prim.{Unit, tt}
use fresh_stackable_data_pla.Prelude.{
  Bool, not, ◌&&◌, ◌||◌, Option, none, some, List, [], ◌++◌, Text, leb, if◌then◌else◌, is_empty,
}
use fresh_stackable_data_pla.Text.{txt, starts_with, is_infix}
use fresh_stackable_data_pla.Json.{Json, str, get, or_else, as_text}
use fresh_stackable_data_pla.Effect.{Result, ok, http, Exec, pure, raise, lift, ◌>>=◌, ◌>>◌}
use fresh_stackable_data_pla.Effect.Raises.{guard}
use fresh_stackable_data_pla.Http.{Reply, Remote, try_send, json_of}
use fresh_stackable_data_pla.Upload.Names.{sanitize_email, email_of_header, validate_identifier}

pub data Format : Type 0 where
  csv tsv json ndjson parquet : Format

pub data Catalog : Type 0 where
  bronze sandbox : Catalog

-- `TriggerReq`
pub record TriggerReq : Type 0 where
  pub object_key : Text
  pub source_format : Format
  pub target_catalog : Catalog
  pub target_schema : Text
  pub target_table : Text
  pub partition_col : Option Text

-- POST {airflow}/api/v1/dags/convert_to_delta/dagRuns; `conf` is the body and `source_email`.
pub data Call : Type 0 where
  trigger : TriggerReq → Text → Call

pub record Triggered : Type 0 where
  pub dag_run_id : Text
  pub airflow_url : Text

-- `if body.partition_col is not None: ...`
unfoldable pub validate_column : Option Text → Result (Unit {0})
validate_column none = ok tt
validate_column (some name) = validate_identifier name

-- `urlopen` raises an `HTTPError` unless the status is a 2xx.
unfoldable pub accepted : Reply → Bool
accepted r = leb 200 r.status && leb r.status 299

module _ (remote : Remote Call) (public_url : Text) (creds_set : Bool) where
  unfoldable pub trigger_dag : TriggerReq → Text → Exec (List Call) Json
  unfolding accepted
  trigger_dag body email = do
    lift (guard creds_set (http 503 "airflow bot creds not configured"))
    answer ← try_send remote (trigger body email)
    elim answer [
      | none ↦ raise (http 502 "airflow unreachable: ")
      | some r ↦
          if accepted r then lift (json_of r) else raise (http 502 "airflow rejected trigger ")
    ]

  grid_url : Text → Text
  grid_url dag_run_id =
      public_url
      ++ (txt "/dags/convert_to_delta/grid"
          ++ (if is_empty dag_run_id then [] else txt "?dag_run_id=" ++ dag_run_id))

  -- The id of a run is a text.
  unfoldable pub trigger_convert : Text → TriggerReq → Exec (List Call) Triggered
  unfolding trigger_dag validate_column grid_url
  trigger_convert x_auth_request_email body = do
    email ← lift (email_of_header x_auth_request_email)
    let expected_prefix = txt "uploads/" ++ (sanitize_email email ++ txt "/")
    lift (
        guard (starts_with body.object_key expected_prefix)
          (http 403 "object_key must start with "))
    lift (
        guard (not (is_infix (txt "..") body.object_key || is_infix (txt "//") body.object_key))
          (http 400 "invalid object_key (path traversal)"))
    lift (validate_identifier body.target_schema)
    lift (validate_identifier body.target_table)
    lift (validate_column body.partition_col)
    result ← trigger_dag body email
    a ← lift (get "dag_run_id" result)
    b ← lift (get "dagRunId" result)
    dag_run_id ← lift (as_text (or_else a (or_else b (str []))))
    pure (record { dag_run_id = dag_run_id; airflow_url = grid_url dag_run_id })
