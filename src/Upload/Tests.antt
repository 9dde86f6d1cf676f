-- ===== src/Upload/Tests.antt =====
-- A caller, an upload, and the theorems there.
use fresh_stackable_data_pla.Prelude.{
  ◌≡◌, ◌↔◌, ◌⊎◌, refl, true, none, [], ◌∷◌, ◌++◌, Text, nat_eq, every,
}
use fresh_stackable_data_pla.Text.{txt, is_lower, lower, strip}
use fresh_stackable_data_pla.Text.Number.{is_digit}
use fresh_stackable_data_pla.Effect.Keeps.{Keeps}
use fresh_stackable_data_pla.Http.{Remote}
use fresh_stackable_data_pla.Http.Sent.{Sent}
use fresh_stackable_data_pla.Upload.Names.{is_name_char, is_identifier, sanitize_email, is_email}
use fresh_stackable_data_pla.Upload.Trigger.{TriggerReq, Call, csv, bronze, trigger_convert}
use fresh_stackable_data_pla.Upload.Owner.{MayTrigger, trigger_convert-Sent}
use fresh_stackable_data_pla.Upload.Shared.{IsName, sanitize_email_shared, is_identifier_iff}

abbrev silent : Remote Call
silent log c = none

abbrev upload : TriggerReq
upload = record {
  object_key = txt "uploads/a_at_uwv_nl/1/f.csv";
  source_format = csv;
  target_catalog = bronze;
  target_schema = txt "wia";
  target_table = txt "t";
  partition_col = none;
}

address : is_email (txt "a.b@uwv.nl") ≡ true
unfolding is_email txt nat_eq is_lower is_digit every
address = refl

folder_of : sanitize_email (txt " A@uwv.nl") ≡ txt "a_at_uwv_nl"
unfolding sanitize_email txt nat_eq lower strip is_name_char
folder_of = refl

trigger_convert-Sent_example :
    Keeps
      (Sent (MayTrigger (txt "a@uwv.nl") upload) [])
      (trigger_convert silent (txt "https://airflow") true (txt "a@uwv.nl") upload)
trigger_convert-Sent_example =
    trigger_convert-Sent silent (txt "https://airflow") true (txt "a@uwv.nl") upload []

sanitize_email_shared_example :
    sanitize_email (txt "a" ++ (b'.' ∷ txt "b@uwv.nl"))
    ≡ sanitize_email (txt "a" ++ (b'_' ∷ txt "b@uwv.nl"))
sanitize_email_shared_example = sanitize_email_shared (txt "a") (txt "b@uwv.nl")

is_identifier_iff_example :
    (is_identifier (txt "t\n") ≡ true)
    ↔ (IsName (txt "t\n") ⊎ ((s : Text) × (txt "t\n" ≡ s ++ (10 ∷ [])) × IsName s))
is_identifier_iff_example = is_identifier_iff (txt "t\n")
