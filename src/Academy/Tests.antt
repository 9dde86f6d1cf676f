-- ===== src/Academy/Tests.antt =====
-- A progress with one entry to keep and one to drop, and the theorems there.
use fresh_stackable_data_pla.Prelude.{
  ◌≡◌, ◌↔◌, refl, true, none, some, Option, [], Text, text_eq, nat_eq, contains, every,
}
use fresh_stackable_data_pla.Text.{txt, is_lower, split, push_head, before_newline}
use fresh_stackable_data_pla.Text.Number.{is_digit}
use fresh_stackable_data_pla.Json.{Json, Fields, str, null, arr, obj, nil, cons, end, field}
use fresh_stackable_data_pla.Effect.{ok}
use fresh_stackable_data_pla.Effect.Keeps.{Keeps}
use fresh_stackable_data_pla.Http.{Remote}
use fresh_stackable_data_pla.Http.Sent.{Sent}
use fresh_stackable_data_pla.Academy.{
  is_module_name, is_level, is_number, is_step, is_key, is_progress, clean, progress_of,
}
use fresh_stackable_data_pla.Academy.Store.{
  Call, token, find_user, put_user, Settings, with_progress, put_progress,
}
use fresh_stackable_data_pla.Academy.Written.{
  HasEntry, IsAllowed, clean-HasEntry, progress_of-with_progress,
}
use fresh_stackable_data_pla.Academy.Requests.{MayPut, put_progress-Sent}

abbrev wia : Fields
wia = field "wia/expert/2" (str (txt "done")) end

abbrev mixed : Fields
mixed = field "wia/guru/1" (str (txt "done")) wia

cleaned : clean mixed ≡ ok wia
unfolding clean is_key is_step is_module_name is_level is_number is_progress is_lower is_digit split
    push_head before_newline txt text_eq nat_eq contains every
cleaned = refl

clean-HasEntry_example : HasEntry "wia/expert/2" (str (txt "done")) wia ↔ (
    HasEntry "wia/expert/2" (str (txt "done")) mixed × IsAllowed "wia/expert/2" (str (txt "done")))
clean-HasEntry_example = clean-HasEntry mixed wia cleaned "wia/expert/2" (str (txt "done"))

abbrev print : Json → Text
print j = txt "{\"wia/expert/2\": \"done\"}"

abbrev parse : Text → Option Json
parse s = some (obj wia)

progress_of-with_progress_example :
    progress_of parse (obj (with_progress (print (obj wia)) (field "locale" null end)))
    ≡ ok (obj wia)
progress_of-with_progress_example =
    progress_of-with_progress print parse (obj wia) (field "locale" null end) refl

-- A Keycloak with one user, who has an attribute.
abbrev jan : Json
jan = obj (
    field "id" (str (txt "7")) (field "attributes" (obj (field "locale" (str (txt "nl")) end)) end))

abbrev keycloak : Remote Call
keycloak log token =
    some (record { status = 200; body = some (obj (field "access_token" (str []) end)) })
keycloak log (find_user tok user) = some (record { status = 200; body = some (arr (cons jan nil)) })
keycloak log (put_user tok uid attrs) = some (record { status = 204; body = none })

abbrev deployed : Settings
deployed = record { url_set = true; client_set = true }

-- A request with the progress above.
abbrev request : Json
request = obj (field "progress" (obj mixed) end)

put_progress-Sent_example :
    Keeps
      (Sent (MayPut keycloak print (ok request) (txt "jan")) [])
      (put_progress keycloak deployed print parse (txt "jan") (ok request))
put_progress-Sent_example =
    put_progress-Sent keycloak deployed print (ok request) (txt "jan") [] parse
