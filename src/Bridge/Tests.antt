-- ===== src/Bridge/Tests.antt =====
-- The access bridge run on a small request, and each of its theorems at such an input.
use Prim.{tt}
use fresh_stackable_data_pla.Prelude.{
  ℕ, ◌+◌, ◌%◌, ◌≡◌, ◌≢◌, refl, ◌⊎◌, true, false, none, some, [], ◌∷◌, ◌++◌, Text, text_eq, nat_eq,
  ◌==◌, arith, contains, if◌then◌else◌,
}
use fresh_stackable_data_pla.Text.{txt, split, starts_with, lstrip}
use fresh_stackable_data_pla.Text.Number.{decimal}
use fresh_stackable_data_pla.Json.{
  Json, int, str, arr, obj, cons, nil, field, end, get, item, first_item, truthy, or_else, is_dict,
}
use fresh_stackable_data_pla.Effect.{
  http, client_error, ok, err, returned, raised, Outcome, final, ◌>>=◌,
}
use fresh_stackable_data_pla.Effect.Keeps.{Keeps}
use fresh_stackable_data_pla.Bridge.Signature.{
  Bytes, Codec, Config, Kind, decode_received_signature, verify_signature, after_first,
}
use fresh_stackable_data_pla.Bridge.Signature.Laws.{
  IsSigned, to_hex, verify_signature_sound, verify_signature-hex,
}
use fresh_stackable_data_pla.Bridge.Grant.{
  Python, Grant, is_text, supported_services, role_for, parse_grant,
}
use fresh_stackable_data_pla.Bridge.Grant.Laws.{IsApproved, parse_grant_sound}
use fresh_stackable_data_pla.Bridge.World.{
  find_user, Remote, World, send, json_of, raise_for_status, raise_unless,
}
use fresh_stackable_data_pla.Bridge.World.Since.{Since}
use fresh_stackable_data_pla.Bridge.Keycloak.{
  grant_role, access_token, find_keycloak_user, ensure_role,
}
use fresh_stackable_data_pla.Bridge.Keycloak.Laws.{Assigned, grant_role-Assigned}
use fresh_stackable_data_pla.Bridge.OpenMetadata.{request_message, entity_link}
use fresh_stackable_data_pla.Bridge.Endpoints.{
  AccessRequest, Answer, duplicate, granted, mark, discard, event_task_id, create_access_request,
  webhook_om, replay_task,
}
use fresh_stackable_data_pla.Bridge.Endpoints.Laws.{
  Applied, IsAuthentic, webhook_om_safe, webhook_om_twice, webhook_om_failed,
}
use fresh_stackable_data_pla.Bridge.Endpoints.Replay.{replay_task_mismatch}
use fresh_stackable_data_pla.Bridge.Endpoints.Requests.{Asks, create_access_request-Since}
use fresh_stackable_data_pla.Bridge.Endpoints.RoundTrip.{
  thread_fields, resolved_event, parse_grant-request,
}

abbrev sum_bytes : Bytes → ℕ
sum_bytes [] = 0
sum_bytes (b ∷ bs) = b + sum_bytes bs

abbrev zeros : Bytes
zeros =
    0 ∷ 0 ∷ 0 ∷ 0 ∷ 0 ∷ 0 ∷ 0 ∷ 0 ∷ 0 ∷ 0 ∷ 0 ∷ 0 ∷ 0 ∷ 0 ∷ 0 ∷ 0 ∷ 0 ∷ 0 ∷ 0 ∷ 0 ∷ 0 ∷ 0 ∷ 0 ∷ 0
    ∷ 0 ∷ 0 ∷ 0 ∷ 0 ∷ 0 ∷ 0 ∷ 0 ∷ []

-- A checksum of 32 bytes in place of the digest.
abbrev toy : Codec
toy = record {
  hmac_sha256 = λ key body. (sum_bytes (key ++ body) % 256) ∷ zeros;
  b64decode = λ s. none;
  urlsafe_b64decode = λ s. none;
  encode = λ s. s;
}

abbrev cfg : Config
cfg = record { om_webhook_secret = 115 ∷ []; replay_window_seconds = 300 }

abbrev body : Bytes
body = 1 ∷ 2 ∷ []

abbrev header : Text
header = txt "sha256=" ++ to_hex (toy.hmac_sha256 cfg.om_webhook_secret body)

verify_signature-hex_example : verify_signature toy cfg 0 body header [] ≡ ok tt
verify_signature-hex_example = verify_signature-hex toy cfg 0 body [] (λ e. cc) (omega arith) refl

verify_signature-sound_example :
    (cfg.om_webhook_secret ≢ [])
    × (starts_with header (txt "sha256=") ≡ true)
    × (raw : Bytes) × (kind : Kind) × (decode_received_signature toy (after_first b'=' header)
        ≡ some (raw, kind))
    × IsSigned toy cfg 0 body [] raw
verify_signature-sound_example =
    verify_signature_sound toy cfg 0 body header [] verify_signature-hex_example

unsigned :
    verify_signature toy cfg 0 body [] [] ≡ err (http 401 "Ontbrekende of ongeldige X-OM-Signature")
unfolding verify_signature
unsigned = refl

abbrev asset : Text
asset = txt "trino.gold.uc05.mart"

-- The text of the thread of one request, and a parser that knows it.
abbrev thread_text : Text
thread_text = txt " {thread 7}"

abbrev thread : Json
thread =
    thread_fields (txt "jan") (request_message (txt "jan") (txt "doel") [] []) (entity_link asset) 7

abbrev python : Python
python = record { loads = λ s. if s == thread_text then some thread else none; repr = λ v. [] }

abbrev event : Json
event = resolved_event thread_text

thread_dict : starts_with (lstrip thread_text) (txt "{") ≡ true
unfolding starts_with lstrip txt nat_eq
thread_dict = refl

thread_loaded : python.loads thread_text ≡ some thread
unfolding text_eq txt
thread_loaded = refl

abbrev grant : Grant
grant = record {
  requester = str (txt "jan");
  role_name = role_for (txt "gold") (txt "uc05");
  task_id = decimal 7;
}

asset_parts : split b'.' asset ≡ txt "trino" ∷ txt "gold" ∷ txt "uc05" ∷ txt "mart" ∷ []
unfolding split txt nat_eq
asset_parts = refl

trino_supported : contains supported_services (txt "trino") ≡ true
unfolding contains txt text_eq
trino_supported = refl

asset_line : contains asset 10 ≡ false
unfolding contains txt nat_eq
asset_line = refl

jan_named : txt "jan" ≢ []
unfolding txt
jan_named = λ e. cc

parse_grant-request_example : parse_grant python event ≡ ok grant
parse_grant-request_example =
    parse_grant-request python (txt "jan") (txt "doel") [] [] asset (txt "trino") (txt "gold")
      (txt "uc05") (txt "mart" ∷ []) 7 thread_text thread_dict thread_loaded jan_named asset_parts
      trino_supported asset_line

parse_grant-sound_example : IsApproved python event grant
parse_grant-sound_example = parse_grant_sound python event grant parse_grant-request_example

-- A Keycloak in which the user exists, and the role does not until it is created.
abbrev entity : Json
entity = obj (field "access_token" (str []) (field "id" (int 5) (field "name" (str []) end)))

abbrev keycloak : Remote
keycloak log (find_user tok u) = some (record { status = 200; body = some (arr (cons entity nil)) })
keycloak log c = some (record { status = 200; body = some entity })

abbrev silent : Remote
silent log c = none

abbrev fresh : World
fresh = record { processed = []; user_ids = []; log = [] }

abbrev hook : Remote → World → Outcome World Answer
hook remote w = webhook_om remote python toy cfg (λ b. some event) 0 body header [] w

webhook_om_safe_example :
    (final (hook keycloak fresh) ≡ fresh)
    ⊎ ((g : Grant) × (a : IsAuthentic keycloak python toy cfg (λ b. some event) body header [] 0 g)
        × IsApproved python a.event g
        × (contains fresh.processed g.task_id ≡ false)
        × Applied keycloak g fresh (final (hook keycloak fresh)))
webhook_om_safe_example =
    webhook_om_safe keycloak python toy cfg (λ b. some event) body header [] 0 fresh

first_grant :
    hook keycloak fresh
    ≡ returned (granted (decimal 7) (str (txt "jan")) grant.role_name) (final (hook keycloak fresh))
unfolding webhook_om grant_role access_token find_keycloak_user ensure_role send json_of
    raise_for_status raise_unless mark item first_item truthy contains nat_eq ◌>>=◌
first_grant = rw (verify_signature-hex_example, parse_grant-request_example) refl

silent_grant : hook silent fresh ≡ raised client_error (final (hook silent fresh))
unfolding webhook_om grant_role access_token send contains ◌>>=◌
silent_grant = rw (verify_signature-hex_example, parse_grant-request_example) refl

webhook_om_twice_example :
    (id : Text) × (hook keycloak (final (hook keycloak fresh))
      ≡ returned (duplicate id) (final (hook keycloak fresh)))
webhook_om_twice_example =
    webhook_om_twice keycloak python toy cfg (λ b. some event) body header [] 0 0 fresh
      (final (hook keycloak fresh)) (granted (decimal 7) (str (txt "jan")) grant.role_name)
      first_grant verify_signature-hex_example

webhook_om_failed_example : (final (hook silent fresh)).processed ≡ fresh.processed
webhook_om_failed_example =
    webhook_om_failed silent python toy cfg (λ b. some event) body header [] 0 fresh
      (final (hook silent fresh)) client_error silent_grant

abbrev after_role : World
after_role = final (grant_role keycloak (str (txt "jan")) grant.role_name fresh)

role_granted : grant_role keycloak (str (txt "jan")) grant.role_name fresh ≡ returned tt after_role
unfolding grant_role access_token find_keycloak_user ensure_role send json_of raise_for_status
    raise_unless item first_item truthy contains nat_eq ◌>>=◌
role_granted = refl

grant_role-Assigned_example : Assigned keycloak (str (txt "jan")) grant.role_name after_role
grant_role-Assigned_example =
    grant_role-Assigned keycloak (str (txt "jan")) grant.role_name fresh after_role role_granted

-- An event in the old form, whose task id is a number.
abbrev numbered : Json
numbered = obj (field "task" (obj (field "id" (int 42) end)) end)

abbrev processed_42 : World
processed_42 = record { processed = txt "42" ∷ txt "7" ∷ []; user_ids = []; log = [] }

numbered_id : event_task_id numbered ≡ ok (int 42)
unfolding event_task_id get or_else truthy
numbered_id = refl

not_text : is_text (txt "42") (int 42) ≡ false
unfolding is_text
not_text = refl

numbered_dict : is_dict numbered ≡ true
unfolding is_dict
numbered_dict = refl

replay_task_mismatch_example :
    (replay_task keycloak python (txt "42") numbered processed_42
      ≡ raised (http 400 "Body task.id mismatcht pad-parameter") (discard (txt "42") processed_42))
    × (contains (discard (txt "42") processed_42).processed (txt "42") ≡ false)
    × ((t : Text)
        → (t == txt "42") ≡ false
        → contains (discard (txt "42") processed_42).processed t
          ≡ contains processed_42.processed t)
replay_task_mismatch_example =
    replay_task_mismatch keycloak python (txt "42") numbered (int 42) processed_42 numbered_dict
      numbered_id not_text

abbrev request : AccessRequest
request = record {
  asset_fqn = asset;
  requester = txt "jan";
  purpose = txt "doel";
  motivation = [];
  duration = [];
}

create_access_request-Since_example :
    Keeps (Since (Asks request) fresh) (create_access_request keycloak (txt "token") request)
create_access_request-Since_example =
    create_access_request-Since keycloak (txt "token") request fresh
