-- ===== src/Portal/Reports/Tests.antt =====
-- A caller, a token in the cache, and the theorems there.
use fresh_stackable_data_pla.Prelude.{ℕ, Bool, true, none, some, Option, []}
use fresh_stackable_data_pla.Text.{txt}
use fresh_stackable_data_pla.Json.{Json, str, obj, end}
use fresh_stackable_data_pla.Effect.Keeps.{Keeps}
use fresh_stackable_data_pla.Http.{Remote}
use fresh_stackable_data_pla.Portal.Store.{Headers}
use fresh_stackable_data_pla.Portal.Reports.{
  Call, World, Settings, Moments, generate_powerbi_embed_token,
}
use fresh_stackable_data_pla.Portal.Reports.Minted.{Kept, embed_token-Sent}

abbrev silent : Remote Call
silent log c = none

abbrev whole : Json → Option (Bool × ℕ)
whole v = none

abbrev alone : Option (Json × ℕ) → Option (Json × ℕ)
alone c = c

abbrev deployed : Settings
deployed = record { principal_set = true; workspace = txt "uc11" }

abbrev noon : Moments
noon = record { first = 0; locked = 0; answered = 0 }

abbrev caller : Headers
caller = record {
  x_auth_request_email = txt "jan@uwv.nl";
  x_forwarded_email = [];
  x_auth_request_user = [];
}

abbrev filled : World
filled = record { cached = some (str (txt "sp"), 61000000); log = [] }

embed_token-Sent_example :
    Keeps
      (Kept silent deployed whole noon alone caller (txt "r1") (obj end) [])
      (generate_powerbi_embed_token silent deployed whole noon alone caller (txt "r1") (obj end))
embed_token-Sent_example =
    embed_token-Sent silent deployed whole noon alone caller (txt "r1") (obj end) []
