-- ===== src/Portal/Reports.antt =====
-- The reports of Power BI in the portal: `_pbi_sp_token` with its cache, `_pbi_get`, `_pbi_post`,
-- `list_powerbi_reports` and `generate_powerbi_embed_token`. Times are in microseconds since 1970;
-- Python's `int` is a parameter.
pub mod Minted
pub mod Cached
mod Tests
use Prim.{Unit, tt}
use fresh_stackable_data_pla.Prelude.{
  ℕ, ◌+◌, ◌-◌, ◌*◌, Bool, true, false, not, ◌&&◌, ◌||◌, Option, none, some, List, [], ◌∷◌, ◌++◌,
  Text, nat_eq, ◌==◌, ltb, if◌then◌else◌, is_empty, contains,
}
use fresh_stackable_data_pla.Text.{txt}
use fresh_stackable_data_pla.Json.{
  Json, Items, Fields, bool, int, str, arr, obj, nil, cons, end, field, get, item, truthy, null,
}
use fresh_stackable_data_pla.Json.Dicts.{get_or, elements, items_of}
use fresh_stackable_data_pla.Effect.{
  Result, ok, err, http, crash, Exec, pure, raise, lift, gets, modify, zoom, per_option, ◌>>=◌,
  ◌>>◌,
}
use fresh_stackable_data_pla.Http.{Reply, Remote, json_of}
use fresh_stackable_data_pla.Http
use fresh_stackable_data_pla.Portal.Store.{Headers, email_from_request}
use fresh_stackable_data_pla.Portal.Embed.{report_items, embed_body, identity_of, embedded}

pub data Call : Type 0 where
  sp_token : Call
  -- GET {path} and POST {path} of the API, with a token
  read_api : Text → Json → Call
  write_api : Text → Json → Json → Call

-- `_pbi_token_cache["sp"]`, the token and when it expires, and the requests, newest first.
pub record World : Type 0 where
  pub cached : Option (Json × ℕ)
  pub log : List Call

pub record Settings : Type 0 where
  -- The three variables of the service principal are set.
  pub principal_set : Bool
  -- `FABRIC_WORKSPACE_ID`, empty where it is not set.
  pub workspace : Text

-- When the cache is looked at, when it is looked at again under the lock, and when the answer with a
-- new token is there.
pub record Moments : Type 0 where
  pub first : ℕ
  pub locked : ℕ
  pub answered : ℕ

abbrev pub seconds : ℕ → ℕ
seconds n = n * 1000000

-- `cached and cached[1] > time.time() + 60`
unfoldable pub usable : ℕ → Option (Json × ℕ) → Option Json
usable now none = none
usable now (some (tok, expires_at)) = if ltb (now + seconds 60) expires_at then some tok else none

-- `time.time() + n`, for a negative or a natural number of seconds.
unfoldable pub expiry : ℕ → Bool × ℕ → ℕ
expiry now (negative, n) = if negative then now - seconds n else now + seconds n

unfoldable pub store_token : Json → ℕ → World → World
store_token tok expires_at w = record w { cached = some (tok, expires_at) }

-- `meanwhile` is what other tasks make of the cache while this one waits for the lock.
module _ (remote : Remote Call) (settings : Settings) (int_of : Json → Option (Bool × ℕ))
    (now : Moments) (meanwhile : Option (Json × ℕ) → Option (Json × ℕ)) where
  unfoldable pub send : Call → Exec World Reply
  send c = zoom (λ w. w.log) (λ log w. record w { log = log }) (Http.send remote c)

  -- What follows the checks of the cache.
  unfoldable pub mint_sp_token : Exec World Json
  unfolding expiry store_token
  mint_sp_token =
      if not settings.principal_set
      then raise (http 503 "powerbi: FABRIC_TENANT_ID/CLIENT_ID/CLIENT_SECRET niet gezet")
      else do
        resp ← send sp_token
        if not (resp.status == 200) then raise (http 503 "powerbi: SP-token faalt") else do
          body ← lift (json_of resp)
          access_token ← lift (item "access_token" body)
          given ← lift (get_or "expires_in" (int 3600) body)
          per_option (raise crash)
              (λ n. do modify (store_token access_token (expiry now.answered n)); pure access_token)
              (int_of given)

  unfoldable pub pbi_sp_token : Exec World Json
  unfolding usable mint_sp_token
  pbi_sp_token = do
    first ← gets (λ w. usable now.first w.cached)
    per_option
        (do
          modify (λ w. record w { cached = meanwhile w.cached })
          second ← gets (λ w. usable now.locked w.cached)
          per_option mint_sp_token (λ tok. pure tok) second)
        (λ tok. pure tok) first

  unfoldable pub pbi_get : Text → Json → Exec World Json
  pbi_get path tok = do
    resp ← send (read_api path tok)
    if resp.status == 200 then lift (json_of resp) else raise (http resp.status "powerbi GET")

  unfoldable pub pbi_post : Text → Json → Json → Exec World Json
  pbi_post path tok body = do
    resp ← send (write_api path tok body)
    if contains (200 ∷ 201 ∷ []) resp.status
        then lift (json_of resp)
        else raise (http resp.status "powerbi POST")

  unfoldable pub workspace_id : Exec World Text
  workspace_id =
      if is_empty settings.workspace
      then raise (http 503 "FABRIC_WORKSPACE_ID niet gezet")
      else pure settings.workspace

  -- The reports of the workspace, for a user who is signed in.
  unfoldable pub list_powerbi_reports : Headers → Exec World (Text × List Json)
  unfolding workspace_id pbi_sp_token pbi_get report_items
  list_powerbi_reports req = do
    user_email ← lift (email_from_request req)
    ws ← workspace_id
    tok ← pbi_sp_token
    answer ← pbi_get (txt "/groups/" ++ (ws ++ txt "/reports")) tok
    listed ← lift (get_or "value" (arr nil) answer)
    reports ← lift (elements listed)
    items ← lift (report_items reports)
    pure (ws, items)

  -- `given` is the body of the request, an empty dict where it has none or is no JSON.
  unfoldable pub generate_powerbi_embed_token : Headers → Text → Json → Exec World Json
  unfolding workspace_id pbi_sp_token pbi_get pbi_post embed_body identity_of embedded
  generate_powerbi_embed_token req report_id given = do
    user_email ← lift (email_from_request req)
    ws ← workspace_id
    tok ← pbi_sp_token
    report ← pbi_get (txt "/groups/" ++ (ws ++ (txt "/reports/" ++ report_id))) tok
    dataset_id ← lift (get "datasetId" report)
    embed_url ← lift (get "embedUrl" report)
    if not (truthy dataset_id && truthy embed_url)
        then raise (http 500 "powerbi: report mist datasetId of embedUrl")
        else do
          identity ← lift (identity_of user_email dataset_id given)
          minted ← pbi_post (txt "/GenerateToken") tok (embed_body dataset_id report_id ws identity)
          lift (embedded embed_url report_id dataset_id minted)
