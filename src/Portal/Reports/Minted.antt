-- ===== src/Portal/Reports/Minted.antt =====
-- The tokens that are minted for a report.
use fresh_stackable_data_pla.Prelude.{
  ◌≡◌, refl, ap, Bool, true, false, Option, none, some, List, Text, ℕ, if◌then◌else◌, is_empty,
}
use mathlib.Core.Path.{subst}
use fresh_stackable_data_pla.Text.{txt}
use fresh_stackable_data_pla.Json.{Json, Fields, bool, str, obj, end, field, field_of, null, get}
use fresh_stackable_data_pla.Json.Dicts.Laws.{value_at}
use fresh_stackable_data_pla.Effect.Raises.{>>=-inspect}
use fresh_stackable_data_pla.Effect.{ok, http}
use fresh_stackable_data_pla.Effect.Keeps.{
  Keeps, >>=-Keeps, lift-Keeps, lift->>=-Keeps, pure-Keeps, raise-Keeps, if-Keeps, gets-Keeps,
  modify-Keeps, per_option-Keeps,
}
use fresh_stackable_data_pla.Effect.Gives.{
  Gives, Gives->>=-Keeps, if-Gives, pure-Gives, raise-Gives,
}
use fresh_stackable_data_pla.Effect.Zoom.{zoom-Keeps}
use fresh_stackable_data_pla.Http.{Remote}
use fresh_stackable_data_pla.Http.Sent.{Sent, send-Sent}
use fresh_stackable_data_pla.Portal.Store.{Headers, email_from_request}
use fresh_stackable_data_pla.Portal.Embed.{only, embed_body, want_identity, identity_of}
use fresh_stackable_data_pla.Portal.Reports.{
  Call, store_token, sp_token, read_api, write_api, World, Settings, Moments, send, mint_sp_token,
  pbi_sp_token, pbi_get, pbi_post, workspace_id, generate_powerbi_embed_token,
}

-- The identity that the token carries: none, or the caller's for the data of the report.
abbrev pub IsIdentity : Bool → Text → Json → Json → Type 0
IsIdentity false email dataset v = v ≡ null
IsIdentity true email dataset v =
    (fs : Fields) × (v ≡ only (obj fs))
    × (field_of "username" fs ≡ str email)
    × (field_of "datasets" fs ≡ only dataset)

-- A token that reads one report of the workspace.
pub record ReadsReport (settings : Settings) (req : Headers) (report_id : Text) (given : Json)
    (path : Text) (body : Json) : Type 0 where
  pub endpoint : path ≡ txt "/GenerateToken"
  pub email : Text
  pub caller : email_from_request req ≡ ok email
  pub dataset : Json
  pub datasets : value_at "datasets" body ≡ only (obj (field "id" dataset end))
  pub reports :
      value_at "reports" body
      ≡ only (obj (field "id" (str report_id) (field "allowEdit" (bool false) end)))
  pub workspaces :
      value_at "targetWorkspaces" body ≡ only (obj (field "id" (str settings.workspace) end))
  pub wanted : Bool
  pub wish : want_identity given ≡ ok wanted
  pub identity : IsIdentity wanted email dataset (value_at "identities" body)

-- The only requests that write are for such tokens.
abbrev pub MayMint : Settings → Headers → Text → Json → Call → Type 0
MayMint settings req report_id given sp_token = Unit
MayMint settings req report_id given (read_api path tok) = Unit
MayMint settings req report_id given (write_api path tok body) =
    ReadsReport settings req report_id given path body

IsIdentity-if :
    (email : Text) (dataset : Json) (report_id ws : Text) (w : Bool) (fs : Fields)
    → field_of "username" fs ≡ str email
    → field_of "datasets" fs ≡ only dataset
    → IsIdentity w email dataset
        (value_at "identities" (embed_body dataset report_id ws (if w then some fs else none)))
unfolding embed_body value_at field_of
IsIdentity-if email dataset report_id ws true fs p q = (fs, refl, p, q)
IsIdentity-if email dataset report_id ws false fs p q = refl

same_option : {x y : Option Fields} → ok x ≡ ok y → x ≡ y
same_option h = cc

identity_of-IsIdentity :
    (email : Text) (dataset given : Json) (report_id ws : Text) (identity : Option Fields)
    → identity_of email dataset given ≡ ok identity
    → (w : Bool) × (want_identity given ≡ ok w)
      × IsIdentity w email dataset
          (value_at "identities" (embed_body dataset report_id ws identity))
unfolding identity_of field_of
identity_of-IsIdentity email dataset given report_id ws identity h =
    >>=-inspect (want_identity given) _ h λ w e r. >>=-inspect (get "roles" given) _ r λ roles _ s.
      >>=-inspect (get "customData" given) _ s λ custom _ t. (
        w,
        e,
        subst
            (λ i.
              IsIdentity w email dataset
                (value_at "identities" (embed_body dataset report_id ws i)))
            (same_option t) (IsIdentity-if email dataset report_id ws w _ refl refl),
      )

module _ (remote : Remote Call) (settings : Settings) (int_of : Json → Option (Bool × ℕ))
    (now : Moments) (meanwhile : Option (Json × ℕ) → Option (Json × ℕ)) (req : Headers)
    (report_id : Text) (given : Json) (log : List Call) where
  reads :
      (email : Text) (dataset : Json) (ws : Text) (identity : Option Fields)
      → email_from_request req ≡ ok email
      → ws ≡ settings.workspace
      → identity_of email dataset given ≡ ok identity
      → ReadsReport settings req report_id given
          (txt "/GenerateToken")
          (embed_body dataset report_id ws identity)
  unfolding embed_body value_at field_of
  reads email dataset ws identity c w i =
      let (wanted, wish, shape) =
        identity_of-IsIdentity email dataset given report_id ws identity i in
      record {
        endpoint = refl;
        email = email;
        caller = c;
        dataset = dataset;
        datasets = refl;
        reports = refl;
        workspaces = ap (λ t. only (obj (field "id" (str t) end))) w;
        wanted = wanted;
        wish = wish;
        identity = shape;
      }

  abbrev pub Kept : World → Type 0
  Kept w = Sent (MayMint settings req report_id given) log w.log

  request-Kept :
      (c : Call)
      → MayMint settings req report_id given c
      → Keeps Kept (send remote settings int_of now meanwhile c)
  unfolding send
  request-Kept c m = zoom-Keeps _ _ (λ s r. r) (λ t s r p. p) (send-Sent remote c m)

  mint_sp_token-Kept : Keeps Kept (mint_sp_token remote settings int_of now meanwhile)
  unfolding mint_sp_token store_token
  mint_sp_token-Kept = if-Keeps _ (raise-Keeps _) (
      >>=-Keeps (request-Kept sp_token tt) λ r. if-Keeps _ (raise-Keeps _) (
        >>=-Keeps (lift-Keeps _) λ body. >>=-Keeps (lift-Keeps _) λ tok.
          >>=-Keeps (lift-Keeps _) λ life.
            per_option-Keeps _ (raise-Keeps _)
              λ n. >>=-Keeps (modify-Keeps _ λ w k. k) λ _. pure-Keeps _))

  pbi_sp_token-Kept : Keeps Kept (pbi_sp_token remote settings int_of now meanwhile)
  unfolding pbi_sp_token
  pbi_sp_token-Kept = >>=-Keeps (gets-Keeps _) λ first.
      per_option-Keeps first
        (>>=-Keeps (modify-Keeps _ λ w k. k) λ _.
          >>=-Keeps (gets-Keeps _)
            λ second. per_option-Keeps second mint_sp_token-Kept λ tok. pure-Keeps _)
        λ tok. pure-Keeps _

  workspace_id-Gives :
      Gives Kept (λ ws. ws ≡ settings.workspace) (workspace_id remote settings int_of now meanwhile)
  unfolding workspace_id
  workspace_id-Gives =
      if-Gives (is_empty settings.workspace)
        (λ _. raise-Gives (http 503 "FABRIC_WORKSPACE_ID niet gezet")) (λ _. pure-Gives _ refl)

  pbi_get-Kept :
      (path : Text) (tok : Json)
      → Keeps Kept (pbi_get remote settings int_of now meanwhile path tok)
  unfolding pbi_get
  pbi_get-Kept path tok =
      >>=-Keeps (request-Kept (read_api path tok) tt) λ r. if-Keeps _ (lift-Keeps _) (raise-Keeps _)

  pbi_post-Kept :
      (path : Text) (tok body : Json)
      → ReadsReport settings req report_id given path body
      → Keeps Kept (pbi_post remote settings int_of now meanwhile path tok body)
  unfolding pbi_post
  pbi_post-Kept path tok body m =
      >>=-Keeps (request-Kept (write_api path tok body) m)
        λ r. if-Keeps _ (lift-Keeps _) (raise-Keeps _)

  -- Whatever Power BI answers and other requests make of the cache, the only request that writes is
  -- for a token that reads the one report, in the configured workspace, and may not edit it; it
  -- carries an identity exactly if the body of the request asks for one, and that is the caller's.
  pub embed_token-Sent :
      Keeps Kept
        (generate_powerbi_embed_token remote settings int_of now meanwhile req report_id given)
  unfolding generate_powerbi_embed_token
  embed_token-Sent = lift->>=-Keeps _ λ email c. Gives->>=-Keeps workspace_id-Gives λ ws w.
      >>=-Keeps pbi_sp_token-Kept λ tok. >>=-Keeps (pbi_get-Kept _ tok) λ report.
        >>=-Keeps (lift-Keeps _) λ dataset. >>=-Keeps (lift-Keeps _) λ url.
          if-Keeps _ (raise-Keeps _) (
            lift->>=-Keeps _ λ identity i.
              >>=-Keeps (pbi_post-Kept _ tok _ (reads email dataset ws identity c w i))
                λ minted. lift-Keeps _)
