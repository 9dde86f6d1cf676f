-- ===== src/Portal/Embed.antt =====
-- The bodies that the reports of Power BI need, and what is made of the answers.
use fresh_stackable_data_pla.Prelude.{
  Bool, false, ◌||◌, Option, none, some, List, [], ◌∷◌, Text, if◌then◌else◌, is_empty,
}
use fresh_stackable_data_pla.Json.{
  Json, Fields, bool, str, arr, obj, nil, cons, end, field, get, item, truthy,
}
use fresh_stackable_data_pla.Effect.Raises.{Result, ok, ◌>>=◌}

-- `{"id": r["id"], ...}` for each report.
unfoldable pub report_items : List Json → Result (List Json)
report_items [] = ok []
report_items (r ∷ reports) = do
  id ← item "id" r
  name ← item "name" r
  dataset ← get "datasetId" r
  embed ← get "embedUrl" r
  web ← get "webUrl" r
  rest ← report_items reports
  ok (
      obj (
        field "id" id (
          field "name" name
            (field "datasetId" dataset (field "embedUrl" embed (field "webUrl" web end)))))
      ∷ rest)

abbrev pub only : Json → Json
only v = arr (cons v nil)

-- `token_body`
unfoldable pub embed_body : Json → Text → Text → Option Fields → Json
embed_body dataset_id report_id ws identity = obj (
    field "datasets" (only (obj (field "id" dataset_id end))) (
      field "reports" (only (obj (field "id" (str report_id) (field "allowEdit" (bool false) end))))
        (field "targetWorkspaces" (only (obj (field "id" (str ws) end)))
          (elim identity [ none ↦ end | some fs ↦ field "identities" (only (obj fs)) end ]))))

-- `want_identity`
unfoldable pub want_identity : Json → Result Bool
want_identity given = do
  identity ← get "effectiveIdentity" given
  roles ← get "roles" given
  custom ← get "customData" given
  ok (truthy identity || truthy roles || truthy custom)

-- What `effective_identity` has beside the name and the data.
unfoldable pub given_roles : Json → Fields → Fields
given_roles (arr vs) fs = if truthy (arr vs) then field "roles" (arr vs) fs else fs
given_roles _ fs = fs

unfoldable pub given_data : Json → Fields
given_data (str s) = if is_empty s then end else field "customData" (str s) end
given_data _ = end

unfoldable pub identity_of : Text → Json → Json → Result (Option Fields)
unfolding want_identity given_roles given_data
identity_of user_email dataset_id given = do
  wanted ← want_identity given
  roles ← get "roles" given
  custom ← get "customData" given
  ok (
      if wanted
      then some (
          field "username" (str user_email)
            (field "datasets" (only dataset_id) (given_roles roles (given_data custom))))
      else none)

unfoldable pub embedded : Json → Text → Json → Json → Result Json
embedded embed_url report_id dataset_id minted = do
  expiration ← get "expiration" minted
  tok ← item "token" minted
  ok (
      obj (
        field "embedUrl" embed_url (
          field "accessToken" tok (
            field "expiration" expiration
              (field "reportId" (str report_id) (field "datasetId" dataset_id end))))))
