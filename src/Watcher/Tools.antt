-- ===== src/Watcher/Tools.antt =====
-- The tools of watcher.py: `query_prometheus`, `find_existing_multica_tasks`,
-- `file_multica_task`, `list_firing_alerts` and `search_opensearch_logs`, whose `max_hits` is not
-- negative.
use fresh_stackable_data_pla.Prelude.{
  ℕ, min, Bool, true, false, ◌&&◌, Option, none, some, List, [], ◌∷◌, Text, String, Dict, nat_eq,
  text_eq, ◌==◌, leb, if◌then◌else◌, is_empty,
}
use fresh_stackable_data_pla.Text.{txt, lower, is_infix}
use fresh_stackable_data_pla.Json.{
  Json, bool, str, arr, obj, nil, end, field, get, is_dict, or_else, as_text, iterate,
}
use fresh_stackable_data_pla.Effect.{Result, ok, err, returned, Exec, pure, lift, ◌>>=◌}
use fresh_stackable_data_pla.Effect.Raises
use fresh_stackable_data_pla.Http.{Reply, json_of}
use fresh_stackable_data_pla.Json.Dicts.{get_or, items_of}
use fresh_stackable_data_pla.Watcher.Checklist.{Payload}

pub data Call : Type 0 where
  -- GET {prometheus}/api/v1/query
  query : Text → Call
  -- GET and POST {multica}/api/issues
  search_issues : Text → Call
  create_issue : Payload → Call
  -- GET {multica}/api/labels and POST {multica}/api/issues/{id}/labels
  list_labels : Call
  attach_label : Json → Json → Call
  -- GET {alertmanager}/api/v2/alerts with a severity filter
  list_alerts : Option Text → Call
  -- POST {opensearch}/{index}/_search: query, minutes and size
  search_logs : Text → ℕ → ℕ → Call

-- `_LABEL_ID_CACHE`, and the requests, newest first.
pub record World : Type 0 where
  pub label_ids : Dict Text Json
  pub log : List Call

abbrev pub Remote : Type 0
Remote = List Call → Call → Option Reply

-- The answer, if there is one with a 2xx status; else httpx raises an `HTTPError`.
unfoldable pub success : Option Reply → Option Reply
success none = none
success (some r) = if leb 200 r.status && leb r.status 299 then some r else none

unfoldable pub send : Remote → Call → Exec World (Option Reply)
unfolding success
send remote c w = returned (success (remote w.log c)) (record w { log = c ∷ w.log })

-- `response.json()` of an answer
unfoldable pub body_of : Option Reply → Result (Option Json)
body_of none = ok none
body_of (some r) = elim (json_of r) [ ok v ↦ ok (some v) | err e ↦ err e ]

-- `{"error": ...}`
unfoldable pub failed : Text → Json
failed message = obj (field "error" (str message) end)

-- `v.get(j, {}).get(k)`
unfoldable pub get_in : String → String → Json → Result Json
get_in j k v = Raises.◌>>=◌ (get_or j (obj end) v) (get k)

-- The matches of `find_existing_multica_tasks`.
unfoldable pub matches_of : Text → List Json → Result (List Json)
matches_of fingerprint [] = ok []
matches_of fingerprint (i ∷ issues) =
    let rest = matches_of fingerprint issues in
    if is_dict i
    then Raises.◌>>=◌ (get "description" i) (λ d.
      Raises.◌>>=◌ (as_text (or_else d (str []))) (λ description.
        if is_infix fingerprint description
        then Raises.◌>>=◌ (get "identifier" i) (λ identifier.
          Raises.◌>>=◌ (get "id" i)
            (λ id. Raises.◌>>=◌ rest (λ matches. ok (or_else identifier id ∷ matches))))
        else rest))
    else rest

-- `body.get("issues") if isinstance(body, dict) else body`
unfoldable pub issues_of : Json → Json
issues_of body = elim (get "issues" body) [ ok v ↦ v | err e ↦ body ]

-- The answer on a body of the search.
unfoldable pub found_tasks : Text → Json → Result Json
unfolding matches_of issues_of items_of
found_tasks fingerprint body = elim (iterate (issues_of body)) [
  | err e ↦
      ok
        (obj (field "error" (str (txt "unexpected Multica response shape")) (field "raw" body end)))
  | ok issues ↦
      Raises.◌>>=◌ (matches_of fingerprint issues)
        (λ matches. ok (obj (field "matches" (arr (items_of matches)) end)))
]

-- One alert of the summary.
unfoldable pub alert_of : Json → Result Json
unfolding get_in
alert_of a = Raises.◌>>=◌ (get "fingerprint" a) λ fingerprint.
    Raises.◌>>=◌ (get_in "labels" "alertname" a) λ alertname.
      Raises.◌>>=◌ (get_in "labels" "severity" a) λ severity.
        Raises.◌>>=◌ (get_in "annotations" "summary" a) λ summary.
          Raises.◌>>=◌ (get_in "annotations" "runbook_url" a) λ runbook_url.
            Raises.◌>>=◌ (get "startsAt" a) λ starts_at.
              Raises.◌>>=◌ (get_or "labels" (obj end) a) λ labels. ok (
                obj (
                  field "fingerprint" fingerprint (
                    field "alertname" alertname (
                      field "severity" severity (
                        field "summary" summary (
                          field "runbook_url" runbook_url
                            (field "starts_at" starts_at (field "labels" labels end))))))))

-- A comprehension over the dicts of a list.
unfoldable pub each_dict : (Json → Result Json) → List Json → Result (List Json)
each_dict f [] = ok []
each_dict f (a ∷ xs) =
    let rest = each_dict f xs in
    if is_dict a then Raises.◌>>=◌ (f a) (λ v. Raises.◌>>=◌ rest (λ vs. ok (v ∷ vs))) else rest

module _ (remote : Remote) where
  unfoldable pub query_prometheus : Text → Exec World Json
  unfolding body_of failed
  query_prometheus promql = do
    r ← send remote (query promql)
    answer ← lift (body_of r)
    elim answer [
      | none ↦ pure (failed (txt "Prometheus call failed: "))
      | some body ↦ do
        status ← lift (get "status" body)
        ok_text ← pure (elim (as_text status) [ ok s ↦ s == txt "success" | err e ↦ false ])
        if ok_text
            then lift (get_or "data" (obj end) body)
            else pure (obj (field "error" (str (txt "Prometheus status=")) (field "raw" body end)))
    ]

  unfoldable pub find_existing_multica_tasks : Bool → Text → Exec World Json
  unfolding found_tasks body_of failed
  find_existing_multica_tasks dry_run fingerprint =
      if dry_run
      then pure (obj (field "matches" (arr nil) (field "dry_run" (bool true) end)))
      else do
        r ← send remote (search_issues fingerprint)
        answer ← lift (body_of r)
        elim answer [
          | none ↦ pure (failed (txt "Multica lookup failed: "))
          | some body ↦ lift (found_tasks fingerprint body)
        ]

  unfoldable pub list_firing_alerts : Text → Exec World Json
  unfolding each_dict alert_of items_of body_of failed
  list_firing_alerts severity = do
    r ← send remote (list_alerts (if is_empty severity then none else some (lower severity)))
    answer ← lift (body_of r)
    elim answer [
      | none ↦ pure (failed (txt "Alertmanager call failed: "))
      | some alerts ↦ elim (iterate alerts) [
        | err e ↦ pure (failed (txt "unexpected Alertmanager response shape"))
        | ok listed ↦ do
          summary ← lift (each_dict alert_of listed)
          pure (obj (field "alerts" (arr (items_of summary)) end))
      ]
    ]

  -- `default_hits` is `MAX_OPENSEARCH_HITS`.
  unfoldable pub search_opensearch_logs : ℕ → Text → ℕ → ℕ → Exec World Json
  unfolding each_dict items_of body_of failed
  search_opensearch_logs default_hits q time_range_minutes max_hits = do
    r ← send remote (
        search_logs q time_range_minutes
          (min (if max_hits == 0 then default_hits else max_hits) 100))
    answer ← lift (body_of r)
    elim answer [
      | none ↦ pure (failed (txt "OpenSearch search failed: "))
      | some payload ↦ do
        outer ← lift (get_or "hits" (obj end) payload)
        listed ← lift (get_or "hits" (arr nil) outer)
        hits ← lift (iterate listed)
        total ← lift (get_or "total" (obj end) outer)
        value ← lift (get "value" total)
        sources ← lift (each_dict (get_or "_source" (obj end)) hits)
        pure (obj (field "total" value (field "hits" (arr (items_of sources)) end)))
    ]
