-- ===== src/Watcher/Labels.antt =====
-- `_resolve_label_ids`, `_attach_labels` and `file_multica_task` of watcher.py. The names of the
-- labels are texts.
use Prim.{Unit, tt}
use fresh_stackable_data_pla.Prelude.{
  Bool, true, false, not, ◌&&◌, ◌||◌, none, some, List, [], ◌∷◌, ◌++◌, Text, Dict, text_eq,
  if◌then◌else◌, is_empty, contains, lookup, insert, take,
}
use fresh_stackable_data_pla.Text.{txt, lower}
use fresh_stackable_data_pla.Json.{
  Json, bool, str, arr, obj, nil, end, field, get, is_dict, truthy, or_else, as_text, iterate,
}
use fresh_stackable_data_pla.Effect.{Exec, pure, lift, gets, modify, ◌>>=◌, ◌>>◌}
use fresh_stackable_data_pla.Json.Dicts.{get_or, items_of}
use fresh_stackable_data_pla.Watcher.Checklist.{build_issue_payload}
use fresh_stackable_data_pla.Watcher.Tools.{
  create_issue, list_labels, attach_label, World, Remote, send, body_of, failed,
}

-- `n not in _LABEL_ID_CACHE`
unfoldable pub is_missing : Dict Text Json → Text → Bool
is_missing cache n = elim (lookup n cache) [ none ↦ true | some id ↦ false ]

unfoldable pub some_missing : Dict Text Json → List Text → Bool
unfolding is_missing
some_missing cache [] = false
some_missing cache (n ∷ names) = is_missing cache n || some_missing cache names

-- `_LABEL_ID_CACHE[label["name"]] = label["id"]`
unfoldable pub cache_label : Text → Json → World → World
cache_label name id w = record w { label_ids = insert name id w.label_ids }

-- `{n: _LABEL_ID_CACHE[n] for n in names if n in _LABEL_ID_CACHE}`
unfoldable pub known_ids : List Text → Dict Text Json → Dict Text Json
known_ids [] cache = []
known_ids (n ∷ names) cache = elim (lookup n cache) [
  | none ↦ known_ids names cache
  | some id ↦ (n, id) ∷ known_ids names cache
]

-- The loop over the labels of an answer.
unfoldable pub cache_labels : List Json → Exec World (Unit {0})
unfolding cache_label
cache_labels [] = pure tt
cache_labels (label ∷ labels) = if not (is_dict label) then cache_labels labels else do
  name ← lift (get "name" label)
  id ← lift (get "id" label)
  if truthy name && truthy id
      then (do key ← lift (as_text name); modify (cache_label key id); cache_labels labels)
      else cache_labels labels

abbrev texts_of : List Text → List Json
texts_of [] = []
texts_of (s ∷ ss) = str s ∷ texts_of ss

-- The names of the labels of a task.
unfoldable pub task_labels : Text → Text → List Text
task_labels severity area =
    txt "watcher-filed" ∷ (txt "severity:" ++ severity) ∷ (txt "area:" ++ area) ∷ []

module _ (remote : Remote) where
  unfoldable pub fetch_labels : Exec World (Unit {0})
  unfolding cache_labels
  fetch_labels = do
    r ← send remote list_labels
    answer ← lift (body_of r)
    elim answer [
      | none ↦ pure tt
      | some body ↦ do
        found ← lift (get_or "labels" (arr nil) body)
        labels ← lift (iterate (or_else found (arr nil)))
        cache_labels labels
    ]

  unfoldable pub resolve_label_ids : List Text → Exec World (Dict Text Json)
  unfolding fetch_labels some_missing known_ids
  resolve_label_ids names = do
    cache ← gets (λ w. w.label_ids)
    if some_missing cache names then fetch_labels else pure tt
    gets (λ w. known_ids names w.label_ids)

  -- The loop of `_attach_labels`, which returns the failures.
  unfoldable pub attach_each : Json → Dict Text Json → List Text → Exec World (List Text)
  attach_each issue_id ids [] = pure []
  attach_each issue_id ids (name ∷ names) = elim (lookup name ids) [
    | none ↦ do
      failures ← attach_each issue_id ids names
      pure ((name ++ txt ": not found in workspace") ∷ failures)
    | some label_id ↦
        if not (truthy label_id)
        then (do
          failures ← attach_each issue_id ids names
          pure ((name ++ txt ": not found in workspace") ∷ failures))
        else do
          r ← send remote (attach_label issue_id label_id)
          failures ← attach_each issue_id ids names
          pure (elim r [ none ↦ (name ++ txt ": ") ∷ failures | some reply ↦ failures ])
  ]

  unfoldable pub attach_labels : Json → List Text → Exec World (List Text)
  unfolding resolve_label_ids attach_each
  attach_labels issue_id label_names =
      if not (truthy issue_id) || is_empty label_names
      then pure []
      else do ids ← resolve_label_ids label_names; attach_each issue_id ids label_names

  unfoldable pub label_created : Text → Text → Json → Exec World Json
  unfolding attach_labels task_labels
  label_created severity area result = do
    identifier ← lift (get "identifier" result)
    id ← lift (get "id" result)
    label_errors ← attach_labels id (task_labels severity area)
    let issue_id = or_else identifier (or_else id (str (txt "unknown")))
    pure (
        obj (
          field "task_id" issue_id (
            if is_empty label_errors
            then end
            else field "label_errors" (arr (items_of (texts_of label_errors))) end)))

  unfoldable pub file_multica_task : Bool → Text → Text → Text → Text → Text → Exec World Json
  unfolding label_created
  file_multica_task dry_run title body severity area fingerprint =
      if not (contains (txt "info" ∷ txt "warning" ∷ txt "critical" ∷ []) (lower severity))
      then pure (failed (txt "Invalid severity "))
      else if dry_run
      then pure (
          obj (
            field "task_id" (str (txt "dry-run-" ++ take 24 fingerprint))
              (field "dry_run" (bool true) end)))
      else do
        r ←
            send remote
              (create_issue (build_issue_payload title body (lower severity) area fingerprint))
        answer ← lift (body_of r)
        elim answer [
          | none ↦ pure (failed (txt "Multica issue creation failed: "))
          | some result ↦ label_created (lower severity) area result
        ]
