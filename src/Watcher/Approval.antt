-- ===== src/Watcher/Approval.antt =====
-- The label "approved" stays a human's: no tool attaches it.
use Prim.{Unit, tt}
use fresh_stackable_data_pla.Prelude.{
  ◌≡◌, ◌≢◌, ap, ◌∙◌, inl, inr, Bool, Option, none, some, List, [], ◌∷◌, Text, Dict, text_eq, nat_eq,
  ◌==◌, arith, lookup, insert, lookup-insert, All, Option-cases, Bool-cases, eq_of_==,
}
use fresh_stackable_data_pla.Text.{txt}
use fresh_stackable_data_pla.Json.{Json, str, arr, nil, get, iterate, or_else}
use fresh_stackable_data_pla.Json.Dicts.Laws.{as_text_str}
use fresh_stackable_data_pla.Effect.{ok, Exec, pure, lift, ◌>>=◌}
use fresh_stackable_data_pla.Effect.Keeps.{
  Keeps, >>=-Keeps, lift-Keeps, lift->>=-Keeps, pure-Keeps, if-Keeps, modify-Keeps, keeps,
}
use fresh_stackable_data_pla.Effect.Gives.{Gives, Gives->>=-Keeps, gets-Gives, gets_then-Gives}
use fresh_stackable_data_pla.Http.{Reply}
use fresh_stackable_data_pla.Json.Dicts.{get_or}
use fresh_stackable_data_pla.Watcher.Checklist.{Payload}
use fresh_stackable_data_pla.Watcher.Tools.{
  failed, Call, create_issue, list_labels, attach_label, World, Remote, send, success, body_of,
}
use fresh_stackable_data_pla.Watcher.Labels.{
  cache_label, known_ids, cache_labels, fetch_labels, resolve_label_ids, attach_each, attach_labels,
  task_labels, label_created, file_multica_task,
}

module _ (approved : Json) where
  abbrev MayAttach : Call → Type 0
  MayAttach (attach_label issue_id label_id) = label_id ≢ approved
  MayAttach _ = Unit

  abbrev OnlyApproved : Dict Text Json → Type 0
  OnlyApproved ids = (n : Text) → lookup n ids ≡ some approved → n ≡ txt "approved"

  -- No request attached the label with this id, and the cache has the id at most as "approved".
  pub record Withheld (w : World) : Type 0 where
    pub cached : OnlyApproved w.label_ids
    pub sent : All MayAttach w.log

  -- A label of an answer has the id at most as "approved".
  abbrev pub Honest : Json → Type 0
  Honest label =
      (name : Text)
      → get "name" label ≡ ok (str name)
      → get "id" label ≡ ok approved
      → name ≡ txt "approved"

  -- So have all labels of a body.
  abbrev pub HonestBody : Json → Type 0
  HonestBody body =
      (found : Json) (labels : List Json)
      → get_or "labels" (arr nil) body ≡ ok found
      → iterate (or_else found (arr nil)) ≡ ok labels
      → All Honest labels

  insert-OnlyApproved :
      (name : Text) (id : Json) (ids : Dict Text Json)
      → (id ≡ approved → name ≡ txt "approved")
      → OnlyApproved ids
      → OnlyApproved (insert name id ids)
  insert-OnlyApproved name id ids k h n e = elim (Bool-cases (n == name)) [
    | inl same ↦ eq_of_== n name same ∙ k (ground (arith, lookup-insert n name id ids, same, e))
    | inr other ↦ h n (ground (arith, lookup-insert n name id ids, other, e))
  ]

  lookup-known_ids :
      (names : List Text) (cache : Dict Text Json) (n : Text) (l : Json)
      → lookup n (known_ids names cache) ≡ some l
      → lookup n cache ≡ some l
  unfolding known_ids lookup
  lookup-known_ids [] cache n l h = absurd (cc)
  lookup-known_ids (m ∷ names) cache n l h = elim (Option-cases (lookup m cache)) [
    | inl e ↦ lookup-known_ids names cache n l (rw (e, known_ids) at h)
    | inr (id, e) ↦ elim (Bool-cases (n == m)) [
      | inl same ↦ ground (arith, eq_of_== n m same, e, h)
      | inr other ↦ lookup-known_ids names cache n l (ground (arith, e, h, other))
    ]
  ]

  cache_labels-Withheld :
      (labels : List Json) → All Honest labels → Keeps Withheld (cache_labels labels)
  unfolding cache_labels cache_label
  cache_labels-Withheld [] h = pure-Keeps _
  cache_labels-Withheld (label ∷ labels) (g, h) = if-Keeps _ (cache_labels-Withheld labels h) (
      lift->>=-Keeps _ λ name en. lift->>=-Keeps _ λ id ei.
        if-Keeps _
          (lift->>=-Keeps _ λ key ek.
            >>=-Keeps
              (modify-Keeps _ λ w p. record {
                cached =
                    insert-OnlyApproved key id w.label_ids
                      (λ same. g key (en ∙ ap ok (as_text_str name key ek)) (ei ∙ ap ok same))
                      p.cached;
                sent = p.sent;
              })
              λ _. cache_labels-Withheld labels h)
          (cache_labels-Withheld labels h))

  module _ (remote : Remote) where
    send-Withheld : (c : Call) → MayAttach c → Keeps Withheld (send remote c)
    unfolding send
    send-Withheld c q = record { at = λ w p. record { cached = p.cached; sent = (q, p.sent) } }

    -- The reply of a request is the remote's at some log.
    send_then :
        {A : Type 0} (c : Call) (f : Option Reply → Exec World A)
        → MayAttach c
        → ((log : List Call) → Keeps Withheld (f (success (remote log c))))
        → Keeps Withheld (send remote c >>= f)
    unfolding send ◌>>=◌
    send_then c f q k = record {
      at = λ w p.
          (k w.log).at (record w { log = c ∷ w.log })
            (record { cached = p.cached; sent = (q, p.sent) });
    }

    module _
        (honest : (log : List Call) (body : Json)
          → body_of (success (remote log list_labels)) ≡ ok (some body)
          → HonestBody body) where
      labels_of-Withheld :
          (body : Json)
          → HonestBody body
          → Keeps Withheld (do
            found ← lift (get_or "labels" (arr nil) body)
            labels ← lift (iterate (or_else found (arr nil)))
            cache_labels labels)
      labels_of-Withheld body h =
          lift->>=-Keeps _ λ found e.
            lift->>=-Keeps _ λ labels l. cache_labels-Withheld labels (h found labels e l)

      fetch_labels-Withheld : Keeps Withheld (fetch_labels remote)
      unfolding fetch_labels
      fetch_labels-Withheld = send_then list_labels _ tt λ log. lift->>=-Keeps _ λ answer e.
          elim (Option-cases answer) [
            | inl n ↦ rw n (pure-Keeps _)
            | inr (body, n) ↦ rw n (labels_of-Withheld body (honest log body (e ∙ ap ok n)))
          ]

      safe_ids :
          (names : List Text) (w : World) → Withheld w → OnlyApproved (known_ids names w.label_ids)
      safe_ids names w p n e = p.cached n (lookup-known_ids names w.label_ids n approved e)

      resolve_label_ids-Gives :
          (names : List Text) → Gives Withheld OnlyApproved (resolve_label_ids remote names)
      unfolding resolve_label_ids
      resolve_label_ids-Gives names =
          gets_then-Gives _
            λ cache. gets-Gives _ (if-Keeps _ fetch_labels-Withheld (pure-Keeps _)) (safe_ids names)

      attach_each-Withheld :
          (issue_id : Json) (ids : Dict Text Json) (names : List Text)
          → OnlyApproved ids
          → All (λ n. n ≢ txt "approved") names
          → Keeps Withheld (attach_each remote issue_id ids names)
      unfolding attach_each
      attach_each-Withheld issue_id ids [] h k = pure-Keeps _
      attach_each-Withheld issue_id ids (name ∷ names) h (n, k) =
          elim (Option-cases (lookup name ids)) [
            | inl e ↦
                rw (e, attach_each)
                  (>>=-Keeps (attach_each-Withheld issue_id ids names h k) λ f. pure-Keeps _)
            | inr (label_id, e) ↦
                rw (e, attach_each)
                  (if-Keeps _
                    (>>=-Keeps (attach_each-Withheld issue_id ids names h k) λ f. pure-Keeps _)
                    (>>=-Keeps (send-Withheld _ λ same. n (h name (e ∙ ap some same))) λ r.
                      >>=-Keeps (attach_each-Withheld issue_id ids names h k) λ f. pure-Keeps _))
          ]

      attach_labels-Withheld :
          (issue_id : Json) (names : List Text)
          → All (λ n. n ≢ txt "approved") names
          → Keeps Withheld (attach_labels remote issue_id names)
      unfolding attach_labels
      attach_labels-Withheld issue_id names k = if-Keeps _ (pure-Keeps _) (
          Gives->>=-Keeps (resolve_label_ids-Gives names)
            λ ids h. attach_each-Withheld issue_id ids names h k)

      task_labels_lem :
          (severity area : Text) → All (λ n. n ≢ txt "approved") (task_labels severity area)
      unfolding task_labels txt
      task_labels_lem severity area = (
        λ e. absurd (ground arith),
        (λ e. absurd (ground arith), (λ e. absurd (ground arith), tt)),
      )

      label_created-Withheld :
          (severity area : Text) (result : Json)
          → Keeps Withheld (label_created remote severity area result)
      unfolding label_created
      label_created-Withheld severity area result = >>=-Keeps (lift-Keeps _) λ identifier.
          >>=-Keeps (lift-Keeps _) λ id.
            >>=-Keeps
              (attach_labels-Withheld id (task_labels severity area)
                (task_labels_lem severity area))
              λ e. pure-Keeps _

      created-Withheld :
          (severity area : Text) (answer : Option Json)
          → Keeps Withheld (elim answer [
            | none ↦ pure (failed (txt "Multica issue creation failed: "))
            | some result ↦ label_created remote severity area result
          ])
      created-Withheld severity area none = pure-Keeps _
      created-Withheld severity area (some result) = label_created-Withheld severity area result

      filing-Withheld :
          (payload : Payload) (severity area : Text)
          → Keeps Withheld (do
            r ← send remote (create_issue payload)
            answer ← lift (body_of r)
            elim answer [
              | none ↦ pure (failed (txt "Multica issue creation failed: "))
              | some result ↦ label_created remote severity area result
            ])
      filing-Withheld payload severity area =
          >>=-Keeps (send-Withheld (create_issue payload) tt)
            λ r. >>=-Keeps (lift-Keeps _) λ answer. created-Withheld severity area answer

      -- If Multica gives an id only to the label "approved", then filing a task attaches no label
      -- with that id, whatever the arguments and the other answers are, nor leads a later one to.
      pub file_multica_task-Withheld :
          (dry_run : Bool) (title body severity area fingerprint : Text)
          → Keeps Withheld (file_multica_task remote dry_run title body severity area fingerprint)
      unfolding file_multica_task
      file_multica_task-Withheld dry_run title body severity area fingerprint =
          search (keeps, filing-Withheld) depth 8
