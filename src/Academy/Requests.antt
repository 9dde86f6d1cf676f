-- ===== src/Academy/Requests.antt =====
-- The requests of `put_progress`.
use fresh_stackable_data_pla.Prelude.{
  ◌≡◌, ap, ◌∙◌, arith, Option, some, List, Text, String, str_eq, false,
}
use fresh_stackable_data_pla.Json.{
  Json, Fields, str, arr, obj, nil, cons, end, item, first_item, truthy,
}
use fresh_stackable_data_pla.Json.Dicts.{get_or, dict_of}
use fresh_stackable_data_pla.Json.Dicts.Laws.{value_at, set_same, set_other}
use fresh_stackable_data_pla.Effect.{Result, ok}
use fresh_stackable_data_pla.Effect.Keeps.{Keeps, >>=-Keeps, pure-Keeps, lift->>=-Keeps, keeps}
use fresh_stackable_data_pla.Effect.Gives.{
  Gives, Gives->>=-Keeps, >>=-Gives, lift->>=-Gives, lift-Gives, if-Gives, raise-Gives,
}
use fresh_stackable_data_pla.Http.{Reply, Remote, json_of}
use fresh_stackable_data_pla.Http.Sent.{Sent, send-Sent, send-Gives}
use fresh_stackable_data_pla.Academy.{username_from_request, clean}
use fresh_stackable_data_pla.Academy.Store.{
  Call, token, find_user, put_user, Settings, attributes_of, with_progress, kc_admin_token, kc_user,
  write_user_attr, put_progress,
}

dict_of_obj : (j : Json) (fs : Fields) → dict_of j ≡ ok fs → j ≡ obj fs
unfolding dict_of
dict_of_obj (obj gs) fs h = ground (arith, h)
dict_of_obj _ fs h = absurd (cc)

value_at-with_progress :
    (written : Text) (old : Fields)
    → value_at "udp_progress" (obj (with_progress written old)) ≡ arr (cons (str written) nil)
unfolding with_progress
value_at-with_progress written old = set_same "udp_progress" _ old

value_at-with_progress_other :
    (written : Text) (old : Fields) (k : String)
    → str_eq k "udp_progress" ≡ false
    → value_at k (obj (with_progress written old)) ≡ value_at k (obj old)
unfolding with_progress
value_at-with_progress_other written old k n = set_other k "udp_progress" _ old n

module _ (remote : Remote Call) where
  -- The first user that Keycloak answered for the name.
  pub record FoundBy (tok : Json) (user : Text) (found : Json) : Type 0 where
    pub log : List Call
    pub reply : Reply
    pub users : Json
    pub answer : remote log (find_user tok user) ≡ some reply
    pub body : json_of reply ≡ ok users
    pub first : first_item users ≡ ok found

  -- What a put may hold: the attributes that Keycloak answered for the caller, of which only the
  -- progress is new, and that is cleaned.
  pub record OwnProgress (dumps : Json → Text) (request : Result Json) (header : Text)
      (tok uid : Json) (attrs : Fields) : Type 0 where
    pub found : Json
    pub old : Fields
    pub entries : Fields
    pub cleaned : Fields
    pub name : Text
    pub caller : username_from_request header ≡ ok name
    pub user : FoundBy tok name found
    pub id : item "id" found ≡ ok uid
    pub before : get_or "attributes" (obj end) found ≡ ok (obj old)
    pub asked :
        (body : Json) × (progress : Json) × (request ≡ ok body)
        × (get_or "progress" (obj end) body ≡ ok progress)
        × (dict_of progress ≡ ok entries)
    pub valid : clean entries ≡ ok cleaned
    pub stored : value_at "udp_progress" (obj attrs) ≡ arr (cons (str (dumps (obj cleaned))) nil)
    pub others :
        (k : String)
        → str_eq k "udp_progress" ≡ false
        → value_at k (obj attrs) ≡ value_at k (obj old)

  abbrev pub MayPut : (Json → Text) → Result Json → Text → Call → Type 0
  MayPut dumps request header token = Unit
  MayPut dumps request header (find_user tok user) = username_from_request header ≡ ok user
  MayPut dumps request header (put_user tok uid attrs) =
      OwnProgress dumps request header tok uid attrs

  module _ (settings : Settings) (dumps : Json → Text) (request : Result Json) (header : Text)
      (log : List Call) where
    kc_admin_token-Sent :
        Keeps (Sent (MayPut dumps request header) log) (kc_admin_token remote settings)
    unfolding kc_admin_token
    kc_admin_token-Sent = search (keeps, send-Sent remote) depth 16

    kc_user-Gives :
        (tok : Json) (user : Text)
        → username_from_request header ≡ ok user
        → Gives
            (Sent (MayPut dumps request header) log)
            (FoundBy tok user)
            (kc_user remote settings tok user)
    unfolding kc_user
    kc_user-Gives tok user c = >>=-Gives (send-Gives remote (find_user tok user) c) λ r (seen, e).
        lift->>=-Gives _ λ t _. lift->>=-Gives _ λ users b.
          if-Gives (truthy users)
            (λ _. lift-Gives _ λ found f. record {
              log = seen;
              reply = r;
              users = users;
              answer = e;
              body = b;
              first = f;
            })
            (λ _. raise-Gives _)

    write_user_attr-Sent :
        (user : Text) (entries cleaned : Fields)
        → username_from_request header ≡ ok user
        → (body : Json) × (progress : Json) × (request ≡ ok body)
          × (get_or "progress" (obj end) body ≡ ok progress)
          × (dict_of progress ≡ ok entries)
        → clean entries ≡ ok cleaned
        → Keeps
            (Sent (MayPut dumps request header) log)
            (write_user_attr remote settings user (dumps (obj cleaned)))
    unfolding write_user_attr attributes_of
    write_user_attr-Sent user entries cleaned c a v = >>=-Keeps kc_admin_token-Sent λ tok.
        Gives->>=-Keeps (kc_user-Gives tok user c) λ found f. lift->>=-Keeps _ λ uid i.
          lift->>=-Keeps _ λ old_json o. lift->>=-Keeps _ λ old d.
            >>=-Keeps
              (send-Sent remote (put_user tok uid _) (record {
                found = found;
                old = old;
                entries = entries;
                cleaned = cleaned;
                name = user;
                caller = c;
                user = f;
                id = i;
                before = o ∙ ap ok (dict_of_obj old_json old d);
                asked = a;
                valid = v;
                stored = value_at-with_progress (dumps (obj cleaned)) old;
                others = λ k n. value_at-with_progress_other (dumps (obj cleaned)) old k n;
              }))
              λ r. search keeps depth 6

    -- Whatever Keycloak answers, a user is only looked up under the name in the header, and a user
    -- is only written to with what the filter leaves of the progress in the request, in the
    -- attributes that Keycloak answered for the first user of that name, whose id it is: what the
    -- filter leaves is stored as text under udp_progress, and every other attribute keeps its value.
    pub put_progress-Sent :
        (loads : Text → Option Json)
        → Keeps
            (Sent (MayPut dumps request header) log)
            (put_progress remote settings dumps loads header request)
    unfolding put_progress
    put_progress-Sent loads = lift->>=-Keeps _ λ user c. lift->>=-Keeps _ λ body e.
        lift->>=-Keeps _ λ progress p. lift->>=-Keeps _ λ g _. lift->>=-Keeps _ λ entries d.
          lift->>=-Keeps _ λ cleaned v.
            >>=-Keeps (write_user_attr-Sent user entries cleaned c (body, progress, e, p, d) v)
              λ w. pure-Keeps _
