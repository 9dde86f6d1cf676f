-- ===== src/Sync/Policy/Answered.antt =====
-- What a run of om_to_opa_sync.py read: the pages of tables and the config map, as answered.
use Prim.{Unit, tt}
use fresh_stackable_data_pla.Prelude.{
  ℕ, zero, suc, ◌≡◌, true, false, Option, none, some, List, [], ◌++◌, Text, arith,
}
use fresh_stackable_data_pla.Text.{txt}
use fresh_stackable_data_pla.Json.{Json, str, arr, obj, nil, end, get, truthy, iterate, or_else}
use fresh_stackable_data_pla.Json.Dicts.{get_or}
use fresh_stackable_data_pla.Effect.{ok}
use fresh_stackable_data_pla.Effect.Gives.{
  Gives, >>=-Gives, lift->>=-Gives, lift-Gives, if-Gives, raise-Gives, pure-Gives,
}
use fresh_stackable_data_pla.Http.{Reply, Remote, json_of, raise_for_error}
use fresh_stackable_data_pla.Http.Sent.{Sent, send-Gives}
use fresh_stackable_data_pla.Sync.Policy.Run.{
  Call, list_page, read_configmap, list_tables_from, get_configmap,
}

-- A service answered the body to the request, and no error.
pub record Answered (remote : Remote Call) (c : Call) (body : Json) : Type 0 where
  pub earlier : List Call
  pub reply : Reply
  pub answer : remote earlier c ≡ some reply
  pub no_error : raise_for_error reply ≡ ok tt
  pub holds : reply.body ≡ some body

-- A page of tables that was answered, and the cursor of the next.
pub record PageOf (remote : Remote Call) (after : Option Json) (page : List Json) (next : Json)
    : Type 0 where
  pub body : Json
  pub listed : Json
  pub paging : Json
  pub answered : Answered remote (list_page after) body
  pub has_data : get_or "data" (arr nil) body ≡ ok listed
  pub has_page : iterate listed ≡ ok page
  pub has_paging : get_or "paging" (obj end) body ≡ ok paging
  pub has_next : get "after" paging ≡ ok next

-- The tables that were read, and the cursor that is asked for next.
pub data Read (remote : Remote Call) : Option Json → List Json → Type 0 where
  start : Read remote none []
  more :
      {after : Option Json} {out page : List Json} {next : Json}
      → Read remote after out
      → PageOf remote after page next
      → truthy next ≡ true
      → Read remote (some next) (out ++ page)

-- All the tables: the pages from the first on, up to one without a cursor.
pub data ReadAll (remote : Remote Call) : List Json → Type 0 where
  last :
      {after : Option Json} {out page : List Json} {next : Json}
      → Read remote after out
      → PageOf remote after page next
      → truthy next ≡ false
      → ReadAll remote (out ++ page)

-- The text in a config map that was answered: its data.json, or {} where it has none.
pub record ConfigText (remote : Remote Call) (raw : Text) : Type 0 where
  pub cm : Json
  pub found : Json
  pub answered : Answered remote read_configmap cm
  pub has_data : get "data" cm ≡ ok found
  pub has_text : get_or "data.json" (str (txt "{}")) (or_else found (obj end)) ≡ ok (str raw)

body_of : (r : Reply) (v : Json) → json_of r ≡ ok v → r.body ≡ some v
unfolding json_of
body_of r v h = ground (arith, h)

fine-Answered :
    (remote : Remote Call) (c : Call) (r : Reply) (seen : List Call) (t : Unit {0}) (v : Json)
    → remote seen c ≡ some r
    → raise_for_error r ≡ ok t
    → json_of r ≡ ok v
    → Answered remote c v
fine-Answered remote c r seen t v e f b = record {
  earlier = seen;
  reply = r;
  answer = e;
  no_error = f;
  holds = body_of r v b;
}

module _ (remote : Remote Call) {Q : Call → Type 0} {log : List Call} where
  -- What is listed was answered.
  pub list_tables_from-Gives :
      ((after : Option Json) → Q (list_page after))
      → (fuel : ℕ) (after : Option Json) (out : List Json) → Read remote after out
      → Gives (Sent Q log) (ReadAll remote) (list_tables_from remote fuel after out)
  unfolding list_tables_from
  list_tables_from-Gives q zero after out so_far = raise-Gives _
  list_tables_from-Gives q (suc fuel) after out so_far =
      >>=-Gives (send-Gives remote (list_page after) (q after)) λ r (seen, e).
        lift->>=-Gives _ λ t f. lift->>=-Gives _ λ body b. lift->>=-Gives _ λ listed d.
          lift->>=-Gives _ λ page i. lift->>=-Gives _ λ paging g. lift->>=-Gives _ λ next n.
            let p : PageOf remote after page next = record {
              body = body;
              listed = listed;
              paging = paging;
              answered = fine-Answered remote (list_page after) r seen t body e f b;
              has_data = d;
              has_page = i;
              has_paging = g;
              has_next = n;
            } in
            if-Gives (truthy next)
              (λ y. list_tables_from-Gives q fuel (some next) (out ++ page) (more so_far p y))
              (λ y. pure-Gives _ (last so_far p y))

  pub get_configmap-Gives :
      Q read_configmap → Gives (Sent Q log) (Answered remote read_configmap) (get_configmap remote)
  unfolding get_configmap
  get_configmap-Gives q = >>=-Gives (send-Gives remote read_configmap q) λ r (seen, e).
      lift->>=-Gives _
        λ t f. lift-Gives _ λ cm b. fine-Answered remote read_configmap r seen t cm e f b
