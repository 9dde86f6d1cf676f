-- ===== src/Sync/Policy/Pages.antt =====
-- The pages of the list of tables, and what a run of om_to_opa_sync.py writes.
use Prim.{tt}
use fresh_stackable_data_pla.Prelude.{
  ℕ, zero, suc, ◌≤◌, ◌<◌, ◌≡◌, refl, sym, ◌∙◌, true, false, Option, none, some, List, [], ◌∷◌, ◌++◌,
  text_eq, arith, if◌then◌else◌,
}
use mathlib.Core.List.{append_assoc}
use fresh_stackable_data_pla.Json.{Json, obj, arr, nil, end, truthy, get, iterate}
use fresh_stackable_data_pla.Effect.{ok, returned, pure, >>=-returned, lift-ok}
use fresh_stackable_data_pla.Http.{Reply, Remote, send, json_of, raise_for_error}
use fresh_stackable_data_pla.Http.Sent.{send-answer}
use fresh_stackable_data_pla.Json.Dicts.{get_or}
use fresh_stackable_data_pla.Sync.Policy.Run.{Call, list_page, list_tables_from, list_tables}

-- One page, whenever it is asked for: its tables and the cursor of the next.
pub record Answers (remote : Remote Call) (after : Option Json) (page : List Json) (next : Json)
    : Type 0 where
  pub status : ℕ
  pub no_error : status < 400
  pub body : Json
  pub listed : Json
  pub paging : Json
  pub answer :
      (log : List Call)
      → remote log (list_page after) ≡ some (record { status = status; body = some body })
  pub has_data : get_or "data" (arr nil) body ≡ ok listed
  pub has_page : iterate listed ≡ ok page
  pub has_paging : get_or "paging" (obj end) body ≡ ok paging
  pub has_next : get "after" paging ≡ ok next

-- The pages from a cursor on, with their number.
pub data Pages (remote : Remote Call) : Option Json → List Json → ℕ → Type 0 where
  last :
      {after : Option Json} {page : List Json} {next : Json}
      → Answers remote after page next
      → truthy next ≡ false
      → Pages remote after page 1
  more :
      {after : Option Json} {page rest : List Json} {next : Json} {n : ℕ}
      → Answers remote after page next
      → truthy next ≡ true
      → Pages remote (some next) rest n
      → Pages remote after (page ++ rest) (suc n)

no_raise : (r : Reply) → r.status < 400 → raise_for_error r ≡ ok tt
unfolding raise_for_error
no_raise r h = ground (arith, h)

one_page :
    (remote : Remote Call) (fuel : ℕ) (after : Option Json) (page : List Json) (next : Json)
    (out : List Json) (log : List Call)
    → Answers remote after page next
    → list_tables_from remote (suc fuel) after out log
      ≡ (if truthy next
            then list_tables_from remote fuel (some next) (out ++ page)
            else pure (out ++ page))
          (list_page after ∷ log)
unfolding list_tables_from json_of
one_page remote fuel after page next out log a =
    let r : Reply = record { status = a.status; body = some a.body } in
    >>=-returned (send remote (list_page after)) _
      (send-answer remote (list_page after) log r (a.answer log))
    ∙ (lift-ok _ (no_raise r a.no_error)
        ∙ (lift-ok _ refl
            ∙ (lift-ok _ a.has_data
                ∙ (lift-ok _ a.has_page ∙ (lift-ok _ a.has_paging ∙ lift-ok _ a.has_next)))))

-- The requests for the pages, newest first.
abbrev pub requests :
    {remote : Remote Call} {after : Option Json} {ts : List Json} {n : ℕ}
    → Pages remote after ts n
    → List Call
    → List Call
requests {after = after} (last a h) log = list_page after ∷ log
requests {after = after} (more a h p) log = requests p (list_page after ∷ log)

page_count :
    {remote : Remote Call} {after : Option Json} {ts : List Json} {n : ℕ}
    → Pages remote after ts n
    → n ≤ 0
    → ⊥
page_count (last a e) h = omega (arith, h)
page_count (more a e p) h = omega (arith, h)

from_pages :
    (remote : Remote Call) (fuel : ℕ) (after : Option Json) (ts : List Json) (n : ℕ)
    (p : Pages remote after ts n) (out : List Json) (log : List Call)
    → n ≤ fuel
    → list_tables_from remote fuel after out log ≡ returned (out ++ ts) (requests p log)
from_pages remote zero after ts n p out log h = absurd (page_count p h)
from_pages remote (suc fuel) after ts n (last a e) out log h =
    one_page remote fuel after ts _ out log a ∙ rw e (unfold pure in refl)
from_pages remote (suc fuel) after ts n (more {page = page} {rest} {next} {n = m} a e p) out log h =
    one_page remote fuel after page next out log a
    ∙ rw (e, sym (append_assoc out page rest))
        (from_pages remote fuel (some next) rest m p (out ++ page) (list_page after ∷ log)
          (omega (arith, h)))

-- If the tables come in pages, all of them are read, in order, each page once, with fuel for the
-- number of pages.
pub list_tables-Pages :
    (remote : Remote Call) (ts : List Json) (n fuel : ℕ) (p : Pages remote none ts n)
    (log : List Call)
    → n ≤ fuel
    → list_tables remote fuel log ≡ returned ts (requests p log)
unfolding list_tables
list_tables-Pages remote ts n fuel p log h = from_pages remote fuel none ts n p [] log h
