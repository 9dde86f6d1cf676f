-- ===== src/Portal/Search/Endpoint.antt =====
-- The endpoint `search`, and its cache.
use fresh_stackable_data_pla.Prelude.{
  ℕ, ◌+◌, ◌<◌, ◌≡◌, refl, ◌∙◌, Bool, true, false, Option, none, some, List, [], ◌∷◌, ◌++◌, Text,
  text_eq, ==-refl, arith, ltb, leb, if◌then◌else◌, length, lookup, insert, lookup-insert,
}
use fresh_stackable_data_pla.Text.{strip, lower}
use fresh_stackable_data_pla.Effect.{
  Result, ok, err, returned, Exec, pure, lift, gets, modify, ◌>>=◌, ◌>>◌, lift-ok,
}
use fresh_stackable_data_pla.Http.{Reply}
use fresh_stackable_data_pla.Portal.Store.{Headers, email_from_request}
use fresh_stackable_data_pla.Portal.Search.{
  Hit, Call, openmetadata, airflow, grafana, Sources, Cache, cache_get, cache_set,
  hits_of_openmetadata, hits_of_airflow, hits_of_grafana, group_priority,
}

pub record World : Type 0 where
  pub cache : Cache
  pub log : List Call

abbrev pub Remote : Type 0
Remote = List Call → Call → Option Reply

pub record Found : Type 0 where
  pub items : List Hit
  pub q : Text
  pub cached : Bool

-- `gather` keeps an exception as a result, and the merge passes it over.
hits_or_none : Result (List Hit) → List Hit
hits_or_none (ok hits) = hits
hits_or_none (err e) = []

insert_hit : Hit → List Hit → List Hit
insert_hit h [] = h ∷ []
insert_hit h (k ∷ hits) =
    let rest = insert_hit h hits in
    if leb (group_priority h.type) (group_priority k.type) then h ∷ k ∷ hits else k ∷ rest

-- The stable sort by priority.
unfoldable pub by_priority : List Hit → List Hit
unfolding insert_hit
by_priority [] = []
by_priority (h ∷ hits) = insert_hit h (by_priority hits)

module _ (remote : Remote) (urls : Sources) where
  -- One source, if its address is set.
  ask : Bool → (Option Reply → Result (List Hit)) → Call → Exec World (List Hit)
  unfolding hits_or_none
  ask false hits c w = returned [] w
  ask true hits c w = returned (hits_or_none (hits (remote w.log c))) (record w { log = c ∷ w.log })

  -- `_search_superset` answers nothing.
  unfoldable pub gather : Text → Exec World (List Hit)
  unfolding ask
  gather q = do
    a ← ask urls.openmetadata_url hits_of_openmetadata (openmetadata q)
    b ← ask urls.airflow_url hits_of_airflow (airflow q)
    c ← ask urls.grafana_url hits_of_grafana (grafana q)
    pure (a ++ (b ++ c))

  -- What follows a miss; `later` is the clock when the answers are in.
  unfoldable pub search_sources : Text → ℕ → Exec World Found
  unfolding gather by_priority
  search_sources q later = do
    hits ← gather q
    let merged = by_priority hits
    modify (λ w. record w { cache = cache_set later (lower q) merged w.cache })
    pure (record { items = merged; q = q; cached = false })

  unfoldable pub search : Headers → Text → ℕ → ℕ → Exec World Found
  unfolding search_sources
  search req given now later = do
    email ← lift (email_from_request req)
    let q = strip given
    if ltb (length q) 2 then pure (record { items = []; q = q; cached = false }) else do
      cached ← gets (λ w. cache_get now (lower q) w.cache)
      elim cached [
        | some items ↦ pure (record { items = items; q = q; cached = true })
        | none ↦ search_sources q later
      ]

  lookup-cache_set :
      (at : ℕ) (key : Text) (value : List Hit) (cache : Cache)
      → ltb 200 (length (insert key (at, value) cache)) ≡ false
      → lookup key (cache_set at key value cache) ≡ some (at, value)
  unfolding cache_set
  lookup-cache_set at key value cache h =
      rw h (lookup-insert key key (at, value) cache ∙ rw (==-refl key) refl)

  young : (now at : ℕ) → now < at + 30 → ltb now (at + 30) ≡ true
  young now at l = ground (arith, l)

  cache_get-found :
      (now at : ℕ) (key : Text) (value : List Hit) (cache : Cache)
      → lookup key cache ≡ some (at, value)
      → now < at + 30
      → cache_get now key cache ≡ some value
  unfolding cache_get
  cache_get-found now at key value cache e l = rw (e, cache_get) (rw (young now at l) refl)

  cache_get-cache_set :
      (now at : ℕ) (key : Text) (value : List Hit) (cache : Cache)
      → ltb 200 (length (insert key (at, value) cache)) ≡ false
      → now < at + 30
      → cache_get now key (cache_set at key value cache) ≡ some value
  cache_get-cache_set now at key value cache h l =
      cache_get-found now at key value _ (lookup-cache_set at key value cache h) l

  -- A query whose results were put into the cache less than 30 seconds ago, when the cache had
  -- room, is answered from there: no request is sent and nothing changes. The user is signed in and
  -- the query has two characters.
  pub search-cache_set :
      (req : Headers) (email given : Text) (now at later : ℕ) (items : List Hit) (w : World)
      → email_from_request req ≡ ok email
      → ltb (length (strip given)) 2 ≡ false
      → ltb 200 (length (insert (lower (strip given)) (at, items) w.cache)) ≡ false
      → now < at + 30
      → search req given now later
          (record w { cache = cache_set at (lower (strip given)) items w.cache })
        ≡ returned
            (record { items = items; q = strip given; cached = true })
            (record w { cache = cache_set at (lower (strip given)) items w.cache })
  unfolding search ◌>>=◌
  search-cache_set req email given now at later items w e l r t =
      lift-ok _ e ∙ rw (l, cache_get-cache_set now at (lower (strip given)) items w.cache r t) refl
