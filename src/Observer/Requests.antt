-- ===== src/Observer/Requests.antt =====
-- `openmetadata_search` and `openmetadata_get` with their request; none is the error that the tools
-- answer where httpx raises.
use fresh_stackable_data_pla.Prelude.{
  ℕ, Bool, Option, none, some, List, Text, leb, ◌&&◌, if◌then◌else◌,
}
use fresh_stackable_data_pla.Json.{Json}
use fresh_stackable_data_pla.Effect.{Exec, pure, lift, per_option, ◌>>=◌}
use fresh_stackable_data_pla.Http.{Reply, Remote, json_of, try_send}
use fresh_stackable_data_pla.Observer.Catalog.{page_size, search_results, clean_path, capped}

pub data Call : Type 0 where
  -- GET v1/search/query with the query, the index and the size
  find : Text → Text → ℕ → Call
  -- GET {path}
  read : Text → Call

-- The status passes `raise_for_status` of httpx.
unfoldable is_success : Reply → Bool
is_success r = leb 200 r.status && leb r.status 299

module _ (remote : Remote Call) (dumps : Json → Text) where
  unfoldable openmetadata_search : Text → Text → Bool × ℕ → Exec (List Call) (Option (List Json))
  unfolding page_size search_results is_success
  openmetadata_search query index size = do
    answer ← try_send remote (find query index (page_size size))
    per_option (pure none)
        (λ r.
          if is_success r
          then (do
            body ← lift (json_of r)
            results ← lift (search_results body)
            pure (some results))
          else pure none)
        answer

  unfoldable openmetadata_get : Text → Exec (List Call) (Option Json)
  unfolding clean_path capped is_success
  openmetadata_get path = do
    answer ← try_send remote (read (clean_path path))
    per_option (pure none)
        (λ r.
          if is_success r
          then (do body ← lift (json_of r); pure (some (capped dumps body)))
          else pure none)
        answer
