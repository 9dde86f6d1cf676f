-- ===== src/Academy.antt =====
-- portal/scripts/learn-backend.py: the progress of a user in the academy, which Keycloak keeps as an
-- attribute of the user, and the checks of the modules. The parsing and printing of JSON are
-- parameters.
pub mod Store
pub mod Keys
pub mod Written
pub mod Requests
mod Tests
use Prim.{Unit, tt}
use fresh_stackable_data_pla.Prelude.{
  ℕ, zero, suc, Bool, true, false, not, ◌&&◌, ◌||◌, Option, none, some, List, [], ◌∷◌, Text, nat_eq,
  text_eq, ◌==◌, if◌then◌else◌, every, is_empty, contains,
}
use fresh_stackable_data_pla.Text.{txt, is_lower, split, before_newline}
use fresh_stackable_data_pla.Text.Number.{is_digit}
use fresh_stackable_data_pla.Json.{
  Json, Fields, str, arr, obj, nil, cons, end, field, get, first_item, or_else,
}
use fresh_stackable_data_pla.Effect.Raises.{Result, ok, err, http, crash, guard, ◌>>=◌, ◌>>◌}

-- `_username_from_request`; the text is empty where the header is missing.
unfoldable pub username_from_request : Text → Result Text
username_from_request user = if is_empty user then err (http 401 "not authenticated") else ok user

-- `[a-z_]+`
unfoldable pub is_module_name : Text → Bool
unfolding is_lower
is_module_name s = not (is_empty s) && every (λ c. is_lower c || c == b'_') s

-- `foundation|practitioner|expert`
unfoldable pub is_level : Text → Bool
is_level s = contains (txt "foundation" ∷ txt "practitioner" ∷ txt "expert" ∷ []) s

-- `\d+`
unfoldable pub is_number : Text → Bool
unfolding is_digit
is_number s = not (is_empty s) && every is_digit s

-- No part of the pattern has a slash.
unfoldable pub is_step : List Text → Bool
unfolding is_module_name is_level is_number
is_step (name ∷ level ∷ number ∷ []) = is_module_name name && is_level level && is_number number
is_step _ = false

-- `PROGRESS_KEY_RE.match(k)`
unfoldable pub is_key : Text → Bool
unfolding is_step split before_newline
is_key k = is_step (split b'/' k) || is_step (split b'/' (before_newline k))

-- `v in {"done", "in-progress"}`: a list and a dict have no hash.
unfoldable pub is_progress : Json → Result Bool
is_progress (str s) = ok (contains (txt "done" ∷ txt "in-progress" ∷ []) s)
is_progress (arr vs) = err crash
is_progress (obj fs) = err crash
is_progress _ = ok false

-- `cleaned`
unfoldable pub clean : Fields → Result Fields
unfolding is_key is_progress
clean end = ok end
clean (field k v progress) =
    if is_key (txt k)
    then (do
      valid ← is_progress v
      cleaned ← clean progress
      ok (if valid then field k v cleaned else cleaned))
    else clean progress

unfoldable pub size : Fields → ℕ
size end = 0
size (field k v fs) = suc (size fs)

-- `json.loads(raw)`; what raises counts as no progress.
unfoldable pub loaded : (Text → Option Json) → Json → Json
loaded loads (str s) = elim (loads s) [ none ↦ obj end | some progress ↦ progress ]
loaded loads _ = obj end

-- What `get_progress` reads in the attributes.
unfoldable pub progress_of : (Text → Option Json) → Json → Result Json
unfolding loaded
progress_of loads attrs = do
  stored ← get "udp_progress" attrs
  raw ← first_item (or_else stored (arr (cons (str (txt "{}")) nil)))
  ok (loaded loads raw)

-- A result of a check.
pub record Checked : Type 0 where
  pub passed : Bool
  pub msg : Text

-- `CHECKS.get(check_id)`
unfoldable pub find_check : Text → Option Checked
find_check check_id =
    if check_id == txt "_ping"
    then some (record { passed = true; msg = txt "academy backend bereikbaar" })
    else if check_id == txt "wia_practitioner_query"
    then some (record { passed = false; msg = txt "audit-log koppeling niet geconfigureerd" })
    else if check_id == txt "engineer_practitioner_pipeline"
    then some (record { passed = false; msg = txt "CI-koppeling niet geconfigureerd" })
    else none

-- `run_check`; no check looks at its user.
unfoldable pub run_check : Text → Text → Result Checked
unfolding find_check username_from_request
run_check check_id header = elim (find_check check_id) [
  | none ↦ err (http 404 "unknown check")
  | some result ↦
      if check_id == txt "_ping"
      then ok result
      else (do user ← username_from_request header; ok result)
]
