-- ===== src/Upload/Names.antt =====
-- The patterns of airflow-bridge.py, `sanitize_email`, `_email_from_request` and
-- `_validate_identifier`. The `$` of Python's patterns also matches before a final newline.
use Prim.{Unit}
use fresh_stackable_data_pla.Prelude.{
  ℕ, Bool, true, false, not, ◌&&◌, ◌||◌, [], ◌∷◌, ◌++◌, Text, nat_eq, ◌==◌, leb, if◌then◌else◌,
  every, length, is_empty,
}
use fresh_stackable_data_pla.Text.{strip, lower, is_lower, before_newline}
use fresh_stackable_data_pla.Text.Number.{is_digit}
use fresh_stackable_data_pla.Effect.Raises.{Result, ok, http, guard, ◌>>◌}

-- `[a-z0-9_]`
unfoldable pub is_name_char : ℕ → Bool
unfolding is_lower is_digit
is_name_char c = is_lower c || is_digit c || c == b'_'

-- `[a-z][a-z0-9_]{0,62}`
unfoldable pub is_name : Text → Bool
unfolding is_name_char
is_name [] = false
is_name (c ∷ s) = is_lower c && every is_name_char s && leb (length s) 62

-- `IDENTIFIER_RE.match(name)`
unfoldable pub is_identifier : Text → Bool
unfolding is_name before_newline
is_identifier name = is_name name || is_name (before_newline name)

-- `[a-z]{2,}`
is_top_level : Text → Bool
is_top_level s = every is_lower s && leb 2 (length s)

-- `[a-z0-9.-]`
is_domain_char : ℕ → Bool
is_domain_char c = is_lower c || is_digit c || c == b'.' || c == b'-'

-- `[a-z0-9.-]+\.[a-z]{2,}`, of which something was read or not.
is_domain : Bool → Text → Bool
unfolding is_top_level is_domain_char
is_domain some_read [] = false
is_domain some_read (c ∷ s) =
    (c == b'.' && some_read && is_top_level s) || (is_domain_char c && is_domain true s)

-- `[a-z0-9._%+-]`
is_local_char : ℕ → Bool
is_local_char c =
    is_lower c || is_digit c || c == b'.' || c == b'_' || c == b'%' || c == b'+' || c == b'-'

-- `[a-z0-9._%+-]+@` and the domain; neither part of an address has another `@`.
is_address : Bool → Text → Bool
unfolding is_domain is_local_char
is_address some_read [] = false
is_address some_read (c ∷ s) =
    if c == b'@' then some_read && is_domain false s else is_local_char c && is_address true s

-- `EMAIL_RE.match(email)`
unfoldable pub is_email : Text → Bool
unfolding is_address before_newline
is_email email = is_address false email || is_address false (before_newline email)

-- One character of `sanitize_email`: the two replacements and the substitution.
unfoldable pub sanitize_char : ℕ → Text
sanitize_char c =
    if c == b'@'
    then b'_' ∷ b'a' ∷ b't' ∷ b'_' ∷ []
    else if is_name_char c
    then c ∷ []
    else b'_' ∷ []

unfoldable pub sanitize_all : Text → Text
unfolding sanitize_char
sanitize_all [] = []
sanitize_all (c ∷ s) = sanitize_char c ++ sanitize_all s

unfoldable pub sanitize_email : Text → Text
unfolding sanitize_all
sanitize_email email = sanitize_all (lower (strip email))

-- The header is empty where it is missing.
unfoldable pub email_of_header : Text → Result Text
email_of_header x_auth_request_email = do
  let email = lower (strip x_auth_request_email)
  guard (not (is_empty email)) (http 401 "not authenticated (no email)")
  guard (is_email email) (http 400 "invalid email header")
  ok email

unfoldable pub validate_identifier : Text → Result (Unit {0})
validate_identifier name = guard (is_identifier name) (http 400 "invalid ")
