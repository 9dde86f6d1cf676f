-- ===== src/Upload/Owner.antt =====
-- What a conversion is triggered on.
use Prim.{Unit, tt}
use fresh_stackable_data_pla.Prelude.{
  ℕ, ◌≡◌, refl, Bool, true, false, not, ◌&&◌, ◌||◌, Option, none, some, List, [], ◌∷◌, ◌++◌, Text,
  nat_eq, arith, every, inl, inr, Option-cases,
}
use fresh_stackable_data_pla.Text.{txt, starts_with, is_infix, strip, lower}
use fresh_stackable_data_pla.Effect.{ok}
use fresh_stackable_data_pla.Effect.Raises.{guard-ok}
use fresh_stackable_data_pla.Effect.Keeps.{
  Keeps, >>=-Keeps, lift-Keeps, lift->>=-Keeps, raise-Keeps, keeps,
}
use fresh_stackable_data_pla.Http.{Remote}
use fresh_stackable_data_pla.Http.Sent.{Sent, try_send-Sent}
use fresh_stackable_data_pla.Upload.Names.{
  is_name_char, is_identifier, sanitize_char, sanitize_all, sanitize_email, email_of_header,
  validate_identifier,
}
use fresh_stackable_data_pla.Upload.Trigger.{
  TriggerReq, Call, trigger, validate_column, trigger_dag, trigger_convert,
}

every_append : (p : ℕ → Bool) (s t : Text) → every p (s ++ t) ≡ (every p s && every p t)
unfolding every
every_append p [] t = refl
every_append p (c ∷ s) t = ground (arith, every_append p s t)

every-sanitize_char : (c : ℕ) → every is_name_char (sanitize_char c) ≡ true
unfolding every sanitize_char is_name_char
every-sanitize_char c = ground arith

every-sanitize_all : (s : Text) → every is_name_char (sanitize_all s) ≡ true
unfolding every sanitize_all
every-sanitize_all [] = refl
every-sanitize_all (c ∷ s) = ground (
  arith,
  every_append is_name_char (sanitize_char c) (sanitize_all s),
  every-sanitize_char c,
  every-sanitize_all s,
)

abbrev IsColumn : Option Text → Type 0
IsColumn none = Unit
IsColumn (some name) = is_identifier name ≡ true

-- A conversion of an upload of the caller: the key begins with the folder of the caller's address,
-- whose name has letters, digits and underscores only, and leaves no folder; the names are
-- identifiers.
pub record IsOwn (header : Text) (body conf : TriggerReq) (email : Text) : Type 0 where
  pub same : conf ≡ body
  pub caller : email_of_header header ≡ ok email
  pub folder : every is_name_char (sanitize_email email) ≡ true
  pub inside :
      starts_with body.object_key (txt "uploads/" ++ (sanitize_email email ++ txt "/")) ≡ true
  pub stays : is_infix (txt "..") body.object_key || is_infix (txt "//") body.object_key ≡ false
  pub schema : is_identifier body.target_schema ≡ true
  pub table : is_identifier body.target_table ≡ true
  pub column : IsColumn body.partition_col

abbrev pub MayTrigger : Text → TriggerReq → Call → Type 0
MayTrigger header body (trigger conf email) = IsOwn header body conf email

IsColumn-of : (c : Option Text) → validate_column c ≡ ok tt → IsColumn c
unfolding validate_column validate_identifier
IsColumn-of none h = tt
IsColumn-of (some name) h = guard-ok _ _ h

not-true : (b : Bool) → not b ≡ true → b ≡ false
not-true b h = ground (arith, h)

module _ (remote : Remote Call) (public_url : Text) (creds_set : Bool) {Q : Call → Type 0}
    (log : List Call) where
  trigger_dag-Sent :
      (body : TriggerReq) (email : Text)
      → Q (trigger body email)
      → Keeps (Sent Q log) (trigger_dag remote public_url creds_set body email)
  unfolding trigger_dag
  trigger_dag-Sent body email q = >>=-Keeps (lift-Keeps _) λ t.
      >>=-Keeps (try_send-Sent remote (trigger body email) q) λ answer. elim (Option-cases answer) [
        | inl e ↦ rw e (raise-Keeps _)
        | inr (r, e) ↦ rw e (search keeps)
      ]

-- Whatever Airflow answers, a conversion is only triggered for an upload in the folder of the
-- caller's own address, with the request's own values, a key that does not leave the folder, and a
-- schema, a table and a partition column that are identifiers.
pub trigger_convert-Sent :
    (remote : Remote Call) (public_url : Text) (creds_set : Bool) (header : Text)
    (body : TriggerReq) (log : List Call)
    → Keeps
        (Sent (MayTrigger header body) log)
        (trigger_convert remote public_url creds_set header body)
unfolding trigger_convert validate_identifier
trigger_convert-Sent remote public_url creds_set header body log = lift->>=-Keeps _ λ email he.
    lift->>=-Keeps _ λ t₁ h₁. lift->>=-Keeps _ λ t₂ h₂. lift->>=-Keeps _ λ t₃ h₃.
      lift->>=-Keeps _ λ t₄ h₄. lift->>=-Keeps _ λ t₅ h₅.
        >>=-Keeps
          (trigger_dag-Sent remote public_url creds_set log body email (record {
            same = refl;
            caller = he;
            folder = unfold sanitize_email in every-sanitize_all (lower (strip email));
            inside = guard-ok _ _ h₁;
            stays = not-true _ (guard-ok _ _ h₂);
            schema = guard-ok _ _ h₃;
            table = guard-ok _ _ h₄;
            column = IsColumn-of body.partition_col h₅;
          }))
          λ result. search keeps depth 10
