-- ===== src/Sync/Users/Patches.antt =====
-- What a run of keycloak_user_sync.py may send, and what its patches make of a user.
use fresh_stackable_data_pla.Prelude.{
  ℕ, zero, suc, ◌≡◌, refl, ap, ◌∙◌, ◌++◌, true, false, Option, none, some, List, [], ◌∷◌, Text,
  text_eq, arith, is_empty, inl, inr, Bool-cases,
}
use fresh_stackable_data_pla.Json.{Json, null, str, truthy}
use fresh_stackable_data_pla.Effect.Keeps.{
  Keeps, >>=-Keeps, lift-Keeps, pure-Keeps, raise-Keeps, if-Keeps, keeps,
}
use fresh_stackable_data_pla.Http.{Remote}
use fresh_stackable_data_pla.Http.Sent.{Sent, send-Sent}
use fresh_stackable_data_pla.Sync.Users.{
  Op, Verb, add, replace, Field, display_name_path, email_path, Call, token, list_users,
  create_user, get_user, patch_user, is_value, op_for, user_ops, get_kc_token, kc_users_from,
  list_kc_users, update_om_user, put_om_user, upsert_om_user, upsert_all, main,
}

-- A member of a user once an operation was applied to it, by the rules of JSON Patch: a replacement
-- of a member that is missing fails, an addition to one that is there replaces it.
abbrev put_at : Verb → Json → Text → Option Json
put_at add now v = some (str v)
put_at replace null v = none
put_at replace now v = some (str v)

-- A user's name and address once an operation of a patch was applied.
abbrev pub apply_at : Field → Verb → Text → Json × Json → Option (Json × Json)
apply_at display_name_path verb v (d, e) = elim (put_at verb d v) [
  | none ↦ none
  | some n ↦ some (n, e)
]
apply_at email_path verb v (d, e) = elim (put_at verb e v) [ none ↦ none | some n ↦ some (d, n) ]

-- The whole patch; it fails where one of its operations fails.
unfoldable pub apply_ops : List Op → Json × Json → Option (Json × Json)
apply_ops [] now = some now
apply_ops (o ∷ ops) now = elim (apply_at o.path o.op o.value now) [
  | none ↦ none
  | some next ↦ apply_ops ops next
]

is_value_str : (j : Json) (v : Text) → is_value j v ≡ true → j ≡ str v
unfolding is_value
is_value_str (str s) v h = ground (arith, h)
is_value_str _ v h = absurd (cc)

put_at-replace : (j : Json) (v : Text) → truthy j ≡ true → put_at replace j v ≡ some (str v)
unfolding truthy
put_at-replace null v h = absurd (cc)
put_at-replace _ v h = refl

apply_display :
    (d e : Json) (v : Text) (ops : List Op)
    → apply_ops (op_for display_name_path d v ++ ops) (d, e) ≡ apply_ops ops (str v, e)
unfolding apply_ops op_for
apply_display d e v ops = elim (Bool-cases (is_value d v)) [
  | inl p ↦ rw p (ap (λ n. apply_ops ops (n, e)) (is_value_str d v p))
  | inr p ↦ elim (Bool-cases (truthy d)) [
    | inl y ↦ rw (p, y, put_at-replace d v y) refl
    | inr n ↦ rw (p, n) refl
  ]
]

apply_email : (d e : Json) (v : Text) → apply_ops (op_for email_path e v) (d, e) ≡ some (d, str v)
unfolding apply_ops op_for
apply_email d e v = elim (Bool-cases (is_value e v)) [
  | inl p ↦ rw p (ap (λ n. some (d, n)) (is_value_str e v p))
  | inr p ↦ elim (Bool-cases (truthy e)) [
    | inl y ↦ rw (p, y, put_at-replace e v y) refl
    | inr n ↦ rw (p, n) refl
  ]
]

-- Applied to the user that the patch was made for, by the rules of JSON Patch, every operation of
-- it succeeds, and the user has the name and the address of Keycloak, whatever they were.
pub apply_ops-user_ops :
    (d e : Json) (display email : Text)
    → apply_ops (user_ops d e display email) (d, e) ≡ some (str display, str email)
unfolding user_ops
apply_ops-user_ops d e display email =
    apply_display d e display (op_for email_path e email) ∙ apply_email (str display) e email

-- No user is made an administrator or a bot, and no empty patch is sent.
abbrev pub MaySend : Call → Type 0
MaySend (create_user b) = (b.is_admin ≡ false) × (b.is_bot ≡ false)
MaySend (patch_user id ops) = is_empty ops ≡ false
MaySend token = Unit
MaySend (list_users tok first page) = page ≡ 100
MaySend (get_user name) = Unit

module _ (remote : Remote Call) (log : List Call) where
  get_kc_token-Sent : Keeps (Sent MaySend log) (get_kc_token remote)
  unfolding get_kc_token
  get_kc_token-Sent = search (keeps, send-Sent remote)

  kc_users_from-Sent :
      (fuel : ℕ) (tok : Json) (first : ℕ) (out : List Json)
      → Keeps (Sent MaySend log) (kc_users_from remote fuel tok first out)
  unfolding kc_users_from
  kc_users_from-Sent zero tok first out = raise-Keeps _
  kc_users_from-Sent (suc fuel) tok first out =
      search (keeps, send-Sent remote, kc_users_from-Sent fuel) depth 12

  update_om_user-Sent :
      (username display email : Text)
      → Keeps (Sent MaySend log) (update_om_user remote username display email)
  unfolding update_om_user
  update_om_user-Sent username display email = >>=-Keeps (send-Sent remote _ tt) λ rr.
      if-Keeps _ (pure-Keeps _) (
        >>=-Keeps (lift-Keeps _) λ existing. >>=-Keeps (lift-Keeps _) λ d.
          >>=-Keeps (lift-Keeps _) λ e. elim (Bool-cases (is_empty (user_ops d e display email))) [
            | inl n ↦ rw n (pure-Keeps _)
            | inr n ↦ rw n (
                >>=-Keeps (lift-Keeps _) λ id. >>=-Keeps (send-Sent remote _ n) λ upd. pure-Keeps _)
          ])

  put_om_user-Sent :
      (username display email : Text)
      → Keeps (Sent MaySend log) (put_om_user remote username display email)
  unfolding put_om_user
  put_om_user-Sent username display email =
      >>=-Keeps (send-Sent remote _ (refl, refl)) λ r. search (keeps, update_om_user-Sent)

  upsert_om_user-Sent : (user : Json) → Keeps (Sent MaySend log) (upsert_om_user remote user)
  unfolding upsert_om_user
  upsert_om_user-Sent user = search (keeps, put_om_user-Sent) depth 16

  upsert_all-Sent : (users : List Json) → Keeps (Sent MaySend log) (upsert_all remote users)
  unfolding upsert_all
  upsert_all-Sent [] = pure-Keeps _
  upsert_all-Sent (u ∷ users) = >>=-Keeps (upsert_om_user-Sent u) λ _. upsert_all-Sent users

  -- Whatever the services answer, a run makes no administrator and no bot, sends no empty patch,
  -- and lists the users by pages of 100.
  pub users_main-Sent : (fuel : ℕ) → Keeps (Sent MaySend log) (main remote fuel)
  unfolding main list_kc_users
  users_main-Sent fuel = >>=-Keeps get_kc_token-Sent λ tok.
      >>=-Keeps (kc_users_from-Sent fuel tok 0 [])
        λ users. >>=-Keeps (upsert_all-Sent users) λ _. pure-Keeps _
