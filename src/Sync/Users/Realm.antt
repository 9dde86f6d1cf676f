-- ===== src/Sync/Users/Realm.antt =====
-- The pages of the realm's users.
use fresh_stackable_data_pla.Prelude.{
  ℕ, zero, suc, ◌+◌, ◌*◌, ◌≤◌, ◌<◌, ◌≡◌, refl, sym, ap, ◌∙◌, true, false, some, List, [], ◌∷◌, ◌++◌,
  arith, ltb, if◌then◌else◌, is_empty, length, take, drop, inl, inr, Bool-cases,
}
use mathlib.Core.Path.{subst}
use mathlib.Core.List.{append_assoc, append-nil}
use fresh_stackable_data_pla.Json.{or_else, truthy, Json, Items, nil, cons, arr, to_list, iterate}
use fresh_stackable_data_pla.Effect.{ok, returned, pure, >>=-returned, lift-ok}
use fresh_stackable_data_pla.Http.{Remote, send, json_of, raise_for_error}
use fresh_stackable_data_pla.Http.Sent.{send-answer}
use fresh_stackable_data_pla.Sync.Users.{Call, list_users, kc_users_from, list_kc_users}

unfoldable pub of_list : List Json → Items
of_list [] = nil
of_list (v ∷ vs) = cons v (of_list vs)

to_list-of_list : (vs : List Json) → to_list (of_list vs) ≡ vs
unfolding to_list of_list
to_list-of_list [] = refl
to_list-of_list (v ∷ vs) = ap (λ ws. v ∷ ws) (to_list-of_list vs)

iterate-of_list : (vs : List Json) → iterate (or_else (arr (of_list vs)) (arr nil)) ≡ ok vs
unfolding iterate or_else truthy of_list to_list
iterate-of_list [] = refl
iterate-of_list (v ∷ vs) = ap (λ ws. ok (v ∷ ws)) (to_list-of_list vs)

suc_sum : (m n : ℕ) → suc (m + n) ≡ suc m + n
suc_sum m n = omega arith

below : (t : ℕ) → ltb t 100 ≡ true → t < 100
below t h = ground (arith, h)

not_below : (t : ℕ) → ltb t 100 ≡ false → 100 ≤ t
not_below t h = ground (arith, h)

remaining : (t d n f : ℕ) → 100 ≤ t → t + d ≡ n → n < suc f * 100 → d < f * 100
remaining t d n f s e h = omega (arith, s, e, h)

module _ {A : Type 0} where
  take_all : (n : ℕ) (xs : List A) → length (take n xs) < n → take n xs ≡ xs
  take_all zero xs h = absurd (omega (arith, h))
  take_all (suc n) [] h = refl
  take_all (suc n) (x ∷ xs) h = ap (λ ys. x ∷ ys) (take_all n xs (omega (arith, h)))

  take-drop : (n : ℕ) (xs : List A) → take n xs ++ drop n xs ≡ xs
  take-drop zero xs = refl
  take-drop (suc n) [] = refl
  take-drop (suc n) (x ∷ xs) = ap (λ ys. x ∷ ys) (take-drop n xs)

  drop-drop : (n m : ℕ) (xs : List A) → drop n (drop m xs) ≡ drop (m + n) xs
  drop-drop n zero xs = ap (λ k. drop k xs) (omega arith)
  drop-drop zero (suc m) [] = ap (λ k. drop k []) (suc_sum m 0)
  drop-drop (suc n) (suc m) [] = ap (λ k. drop k []) (suc_sum m (suc n))
  drop-drop n (suc m) (x ∷ xs) = drop-drop n m xs ∙ ap (λ k. drop k (x ∷ xs)) (suc_sum m n)

  length-take-drop : (n : ℕ) (xs : List A) → length (take n xs) + length (drop n xs) ≡ length xs
  length-take-drop zero xs = omega arith
  length-take-drop (suc n) [] = refl
  length-take-drop (suc n) (x ∷ xs) = omega (arith, length-take-drop n xs)

module _ (remote : Remote Call) (tok : Json) (users : List Json)
    (pages : (log : List Call) (first : ℕ)
      → remote log (list_users tok first 100)
        ≡ some (record {
          status = 200;
          body = some (arr (of_list (take 100 (drop first users))));
        })) where
  one_page :
      (fuel first : ℕ) (out : List Json) (log : List Call)
      → kc_users_from remote (suc fuel) tok first out log
        ≡ (if is_empty (take 100 (drop first users))
              then pure out
              else if ltb (length (take 100 (drop first users))) 100
              then pure (out ++ take 100 (drop first users))
              else kc_users_from remote fuel tok (first + 100) (out ++ take 100 (drop first users)))
            (list_users tok first 100 ∷ log)
  unfolding kc_users_from json_of raise_for_error iterate
  one_page fuel first out log =
      >>=-returned (send remote (list_users tok first 100)) _
        (send-answer remote (list_users tok first 100) log _ (pages log first))
      ∙ (lift-ok _ refl
          ∙ (lift-ok _ refl ∙ lift-ok _ (iterate-of_list (take 100 (drop first users)))))

  next_page :
      (first : ℕ) (out : List Json)
      → (out ++ take 100 (drop first users)) ++ drop (first + 100) users ≡ out ++ drop first users
  next_page first out =
      append_assoc out (take 100 (drop first users)) (drop (first + 100) users)
      ∙ ap (λ ys. out ++ ys)
          (ap (λ ys. take 100 (drop first users) ++ ys) (sym (drop-drop 100 first users))
            ∙ take-drop 100 (drop first users))

  no_users : (xs : List Json) → is_empty (take 100 xs) ≡ true → xs ≡ []
  no_users [] h = refl
  no_users (x ∷ xs) h = absurd (cc)

  users_from :
      (fuel first : ℕ) (out : List Json) (log : List Call)
      → length (drop first users) < fuel * 100
      → (log' : List Call) × (kc_users_from remote fuel tok first out log
          ≡ returned (out ++ drop first users) log')
  unfolding pure
  users_from zero first out log h = absurd (omega (arith, h))
  users_from (suc fuel) first out log h =
      elim (Bool-cases (is_empty (take 100 (drop first users)))) [
        | inl e ↦ (
          list_users tok first 100 ∷ log,
          one_page fuel first out log ∙ rw (e, no_users (drop first users) e, append-nil out) refl,
        )
        | inr e ↦ elim (Bool-cases (ltb (length (take 100 (drop first users))) 100)) [
          | inl s ↦ (
            list_users tok first 100 ∷ log,
            one_page fuel first out log
                ∙ rw (e, s, take_all 100 (drop first users) (below _ s)) refl,
          )
          | inr s ↦
              let rest =
                users_from fuel (first + 100) (out ++ take 100 (drop first users))
                  (list_users tok first 100 ∷ log)
                  (subst (λ d. length d < fuel * 100) (drop-drop 100 first users)
                    (remaining _ _ _ fuel (not_below _ s) (length-take-drop 100 (drop first users))
                      h)) in
              (
                rest.0,
                one_page fuel first out log
                    ∙ rw (e, s) (rest.1 ∙ ap (λ us. returned us rest.0) (next_page first out)),
              )
        ]
      ]

  -- Every user of the realm is listed, in order, if Keycloak answers each page with its users;
  -- the fuel is for one page more than the full ones.
  pub list_kc_users_lem :
      (fuel : ℕ) (log : List Call)
      → length users < fuel * 100
      → (log' : List Call) × (list_kc_users remote fuel tok log ≡ returned users log')
  unfolding list_kc_users
  list_kc_users_lem fuel log h = users_from fuel 0 [] log h
