-- ===== src/Portal/Events/Runs.antt =====
-- Lists of events of different failed runs.
use fresh_stackable_data_pla.Prelude.{
  ℕ, zero, suc, ◌≡◌, refl, sym, ap, ◌∙◌, true, false, List, [], ◌∷◌, ◌++◌, Text, Dict, text_eq,
  nat_eq, ◌==◌, arith, length, drop, All, IsNodup, contains, contains-append, Bool-cases, inl, inr,
  eq_of_==, All-append, ltb,
}
use mathlib.Core.Path.{subst}
use fresh_stackable_data_pla.Prelude.Alls.{All-map, All-drop}
use fresh_stackable_data_pla.Portal.Events.{Event, append_event, put_nowait, put_all}

unfoldable pub ids : List Event → List Text
ids [] = []
ids (evt ∷ events) = evt.id ∷ ids events

-- The events are of different runs, all of which were seen.
pub record Once (seen : List Text) (events : List Event) : Type 0 where
  pub different : IsNodup (ids events)
  pub known : All (λ k. contains seen k ≡ true) (ids events)

ids-append : (xs : List Event) (evt : Event) → ids (xs ++ (evt ∷ [])) ≡ ids xs ++ (evt.id ∷ [])
unfolding ids
ids-append [] evt = refl
ids-append (x ∷ xs) evt = ap (λ ks. x.id ∷ ks) (ids-append xs evt)

ids-drop : (n : ℕ) (xs : List Event) → ids (drop n xs) ≡ drop n (ids xs)
unfolding ids
ids-drop zero xs = refl
ids-drop (suc n) [] = refl
ids-drop (suc n) (x ∷ xs) = ids-drop n xs

IsNodup-drop : (n : ℕ) (ks : List Text) → IsNodup ks → IsNodup (drop n ks)
IsNodup-drop zero ks h = h
IsNodup-drop (suc n) [] h = tt
IsNodup-drop (suc n) (k ∷ ks) (p, h) = IsNodup-drop n ks h

IsNodup-append :
    (ks : List Text) (k : Text) → IsNodup ks → contains ks k ≡ false → IsNodup (ks ++ (k ∷ []))
unfolding contains
IsNodup-append [] k h n = (refl, tt)
IsNodup-append (j ∷ ks) k (p, h) n =
    (ground (arith, n, p, contains-append ks (k ∷ []) j), IsNodup-append ks k h (ground (arith, n)))

All-contains :
    (P : Text → Type 0) (ks : List Text) (k : Text) → contains ks k ≡ true → All P ks → P k
unfolding contains
All-contains P [] k m h = absurd (cc)
All-contains P (j ∷ ks) k m (p, h) = elim (Bool-cases (k == j)) [
  | inl e ↦ subst P (sym (eq_of_== k j e)) p
  | inr e ↦ All-contains P ks k (rw e at m) h
]

grown : (seen : List Text) (k j : Text) → contains seen j ≡ true → contains (k ∷ seen) j ≡ true
unfolding contains
grown seen k j h = ground (arith, h)

pub not_reported :
    (seen : List Text) (k : Text) (xs : List Event)
    → contains seen k ≡ false
    → Once seen xs
    → contains (ids xs) k ≡ false
not_reported seen k xs n o = elim (Bool-cases (contains (ids xs) k)) [
  | inl m ↦ absurd (true-false (sym (All-contains _ (ids xs) k m o.known) ∙ n))
  | inr m ↦ m
]
  where
    true-false : true ≡ false → ⊥
    true-false e = cc

Once-append :
    (seen : List Text) (xs : List Event) (evt : Event)
    → Once seen xs
    → contains seen evt.id ≡ true
    → contains (ids xs) evt.id ≡ false
    → Once seen (xs ++ (evt ∷ []))
Once-append seen xs evt o k n = record {
  different =
      subst IsNodup (sym (ids-append xs evt)) (IsNodup-append (ids xs) evt.id o.different n);
  known =
      subst (All _) (sym (ids-append xs evt)) (All-append _ (ids xs) (evt.id ∷ []) o.known (k, tt));
}

Once-drop : (seen : List Text) (n : ℕ) (xs : List Event) → Once seen xs → Once seen (drop n xs)
Once-drop seen n xs o = record {
  different = subst IsNodup (sym (ids-drop n xs)) (IsNodup-drop n (ids xs) o.different);
  known = subst (All _) (sym (ids-drop n xs)) (All-drop _ n (ids xs) o.known);
}

pub Once-tail :
    (seen : List Text) (evt : Event) (xs : List Event) → Once seen (evt ∷ xs) → Once seen xs
Once-tail seen evt xs o = Once-drop seen 1 (evt ∷ xs) o

pub Once-grown : (seen : List Text) (k : Text) (xs : List Event) → Once seen xs → Once (k ∷ seen) xs
Once-grown seen k xs o = record {
  different = o.different;
  known = All-map _ _ (ids xs) (grown seen k) o.known;
}

pub append_event-Once :
    (seen : List Text) (xs : List Event) (evt : Event)
    → Once seen xs
    → contains seen evt.id ≡ true
    → contains (ids xs) evt.id ≡ false
    → Once seen (append_event xs evt)
unfolding append_event
append_event-Once seen xs evt o k n = Once-drop seen _ _ (Once-append seen xs evt o k n)

pub put_nowait-Once :
    (seen : List Text) (evt : Event) (q : List Event)
    → Once seen q
    → contains seen evt.id ≡ true
    → contains (ids q) evt.id ≡ false
    → Once seen (put_nowait evt q)
unfolding put_nowait
put_nowait-Once seen evt q o k n = elim (Bool-cases (ltb (length q) 20)) [
  | inl e ↦ rw e (Once-append seen q evt o k n)
  | inr e ↦ rw e o
]

pub put_all-Once :
    (seen : List Text) (evt : Event) (d : Dict ℕ (List Event))
    → All (λ q. Once seen q.1) d
    → contains seen evt.id ≡ true
    → All (λ q. contains (ids q.1) evt.id ≡ false) d
    → All (λ q. Once seen q.1) (put_all evt d)
unfolding put_all
put_all-Once seen evt [] h k n = tt
put_all-Once seen evt ((c, q) ∷ d) (o, h) k (p, n) =
    (put_nowait-Once seen evt q o k p, put_all-Once seen evt d h k n)
