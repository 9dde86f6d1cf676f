-- ===== src/Enrich/Tags/Tiers.antt =====
-- The tier that `derive_tier` takes.
use fresh_stackable_data_pla.Prelude.{
  ℕ, ◌≡◌, ◌≤◌, ◌⊎◌, inl, inr, refl, sym, ap, ◌∙◌, Bool, true, false, List, [], ◌∷◌, Text, text_eq,
  ◌==◌, arith, ltb, if◌then◌else◌, contains, Bool-cases, eq_of_==, ==-refl,
}
use mathlib.Core.Path.{subst}
use fresh_stackable_data_pla.Text.{txt}
use fresh_stackable_data_pla.Json.{Json, null, str, obj, end, truthy, as_text}
use fresh_stackable_data_pla.Json.Dicts.{get_or, get_text}
use fresh_stackable_data_pla.Json.Dicts.Laws.{as_text_str}
use fresh_stackable_data_pla.Effect.Raises.{ok, >>=-inspect}
use fresh_stackable_data_pla.Enrich.Tags.{rank, best_tier, derive_tier}

-- A tag of the model has the tier in the mapping.
abbrev pub Candidate : Json → List Text → Text → Type 0
Candidate by_tag model_tags s =
    (t : Text) × (contains model_tags t ≡ true)
    × (get_text t null by_tag ≡ ok (str s))
    × (truthy (str s) ≡ true)

-- The best of the default and the candidates.
pub record Best (by_tag : Json) (model_tags : List Text) (default tier : Text) : Type 0 where
  pub from : (tier ≡ default) ⊎ Candidate by_tag model_tags tier
  pub below_default : rank tier ≤ rank default
  pub below : (s : Text) → Candidate by_tag model_tags s → rank tier ≤ rank s

keeps_tag : (t u : Text) (ts : List Text) → contains ts u ≡ true → contains (t ∷ ts) u ≡ true
unfolding contains
keeps_tag t u ts h = ground (arith, h)

first_tag : (t : Text) (ts : List Text) → contains (t ∷ ts) t ≡ true
unfolding contains
first_tag t ts = rw (==-refl t) refl

ok_same : (s t : Text) → ok s ≡ ok t → s ≡ t
ok_same s t h = cc

if_true : {A : Type 0} (b : Bool) {x z : A} (y : A) → b ≡ true → (if b then x else y) ≡ z → x ≡ z
if_true true y e h = h
if_true false y e h = absurd (cc)

if_false : {A : Type 0} (b : Bool) {y z : A} (x : A) → b ≡ false → (if b then x else y) ≡ z → y ≡ z
if_false true y e h = absurd (cc)
if_false false y e h = h

through : (a b c : ℕ) → ltb b c ≡ true → a ≤ b → a ≤ c
through a b c l h = ground (arith, l, h)

not_less : (a b c : ℕ) → ltb b c ≡ false → a ≤ c → a ≤ b
not_less a b c l h = ground (arith, l, h)

module _ (by_tag : Json) where
  same_tier :
      (t s u : Text)
      → get_text t null by_tag ≡ ok (str s)
      → get_text t null by_tag ≡ ok (str u)
      → s ≡ u
  same_tier t s u g h = cc

  no_tier :
      (t : Text) (c : Json) (s : Text)
      → get_text t null by_tag ≡ ok c
      → get_text t null by_tag ≡ ok (str s)
      → truthy c ≡ false
      → truthy (str s) ≡ true
      → ⊥
  no_tier t c s g h n q = cc

  weaken : (t s : Text) (ts : List Text) → Candidate by_tag ts s → Candidate by_tag (t ∷ ts) s
  weaken t s ts (u, m, g, q) = (u, keeps_tag t u ts m, g, q)

  -- A candidate is the first tag's or a later one's.
  split-Candidate :
      (t s : Text) (ts : List Text)
      → Candidate by_tag (t ∷ ts) s
      → ((get_text t null by_tag ≡ ok (str s)) × (truthy (str s) ≡ true)) ⊎ Candidate by_tag ts s
  unfolding contains
  split-Candidate t s ts (u, m, g, q) = elim (Bool-cases (u == t)) [
    | inl e ↦ inl (subst (λ v. get_text v null by_tag ≡ ok (str s)) (eq_of_== u t e) g, q)
    | inr n ↦ inr (u, ground (arith, m, n), g, q)
  ]

  take_tier :
      (t tier best out : Text) (ts : List Text)
      → get_text t null by_tag ≡ ok (str tier)
      → truthy (str tier) ≡ true
      → Best by_tag ts (if ltb (rank tier) (rank best) then tier else best) out
      → Best by_tag (t ∷ ts) best out
  take_tier t tier best out ts g q b = elim (Bool-cases (ltb (rank tier) (rank best))) [
    | inl l ↦
        let c = subst (λ z. Best by_tag ts (if z then tier else best) out) l b in
        record {
          from = elim c.from [
            | inl e ↦ inr (
              t,
              first_tag t ts,
              subst (λ o. get_text t null by_tag ≡ ok (str o)) (sym e) g,
              subst (λ o. truthy (str o) ≡ true) (sym e) q,
            )
            | inr k ↦ inr (weaken t out ts k)
          ];
          below_default = through _ _ _ l c.below_default;
          below = λ s k. elim (split-Candidate t s ts k) [
            | inl (h, _) ↦ subst (λ u. rank out ≤ rank u) (same_tier t tier s g h) c.below_default
            | inr later ↦ c.below s later
          ];
        }
    | inr n ↦
        let c = subst (λ z. Best by_tag ts (if z then tier else best) out) n b in
        record {
          from = elim c.from [ inl e ↦ inl e | inr k ↦ inr (weaken t out ts k) ];
          below_default = c.below_default;
          below = λ s k. elim (split-Candidate t s ts k) [
            | inl (h, _) ↦
                subst (λ u. rank out ≤ rank u) (same_tier t tier s g h)
                  (not_less _ _ _ n c.below_default)
            | inr later ↦ c.below s later
          ];
        }
  ]

  skip_tier :
      (t best out : Text) (ts : List Text) (c : Json)
      → get_text t null by_tag ≡ ok c
      → truthy c ≡ false
      → Best by_tag ts best out
      → Best by_tag (t ∷ ts) best out
  skip_tier t best out ts c g n b = record {
    from = elim b.from [ inl e ↦ inl e | inr k ↦ inr (weaken t out ts k) ];
    below_default = b.below_default;
    below = λ s k. elim (split-Candidate t s ts k) [
      | inl (h, q) ↦ absurd (no_tier t c s g h n q)
      | inr later ↦ b.below s later
    ];
  }

  best_tier-Best :
      (ts : List Text) (best out : Text)
      → best_tier by_tag best ts ≡ ok out
      → Best by_tag ts best out
  unfolding best_tier contains
  best_tier-Best [] best out h = record {
    from = inl (ground (arith, h));
    below_default = subst (λ o. rank o ≤ rank best) (ok_same best out h) (omega arith);
    below = λ s (t, m, g, q). absurd (cc);
  }
  best_tier-Best (t ∷ ts) best out h = >>=-inspect (get_text t null by_tag) _ h λ c g rest.
      elim (Bool-cases (truthy c)) [
        | inl q ↦ >>=-inspect (as_text c) _ (if_true (truthy c) _ q rest) λ tier e later.
            take_tier t tier best out ts (g ∙ ap ok (as_text_str c tier e))
              (subst (λ j. truthy j ≡ true) (as_text_str c tier e) q)
              (best_tier-Best ts _ out later)
        | inr n ↦
            skip_tier t best out ts c g n
              (best_tier-Best ts best out (if_false (truthy c) _ n rest))
      ]

-- The tier is the default of the mapping or a tier that a tag of the model has there, and its
-- rank is no higher than the default's and than that of every tier that a tag of the model has.
pub derive_tier-Best :
    (model_tags : List Text) (mapping rules by_tag : Json) (default tier : Text)
    → get_or "tier_rules" (obj end) mapping ≡ ok rules
    → get_or "by_dbt_tag" (obj end) rules ≡ ok by_tag
    → get_or "default" (str (txt "Tier4")) rules ≡ ok (str default)
    → derive_tier model_tags mapping ≡ ok tier
    → Best by_tag model_tags default tier
unfolding derive_tier as_text
derive_tier-Best model_tags mapping rules by_tag default tier r b d h =
    best_tier-Best by_tag model_tags default tier (sym steps ∙ h)
  where
    steps : derive_tier model_tags mapping ≡ best_tier by_tag default model_tags
    steps = rw (derive_tier, r, b, d) refl
