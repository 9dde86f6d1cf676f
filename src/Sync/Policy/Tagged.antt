-- ===== src/Sync/Policy/Tagged.antt =====
-- Which purposes the tags of a table name, said without the code that collects them.
use fresh_stackable_data_pla.Prelude.{
  ◌≡◌, refl, sym, ap, ◌∙◌, ◌⊎◌, inl, inr, Bool-cases, Option-cases, Bool, false, ◌&&◌, ◌||◌, Option,
  none, some, List, [], ◌∷◌, Text, text_eq, ◌==◌, arith, contains, drop, length,
}
use fresh_stackable_data_pla.Text.{txt, lower, after_prefix, starts_with}
use fresh_stackable_data_pla.Json.{
  Json, str, arr, nil, cons, get, iterate, or_else, truthy, as_text, to_list,
}
use fresh_stackable_data_pla.Json.Dicts.Laws.{value_at, get_value, as_text_str}
use fresh_stackable_data_pla.Effect.Raises.{ok, >>=-inspect}
use fresh_stackable_data_pla.Sync.Policy.{
  add_member, extract_doelbindingen, glob_from_fqn, read_table,
}

-- The text begins with Doelbinding. and is followed by the purpose, in any case.
unfoldable pub is_purpose : Text → Json → Bool
is_purpose p (str s) = starts_with s (txt "Doelbinding.") && p == lower (drop 12 s)
is_purpose p _ = false

unfoldable pub some_json : (Json → Bool) → List Json → Bool
some_json p [] = false
some_json p (t ∷ ts) = p t || some_json p ts

-- One of the tags names the purpose.
abbrev pub has_purpose : Text → List Json → Bool
has_purpose p = some_json (λ tag. is_purpose p (value_at "tagFQN" tag))

unfoldable pub listed : Json → List Json
listed (arr vs) = to_list vs
listed _ = []

-- The name stands under the glob.
unfoldable pub is_under : Text → Json → Bool
is_under g (str fqn) = elim (glob_from_fqn fqn) [ none ↦ false | some h ↦ g == h ]
is_under g _ = false

-- The table stands under the glob, and one of its tags names the purpose.
unfoldable pub is_tagged : Text → Text → Json → Bool
unfolding is_under some_json is_purpose listed
is_tagged g p tbl =
    is_under g (value_at "fullyQualifiedName" tbl) && has_purpose p (listed (value_at "tags" tbl))

pub contains-add_member :
    (x : Text) (out : List Text) (p : Text)
    → contains (add_member x out) p ≡ (p == x || contains out p)
unfolding add_member contains
contains-add_member x out p = ground arith

after_prefix-drop : (p s r : Text) → after_prefix p s ≡ some r → drop (length p) s ≡ r
unfolding after_prefix
after_prefix-drop [] s r h = ground arith
after_prefix-drop (c ∷ p) [] r h = absurd (cc)
after_prefix-drop (c ∷ p) (d ∷ s) r h = ground (arith, after_prefix-drop p s r)

is_purpose-none :
    (p s : Text) → after_prefix (txt "Doelbinding.") s ≡ none → is_purpose p (str s) ≡ false
unfolding is_purpose starts_with txt
is_purpose-none p s h = rw h refl

is_purpose-some :
    (p s x : Text)
    → after_prefix (txt "Doelbinding.") s ≡ some x
    → is_purpose p (str s) ≡ (p == lower x)
unfolding is_purpose starts_with txt
is_purpose-some p s x h =
    rw h (ap (λ t. p == lower t) (after_prefix-drop (txt "Doelbinding.") s x h))

-- What is read as text is that text, or something empty that is read as the empty text.
or_text :
    (v : Json) (s : Text)
    → as_text (or_else v (str [])) ≡ ok s
    → (v ≡ str s) ⊎ ((s ≡ []) × (truthy v ≡ false))
unfolding or_else as_text
or_text v s h = elim (Bool-cases (truthy v)) [
  | inl y ↦ inl (as_text_str v s (rw y at h))
  | inr n ↦ inr (sym (text_same (rw n at h)), n)
]
  where
    text_same : ok [] ≡ ok s → [] ≡ s
    text_same e = cc

empty-is_purpose : (p : Text) (v : Json) → truthy v ≡ false → is_purpose p v ≡ false
unfolding is_purpose truthy starts_with txt
empty-is_purpose p (str []) h = refl
empty-is_purpose p (str (c ∷ s)) h = absurd (cc)
empty-is_purpose p _ h = refl

empty-is_under : (g : Text) (v : Json) → truthy v ≡ false → is_under g v ≡ false
unfolding is_under truthy glob_from_fqn
empty-is_under g (str []) h = refl
empty-is_under g (str (c ∷ s)) h = absurd (cc)
empty-is_under g _ h = refl

empty-listed : (v : Json) → truthy v ≡ false → listed v ≡ []
unfolding listed truthy to_list
empty-listed (arr nil) h = refl
empty-listed (arr (cons v vs)) h = absurd (cc)
empty-listed _ h = refl

is_purpose-text :
    (p s : Text) (v : Json)
    → as_text (or_else v (str [])) ≡ ok s
    → is_purpose p v ≡ is_purpose p (str s)
unfolding truthy
is_purpose-text p s v h = elim (or_text v s h) [
  | inl e ↦ ap (is_purpose p) e
  | inr (e, n) ↦
      empty-is_purpose p v n
      ∙ sym (ap (λ t. is_purpose p (str t)) e ∙ empty-is_purpose p (str []) refl)
]

is_under-text :
    (g s : Text) (v : Json)
    → as_text (or_else v (str [])) ≡ ok s
    → is_under g v ≡ is_under g (str s)
unfolding truthy
is_under-text g s v h = elim (or_text v s h) [
  | inl e ↦ ap (is_under g) e
  | inr (e, n) ↦
      empty-is_under g v n ∙ sym (ap (λ t. is_under g (str t)) e ∙ empty-is_under g (str []) refl)
]

iterate-listed : (v : Json) (ts : List Json) → iterate v ≡ ok ts → listed v ≡ ts
unfolding iterate listed
iterate-listed (arr vs) ts h = cc
iterate-listed _ ts h = absurd (cc)

listed-iterate : (v : Json) (ts : List Json) → iterate (or_else v (arr nil)) ≡ ok ts → listed v ≡ ts
unfolding or_else listed to_list
listed-iterate v ts h = elim (Bool-cases (truthy v)) [
  | inl y ↦ iterate-listed v ts (rw y at h)
  | inr n ↦ empty-listed v n ∙ iterate-listed (arr nil) ts (rw n at h)
]

contains-purpose :
    (p s : Text) (out all : List Text)
    → (elim (after_prefix (txt "Doelbinding.") s) [
      | none ↦ ok out
      | some x ↦ ok (add_member (lower x) out)
    ])
      ≡ ok all
    → contains all p ≡ (is_purpose p (str s) || contains out p)
contains-purpose p s out all h = elim (Option-cases (after_prefix (txt "Doelbinding.") s)) [
  | inl n ↦ rw (is_purpose-none p s n) (ap (λ l. contains l p) (sym (same (rw n at h))))
  | inr (x, e) ↦
      rw (is_purpose-some p s x e)
        (ap (λ l. contains l p) (sym (same (rw e at h))) ∙ contains-add_member (lower x) out p)
]
  where
    same : {a b : List Text} → ok a ≡ ok b → a ≡ b
    same q = cc

-- The purposes that are collected from tags are those that a tag names.
pub contains-extract_doelbindingen :
    (tags : List Json) (out : List Text) (p : Text)
    → extract_doelbindingen tags ≡ ok out
    → contains out p ≡ has_purpose p tags
unfolding extract_doelbindingen some_json contains
contains-extract_doelbindingen [] out p h = ground arith
contains-extract_doelbindingen (t ∷ tags) out p h = >>=-inspect (get "tagFQN" t) _ h λ tag g h₁.
    >>=-inspect (as_text (or_else tag (str []))) _ h₁ λ s a h₂.
      >>=-inspect (extract_doelbindingen tags) _ h₂ λ rest r h₃.
        contains-purpose p s rest out h₃
        ∙ rw
            (
              sym (is_purpose-text p s tag a),
              get_value "tagFQN" t tag g,
              contains-extract_doelbindingen tags rest p r,
            )
            refl

is_under-none : (g s : Text) → glob_from_fqn s ≡ none → is_under g (str s) ≡ false
unfolding is_under
is_under-none g s h = rw (is_under, h) refl

is_under-some : (g s h : Text) → glob_from_fqn s ≡ some h → is_under g (str s) ≡ (g == h)
unfolding is_under
is_under-some g s h e = rw (is_under, e) refl

-- The reading of a table, as its glob and purposes decide under which tags it stands.
abbrev says : Text → Text → Option (Text × List Text) → Bool
says g p none = false
says g p (some (h, ps)) = g == h && contains ps p

result_same : {a b : Option (Text × List Text)} → ok a ≡ ok b → a ≡ b
result_same q = cc

-- What the loop reads of a table is its glob and the purposes that its tags name.
pub is_tagged-read_table :
    (g p : Text) (tbl : Json) (r : Option (Text × List Text))
    → read_table tbl ≡ ok r
    → is_tagged g p tbl ≡ says g p r
unfolding read_table is_tagged
is_tagged-read_table g p tbl r h = >>=-inspect (get "fullyQualifiedName" tbl) _ h λ name n h₁.
    >>=-inspect (as_text (or_else name (str []))) _ h₁ λ fqn a h₂.
      let under =
        ap (is_under g) (sym (get_value "fullyQualifiedName" tbl name n))
        ∙ is_under-text g fqn name a in
      elim (Option-cases (glob_from_fqn fqn)) [
        | inl e ↦
            ap (λ b. b && has_purpose p (listed (value_at "tags" tbl)))
              (under ∙ is_under-none g fqn e)
            ∙ ap (says g p) (result_same (rw e at h₂))
        | inr (glob, e) ↦ >>=-inspect (get "tags" tbl) _ (rw e at h₂) λ tags t h₃.
            >>=-inspect (iterate (or_else tags (arr nil))) _ h₃ λ ts i h₄.
              >>=-inspect (extract_doelbindingen ts) _ h₄ λ db d h₅.
                ap (λ b. b && has_purpose p (listed (value_at "tags" tbl)))
                  (under ∙ is_under-some g fqn glob e)
                ∙ (ap (λ l. g == glob && has_purpose p l)
                      (ap listed (sym (get_value "tags" tbl tags t)) ∙ listed-iterate tags ts i)
                    ∙ (ap (λ b. g == glob && b) (sym (contains-extract_doelbindingen ts db p d))
                        ∙ ap (says g p) (result_same h₅)))
      ]
