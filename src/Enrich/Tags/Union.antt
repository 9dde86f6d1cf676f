-- ===== src/Enrich/Tags/Union.antt =====
-- The tags that `union_tags` gives.
use fresh_stackable_data_pla.Prelude.{
  ◌≡◌, refl, sym, ap, ◌∙◌, Option, none, some, List, [], ◌∷◌, Text, Dict, text_eq, ◌==◌, Bool-cases,
  Option-cases, inl, inr, arith, if◌then◌else◌, All, lookup, insert, lookup-insert, eq_of_==,
}
use mathlib.Core.Path.{subst}
use fresh_stackable_data_pla.Json.{Json, as_text, item, find_field}
use fresh_stackable_data_pla.Effect.Raises.{Result, ok, err, >>=-inspect}
use fresh_stackable_data_pla.Enrich.Tags.{
  tag_label, tag_fqn, index_tags, add_tag, add_tags, values, union_tags,
}

abbrev when_named : Text → Json → Option Json → Result Text → Option Json
when_named k t rest (err e) = rest
when_named k t rest (ok fqn) = if k == fqn then some t else rest

-- The first of a list that has the name.
unfoldable pub find_tag : Text → List Json → Option Json
find_tag k [] = none
find_tag k (t ∷ ts) = when_named k t (find_tag k ts) (tag_fqn t)

abbrev pub or_option : Option Json → Option Json → Option Json
or_option (some t) o = some t
or_option none o = o

-- The last of the existing tags that has the name.
unfoldable pub last_tag : Text → List Json → Option Json
last_tag k [] = none
last_tag k (t ∷ ts) = or_option (last_tag k ts) (find_tag k (t ∷ []))

-- The label of the first new tag of that name.
unfoldable pub first_label : Text → List (Text × Text) → Option Json
first_label k [] = none
first_label k ((fqn, source) ∷ new) =
    if k == fqn then some (tag_label fqn source) else first_label k new

-- Every tag of the dict stands under its own name.
abbrev Keyed : Dict Text Json → Type 0
Keyed d = All (λ p. tag_fqn p.1 ≡ ok p.0) d

or_option_assoc : (a b c : Option Json) → or_option a (or_option b c) ≡ or_option (or_option a b) c
or_option_assoc none b c = refl
or_option_assoc (some t) b c = refl

or_option-none : (a : Option Json) → or_option a none ≡ a
or_option-none none = refl
or_option-none (some t) = refl

insert-Keyed :
    (k : Text) (t : Json) (d : Dict Text Json) → tag_fqn t ≡ ok k → Keyed d → Keyed (insert k t d)
unfolding insert
insert-Keyed k t [] h q = (h, tt)
insert-Keyed k t ((j, u) ∷ d) h (p, q) = elim (Bool-cases (k == j)) [
  | inl e ↦ rw e (h, q)
  | inr e ↦ rw e (p, insert-Keyed k t d h q)
]

tag_label-fqn : (k s : Text) → tag_fqn (tag_label k s) ≡ ok k
unfolding tag_fqn tag_label item find_field as_text
tag_label-fqn k s = refl

find_tag-values : (k : Text) (d : Dict Text Json) → Keyed d → find_tag k (values d) ≡ lookup k d
unfolding find_tag values lookup
find_tag-values k [] q = refl
find_tag-values k ((j, t) ∷ d) (p, q) =
    ap (when_named k t (find_tag k (values d))) p
    ∙ ap (λ o. when_named k t o (ok j)) (find_tag-values k d q)

lookup-insert_first :
    (k fqn : Text) (t : Json) (d : Dict Text Json) (o : Option Json)
    → tag_fqn t ≡ ok fqn
    → or_option o (lookup k (insert fqn t d))
      ≡ or_option (or_option o (find_tag k (t ∷ []))) (lookup k d)
unfolding find_tag
lookup-insert_first k fqn t d none h =
    rw (lookup-insert k fqn t d) (ground (arith, ap (when_named k t none) h))
lookup-insert_first k fqn t d (some u) h = refl

ok_same : (d out : Dict Text Json) → ok d ≡ ok out → d ≡ out
ok_same d out h = cc

lookup-index_tags :
    (k : Text) (existing : List Json) (d out : Dict Text Json)
    → index_tags existing d ≡ ok out
    → (lookup k out ≡ or_option (last_tag k existing) (lookup k d)) × (Keyed d → Keyed out)
unfolding index_tags last_tag
lookup-index_tags k [] d out h = (ground (arith, h), subst Keyed (ok_same d out h))
lookup-index_tags k (t ∷ existing) d out h = >>=-inspect (tag_fqn t) _ h λ fqn e rest.
    let (l, q) = lookup-index_tags k existing (insert fqn t d) out rest in
    (l ∙ lookup-insert_first k fqn t d (last_tag k existing) e, λ p. q (insert-Keyed fqn t d e p))

add_tag-none :
    (fqn source : Text) (d : Dict Text Json)
    → lookup fqn d ≡ none
    → add_tag (fqn, source) d ≡ insert fqn (tag_label fqn source) d
unfolding add_tag
add_tag-none fqn source d n = rw (add_tag, n) refl

add_tag-some :
    (fqn source : Text) (d : Dict Text Json) {t : Json}
    → lookup fqn d ≡ some t
    → add_tag (fqn, source) d ≡ d
unfolding add_tag
add_tag-some fqn source d e = rw (add_tag, e) refl

lookup-add_tag :
    (k fqn source : Text) (d : Dict Text Json)
    → lookup k (add_tag (fqn, source) d)
      ≡ or_option (lookup k d) (if k == fqn then some (tag_label fqn source) else none)
lookup-add_tag k fqn source d = elim (Option-cases (lookup fqn d)) [
  | inl n ↦
      ap (lookup k) (add_tag-none fqn source d n)
      ∙ lookup-insert k fqn (tag_label fqn source) d
      ∙ elim (Bool-cases (k == fqn)) [
        | inl e ↦ rw (e, ap (λ j. lookup j d) (eq_of_== k fqn e) ∙ n) refl
        | inr e ↦ rw e (sym (or_option-none (lookup k d)))
      ]
  | inr (t, e) ↦ ap (lookup k) (add_tag-some fqn source d e) ∙ elim (Bool-cases (k == fqn)) [
    | inl q ↦ rw (ap (λ j. lookup j d) (eq_of_== k fqn q) ∙ e) refl
    | inr q ↦ rw q (sym (or_option-none (lookup k d)))
  ]
]

add_tag-Keyed : (new : Text × Text) (d : Dict Text Json) → Keyed d → Keyed (add_tag new d)
add_tag-Keyed (fqn, source) d q = elim (Option-cases (lookup fqn d)) [
  | inl n ↦
      subst Keyed (sym (add_tag-none fqn source d n))
        (insert-Keyed fqn (tag_label fqn source) d (tag_label-fqn fqn source) q)
  | inr (t, e) ↦ subst Keyed (sym (add_tag-some fqn source d e)) q
]

lookup-add_tags :
    (k : Text) (new : List (Text × Text)) (d : Dict Text Json)
    → lookup k (add_tags new d) ≡ or_option (lookup k d) (first_label k new)
unfolding add_tags first_label
lookup-add_tags k [] d = sym (or_option-none (lookup k d))
lookup-add_tags k ((fqn, source) ∷ new) d =
    lookup-add_tags k new (add_tag (fqn, source) d)
    ∙ ap (λ o. or_option o (first_label k new)) (lookup-add_tag k fqn source d)
    ∙ sym (or_option_assoc (lookup k d) _ (first_label k new))
    ∙ ap (or_option (lookup k d))
        (elim (Bool-cases (k == fqn)) [ inl e ↦ rw e refl | inr e ↦ rw e refl ])

add_tags-Keyed : (new : List (Text × Text)) (d : Dict Text Json) → Keyed d → Keyed (add_tags new d)
unfolding add_tags
add_tags-Keyed [] d q = q
add_tags-Keyed (n ∷ new) d q = add_tags-Keyed new (add_tag n d) (add_tag-Keyed n d q)

-- If the tags that exist all have a name, then under every name the union holds the last of them
-- with that name, else the label of the first new tag with that name, else nothing.
pub union_tags_lem :
    (existing out : List Json) (new : List (Text × Text))
    → union_tags existing new ≡ ok out
    → (k : Text) → find_tag k out ≡ or_option (last_tag k existing) (first_label k new)
unfolding union_tags lookup
union_tags_lem existing out new h k = >>=-inspect (index_tags existing []) _ h λ d e rest.
    let (l, q) = lookup-index_tags k existing [] d e in
    ap (find_tag k) (out_of d rest)
    ∙ find_tag-values k (add_tags new d) (add_tags-Keyed new d (q tt))
    ∙ lookup-add_tags k new d
    ∙ ap (λ o. or_option o (first_label k new)) (l ∙ or_option-none _)
  where
    out_of :
        (d : Dict Text Json) → ok (values (add_tags new d)) ≡ ok out → out ≡ values (add_tags new d)
    out_of d r = cc
