-- ===== src/Academy/Written.antt =====
-- What `put_progress` writes to Keycloak, and that `get_progress` reads it.
use fresh_stackable_data_pla.Prelude.{
  ◌≡◌, ◌↔◌, ◌⊎◌, inl, inr, refl, sym, ◌∙◌, Bool, true, false, Option, some, Text, String,
  if◌then◌else◌, Bool-cases,
}
use mathlib.Core.Path.{subst}
use fresh_stackable_data_pla.Text.{txt}
use fresh_stackable_data_pla.Json.{
  Json, Fields, str, arr, obj, nil, cons, end, field, get, first_item, or_else, truthy,
}
use fresh_stackable_data_pla.Json.Dicts.Laws.{value_at, set_same}
use fresh_stackable_data_pla.Effect.Raises
use fresh_stackable_data_pla.Effect.Raises.{>>=-inspect}
use fresh_stackable_data_pla.Effect.{ok}
use fresh_stackable_data_pla.Academy.{is_key, is_progress, clean, loaded, progress_of}
use fresh_stackable_data_pla.Academy.Keys.{IsKey, IsDone, is_key_iff, is_progress_iff}
use fresh_stackable_data_pla.Academy.Store.{with_progress}

-- The dict has the entry.
abbrev pub HasEntry : String → Json → Fields → Type 0
HasEntry k v end = ⊥
HasEntry k v (field j w fs) = ((k ≡ j) × (v ≡ w)) ⊎ HasEntry k v fs

-- The tests of the filter, and what they stand for.
abbrev IsValid : String → Json → Type 0
IsValid k v = (is_key (txt k) ≡ true) × (is_progress v ≡ ok true)

abbrev pub IsAllowed : String → Json → Type 0
IsAllowed k v = IsKey (txt k) × IsDone v

abbrev Kept : Fields → Fields → Type 0
Kept progress cleaned =
    (k : String) (v : Json) → HasEntry k v cleaned ↔ (HasEntry k v progress × IsValid k v)

ok_same : {x y : Fields} → ok x ≡ ok y → x ≡ y
ok_same h = cc

Kept-end : Kept end end
Kept-end k v = (λ e. absurd e, λ (e, _). e)

skip-Kept :
    (j : String) (w : Json) (progress cleaned : Fields)
    → (IsValid j w → ⊥)
    → Kept progress cleaned
    → Kept (field j w progress) cleaned
skip-Kept j w progress cleaned n h k v = (
  λ e. let (a, b) = (h k v).0 e in (inr a, b),
  λ (a, b). elim a [
    | inl (p, q) ↦ absurd (n (subst (λ x. IsValid x w) p (subst (IsValid k) q b)))
    | inr c ↦ (h k v).1 (c, b)
  ],
)

keep-Kept :
    (j : String) (w : Json) (progress cleaned : Fields)
    → IsValid j w
    → Kept progress cleaned
    → Kept (field j w progress) (field j w cleaned)
keep-Kept j w progress cleaned y h k v = (
  λ e. elim e [
    | inl (p, q) ↦ (inl (p, q), subst (λ x. IsValid x v) (sym p) (subst (IsValid j) (sym q) y))
    | inr c ↦ let (a, b) = (h k v).0 c in (inr a, b)
  ],
  λ (a, b). elim a [ inl (p, q) ↦ inl (p, q) | inr c ↦ inr ((h k v).1 (c, b)) ],
)

true-false : true ≡ false → ⊥
true-false e = cc

entry-Kept :
    (j : String) (w : Json) (progress rest cleaned : Fields) (valid : Bool)
    → is_key (txt j) ≡ true
    → is_progress w ≡ ok valid
    → Kept progress rest
    → ok (if valid then field j w rest else rest) ≡ ok cleaned
    → Kept (field j w progress) cleaned
entry-Kept j w progress rest cleaned true y e h t =
    subst (Kept (field j w progress)) (ok_same t) (keep-Kept j w progress rest (y, e) h)
entry-Kept j w progress rest cleaned false y e h t =
    subst (Kept (field j w progress)) (ok_same t)
      (skip-Kept j w progress rest (λ (_, q). ok_different (sym e ∙ q)) h)
  where
    ok_different : ok false ≡ ok true → ⊥
    ok_different q = cc

clean-Kept :
    (progress cleaned : Fields)
    → clean progress ≡ ok cleaned
    → (k : String) (v : Json) → HasEntry k v cleaned ↔ (HasEntry k v progress × IsValid k v)
unfolding clean
clean-Kept end cleaned h = subst (Kept end) (ok_same h) Kept-end
clean-Kept (field j w progress) cleaned h = elim (Bool-cases (is_key (txt j))) [
  | inl y ↦ >>=-inspect (is_progress w) _ (rw y at h) λ valid e r.
      >>=-inspect (clean progress) _ r
        λ rest f t. entry-Kept j w progress rest cleaned valid y e (clean-Kept progress rest f) t
  | inr n ↦
      skip-Kept j w progress cleaned (λ (y, _). true-false (sym y ∙ n))
        (clean-Kept progress cleaned (rw n at h))
]

-- What is stored of a progress is exactly its entries whose key is a module of lower-case letters
-- and underscores, a level of the three and a number of digits, with a slash between them and at
-- most a newline after them, and whose value is the text done or in-progress.
pub clean-HasEntry :
    (progress cleaned : Fields)
    → clean progress ≡ ok cleaned
    → (k : String) (v : Json) → HasEntry k v cleaned ↔ (HasEntry k v progress × IsAllowed k v)
clean-HasEntry progress cleaned h k v =
    let (to, from) = clean-Kept progress cleaned h k v in
    let (key, of_key) = is_key_iff (txt k) in
    let (done, of_done) = is_progress_iff v in
    (
      λ e. let (a, (b, c)) = to e in (a, (key b, done c)),
      λ (a, (b, c)). from (a, (of_key b, of_done c)),
    )

read_back :
    (loads : Text → Option Json) (s : Text) (progress : Json)
    → loads s ≡ some progress
    → (Raises.◌>>=◌
        (first_item (or_else (arr (cons (str s) nil)) (arr (cons (str (txt "{}")) nil))))
        (λ raw. ok (loaded loads raw)))
      ≡ ok progress
unfolding first_item or_else truthy loaded
read_back loads s progress h = rw (loaded, h) refl

-- The progress that was written is the progress that is read, if JSON's parser reads what its
-- printer prints of it.
pub progress_of-with_progress :
    (dumps : Json → Text) (loads : Text → Option Json) (progress : Json) (attrs : Fields)
    → loads (dumps progress) ≡ some progress
    → progress_of loads (obj (with_progress (dumps progress) attrs)) ≡ ok progress
unfolding progress_of with_progress get value_at
progress_of-with_progress dumps loads progress attrs h =
    subst
      (λ stored.
        (Raises.◌>>=◌ (first_item (or_else stored (arr (cons (str (txt "{}")) nil))))
          (λ raw. ok (loaded loads raw)))
        ≡ ok progress)
      (sym (set_same "udp_progress" (arr (cons (str (dumps progress)) nil)) attrs))
      (read_back loads (dumps progress) progress h)
