-- ===== src/Sync/Policy/Globs.antt =====
-- The glob of a table's name, which OpenMetadata quotes where a part needs it.
use fresh_stackable_data_pla.Prelude.{
  ℕ, ◌≡◌, refl, sym, ap, ◌∙◌, Bool, true, false, not, ◌&&◌, some, [], ◌∷◌, ◌++◌, Text, nat_eq,
  arith, if◌then◌else◌, contains, is_empty,
}
use fresh_stackable_data_pla.Text.{join}
use fresh_stackable_data_pla.Sync.Policy.{fqn_parts, glob_of_parts, schema_glob, glob_from_fqn}

-- A part of a name, and whether it is quoted there.
pub record Part : Type 0 where
  pub quoted : Bool
  pub name : Text

unfoldable pub written : Part → Text
written p = if p.quoted then b'"' ∷ p.name ++ (b'"' ∷ []) else p.name

-- No part has a quote, and one that is not quoted has no dot.
pub record IsPart (p : Part) : Type 0 where
  pub no_quote : contains p.name b'"' ≡ false
  pub no_dot : contains p.name b'.' && not p.quoted ≡ false

-- `cur` grows by what is read.
grown : (cur s : Text) (c : ℕ) → (cur ++ (c ∷ [])) ++ s ≡ cur ++ (c ∷ s)
grown [] s c = refl
grown (d ∷ cur) s c = ap (λ t. d ∷ t) (grown cur s c)

append-nil : (cur : Text) → cur ++ [] ≡ cur
append-nil [] = refl
append-nil (d ∷ cur) = ap (λ t. d ∷ t) (append-nil cur)

quoted_part :
    (cur s rest : Text)
    → contains s b'"' ≡ false
    → fqn_parts true cur (s ++ (b'"' ∷ rest)) ≡ fqn_parts false (cur ++ s) rest
unfolding fqn_parts contains
quoted_part cur [] rest h = rw (append-nil cur) (ground arith)
quoted_part cur (c ∷ s) rest h = ground (arith, quoted_part (cur ++ (c ∷ [])) s rest, grown cur s c)

plain_part :
    (cur s rest : Text)
    → contains s b'"' ≡ false
    → contains s b'.' ≡ false
    → fqn_parts false cur (s ++ rest) ≡ fqn_parts false (cur ++ s) rest
unfolding fqn_parts contains
plain_part cur [] rest h k = rw (append-nil cur) refl
plain_part cur (c ∷ s) rest h k = ground (arith, plain_part (cur ++ (c ∷ [])) s rest, grown cur s c)

append_assoc : (s t u : Text) → (s ++ t) ++ u ≡ s ++ (t ++ u)
append_assoc [] t u = refl
append_assoc (c ∷ s) t u = ap (λ v. c ∷ v) (append_assoc s t u)

read_written :
    (quoted : Bool) (s rest : Text)
    → contains s b'"' ≡ false
    → contains s b'.' && not quoted ≡ false
    → fqn_parts false [] (written (record { quoted = quoted; name = s }) ++ rest)
      ≡ fqn_parts false s rest
unfolding written
read_written false s rest h k = plain_part [] s rest h (ground (arith, k))
read_written true s rest h k =
    rw (append_assoc s (b'"' ∷ []) rest) (unfold fqn_parts nat_eq in quoted_part [] s rest h)

-- A part is read up to what follows it.
read_part :
    (p : Part) (rest : Text)
    → IsPart p
    → fqn_parts false [] (written p ++ rest) ≡ fqn_parts false p.name rest
read_part p rest k = read_written p.quoted p.name rest k.no_quote k.no_dot

read_dotted :
    (p : Part) (rest : Text)
    → IsPart p
    → fqn_parts false [] (written p ++ (b'.' ∷ rest)) ≡ p.name ∷ fqn_parts false [] rest
read_dotted p rest k = read_part p (b'.' ∷ rest) k ∙ unfold fqn_parts nat_eq in refl

read_last :
    (p : Part) → IsPart p → is_empty p.name ≡ false → fqn_parts false [] (written p) ≡ p.name ∷ []
read_last p k n =
    ap (fqn_parts false []) (sym (append-nil (written p)))
    ∙ (read_part p [] k ∙ unfold fqn_parts in ground (arith, n))

-- The name of a table in a service, a database and a schema gives the glob of that database and
-- schema, whichever of the parts are quoted.
pub glob_from_fqn-join :
    (service database schema table : Part)
    → IsPart service
    → IsPart database
    → IsPart schema
    → IsPart table
    → is_empty table.name ≡ false
    → glob_from_fqn (
        join (b'.' ∷ []) (written service ∷ written database ∷ written schema ∷ written table ∷ []))
      ≡ some (schema_glob database.name schema.name)
unfolding glob_from_fqn glob_of_parts join
glob_from_fqn-join service database schema table ks kd km kt n =
    rw
      (
        read_dotted service _ ks,
        read_dotted database _ kd,
        read_dotted schema _ km,
        read_last table kt n,
      )
      refl
