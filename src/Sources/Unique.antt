-- ===== src/Sources/Unique.antt =====
-- What holds of the sources that were loaded.
use fresh_stackable_data_pla.Prelude.{
  ◌≡◌, refl, Bool, true, false, not, Option, none, some, List, [], ◌∷◌, Text, text_eq, ◌==◌, arith,
  contains, All, IsNodup, ==-refl,
}
use fresh_stackable_data_pla.Effect.Raises.{ok, guard, guard-ok, >>=-inspect}
use fresh_stackable_data_pla.Sources.{
  StreamSpec, SourceSpec, bronze_fqn, stream_seen, see_stream, validate_from, validate_uniqueness,
  get_source,
}

unfoldable pub source_names : List SourceSpec → List Text
source_names [] = []
source_names (s ∷ specs) = s.name ∷ source_names specs

unfoldable pub tables_of : List SourceSpec → List Text
tables_of [] = []
tables_of (s ∷ specs) = bronze_fqn s.bronze ∷ tables_of specs

unfoldable pub streams_of : List SourceSpec → List Text
streams_of [] = []
streams_of (s ∷ specs) = see_stream s.stream (streams_of specs)

-- The texts are different, and none was seen.
abbrev New : List Text → List Text → Type 0
New seen ks = IsNodup ks × All (λ k. contains seen k ≡ false) ks

split_seen :
    (a : Text) (seen ks : List Text)
    → All (λ k. contains (a ∷ seen) k ≡ false) ks
    → (contains ks a ≡ false) × All (λ k. contains seen k ≡ false) ks
unfolding contains
split_seen a seen [] h = (refl, tt)
split_seen a seen (k ∷ ks) (p, h) =
    let (q, r) = split_seen a seen ks h in (ground (arith, p, q), (ground (arith, p), r))

New-cons :
    (a : Text) (seen ks : List Text)
    → contains seen a ≡ false
    → New (a ∷ seen) ks
    → New seen (a ∷ ks)
New-cons a seen ks n (d, h) = let (q, r) = split_seen a seen ks h in ((q, d), (n, r))

not-false : (b : Bool) → not b ≡ true → b ≡ false
not-false b h = ground (arith, h)

New-stream :
    (o : Option StreamSpec) (seen ks : List Text)
    → stream_seen o seen ≡ false
    → New (see_stream o seen) ks
    → New seen (see_stream o ks)
unfolding stream_seen see_stream
New-stream none seen ks n h = h
New-stream (some s) seen ks n h = New-cons s.name seen ks n h

validate_from-New :
    (names streams tables : List Text) (specs : List SourceSpec)
    → validate_from names streams tables specs ≡ ok tt
    → New names (source_names specs) × New streams (streams_of specs) × New tables (tables_of specs)
unfolding validate_from source_names streams_of tables_of
validate_from-New names streams tables [] h = ((tt, tt), (tt, tt), (tt, tt))
validate_from-New names streams tables (s ∷ specs) h =
    >>=-inspect (guard (not (contains names s.name)) _) _ h λ u₁ g₁ h₁.
      >>=-inspect (guard (not (stream_seen s.stream streams)) _) _ h₁ λ u₂ g₂ h₂.
        >>=-inspect (guard (not (contains tables (bronze_fqn s.bronze))) _) _ h₂ λ u₃ g₃ h₃.
          let (n, t, b) = validate_from-New _ _ _ specs h₃ in
          (
            New-cons s.name names (source_names specs) (not-false _ (guard-ok _ _ g₁)) n,
            New-stream s.stream streams (streams_of specs) (not-false _ (guard-ok _ _ g₂)) t,
            New-cons (bronze_fqn s.bronze) tables (tables_of specs) (not-false _ (guard-ok _ _ g₃))
                b,
          )

different :
    (a : Text) (specs : List SourceSpec)
    → contains (source_names specs) a ≡ false
    → All (λ s. (a == s.name) ≡ false) specs
unfolding contains source_names
different a [] h = tt
different a (s ∷ specs) h = (ground (arith, h), different a specs (ground (arith, h)))

All-both :
    {P Q R : SourceSpec → Type 0} (specs : List SourceSpec)
    → ((s : SourceSpec) → P s → Q s → R s)
    → All P specs
    → All Q specs
    → All R specs
All-both [] k p q = tt
All-both (s ∷ specs) k (p, ps) (q, qs) = (k s p q, All-both specs k ps qs)

pub get_source_found :
    (specs : List SourceSpec)
    → IsNodup (source_names specs)
    → All (λ s. get_source specs s.name ≡ ok s) specs
unfolding get_source source_names
get_source_found [] d = tt
get_source_found (x ∷ specs) (n, d) = (
  rw (==-refl x.name) refl,
  All-both specs (λ s e f. rw e f) (different x.name specs n) (get_source_found specs d),
)

pub validate_uniqueness-IsNodup :
    (specs : List SourceSpec)
    → validate_uniqueness specs ≡ ok tt
    → IsNodup (source_names specs) × IsNodup (streams_of specs) × IsNodup (tables_of specs)
unfolding validate_uniqueness
validate_uniqueness-IsNodup specs h =
    let (n, t, b) = validate_from-New [] [] [] specs h in (n.0, t.0, b.0)
