-- ===== src/Sources/Loaded.antt =====
-- What holds of the sources that `load_all_sources` gives.
use fresh_stackable_data_pla.Prelude.{
  ◌≡◌, Bool, true, false, Option, none, some, List, [], ◌∷◌, text_eq, ◌==◌, if◌then◌else◌, All,
  IsNodup,
}
use mathlib.Core.Path.{subst}
use fresh_stackable_data_pla.Text.{txt}
use fresh_stackable_data_pla.Json.{Json, truthy, item, get, or_else, bool, arr, nil}
use fresh_stackable_data_pla.Json.Dicts.{get_or, elements}
use fresh_stackable_data_pla.Effect.Raises.{Result, ok, crash, guard, guard-ok, >>=-inspect}
use fresh_stackable_data_pla.Sources.{
  StreamSpec, CsvIngestSpec, SourceSpec, validate_uniqueness, get_source,
}
use fresh_stackable_data_pla.Sources.Coerce.{
  text_at, stream_spec, bronze_spec, silver_spec, sla_spec, coerce_csv_ingest, if_given, as_int,
  governance_spec, coerce, coerce_all, load_all_sources,
}
use fresh_stackable_data_pla.Sources.Unique.{
  source_names, streams_of, tables_of, validate_uniqueness-IsNodup, get_source_found,
}

abbrev pub IsSome : {A : Type 0} → Option A → Type 0
IsSome none = ⊥
IsSome (some a) = Unit

-- A source of CSV uploads says how they are ingested, and another one has a stream.
abbrev pub ModeFits : SourceSpec → Type 0
ModeFits s = if s.sla.mode == txt "csv_batch" then IsSome s.csv_ingest else IsSome s.stream

pub record Loaded (specs : List SourceSpec) : Type 0 where
  pub names : IsNodup (source_names specs)
  pub streams : IsNodup (streams_of specs)
  pub tables : IsNodup (tables_of specs)
  pub found : All (λ s. get_source specs s.name ≡ ok s) specs
  pub modes : All ModeFits specs

if_given-IsSome :
    {A : Type 0} (spec : Json → Result A) (given : Json) (o : Option A)
    → if_given spec given ≡ ok o
    → truthy given ≡ true
    → IsSome o
unfolding if_given
if_given-IsSome {A} spec given none h t =
    >>=-inspect (spec given) _ (rw t at h) λ a _ q. absurd (some_none a q)
  where
    some_none : (a : A) → ok (some a) ≡ ok none → ⊥
    some_none a q = cc
if_given-IsSome spec given (some a) h t = tt

fits :
    (b : Bool) (ingest_block stream_block : Json) (c : Option CsvIngestSpec) (t : Option StreamSpec)
    → truthy (if b then ingest_block else stream_block) ≡ true
    → if_given coerce_csv_ingest ingest_block ≡ ok c
    → if_given stream_spec stream_block ≡ ok t
    → (if b then IsSome c else IsSome t)
fits true i s c t h p q = if_given-IsSome coerce_csv_ingest i c p h
fits false i s c t h p q = if_given-IsSome stream_spec s t q h

same_spec : {x y : SourceSpec} → ok x ≡ ok y → x ≡ y
same_spec h = cc

same_specs : {x y : List SourceSpec} → ok x ≡ ok y → x ≡ y
same_specs h = cc

module _ (int_of : Json → Option Json) where
  coerce-ModeFits : (d : Json) (s : SourceSpec) → coerce int_of d ≡ ok s → ModeFits s
  unfolding coerce
  coerce-ModeFits d s h = >>=-inspect (item "sla" d) _ h λ a₁ _ h₁.
      >>=-inspect (sla_spec a₁) _ h₁ λ sla _ h₂.
        >>=-inspect (get "stream" d) _ h₂ λ stream_block _ h₃.
          >>=-inspect (get "ingest" d) _ h₃ λ ingest_block _ h₄.
            >>=-inspect
              (guard (truthy (if sla.mode == txt "csv_batch" then ingest_block else stream_block))
                crash)
              _ h₄
              λ u g h₅. >>=-inspect (item "schema_version" d) _ h₅ λ a₂ _ h₆.
                >>=-inspect (as_int int_of a₂) _ h₆ λ version _ h₇.
                  >>=-inspect (text_at "name" d) _ h₇ λ name _ h₈.
                    >>=-inspect (item "domain" d) _ h₈ λ domain _ h₉.
                      >>=-inspect (if_given stream_spec stream_block) _ h₉ λ stream t k₀.
                        >>=-inspect (if_given coerce_csv_ingest ingest_block) _ k₀ λ csv c k₁.
                          >>=-inspect (item "bronze" d) _ k₁ λ b₁ _ k₂.
                            >>=-inspect (bronze_spec b₁) _ k₂ λ b₂ _ k₃.
                              >>=-inspect (item "silver" d) _ k₃ λ s₁ _ k₄.
                                >>=-inspect (silver_spec s₁) _ k₄ λ s₂ _ k₅.
                                  >>=-inspect (item "governance" d) _ k₅ λ v₁ _ k₆.
                                    >>=-inspect (governance_spec int_of v₁) _ k₆ λ v₂ _ k₇.
                                      >>=-inspect (get "used_by_use_cases" d) _ k₇ λ w₁ _ k₈.
                                        >>=-inspect (elements (or_else w₁ (arr nil))) _ k₈
                                          λ w₂ _ k₉.
                                            >>=-inspect (get_or "anchor" (bool false) d) _ k₉
                                              λ w₃ _ last. subst ModeFits (same_spec last) (
                                                fits _ ingest_block stream_block csv stream
                                                  (guard-ok _ _ g) c t)

  coerce_all-ModeFits :
      (files : List Json) (specs : List SourceSpec)
      → coerce_all int_of files ≡ ok specs
      → All ModeFits specs
  unfolding coerce_all
  coerce_all-ModeFits [] specs h = subst (All ModeFits) (same_specs h) tt
  coerce_all-ModeFits (d ∷ files) specs h = >>=-inspect (coerce int_of d) _ h λ s e r.
      >>=-inspect (coerce_all int_of files) _ r λ rest f q.
        subst (All ModeFits) (same_specs q)
          (coerce-ModeFits d s e, coerce_all-ModeFits files rest f)

  -- Of the sources that are loaded, the names, the streams and the bronze tables are different, each
  -- is found under its name, one for CSV uploads says how they are ingested, and each other one has
  -- a stream.
  pub load_all_sources-Loaded :
      (files : Option (List Json)) (specs : List SourceSpec)
      → load_all_sources int_of files ≡ ok specs
      → Loaded specs
  unfolding load_all_sources source_names streams_of tables_of
  load_all_sources-Loaded none specs h =
      subst Loaded (same_specs h)
        (record { names = tt; streams = tt; tables = tt; found = tt; modes = tt })
  load_all_sources-Loaded (some files) specs h =
      >>=-inspect (coerce_all int_of files) _ h λ loaded e r.
        >>=-inspect (validate_uniqueness loaded) _ r λ u v q.
          let (n, t, b) = validate_uniqueness-IsNodup loaded v in
          subst Loaded (same_specs q) (record {
            names = n;
            streams = t;
            tables = b;
            found = get_source_found loaded n;
            modes = coerce_all-ModeFits files loaded e;
          })
