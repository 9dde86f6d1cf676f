-- ===== src/Enrich/Patch/Requests.antt =====
-- The single requests of the enricher: what each may send, and that a table that is read is answered.
use Prim.{tt}
use fresh_stackable_data_pla.Prelude.{
  ℕ, ◌≡◌, true, false, nat_eq, ◌==◌, arith, Option, none, some, List, Text, is_empty, All,
  Bool-cases, inl, inr,
}
use fresh_stackable_data_pla.Json.{Json, item}
use fresh_stackable_data_pla.Effect.{ok}
use fresh_stackable_data_pla.Effect.Keeps.{
  Keeps, keeps, per_option-Keeps, >>=-Keeps, lift-Keeps, pure-Keeps, gets-Keeps, if-Keeps,
  modify-Keeps, lift->>=-Keeps,
}
use fresh_stackable_data_pla.Effect.Gives.{Gives, pure-Gives, if-Gives, >>=-Gives, lift->>=-Gives}
use fresh_stackable_data_pla.Effect.Zoom.{zoom-Keeps, zoom-Gives}
use fresh_stackable_data_pla.Http.{Reply, Remote, json_of}
use fresh_stackable_data_pla.Http.Sent.{Sent, send-Sent, send-Gives}
use fresh_stackable_data_pla.Enrich.Columns.{Op}
use fresh_stackable_data_pla.Enrich.Refs.{
  Call, Kind, domain, data_product, cache_domain, cache_product, read_table, read_entity, patch,
  World, send, get_table, lookup_entity_id, domain_ref, dataproduct_ref, patch_table,
}
use fresh_stackable_data_pla.Enrich.Patch.Places.{MayWrite}

-- A table as OpenMetadata answered it, with status 200, to a request for a table.
pub record IsAnswered (remote : Remote Call) (table : Json) : Type 0 where
  pub fqn : Text
  pub earlier : List Call
  pub reply : Reply
  pub answer : remote earlier (read_table fqn) ≡ some reply
  pub success : reply.status ≡ 200
  pub holds : reply.body ≡ some table

-- Of what is sent, only patches write: no empty one, and each only what it may in a table that
-- OpenMetadata answered, whose id it names.
abbrev pub MaySend : Remote Call → Call → Type 0
MaySend remote (read_table fqn) = Unit
MaySend remote (read_entity kind name) = Unit
MaySend remote (patch id ops) =
    (is_empty ops ≡ false)
    × ((table : Json) × IsAnswered remote table
        × (item "id" table ≡ ok id)
        × All (MayWrite table) ops)

abbrev pub Kept : Remote Call → List Call → World → Type 0
Kept remote log w = Sent (MaySend remote) log w.log

-- A table that was found was answered.
abbrev pub IsFound : Remote Call → Option Json → Type 0
IsFound remote none = Unit
IsFound remote (some table) = IsAnswered remote table

body_of : (r : Reply) (v : Json) → json_of r ≡ ok v → r.body ≡ some v
unfolding json_of
body_of r v h = ground (arith, h)

is_200 : (n : ℕ) → (n == 200) ≡ true → n ≡ 200
is_200 n h = ground (arith, h)

module _ (remote : Remote Call) (log : List Call) where
  request-Kept : (c : Call) → MaySend remote c → Keeps (Kept remote log) (send remote c)
  unfolding send
  request-Kept c m = zoom-Keeps _ _ (λ s r. r) (λ t s r p. p) (send-Sent remote c m)

  pub get_table-Gives :
      (fqn : Text) → Gives (Kept remote log) (IsFound remote) (get_table remote fqn)
  unfolding get_table send
  get_table-Gives fqn =
      >>=-Gives (zoom-Gives _ _ (λ s r. r) (λ t s r p. p) (send-Gives remote (read_table fqn) tt))
        λ r (earlier, e).
          if-Gives (r.status == 200)
            (λ q. lift->>=-Gives _ λ table b. pure-Gives _ (record {
              fqn = fqn;
              earlier = earlier;
              reply = r;
              answer = e;
              success = is_200 r.status q;
              holds = body_of r table b;
            }))
            (λ q. pure-Gives none tt)

  pub lookup_entity_id-Kept :
      (kind : Kind) (name : Text) → Keeps (Kept remote log) (lookup_entity_id remote kind name)
  unfolding lookup_entity_id
  lookup_entity_id-Kept kind name =
      >>=-Keeps (request-Kept (read_entity kind name) tt) λ r. search (keeps)

  pub domain_ref-Kept : (name : Text) → Keeps (Kept remote log) (domain_ref remote name)
  unfolding domain_ref cache_domain
  domain_ref-Kept name = >>=-Keeps (gets-Keeps _) λ cached.
      per_option-Keeps cached
        (>>=-Keeps (request-Kept (read_entity domain name) tt) λ r. if-Keeps _ (pure-Keeps _) (
          >>=-Keeps (lift-Keeps _) λ body.
            >>=-Keeps (lift-Keeps _) λ id. >>=-Keeps (modify-Keeps _ λ w k. k) λ u. pure-Keeps _))
        (λ ref. pure-Keeps _)

  pub dataproduct_ref-Kept : (name : Text) → Keeps (Kept remote log) (dataproduct_ref remote name)
  unfolding dataproduct_ref cache_product
  dataproduct_ref-Kept name = >>=-Keeps (gets-Keeps _) λ cached.
      per_option-Keeps cached
        (>>=-Keeps (request-Kept (read_entity data_product name) tt) λ r.
          if-Keeps _ (pure-Keeps _) (
            >>=-Keeps (lift-Keeps _) λ body.
              >>=-Keeps (lift-Keeps _) λ id. >>=-Keeps (modify-Keeps _ λ w k. k) λ u. pure-Keeps _))
        (λ ref. pure-Keeps _)

  pub patch_table-Kept :
      (table : Json) (ops : List Op)
      → IsAnswered remote table
      → All (MayWrite table) ops
      → Keeps (Kept remote log) (patch_table remote table ops)
  unfolding patch_table
  patch_table-Kept table ops known may = elim (Bool-cases (is_empty ops)) [
    | inl e ↦ rw e (pure-Keeps _)
    | inr e ↦ rw e (
        lift->>=-Keeps _ λ id i.
          >>=-Keeps (request-Kept (patch id ops) (e, (table, known, i, may)))
            λ r. if-Keeps _ (pure-Keeps _) (>>=-Keeps (lift-Keeps _) λ name. pure-Keeps _))
  ]
