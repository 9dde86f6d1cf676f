-- ===== src/Sync/Policy/Purposes.antt =====
-- The purposes that end up under a glob: those of its tables' tags.
use fresh_stackable_data_pla.Prelude.{
  ◌≡◌, refl, Bool, false, ◌&&◌, ◌||◌, Option, none, some, List, [], ◌∷◌, Text, Dict, text_eq, ◌==◌,
  arith, contains,
}
use fresh_stackable_data_pla.Json.{Json}
use fresh_stackable_data_pla.Effect.Raises.{ok, >>=-inspect}
use fresh_stackable_data_pla.Sync.Policy.Tagged.{
  some_json, is_tagged, contains-add_member, is_tagged-read_table,
}
use fresh_stackable_data_pla.Sync.Policy.{
  add_members, update_glob, read_table, by_glob_of, sorted, insert_sorted, sorted_globs,
  aggregate_resource_purposes,
}

-- The purpose stands under the glob.
unfoldable pub names : Dict Text (List Text) → Text → Text → Bool
names [] g p = false
names ((h, ps) ∷ d) g p = (g == h && contains ps p) || names d g p

contains-add_members :
    (xs out : List Text) (p : Text)
    → contains (add_members xs out) p ≡ (contains xs p || contains out p)
unfolding add_members contains
contains-add_members [] out p = refl
contains-add_members (x ∷ xs) out p =
    ground (arith, contains-add_member x (add_members xs out) p, contains-add_members xs out p)

names-update_glob :
    (g : Text) (db : List Text) (d : Dict Text (List Text)) (h p : Text)
    → names (update_glob g db d) h p ≡ ((h == g && contains db p) || names d h p)
unfolding update_glob names contains
names-update_glob g db [] h p = ground (arith, contains-add_members db [] p)
names-update_glob g db ((j, s) ∷ d) h p =
    ground (arith, names-update_glob g db d h p, contains-add_members db s p)

contains-insert_sorted :
    (x : Text) (xs : List Text) (p : Text)
    → contains (insert_sorted x xs) p ≡ (p == x || contains xs p)
unfolding insert_sorted contains
contains-insert_sorted x [] p = refl
contains-insert_sorted x (y ∷ ys) p = ground (arith, contains-insert_sorted x ys p)

contains-sorted : (xs : List Text) (p : Text) → contains (sorted xs) p ≡ contains xs p
unfolding sorted contains
contains-sorted [] p = refl
contains-sorted (x ∷ xs) p =
    ground (arith, contains-insert_sorted x (sorted xs) p, contains-sorted xs p)

names-sorted_globs :
    (d : Dict Text (List Text)) (g p : Text) → names (sorted_globs d) g p ≡ names d g p
unfolding sorted_globs names contains
names-sorted_globs [] g p = refl
names-sorted_globs ((h, []) ∷ d) g p = ground (arith, names-sorted_globs d g p)
names-sorted_globs ((h, x ∷ s) ∷ d) g p =
    ground (arith, names-sorted_globs d g p, contains-sorted (x ∷ s) p)

names_read :
    (t : Json) (r : Option (Text × List Text)) (ts : List Json) (d m : Dict Text (List Text))
    (g p : Text)
    → ((d' : Dict Text (List Text))
        → by_glob_of ts d' ≡ ok m
        → names m g p ≡ (some_json (is_tagged g p) ts || names d' g p))
    → read_table t ≡ ok r
    → (elim r [ none ↦ by_glob_of ts d | some (glob, db) ↦ by_glob_of ts (update_glob glob db d) ])
      ≡ ok m
    → names m g p ≡ (is_tagged g p t || some_json (is_tagged g p) ts || names d g p)
names_read t none ts d m g p ih e k = ground (arith, e, ih d k, is_tagged-read_table g p t none e)
names_read t (some (glob, db)) ts d m g p ih e k = ground (
  arith,
  ih (update_glob glob db d) k,
  names-update_glob glob db d g p,
  is_tagged-read_table g p t (some (glob, db)) e,
)

names-by_glob_of :
    (ts : List Json) (d m : Dict Text (List Text)) (g p : Text)
    → by_glob_of ts d ≡ ok m
    → names m g p ≡ (some_json (is_tagged g p) ts || names d g p)
unfolding by_glob_of some_json
names-by_glob_of [] d m g p h = ground arith
names-by_glob_of (t ∷ ts) d m g p h =
    >>=-inspect (read_table t) _ h
      λ r e k. names_read t r ts d m g p (λ d' l. names-by_glob_of ts d' m g p l) e k

-- A purpose stands under a glob exactly if the name of one of the tables has that glob, and one of
-- the tags of this table is Doelbinding. and the purpose, in any case.
pub names-aggregate_resource_purposes :
    (tables : List Json) (m : Dict Text (List Text)) (g p : Text)
    → aggregate_resource_purposes tables ≡ ok m
    → names m g p ≡ some_json (is_tagged g p) tables
unfolding aggregate_resource_purposes names
names-aggregate_resource_purposes tables m g p h =
    >>=-inspect (by_glob_of tables []) _ h
      λ d e k. ground (arith, names-sorted_globs d g p, names-by_glob_of tables [] d g p e)
