-- ===== src/Strings/Publish.antt =====
-- Import, and the two indexes of an update: the inverse of the slots.
use server_entry.Prelude.{
  ℕ, ◌-◌, ◌≤◌, ◌≡◌, refl, ap, sym, Bool, true, false, [], ◌∷◌, ◌++◌, append-nil, Option, none, some,
  length, arith, dec_lt, subst,
}
use server_entry.Strings.{
  Status, ok, initialization_failed, invalid_state, artifact_corrupt, Bytes, Slots, Index, Registry,
  lookup, emplace, slot, index_slots, import_slots, id_or_none, next_generation, IsIndex, IsIndexed,
}
use server_entry.Strings
use server_entry.Strings.Index.{
  empty-IsIndex, index_slots-IsIndex, slot-append_left, slot-append_right,
}
use server_entry.Strings.Update.{
  Update, begin_update, is_open, is_current, is_ok, intern, add, prepare_publish, publish_prepared,
  commit, merge,
}
use server_entry.Strings.Update

-- An import that succeeds takes the slots as they are, with an index that is their inverse.
pub import_slots-IsIndexed :
    (allocated : Bool) (values : Slots) (r : Registry)
    → length values ≤ 0xffffffff
    → (import_slots allocated values r).1 ≡ ok
    → ((import_slots allocated values r).0.records ≡ values)
      × IsIndexed (import_slots allocated values r).0
unfolding import_slots
import_slots-IsIndexed false values r l h = absurd (ground arith)
import_slots-IsIndexed true values r l h = go (index_slots 1 values []) refl
  where
    go :
        (o : Option Index)
        → index_slots 1 values [] ≡ o
        → ((import_slots true values r).0.records ≡ values)
          × IsIndexed (import_slots true values r).0
    go none q = absurd (ground (arith, q, h))
    go (some index) q =
        rw (q, import_slots)
          (refl, index_slots-IsIndex values [] [] index (omega arith) empty-IsIndex q)

-- An update that extends the slots of its owner, with the inverse of all of them in two parts.
pub record Extends (r : Registry) (u : Update) : Type 0 where
  pub owner : IsIndexed r
  pub both : IsIndex (r.records ++ u.added_records) (u.added_lookup ++ r.lookup_index)
  pub uncompacted : u.rebuild_compaction_prepared ≡ false

-- An update just begun.
pub begin_update-Extends : (r : Registry) → IsIndexed r → Extends r (begin_update r)
unfolding begin_update
begin_update-Extends r h = record {
  owner = h;
  both = subst (λ t. IsIndex t r.lookup_index) (sym (append-nil r.records)) h;
  uncompacted = refl;
}

abbrev pub or_else : Option ℕ → Option ℕ → Option ℕ
or_else none o = o
or_else (some id) o = some id

pub lookup-append :
    (xs ys : Index) (v : Bytes) → lookup (xs ++ ys) v ≡ or_else (lookup xs v) (lookup ys v)
unfolding lookup
lookup-append [] ys v = refl
lookup-append ((k, n) ∷ xs) ys v = ground (arith, lookup-append xs ys v)

-- The string behind an identifier, in the slots of both.
pub resolve-slot :
    (r : Registry) (u : Update) (id : ℕ)
    → 1 ≤ id
    → Update.resolve r u id ≡ slot (r.records ++ u.added_records) (id - 1)
unfolding Update.resolve Strings.get
resolve-slot r u id p = elim (dec_lt (id - 1) (length r.records)) [
  | yes l ↦ ground (arith, slot-append_left r.records u.added_records (id - 1) l)
  | no g ↦
      let e : id - 1 - length r.records ≡ id - length r.records - 1 = omega arith in
      ground (
        arith,
        slot-append_right r.records u.added_records (id - 1) (omega arith),
        ap (slot u.added_records) e,
      )
]

pub get-slot :
    (r : Registry) (u : Update) (id : ℕ)
    → is_open r u ≡ true
    → 1 ≤ id
    → Update.get r u id ≡ slot (r.records ++ u.added_records) (id - 1)
unfolding Update.get
get-slot r u id o p = ground (arith, o, resolve-slot r u id p)

pub get_positive :
    (r : Registry) (u : Update) (id : ℕ) (v : Bytes)
    → Update.get r u id ≡ some v
    → (1 ≤ id) × (is_open r u ≡ true)
unfolding Update.get
get_positive r u id v h = ground arith

pub find-both :
    (r : Registry) (u : Update) (value : Bytes)
    → is_open r u ≡ true
    → Update.find r u value ≡ id_or_none (lookup (u.added_lookup ++ r.lookup_index) value)
unfolding Update.find Strings.find
find-both r u value o = ground (arith, o, lookup-append u.added_lookup r.lookup_index value)
