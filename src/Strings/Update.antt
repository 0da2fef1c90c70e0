-- ===== src/Strings/Update.antt =====
-- string_registry_update: new strings beside a registry, their publication, and the compaction of a
-- rebuild. The owner is an argument, and `has_owner` is the test for a null pointer.
use server_entry.Prelude.{
  ℕ, zero, suc, ◌+◌, ◌-◌, Bool, true, false, not, ◌&&◌, ◌||◌, List, [], ◌∷◌, ◌++◌, Option, none,
  some, ltb, leb, ◌==◌, if◌then◌else◌, length, get_or,
}
use server_entry.Strings.{
  Status, ok, initialization_failed, configuration_failed, invalid_state, Bytes, Slots, Index,
  Registry, lookup, emplace, id_or_none, slot, next_generation,
}
use server_entry.Strings

pub record Update : Type 0 where
  pub has_owner : Bool
  pub added_records : Slots
  pub added_lookup : Index
  pub rebuilt_records : Slots
  pub rebuilt_lookup : Index
  pub base_generation : ℕ
  pub failure : Status
  pub committed : Bool
  pub prepared : Bool
  pub rebuild_compaction_prepared : Bool

unfoldable pub begin_update : Registry → Update
begin_update r = record {
  has_owner = true;
  added_records = [];
  added_lookup = [];
  rebuilt_records = [];
  rebuilt_lookup = [];
  base_generation = r.generation;
  failure = ok;
  committed = false;
  prepared = false;
  rebuild_compaction_prepared = false;
}

-- The move constructor: the new update and what is left of the old one.
unfoldable pub move : Update → Update × Update
move u = (
  u,
  record u {
    has_owner = false;
    added_records = [];
    added_lookup = [];
    rebuilt_records = [];
    rebuilt_lookup = [];
  },
)

-- `!(owner == nullptr || committed || owner->generation != base_generation)`
unfoldable pub is_current : Registry → Update → Bool
is_current r u = u.has_owner && (not u.committed && r.generation == u.base_generation)

-- The same, and not prepared.
unfoldable pub is_open : Registry → Update → Bool
is_open r u = is_current r u && not u.prepared

unfoldable pub find : Registry → Update → Bytes → ℕ
find r u value =
    if not (is_open r u)
    then 0
    else elim (lookup u.added_lookup value) [ none ↦ Strings.find r value | some id ↦ id ]

abbrev pub is_ok : Status → Bool
is_ok ok = true
is_ok s = false

abbrev pub fail : Status → Update → Update × Status
fail s u = (record u { failure = s }, s)

-- `intern` behind the test for a known string.
unfoldable pub add : Bool → Bytes → ℕ → Update → Update × Status × ℕ
add allocated value next u =
    if ltb 0xffffffff next || not allocated
    then (record u { failure = initialization_failed }, initialization_failed, 0)
    else elim (emplace value next u.added_lookup) [
      | none ↦ (u, ok, id_or_none (lookup u.added_lookup value))
      | some index ↦ (
        record u { added_records = u.added_records ++ (some value ∷ []); added_lookup = index },
        ok,
        next,
      )
    ]

-- The update afterwards, the status, and `result`.
unfoldable pub intern : Bool → Bytes → Registry → Update → Update × Status × ℕ
intern allocated value r u =
    if not (is_ok u.failure)
    then (u, u.failure, 0)
    else if not (is_open r u)
    then (u, invalid_state, 0)
    else if not (find r u value == 0)
    then (u, ok, find r u value)
    else add allocated value (length r.records + length u.added_records + 1) u

-- The string of an identifier, of the owner or added.
unfoldable pub resolve : Registry → Update → ℕ → Option Bytes
resolve r u id =
    if leb id (length r.records)
    then Strings.get r id
    else slot u.added_records (id - length r.records - 1)

unfoldable pub get : Registry → Update → ℕ → Option Bytes
get r u id = if id == 0 || not (is_open r u) then none else resolve r u id

unfoldable pub get_for_validation : Registry → Update → ℕ → Option Bytes
get_for_validation r u id = if id == 0 || not (is_current r u) then none else resolve r u id

unfoldable pub prepare_publish : Bool → Registry → Update → Update × Status
prepare_publish allocated r u =
    if not (is_ok u.failure)
    then (u, u.failure)
    else if not u.has_owner || (u.committed || u.prepared)
    then (u, invalid_state)
    else if not (u.base_generation == r.generation)
    then fail invalid_state u
    else if not allocated
    then fail initialization_failed u
    else (record u { prepared = true }, ok)

-- `for (value = 1; value <= candidate_size; ++value)`: whether a string is not retained.
unfoldable pub compaction_required : List ℕ → ℕ → ℕ → Bool
compaction_required retained value zero = false
compaction_required retained value (suc left) =
    get_or retained value 0 == 0 || compaction_required retained (value + 1) left

-- What the compaction loop ends with.
pub data Compaction : Type 0 where
  compacted : Slots → Index → Compaction
  refused : Status → Compaction

abbrev pub with_slot : Option Bytes → Compaction → Compaction
with_slot s (compacted slots index) = compacted (s ∷ slots) index
with_slot s (refused status) = refused status

-- The loop from the identifier `id` on, with `left` slots to go.
unfoldable pub compact : List ℕ → Registry → Update → ℕ → ℕ → Index → Compaction
compact retained r u id zero index = compacted [] index
compact retained r u id (suc left) index =
    let dropped = with_slot none (compact retained r u (id + 1) left index) in
    let kept : Compaction = elim (get_for_validation r u id) [
      | none ↦ refused configuration_failed
      | some value ↦ elim (emplace value id index) [
        | none ↦ refused invalid_state
        | some index' ↦ with_slot (some value) (compact retained r u (id + 1) left index')
      ]
    ] in
    if get_or retained id 0 == 0 then dropped else kept

abbrev pub is_empty : {A : Type 0} → List A → Bool
is_empty [] = true
is_empty (x ∷ xs) = false

-- Where nothing is dropped: an empty owner is to take the added strings by swaps.
unfoldable pub adopt : Registry → Update → Update
adopt r u =
    if is_empty r.records && is_empty r.lookup_index
    then record u {
      rebuilt_records = u.added_records;
      rebuilt_lookup = u.added_lookup;
      added_records = u.rebuilt_records;
      added_lookup = u.rebuilt_lookup;
      rebuild_compaction_prepared = true;
    }
    else u

abbrev pub take_compaction : Update → Compaction → Update × Status
take_compaction u (refused status) = fail status u
take_compaction u (compacted slots index) = (
  record u { rebuilt_records = slots; rebuilt_lookup = index; rebuild_compaction_prepared = true },
  ok,
)

-- A refused compaction leaves the rebuilt containers out of use.
unfoldable pub prepare_rebuild_compaction : Bool → List ℕ → Registry → Update → Update × Status
prepare_rebuild_compaction allocated retained r u =
    let candidate_size = length r.records + length u.added_records in
    if not (is_ok u.failure)
    then (u, u.failure)
    else if not (is_current r u) || (not u.prepared || u.rebuild_compaction_prepared)
    then fail invalid_state u
    else if leb (length retained) candidate_size
    then fail invalid_state u
    else if not (compaction_required retained 1 candidate_size)
    then (adopt r u, ok)
    else if not allocated
    then fail initialization_failed u
    else take_compaction u (compact retained r u 1 candidate_size [])

-- `lookup_index.merge(added_lookup)`: the entries that the index lacks.
unfoldable pub merge : Index → Index → Index
merge [] index = index
merge ((key, id) ∷ added) index = elim (lookup index key) [
  | none ↦ merge added ((key, id) ∷ index)
  | some old ↦ merge added index
]

-- For a prepared update that is not committed.
unfoldable pub publish_prepared : Registry → Update → Registry × Update
publish_prepared r u =
    if u.rebuild_compaction_prepared
    then (
      record {
        records = u.rebuilt_records;
        lookup_index = u.rebuilt_lookup;
        generation = next_generation r.generation;
      },
      record u {
        rebuilt_records = r.records;
        rebuilt_lookup = r.lookup_index;
        added_records = [];
        added_lookup = [];
        committed = true;
      },
    )
    else (
      record {
        records = r.records ++ u.added_records;
        lookup_index = merge u.added_lookup r.lookup_index;
        generation = next_generation r.generation;
      },
      record u { added_records = []; added_lookup = []; committed = true },
    )

unfoldable pub commit : Bool → Registry → Update → Registry × Update × Status
commit allocated r u =
    let (u', result) = prepare_publish allocated r u in
    if is_ok result
    then (let (r', u'') = publish_prepared r u' in (r', u'', ok))
    else (r, u', result)

unfoldable pub cancel : Update → Update
cancel u = if u.committed then u else record u { prepared = true; failure = invalid_state }
