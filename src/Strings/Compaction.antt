-- ===== src/Strings/Compaction.antt =====
-- The compaction of a rebuild: which strings it keeps, and under which identifiers.
use server_entry.Prelude.{
  ℕ, zero, suc, ◌+◌, ◌-◌, ◌≡◌, refl, ap, sym, ◌∙◌, Bool, true, false, ◌&&◌, List, [], ◌∷◌, ◌++◌,
  append_assoc, append-nil, Option, none, some, ◌==◌, if◌then◌else◌, length, length-append, get_or,
  Bool-cases, Option-cases, inl, inr, arith, subst,
}
use server_entry.Strings.{
  Status, ok, Bytes, Slots, Index, Registry, emplace, slot, IsIndex, IsIndexed,
}
use server_entry.Strings.Index.{entered, skipped, empty-IsIndex}
use server_entry.Strings.Publish.{Extends, resolve-slot}
use server_entry.Strings.Intern.{not_ok}
use server_entry.Strings.Commit.{appended-IsIndexed}
use server_entry.Strings.Update.{
  adopt, is_empty, Update, Compaction, compacted, refused, with_slot, compact, is_ok,
  get_for_validation, is_current, resolve, prepare_rebuild_compaction, publish_prepared,
  compaction_required, take_compaction,
}

-- What slot `id` holds after a compaction.
abbrev retained_string : List ℕ → Registry → Update → ℕ → Option Bytes
retained_string retained r u id =
    if get_or retained id 0 == 0 then none else get_for_validation r u id

abbrev retained_from : List ℕ → Registry → Update → ℕ → ℕ → Slots
retained_from retained r u id zero = []
retained_from retained r u id (suc left) =
    retained_string retained r u id ∷ retained_from retained r u (id + 1) left

-- A compaction has the slots `slots` and an index of these behind the slots `done`.
abbrev Compacts : Slots → Slots → Compaction → Type 0
Compacts done slots (compacted slots' index) = (slots' ≡ slots) × IsIndex (done ++ slots) index
Compacts done slots (refused status) = is_ok status ≡ false

with_slot-Compacts :
    (done slots : Slots) (s : Option Bytes) (c : Compaction)
    → Compacts (done ++ (s ∷ [])) slots c
    → Compacts done (s ∷ slots) (with_slot s c)
with_slot-Compacts done slots s (compacted slots' index) h =
    (ap (λ t. s ∷ t) h.0, subst (λ t. IsIndex t index) (append_assoc done (s ∷ []) slots) h.1)
with_slot-Compacts done slots s (refused status) h = h

abbrev Behind : List ℕ → Registry → Update → ℕ → Type 0
Behind retained r u left =
    (done : Slots) (index : Index)
    → IsIndex done index
    → Compacts done (retained_from retained r u (length done + 1) left)
        (compact retained r u (length done + 1) left index)

one_more :
    (retained : List ℕ) (r : Registry) (u : Update) (left : ℕ)
    → Behind retained r u left
    → (done : Slots) (s : Option Bytes) (index : Index) → IsIndex (done ++ (s ∷ [])) index
    → Compacts done
        (s ∷ retained_from retained r u (length done + 1 + 1) left)
        (with_slot s (compact retained r u (length done + 1 + 1) left index))
one_more retained r u left behind done s index h =
    let n = length-append done (s ∷ []) in
    let m : length (done ++ (s ∷ [])) + 1 ≡ length done + 1 + 1 = omega arith in
    with_slot-Compacts done (retained_from retained r u (length done + 1 + 1) left) s _ (
      subst
        (λ k.
          Compacts (done ++ (s ∷ [])) (retained_from retained r u k left)
            (compact retained r u k left index))
        m (behind (done ++ (s ∷ [])) index h))

pub compact-Compacts :
    (retained : List ℕ) (r : Registry) (u : Update) (left : ℕ) → Behind retained r u left
unfolding compact
compact-Compacts retained r u zero done index h =
    (refl, subst (λ t. IsIndex t index) (sym (append-nil done)) h)
compact-Compacts retained r u (suc left) done index h =
    let id = length done + 1 in
    elim (Bool-cases (get_or retained id 0 == 0)) [
      | inl z ↦
          rw (z, compact)
            (one_more retained r u left (compact-Compacts retained r u left) done none index
              (skipped done index h))
      | inr k ↦ elim (Option-cases (get_for_validation r u id)) [
        | inl g ↦ rw (k, g, compact) refl
        | inr (v, g) ↦ elim (Option-cases (emplace v id index)) [
          | inl e ↦ rw (k, g, e, compact) refl
          | inr (index', e) ↦
              rw (k, g, e, compact)
                (one_more retained r u left (compact-Compacts retained r u left) done (some v)
                  index' (entered done index index' v h e))
        ]
      ]
    ]

-- The branch of a call that gets to the loop.
compacting :
    (allocated : Bool) (retained : List ℕ) (r : Registry) (u : Update)
    → compaction_required retained 1 (length r.records + length u.added_records) ≡ true
    → (prepare_rebuild_compaction allocated retained r u).1 ≡ ok
    → prepare_rebuild_compaction allocated retained r u
      ≡ take_compaction u (compact retained r u 1 (length r.records + length u.added_records) [])
unfolding prepare_rebuild_compaction
compacting allocated retained r u c h = ground (arith, c, h)

-- What a publication makes of a compaction.
published :
    (r : Registry) (u : Update) (k : Compaction) (slots : Slots)
    → Compacts [] slots k
    → (take_compaction u k).1 ≡ ok
    → ((publish_prepared r (take_compaction u k).0).0.records ≡ slots)
      × IsIndexed (publish_prepared r (take_compaction u k).0).0
unfolding publish_prepared
published r u (compacted slots' index) slots t q = (t.0, subst (λ s. IsIndex s index) (sym t.0) t.1)
published r u (refused status) slots t q = absurd (not_ok status t q)

-- The slots with a tombstone for each that `retained` does not keep, the first having the identifier
-- `id`.
abbrev pub kept_slots : List ℕ → ℕ → Slots → Slots
kept_slots retained id [] = []
kept_slots retained id (s ∷ slots) =
    (if get_or retained id 0 == 0 then none else s) ∷ kept_slots retained (id + 1) slots

slot_behind :
    (before : Slots) (s : Option Bytes) (rest : Slots)
    → slot (before ++ (s ∷ rest)) (length before) ≡ s
slot_behind [] s rest = refl
slot_behind (x ∷ before) s rest = slot_behind before s rest

-- What is retained of an identifier is its slot among those of the owner and the added ones.
retained_string-slot :
    (retained : List ℕ) (r : Registry) (u : Update) (before : Slots) (s : Option Bytes)
    (rest : Slots)
    → is_current r u ≡ true
    → r.records ++ u.added_records ≡ before ++ (s ∷ rest)
    → retained_string retained r u (length before + 1)
      ≡ (if get_or retained (length before + 1) 0 == 0 then none else s)
unfolding get_for_validation
retained_string-slot retained r u before s rest c e =
    let id = length before + 1 in
    let n : (id == 0) ≡ false = ground arith in
    let there : id - 1 ≡ length before = omega arith in
    let found : resolve r u id ≡ s =
      resolve-slot r u id (omega arith)
      ∙ ap (λ k. slot (r.records ++ u.added_records) k) there
      ∙ ap (λ t. slot t (length before)) e
      ∙ slot_behind before s rest in
    rw (c, n, found) refl

retained_from-kept_slots :
    (retained : List ℕ) (r : Registry) (u : Update) (before rest : Slots)
    → is_current r u ≡ true
    → r.records ++ u.added_records ≡ before ++ rest
    → retained_from retained r u (length before + 1) (length rest)
      ≡ kept_slots retained (length before + 1) rest
retained_from-kept_slots retained r u before [] c e = refl
retained_from-kept_slots retained r u before (s ∷ rest) c e =
    let n = length-append before (s ∷ []) in
    let m : length (before ++ (s ∷ [])) + 1 ≡ length before + 1 + 1 = omega (arith, n) in
    let more =
      retained_from-kept_slots retained r u (before ++ (s ∷ [])) rest c
        (e ∙ sym (append_assoc before (s ∷ []) rest)) in
    rw (retained_string-slot retained r u before s rest c e) (
      ap (λ slots. (if get_or retained (length before + 1) 0 == 0 then none else s) ∷ slots)
        (subst (λ k. retained_from retained r u k (length rest) ≡ kept_slots retained k rest) m
          more))

current :
    (allocated : Bool) (retained : List ℕ) (r : Registry) (u : Update)
    → (prepare_rebuild_compaction allocated retained r u).1 ≡ ok
    → is_current r u ≡ true
unfolding prepare_rebuild_compaction
current allocated retained r u h = elim (Bool-cases (is_current r u)) [
  | inl c ↦ c
  | inr c ↦ absurd (ground (arith, c, h))
]

-- A compaction that is asked for and succeeds: the registry that is published has the slots of the
-- owner and behind them the added ones, each at its identifier, with a tombstone for each identifier
-- that `retained` does not keep, and its index is the inverse of these slots.
pub compaction_keeps_slots :
    (allocated : Bool) (retained : List ℕ) (r : Registry) (u : Update)
    → compaction_required retained 1 (length r.records + length u.added_records) ≡ true
    → (prepare_rebuild_compaction allocated retained r u).1 ≡ ok
    → let r' = (publish_prepared r (prepare_rebuild_compaction allocated retained r u).0).0 in
      (r'.records ≡ kept_slots retained 1 (r.records ++ u.added_records)) × IsIndexed r'
compaction_keeps_slots allocated retained r u c h =
    let size = length r.records + length u.added_records in
    let e = compacting allocated retained r u c h in
    let t = compact-Compacts retained r u size [] [] empty-IsIndex in
    let slots : retained_from retained r u 1 size
        ≡ kept_slots retained 1 (r.records ++ u.added_records) =
      ap (retained_from retained r u 1) (sym (length-append r.records u.added_records))
      ∙ retained_from-kept_slots retained r u [] (r.records ++ u.added_records)
          (current allocated retained r u h) refl in
    subst
      (λ p.
        ((publish_prepared r p.0).0.records ≡ kept_slots retained 1 (r.records ++ u.added_records))
        × IsIndexed (publish_prepared r p.0).0)
      (sym e)
      (published r u (compact retained r u 1 size [])
        (kept_slots retained 1 (r.records ++ u.added_records))
        (subst (λ s. Compacts [] s (compact retained r u 1 size [])) slots t)
        (ap (λ p. p.1) (sym e) ∙ h))

abbrev adopting : Registry → Update → Update × Status
adopting r u = (adopt r u, ok)

keeping :
    (allocated : Bool) (retained : List ℕ) (r : Registry) (u : Update)
    → compaction_required retained 1 (length r.records + length u.added_records) ≡ false
    → (prepare_rebuild_compaction allocated retained r u).1 ≡ ok
    → prepare_rebuild_compaction allocated retained r u ≡ adopting r u
unfolding prepare_rebuild_compaction
keeping allocated retained r u c h = ground (arith, c, h)

empty_list : {A : Type 0} (xs : List A) → is_empty xs ≡ true → xs ≡ []
empty_list [] h = refl
empty_list (x ∷ xs) h = ground arith

adopted :
    (r : Registry) (u : Update)
    → Extends r u
    → ((publish_prepared r (adopt r u)).0.records ≡ r.records ++ u.added_records)
      × IsIndexed (publish_prepared r (adopt r u)).0
unfolding adopt publish_prepared
adopted r u x = elim (Bool-cases (is_empty r.records && is_empty r.lookup_index)) [
  | inl e ↦
      let a = empty_list r.records (ground (arith, e)) in
      let b = empty_list r.lookup_index (ground (arith, e)) in
      rw e (sym (ap (λ t. t ++ u.added_records) a), only a b)
  | inr n ↦ rw (n, x.uncompacted) (refl, appended-IsIndexed r u x)
]
  where
    only : r.records ≡ [] → r.lookup_index ≡ [] → IsIndex u.added_records u.added_lookup
    only a b =
        subst (λ t. IsIndex u.added_records t) (append-nil u.added_lookup)
          (subst (λ t. IsIndex u.added_records (u.added_lookup ++ t)) b
            (subst (λ t. IsIndex (t ++ u.added_records) (u.added_lookup ++ r.lookup_index)) a
              x.both))

-- Where every string is retained, the compaction drops none: the published registry has the slots
-- of the owner and the added ones behind them, and its index is their inverse.
pub nothing_dropped :
    (allocated : Bool) (retained : List ℕ) (r : Registry) (u : Update)
    → Extends r u
    → compaction_required retained 1 (length r.records + length u.added_records) ≡ false
    → (prepare_rebuild_compaction allocated retained r u).1 ≡ ok
    → let r' = (publish_prepared r (prepare_rebuild_compaction allocated retained r u).0).0 in
      (r'.records ≡ r.records ++ u.added_records) × IsIndexed r'
nothing_dropped allocated retained r u x c h =
    subst
      (λ p.
        ((publish_prepared r p.0).0.records ≡ r.records ++ u.added_records)
        × IsIndexed (publish_prepared r p.0).0)
      (sym (keeping allocated retained r u c h)) (adopted r u x)
