-- ===== src/Contributions/Remap.antt =====
-- remap_new_entities of source_contribution_cache.cpp: the candidates of new entities move to the
-- ids that they get in the end.
use server_entry.Prelude.{
  ℕ, ◌+◌, ◌-◌, ◌<◌, Bool, true, false, not, ◌&&◌, ◌||◌, List, [], ◌∷◌, none, some, ltb, leb, ◌==◌,
  if◌then◌else◌, length, get_or, set_at, set_elsewhere, contains, ◌≡◌, refl, sym, ◌∙◌, ap, arith,
  Bool-cases, inl, inr,
}
use server_entry.Strings.{Status, ok, initialization_failed, invalid_state}
use server_entry.Contributions.{Cache, EntityState, Slot, free_slot, no_entity_state}
use server_entry.Contributions.Update.{Update, is_marked, marked_at, candidate_of, candidate_entity}
use server_entry.Contributions.Tracked.{Tracked, candidate_of_by}
use server_entry.Contributions.Slots.{get_or-marked_at}

-- remapped_entity: a target and the slot that moves to it.
abbrev pub Moved : Type 0
Moved = ℕ × Slot EntityState

-- The first loop from the id `raw` on: the slots that are left, and those that move.
unfoldable pub take_out :
    ℕ → ℕ → List ℕ → List (Slot EntityState) → List (Slot EntityState) × List Moved
take_out generation raw [] slots = (slots, [])
take_out generation raw (target ∷ targets) slots =
    let slot = get_or slots raw (free_slot no_entity_state) in
    let marked = is_marked no_entity_state generation raw slots in
    let slots' = if marked then set_at raw (free_slot no_entity_state) slots else slots in
    let rest = take_out generation (raw + 1) targets slots' in
    (rest.0, if marked && not (target == 0) then (target, slot) ∷ rest.1 else rest.1)

-- The second loop, from its round `step` on. `has_grown` says of each round whether its growth finds
-- memory; the loop stops where one does not.
unfoldable pub put_in :
    (ℕ → Bool) → ℕ → ℕ → List Moved → List (Slot EntityState) → List (Slot EntityState) × Bool
put_in has_grown step generation [] slots = (slots, true)
put_in has_grown step generation ((target, slot) ∷ moved) slots =
    let rest =
      put_in has_grown (step + 1) generation moved
        (marked_at no_entity_state generation target slot.value slots) in
    if leb (length slots) target && not (has_grown step) then (slots, false) else rest

-- The new id of an entity, 0 where it is dropped.
abbrev pub renamed : ℕ → List ℕ → ℕ → ℕ
renamed base targets id =
    if leb base id && ltb id (base + length targets) then get_or targets (id - base) 0 else id

-- The third loop, and the erasure of zeros.
unfoldable pub rename_all : ℕ → List ℕ → List ℕ → List ℕ
rename_all base targets [] = []
rename_all base targets (id ∷ ids) =
    let rest = rename_all base targets ids in
    let new = renamed base targets id in if new == 0 then rest else new ∷ rest

-- `allocated` says whether `previous.reserve` finds memory, `has_grown` which of the growths do.
unfoldable pub remap_new_entities :
    Bool → (ℕ → Bool) → ℕ → List ℕ → Cache → Update → Cache × Update × Status
remap_new_entities allocated has_grown base targets c u =
    let out = take_out u.candidate_generation base targets c.candidate_entities in
    let placed = put_in has_grown 0 u.candidate_generation out.1 out.0 in
    let c' = record c { candidate_entities = placed.0 } in
    if not u.has_owner || (u.prepared || u.committed_update)
    then (c, record u { failure = invalid_state }, invalid_state)
    else if not allocated
    then (c, record u { failure = initialization_failed }, initialization_failed)
    else if not placed.1
    then (c', record u { failure = initialization_failed }, initialization_failed)
    else (c', record u { changed_entities = rename_all base targets u.changed_entities }, ok)

abbrev at : List (Slot EntityState) → ℕ → Slot EntityState
at slots i = get_or slots i (free_slot no_entity_state)

take_out_apart :
    (g raw : ℕ) (targets : List ℕ) (slots : List (Slot EntityState)) (j : ℕ)
    → (leb raw j && ltb j (raw + length targets)) ≡ false
    → at (take_out g raw targets slots).0 j ≡ at slots j
unfolding take_out
take_out_apart g raw [] slots j h = refl
take_out_apart g raw (t ∷ ts) slots j h =
    elim (Bool-cases (is_marked no_entity_state g raw slots)) [
      | inl m ↦ rw m (
          take_out_apart g (raw + 1) ts (set_at raw (free_slot no_entity_state) slots) j
            (ground (arith, h))
          ∙ set_elsewhere (free_slot no_entity_state) (free_slot no_entity_state) raw j slots
              (ground (arith, h)))
      | inr m ↦ rw m (take_out_apart g (raw + 1) ts slots j (ground (arith, h)))
    ]

-- No slot moves to `j`.
abbrev Apart : ℕ → List Moved → Type 0
Apart j [] = Unit
Apart j (x ∷ xs) = ((x.0 == j) ≡ false) × Apart j xs

take_out-Apart :
    (g raw : ℕ) (targets : List ℕ) (slots : List (Slot EntityState)) (j : ℕ)
    → contains j targets ≡ false
    → Apart j (take_out g raw targets slots).1
unfolding take_out
take_out-Apart g raw [] slots j h = tt
take_out-Apart g raw (t ∷ ts) slots j h =
    let marked = is_marked no_entity_state g raw slots in
    let slots' = if marked then set_at raw (free_slot no_entity_state) slots else slots in
    let rest = take_out-Apart g (raw + 1) ts slots' j (ground (arith, h)) in
    elim (Bool-cases (marked && not (t == 0))) [
      | inl m ↦ rw m (ground (arith, h), rest)
      | inr m ↦ rw m rest
    ]

put_in-Apart :
    (has_grown : ℕ → Bool) (step g : ℕ) (moved : List Moved) (slots : List (Slot EntityState))
    (j : ℕ)
    → Apart j moved
    → at (put_in has_grown step g moved slots).0 j ≡ at slots j
unfolding put_in
put_in-Apart has_grown step g [] slots j a = refl
put_in-Apart has_grown step g ((t, s) ∷ moved) slots j (n, a) =
    elim (Bool-cases (leb (length slots) t && not (has_grown step))) [
      | inl m ↦ rw m refl
      | inr m ↦ rw m (
          put_in-Apart has_grown (step + 1) g moved (marked_at no_entity_state g t s.value slots) j
            a
          ∙ get_or-marked_at no_entity_state g t s.value slots j
          ∙ rw n refl)
    ]

candidate_kept :
    (g e : ℕ) (slots slots' : List (Slot EntityState))
    → 0 < g
    → at slots e ≡ at slots' e
    → candidate_of no_entity_state g e slots ≡ candidate_of no_entity_state g e slots'
candidate_kept g e slots slots' p same =
    candidate_of_by no_entity_state g e slots p
    ∙ ap (λ s. if s.generation == g then some s.value else none) same
    ∙ sym (candidate_of_by no_entity_state g e slots' p)

-- For an update that tracks its candidates, an entity that is neither renumbered nor the target of
-- a renumbering keeps its candidate, whether remap_new_entities succeeds, is refused or runs out of
-- memory half way; the published states and the candidates of the sources stay as they were in any
-- case.
pub remap_new_entities_apart :
    (allocated : Bool) (has_grown : ℕ → Bool) (base : ℕ) (targets : List ℕ) (c : Cache) (u : Update)
    (e : ℕ)
    → Tracked c u
    → (leb base e && ltb e (base + length targets)) ≡ false
    → contains e targets ≡ false
    → (candidate_entity e
          (remap_new_entities allocated has_grown base targets c u).0
          (remap_new_entities allocated has_grown base targets c u).1
        ≡ candidate_entity e c u)
      × ((remap_new_entities allocated has_grown base targets c u).0.states ≡ c.states)
      × ((remap_new_entities allocated has_grown base targets c u).0.entity_states
          ≡ c.entity_states)
      × ((remap_new_entities allocated has_grown base targets c u).0.candidates ≡ c.candidates)
unfolding remap_new_entities candidate_entity
remap_new_entities_apart allocated has_grown base targets c u e t outside fresh =
    let g = u.candidate_generation in
    let out = take_out g base targets c.candidate_entities in
    let placed = put_in has_grown 0 g out.1 out.0 in
    let same : at placed.0 e ≡ at c.candidate_entities e =
      put_in-Apart has_grown 0 g out.1 out.0 e
        (take_out-Apart g base targets c.candidate_entities e fresh)
      ∙ take_out_apart g base targets c.candidate_entities e outside in
    let kept = candidate_kept g e placed.0 c.candidate_entities t.positive same in
    let moved = ap (λ o. if not u.has_owner || e == 0 then none else o) kept in
    elim (Bool-cases (not u.has_owner || (u.prepared || u.committed_update))) [
      | inl z ↦ rw z (refl, refl, refl, refl)
      | inr z ↦ elim (Bool-cases allocated) [
        | inr a ↦ rw (z, a) (refl, refl, refl, refl)
        | inl a ↦ elim (Bool-cases placed.1) [
          | inr p ↦ rw (z, a, p) (moved, refl, refl, refl)
          | inl p ↦ rw (z, a, p) (moved, refl, refl, refl)
        ]
      ]
    ]
