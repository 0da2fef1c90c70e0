-- ===== src/Contributions/Touched.antt =====
-- touch_entity of source_contribution_cache.cpp on every branch.
use server_entry.Prelude.{◌≢◌, ltb, length, sym}
use server_entry.Prelude.{
  ℕ, Bool, true, false, not, ◌||◌, [], ◌∷◌, ◌++◌, Option, none, some, ◌==◌, if◌then◌else◌, get_or,
  ◌≡◌, ◌⊎◌, refl, ◌∙◌, ap, arith, Bool-cases, inl, inr,
}
use server_entry.Contributions.{Cache, EntityState, Slot, free_slot, no_entity_state}
use server_entry.Contributions.Update.{
  Update, is_marked, candidate_of, candidate_entity, touch_entity, Touched, base_entity,
  entered_entity,
}
use server_entry.Contributions.Slots.{get_or_beyond}
use server_entry.Contributions.Tracked.{
  Tracked, Fresh-marked_at, Tracks-marked_at, candidate_of-marked_at,
}

-- What a candidate is to hold: what it held before, and else, in a rebuild, an empty state, and in an
-- incremental build what is published for the entity, which is an empty state behind the end.
abbrev pub touched_state : Bool → Option EntityState → EntityState → EntityState
touched_state full (some state) published = state
touched_state true none published = no_entity_state
touched_state false none published = published

pub record IsTouched (entity : ℕ) (c : Cache) (u : Update) (r : Touched) : Type 0 where
  pub accepted : r.touched ≡ true
  pub state :
      candidate_entity entity r.cache r.update
      ≡ some (
          touched_state u.full_reconstruction
            (candidate_entity entity c u)
            (get_or c.entity_states entity no_entity_state))
  pub others :
      (e : ℕ) → (entity == e) ≡ false → candidate_entity e r.cache r.update ≡ candidate_entity e c u
  pub unpublished : (r.cache.states ≡ c.states) × (r.cache.entity_states ≡ c.entity_states)
  pub tracked : Tracked r.cache r.update
  pub usable : (entity ≢ 0) × (u.prepared ≡ false) × (u.committed_update ≡ false)

-- Why touch_entity throws: there is no entity, the update is prepared or committed, or one of the
-- two insertions finds no memory.
abbrev pub Reason : Bool → Bool → ℕ → Update → Type 0
Reason has_grown recorded entity u =
    (entity ≡ 0)
    ⊎ (u.prepared ≡ true)
    ⊎ (u.committed_update ≡ true)
    ⊎ (has_grown ≡ false)
    ⊎ (recorded ≡ false)

pub record IsThrown (c : Cache) (u : Update) (r : Touched) : Type 0 where
  pub thrown : r.touched ≡ false
  pub update : r.update ≡ u
  pub unpublished : (r.cache.states ≡ c.states) × (r.cache.entity_states ≡ c.entity_states)

-- The start of a candidate, where there is none.
base_entity_lem :
    (entity : ℕ) (c : Cache) (u : Update)
    → base_entity entity c u
      ≡ touched_state u.full_reconstruction none (get_or c.entity_states entity no_entity_state)
base_entity_lem entity c u = elim (Bool-cases u.full_reconstruction) [
  | inl f ↦ rw f refl
  | inr f ↦ elim (Bool-cases (ltb entity (length c.entity_states))) [
    | inl l ↦ rw (f, l) refl
    | inr l ↦
        rw (f, l) (sym (get_or_beyond no_entity_state c.entity_states entity (ground (arith, l))))
  ]
]

abbrev candidate_slot : ℕ → Cache → Slot EntityState
candidate_slot entity c = get_or c.candidate_entities entity (free_slot no_entity_state)

abbrev marked : ℕ → Cache → Update → Bool
marked entity c u = is_marked no_entity_state u.candidate_generation entity c.candidate_entities

candidate_entity_when :
    (entity : ℕ) (c : Cache) (u : Update)
    → u.has_owner ≡ true
    → (entity == 0) ≡ false
    → candidate_entity entity c u
      ≡ candidate_of no_entity_state u.candidate_generation entity c.candidate_entities
unfolding candidate_entity
candidate_entity_when entity c u o n = rw (o, n) refl

abbrev is_closed : ℕ → Update → Bool
is_closed entity u = not u.has_owner || (entity == 0 || (u.prepared || u.committed_update))

known-IsTouched :
    (entity : ℕ) (c : Cache) (u : Update)
    → Tracked c u
    → is_closed entity u ≡ false
    → marked entity c u ≡ true
    → IsTouched entity c u (record { cache = c; update = u; touched = true })
known-IsTouched entity c u t z m =
    let n : (entity == 0) ≡ false = ground (arith, z) in
    record {
      accepted = refl;
      usable = ((λ q. ground (arith, z, q)), ground (arith, z), ground (arith, z));
      state =
          let old : candidate_entity entity c u ≡ some (candidate_slot entity c).value =
            candidate_entity_when entity c u t.owner n ∙ rw m refl in
          rw old refl;
      others = λ e h. refl;
      unpublished = (refl, refl);
      tracked = t;
    }

new_state :
    (entity : ℕ) (c : Cache) (u : Update)
    → Tracked c u
    → (entity == 0) ≡ false
    → marked entity c u ≡ false
    → candidate_entity entity
        (entered_entity entity c u)
        (record u { changed_entities = u.changed_entities ++ (entity ∷ []) })
      ≡ some (
          touched_state u.full_reconstruction
            (candidate_entity entity c u)
            (get_or c.entity_states entity no_entity_state))
new_state entity c u t n m =
    let old : candidate_entity entity c u ≡ none =
      candidate_entity_when entity c u t.owner n ∙ rw m refl in
    let new : (if entity == entity
          then some (base_entity entity c u)
          else candidate_of no_entity_state u.candidate_generation entity c.candidate_entities)
        ≡ some (base_entity entity c u) =
      ground arith in
    candidate_entity_when entity (entered_entity entity c u)
      (record u { changed_entities = u.changed_entities ++ (entity ∷ []) }) t.owner n
    ∙ candidate_of-marked_at no_entity_state u.candidate_generation entity (base_entity entity c u)
        c.candidate_entities entity t.positive
    ∙ new
    ∙ rw old (ap some (base_entity_lem entity c u))

new-IsTouched :
    (entity : ℕ) (c : Cache) (u : Update)
    → Tracked c u
    → is_closed entity u ≡ false
    → marked entity c u ≡ false
    → IsTouched entity c u (record {
      cache = entered_entity entity c u;
      update = record u { changed_entities = u.changed_entities ++ (entity ∷ []) };
      touched = true;
    })
unfolding candidate_entity
new-IsTouched entity c u t z m =
    let n : (entity == 0) ≡ false = ground (arith, z) in
    let base = base_entity entity c u in
    let new =
      candidate_of-marked_at no_entity_state u.candidate_generation entity base
        c.candidate_entities in
    record {
      accepted = refl;
      usable = ((λ q. ground (arith, z, q)), ground (arith, z), ground (arith, z));
      state = new_state entity c u t n m;
      others = λ e h.
          ap (λ o. if not u.has_owner || e == 0 then none else o) (new e t.positive ∙ rw h refl);
      unpublished = (refl, refl);
      tracked = record {
        owner = t.owner;
        positive = t.positive;
        current = t.current;
        sources = t.sources;
        entities =
            Tracks-marked_at no_entity_state u.candidate_generation entity base u.changed_entities
              c.candidate_entities t.positive m t.entities;
        fresh = record {
          started = t.fresh.started;
          sources = t.fresh.sources;
          entities =
              Fresh-marked_at no_entity_state c.next_candidate_generation u.candidate_generation
                entity base c.candidate_entities t.current t.fresh.entities;
        };
      };
    }

closed_by :
    (has_grown recorded : Bool) (entity : ℕ) (u : Update)
    → u.has_owner ≡ true
    → is_closed entity u ≡ true
    → Reason has_grown recorded entity u
closed_by has_grown recorded entity u o z = elim (Bool-cases u.prepared) [
  | inl p ↦ inr (inl p)
  | inr p ↦ elim (Bool-cases u.committed_update) [
    | inl m ↦ inr (inr (inl m))
    | inr m ↦ inl (ground (arith, z, o, p, m))
  ]
]

-- touch_entity, for an update that tracks its candidates. The update was open, and there is an
-- entity: it has a candidate then, which holds what it held before, and else a copy of the
-- published state (in a rebuild an empty state); the other candidates and the published states
-- stay, and the invariant is kept. Or there is a reason to throw, and the update and the published
-- states are as they were.
pub touch_entity-IsTouched :
    (has_grown recorded : Bool) (entity : ℕ) (c : Cache) (u : Update)
    → Tracked c u
    → IsTouched entity c u (touch_entity has_grown recorded entity c u)
      ⊎ (IsThrown c u (touch_entity has_grown recorded entity c u)
          × Reason has_grown recorded entity u)
unfolding touch_entity
touch_entity-IsTouched has_grown recorded entity c u t = elim (Bool-cases (is_closed entity u)) [
  | inl z ↦ inr (
    rw z (record { thrown = refl; update = refl; unpublished = (refl, refl) }),
    closed_by has_grown recorded entity u t.owner z,
  )
  | inr z ↦ elim (Bool-cases (marked entity c u)) [
    | inl m ↦ inl (rw (z, m) (known-IsTouched entity c u t z m))
    | inr m ↦ elim (Bool-cases has_grown) [
      | inr g ↦ inr (
        rw (z, m, g) (record { thrown = refl; update = refl; unpublished = (refl, refl) }),
        inr (inr (inr (inl g))),
      )
      | inl g ↦ elim (Bool-cases recorded) [
        | inr b ↦ inr (
          rw (z, m, g, b) (record { thrown = refl; update = refl; unpublished = (refl, refl) }),
          inr (inr (inr (inr b))),
        )
        | inl b ↦ inl (rw (z, m, g, b) (new-IsTouched entity c u t z m))
      ]
    ]
  ]
]
