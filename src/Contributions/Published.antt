-- ===== src/Contributions/Published.antt =====
-- prepare_publish, publish_prepared and cancel of source_contribution_cache.cpp: what a cache has
-- after a publication, and that a cancelled update leaves nothing behind.
use server_entry.Prelude.{
  ℕ, suc, ◌<◌, Bool, true, false, not, ◌||◌, List, [], ◌∷◌, Option, none, some, ◌==◌, length,
  get_or, contains, ◌≡◌, refl, sym, ◌∙◌, ap, subst, arith, Bool-cases, inl, inr,
}
use server_entry.Strings.{Status, ok, initialization_failed, invalid_state}
use server_entry.Strings.Update.{is_ok}
use server_entry.Strings.Intern.{not_ok}
use server_entry.Contributions.{
  Cache, ContributionState, EntityState, Slot, no_contribution, no_entity_state,
}
use server_entry.Contributions.Update.{
  Update, prepare_publish, publish_prepared, cancel, swap_in, cleared, fitted, shrunk, candidate_of,
  candidate, candidate_entity, sized,
}
use server_entry.Contributions.Slots.{
  get_or-fitted, get_or-cleared, get_or-swap_in, generation-swap_in, fitted_room, shrunk-fitted,
  shrunk_all,
}
use server_entry.Contributions.Tracked.{Tracked, IsFresh, Tracks, Fresh}

-- The state of an id behind a publication: its candidate where it has one, and else nothing in a
-- rebuild and the old state in an incremental build.
abbrev pub next_state : {V : Type 0} → V → Bool → Option V → V → V
next_state d full (some v) old = v
next_state d true none old = d
next_state d false none old = old

pub record IsPublished (c : Cache) (u : Update) (c' : Cache) : Type 0 where
  pub sources :
      (s : ℕ)
      → (s == 0) ≡ false
      → get_or c'.states s no_contribution
        ≡ next_state no_contribution u.full_reconstruction
            (candidate s c u)
            (get_or c.states s no_contribution)
  pub entities :
      (e : ℕ)
      → (e == 0) ≡ false
      → get_or c'.entity_states e no_entity_state
        ≡ next_state no_entity_state u.full_reconstruction
            (candidate_entity e c u)
            (get_or c.entity_states e no_entity_state)
  pub complete : c'.provenance_complete ≡ true
  pub fresh : IsFresh c'

module _ {V : Type 0} (d : V) where
  length-cleared : (full : Bool) (xs : List V) → length (cleared d full xs) ≡ length xs
  length-cleared false xs = refl
  length-cleared true [] = refl
  length-cleared true (x ∷ xs) = ap suc (length-cleared true xs)

  next-cleared :
      (full : Bool) (ids : List ℕ) (states : List V) (i : ℕ)
      → get_or (cleared d full (fitted d ids states)) i d
        ≡ next_state d full none (get_or states i d)
  next-cleared true ids states i = get_or-cleared d (fitted d ids states) i
  next-cleared false ids states i = get_or-fitted d ids states i

  next_state-swap_in :
      (g : ℕ) (full : Bool) (ids : List ℕ) (states : List V) (slots : List (Slot V)) (i : ℕ)
      → Tracks d g ids slots
      → get_or (swap_in d ids (cleared d full (fitted d ids states)) slots).0 i d
        ≡ next_state d full (candidate_of d g i slots) (get_or states i d)
  next_state-swap_in g full ids states slots i (marks, distinct) =
      get_or-swap_in d ids (cleared d full (fitted d ids states)) slots i distinct (λ k h.
        subst (λ n. k < n) (sym (length-cleared full (fitted d ids states)))
          (fitted_room d ids states k h))
      ∙ elim (Bool-cases (contains i ids)) [
        | inl m ↦ rw (m, sym (marks i) ∙ m) refl
        | inr m ↦ rw (m, sym (marks i) ∙ m) (next-cleared full ids states i)
      ]

  Fresh-swap_in :
      (next : ℕ) (ids : List ℕ) (states : List V) (slots : List (Slot V))
      → Fresh d next slots
      → Fresh d next (swap_in d ids states slots).1
  Fresh-swap_in next ids states slots f i =
      subst (λ n. n < next) (sym (generation-swap_in d ids states slots i)) (f i)

-- What prepare_publish does to the cache where it succeeds.
abbrev fitted_cache : Cache → Update → Cache
fitted_cache c u = record c {
  states = fitted no_contribution u.changed c.states;
  entity_states = fitted no_entity_state u.changed_entities c.entity_states;
}

publish_fitted :
    (c : Cache) (u : Update)
    → Tracked c u
    → u.committed_update ≡ false
    → IsPublished c u
        (publish_prepared (fitted_cache c u) (record (sized c u) { prepared = true })).0
unfolding publish_prepared candidate candidate_entity
publish_fitted c u t e =
    let f = t.fresh in
    rw (t.owner, e)
      (record {
        sources = λ s n.
            next_state-swap_in no_contribution u.candidate_generation u.full_reconstruction
              u.changed c.states c.candidates s t.sources
            ∙ rw n refl;
        entities = λ i n.
            next_state-swap_in no_entity_state u.candidate_generation u.full_reconstruction
              u.changed_entities c.entity_states c.candidate_entities i t.entities
            ∙ rw n refl;
        complete = refl;
        fresh = record {
          started = f.started;
          sources =
              Fresh-swap_in no_contribution c.next_candidate_generation u.changed
                (cleared no_contribution u.full_reconstruction
                  (fitted no_contribution u.changed c.states))
                c.candidates f.sources;
          entities =
              Fresh-swap_in no_entity_state c.next_candidate_generation u.changed_entities
                (cleared no_entity_state u.full_reconstruction
                  (fitted no_entity_state u.changed_entities c.entity_states))
                c.candidate_entities f.entities;
        };
      })

abbrev is_closed : Update → Bool
is_closed u = not u.has_owner || (u.prepared || u.committed_update)

-- What prepare_publish answers where it succeeds.
prepared_cases :
    (a b : Bool) (c : Cache) (u : Update)
    → (prepare_publish a b c u).2 ≡ ok
    → (prepare_publish a b c u ≡ (fitted_cache c u, record (sized c u) { prepared = true }, ok))
      × (u.committed_update ≡ false)
unfolding prepare_publish
prepared_cases a b c u h = elim (Bool-cases (is_ok u.failure)) [
  | inr f ↦
      let back : (prepare_publish a b c u).2 ≡ u.failure = rw f refl in
      absurd (not_ok u.failure f (sym back ∙ h))
  | inl f ↦ elim (Bool-cases (is_closed u)) [
    | inl z ↦
        let back : (prepare_publish a b c u).2 ≡ invalid_state = rw (f, z) refl in
        absurd (not_ok invalid_state refl (sym back ∙ h))
    | inr z ↦ elim (Bool-cases a) [
      | inr x ↦
          let back : (prepare_publish a b c u).2 ≡ initialization_failed = rw (f, z, x) refl in
          absurd (not_ok initialization_failed refl (sym back ∙ h))
      | inl x ↦ elim (Bool-cases b) [
        | inr y ↦
            let back : (prepare_publish a b c u).2 ≡ initialization_failed = rw (f, z, x, y) refl in
            absurd (not_ok initialization_failed refl (sym back ∙ h))
        | inl y ↦ (rw (f, z, x, y) refl, ground (arith, z))
      ]
    ]
  ]
]

-- prepare_publish and publish_prepared: each source and each entity has its candidate where the
-- update made one, and else nothing after a rebuild and what it had after an incremental build; the
-- cache is complete, and ready for the next update.
pub publish_prepared-IsPublished :
    (a b : Bool) (c : Cache) (u : Update)
    → Tracked c u
    → (prepare_publish a b c u).2 ≡ ok
    → IsPublished c u (publish_prepared (prepare_publish a b c u).0 (prepare_publish a b c u).1).0
publish_prepared-IsPublished a b c u t h =
    let p = prepared_cases a b c u h in rw (p.0) (publish_fitted c u t p.1)

cancel_unsized : (c : Cache) (u : Update) → u.prepared_owner_growth ≡ false → (cancel c u).0 ≡ c
unfolding cancel
cancel_unsized c u g = elim (Bool-cases u.committed_update) [
  | inl m ↦ rw m refl
  | inr m ↦ elim (Bool-cases u.has_owner) [ inl o ↦ rw (m, o, g) refl | inr o ↦ rw (m, o) refl ]
]

cancel-sized :
    (c : Cache) (u : Update) (xs : List ContributionState) (ys : List EntityState) (p : Bool)
    (s : Status)
    → u.committed_update ≡ false
    → u.has_owner ≡ true
    → shrunk (length c.states) xs ≡ c.states
    → shrunk (length c.entity_states) ys ≡ c.entity_states
    → (cancel
        (record c { states = xs; entity_states = ys })
        (record (sized c u) { prepared = p; failure = s })).0
      ≡ c
unfolding cancel
cancel-sized c u xs ys p s m o a b = rw (m, o, a, b) refl

cancel_open :
    (a b : Bool) (c : Cache) (u : Update)
    → is_ok u.failure ≡ true
    → is_closed u ≡ false
    → (cancel (prepare_publish a b c u).0 (prepare_publish a b c u).1).0 ≡ c
unfolding prepare_publish
cancel_open a b c u f z =
    let m : u.committed_update ≡ false = ground (arith, z) in
    let o : u.has_owner ≡ true = ground (arith, z) in
    let old_states = shrunk_all no_contribution c.states in
    let old_entities = shrunk_all no_entity_state c.entity_states in
    let new_states = shrunk-fitted no_contribution u.changed c.states in
    let new_entities = shrunk-fitted no_entity_state u.changed_entities c.entity_states in
    elim (Bool-cases a) [
      | inr x ↦
          rw (f, z, x)
            (cancel-sized c u _ _ u.prepared initialization_failed m o old_states old_entities)
      | inl x ↦ elim (Bool-cases b) [
        | inr y ↦
            rw (f, z, x, y)
              (cancel-sized c u _ _ u.prepared initialization_failed m o new_states old_entities)
        | inl y ↦ rw (f, z, x, y) (cancel-sized c u _ _ true u.failure m o new_states new_entities)
      ]
    ]

-- A build that is given up leaves nothing behind: cancel behind prepare_publish, whether that
-- succeeded, failed or ran out of memory between the growths, gives back the cache as it was, for
-- an update that has grown nothing before.
pub cancel-prepare_publish :
    (a b : Bool) (c : Cache) (u : Update)
    → u.prepared_owner_growth ≡ false
    → (cancel (prepare_publish a b c u).0 (prepare_publish a b c u).1).0 ≡ c
unfolding prepare_publish
cancel-prepare_publish a b c u g = elim (Bool-cases (is_ok u.failure)) [
  | inr f ↦ rw f (cancel_unsized c u g)
  | inl f ↦ elim (Bool-cases (is_closed u)) [
    | inl z ↦ rw (f, z) (cancel_unsized c (record u { failure = invalid_state }) g)
    | inr z ↦ cancel_open a b c u f z
  ]
]
