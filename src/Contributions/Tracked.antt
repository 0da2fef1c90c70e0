-- ===== src/Contributions/Tracked.antt =====
-- The invariant of a cache and its open update (source_contribution_cache.cpp), and that
-- begin_update, replace and touch_entity keep it.
use server_entry.Prelude.{
  ℕ, ◌+◌, ◌<◌, Bool, true, false, ◌||◌, List, [], ◌∷◌, ◌++◌, none, some, ◌==◌, if◌then◌else◌,
  get_or, contains, ◌≡◌, refl, sym, ◌∙◌, subst, arith, Bool-cases, inl, inr,
}
use server_entry.Contributions.{Cache, Slot, free_slot, no_contribution, no_entity_state, draw}
use server_entry.Contributions.Update.{Update, begin_update, is_marked, candidate_of, marked_at}
use server_entry.Contributions.Slots.{
  is_marked_by, get_or-marked_at, contains-append, Distinct, Distinct-append,
}

module _ {V : Type 0} (d : V) where
  -- The list has the ids whose slots are marked, each of them once.
  abbrev pub Tracks : ℕ → List ℕ → List (Slot V) → Type 0
  Tracks g ids slots = ((i : ℕ) → contains i ids ≡ is_marked d g i slots) × Distinct ids

  -- The generations of all slots have been handed out.
  abbrev pub Fresh : ℕ → List (Slot V) → Type 0
  Fresh next slots = (i : ℕ) → (get_or slots i (free_slot d)).generation < next

  pub Fresh-marked_at :
      (next g id : ℕ) (v : V) (slots : List (Slot V))
      → g < next
      → Fresh next slots
      → Fresh next (marked_at d g id v slots)
  Fresh-marked_at next g id v slots h f i =
      subst (λ s. s.generation < next) (sym (get_or-marked_at d g id v slots i))
        (elim (Bool-cases (id == i)) [ inl e ↦ rw e h | inr e ↦ rw e (f i) ])

  pub Tracks-marked_at :
      (g id : ℕ) (v : V) (ids : List ℕ) (slots : List (Slot V))
      → 0 < g
      → is_marked d g id slots ≡ false
      → Tracks g ids slots
      → Tracks g (ids ++ (id ∷ [])) (marked_at d g id v slots)
  Tracks-marked_at g id v ids slots p unmarked (marks, distinct) = (
    λ i.
        contains-append i ids id
        ∙ subst (λ s. (contains i ids || id == i) ≡ (s.generation == g))
            (sym (get_or-marked_at d g id v slots i))
            (elim (Bool-cases (id == i)) [
              | inl e ↦ rw e (ground arith)
              | inr e ↦ let old = marks i ∙ is_marked_by d g i slots p in rw e (ground (arith, old))
            ])
        ∙ sym (is_marked_by d g i (marked_at d g id v slots) p),
    Distinct-append ids id distinct (marks id ∙ unmarked),
  )

  pub candidate_of_by :
      (g j : ℕ) (slots : List (Slot V))
      → 0 < g
      → candidate_of d g j slots ≡ (
          if (get_or slots j (free_slot d)).generation == g
          then some (get_or slots j (free_slot d)).value
          else none)
  candidate_of_by g j slots p = rw (is_marked_by d g j slots p) refl

  pub candidate_of-marked_at :
      (g id : ℕ) (v : V) (slots : List (Slot V)) (j : ℕ)
      → 0 < g
      → candidate_of d g j (marked_at d g id v slots)
        ≡ (if id == j then some v else candidate_of d g j slots)
  candidate_of-marked_at g id v slots j p =
      candidate_of_by g j (marked_at d g id v slots) p
      ∙ subst
          (λ s.
            (if s.generation == g then some s.value else none)
            ≡ (if id == j then some v else candidate_of d g j slots))
          (sym (get_or-marked_at d g id v slots j))
          (elim (Bool-cases (id == j)) [
            | inl e ↦ rw e (ground arith)
            | inr e ↦ rw e (sym (candidate_of_by g j slots p))
          ])

pub record IsFresh (c : Cache) : Type 0 where
  pub started : 0 < c.next_candidate_generation
  pub sources : Fresh no_contribution c.next_candidate_generation c.candidates
  pub entities : Fresh no_entity_state c.next_candidate_generation c.candidate_entities

pub record Tracked (c : Cache) (u : Update) : Type 0 where
  pub owner : u.has_owner ≡ true
  pub positive : 0 < u.candidate_generation
  pub current : u.candidate_generation < c.next_candidate_generation
  pub sources : Tracks no_contribution u.candidate_generation u.changed c.candidates
  pub entities :
      Tracks no_entity_state u.candidate_generation u.changed_entities c.candidate_entities
  pub fresh : IsFresh c

unmarked :
    {V : Type 0} (d : V) (next : ℕ) (slots : List (Slot V))
    → 0 < next
    → Fresh d next slots
    → Tracks d next [] slots
unmarked d next slots p f =
    (λ i. let below = f i in ground (arith, below) ∙ sym (is_marked_by d next i slots p), tt)

draw_lem : (n : ℕ) → 0 < n → n < 0xffffffffffffffff → (draw n).0 ≡ n × ((draw n).1 ≡ n + 1)
draw_lem n p h = (ground arith, ground arith)

-- An update of a cache whose generations have not gone round starts with no candidate, and the
-- caches and updates that a call of begin_update answers are those that the calls below take.
pub begin_update-Tracked :
    (full : Bool) (c : Cache)
    → IsFresh c
    → c.next_candidate_generation < 0xffffffffffffffff
    → Tracked (begin_update full c).0 (begin_update full c).1
unfolding begin_update
begin_update-Tracked full c f h =
    let d = draw_lem c.next_candidate_generation f.started h in
    rw (d.0, d.1)
      (record {
        owner = refl;
        positive = f.started;
        current = omega arith;
        sources =
            unmarked no_contribution c.next_candidate_generation c.candidates f.started f.sources;
        entities =
            unmarked no_entity_state c.next_candidate_generation c.candidate_entities f.started
              f.entities;
        fresh = record {
          started = omega arith;
          sources = λ i. let a = f.sources i in omega (arith, a);
          entities = λ i. let a = f.entities i in omega (arith, a);
        };
      })
