-- ===== src/Contributions/Replaced.antt =====
-- replace of source_contribution_cache.cpp on every branch.
use server_entry.Prelude.{Option, ◌≢◌, get_or, true}
use server_entry.Prelude.{
  ℕ, Bool, false, not, ◌||◌, [], ◌∷◌, ◌++◌, none, some, ◌==◌, if◌then◌else◌, ◌≡◌, ◌⊎◌, refl, ◌∙◌,
  ap, subst, arith, Bool-cases, inl, inr,
}
use server_entry.Strings.{Status, ok, initialization_failed, invalid_state}
use server_entry.Strings.Update.{is_ok}
use server_entry.Strings.Intern.{ok_by, not_ok}
use server_entry.Contributions.{Cache, no_contribution, free_slot}
use server_entry.Contributions.Update.{
  refuse, is_marked, candidate_of, Update, was_replaced, candidate, replace, Replaced, entered,
}
use server_entry.Contributions.Tracked.{
  Tracked, Fresh-marked_at, Tracks-marked_at, candidate_of-marked_at,
}

-- What replace is to do for a source, of an update that is open and has not replaced it.
pub record IsReplaced (source : ℕ) (c : Cache) (u : Update) (r : Replaced) : Type 0 where
  pub accepted : r.status ≡ ok
  pub output : r.output ≡ some source
  pub empty : candidate source r.cache r.update ≡ some no_contribution
  pub others : (s : ℕ) → (source == s) ≡ false → candidate s r.cache r.update ≡ candidate s c u
  pub unpublished : (r.cache.states ≡ c.states) × (r.cache.entity_states ≡ c.entity_states)
  pub tracked : Tracked r.cache r.update
  pub usable : (u.failure ≡ ok) × (u.prepared ≡ false) × (u.committed_update ≡ false)
  pub unreplaced : (source ≢ 0) × (candidate source c u ≡ none)

-- Why replace refuses: the update has failed, is prepared or is committed, there is no source, the
-- source has a candidate already, or one of the two insertions finds no memory.
abbrev pub Reason : Bool → Bool → ℕ → Cache → Update → Type 0
Reason has_grown recorded source c u =
    (u.failure ≢ ok)
    ⊎ (u.prepared ≡ true)
    ⊎ (u.committed_update ≡ true)
    ⊎ (source ≡ 0)
    ⊎ (candidate source c u ≢ none)
    ⊎ (has_grown ≡ false)
    ⊎ (recorded ≡ false)

pub record IsRefused (c : Cache) (r : Replaced) : Type 0 where
  pub output : r.output ≡ none
  pub unpublished : (r.cache.states ≡ c.states) × (r.cache.entity_states ≡ c.entity_states)
  pub refused : r.status ≢ ok
  pub failed : r.update.failure ≡ r.status

-- The guard of replace.
abbrev is_closed : ℕ → Cache → Update → Bool
is_closed source c u =
    not u.has_owner
    || (u.prepared || (u.committed_update || (source == 0 || was_replaced source c u)))

candidate_by :
    (source : ℕ) (c : Cache) (u : Update)
    → Tracked c u
    → (source == 0) ≡ false
    → candidate source c u ≡ candidate_of no_contribution u.candidate_generation source c.candidates
unfolding candidate
candidate_by source c u t n = rw (t.owner, n) refl

candidate-none :
    (source : ℕ) (c : Cache) (u : Update)
    → Tracked c u
    → (source == 0) ≡ false
    → was_replaced source c u ≡ false
    → candidate source c u ≡ none
unfolding was_replaced
candidate-none source c u t n w =
    let m : is_marked no_contribution u.candidate_generation source c.candidates ≡ false =
      subst (λ b. b ≡ false) (rw (t.owner, n) refl) w in
    candidate_by source c u t n ∙ rw m refl

some-none : {A : Type 0} (o : Option A) (a : A) → o ≡ some a → o ≢ none
some-none o a p q = absurd (ground (arith, p, q))

candidate_some :
    (source : ℕ) (c : Cache) (u : Update)
    → Tracked c u
    → was_replaced source c u ≡ true
    → candidate source c u ≢ none
unfolding was_replaced
candidate_some source c u t w =
    let n : (source == 0) ≡ false = ground (arith, w) in
    let m : is_marked no_contribution u.candidate_generation source c.candidates ≡ true =
      ground (arith, w) in
    some-none (candidate source c u) (get_or c.candidates source (free_slot no_contribution)).value
      (candidate_by source c u t n ∙ rw m refl)

-- Which of the conditions of the guard holds.
closed_by :
    (has_grown recorded : Bool) (source : ℕ) (c : Cache) (u : Update)
    → Tracked c u
    → is_closed source c u ≡ true
    → Reason has_grown recorded source c u
closed_by has_grown recorded source c u t z = elim (Bool-cases u.prepared) [
  | inl p ↦ inr (inl p)
  | inr p ↦ elim (Bool-cases u.committed_update) [
    | inl m ↦ inr (inr (inl m))
    | inr m ↦ elim (Bool-cases (source == 0)) [
      | inl n ↦ inr (inr (inr (inl (ground (arith, n)))))
      | inr n ↦
          let o = t.owner in
          let w : was_replaced source c u ≡ true = ground (arith, z, o, p, m, n) in
          inr (inr (inr (inr (inl (candidate_some source c u t w)))))
    ]
  ]
]

entered-IsReplaced :
    (source : ℕ) (c : Cache) (u : Update)
    → Tracked c u
    → is_ok u.failure ≡ true
    → is_closed source c u ≡ false
    → IsReplaced source c u (record {
      cache = entered source c u;
      update = record u { changed = u.changed ++ (source ∷ []) };
      status = ok;
      output = some source;
    })
unfolding was_replaced candidate
entered-IsReplaced source c u t f z =
    let n : (source == 0) ≡ false = ground (arith, z) in
    let w : was_replaced source c u ≡ false = ground (arith, z) in
    let marked =
      candidate_of-marked_at no_contribution u.candidate_generation source no_contribution
        c.candidates in
    record {
      accepted = refl;
      usable = (ok_by u.failure f, ground (arith, z), ground (arith, z));
      unreplaced = ((λ q. ground (arith, z, q)), candidate-none source c u t n w);
      output = refl;
      empty = rw (t.owner, n) (marked source t.positive ∙ ground arith);
      others = λ s h.
          ap (λ o. if not u.has_owner || s == 0 then none else o) (marked s t.positive ∙ rw h refl);
      unpublished = (refl, refl);
      tracked = record {
        owner = t.owner;
        positive = t.positive;
        current = t.current;
        sources =
            Tracks-marked_at no_contribution u.candidate_generation source no_contribution u.changed
              c.candidates t.positive (subst (λ b. b ≡ false) (rw (t.owner, n) refl) w) t.sources;
        entities = t.entities;
        fresh = record {
          started = t.fresh.started;
          sources =
              Fresh-marked_at no_contribution c.next_candidate_generation u.candidate_generation
                source no_contribution c.candidates t.current t.fresh.sources;
          entities = t.fresh.entities;
        };
      };
    }

gave_up :
    (s : Status) (c c' : Cache) (u : Update)
    → is_ok s ≡ false
    → (c'.states ≡ c.states) × (c'.entity_states ≡ c.entity_states)
    → IsRefused c (refuse s c' u)
gave_up s c c' u f same = record {
  output = refl;
  unpublished = same;
  refused = not_ok s f;
  failed = refl;
}

-- replace, for an update that tracks its candidates. The update was open, and there is a source
-- without a candidate: the call succeeds, the source starts from nothing, the other candidates and
-- the published states stay, and the invariant is kept. Or there is a reason to refuse, the call
-- answers a failure, the update has failed with it, and nothing is published.
pub replace-IsReplaced :
    (has_grown recorded : Bool) (source : ℕ) (c : Cache) (u : Update)
    → Tracked c u
    → IsReplaced source c u (replace has_grown recorded source c u)
      ⊎ (IsRefused c (replace has_grown recorded source c u) × Reason has_grown recorded source c u)
unfolding replace
replace-IsReplaced has_grown recorded source c u t = elim (Bool-cases (is_ok u.failure)) [
  | inr f ↦
      let reason = not_ok u.failure f in
      inr (
        rw f
            (record { output = refl; unpublished = (refl, refl); refused = reason; failed = refl }),
        inl reason,
      )
  | inl f ↦ elim (Bool-cases (is_closed source c u)) [
    | inl z ↦ inr (
      rw (f, z) (gave_up invalid_state c c u refl (refl, refl)),
      closed_by has_grown recorded source c u t z,
    )
    | inr z ↦ elim (Bool-cases has_grown) [
      | inr g ↦ inr (
        rw (f, z, g) (gave_up initialization_failed c c u refl (refl, refl)),
        inr (inr (inr (inr (inr (inl g))))),
      )
      | inl g ↦ elim (Bool-cases recorded) [
        | inr b ↦ inr (
          rw (f, z, g, b)
              (gave_up initialization_failed c (entered source c u) u refl (refl, refl)),
          inr (inr (inr (inr (inr (inr b))))),
        )
        | inl b ↦ inl (rw (f, z, g, b) (entered-IsReplaced source c u t f z))
      ]
    ]
  ]
]
