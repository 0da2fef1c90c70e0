-- ===== src/Strings/Commit.antt =====
-- What a commit makes of the registry, and that it shuts out the other updates of its generation.
use server_entry.Prelude.{
  length, zero, suc, ◌-◌, [], ◌∷◌, ℕ, ◌-◌, ◌≤◌, ◌<◌, ◌≡◌, ◌≢◌, ◌⊎◌, refl, ap, sym, ◌∙◌, Bool, true,
  false, not, ◌||◌, [], ◌∷◌, ◌++◌, none, some, ◌==◌, Bool-cases, Option-cases, inl, inr, arith,
  subst, bytes_eq, bytes_eq_sound,
}
use server_entry.Strings.{
  Status, ok, initialization_failed, invalid_state, Bytes, Slots, Index, Registry, lookup, slot,
  next_generation, IsIndex, IsIndexed,
}
use server_entry.Strings
use server_entry.Strings.Index.{slot-append_left, slot_bound}
use server_entry.Strings.Update.{
  Update, is_open, is_current, is_ok, prepare_publish, publish_prepared, commit, merge,
}
use server_entry.Strings.Update
use server_entry.Strings.Publish.{Extends, or_else, lookup-append, get-slot}
use server_entry.Strings.Intern.{not_ok}

merge_new :
    (k : Bytes) (n : ℕ) (added index : Index)
    → lookup index k ≡ none
    → merge ((k, n) ∷ added) index ≡ merge added ((k, n) ∷ index)
unfolding merge
merge_new k n added index e = rw (e, merge) refl

merge_old :
    (k : Bytes) (n old : ℕ) (added index : Index)
    → lookup index k ≡ some old
    → merge ((k, n) ∷ added) index ≡ merge added index
unfolding merge
merge_old k n old added index e = rw (e, merge) refl

new_entry :
    (k v : Bytes) (n : ℕ) (added index : Index)
    → lookup index k ≡ none
    → or_else (lookup ((k, n) ∷ index) v) (lookup added v)
      ≡ or_else (lookup index v) (lookup ((k, n) ∷ added) v)
unfolding lookup
new_entry k v n added index e = elim (Bool-cases (bytes_eq k v)) [
  | inl eq ↦ ground (arith, eq, ap (lookup index) (sym (bytes_eq_sound k v eq)) ∙ e)
  | inr ne ↦ rw ne refl
]

old_entry :
    (k v : Bytes) (n old : ℕ) (added index : Index)
    → lookup index k ≡ some old
    → or_else (lookup index v) (lookup added v)
      ≡ or_else (lookup index v) (lookup ((k, n) ∷ added) v)
unfolding lookup
old_entry k v n old added index e = elim (Bool-cases (bytes_eq k v)) [
  | inl eq ↦ ground (arith, eq, ap (lookup index) (sym (bytes_eq_sound k v eq)) ∙ e)
  | inr ne ↦ rw ne refl
]

lookup-merge :
    (added index : Index) (v : Bytes)
    → lookup (merge added index) v ≡ or_else (lookup index v) (lookup added v)
lookup-merge [] index v =
    unfold merge in unfold lookup in ground (arith, Option-cases (lookup index v))
lookup-merge ((k, n) ∷ added) index v = elim (Option-cases (lookup index k)) [
  | inl e ↦
      ap (λ t. lookup t v) (merge_new k n added index e)
      ∙ lookup-merge added ((k, n) ∷ index) v
      ∙ new_entry k v n added index e
  | inr (old, e) ↦
      ap (λ t. lookup t v) (merge_old k n old added index e)
      ∙ lookup-merge added index v
      ∙ old_entry k v n old added index e
]

-- The owner's entries take precedence, and agree with the others.
merged :
    (r : Registry) (u : Update) (v : Bytes)
    → Extends r u
    → lookup (merge u.added_lookup r.lookup_index) v ≡ lookup (u.added_lookup ++ r.lookup_index) v
merged r u v x = elim (Option-cases (lookup r.lookup_index v)) [
  | inl e ↦ ground (
    arith,
    e,
    lookup-merge u.added_lookup r.lookup_index v,
    lookup-append u.added_lookup r.lookup_index v,
    Option-cases (lookup u.added_lookup v),
  )
  | inr (id, e) ↦
      let (p, s) = (x.owner v id).0 e in
      let b = slot_bound r.records (id - 1) v s in
      let both = (x.both v id).1 (p, slot-append_left r.records u.added_records (id - 1) b ∙ s) in
      ground (arith, e, both, lookup-merge u.added_lookup r.lookup_index v)
]

-- What a commit leaves and returns.
pub record Committed (r : Registry) (u : Update) (result : Registry × Update × Status)
    : Type 0 where
  pub indexed : IsIndexed result.0
  pub outcome :
      ((result.2 ≡ ok)
        × ((id : ℕ) → Strings.get result.0 id ≡ Update.get r u id)
        × (result.0.generation ≡ next_generation r.generation)
        × (result.1.committed ≡ true))
      ⊎ ((result.2 ≢ ok) × (result.0 ≡ r))

abbrev appended : Registry → Update → Registry
appended r u = record {
  records = r.records ++ u.added_records;
  lookup_index = merge u.added_lookup r.lookup_index;
  generation = next_generation r.generation;
}

slot_beyond : (xs : Slots) (i : ℕ) → length xs ≤ i → slot xs i ≡ none
slot_beyond [] i h = refl
slot_beyond (x ∷ xs) zero h = absurd (omega arith)
slot_beyond (x ∷ xs) (suc i) h = slot_beyond xs i (omega arith)

-- The registry resolves an identifier as the update did.
appended-get :
    (r : Registry) (u : Update) (id : ℕ)
    → is_open r u ≡ true
    → Strings.get (appended r u) id ≡ Update.get r u id
appended-get r u zero o = unfold Strings.get in unfold Update.get in refl
appended-get r u (suc i) o =
    positive (ground (arith, slot_beyond (r.records ++ u.added_records) i))
    ∙ sym (get-slot r u (suc i) o (omega arith))
  where
    positive :
        (length (r.records ++ u.added_records) ≤ i → slot (r.records ++ u.added_records) i ≡ none)
        → Strings.get (appended r u) (suc i) ≡ slot (r.records ++ u.added_records) (suc i - 1)
    positive far = unfold Strings.get in ground (arith, far)

pub appended-IsIndexed : (r : Registry) (u : Update) → Extends r u → IsIndexed (appended r u)
appended-IsIndexed r u x v id =
    let e = merged r u v x in (λ h. (x.both v id).0 (sym e ∙ h), λ h. e ∙ (x.both v id).1 h)

abbrev ready : Update → Update × Status
ready u = (record u { prepared = true }, ok)

prepare_cases :
    (allocated : Bool) (r : Registry) (u : Update)
    → (is_ok (prepare_publish allocated r u).1 ≡ false)
      ⊎ ((prepare_publish allocated r u ≡ ready u)
          × (u.base_generation ≡ r.generation)
          × (is_open r u ≡ true))
unfolding prepare_publish is_open is_current
prepare_cases allocated r u = elim (Bool-cases (is_ok u.failure)) [
  | inr f ↦ inl (rw f f)
  | inl f ↦ elim (Bool-cases (not u.has_owner || (u.committed || u.prepared))) [
    | inl o ↦ inl (rw (f, o) refl)
    | inr o ↦ elim (Bool-cases (u.base_generation == r.generation)) [
      | inr g ↦ inl (rw (f, o, g) refl)
      | inl g ↦ elim (Bool-cases allocated) [
        | inr a ↦ inl (rw (f, o, g, a) refl)
        | inl a ↦ inr (rw (f, o, g, a) refl, ground arith, ground (arith, o, g))
      ]
    ]
  ]
]

-- A commit that fails leaves the registry as it was.
commit_fails :
    (allocated : Bool) (r : Registry) (u : Update)
    → is_ok (prepare_publish allocated r u).1 ≡ false
    → ((commit allocated r u).0 ≡ r)
      × ((commit allocated r u).2 ≡ (prepare_publish allocated r u).1)
unfolding commit
commit_fails allocated r u e = rw e (refl, refl)

abbrev published_update : Registry → Update → Registry × Update × Status
published_update r u = (
  appended r u,
  record u { added_records = []; added_lookup = []; prepared = true; committed = true },
  ok,
)

commit_succeeds :
    (allocated : Bool) (r : Registry) (u : Update)
    → u.rebuild_compaction_prepared ≡ false
    → prepare_publish allocated r u ≡ ready u
    → commit allocated r u ≡ published_update r u
unfolding commit publish_prepared
commit_succeeds allocated r u c e = rw (e, c) refl

-- After a commit the index of the registry is the inverse of its slots. Where the commit succeeds,
-- the registry resolves each identifier as the update did, its generation is the next one, and the
-- update is committed; where it fails, the registry is the old one.
pub commit-Committed :
    (allocated : Bool) (r : Registry) (u : Update)
    → Extends r u
    → Committed r u (commit allocated r u)
commit-Committed allocated r u x = elim (prepare_cases allocated r u) [
  | inl f ↦
      let (same, status) = commit_fails allocated r u f in
      record {
        indexed = subst IsIndexed (sym same) x.owner;
        outcome = inr (λ h. not_ok _ f (sym status ∙ h), same);
      }
  | inr (e, g, o) ↦
      subst (Committed r u) (sym (commit_succeeds allocated r u x.uncompacted e)) (record {
        indexed = appended-IsIndexed r u x;
        outcome = inl (refl, λ id. appended-get r u id o, refl, refl);
      })
]

-- Of two updates of the same generation one commits at most: the second one fails, and leaves the
-- registry as the first one made it. The generation has not gone round.
pub commit_once :
    (a b : Bool) (r : Registry) (u u₂ : Update)
    → Extends r u
    → r.generation < 0x10000000000000000
    → u₂.base_generation ≡ u.base_generation
    → (commit a r u).2 ≡ ok
    → ((commit b (commit a r u).0 u₂).2 ≢ ok)
      × ((commit b (commit a r u).0 u₂).0 ≡ (commit a r u).0)
commit_once a b r u u₂ x l same h = elim (prepare_cases b (commit a r u).0 u₂) [
  | inl f ↦
      let (kept, status) = commit_fails b (commit a r u).0 u₂ f in
      (λ q. not_ok _ f (sym status ∙ q), kept)
  | inr (e, g, o) ↦ absurd (current g)
]
  where
    current : u₂.base_generation ≡ (commit a r u).0.generation → ⊥
    current g = elim (prepare_cases a r u) [
      | inl f ↦ not_ok _ f (sym (commit_fails a r u f).1 ∙ h)
      | inr (e, base, o) ↦
          let n : (commit a r u).0.generation ≡ next_generation r.generation =
            ap (λ t. t.0.generation) (commit_succeeds a r u x.uncompacted e) in
          omega (arith, n, base, g, same)
    ]
