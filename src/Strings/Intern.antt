-- ===== src/Strings/Intern.antt =====
-- What `intern` keeps and returns.
use server_entry.Prelude.{
  ◌⊎◌, ℕ, ◌+◌, ◌-◌, ◌≡◌, ◌≢◌, refl, ap, sym, ◌∙◌, Bool, true, false, not, ◌||◌, [], ◌∷◌, ◌++◌,
  append_assoc, none, some, ltb, ◌==◌, length, length-append, Bool-cases, Option-cases, inl, inr,
  arith, subst,
}
use server_entry.Strings.{
  configuration_failed, duplicate_source_replacement, invalid_state, initialization_failed,
  persistence_failed, artifact_corrupt, not_available,
}
use server_entry.Strings.{
  Status, ok, Bytes, Slots, Registry, lookup, emplace, slot, id_or_none, IsIndex,
}
use server_entry.Strings.Index.{lookup_here, entered-fresh, slot-append_left, slot_bound}
use server_entry.Strings.Update.{
  Update, begin_update, is_open, is_current, is_ok, intern, add, prepare_publish, publish_prepared,
  commit, merge,
}
use server_entry.Strings.Update
use server_entry.Strings.Publish.{Extends, lookup-append, find-both, get-slot, get_positive}

-- A string that `find` does not know has no entry.
unknown-fresh :
    (r : Registry) (u : Update) (value : Bytes)
    → Extends r u
    → is_open r u ≡ true
    → Update.find r u value ≡ 0
    → lookup (u.added_lookup ++ r.lookup_index) value ≡ none
unknown-fresh r u value x o z =
    elim (Option-cases (lookup (u.added_lookup ++ r.lookup_index) value)) [
      | inl e ↦ e
      | inr (id, e) ↦
          let p = (x.both value id).0 e in absurd (ground (arith, find-both r u value o, e, p.0))
    ]

pub ok_by : (s : Status) → is_ok s ≡ true → s ≡ ok
ok_by ok h = refl
ok_by initialization_failed h = absurd (ground arith)
ok_by configuration_failed h = absurd (ground arith)
ok_by duplicate_source_replacement h = absurd (ground arith)
ok_by invalid_state h = absurd (ground arith)
ok_by persistence_failed h = absurd (ground arith)
ok_by artifact_corrupt h = absurd (ground arith)
ok_by not_available h = absurd (ground arith)

pub not_ok : (s : Status) → is_ok s ≡ false → s ≢ ok
not_ok s e q = ground (arith, e, q)

-- What an `intern` leaves and returns.
pub record Interned (r : Registry) (u : Update) (value : Bytes) (result : Update × Status × ℕ)
    : Type 0 where
  pub extends : Extends r result.0
  pub answer :
      ((result.1 ≡ ok) × (Update.get r result.0 result.2 ≡ some value))
      ⊎ ((result.1 ≢ ok) × (result.2 ≡ 0))
  pub kept :
      (id : ℕ) (old : Bytes) → Update.get r u id ≡ some old → Update.get r result.0 id ≡ some old

abbrev extended : Bytes → ℕ → Update → Update
extended value next u = record u {
  added_records = u.added_records ++ (some value ∷ []);
  added_lookup = (value, next) ∷ u.added_lookup;
}

extended_open :
    (value : Bytes) (next : ℕ) (r : Registry) (u : Update)
    → is_open r (extended value next u) ≡ is_open r u
unfolding is_open is_current
extended_open value next r u = refl

extended-Extends :
    (value : Bytes) (r : Registry) (u : Update)
    → Extends r u
    → is_open r u ≡ true
    → Update.find r u value ≡ 0
    → Extends r (extended value (length r.records + length u.added_records + 1) u)
extended-Extends value r u x o z =
    let m = length-append r.records u.added_records in
    record {
      owner = x.owner;
      both =
          subst
            (λ k.
              IsIndex (r.records ++ (u.added_records ++ (some value ∷ [])))
                ((value, k + 1) ∷ (u.added_lookup ++ r.lookup_index)))
            m
            (subst
              (λ t. IsIndex t (
                (value, length (r.records ++ u.added_records) + 1)
                ∷ (u.added_lookup ++ r.lookup_index)))
              (append_assoc r.records u.added_records (some value ∷ []))
              (entered-fresh (r.records ++ u.added_records) (u.added_lookup ++ r.lookup_index) value
                x.both (unknown-fresh r u value x o z)));
      uncompacted = x.uncompacted;
    }

kept_by_append :
    (r : Registry) (u u' : Update) (more : Slots) (id : ℕ) (old : Bytes)
    → is_open r u' ≡ true
    → u'.added_records ≡ u.added_records ++ more
    → Update.get r u id ≡ some old
    → Update.get r u' id ≡ some old
kept_by_append r u u' more id old o e h =
    let (p, o₀) = get_positive r u id old h in
    let s = sym (get-slot r u id o₀ p) ∙ h in
    let b = slot_bound (r.records ++ u.added_records) (id - 1) old s in
    get-slot r u' id o p
    ∙ ap (λ t. slot (r.records ++ t) (id - 1)) e
    ∙ ap (λ t. slot t (id - 1)) (sym (append_assoc r.records u.added_records more))
    ∙ slot-append_left (r.records ++ u.added_records) more (id - 1) b
    ∙ s

added :
    (value : Bytes) (r : Registry) (u : Update)
    → Extends r u
    → is_open r u ≡ true
    → Update.find r u value ≡ 0
    → let next = length r.records + length u.added_records + 1 in
      Interned r u value (extended value next u, ok, next)
added value r u x o z =
    let next = length r.records + length u.added_records + 1 in
    let u' = extended value next u in
    let x' = extended-Extends value r u x o z in
    let o' = extended_open value next r u ∙ o in
    record {
      extends = x';
      answer =
          let (p, s) =
            (x'.both value next).0 (lookup_here value next (u.added_lookup ++ r.lookup_index)) in
          inl (refl, get-slot r u' next o' p ∙ s);
      kept = λ id old h. kept_by_append r u u' (some value ∷ []) id old o' refl h;
    }

refusal :
    (value : Bytes) (r : Registry) (u : Update) (s : Status)
    → Extends r u
    → s ≢ ok
    → Interned r u value (u, s, 0)
refusal value r u s x n = record { extends = x; answer = inr (n, refl); kept = λ id old h. h }

known :
    (value : Bytes) (r : Registry) (u : Update)
    → Extends r u
    → is_open r u ≡ true
    → Update.find r u value ≢ 0
    → Interned r u value (u, ok, Update.find r u value)
known value r u x o n = elim (Option-cases (lookup (u.added_lookup ++ r.lookup_index) value)) [
  | inl e ↦ absurd (n (find-both r u value o ∙ ap id_or_none e))
  | inr (id, e) ↦
      let (p, s) = (x.both value id).0 e in
      let q : Update.find r u value ≡ id = find-both r u value o ∙ ap id_or_none e in
      record {
        extends = x;
        answer = inl (refl, ap (Update.get r u) q ∙ get-slot r u id o p ∙ s);
        kept = λ id old h. h;
      }
]

failing :
    (value : Bytes) (r : Registry) (u : Update)
    → Extends r u
    → Interned r u value (record u { failure = initialization_failed }, initialization_failed, 0)
unfolding Update.get is_open is_current Update.resolve
failing value r u x = record {
  extends = record { owner = x.owner; both = x.both; uncompacted = x.uncompacted };
  answer = inr (not_ok initialization_failed refl, refl);
  kept = λ id old h. h;
}

added-fresh :
    (r : Registry) (u : Update) (value : Bytes)
    → Extends r u
    → is_open r u ≡ true
    → Update.find r u value ≡ 0
    → lookup u.added_lookup value ≡ none
added-fresh r u value x o z =
    ground (arith, unknown-fresh r u value x o z, lookup-append u.added_lookup r.lookup_index value)

add_lem :
    (allocated : Bool) (value : Bytes) (r : Registry) (u : Update)
    → Extends r u
    → is_open r u ≡ true
    → Update.find r u value ≡ 0
    → Interned r u value (add allocated value (length r.records + length u.added_records + 1) u)
unfolding add emplace
add_lem allocated value r u x o z =
    elim (Bool-cases
      (ltb 0xffffffff (length r.records + length u.added_records + 1) || not allocated)) [
        | inl q ↦ rw q (failing value r u x)
        | inr q ↦ rw (q, added-fresh r u value x o z) (added value r u x o z)
      ]

-- An `intern` keeps the indexes inverse to the slots and every identifier's string. Where it
-- succeeds, `get` answers the string at the identifier returned; where it fails, the result is 0.
pub intern-Interned :
    (allocated : Bool) (value : Bytes) (r : Registry) (u : Update)
    → Extends r u
    → Interned r u value (intern allocated value r u)
unfolding intern
intern-Interned allocated value r u x = elim (Bool-cases (is_ok u.failure)) [
  | inr f ↦ rw f (refusal value r u u.failure x (not_ok u.failure f))
  | inl f ↦ elim (Bool-cases (is_open r u)) [
    | inr o ↦ rw (f, o) (refusal value r u invalid_state x (not_ok invalid_state refl))
    | inl o ↦ elim (Bool-cases (Update.find r u value == 0)) [
      | inr n ↦ rw (f, o, n) (known value r u x o (λ z. ground arith))
      | inl z ↦ rw (f, o, z) (add_lem allocated value r u x o (ground arith))
    ]
  ]
]
