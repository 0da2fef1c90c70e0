-- ===== src/Json/RoundTrip/Arrays.antt =====
-- parse_array reads the text of its elements back.
use server_entry.Prelude.{
  ℕ, zero, suc, ◌+◌, ◌*◌, ◌≤◌, ◌≡◌, refl, ap, List, [], ◌∷◌, ◌++◌, append_assoc, append-nil, arith,
  length, length-append, Bool, false, inl, inr,
}
use server_entry.Json.Value.{
  Value, Items, no_items, item, render, render_items, events, item_events,
}
use server_entry.Json.Parser.{Event, location, array_begin, array_end, ok, whitespace, skip}
use server_entry.Json.Parser.Document.{parse_value, parse_array, parse_elements}
use server_entry.Json.RoundTrip.Strings.{at}
use server_entry.Json.RoundTrip.Numbers.{IsDelimited}
use server_entry.Json.RoundTrip.Reading.{
  semantic, Reads, Front, render-Front, chain, read_opened, read_located, closed_at, IsStart,
}
use server_entry.Json.RoundTrip.Scalars.{ReadsValue}

module _ (is_double : List ℕ → Bool) (room : ℕ) where
  -- The elements up to the bracket behind them.
  abbrev pub ReadsItems : Items → Type 0
  ReadsItems no_items = Unit {0}
  ReadsItems (item v xs) =
      (fuel : ℕ) (tail : List ℕ) (sent : List Event) (p : ℕ) (content : List ℕ)
      → 3 * length (render v ++ render_items false xs) + 2 ≤ fuel
      → length (render v ++ render_items false xs) ≤ room
      → Reads room
          (parse_elements is_double fuel
            (at room sent (render v ++ (render_items false xs ++ (b']' ∷ tail))) p content))
          tail sent (events v ++ (item_events xs ++ (array_end ∷ [])))

  delimited : (xs : Items) (tail : List ℕ) → IsDelimited (render_items false xs ++ (b']' ∷ tail))
  unfolding render_items
  delimited no_items tail = inr (inl refl)
  delimited (item v xs) tail = inl refl

  pub last_item : (v : Value) → ReadsValue is_double room v → ReadsItems (item v no_items)
  unfolding render_items item_events
  last_item v hv zero tail sent p content f l = absurd (omega arith)
  last_item v hv (suc fuel) tail sent p content f l =
      let n = append-nil (render v) in
      let r =
        hv fuel (b']' ∷ tail) sent p content (ground (arith, ap length n))
          (ground (arith, ap length n)) (inr (inl refl)) in
      chain room (λ p' content' events'. ok (closed_at room array_end tail p' content' events'))
        (b']' ∷ tail) tail sent (events v) (array_end ∷ []) r
        (λ p' content' events' e.
          unfold parse_elements in unfold whitespace in unfold skip in rw e refl)
        (λ p' content' events'.
          read_located room tail events' p' (p' + 1) content' array_end (unfold semantic in refl))

  pub more_items :
      (v v' : Value) (xs : Items)
      → ReadsValue is_double room v
      → ReadsItems (item v' xs)
      → ReadsItems (item v (item v' xs))
  unfolding render_items item_events
  more_items v v' xs hv hxs zero tail sent p content f l = absurd (omega arith)
  more_items v v' xs hv hxs (suc fuel) tail sent p content f l =
      let n = length-append (render v) (render_items false (item v' xs)) in
      let behind = render_items false (item v' xs) ++ (b']' ∷ tail) in
      let r = hv fuel behind sent p content (omega arith) (omega arith) (inl refl) in
      let es = events v' ++ (item_events xs ++ (array_end ∷ [])) in
      let shorter = append_assoc (render v') (render_items false xs) (b']' ∷ tail) in
      rw (append_assoc (events v') (item_events xs) (array_end ∷ [])) (
        chain room
          (λ p' content' events'. parse_elements is_double fuel (
            at room events' (render v' ++ (render_items false xs ++ (b']' ∷ tail))) (p' + 1)
              content'))
          behind tail sent (events v) es r
          (λ p' content' events' e.
            unfold parse_elements in
            unfold whitespace in
            unfold skip in
            rw e (
              ap (λ t. parse_elements is_double fuel (at room events' t (p' + 1) content'))
                shorter))
          (λ p' content' events'.
            hxs fuel tail events' (p' + 1) content' (omega arith) (omega arith)))

  bracket_opened :
      (fuel x : ℕ) (xs : List ℕ) (sent : List Event) (p : ℕ) (content : List ℕ)
      → IsStart x
      → parse_value is_double (suc (suc fuel)) (at room sent (b'[' ∷ x ∷ xs) p content)
        ≡ parse_elements is_double fuel
            (at room ((sent ++ (location p ∷ [])) ++ (array_begin ∷ [])) (x ∷ xs) (p + 1) content)
  unfolding parse_value parse_array whitespace skip
  bracket_opened fuel x xs sent p content s = rw (s.0, s.1) refl

  array_opened :
      (fuel : ℕ) (xs tail : List ℕ) (sent : List Event) (p : ℕ) (content : List ℕ)
      → Front xs
      → parse_value is_double (suc (suc fuel)) (at room sent (b'[' ∷ (xs ++ tail)) p content)
        ≡ parse_elements is_double fuel (
            at room
              ((sent ++ (location p ∷ [])) ++ (array_begin ∷ []))
              (xs ++ tail)
              (p + 1)
              content)
  array_opened fuel xs tail sent p content f =
      rw f.split (bracket_opened fuel f.first (f.more ++ tail) sent p content f.start)

  empty_array :
      (fuel : ℕ) (tail : List ℕ) (sent : List Event) (p : ℕ) (content : List ℕ)
      → parse_value is_double (suc (suc fuel)) (at room sent (b'[' ∷ b']' ∷ tail) p content)
        ≡ ok (
            closed_at room array_end tail
              (p + 1)
              content
              ((sent ++ (location p ∷ [])) ++ (array_begin ∷ [])))
  unfolding parse_value parse_array whitespace skip
  empty_array fuel tail sent p content = refl

  pub array_read : (xs : Items) → ReadsItems xs → ReadsValue is_double room (Value.array xs)
  unfolding render render_items events item_events
  array_read xs h zero tail sent p content f l d = absurd (omega arith)
  array_read xs h (suc zero) tail sent p content f l d = absurd (omega arith)
  array_read no_items h (suc (suc fuel)) tail sent p content f l d =
      read_opened room tail sent p array_begin (array_end ∷ []) (unfold semantic in refl)
        (empty_array fuel tail sent p content)
        (read_located room tail _ (p + 1) (p + 1 + 1) content array_end (unfold semantic in refl))
  array_read (item v xs) h (suc (suc fuel)) tail sent p content f l d =
      let n = length-append (render v ++ render_items false xs) (b']' ∷ []) in
      let es = events v ++ (item_events xs ++ (array_end ∷ [])) in
      let r =
        h fuel tail ((sent ++ (location p ∷ [])) ++ (array_begin ∷ [])) (p + 1) content
          (omega arith) (omega arith) in
      rw
        (
          append_assoc (events v) (item_events xs) (array_end ∷ []),
          append_assoc (render v ++ render_items false xs) (b']' ∷ []) tail,
          append_assoc (render v) (render_items false xs) (b']' ∷ tail),
        )
        (read_opened room tail sent p array_begin es (unfold semantic in refl)
          (array_opened fuel (render v) (render_items false xs ++ (b']' ∷ tail)) sent p content
            (render-Front v))
          r)

  pub items_lem :
      (v : Value) (xs : Items)
      → ReadsValue is_double room v
      → ReadsItems xs
      → ReadsItems (item v xs)
  items_lem v no_items hv h = last_item v hv
  items_lem v (item v' xs) hv h = more_items v v' xs hv h
