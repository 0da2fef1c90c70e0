-- ===== src/Json/RoundTrip/Objects.antt =====
-- parse_object reads the text of its members back.
use server_entry.Prelude.{
  ℕ, zero, suc, ◌+◌, ◌*◌, ◌≤◌, ◌≡◌, refl, ap, ◌∙◌, List, [], ◌∷◌, ◌++◌, append_assoc, arith, length,
  length-append, Bool, false, inl, inr,
}
use server_entry.Json.Escape.{quote, escape}
use server_entry.Json.Value.{
  Value, Fields, no_fields, field, quotation, render, render_fields, events, field_events, IsUtf8,
}
use server_entry.Json.Parser.{
  Event, location, object_begin, object_end, key, Cursor, Run, ok, ◌>>=◌, whitespace, skip,
}
use server_entry.Json.Parser.Document.{
  parse_value, parse_object, parse_members, parse_key, parse_colon,
}
use server_entry.Json.Parser.Document.{close_or_comma}
use server_entry.Json.RoundTrip.Strings.{at}
use server_entry.Json.RoundTrip.StringLoop.{parse_string-quotation}
use server_entry.Json.RoundTrip.Reading.{
  semantic, Reads, escape_size, chain, read_opened, read_located, closed_at,
}
use server_entry.Json.RoundTrip.Scalars.{ReadsValue}

module _ (is_double : List ℕ → Bool) (room : ℕ) where
  -- A key, its colon and its quotes are passed.
  key_read :
      (k rest : List ℕ) (sent : List Event) (p : ℕ) (content : List ℕ)
      → IsUtf8 k
      → length k ≤ room
      → (p' : ℕ) × (parse_key (whitespace (at room sent (quotation k ++ (b':' ∷ rest)) p content))
          ≡ ok (at room ((sent ++ (location p ∷ [])) ++ (key k ∷ [])) rest p' k))
  key_read k rest sent p content u h =
      let (p', run) = parse_string-quotation room sent k (b':' ∷ rest) content p u h in
      (
        p' + 1,
        unfold whitespace in unfold skip in unfold parse_key in unfold parse_colon in rw run refl,
      )

  -- What follows the key of a member.
  abbrev member_value : ℕ → Cursor → Run Cursor
  member_value fuel c = parse_value is_double fuel c >>= λ c'.
      close_or_comma b'}' object_end (λ d. parse_members is_double fuel d) (whitespace c')

  -- The members up to the brace behind them.
  abbrev pub ReadsFields : Fields → Type 0
  ReadsFields no_fields = Unit {0}
  ReadsFields (field k v fs) =
      (fuel : ℕ) (tail : List ℕ) (sent : List Event) (p : ℕ) (content : List ℕ)
      → 3 * length (quotation k ++ (b':' ∷ (render v ++ render_fields false fs))) + 2 ≤ fuel
      → length (quotation k ++ (b':' ∷ (render v ++ render_fields false fs))) ≤ room
      → Reads room
          (parse_members is_double fuel (
            at room sent
              (quotation k ++ (b':' ∷ (render v ++ (render_fields false fs ++ (b'}' ∷ tail))))) p
              content))
          tail sent (key k ∷ (events v ++ (field_events fs ++ (object_end ∷ []))))

  member_read :
      (k : List ℕ) (v : Value) (fs : Fields) (fuel : ℕ) (tail : List ℕ) (sent : List Event) (p : ℕ)
      (content : List ℕ) (es : List Event)
      → IsUtf8 k
      → length k ≤ room
      → ((sent : List Event) (p : ℕ) (content : List ℕ)
          → Reads room
              (member_value fuel
                (at room sent (render v ++ (render_fields false fs ++ (b'}' ∷ tail))) p content))
              tail
              sent
              es)
      → Reads room
          (parse_members is_double (suc fuel) (
            at room sent
              (quotation k ++ (b':' ∷ (render v ++ (render_fields false fs ++ (b'}' ∷ tail)))))
              p
              content))
          tail
          sent
          (key k ∷ es)
  member_read k v fs fuel tail sent p content es u l h =
      let rest = render v ++ (render_fields false fs ++ (b'}' ∷ tail)) in
      let (p', run) = key_read k rest sent p content u l in
      read_opened room tail sent p (key k) es (unfold semantic in refl) (entered p' rest run)
        (h ((sent ++ (location p ∷ [])) ++ (key k ∷ [])) p' k)
    where
      entered :
          (p' : ℕ) (rest : List ℕ)
          → parse_key (whitespace (at room sent (quotation k ++ (b':' ∷ rest)) p content))
            ≡ ok (at room ((sent ++ (location p ∷ [])) ++ (key k ∷ [])) rest p' k)
          → parse_members is_double
              (suc fuel)
              (at room sent (quotation k ++ (b':' ∷ rest)) p content)
            ≡ member_value fuel (at room ((sent ++ (location p ∷ [])) ++ (key k ∷ [])) rest p' k)
      entered p' rest run = unfold parse_members in rw run refl

  field_size :
      (k : List ℕ) (v : Value) (fs : Fields)
      → length k + 3 + length (render v) + length (render_fields false fs)
        ≤ length (quotation k ++ (b':' ∷ (render v ++ render_fields false fs)))
  field_size k v fs = omega (
    arith,
    length-append (quotation k) (b':' ∷ (render v ++ render_fields false fs)),
    length-append (escape k) (quote ∷ []),
    length-append (render v) (render_fields false fs),
    escape_size k,
  )

  last_field :
      (k : List ℕ) (v : Value)
      → IsUtf8 k
      → ReadsValue is_double room v
      → ReadsFields (field k v no_fields)
  unfolding render_fields field_events
  last_field k v u hv zero tail sent p content f l = absurd (omega arith)
  last_field k v u hv (suc fuel) tail sent p content f l =
      let n = field_size k v no_fields in
      member_read k v no_fields fuel tail sent p content (events v ++ (object_end ∷ [])) u
        (omega arith)
        (λ sent₁ p₁ content₁.
          chain room
            (λ p' content' events'. ok (closed_at room object_end tail p' content' events'))
            (b'}' ∷ tail) tail sent₁ (events v) (object_end ∷ [])
            (hv fuel (b'}' ∷ tail) sent₁ p₁ content₁ (omega arith) (omega arith) (inr (inr refl)))
            (λ p' content' events' e. unfold whitespace in unfold skip in rw e refl)
            (λ p' content' events'.
              read_located room tail events' p' (p' + 1) content' object_end
                (unfold semantic in refl)))

  more_fields :
      (k k' : List ℕ) (v v' : Value) (fs : Fields)
      → IsUtf8 k
      → ReadsValue is_double room v
      → ReadsFields (field k' v' fs)
      → ReadsFields (field k v (field k' v' fs))
  unfolding render_fields field_events
  more_fields k k' v v' fs u hv hfs zero tail sent p content f l = absurd (omega arith)
  more_fields k k' v v' fs u hv hfs (suc fuel) tail sent p content f l =
      let n = field_size k v (field k' v' fs) in
      let inner = quotation k' ++ (b':' ∷ (render v' ++ render_fields false fs)) in
      let rest =
        quotation k' ++ (b':' ∷ (render v' ++ (render_fields false fs ++ (b'}' ∷ tail)))) in
      let es = key k' ∷ (events v' ++ (field_events fs ++ (object_end ∷ []))) in
      let shorter : inner ++ (b'}' ∷ tail) ≡ rest =
        append_assoc (quotation k') (b':' ∷ (render v' ++ render_fields false fs)) (b'}' ∷ tail)
        ∙ ap (λ t. quotation k' ++ (b':' ∷ t))
            (append_assoc (render v') (render_fields false fs) (b'}' ∷ tail)) in
      rw (append_assoc (events v') (field_events fs) (object_end ∷ [])) (
        member_read k v (field k' v' fs) fuel tail sent p content (events v ++ es) u (omega arith)
          (λ sent₁ p₁ content₁.
            chain room
              (λ p' content' events'.
                parse_members is_double fuel (at room events' rest (p' + 1) content'))
              (b',' ∷ (inner ++ (b'}' ∷ tail))) tail sent₁ (events v) es
              (hv fuel (b',' ∷ (inner ++ (b'}' ∷ tail))) sent₁ p₁ content₁ (omega arith)
                (omega arith) (inl refl))
              (λ p' content' events' e.
                unfold whitespace in
                unfold skip in
                rw e (
                  ap (λ t. parse_members is_double fuel (at room events' t (p' + 1) content'))
                    shorter))
              (λ p' content' events'.
                hfs fuel tail events' (p' + 1) content' (omega arith) (omega arith))))

  empty_object :
      (fuel : ℕ) (tail : List ℕ) (sent : List Event) (p : ℕ) (content : List ℕ)
      → parse_value is_double (suc (suc fuel)) (at room sent (b'{' ∷ b'}' ∷ tail) p content)
        ≡ ok (
            closed_at room object_end tail
              (p + 1)
              content
              ((sent ++ (location p ∷ [])) ++ (object_begin ∷ [])))
  unfolding parse_value parse_object whitespace skip
  empty_object fuel tail sent p content = refl

  brace_opened :
      (fuel : ℕ) (k rest : List ℕ) (sent : List Event) (p : ℕ) (content : List ℕ)
      → parse_value is_double
          (suc (suc fuel))
          (at room sent (b'{' ∷ (quotation k ++ rest)) p content)
        ≡ parse_members is_double fuel (
            at room
              ((sent ++ (location p ∷ [])) ++ (object_begin ∷ []))
              (quotation k ++ rest)
              (p + 1)
              content)
  unfolding parse_value parse_object whitespace skip
  brace_opened fuel k rest sent p content = refl

  pub object_read : (fs : Fields) → ReadsFields fs → ReadsValue is_double room (Value.object fs)
  unfolding render render_fields events field_events
  object_read fs h zero tail sent p content f l d = absurd (omega arith)
  object_read fs h (suc zero) tail sent p content f l d = absurd (omega arith)
  object_read no_fields h (suc (suc fuel)) tail sent p content f l d =
      read_opened room tail sent p object_begin (object_end ∷ []) (unfold semantic in refl)
        (empty_object fuel tail sent p content)
        (read_located room tail _ (p + 1) (p + 1 + 1) content object_end (unfold semantic in refl))
  object_read (field k v fs) h (suc (suc fuel)) tail sent p content f l d =
      let inner = quotation k ++ (b':' ∷ (render v ++ render_fields false fs)) in
      let n = length-append inner (b'}' ∷ []) in
      let rest = b':' ∷ (render v ++ (render_fields false fs ++ (b'}' ∷ tail))) in
      let es = key k ∷ (events v ++ (field_events fs ++ (object_end ∷ []))) in
      let r =
        h fuel tail ((sent ++ (location p ∷ [])) ++ (object_begin ∷ [])) (p + 1) content
          (omega arith) (omega arith) in
      let longer : (inner ++ (b'}' ∷ [])) ++ tail ≡ quotation k ++ rest =
        append_assoc inner (b'}' ∷ []) tail
        ∙ append_assoc (quotation k) (b':' ∷ (render v ++ render_fields false fs)) (b'}' ∷ tail)
        ∙ ap (λ t. quotation k ++ (b':' ∷ t))
            (append_assoc (render v) (render_fields false fs) (b'}' ∷ tail)) in
      rw (append_assoc (events v) (field_events fs) (object_end ∷ []), longer)
        (read_opened room tail sent p object_begin es (unfold semantic in refl)
          (brace_opened fuel k rest sent p content) r)

  pub fields_lem :
      (k : List ℕ) (v : Value) (fs : Fields)
      → IsUtf8 k
      → ReadsValue is_double room v
      → ReadsFields fs
      → ReadsFields (field k v fs)
  fields_lem k v no_fields u hv h = last_field k v u hv
  fields_lem k v (field k' v' fs) u hv h = more_fields k k' v v' fs u hv h
