-- ===== src/Json/Writer/Refusal.antt =====
-- How json_writer fails: what a call that is refused leaves behind.
use server_entry.Prelude.{
  subst, ℕ, ◌≡◌, refl, ap, sym, Bool, true, false, List, [], ◌∷◌, Option, arith,
}
use server_entry.Json.Integer.{ℤ}
use server_entry.Json.Buffer.{append}
use server_entry.Json.Writer.{
  Writer, object, array, Call, or_refuse, on_output, ◌&&call◌, before_value, begin_object,
  end_object, push_frame, begin_array, end_array, quoted, key, string, integer, number, boolean,
  null, complete,
}

-- The calls of a client.
pub data Operation : Type 0 where
  begin_object_call end_object_call begin_array_call end_array_call : Operation
  key_call string_call : List ℕ → Operation
  integer_call : ℤ → Operation
  number_call : Bool → Option (List ℕ) → Operation
  boolean_call : Bool → Operation
  null_call : Operation

unfoldable pub perform : Operation → Call
perform begin_object_call = begin_object
perform end_object_call = end_object
perform begin_array_call = begin_array
perform end_array_call = end_array
perform (key_call k) = key k
perform (string_call s) = string s
perform (integer_call z) = integer z
perform (number_call f t) = number f t
perform (boolean_call b) = boolean b
perform null_call = null

-- A run of calls whatever they return, and the statuses.
unfoldable pub perform_all : List Operation → Writer → Writer × List Bool
perform_all [] w = (w, [])
perform_all (op ∷ ops) w =
    let (w', okay) = perform op w in let (w'', rest) = perform_all ops w' in (w'', okay ∷ rest)

abbrev pub nothing_done : Writer → Writer × Bool
nothing_done w = (w, false)

abbrev pub all_refused : List Operation → List Bool
all_refused [] = []
all_refused (op ∷ ops) = false ∷ all_refused ops

abbrev pub refused_at : List Operation → Writer → Writer × List Bool
refused_at ops w = (w, all_refused ops)

abbrev broken : Writer → Writer
broken w = record w { valid = false }

broken_same : (w : Writer) → w.valid ≡ false → broken w ≡ w
broken_same w h = rw (sym h) refl

perform-broken : (op : Operation) (w : Writer) → perform op (broken w) ≡ nothing_done (broken w)
unfolding perform begin_object end_object begin_array end_array key string integer number boolean
    null before_value
perform-broken begin_object_call w = refl
perform-broken end_object_call w = refl
perform-broken begin_array_call w = refl
perform-broken end_array_call w = refl
perform-broken (key_call k) w = refl
perform-broken (string_call s) w = refl
perform-broken (integer_call z) w = refl
perform-broken (number_call f t) w = refl
perform-broken (boolean_call b) w = refl
perform-broken null_call w = refl

-- An invalid writer refuses every call and stays as it is.
perform_invalid : (op : Operation) (w : Writer) → w.valid ≡ false → perform op w ≡ nothing_done w
perform_invalid op w h =
    subst (λ t. perform op t ≡ nothing_done t) (broken_same w h) (perform-broken op w)

-- Once a writer is invalid, each further call fails, whatever the calls are: the output does not
-- change, and the document is never complete.
pub perform_all_invalid :
    (ops : List Operation) (w : Writer)
    → w.valid ≡ false
    → (perform_all ops w ≡ refused_at ops w) × (complete (perform_all ops w).0 ≡ false)
unfolding perform_all complete
perform_all_invalid [] w h = (refl, rw h refl)
perform_all_invalid (op ∷ ops) w h =
    let rest = perform_all_invalid ops w h in
    rw (perform_invalid op w h) (ap (λ t. (t.0, false ∷ t.1)) rest.0, rest.1)

-- The calls that leave the writer invalid where they fail. The others are `integer`, `boolean` and
-- `null`.
abbrev pub IsStrict : Operation → Type 0
IsStrict (integer_call z) = ⊥
IsStrict (boolean_call b) = ⊥
IsStrict null_call = ⊥
IsStrict op = Unit {0}

abbrev Invalidates : Call → Type 0
Invalidates p = (w : Writer) → (p w).1 ≡ false → (p w).0.valid ≡ false

or_refuse-Invalidates : (p : Call) → Invalidates (or_refuse p)
or_refuse-Invalidates p w h = ground arith

before_value-Invalidates : Invalidates before_value
unfolding before_value
before_value-Invalidates w h = ground arith

begin_object-Invalidates : Invalidates begin_object
unfolding begin_object
begin_object-Invalidates =
    or_refuse-Invalidates
      (before_value &&call on_output (append (b'{' ∷ [])) &&call push_frame object)

begin_array-Invalidates : Invalidates begin_array
unfolding begin_array
begin_array-Invalidates =
    or_refuse-Invalidates
      (before_value &&call on_output (append (b'[' ∷ [])) &&call push_frame array)

end_object-Invalidates : Invalidates end_object
unfolding end_object
end_object-Invalidates w h = ground arith

end_array-Invalidates : Invalidates end_array
unfolding end_array
end_array-Invalidates w h = ground arith

key-Invalidates : (k : List ℕ) → Invalidates (key k)
unfolding key
key-Invalidates k w h = ground arith

quoted-Invalidates : (s : List ℕ) → Invalidates (quoted s)
unfolding quoted
quoted-Invalidates s w h = ground arith

string-Invalidates : (s : List ℕ) → Invalidates (string s)
unfolding string
string-Invalidates s w h =
    ground (arith, before_value-Invalidates w, quoted-Invalidates s (before_value w).0)

number-Invalidates : (f : Bool) (t : Option (List ℕ)) → Invalidates (number f t)
unfolding number
number-Invalidates f t w h = ground arith

strict_fails :
    (op : Operation) (w : Writer)
    → IsStrict op
    → (perform op w).1 ≡ false
    → (perform op w).0.valid ≡ false
unfolding perform
strict_fails begin_object_call w s h = begin_object-Invalidates w h
strict_fails end_object_call w s h = end_object-Invalidates w h
strict_fails begin_array_call w s h = begin_array-Invalidates w h
strict_fails end_array_call w s h = end_array-Invalidates w h
strict_fails (key_call k) w s h = key-Invalidates k w h
strict_fails (string_call t) w s h = string-Invalidates t w h
strict_fails (number_call f t) w s h = number-Invalidates f t w h
strict_fails (integer_call z) w s h = absurd s
strict_fails (boolean_call b) w s h = absurd s
strict_fails null_call w s h = absurd s

-- A strict call that fails, be it for the structure of the document, a string that is not UTF-8 or
-- want of memory, leaves the writer invalid, and every later call fails without output.
pub failure_is_permanent :
    (op : Operation) (ops : List Operation) (w : Writer)
    → IsStrict op
    → (perform op w).1 ≡ false
    → ((perform op w).0.valid ≡ false)
      × (perform_all ops (perform op w).0 ≡ refused_at ops (perform op w).0)
failure_is_permanent op ops w s h =
    let broke = strict_fails op w s h in (broke, (perform_all_invalid ops (perform op w).0 broke).0)

before_value_valid : (w : Writer) → (before_value w).1 ≡ true → (before_value w).0.valid ≡ true
unfolding before_value
before_value_valid w h = ground arith

-- The other calls, where a value may stand: a failure for want of memory leaves the writer valid.
pub soft_failure :
    (op : Operation) (w : Writer)
    → ¬ IsStrict op
    → (before_value w).1 ≡ true
    → (perform op w).1 ≡ false
    → (perform op w).0.valid ≡ true
unfolding perform integer boolean null
soft_failure begin_object_call w n b h = absurd (n tt)
soft_failure end_object_call w n b h = absurd (n tt)
soft_failure begin_array_call w n b h = absurd (n tt)
soft_failure end_array_call w n b h = absurd (n tt)
soft_failure (key_call k) w n b h = absurd (n tt)
soft_failure (string_call t) w n b h = absurd (n tt)
soft_failure (number_call f t) w n b h = absurd (n tt)
soft_failure (integer_call z) w n b h = rw b (before_value_valid w b)
soft_failure (boolean_call v) w n b h = rw b (before_value_valid w b)
soft_failure null_call w n b h = rw b (before_value_valid w b)
