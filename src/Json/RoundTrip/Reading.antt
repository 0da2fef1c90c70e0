-- ===== src/Json/RoundTrip/Reading.antt =====
-- What it means that a parsing function reads a text: where its cursor ends and what it sends.
use server_entry.Prelude.{
  ℕ, ◌+◌, ◌≤◌, ◌≡◌, refl, ap, ◌∙◌, sym, List, [], ◌∷◌, ◌++◌, append_assoc, append-nil, arith,
  length, length-append, true, false, ◌==◌,
}
use server_entry.Json.Ascii.{json_is_whitespace}
use server_entry.Json.Escape.{escaped, escape}
use server_entry.Json.Integer.{pos, negsuc, to_chars, decimal, decimal-Numeral}
use server_entry.Json.Value.{Value, text, integer, boolean, null, render}
use server_entry.Json.Parser.{
  Event, location, object_begin, object_end, array_begin, array_end, key, string, number, Cursor,
  Run, ok, whitespace, skip,
}
use server_entry.Json.Parser
use server_entry.Json.RoundTrip.Strings.{at}

abbrev sent_value : Event → List Event
sent_value (location p) = []
sent_value object_begin = object_begin ∷ []
sent_value object_end = object_end ∷ []
sent_value array_begin = array_begin ∷ []
sent_value array_end = array_end ∷ []
sent_value (key k) = key k ∷ []
sent_value (string s) = string s ∷ []
sent_value (Parser.integer z) = Parser.integer z ∷ []
sent_value (number t) = number t ∷ []
sent_value (Parser.boolean b) = Parser.boolean b ∷ []
sent_value Parser.null = Parser.null ∷ []

-- The events without the locations.
unfoldable pub semantic : List Event → List Event
semantic [] = []
semantic (e ∷ es) = sent_value e ++ semantic es

pub semantic-append : (es fs : List Event) → semantic (es ++ fs) ≡ semantic es ++ semantic fs
unfolding semantic
semantic-append [] fs = refl
semantic-append (e ∷ es) fs =
    ap (λ t. sent_value e ++ t) (semantic-append es fs)
    ∙ sym (append_assoc (sent_value e) (semantic es) (semantic fs))

-- A run ends in front of `tail`, has sent `es` besides locations, and keeps the room of the buffer.
pub record Reads (room : ℕ) (run : Run Cursor) (tail : List ℕ) (sent es : List Event) : Type 0 where
  pub position : ℕ
  pub content : List ℕ
  pub events : List Event
  pub outcome : run ≡ ok (at room events tail position content)
  pub sends : semantic events ≡ semantic sent ++ es

-- The first character of a value: no whitespace and no closing bracket.
abbrev pub IsStart : ℕ → Type 0
IsStart x = (json_is_whitespace x ≡ false) × ((x == b']') ≡ false)

pub record Front (xs : List ℕ) : Type 0 where
  pub first : ℕ
  pub more : List ℕ
  pub split : xs ≡ first ∷ more
  pub start : IsStart first

abbrev front : (x : ℕ) (more : List ℕ) → IsStart x → Front (x ∷ more)
front x more s = record { first = x; more = more; split = refl; start = s }

decimal-Front : (n : ℕ) → Front (decimal n)
decimal-Front n =
    let t = decimal-Numeral n in
    let d = t.digit in
    record { first = t.front; more = t.more; split = t.split; start = (ground arith, ground arith) }

pub render-Front : (v : Value) → Front (render v)
unfolding render to_chars
render-Front (text s) = front _ _ (refl, refl)
render-Front (integer (pos n)) = decimal-Front n
render-Front (integer (negsuc n)) = front _ _ (refl, refl)
render-Front (boolean true) = front _ _ (refl, refl)
render-Front (boolean false) = front _ _ (refl, refl)
render-Front null = front _ _ (refl, refl)
render-Front (Value.array xs) = front _ _ (refl, refl)
render-Front (Value.object fs) = front _ _ (refl, refl)

module _ (room : ℕ) where
  -- Whitespace is skipped at once in front of a value.
  pub whitespace-Front :
      (sent : List Event) (xs tail : List ℕ) (p : ℕ) (content : List ℕ)
      → Front xs
      → whitespace (at room sent (xs ++ tail) p content) ≡ at room sent (xs ++ tail) p content
  whitespace-Front sent xs tail p content f =
      rw f.split (unfold whitespace in unfold skip in rw (f.start.0) refl)

  -- A reading that goes on where another ends.
  pub chain :
      {run run' : Run Cursor} (next : ℕ → List ℕ → List Event → Run Cursor) (middle tail : List ℕ)
      (sent es fs : List Event)
      → Reads room run middle sent es
      → ((p : ℕ) (content : List ℕ) (events : List Event)
          → run ≡ ok (at room events middle p content)
          → run' ≡ next p content events)
      → ((p : ℕ) (content : List ℕ) (events : List Event)
          → Reads room (next p content events) tail events fs)
      → Reads room run' tail sent (es ++ fs)
  chain next middle tail sent es fs r go rest =
      let r' = rest r.position r.content r.events in
      record {
        position = r'.position;
        content = r'.content;
        events = r'.events;
        outcome = go r.position r.content r.events r.outcome ∙ r'.outcome;
        sends = r'.sends ∙ ap (λ t. t ++ fs) r.sends ∙ append_assoc (semantic sent) es fs;
      }

  -- One event, behind a location or not.
  pub read_event :
      (tail : List ℕ) (sent : List Event) (p : ℕ) (content : List ℕ) (e : Event)
      → semantic (e ∷ []) ≡ e ∷ []
      → Reads room (ok (at room (sent ++ (e ∷ [])) tail p content)) tail sent (e ∷ [])
  read_event tail sent p content e s = record {
    position = p;
    content = content;
    events = sent ++ (e ∷ []);
    outcome = refl;
    sends = semantic-append sent (e ∷ []) ∙ ap (λ t. semantic sent ++ t) s;
  }

  located_semantic :
      (sent : List Event) (p : ℕ) (e : Event)
      → semantic (e ∷ []) ≡ e ∷ []
      → semantic ((sent ++ (location p ∷ [])) ++ (e ∷ [])) ≡ semantic sent ++ (e ∷ [])
  located_semantic sent p e s =
      rw
        (
          semantic-append (sent ++ (location p ∷ [])) (e ∷ []),
          semantic-append sent (location p ∷ []),
          s,
        )
        (unfold semantic in rw (append-nil (semantic sent)) refl)

  pub read_located :
      (tail : List ℕ) (sent : List Event) (p p' : ℕ) (content : List ℕ) (e : Event)
      → semantic (e ∷ []) ≡ e ∷ []
      → Reads room
          (ok (at room ((sent ++ (location p ∷ [])) ++ (e ∷ [])) tail p' content))
          tail
          sent
          (e ∷ [])
  read_located tail sent p p' content e s = record {
    position = p';
    content = content;
    events = (sent ++ (location p ∷ [])) ++ (e ∷ []);
    outcome = refl;
    sends = located_semantic sent p e s;
  }

  -- A reading behind a location and an opening event.
  pub read_opened :
      {run run' : Run Cursor} (tail : List ℕ) (sent : List Event) (p : ℕ) (e : Event)
      (fs : List Event)
      → semantic (e ∷ []) ≡ e ∷ []
      → run' ≡ run
      → Reads room run tail ((sent ++ (location p ∷ [])) ++ (e ∷ [])) fs
      → Reads room run' tail sent (e ∷ fs)
  read_opened tail sent p e fs s q r = record {
    position = r.position;
    content = r.content;
    events = r.events;
    outcome = q ∙ r.outcome;
    sends =
        r.sends
        ∙ ap (λ t. t ++ fs) (located_semantic sent p e s)
        ∙ append_assoc (semantic sent) (e ∷ []) fs;
  }

  -- The cursor behind a closing character, its location and its event sent.
  abbrev pub closed_at : Event → List ℕ → ℕ → List ℕ → List Event → Cursor
  closed_at e tail p content sent =
      at room ((sent ++ (location p ∷ [])) ++ (e ∷ [])) tail (p + 1) content

escaped_size : (c : ℕ) → 1 ≤ length (escaped c)
unfolding escaped
escaped_size c = ground arith

pub escape_size : (s : List ℕ) → length s ≤ length (escape s)
unfolding escape
escape_size [] = omega arith
escape_size (c ∷ s) =
    omega (arith, escape_size s, escaped_size c, length-append (escaped c) (escape s))
