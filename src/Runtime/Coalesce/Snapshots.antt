-- ===== src/Runtime/Coalesce/Snapshots.antt =====
-- The snapshots of a stream end with its whole text.
use Prim.Native.Char.{code}
use Prim.Native.String.{◌++◌ as ◌⧺◌}
use Prim.Native.String.append as Append
use durable_acp.Prelude.{
  ℕ, ◌+◌, ◌<◌, ◌≡◌, refl, sym, ap, ◌∙◌, subst, inl, inr, String, true, false, some, List, [], ◌∷◌,
  ◌++◌, arith, ◌==◌, ==_iff, str_eq, eq_refl, if◌then◌else◌, Bool-cases,
}
use durable_acp.Host.{Event}
use durable_acp.Runtime.Coalesce.{
  char_bytes, byte_length, Coalescer, is_assistant_delta, flush, join_stream, in_stream, handle,
  fire,
}

char_bytes_pos : (c : ℕ) → 0 < char_bytes c
unfolding char_bytes
char_bytes_pos c = ground arith

pub byte_length_zero : (s : String) → byte_length s ≡ 0 → s ≡ ""
unfolding byte_length
byte_length_zero String.[] h = refl
byte_length_zero (String.◌∷◌ c s) h = absurd (omega (arith, h, char_bytes_pos (code c)))

pub byte_length-append : (s t : String) → byte_length (s ⧺ t) ≡ byte_length s + byte_length t
unfolding byte_length
byte_length-append String.[] t = rw (Append.nil t) (omega arith)
byte_length-append (String.◌∷◌ c s) t =
    rw (Append.cons c s t) (omega (arith, byte_length-append s t))

pub append_nil : (s : String) → s ⧺ "" ≡ s
append_nil String.[] = Append.nil ""
append_nil (String.◌∷◌ c s) = Append.cons c s "" ∙ ap (String.◌∷◌ c) (append_nil s)

string_append_assoc : (s t u : String) → (s ⧺ t) ⧺ u ≡ s ⧺ (t ⧺ u)
string_append_assoc String.[] t u = rw (Append.nil t, Append.nil (t ⧺ u)) refl
string_append_assoc (String.◌∷◌ c s) t u =
    rw (Append.cons c s t, Append.cons c (s ⧺ t) u, Append.cons c s (t ⧺ u))
      (ap (String.◌∷◌ c) (string_append_assoc s t u))

-- What a reader shows for a stream who puts each event in place of the one before it with its source
-- identifier: the last such message, or the one that is given if there is none.
unfoldable pub shown : String → String → List Event → String
shown id before [] = before
shown id before (e ∷ es) = shown id (if str_eq e.source_event_id id then e.message else before) es

pub shown-append :
    (id before : String) (es fs : List Event)
    → shown id before (es ++ fs) ≡ shown id (shown id before es) fs
unfolding shown
shown-append id before [] fs = refl
shown-append id before (e ∷ es) fs =
    shown-append id (if str_eq e.source_event_id id then e.message else before) es fs

-- A stream is pending with a text, of which what is shown is a beginning, as long as was flushed.
pub record Streams (id turn_id stream_type text out : String) (c : Coalescer) : Type 0 where
  pub event : Event
  pub is_pending : c.pending ≡ some event
  pub its_id : event.source_event_id ≡ id
  pub its_text : event.message ≡ text
  pub its_turn : c.turn_id ≡ turn_id
  pub its_type : c.stream_type ≡ stream_type
  pub is_open : c.closed ≡ false
  pub rest : String
  pub begins : text ≡ out ⧺ rest
  pub size : c.flushed ≡ byte_length out

-- Nothing is left of a text when all its bytes were flushed.
all_flushed :
    (text out rest : String) → text ≡ out ⧺ rest → byte_length text ≡ byte_length out → out ≡ text
all_flushed text out rest e size =
    let none_left : byte_length rest ≡ 0 =
      omega (arith, ap byte_length e, byte_length-append out rest, size) in
    sym (append_nil out) ∙ ap (λ r. out ⧺ r) (sym (byte_length_zero rest none_left)) ∙ sym e

-- A flush shows the whole text.
pub flush-Streams :
    (id turn_id stream_type text out : String) (c : Coalescer)
    → Streams id turn_id stream_type text out c
    → (shown id out (flush c).0 ≡ text) × Streams id turn_id stream_type text text (flush c).1
unfolding shown flush
flush-Streams id turn_id stream_type text out c s =
    elim (Bool-cases (byte_length s.event.message == c.flushed)) [
      | inl same ↦
          let size : byte_length text ≡ byte_length out =
            ap byte_length (sym s.its_text)
            ∙ (==_iff (byte_length s.event.message) c.flushed).0 same
            ∙ s.size in
          simp (flush, s.is_pending, same)
            (
              all_flushed text out s.rest s.begins size,
              record {
                event = s.event;
                is_pending = s.is_pending;
                its_id = s.its_id;
                its_text = s.its_text;
                its_turn = s.its_turn;
                its_type = s.its_type;
                is_open = s.is_open;
                rest = "";
                begins = sym (append_nil text);
                size = s.size ∙ sym size;
              },
            )
      | inr more ↦
          simp (flush, s.is_pending, more, s.its_id, eq_refl)
            (
              s.its_text,
              record {
                event = s.event;
                is_pending = refl;
                its_id = s.its_id;
                its_text = s.its_text;
                its_turn = s.its_turn;
                its_type = s.its_type;
                is_open = s.is_open;
                rest = "";
                begins = sym (append_nil text);
                size = ap byte_length s.its_text;
              },
            )
    ]

-- What happens to a coalescer while a stream goes on: a further delta, or the timer.
pub data Move : Type 0 where
  further : Event → Move
  tick : Move

unfoldable pub move : Move → Coalescer → List Event × Coalescer
unfolding handle fire
move (further e) c = handle e c
move tick c = fire c

unfoldable pub run_moves : List Move → Coalescer → List Event × Coalescer
run_moves [] c = ([], c)
run_moves (m ∷ ms) c = let (es, c') = move m c in let (fs, c'') = run_moves ms c' in (es ++ fs, c'')

unfoldable pub text_of : String → List Move → String
text_of text [] = text
text_of text (further e ∷ ms) = text_of (text ⧺ e.message) ms
text_of text (tick ∷ ms) = text_of text ms

-- All the deltas belong to the stream.
abbrev pub InStream : String → String → List Move → Type 0
InStream turn_id stream_type [] = Unit {0}
InStream turn_id stream_type (further e ∷ ms) =
    ((is_assistant_delta e ≡ true) × (e.backend_turn_id ≡ turn_id) × (e.event_type ≡ stream_type))
    × InStream turn_id stream_type ms
InStream turn_id stream_type (tick ∷ ms) = InStream turn_id stream_type ms

module _ (id turn_id stream_type : String) where
  further-Streams :
      (text out : String) (c : Coalescer) (e : Event)
      → Streams id turn_id stream_type text out c
      → is_assistant_delta e ≡ true
      → e.backend_turn_id ≡ turn_id
      → e.event_type ≡ stream_type
      → Streams id turn_id stream_type
          (text ⧺ e.message)
          (shown id out (handle e c).0)
          (handle e c).1
  unfolding handle join_stream in_stream shown
  further-Streams text out c e s d t k =
      let same_turn =
        ap (λ x. str_eq x e.backend_turn_id) (s.its_turn ∙ sym t) ∙ eq_refl e.backend_turn_id in
      let same_type = ap (λ x. str_eq x e.event_type) (s.its_type ∙ sym k) ∙ eq_refl e.event_type in
      simp (handle, s.is_open, d, s.is_pending, same_turn, same_type)
        (record {
          event = record s.event { message = s.event.message ⧺ e.message; time = e.time };
          is_pending = refl;
          its_id = s.its_id;
          its_text = ap (λ x. x ⧺ e.message) s.its_text;
          its_turn = s.its_turn;
          its_type = s.its_type;
          is_open = refl;
          rest = s.rest ⧺ e.message;
          begins = ap (λ x. x ⧺ e.message) s.begins ∙ string_append_assoc out s.rest e.message;
          size = s.size;
        })

  fire-Streams :
      (text out : String) (c : Coalescer)
      → Streams id turn_id stream_type text out c
      → Streams id turn_id stream_type text (shown id out (fire c).0) (fire c).1
  unfolding fire flush
  fire-Streams text out c s =
      let idle : Streams id turn_id stream_type text out (record c { timer = false }) = record {
        event = s.event;
        is_pending = s.is_pending;
        its_id = s.its_id;
        its_text = s.its_text;
        its_turn = s.its_turn;
        its_type = s.its_type;
        is_open = s.is_open;
        rest = s.rest;
        begins = s.begins;
        size = s.size;
      } in
      let (whole, after) =
        flush-Streams id turn_id stream_type text out (record c { timer = false }) idle in
      simp (fire, s.is_open)
        (subst
          (λ (x : String).
            Streams id turn_id stream_type text x (flush (record c { timer = false })).1)
          (sym whole) after)

  pub run_moves-Streams :
      (ms : List Move) (text out : String) (c : Coalescer)
      → InStream turn_id stream_type ms
      → Streams id turn_id stream_type text out c
      → Streams id turn_id stream_type
          (text_of text ms)
          (shown id out (run_moves ms c).0)
          (run_moves ms c).1
  unfolding run_moves text_of shown move
  run_moves-Streams [] text out c h s = s
  run_moves-Streams (further e ∷ ms) text out c ((d, t, k), h) s =
      subst
        (λ (x : String).
          Streams id turn_id stream_type (text_of (text ⧺ e.message) ms) x
            (run_moves ms (handle e c).1).1)
        (sym (shown-append id out (handle e c).0 (run_moves ms (handle e c).1).0))
        (run_moves-Streams ms (text ⧺ e.message) (shown id out (handle e c).0) (handle e c).1 h
          (further-Streams text out c e s d t k))
  run_moves-Streams (tick ∷ ms) text out c h s =
      subst
        (λ (x : String).
          Streams id turn_id stream_type (text_of text ms) x (run_moves ms (fire c).1).1)
        (sym (shown-append id out (fire c).0 (run_moves ms (fire c).1).0))
        (run_moves-Streams ms text (shown id out (fire c).0) (fire c).1 h
          (fire-Streams text out c s))
