-- ===== src/Runtime/Coalesce/Streaming.antt =====
-- A stream from its first delta until the coalescer is closed.
use Prim.Native.String.append as Append
use durable_acp.Prelude.{
  ℕ, ◌+◌, ◌≡◌, refl, sym, ap, ◌∙◌, subst, ◌⊎◌, inl, inr, String, Bool, true, false, none, List,
  ◌++◌, ◌==◌, ==_iff, eq_refl, is_empty, Bool-cases, Option-cases,
}
use durable_acp.Host.{Event}
use durable_acp.Runtime.Coalesce.{
  byte_length, Coalescer, is_assistant_delta, stream_source_id, stream_data, flush, clear,
  start_stream, begin_stream, in_stream, handle, close_coalescer,
}
use durable_acp.Runtime.Coalesce.Snapshots.{
  shown, shown-append, Streams, flush-Streams, Move, run_moves, text_of, InStream,
  run_moves-Streams, byte_length_zero,
}

pub flush-closed : (c : Coalescer) → (flush c).1.closed ≡ c.closed
unfolding flush
flush-closed c = elim (Option-cases c.pending) [
  | inl h ↦ simp (flush, h) refl
  | inr (p, h) ↦ elim (Bool-cases (byte_length p.message == c.flushed)) [
    | inl same ↦ simp (flush, h, same) refl
    | inr more ↦ simp (flush, h, more) refl
  ]
]

flush-message : (c : Coalescer) → (flush c).1.message ≡ c.message
unfolding flush
flush-message c = elim (Option-cases c.pending) [
  | inl h ↦ simp (flush, h) refl
  | inr (p, h) ↦ elim (Bool-cases (byte_length p.message == c.flushed)) [
    | inl same ↦ simp (flush, h, same) refl
    | inr more ↦ simp (flush, h, more) refl
  ]
]

-- The identifier of the stream that an event begins.
abbrev pub next_id : Event → Coalescer → String
next_id e c = stream_source_id e.session_id e.backend_turn_id (c.message + 1)

begin_stream-Streams :
    (e : Event) (c : Coalescer)
    → c.closed ≡ false
    → Streams (next_id e c) e.backend_turn_id e.event_type e.message "" (begin_stream e c)
unfolding begin_stream clear byte_length
begin_stream-Streams e c h = record {
  event = record e { source_event_id = next_id e c; fields = stream_data e };
  is_pending = refl;
  its_id = refl;
  its_text = refl;
  its_turn = refl;
  its_type = refl;
  is_open = h;
  rest = e.message;
  begins = sym (Append.nil e.message);
  size = refl;
}

true_ne_false : {b : Bool} → b ≡ true → b ≡ false → ⊥
true_ne_false h e = cc

nonempty_bytes : (s : String) → is_empty s ≡ false → (byte_length s == 0) ≡ false
nonempty_bytes s h = elim (Bool-cases (byte_length s == 0)) [
  | inl z ↦
      absurd (true_ne_false (ap is_empty (byte_length_zero s ((==_iff (byte_length s) 0).0 z))) h)
  | inr z ↦ z
]

-- The first snapshot is delivered at once.
flush_first :
    (id turn_id stream_type text x : String) (c : Coalescer)
    → Streams id turn_id stream_type text "" c
    → is_empty text ≡ false
    → shown id x (flush c).0 ≡ text
unfolding shown flush byte_length
flush_first id turn_id stream_type text x c s h =
    let size = ap (λ t. byte_length t == 0) s.its_text ∙ nonempty_bytes text h in
    simp (flush, s.is_pending, s.size, size, s.its_id, eq_refl) s.its_text

start_stream-Streams :
    (e : Event) (c : Coalescer) (x : String)
    → c.closed ≡ false
    → is_empty e.message ≡ false
    → (shown (next_id e c) x (start_stream e c).0 ≡ e.message)
      × Streams
          (next_id e c)
          e.backend_turn_id
          e.event_type
          e.message
          e.message
          (start_stream e c).1
unfolding start_stream
start_stream-Streams e c x h full =
    let c' = (flush c).1 in
    let begun : Streams (next_id e c) e.backend_turn_id e.event_type e.message ""
        (begin_stream e c') =
      subst
        (λ (n : ℕ).
          Streams (stream_source_id e.session_id e.backend_turn_id (n + 1)) e.backend_turn_id
            e.event_type e.message "" (begin_stream e c'))
        (flush-message c) (begin_stream-Streams e c' (flush-closed c ∙ h)) in
    (
      shown-append (next_id e c) x (flush c).0 (flush (begin_stream e c')).0
          ∙ flush_first (next_id e c) e.backend_turn_id e.event_type e.message
              (shown (next_id e c) x (flush c).0) (begin_stream e c') begun full,
      (flush-Streams (next_id e c) e.backend_turn_id e.event_type e.message "" (begin_stream e c')
          begun).1,
    )

-- No stream is pending that a delta belongs to.
abbrev pub Starts : Event → Coalescer → Type 0
Starts e c = (c.pending ≡ none) ⊎ (in_stream e c ≡ false)

handle-eq-start_stream :
    (e : Event) (c : Coalescer)
    → c.closed ≡ false
    → is_assistant_delta e ≡ true
    → Starts e c
    → handle e c ≡ start_stream e c
unfolding handle
handle-eq-start_stream e c h d (inl new) = simp (handle, h, d, new) refl
handle-eq-start_stream e c h d (inr other) = elim (Option-cases c.pending) [
  | inl new ↦ simp (handle, h, d, new) refl
  | inr (p, pending) ↦ simp (handle, h, d, pending, other) refl
]

close_coalescer-Streams :
    (id turn_id stream_type text out : String) (c : Coalescer)
    → Streams id turn_id stream_type text out c
    → shown id out (close_coalescer c).0 ≡ text
unfolding close_coalescer flush
close_coalescer-Streams id turn_id stream_type text out c s =
    simp (close_coalescer, s.is_open) (flush-Streams id turn_id stream_type text out c s).0

-- All that is produced from the first delta of a stream on, through the moves that follow, until the
-- coalescer is closed, in the order in which the calls take the lock.
unfoldable pub streamed : Event → List Move → Coalescer → List Event
streamed e moves c =
    let (first, c') = handle e c in
    let (more, c'') = run_moves moves c' in first ++ (more ++ (close_coalescer c'').0)

-- Whatever was shown before, in the order in which the calls take the lock the last snapshot of the stream
-- has the texts of all its deltas.
pub streamed_lem :
    (e : Event) (moves : List Move) (c : Coalescer) (x : String)
    → c.closed ≡ false
    → is_assistant_delta e ≡ true
    → Starts e c
    → is_empty e.message ≡ false
    → InStream e.backend_turn_id e.event_type moves
    → shown (next_id e c) x (streamed e moves c) ≡ text_of e.message moves
unfolding streamed
streamed_lem e moves c x open_still delta starts full inside =
    let id = next_id e c in
    let c' = (start_stream e c).1 in
    let (first, begun) = start_stream-Streams e c x open_still full in
    let through =
      run_moves-Streams id e.backend_turn_id e.event_type moves e.message e.message c' inside
        begun in
    let last = (close_coalescer (run_moves moves c').1).0 in
    let whole : shown id x ((start_stream e c).0 ++ ((run_moves moves c').0 ++ last))
        ≡ text_of e.message moves =
      shown-append id x (start_stream e c).0 ((run_moves moves c').0 ++ last)
      ∙ ap (λ t. shown id t ((run_moves moves c').0 ++ last)) first
      ∙ shown-append id e.message (run_moves moves c').0 last
      ∙ close_coalescer-Streams id e.backend_turn_id e.event_type (text_of e.message moves)
          (shown id e.message (run_moves moves c').0) (run_moves moves c').1 through in
    subst
      (λ (r : List Event × Coalescer).
        shown id x (r.0 ++ ((run_moves moves r.1).0 ++ (close_coalescer (run_moves moves r.1).1).0))
        ≡ text_of e.message moves)
      (sym (handle-eq-start_stream e c open_still delta starts)) whole
