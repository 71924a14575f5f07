-- ===== src/Runtime/Coalesce/Delivered.antt =====
-- What a coalescer has delivered when nothing is on its way any more, and after it was closed.
use mathlib.Core.List.{Mem, Perm, mem-cons_self, mem-cons_of_mem}
use mathlib.Core.List.Perm
use durable_acp.Prelude.{
  String, ◌≡◌, ◌≢◌, refl, sym, ap, ◌∙◌, subst, ◌⊎◌, inl, inr, true, false, List, [], ◌∷◌, ◌++◌,
  append-nil, append_assoc, str_eq, eq_iff, is_empty, Bool-cases,
}
use durable_acp.Host.{Event}
use durable_acp.Runtime.Coalesce.{
  Coalescer, is_assistant_delta, handle, fire, close_coalescer, new_delta_coalescer,
}
use durable_acp.Runtime.Coalesce.Snapshots.{
  shown, Move, further, tick, move, run_moves, text_of, InStream,
}
use durable_acp.Runtime.Coalesce.Streaming.{Starts, next_id, streamed, streamed_lem}
use durable_acp.Runtime.Coalesce.Calls.{
  Call, handles, ticks, closes, perform, perform_all, silent, close_coalescer-closed,
}
use durable_acp.Runtime.Coalesce.Emission.{
  Emission, Act, locks, act, act_all, calls_of, join, pool, act_all-pool,
}

-- An emission that starts from a coalescer.
abbrev pub start_with : Coalescer → Emission
start_with c = record { coalescer = c; in_flight = []; delivered = [] }

-- The calls of a stream that goes on until the coalescer is closed.
unfoldable pub calls_from : List Move → List Call
calls_from [] = closes ∷ []
calls_from (further e ∷ moves) = handles e ∷ calls_from moves
calls_from (tick ∷ moves) = ticks ∷ calls_from moves

calls_from-run_moves :
    (moves : List Move) (c : Coalescer)
    → (perform_all (calls_from moves) c).0
      ≡ (run_moves moves c).0 ++ (close_coalescer (run_moves moves c).1).0
unfolding calls_from perform_all perform run_moves move
calls_from-run_moves [] c = append-nil (close_coalescer c).0
calls_from-run_moves (further e ∷ moves) c =
    let (es, c') = handle e c in
    ap (λ x. es ++ x) (calls_from-run_moves moves c')
    ∙ sym (append_assoc es (run_moves moves c').0 (close_coalescer (run_moves moves c').1).0)
calls_from-run_moves (tick ∷ moves) c =
    let (es, c') = fire c in
    ap (λ x. es ++ x) (calls_from-run_moves moves c')
    ∙ sym (append_assoc es (run_moves moves c').0 (close_coalescer (run_moves moves c').1).0)

-- An event of a stream with a text.
pub record Delivers (id text : String) (es : List Event) : Type 0 where
  pub event : Event
  pub among : Mem event es
  pub its_id : event.source_event_id ≡ id
  pub its_text : event.message ≡ text

shown-Delivers :
    (id before : String) (es : List Event)
    → (shown id before es ≡ before) ⊎ Delivers id (shown id before es) es
unfolding shown
shown-Delivers id before [] = inl refl
shown-Delivers id before (e ∷ es) = elim (Bool-cases (str_eq e.source_event_id id)) [
  | inl h ↦
      let first : shown id before (e ∷ es) ≡ shown id e.message es = simp (shown, h) refl in
      elim (shown-Delivers id e.message es) [
        | inl same ↦ inr (record {
          event = e;
          among = mem-cons_self;
          its_id = (eq_iff e.source_event_id id).0 h;
          its_text = sym (first ∙ same);
        })
        | inr d ↦ inr (record {
          event = d.event;
          among = mem-cons_of_mem e d.among;
          its_id = d.its_id;
          its_text = d.its_text ∙ sym first;
        })
      ]
  | inr h ↦
      let first : shown id before (e ∷ es) ≡ shown id before es = simp (shown, h) refl in
      elim (shown-Delivers id before es) [
        | inl same ↦ inl (first ∙ same)
        | inr d ↦ inr (record {
          event = d.event;
          among = mem-cons_of_mem e d.among;
          its_id = d.its_id;
          its_text = d.its_text ∙ sym first;
        })
      ]
]

Delivers-perm :
    (id text : String) (es fs : List Event) → Perm es fs → Delivers id text es → Delivers id text fs
Delivers-perm id text es fs p d = record {
  event = d.event;
  among = Perm.subset p d.event d.among;
  its_id = d.its_id;
  its_text = d.its_text;
}

true_ne_false : true ≢ false
true_ne_false h = cc

-- Events that show a text whatever was shown before have an event with that text.
Delivers-shown :
    (id text : String) (es : List Event)
    → ((x : String) → shown id x es ≡ text)
    → Delivers id text es
Delivers-shown id text es h = elim (shown-Delivers id "" es) [
  | inr d ↦ subst (λ (t : String). Delivers id t es) (h "") d
  | inl empty ↦ elim (shown-Delivers id "a" es) [
    | inr d ↦ subst (λ (t : String). Delivers id t es) (h "a") d
    | inl same ↦
        let clash : "" ≡ "a" = sym empty ∙ h "" ∙ sym (h "a") ∙ same in
        absurd (true_ne_false (ap is_empty clash))
  ]
]

-- A stream begins, on a coalescer that is open and in which no stream of its turn and type is pending,
-- with a delta with some text; further deltas of its turn and type and the timer come in any order, and
-- then the close; and the events that these calls produce are delivered in any order in which each call
-- delivers its own in turn. When nothing is on its way any more, an event was delivered under the
-- identifier of the stream that has the texts of all its deltas, one after the other; and in the order in
-- which the calls took the lock, this text is the last one under that identifier, whatever was shown
-- before.
pub delivered_lem :
    (e : Event) (moves : List Move) (c : Coalescer) (acts : List Act) (x : String)
    → c.closed ≡ false
    → is_assistant_delta e ≡ true
    → Starts e c
    → is_empty e.message ≡ false
    → InStream e.backend_turn_id e.event_type moves
    → calls_of acts ≡ handles e ∷ calls_from moves
    → join (act_all acts (start_with c)).in_flight ≡ []
    → Delivers (next_id e c) (text_of e.message moves) (act_all acts (start_with c)).delivered
      × (shown (next_id e c) x (perform_all (calls_of acts) c).0 ≡ text_of e.message moves)
unfolding join perform_all perform streamed
delivered_lem e moves c acts x open_still delta starts full inside calls landed =
    let id = next_id e c in
    let text = text_of e.message moves in
    let out = act_all acts (start_with c) in
    let es = (perform_all (calls_of acts) c).0 in
    let produced : es ≡ streamed e moves c =
      ap (λ ks. (perform_all ks c).0) calls
      ∙ ap (λ x. (handle e c).0 ++ x) (calls_from-run_moves moves (handle e c).1) in
    let last = λ (x : String).
      ap (shown id x) produced ∙ streamed_lem e moves c x open_still delta starts full inside in
    let all_landed = ap (λ x. out.delivered ++ x) landed ∙ append-nil out.delivered in
    let order : Perm es out.delivered =
      Perm.symm
        (subst (λ (l : List Event). Perm l es) all_landed (act_all-pool acts (start_with c))) in
    (Delivers-perm id text es out.delivered order (Delivers-shown id text es last), last x)

-- Once a new coalescer, after any calls and deliveries, has been closed, no call produces an event any
-- more: whatever is called and delivered afterwards, the events delivered and on their way are those that
-- were delivered or on their way when Close released the lock.
pub close_coalescer-final :
    (before after : List Act)
    → let closing = act (locks closes) (act_all before (start_with new_delta_coalescer)) in
      Perm (pool (act_all after closing)) (pool closing)
unfolding act perform
close_coalescer-final before after =
    let s = act_all before (start_with new_delta_coalescer) in
    let closing = act (locks closes) s in
    let nothing = silent (calls_of after) closing.coalescer (close_coalescer-closed s.coalescer) in
    subst (λ (l : List Event). Perm (pool (act_all after closing)) l)
      (ap (λ x. pool closing ++ x) nothing ∙ append-nil (pool closing)) (act_all-pool after closing)
