-- ===== src/Runtime/Bounds/Turns.antt =====
-- Turns that are sent and dispatched keep a runtime in order.
use durable_acp.Prelude.{
  ℕ, zero, suc, ◌≤◌, String, ◌≡◌, refl, sym, ap, ◌∙◌, inl, inr, Bool, true, false, Option, [], ◌∷◌,
  arith, length, length-append, leb, is_empty, trim_space, Bool-cases, Option-cases, Result-cases,
  Map,
}
use durable_acp.Session.{closed}
use durable_acp.Host.{Value, SendTurnRequest}
use durable_acp.Journal.Record.{Bytes}
use durable_acp.Journal.Replay.{Json}
use durable_acp.Runtime.State.{
  ManagedSession, QueueEntry, TurnDispatch, Runtime, Clock, put, adapter_locked,
}
use durable_acp.Runtime.Configuration.{fill_turn_configuration}
use durable_acp.Runtime.Turns.{has_status}
use durable_acp.Runtime.Delivery.{Appender, emit_queue}
use durable_acp.Runtime.Delivery.Sessions.{Frame-trans, emit_queue-Frame}
use durable_acp.Runtime.Sending.{
  Submission, Placement, no_room, in_queue, at_once, is_busy, queue_entry, enqueue, begin_dispatch,
  place_turn, lacks_prompt, submit_turn, carry_out, send, next_turn, dispatch_once, dispatch_queued,
}
use durable_acp.Runtime.Sending.Frames.{submit_turn-Frame}
use durable_acp.Runtime.Sending.Dispatching.{Taken, next_turn-Taken, adapter_locked-found}
use durable_acp.Runtime.Bounds.{
  IsOrderly, IsBounded, IsBounded-entry, Frame-IsBounded, put-IsBounded,
}

true_ne_false : {b : Bool} → b ≡ true → b ≡ false → ⊥
true_ne_false h e = cc

length-enqueue :
    (next : Bool) (entry : QueueEntry) (m : ManagedSession)
    → length (enqueue next entry m).queue ≡ suc (length m.queue)
unfolding enqueue
length-enqueue true entry m = refl
length-enqueue false entry m = omega (arith, length-append m.queue (entry ∷ []))

enqueue-open :
    (next : Bool) (entry : QueueEntry) (m : ManagedSession)
    → has_status closed (enqueue next entry m) ≡ has_status closed m
unfolding enqueue
enqueue-open next entry m = refl

-- A placement that leaves the session in order.
abbrev OrderlyPlacement : ℕ → Placement → Type 0
OrderlyPlacement limit (no_room n) = Unit {0}
OrderlyPlacement limit (in_queue entry m) = IsOrderly limit m
OrderlyPlacement limit (at_once m) = IsOrderly limit m

place_turn-IsOrderly :
    (next : Bool) (limit : ℕ) (id : String) (request : SendTurnRequest) (m : ManagedSession)
    → IsOrderly limit m
    → has_status closed m ≡ false
    → OrderlyPlacement limit (place_turn next limit id request m)
unfolding place_turn begin_dispatch
place_turn-IsOrderly next limit id request m o c = elim (Bool-cases (is_busy m)) [
  | inr idle ↦ simp (place_turn, idle) (record { within = o.within; empty = λ e. o.empty e })
  | inl busy ↦ elim (Bool-cases (leb limit (length m.queue))) [
    | inl full ↦ simp (place_turn, busy, full) tt
    | inr room ↦
        let entry = queue_entry id request m in
        let size = length-enqueue next entry m in
        let fits : suc (length m.queue) ≤ limit = ground (arith, room) in
        simp (place_turn, busy, room)
          (record {
            within = omega (arith, size, fits);
            empty = λ e. absurd (true_ne_false (sym (enqueue-open next entry m) ∙ e) c);
          })
  ]
]

-- A turn that is taken leaves the session in order.
next_turn-IsOrderly :
    (limit : ℕ) (m : ManagedSession) (entry : QueueEntry) (m' : ManagedSession)
    → Taken m entry m'
    → IsOrderly limit m
    → IsOrderly limit m'
unfolding begin_dispatch
next_turn-IsOrderly limit m entry m' t o =
    let status : has_status closed m' ≡ has_status closed m = ap (has_status closed) t.dispatches in
    record {
      within = omega (arith, o.within, ap length t.first);
      empty = λ e. absurd (true_ne_false (sym status ∙ e) t.still_open);
    }

module _ {ℓ} {J : Type ℓ} (json : Json) (marshal : Map Value → Option Bytes)
    (append_record : Appender J) where
  carry_out-IsBounded :
      (clock : Clock) (id : String) (request : SendTurnRequest) (out : Submission) (p : Placement)
      (r : Runtime J)
      → IsBounded r
      → OrderlyPlacement r.max_queued_turns p
      → IsBounded (carry_out json marshal append_record clock id request out p r).1
  unfolding carry_out
  carry_out-IsBounded clock id request out (no_room n) r h o = h
  carry_out-IsBounded clock id request out (in_queue entry m) r h o =
      Frame-IsBounded (put id m r) _ (put-IsBounded id m r h o)
        (emit_queue-Frame json marshal append_record clock id (put id m r))
  carry_out-IsBounded clock id request out (at_once m) r h o =
      let d : TurnDispatch = record {
        session_id = id;
        queue_entry_id = "";
        request = request;
        queued = false;
      } in
      let r' = put id m r in
      let sent = submit_turn json marshal append_record clock d out r' in
      let frame = submit_turn-Frame json marshal append_record clock d out r' in
      let begun = put-IsBounded id m r h o in
      elim (Result-cases sent.0) [
        | inr (e, a) ↦ simp (carry_out, a) (Frame-IsBounded r' sent.1 begun frame)
        | inl (state, a) ↦
            simp (carry_out, a)
              (Frame-IsBounded r' _ begun (
                Frame-trans r' sent.1 _ frame
                  (emit_queue-Frame json marshal append_record clock id sent.1)))
      ]

  pub send-IsBounded :
      (clock : Clock) (next : Bool) (request : SendTurnRequest) (out : Submission) (r : Runtime J)
      → IsBounded r
      → IsBounded (send json marshal append_record clock next request out r).1
  unfolding send
  send-IsBounded clock next request out r h =
      let id = trim_space request.session_id in
      elim (Bool-cases (is_empty id)) [
        | inl none_asked ↦ simp (send, none_asked) h
        | inr asked ↦ elim (Bool-cases (lacks_prompt request)) [
          | inl blank ↦ simp (send, asked, blank) h
          | inr said ↦ elim (Result-cases (adapter_locked id r)) [
            | inr (e, a) ↦ simp (send, asked, said, a) h
            | inl ((m, adapter), a) ↦ elim (Bool-cases (has_status closed m)) [
              | inl shut ↦ simp (send, asked, said, a, shut) h
              | inr still ↦
                  let filled =
                    fill_turn_configuration (record request { session_id = id }) m.configuration in
                  let there = adapter_locked-found id r m adapter a in
                  simp (send, asked, said, a, still)
                    (carry_out-IsBounded clock id filled out _ r h (
                      place_turn-IsOrderly next r.max_queued_turns id filled m
                        (IsBounded-entry r id m h there) still))
            ]
          ]
        ]
      ]

  dispatch_once-IsBounded :
      (clock : Clock) (id : String) (out : Submission) (r : Runtime J)
      → IsBounded r
      → IsBounded (dispatch_once json marshal append_record clock id out r).1
  unfolding dispatch_once
  dispatch_once-IsBounded clock id out r h = elim (Result-cases (adapter_locked id r)) [
    | inr (e, a) ↦ simp (dispatch_once, a) h
    | inl ((m, adapter), a) ↦ elim (Option-cases (next_turn m)) [
      | inl t ↦ simp (dispatch_once, a, t) h
      | inr ((entry, m'), t) ↦
          let there = adapter_locked-found id r m adapter a in
          let taken = next_turn-Taken m entry m' t in
          let begun = put id m' r in
          let shown = emit_queue json marshal append_record clock id begun in
          let d : TurnDispatch = record {
            session_id = id;
            queue_entry_id = entry.id;
            request = entry.request;
            queued = true;
          } in
          let sent = submit_turn json marshal append_record clock d out shown in
          let frame =
            Frame-trans begun shown sent.1
              (emit_queue-Frame json marshal append_record clock id begun)
              (submit_turn-Frame json marshal append_record clock d out shown) in
          let fewer =
            next_turn-IsOrderly r.max_queued_turns m entry m' taken
              (IsBounded-entry r id m h there) in
          let ordered = Frame-IsBounded begun sent.1 (put-IsBounded id m' r h fewer) frame in
          elim (Result-cases sent.0) [
            | inl (state, b) ↦ simp (dispatch_once, a, t, b) ordered
            | inr (e, b) ↦ simp (dispatch_once, a, t, b) ordered
          ]
    ]
  ]

  pub dispatch_queued-IsBounded :
      (fuel : ℕ) (clock : Clock) (id : String) (outs : ℕ → Submission) (r : Runtime J)
      → IsBounded r
      → IsBounded (dispatch_queued json marshal append_record fuel clock id outs r).1
  unfolding dispatch_queued
  dispatch_queued-IsBounded zero clock id outs r h = h
  dispatch_queued-IsBounded (suc fuel) clock id outs r h =
      let once = dispatch_once json marshal append_record clock id (outs fuel) r in
      let ordered = dispatch_once-IsBounded clock id (outs fuel) r h in
      elim (Bool-cases once.0) [
        | inl more ↦
            simp (dispatch_queued, more)
              (dispatch_queued-IsBounded fuel clock id outs once.1 ordered)
        | inr done ↦ simp (dispatch_queued, done) ordered
      ]
