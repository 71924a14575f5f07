-- ===== src/Runtime/Sending/Placing.antt =====
-- Where a turn that is sent goes.
use Prim.Native.String.{◌++◌ as ◌⧺◌}
use durable_acp.Prelude.{Option-cases, some_injective, increment, true, err, ◌||◌, ◌&&◌, subst, sym}
use durable_acp.Runtime.State.{session_not_found, unsupported_backend}
use durable_acp.Runtime.Delivery.{decimal_int}
use durable_acp.Prelude.{
  ℕ, String, ◌≡◌, refl, ap, ◌∙◌, inl, inr, Bool, false, Option, none, some, List, [], ◌∷◌, ◌++◌,
  length, leb, is_empty, trim_space, Bool-cases, Result-cases, ok, if◌then◌else◌, Map, lookup,
  lookup-insert_self,
}
use durable_acp.Session.{closed}
use durable_acp.Host.{Value, SendTurnRequest}
use durable_acp.Journal.Record.{Bytes}
use durable_acp.Journal.Replay.{Json}
use durable_acp.Runtime.State.{
  ManagedSession, QueueEntry, TurnDispatch, Runtime, Clock, put, adapter_locked,
}
use durable_acp.Runtime.Configuration.{fill_turn_configuration}
use durable_acp.Runtime.Turns.{has_status}
use durable_acp.Runtime.Delivery.{Appender}
use durable_acp.Runtime.Delivery.Sessions.{Frame, Frame-trans, KeepsEntry, emit_queue-Frame}
use durable_acp.Runtime.Sending.{
  Submission, Placement, no_room, in_queue, at_once, is_busy, queue_entry, enqueue, begin_dispatch,
  place_turn, lacks_prompt, submit_turn, carry_out, send,
}
use durable_acp.Runtime.Sending.Frames.{submit_turn-Frame}

unfoldable pub queue_of : Option ManagedSession → List QueueEntry
queue_of none = []
queue_of (some m) = m.queue

queue-kept : (o p : Option ManagedSession) → KeepsEntry o p → queue_of p ≡ queue_of o
unfolding queue_of
queue-kept none none k = refl
queue-kept none (some m) k = absurd k
queue-kept (some m) none k = absurd k
queue-kept (some m) (some m') k = k.same_queue

-- The entry of a turn that is queued: numbered in its session, with the prompt and the attachments that
-- were asked for, and with the configured value where the request leaves one blank.
abbrev pub entry_for : SendTurnRequest → ManagedSession → QueueEntry
entry_for request m = record {
  id = trim_space request.session_id ⧺ ":q:" ⧺ decimal_int (increment m.next_queue_seq);
  request = record request {
    session_id = trim_space request.session_id;
    model = if is_empty (trim_space request.model) then m.configuration.model else request.model;
    reasoning =
        if is_empty (trim_space request.reasoning)
        then m.configuration.reasoning
        else request.reasoning;
    permission_mode =
        if is_empty (trim_space request.permission_mode)
        then m.configuration.permission_mode
        else request.permission_mode;
  };
}

-- The queue of a session that takes turns, after one was sent to it.
abbrev pub queue_with : Bool → ℕ → QueueEntry → ManagedSession → List QueueEntry
queue_with next limit entry m =
    if m.active || m.dispatching || m.dispatch_blocked
    then (if leb limit (length m.queue)
        then m.queue
        else if next
        then entry ∷ m.queue
        else m.queue ++ entry ∷ [])
    else m.queue

abbrev placed_queue : Placement → List QueueEntry → List QueueEntry
placed_queue (no_room n) q = q
placed_queue (in_queue entry m) q = m.queue
placed_queue (at_once m) q = m.queue

place_turn-queue :
    (next : Bool) (limit : ℕ) (id : String) (request : SendTurnRequest) (m : ManagedSession)
    → placed_queue (place_turn next limit id request m) m.queue
      ≡ queue_with next limit (queue_entry id request m) m
unfolding place_turn enqueue begin_dispatch
place_turn-queue next limit id request m = elim (Bool-cases (is_busy m)) [
  | inr idle ↦ simp (place_turn, idle) refl
  | inl busy ↦ elim (Bool-cases (leb limit (length m.queue))) [
    | inl full ↦ simp (place_turn, busy, full) refl
    | inr room ↦ simp (place_turn, busy, room) refl
  ]
]

none_ne_some {ℓ} : {A : Type ℓ} {a : A} → ◌≡◌ {A = Option A} none (some a) → ⊥
none_ne_some h = cc

module _ {ℓ} {J : Type ℓ} (json : Json) (marshal : Map Value → Option Bytes)
    (append_record : Appender J) where
  put-queue :
      (id : String) (m : ManagedSession) (r r' : Runtime J)
      → Frame (put id m r) r'
      → queue_of (lookup id r'.sessions) ≡ m.queue
  unfolding put queue_of
  put-queue id m r r' f =
      queue-kept (lookup id (put id m r).sessions) (lookup id r'.sessions) (f.kept id)
      ∙ ap queue_of (lookup-insert_self id m r.sessions)

  carry_out-queue :
      (clock : Clock) (id : String) (request : SendTurnRequest) (out : Submission) (p : Placement)
      (r : Runtime J)
      → queue_of
          (lookup id (carry_out json marshal append_record clock id request out p r).1.sessions)
        ≡ placed_queue p (queue_of (lookup id r.sessions))
  unfolding carry_out
  carry_out-queue clock id request out (no_room n) r = refl
  carry_out-queue clock id request out (in_queue entry m) r =
      put-queue id m r _ (emit_queue-Frame json marshal append_record clock id (put id m r))
  carry_out-queue clock id request out (at_once m) r =
      let d : TurnDispatch = record {
        session_id = id;
        queue_entry_id = "";
        request = request;
        queued = false;
      } in
      let r' = put id m r in
      let sent = submit_turn json marshal append_record clock d out r' in
      let frame = submit_turn-Frame json marshal append_record clock d out r' in
      elim (Result-cases sent.0) [
        | inr (e, a) ↦ simp (carry_out, a) (put-queue id m r sent.1 frame)
        | inl (state, a) ↦
            simp (carry_out, a)
              (put-queue id m r _ (
                Frame-trans r' sent.1 _ frame
                  (emit_queue-Frame json marshal append_record clock id sent.1)))
      ]

  -- A session takes a turn that names it and has a prompt or an attachment, if it is not closed and its
  -- backend has an adapter.
  unfoldable pub takes : SendTurnRequest → Runtime J → ManagedSession → Bool
  takes request r m =
      if is_empty (trim_space request.session_id)
      then false
      else if is_empty (trim_space request.prompt)
          && elim request.attachments [ [] ↦ true | a ∷ as' ↦ false ]
      then false
      else if has_status closed m
      then false
      else elim (lookup m.session.backend r.adapters) [ none ↦ false | some a ↦ true ]

  -- The queue of a session after a turn was sent.
  unfoldable pub queue_after : Bool → SendTurnRequest → Runtime J → List QueueEntry
  queue_after next request r = elim (lookup (trim_space request.session_id) r.sessions) [
    | none ↦ []
    | some m ↦
        if takes request r m
        then queue_with next r.max_queued_turns (entry_for request m) m
        else m.queue
  ]

  refused-queue :
      (next : Bool) (request : SendTurnRequest) (r : Runtime J)
      → ((m : ManagedSession)
          → lookup (trim_space request.session_id) r.sessions ≡ some m
          → takes request r m ≡ false)
      → queue_of (lookup (trim_space request.session_id) r.sessions) ≡ queue_after next request r
  unfolding queue_of queue_after
  refused-queue next request r refused =
      elim (Option-cases (lookup (trim_space request.session_id) r.sessions)) [
        | inl h ↦ simp (queue_after, h) refl
        | inr (m, h) ↦ let nothing = refused m h in simp (queue_after, h, nothing) refl
      ]

  taken-queue :
      (next : Bool) (request : SendTurnRequest) (r : Runtime J) (m : ManagedSession)
      → lookup (trim_space request.session_id) r.sessions ≡ some m
      → takes request r m ≡ true
      → queue_after next request r ≡ queue_with next r.max_queued_turns (entry_for request m) m
  unfolding queue_after
  taken-queue next request r m h t = simp (queue_after, h, t) refl

  entry_lem :
      (request : SendTurnRequest) (m : ManagedSession)
      → queue_entry
          (trim_space request.session_id)
          (fill_turn_configuration
            (record request { session_id = trim_space request.session_id })
            m.configuration)
          m
        ≡ entry_for request m
  unfolding queue_entry fill_turn_configuration
  entry_lem request m = refl

  sent-queue :
      (clock : Clock) (next : Bool) (request : SendTurnRequest) (out : Submission) (r : Runtime J)
      (m : ManagedSession)
      → is_empty (trim_space request.session_id) ≡ false
      → lacks_prompt request ≡ false
      → lookup (trim_space request.session_id) r.sessions ≡ some m
      → queue_of (
          lookup
            (trim_space request.session_id)
            (send json marshal append_record clock next request out r).1.sessions)
        ≡ queue_after next request r
  unfolding send takes adapter_locked queue_of
  sent-queue clock next request out r m asked said h =
      let id = trim_space request.session_id in
      elim (Option-cases (lookup m.session.backend r.adapters)) [
        | inl a ↦
            let locked : adapter_locked id r ≡ err (unsupported_backend m.session.backend) =
              simp (adapter_locked, h, a) refl in
            simp (send, asked, said, locked)
              (refused-queue next request r (λ m' h'.
                let same = some_injective (sym h ∙ h') in
                subst (λ (x : ManagedSession). takes request r x ≡ false) same
                  (elim (Bool-cases (has_status closed m)) [
                    | inl c ↦ simp (takes, asked, said, c) refl
                    | inr c ↦ simp (takes, asked, said, c, a) refl
                  ])))
        | inr (adapter, a) ↦
            let locked : adapter_locked id r ≡ ok (m, adapter) = simp (adapter_locked, h, a) refl in
            elim (Bool-cases (has_status closed m)) [
              | inl c ↦
                  simp (send, asked, said, locked, c)
                    (refused-queue next request r (λ m' h'.
                      let same = some_injective (sym h ∙ h') in
                      subst (λ (x : ManagedSession). takes request r x ≡ false) same
                        (simp (takes, asked, said, c) refl)))
              | inr c ↦
                  let filled =
                    fill_turn_configuration (record request { session_id = id }) m.configuration in
                  let p = place_turn next r.max_queued_turns id filled m in
                  let there = ap queue_of h in
                  let taken : takes request r m ≡ true = simp (takes, asked, said, c, a) refl in
                  simp (send, asked, said, locked, c)
                    (carry_out-queue clock id filled out p r
                      ∙ ap (placed_queue p) there
                      ∙ place_turn-queue next r.max_queued_turns id filled m
                      ∙ ap (λ (x : QueueEntry). queue_with next r.max_queued_turns x m)
                          (entry_lem request m)
                      ∙ sym (taken-queue next request r m h taken))
            ]
      ]

  -- After a turn was sent, whatever the adapter does, the queue of its session is what it was, and has
  -- the turn at its end (`Send`) or at its front (`SendNext`) if the session takes it and is busy, and
  -- there is room. It takes a turn that names it and has a prompt or an attachment, if it is not closed
  -- and its backend has an adapter; it is busy while a turn is active or on its way, or dispatch is
  -- blocked. The entry has the next number of the session, and the configured values where the request
  -- has none.
  pub send-queue :
      (clock : Clock) (next : Bool) (request : SendTurnRequest) (out : Submission) (r : Runtime J)
      → queue_of (
          lookup
            (trim_space request.session_id)
            (send json marshal append_record clock next request out r).1.sessions)
        ≡ queue_after next request r
  unfolding send takes adapter_locked
  send-queue clock next request out r =
      let id = trim_space request.session_id in
      elim (Bool-cases (is_empty id)) [
        | inl blank ↦
            simp (send, blank) (refused-queue next request r (λ m h. simp (takes, blank) refl))
        | inr asked ↦ elim (Bool-cases (lacks_prompt request)) [
          | inl empty ↦
              simp (send, asked, empty)
                (refused-queue next request r (λ m h. simp (takes, asked, empty) refl))
          | inr said ↦ elim (Option-cases (lookup id r.sessions)) [
            | inl h ↦
                let locked : adapter_locked id r ≡ err (session_not_found id) =
                  simp (adapter_locked, h) refl in
                simp (send, asked, said, locked)
                  (refused-queue next request r (λ m h'. absurd (none_ne_some (sym h ∙ h'))))
            | inr (m, h) ↦ sent-queue clock next request out r m asked said h
          ]
        ]
      ]
