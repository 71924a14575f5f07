-- ===== src/Runtime/Bounds/Interrupts.antt =====
-- The calls that interrupt a turn, answer an interaction, and set what a session keeps.
use durable_acp.Prelude.{
  ℕ, String, refl, inl, inr, ◌||◌, Option, none, some, List, [], arith, is_empty, trim_space,
  Bool-cases, Option-cases, Result-cases, Map,
}
use durable_acp.Session.{running, waiting_input, is_status}
use durable_acp.Host.{Event, Value, InteractionResponse, SessionConfiguration}
use durable_acp.Journal.Record.{Bytes, Record}
use durable_acp.Journal.Replay.{Json, new_replay_matcher}
use durable_acp.Runtime.State.{
  ManagedSession, Runtime, Clock, RuntimeError, put, adapter_locked, session_of,
}
use durable_acp.Runtime.Configuration.{normalize_configuration}
use durable_acp.Runtime.Turns.{has_status, is_terminal}
use durable_acp.Runtime.Delivery.{Appender}
use durable_acp.Runtime.Delivery.Frame.{Keeps, Keeps-refl, plain_change, move_status-Keeps}
use durable_acp.Runtime.Delivery.Sessions.{
  Frame, Frame-refl, Frame-trans, put-Frame, deliver-Frame, emit_queue-Frame, either_way-Frame,
}
use durable_acp.Runtime.Sending.{deliver_each}
use durable_acp.Runtime.Sending.Frames.{deliver_each-Frame}
use durable_acp.Runtime.Sending.Dispatching.{adapter_locked-found}
use durable_acp.Runtime.Queueing.{
  PlainCall, resumed, interrupt_turn, finish_interrupt, interrupt, interrupt_active, reconcile_turn,
  set_replay_history, set_configuration, respond_interaction,
}
use durable_acp.Runtime.Bounds.{
  IsBounded, IsBounded-entry, Frame-IsBounded, put-IsBounded, either_way-IsBounded,
}
use durable_acp.Runtime.Bounds.Queues.{shorter-IsOrderly, session_of-found}

resumed-Keeps : (now : ℕ) (m : ManagedSession) → Keeps m (resumed now m)
unfolding resumed is_status
resumed-Keeps now m = elim (Bool-cases (has_status waiting_input m)) [
  | inl h ↦ simp (resumed, h) (move_status-Keeps now running m refl)
  | inr h ↦ simp (resumed, h) (Keeps-refl m)
]

module _ {ℓ} {J : Type ℓ} (json : Json) (marshal : Map Value → Option Bytes)
    (append_record : Appender J) where
  interrupt_turn-Frame :
      (clock : Clock) (id backend : String) (call : PlainCall) (r : Runtime J)
      → Frame r (interrupt_turn json marshal append_record clock id backend call r).1
  unfolding interrupt_turn
  interrupt_turn-Frame clock id backend call r =
      let r' = deliver_each json marshal append_record clock id call.delivered r in
      let during = deliver_each-Frame json marshal append_record clock id call.delivered r in
      elim (Option-cases call.failure) [
        | inr (what, h) ↦ simp (interrupt_turn, h) during
        | inl h ↦
            simp (interrupt_turn, h)
              (either_way-Frame _ r _ r'
                (Frame-trans r r' _ during (deliver-Frame json marshal append_record clock id _ r'))
                during)
      ]

  finish_interrupt-Frame :
      (clock : Clock) (id : String) (t : Option RuntimeError × Runtime J)
      → Frame t.1 (finish_interrupt json marshal append_record clock id t).1
  unfolding finish_interrupt
  finish_interrupt-Frame clock id (some e, r) = Frame-refl r
  finish_interrupt-Frame clock id (none, r) = emit_queue-Frame json marshal append_record clock id r

  pub interrupt-IsBounded :
      (clock : Clock) (session_id : String) (call : PlainCall) (r : Runtime J)
      → IsBounded r
      → IsBounded (interrupt json marshal append_record clock session_id call r).1
  unfolding interrupt
  interrupt-IsBounded clock session_id call r h =
      let id = trim_space session_id in
      elim (Result-cases (adapter_locked id r)) [
        | inr (e, a) ↦ simp (interrupt, a) h
        | inl ((m, adapter), a) ↦
            let there = adapter_locked-found id r m adapter a in
            let r' = put id (record m { queue = [] }) r in
            let cleared =
              put-IsBounded id (record m { queue = [] }) r h
                (shorter-IsOrderly r.max_queued_turns m [] (IsBounded-entry r id m h there)
                  (omega arith)) in
            let t = interrupt_turn json marshal append_record clock id m.session.backend call r' in
            simp (interrupt, a)
              (either_way-IsBounded m.active _ _
                (Frame-IsBounded r' _ cleared (
                  Frame-trans r' t.1 _ (interrupt_turn-Frame clock id m.session.backend call r')
                    (finish_interrupt-Frame clock id t)))
                (Frame-IsBounded r' _ cleared
                  (emit_queue-Frame json marshal append_record clock id r')))
      ]

  pub interrupt_active-Frame :
      (clock : Clock) (session_id : String) (call : PlainCall) (r : Runtime J)
      → Frame r (interrupt_active json marshal append_record clock session_id call r).1
  unfolding interrupt_active
  interrupt_active-Frame clock session_id call r =
      let id = trim_space session_id in
      elim (Result-cases (adapter_locked id r)) [
        | inr (e, a) ↦ simp (interrupt_active, a) (Frame-refl r)
        | inl ((m, adapter), a) ↦ elim (Bool-cases m.active) [
          | inl busy ↦
              simp (interrupt_active, a, busy)
                (interrupt_turn-Frame clock id m.session.backend call r)
          | inr idle ↦ simp (interrupt_active, a, idle) (Frame-refl r)
        ]
      ]

  pub reconcile_turn-Frame :
      (clock : Clock) (session_id : String) (e : Event) (r : Runtime J)
      → Frame r (reconcile_turn json marshal append_record clock session_id e r).1
  unfolding reconcile_turn
  reconcile_turn-Frame clock session_id e r =
      let id = trim_space session_id in
      elim (Bool-cases (is_terminal e)) [
        | inr other ↦ simp (reconcile_turn, other) (Frame-refl r)
        | inl ends ↦ elim (Result-cases (session_of id r)) [
          | inr (x, a) ↦ simp (reconcile_turn, ends, a) (Frame-refl r)
          | inl (m, a) ↦
              simp (reconcile_turn, ends, a) (deliver-Frame json marshal append_record clock id e r)
        ]
      ]

  pub set_replay_history-Frame :
      (session_id : String) (rs : List Record) (r : Runtime J)
      → Frame r (set_replay_history json marshal append_record session_id rs r).1
  unfolding set_replay_history
  set_replay_history-Frame session_id rs r =
      let id = trim_space session_id in
      elim (Result-cases (session_of id r)) [
        | inr (x, a) ↦ simp (set_replay_history, a) (Frame-refl r)
        | inl (m, a) ↦
            simp (set_replay_history, a)
              (put-Frame id m _ r (session_of-found id r m a) (
                plain_change m (record m { replay = some (new_replay_matcher json rs) }) refl refl
                  refl refl))
      ]

  pub set_configuration-Frame :
      (session_id : String) (c : SessionConfiguration) (r : Runtime J)
      → Frame r (set_configuration json marshal append_record session_id c r).1
  unfolding set_configuration
  set_configuration-Frame session_id c r =
      let id = trim_space session_id in
      elim (Result-cases (session_of id r)) [
        | inr (x, a) ↦ simp (set_configuration, a) (Frame-refl r)
        | inl (m, a) ↦
            simp (set_configuration, a)
              (put-Frame id m _ r (session_of-found id r m a) (
                plain_change m (record m { configuration = normalize_configuration c }) refl refl
                  refl refl))
      ]

  pub respond_interaction-Frame :
      (clock : Clock) (session_id : String) (answer : InteractionResponse) (call : PlainCall)
      (r : Runtime J)
      → Frame r (respond_interaction json marshal append_record clock session_id answer call r).1
  unfolding respond_interaction
  respond_interaction-Frame clock session_id answer call r =
      let id = trim_space session_id in
      elim (Bool-cases (is_empty (trim_space answer.request_id))) [
        | inl blank ↦ simp (respond_interaction, blank) (Frame-refl r)
        | inr named ↦ elim (Result-cases (adapter_locked id r)) [
          | inr (e, a) ↦ simp (respond_interaction, named, a) (Frame-refl r)
          | inl ((m, adapter), a) ↦
              let r' = put id (resumed clock.instant m) r in
              let going =
                put-Frame id m (resumed clock.instant m) r (adapter_locked-found id r m adapter a)
                  (resumed-Keeps clock.instant m) in
              let r'' = deliver_each json marshal append_record clock id call.delivered r' in
              let during =
                Frame-trans r r' r'' going
                  (deliver_each-Frame json marshal append_record clock id call.delivered r') in
              elim (Bool-cases (adapter.responds_interaction || adapter.responds_permission)) [
                | inr deaf ↦ simp (respond_interaction, named, a, deaf) going
                | inl hears ↦ elim (Option-cases call.failure) [
                  | inr (what, f) ↦ simp (respond_interaction, named, a, hears, f) during
                  | inl f ↦
                      simp (respond_interaction, named, a, hears, f)
                        (either_way-Frame _ r _ r''
                          (Frame-trans r r'' _ during
                            (deliver-Frame json marshal append_record clock id _ r''))
                          during)
                ]
              ]
        ]
      ]
