-- ===== src/Runtime/Bounds/Histories.antt =====
-- Whatever calls a runtime has had, its queues are within their limit.
use durable_acp.Prelude.{String, false, true, Option, List, [], ◌∷◌, Result, Map, lookup}
use durable_acp.Host.{Value}
use durable_acp.Journal.Record.{Bytes, Record}
use durable_acp.Journal.Replay.{Json}
use durable_acp.Runtime.State.{Adapter, Runtime, Clock}
use durable_acp.Runtime.Delivery.{Appender}
use durable_acp.Runtime.Delivery.Sessions.{deliver-Frame, fire_timer-Frame}
use durable_acp.Runtime.Shutdown.{shutdown-Frame}
use durable_acp.Runtime.Restoring.{RecordData}
use durable_acp.Runtime.Calls.{
  Config, new_runtime, Call, call_create, call_restore, call_start, call_restart, call_send,
  call_send_next, call_dispatch, call_interrupt, call_interrupt_active, call_reconcile_turn,
  adapter_event, call_set_replay_history, call_set_configuration, call_respond_interaction,
  call_remove_queued_turn, call_replace_queued_turn, call_block_dispatch, call_unblock_dispatch,
  call_forget, timer, call_close, call_shutdown, perform, perform_all,
}
use durable_acp.Runtime.Bounds.{IsBounded, Frame-IsBounded}
use durable_acp.Runtime.Bounds.Turns.{send-IsBounded, dispatch_queued-IsBounded}
use durable_acp.Runtime.Bounds.Queues.{
  remove_queued_turn-IsBounded, replace_queued_turn-IsBounded, block_dispatch-IsBounded,
  unblock_dispatch-IsBounded,
}
use durable_acp.Runtime.Bounds.Interrupts.{
  interrupt-IsBounded, interrupt_active-Frame, reconcile_turn-Frame, set_replay_history-Frame,
  set_configuration-Frame, respond_interaction-Frame,
}
use durable_acp.Runtime.Bounds.Lives.{
  create-IsBounded, start-IsBounded, restart-IsBounded, close_session-IsBounded, forget-IsBounded,
}
use durable_acp.Runtime.Bounds.Restored.{restore-IsBounded}

module _ {ℓ} {J : Type ℓ} (json : Json) (marshal : Map Value → Option Bytes)
    (append_record : Appender J) (reader : RecordData)
    (read_records : String → J → Result String (List Record)) where
  perform-IsBounded :
      (clock : Clock) (call : Call) (r : Runtime J)
      → IsBounded r
      → IsBounded (perform json marshal append_record reader read_records clock call r)
  unfolding perform
  perform-IsBounded clock (call_create fresh stat_fails request) r h =
      create-IsBounded json marshal append_record clock fresh stat_fails request r h
  perform-IsBounded clock (call_restore request) r h =
      restore-IsBounded json marshal append_record reader clock request read_records r h
  perform-IsBounded clock (call_start request call) r h =
      start-IsBounded json marshal append_record clock request call r h
  perform-IsBounded clock (call_restart id call) r h =
      restart-IsBounded json marshal append_record clock id call r h
  perform-IsBounded clock (call_send request out) r h =
      send-IsBounded json marshal append_record clock false request out r h
  perform-IsBounded clock (call_send_next request out) r h =
      send-IsBounded json marshal append_record clock true request out r h
  perform-IsBounded clock (call_dispatch fuel id outs) r h =
      dispatch_queued-IsBounded json marshal append_record fuel clock id outs r h
  perform-IsBounded clock (call_interrupt id call) r h =
      interrupt-IsBounded json marshal append_record clock id call r h
  perform-IsBounded clock (call_interrupt_active id call) r h =
      Frame-IsBounded r _ h (interrupt_active-Frame json marshal append_record clock id call r)
  perform-IsBounded clock (call_reconcile_turn id e) r h =
      Frame-IsBounded r _ h (reconcile_turn-Frame json marshal append_record clock id e r)
  perform-IsBounded clock (adapter_event id e) r h =
      Frame-IsBounded r _ h (deliver-Frame json marshal append_record clock id e r)
  perform-IsBounded clock (call_set_replay_history id rs) r h =
      Frame-IsBounded r _ h (set_replay_history-Frame json marshal append_record id rs r)
  perform-IsBounded clock (call_set_configuration id c) r h =
      Frame-IsBounded r _ h (set_configuration-Frame json marshal append_record id c r)
  perform-IsBounded clock (call_respond_interaction id answer call) r h =
      Frame-IsBounded r _ h
        (respond_interaction-Frame json marshal append_record clock id answer call r)
  perform-IsBounded clock (call_remove_queued_turn id entry) r h =
      remove_queued_turn-IsBounded json marshal append_record clock id entry r h
  perform-IsBounded clock (call_replace_queued_turn id entry request) r h =
      replace_queued_turn-IsBounded json marshal append_record clock id entry request r h
  perform-IsBounded clock (call_block_dispatch id) r h =
      block_dispatch-IsBounded json marshal append_record clock id r h
  perform-IsBounded clock (call_unblock_dispatch id) r h =
      unblock_dispatch-IsBounded json marshal append_record clock id r h
  perform-IsBounded clock (call_forget id) r h = forget-IsBounded json marshal append_record id r h
  perform-IsBounded clock (timer id) r h =
      Frame-IsBounded r _ h (fire_timer-Frame json marshal append_record clock id r)
  perform-IsBounded clock (call_close id failure) r h =
      close_session-IsBounded json marshal append_record clock id failure r h
  perform-IsBounded clock (call_shutdown ids failure) r h =
      Frame-IsBounded r _ h (shutdown-Frame json marshal append_record clock ids failure r)

  perform_all-keeps_bounds :
      (calls : List (Clock × Call)) (r : Runtime J)
      → IsBounded r
      → IsBounded (perform_all json marshal append_record reader read_records calls r)
  unfolding perform_all
  perform_all-keeps_bounds [] r h = h
  perform_all-keeps_bounds ((clock, call) ∷ calls) r h =
      perform_all-keeps_bounds calls _ (perform-IsBounded clock call r h)

  -- After any sequence of calls of a new runtime, with any adapters, journal, clock and answers of the
  -- outside, no session has more queued turns than the limit, and a closed session has none.
  pub perform_all-IsBounded :
      (config : Config J) (adapters : List (String × Adapter)) (calls : List (Clock × Call))
      → IsBounded (
          perform_all json marshal append_record reader read_records calls
            (new_runtime config adapters))
  unfolding new_runtime lookup
  perform_all-IsBounded config adapters calls =
      perform_all-keeps_bounds calls (new_runtime config adapters) (record { entries = λ id. tt })
