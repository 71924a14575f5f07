-- ===== src/Runtime/Calls.antt =====
-- runtime/runtime.go: a runtime that is made, and the calls that change it, one after another.
use durable_acp.Prelude.{
  ℕ, ℤ, String, Bool, true, false, not, Option, List, [], ◌∷◌, is_empty, trim_space, if◌then◌else◌,
  Map, insert, Result,
}
use durable_acp.Host.{
  Event, Value, SendTurnRequest, StartSessionRequest, SessionConfiguration, InteractionResponse,
}
use durable_acp.Journal.Record.{Bytes, Record}
use durable_acp.Journal.Replay.{Json}
use durable_acp.Runtime.State.{Adapter, Runtime, Clock, queue_limit}
use durable_acp.Runtime.Delivery.{Appender, deliver, fire_timer}
use durable_acp.Runtime.Sending.{AdapterCall, Submission, send, dispatch_queued}
use durable_acp.Runtime.Queueing.{
  PlainCall, interrupt, interrupt_active, reconcile_turn, set_replay_history, set_configuration,
  respond_interaction, remove_queued_turn, replace_queued_turn, block_dispatch, unblock_dispatch,
}
use durable_acp.Runtime.Lifecycle.{CreateRequest, create, start, restart, close_session, forget}
use durable_acp.Runtime.Shutdown.{shutdown}
use durable_acp.Runtime.Restoring.{RestoreRequest, RecordData, restore}

-- The fields of `Config` that the sessions depend on.
pub record Config {ℓ} (J : Type ℓ) : Type ℓ where
  pub journal : Option J
  pub has_sink : Bool
  pub max_queued_turns : ℤ
  pub disable_coalescing : Bool
  pub disable_journal_writes : Bool

unfoldable pub adapters_by_backend : List (String × Adapter) → Map Adapter → Map Adapter
adapters_by_backend [] known = known
adapters_by_backend ((backend, adapter) ∷ adapters) known =
    adapters_by_backend adapters
      (if is_empty (trim_space backend) then known else insert backend adapter known)

-- `New`, with the adapters that are not nil by the backend that each names.
unfoldable pub new_runtime {ℓ} : {J : Type ℓ} → Config J → List (String × Adapter) → Runtime J
new_runtime config adapters = record {
  adapters = adapters_by_backend adapters [];
  sessions = [];
  journal = config.journal;
  journal_writes = not config.disable_journal_writes;
  has_sink = config.has_sink;
  max_queued_turns = queue_limit config.max_queued_turns;
  coalesce_events = not config.disable_coalescing;
  effects = [];
}

-- A call of a method, an event of an adapter, or a goroutine or timer that runs.
pub data Call : Type 0 where
  call_create : Option String → Bool → CreateRequest → Call
  call_restore : RestoreRequest → Call
  call_start : StartSessionRequest → AdapterCall → Call
  call_restart : String → AdapterCall → Call
  call_send call_send_next : SendTurnRequest → Submission → Call
  call_dispatch : ℕ → String → (ℕ → Submission) → Call
  call_interrupt call_interrupt_active : String → PlainCall → Call
  call_reconcile_turn adapter_event : String → Event → Call
  call_set_replay_history : String → List Record → Call
  call_set_configuration : String → SessionConfiguration → Call
  call_respond_interaction : String → InteractionResponse → PlainCall → Call
  call_remove_queued_turn : String → String → Call
  call_replace_queued_turn : String → String → SendTurnRequest → Call
  call_block_dispatch call_unblock_dispatch call_forget timer : String → Call
  call_close : String → Option String → Call
  call_shutdown : List String → (String → Option String) → Call

module _ {ℓ} {J : Type ℓ} (json : Json) (marshal : Map Value → Option Bytes)
    (append_record : Appender J) (reader : RecordData)
    (read_records : String → J → Result String (List Record)) where
  unfoldable pub perform : Clock → Call → Runtime J → Runtime J
  perform clock (call_create fresh stat_fails request) r =
      (create json marshal append_record clock fresh stat_fails request r).1
  perform clock (call_restore request) r =
      (restore json marshal append_record reader clock request read_records r).1
  perform clock (call_start request call) r =
      (start json marshal append_record clock request call r).1
  perform clock (call_restart id call) r = (restart json marshal append_record clock id call r).1
  perform clock (call_send request out) r =
      (send json marshal append_record clock false request out r).1
  perform clock (call_send_next request out) r =
      (send json marshal append_record clock true request out r).1
  perform clock (call_dispatch fuel id outs) r =
      (dispatch_queued json marshal append_record fuel clock id outs r).1
  perform clock (call_interrupt id call) r =
      (interrupt json marshal append_record clock id call r).1
  perform clock (call_interrupt_active id call) r =
      (interrupt_active json marshal append_record clock id call r).1
  perform clock (call_reconcile_turn id e) r =
      (reconcile_turn json marshal append_record clock id e r).1
  perform clock (adapter_event id e) r = deliver json marshal append_record clock id e r
  perform clock (call_set_replay_history id rs) r =
      (set_replay_history json marshal append_record id rs r).1
  perform clock (call_set_configuration id c) r =
      (set_configuration json marshal append_record id c r).1
  perform clock (call_respond_interaction id answer call) r =
      (respond_interaction json marshal append_record clock id answer call r).1
  perform clock (call_remove_queued_turn id entry) r =
      (remove_queued_turn json marshal append_record clock id entry r).1
  perform clock (call_replace_queued_turn id entry request) r =
      (replace_queued_turn json marshal append_record clock id entry request r).1
  perform clock (call_block_dispatch id) r =
      (block_dispatch json marshal append_record clock id r).1
  perform clock (call_unblock_dispatch id) r =
      (unblock_dispatch json marshal append_record clock id r).1
  perform clock (call_forget id) r = (forget json marshal append_record id r).1
  perform clock (timer id) r = fire_timer json marshal append_record clock id r
  perform clock (call_close id failure) r =
      (close_session json marshal append_record clock id failure r).1
  perform clock (call_shutdown ids failure) r =
      (shutdown json marshal append_record clock ids failure r).1

  unfoldable pub perform_all : List (Clock × Call) → Runtime J → Runtime J
  perform_all [] r = r
  perform_all ((clock, call) ∷ calls) r = perform_all calls (perform clock call r)
