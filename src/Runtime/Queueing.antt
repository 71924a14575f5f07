-- ===== src/Runtime/Queueing.antt =====
-- runtime/runtime.go: the calls that interrupt a turn, answer an interaction, and manage the queue.
pub mod Removing
use Prim.Native.String.{◌++◌ as ◌⧺◌}
use durable_acp.Prelude.{
  ℕ, pos, String, Bool, true, false, ◌&&◌, ◌||◌, not, Option, none, some, List, [], ◌∷◌, length,
  ltb, str_eq, is_empty, trim_space, if◌then◌else◌, Map, lookup, Result, ok, err,
}
use durable_acp.Session.{running, waiting_input, closed, BackendSession}
use durable_acp.Host.{
  Event, Value, text, flag, SendTurnRequest, InteractionResponse, SessionConfiguration,
  event_turn_failed, event_interaction_resolved,
}
use durable_acp.Journal.Record.{Bytes, Record}
use durable_acp.Journal.Replay.{Json, new_replay_matcher}
use durable_acp.Runtime.State.{
  ManagedSession, QueueEntry, Runtime, Clock, put, adapter_locked, session_of, move_status,
  RuntimeError, prompt_required, queue_entry_not_found, terminal_required, request_required,
  unsupported_operation, external,
}
use durable_acp.Runtime.Configuration.{fill_turn_configuration, normalize_configuration}
use durable_acp.Runtime.Turns.{has_status, is_terminal}
use durable_acp.Runtime.Delivery.{Appender, deliver, emit_queue, spawn_dispatch}
use durable_acp.Runtime.Sending.{deliver_each, lacks_prompt}

-- A call of an adapter that answers with an error or none.
pub record PlainCall : Type 0 where
  pub delivered : List Event
  pub failure : Option String

abbrev pub no_session : BackendSession
no_session = record { id = ""; thread_id = ""; turn_id = "" }

-- What `RemoveQueuedTurn` finds: the entries without the first one of that identifier, and that one.
unfoldable pub take_entry : String → List QueueEntry → Option (QueueEntry × List QueueEntry)
take_entry id [] = none
take_entry id (entry ∷ entries) =
    let later = take_entry id entries in
    if str_eq entry.id id
    then some (entry, entries)
    else elim later [ none ↦ none | some (found, others) ↦ some (found, entry ∷ others) ]

-- The entries with another request in the first one of that identifier, and that one.
unfoldable pub replace_entry :
    String → SendTurnRequest → List QueueEntry → Option (QueueEntry × List QueueEntry)
replace_entry id request [] = none
replace_entry id request (entry ∷ entries) =
    let later = replace_entry id request entries in
    let changed = record entry { request = request } in
    if str_eq entry.id id
    then some (changed, changed ∷ entries)
    else elim later [ none ↦ none | some (found, others) ↦ some (found, entry ∷ others) ]

-- The interaction that a response names is pending.
unfoldable pub awaits : InteractionResponse → ManagedSession → Bool
awaits response m = elim m.pending_interaction [
  | none ↦ false
  | some p ↦ str_eq p.id response.request_id
]

unfoldable pub resumed : ℕ → ManagedSession → ManagedSession
resumed now m = if has_status waiting_input m then move_status now running m else m

unfoldable pub turn_event :
    String
    → BackendSession
    → String
    → String
    → Map Value
    → Option InteractionResponse
    → String
    → Event
turn_event event_type session turn_id message fields answer backend = record {
  source_event_id = "";
  session_id = "";
  backend = backend;
  backend_session_id = session.id;
  backend_thread_id = session.thread_id;
  backend_turn_id = turn_id;
  seq = pos 0;
  event_type = event_type;
  role = "";
  message = message;
  fields = fields;
  tool_display = none;
  interaction = none;
  interaction_response = answer;
  time = "";
  local = [];
}

module _ {ℓ} {J : Type ℓ} (json : Json) (marshal : Map Value → Option Bytes)
    (append_record : Appender J) where
  -- The event that ends a turn which the adapter has interrupted and not ended.
  unfoldable pub interrupted_event : String → String → BackendSession → Event
  interrupted_event backend turn_id session =
      turn_event event_turn_failed session turn_id (backend ⧺ " turn interrupted")
        (("session_id", text session.id)
          ∷ ("turn_id", text turn_id)
          ∷ ("interrupted", flag true)
          ∷ ("source", text "runtime_interrupt_fallback")
          ∷ [])
        none ""

  abbrev pub needs_terminal : String → Option ManagedSession → Bool
  needs_terminal turn_id none = false
  needs_terminal turn_id (some m) = m.active && str_eq m.active_turn_id turn_id

  -- `interruptActive`.
  unfoldable pub interrupt_turn :
      Clock → String → String → PlainCall → Runtime J → Option RuntimeError × Runtime J
  interrupt_turn clock id backend call r =
      let before = lookup id r.sessions in
      let turn_id : String = elim before [ none ↦ "" | some m ↦ m.active_turn_id ] in
      let session : BackendSession = elim before [
        | none ↦ no_session
        | some m ↦ m.session.backend_session
      ] in
      let r' = deliver_each json marshal append_record clock id call.delivered r in
      elim call.failure [
        | some what ↦ (some (external what), r')
        | none ↦ (
          none,
          if needs_terminal turn_id (lookup id r'.sessions)
              then deliver json marshal append_record clock id
                  (interrupted_event backend turn_id session) r'
              else r',
        )
      ]

  unfoldable pub finish_interrupt :
      Clock → String → Option RuntimeError × Runtime J → Option RuntimeError × Runtime J
  finish_interrupt clock id (some e, r) = (some e, r)
  finish_interrupt clock id (none, r) = (none, emit_queue json marshal append_record clock id r)

  -- `Interrupt`, which discards the queue.
  unfoldable pub interrupt :
      Clock → String → PlainCall → Runtime J → Option RuntimeError × Runtime J
  interrupt clock session_id call r =
      let id = trim_space session_id in
      elim (adapter_locked id r) [
        | err e ↦ (some e, r)
        | ok (m, adapter) ↦
            let r' = put id (record m { queue = [] }) r in
            if m.active
            then finish_interrupt clock id (interrupt_turn clock id m.session.backend call r')
            else (none, emit_queue json marshal append_record clock id r')
      ]

  -- `InterruptActive`.
  unfoldable pub interrupt_active :
      Clock → String → PlainCall → Runtime J → Option RuntimeError × Runtime J
  interrupt_active clock session_id call r =
      let id = trim_space session_id in
      elim (adapter_locked id r) [
        | err e ↦ (some e, r)
        | ok (m, adapter) ↦
            if m.active then interrupt_turn clock id m.session.backend call r else (none, r)
      ]

  -- `ReconcileTurn`.
  unfoldable pub reconcile_turn :
      Clock → String → Event → Runtime J → Option RuntimeError × Runtime J
  reconcile_turn clock session_id e r =
      let id = trim_space session_id in
      if not (is_terminal e) then (some terminal_required, r) else elim (session_of id r) [
        | err x ↦ (some x, r)
        | ok m ↦ (none, deliver json marshal append_record clock id e r)
      ]

  -- `SetReplayHistory`.
  unfoldable pub set_replay_history :
      String → List Record → Runtime J → Option RuntimeError × Runtime J
  set_replay_history session_id records r =
      let id = trim_space session_id in
      elim (session_of id r) [
        | err x ↦ (some x, r)
        | ok m ↦ (none, put id (record m { replay = some (new_replay_matcher json records) }) r)
      ]

  -- `SetConfiguration`.
  unfoldable pub set_configuration :
      String → SessionConfiguration → Runtime J → Option RuntimeError × Runtime J
  set_configuration session_id configuration r =
      let id = trim_space session_id in
      elim (session_of id r) [
        | err x ↦ (some x, r)
        | ok m ↦
            (none, put id (record m { configuration = normalize_configuration configuration }) r)
      ]

  -- `RespondInteraction`: the session goes on before the adapter has answered, and the interaction is
  -- resolved here if the adapter has not reported that.
  unfoldable pub respond_interaction :
      Clock → String → InteractionResponse → PlainCall → Runtime J → Option RuntimeError × Runtime J
  respond_interaction clock session_id response call r =
      let id = trim_space session_id in
      if is_empty (trim_space response.request_id)
      then (some request_required, r)
      else elim (adapter_locked id r) [
        | err e ↦ (some e, r)
        | ok (m, adapter) ↦
            let r' = put id (resumed clock.instant m) r in
            let r'' = deliver_each json marshal append_record clock id call.delivered r' in
            let unresolved : Bool = elim (lookup id r''.sessions) [
              | none ↦ false
              | some m' ↦ awaits response m'
            ] in
            let answer =
              turn_event event_interaction_resolved no_session "" "" [] (some response) "" in
            if not (adapter.responds_interaction || adapter.responds_permission)
            then (some (unsupported_operation m.session.backend "interaction responses"), r')
            else elim call.failure [
              | some what ↦ (some (external what), r'')
              | none ↦ (
                none,
                if awaits response m && unresolved
                    then deliver json marshal append_record clock id answer r''
                    else r'',
              )
            ]
      ]

  -- `QueueEntries`.
  unfoldable pub queue_entries : String → Runtime J → Result RuntimeError (List QueueEntry)
  queue_entries session_id r = elim (session_of (trim_space session_id) r) [
    | err e ↦ err e
    | ok m ↦ ok m.queue
  ]

  -- `RemoveQueuedTurn`: the entry, if it was there, and the depth of the queue behind it.
  unfoldable pub remove_queued_turn :
      Clock → String → String → Runtime J → Result RuntimeError (Option QueueEntry × ℕ) × Runtime J
  remove_queued_turn clock session_id entry_id r =
      let id = trim_space session_id in
      elim (session_of id r) [
        | err e ↦ (err e, r)
        | ok m ↦ elim (take_entry (trim_space entry_id) m.queue) [
          | none ↦ (ok (none, length m.queue), r)
          | some (entry, others) ↦ (
            ok (some entry, length others),
            emit_queue json marshal append_record clock id (put id (record m { queue = others }) r),
          )
        ]
      ]

  -- `ReplaceQueuedTurn`.
  unfoldable pub replace_queued_turn :
      Clock
      → String
      → String
      → SendTurnRequest
      → Runtime J
      → Result RuntimeError QueueEntry × Runtime J
  replace_queued_turn clock session_id entry_id request r =
      let id = trim_space session_id in
      let queued_id = trim_space entry_id in
      if lacks_prompt request then (err prompt_required, r) else elim (session_of id r) [
        | err e ↦ (err e, r)
        | ok m ↦
            let filled =
              fill_turn_configuration (record request { session_id = id }) m.configuration in
            elim (replace_entry queued_id filled m.queue) [
              | none ↦ (err (queue_entry_not_found id queued_id), r)
              | some (entry, entries) ↦ (
                ok entry,
                emit_queue json marshal append_record clock id
                    (put id (record m { queue = entries }) r),
              )
            ]
      ]

  -- `BlockDispatch`.
  unfoldable pub block_dispatch : Clock → String → Runtime J → Option RuntimeError × Runtime J
  block_dispatch clock session_id r =
      let id = trim_space session_id in
      elim (session_of id r) [
        | err e ↦ (some e, r)
        | ok m ↦ (
          none,
          emit_queue json marshal append_record clock id
              (put id (record m { dispatch_blocked = true }) r),
        )
      ]

  abbrev pub is_idle : ManagedSession → Bool
  is_idle m =
      not m.active && not m.dispatching && ltb 0 (length m.queue) && not (has_status closed m)

  -- `UnblockDispatch`.
  unfoldable pub unblock_dispatch : Clock → String → Runtime J → Option RuntimeError × Runtime J
  unblock_dispatch clock session_id r =
      let id = trim_space session_id in
      elim (session_of id r) [
        | err e ↦ (some e, r)
        | ok m ↦ (
          none,
          spawn_dispatch json marshal append_record (is_idle m) id (
              emit_queue json marshal append_record clock id
                (put id (record m { dispatch_blocked = false }) r)),
        )
      ]
