-- ===== src/Runtime/Sending.antt =====
-- runtime/runtime.go: turns that are sent, queued and dispatched.
pub mod Frames
pub mod Dispatching
pub mod Waking
pub mod Placing
use Prim.Native.String.{◌++◌ as ◌⧺◌}
use durable_acp.Prelude.{
  ℕ, zero, suc, ◌+◌, ℤ, pos, String, Bool, true, false, ◌&&◌, ◌||◌, not, Option, none, some, List,
  [], ◌∷◌, ◌++◌, length, leb, str_eq, is_empty, trim_space, increment, if◌then◌else◌, Map, lookup,
  Result, ok, err,
}
use durable_acp.Session.{Status, closed, BackendSession}
use durable_acp.Host.{Event, Value, text, flag, SendTurnRequest, event_turn_failed}
use durable_acp.Journal.Record.{Bytes, Record}
use durable_acp.Journal.Replay.{Json}
use durable_acp.Runtime.State.{
  ManagedSession, QueueEntry, TurnDispatch, SendResult, ConfigurationEventVersions, Adapter,
  Runtime, Clock, put, adapter_locked, RuntimeError, session_closed, session_required,
  prompt_required, queue_full, external,
}
use durable_acp.Runtime.Configuration.{
  fill_turn_configuration, configuration_from_turn, merge_unreported_configuration,
}
use durable_acp.Runtime.Turns.{has_status, submission_failed}
use durable_acp.Runtime.Delivery.{Appender, deliver, emit_queue, decimal_int}

-- What an adapter does in a call: the events that it delivers before it returns, and its answer.
pub record AdapterCall : Type 0 where
  pub delivered : List Event
  pub answer : Result String BackendSession

-- What the outside does to a submission: the error of `TurnDispatched`, if there is one, and the call
-- of `SendTurn`.
pub record Submission : Type 0 where
  pub refused : Option String
  pub call : AdapterCall

abbrev pub is_busy : ManagedSession → Bool
is_busy m = m.active || m.dispatching || m.dispatch_blocked

-- What `send` decides under the lock.
pub data Placement : Type 0 where
  no_room : ℕ → Placement
  in_queue : QueueEntry → ManagedSession → Placement
  at_once : ManagedSession → Placement

unfoldable pub queue_entry : String → SendTurnRequest → ManagedSession → QueueEntry
queue_entry id request m = record {
  id = id ⧺ ":q:" ⧺ decimal_int (increment m.next_queue_seq);
  request = request;
}

unfoldable pub enqueue : Bool → QueueEntry → ManagedSession → ManagedSession
enqueue next entry m = record m {
  next_queue_seq = increment m.next_queue_seq;
  queue = if next then entry ∷ m.queue else m.queue ++ entry ∷ [];
}

-- A session that is about to submit a turn.
unfoldable pub begin_dispatch : ManagedSession → ManagedSession
begin_dispatch m = record m { dispatching = true; active = false; active_turn_id = "" }

unfoldable pub place_turn : Bool → ℕ → String → SendTurnRequest → ManagedSession → Placement
place_turn next limit id request m =
    let entry = queue_entry id request m in
    if is_busy m
    then (if leb limit (length m.queue)
        then no_room (length m.queue)
        else in_queue entry (enqueue next entry m))
    else at_once (begin_dispatch m)

abbrev pub lacks_prompt : SendTurnRequest → Bool
lacks_prompt request =
    is_empty (trim_space request.prompt) && elim request.attachments [ [] ↦ true | a ∷ as' ↦ false ]

-- The first entry that may be dispatched now, and the session without it.
unfoldable pub next_turn : ManagedSession → Option (QueueEntry × ManagedSession)
next_turn m = elim m.queue [
  | [] ↦ none
  | entry ∷ rest ↦
      if is_busy m || has_status closed m
      then none
      else some (entry, begin_dispatch (record m { queue = rest }))
]

module _ {ℓ} {J : Type ℓ} (json : Json) (marshal : Map Value → Option Bytes)
    (append_record : Appender J) where
  -- The event of `failSubmission`.
  unfoldable pub failed_event : String → String → Event
  failed_event queue_entry_id what = record {
    source_event_id = "";
    session_id = "";
    backend = "";
    backend_session_id = "";
    backend_thread_id = "";
    backend_turn_id = "";
    seq = pos 0;
    event_type = event_turn_failed;
    role = "";
    message = what;
    fields = ("queue_entry_id", text queue_entry_id) ∷ ("submission_failed", flag true) ∷ [];
    tool_display = none;
    interaction = none;
    interaction_response = none;
    time = "";
    local = [];
  }

  -- A change of a session that is there.
  unfoldable pub update : String → (ManagedSession → ManagedSession) → Runtime J → Runtime J
  update id change r = elim (lookup id r.sessions) [ none ↦ r | some m ↦ put id (change m) r ]

  unfoldable pub fail_submission : Clock → String → String → String → Runtime J → Runtime J
  fail_submission clock id queue_entry_id what r =
      deliver json marshal append_record clock id (failed_event queue_entry_id what)
        (update id (submission_failed clock.instant) r)

  unfoldable pub deliver_each : Clock → String → List Event → Runtime J → Runtime J
  deliver_each clock id [] r = r
  deliver_each clock id (e ∷ es) r =
      deliver_each clock id es (deliver json marshal append_record clock id e r)

  unfoldable pub versions_of : String → Runtime J → ConfigurationEventVersions
  versions_of id r = elim (lookup id r.sessions) [
    | none ↦ record { model = 0; reasoning = 0; permission = 0 }
    | some m ↦ m.configuration_event
  ]

  -- A turn that the adapter has taken.
  unfoldable pub submitted :
      SendTurnRequest
      → ConfigurationEventVersions
      → BackendSession
      → ManagedSession
      → ManagedSession
  submitted request versions state m =
      merge_unreported_configuration (configuration_from_turn request) versions
        (record m { session = record m.session { backend_session = state } })

  -- `submitTurn`. What `TurnSubmitted` is told changes nothing here.
  unfoldable pub submit_turn :
      Clock → TurnDispatch → Submission → Runtime J → Result RuntimeError BackendSession × Runtime J
  submit_turn clock d out r = elim out.refused [
    | some what ↦ (err (external what), fail_submission clock d.session_id d.queue_entry_id what r)
    | none ↦
        let versions = versions_of d.session_id r in
        let r' = deliver_each clock d.session_id out.call.delivered r in
        elim out.call.answer [
          | err what ↦
              (err (external what), fail_submission clock d.session_id d.queue_entry_id what r')
          | ok state ↦ (ok state, update d.session_id (submitted d.request versions state) r')
        ]
  ]

  -- What `send` does with a placement.
  unfoldable pub carry_out :
      Clock
      → String
      → SendTurnRequest
      → Submission
      → Placement
      → Runtime J
      → Result RuntimeError SendResult × Runtime J
  carry_out clock id request out (no_room depth) r =
      (err (queue_full id depth r.max_queued_turns), r)
  carry_out clock id request out (in_queue entry m) r = (
    ok (record {
      session = none;
      accepted = true;
      queued = true;
      queue_entry_id = entry.id;
      queue_depth = length m.queue;
    }),
    emit_queue json marshal append_record clock id (put id m r),
  )
  carry_out clock id request out (at_once m) r =
      let d : TurnDispatch = record {
        session_id = id;
        queue_entry_id = "";
        request = request;
        queued = false;
      } in
      let (answer, r') = submit_turn clock d out (put id m r) in
      elim answer [
        | err e ↦ (err e, r')
        | ok state ↦ (
          ok (record {
            session = some state;
            accepted = true;
            queued = false;
            queue_entry_id = "";
            queue_depth = 0;
          }),
          emit_queue json marshal append_record clock id r',
        )
      ]

  -- `send`, which is `Send` with `next` false and `SendNext` with `next` true.
  unfoldable pub send :
      Clock
      → Bool
      → SendTurnRequest
      → Submission
      → Runtime J
      → Result RuntimeError SendResult × Runtime J
  send clock next request out r =
      let id = trim_space request.session_id in
      if is_empty id
      then (err session_required, r)
      else if lacks_prompt request
      then (err prompt_required, r)
      else elim (adapter_locked id r) [
        | err e ↦ (err e, r)
        | ok (m, adapter) ↦
            let filled =
              fill_turn_configuration (record request { session_id = id }) m.configuration in
            if has_status closed m
            then (err (session_closed id), r)
            else carry_out clock id filled out (place_turn next r.max_queued_turns id filled m) r
      ]

  -- One round of `dispatchQueued`, and whether it goes on to the next turn.
  unfoldable pub dispatch_once : Clock → String → Submission → Runtime J → Bool × Runtime J
  dispatch_once clock id out r = elim (adapter_locked id r) [
    | err e ↦ (false, r)
    | ok (m, adapter) ↦ elim (next_turn m) [
      | none ↦ (false, r)
      | some (entry, m') ↦
          let r' = emit_queue json marshal append_record clock id (put id m' r) in
          let d : TurnDispatch = record {
            session_id = id;
            queue_entry_id = entry.id;
            request = entry.request;
            queued = true;
          } in
          let (answer, r'') = submit_turn clock d out r' in
          elim answer [ err e ↦ (true, r'') | ok state ↦ (false, r'') ]
    ]
  ]

  -- `dispatchQueued`, which calls itself after a submission that failed; the rounds are bounded by the
  -- fuel, and `outs` says what the outside does in each. The Boolean tells whether it has returned.
  unfoldable pub dispatch_queued :
      ℕ → Clock → String → (ℕ → Submission) → Runtime J → Bool × Runtime J
  dispatch_queued zero clock id outs r = (false, r)
  dispatch_queued (suc fuel) clock id outs r =
      let (more, r') = dispatch_once clock id (outs fuel) r in
      let rest = dispatch_queued fuel clock id outs r' in if more then rest else (true, r')
