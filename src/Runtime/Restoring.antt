-- ===== src/Runtime/Restoring.antt =====
-- runtime/runtime.go: a session that is made again from its journal.
pub mod Recovery
use Prim.Native.String.{◌++◌ as ◌⧺◌}
use durable_acp.Prelude.{
  ℕ, ℤ, pos, ◌-◌, ◌^◌, String, Bool, true, false, ◌&&◌, ◌||◌, not, Option, none, some, List, [],
  ◌∷◌, ltb, lt_int, str_eq, is_empty, trim_space, clean_path, if◌then◌else◌, Map, lookup, Result,
  ok, err,
}
use durable_acp.Session.{
  Status, active, running, waiting_input, closed, Session, BackendSession, transition_to,
}
use durable_acp.Session as Session_
use durable_acp.Host.{
  Value, text, flag, InteractionRequest, InteractionResponse, SessionConfiguration,
  event_interaction_resolved, event_turn_failed,
}
use durable_acp.Journal.Record.{Bytes, Record}
use durable_acp.Journal.Events.{
  agent_turn_started, agent_interaction, agent_permission, user_request_resolved, agent_yielded,
  agent_interrupted, agent_turn_failed, agent_process_exited,
}
use durable_acp.Journal.Replay.{Json}
use durable_acp.Runtime.State.{
  ManagedSession, managed_new, Runtime, Clock, put, move_status, RuntimeError, session_not_found,
  journal_required, no_lifecycle, external,
}
use durable_acp.Runtime.Configuration.{normalize_configuration}
use durable_acp.Runtime.Turns.{has_status}
use durable_acp.Runtime.Delivery.{Appender, deliver}
use durable_acp.Runtime.Queueing.{turn_event}

pub record RestoreRequest : Type 0 where
  pub id : String
  pub backend : String
  pub worktree : String
  pub backend_session : BackendSession
  pub configuration : SessionConfiguration

-- What `json.Unmarshal` reads from the data of a record into each of the structures that `Restore` and
-- its helpers declare; a pointer that the data leaves out is none.
pub record RecordData : Type 0 where
  pub created_data : Bytes → Option (String × String)
  pub started_data : Bytes → Option (BackendSession × SessionConfiguration)
  pub interaction_data : Bytes → Option (Option InteractionRequest)
  pub response_data : Bytes → Option (Option InteractionResponse)

unfoldable pub restored_event_sequence : ℕ → ℤ
restored_event_sequence n = if ltb (2 ^ 63 - 1) n then pos (2 ^ 63 - 1) else pos n

-- The session of `New` and `Transition`, made at one time and dated at another.
unfoldable pub made_session : ℕ → String → String → String → BackendSession → Session
made_session now id backend worktree state =
    record (transition_to (Session_.new id backend worktree now) active now).0 {
      backend_session = state;
    }

unfoldable pub turn_started_record : ℕ → Record → ManagedSession → ManagedSession
turn_started_record now record₀ m =
    let begun = record m { active = true; active_turn_id = trim_space record₀.turn_id } in
    if is_empty (trim_space record₀.turn_id)
    then m
    else if has_status active begun
    then move_status now running begun
    else begun

-- `interactionFromRecord`: an interaction without an identifier is none.
unfoldable pub interaction_from_record : RecordData → Record → Option InteractionRequest
interaction_from_record reader record₀ = elim (reader.interaction_data record₀.data_raw) [
  | none ↦ none
  | some none ↦ none
  | some (some i) ↦ if is_empty (trim_space i.id) then none else some i
]

unfoldable pub interaction_record : RecordData → ℕ → Record → ManagedSession → ManagedSession
interaction_record reader now record₀ m = elim (interaction_from_record reader record₀) [
  | none ↦ m
  | some i ↦
      let asked = record m { pending_interaction = some i } in
      if has_status running asked then move_status now waiting_input asked else asked
]

-- `interactionResponseFromRecord`.
unfoldable pub response_from_record : RecordData → Record → Option InteractionResponse
response_from_record reader record₀ = elim (reader.response_data record₀.data_raw) [
  | none ↦ none
  | some o ↦ o
]

unfoldable pub resolved_record : RecordData → ℕ → Record → ManagedSession → ManagedSession
resolved_record reader now record₀ m =
    let answered = record m { pending_interaction = none } in
    let resumed =
      if has_status waiting_input answered then move_status now running answered else answered in
    elim m.pending_interaction [
      | none ↦ m
      | some p ↦ elim (response_from_record reader record₀) [
        | none ↦ m
        | some r ↦ if is_empty r.request_id || str_eq r.request_id p.id then resumed else m
      ]
    ]

-- A record that ends the active turn.
unfoldable pub ends_active : Record → ManagedSession → Bool
ends_active record₀ m =
    str_eq record₀.event agent_process_exited
    || is_empty record₀.turn_id
    || is_empty m.active_turn_id
    || str_eq record₀.turn_id m.active_turn_id

unfoldable pub terminal_record : ℕ → Record → ManagedSession → ManagedSession
terminal_record now record₀ m =
    let ended = record m { active = false; active_turn_id = ""; pending_interaction = none } in
    if ends_active record₀ m
    then (if has_status running ended || has_status waiting_input ended
        then move_status now active ended
        else ended)
    else m

abbrev pub is_terminal_record : String → Bool
is_terminal_record event =
    str_eq event agent_yielded
    || str_eq event agent_interrupted
    || str_eq event agent_turn_failed
    || str_eq event agent_process_exited

-- The cases of the switch of `Restore` that concern a turn.
unfoldable pub turn_record : RecordData → ℕ → Record → ManagedSession → ManagedSession
turn_record reader now record₀ m =
    if str_eq record₀.event agent_turn_started
    then turn_started_record now record₀ m
    else if str_eq record₀.event agent_interaction || str_eq record₀.event agent_permission
    then interaction_record reader now record₀ m
    else if str_eq record₀.event user_request_resolved
    then resolved_record reader now record₀ m
    else if is_terminal_record record₀.event
    then terminal_record now record₀ m
    else m

unfoldable pub started_record : RecordData → Record → ManagedSession → ManagedSession
started_record reader record₀ m = elim (reader.started_data record₀.data_raw) [
  | none ↦ m
  | some (state, configuration) ↦ record m {
    session = record m.session { backend_session = state };
    configuration = normalize_configuration configuration;
  }
]

unfoldable pub closed_record : ℕ → ManagedSession → ManagedSession
closed_record now m = if has_status closed m then m else move_status now closed m

-- The sequence of the last event goes with the greatest one that was seen.
unfoldable pub raise_sequence : ℤ → ManagedSession → ManagedSession
raise_sequence n m = if lt_int m.next_seq n then record m { next_seq = n } else m

-- A session that a record creates, in place of what was restored before, if the record says which.
unfoldable pub created_record :
    RecordData → ℕ → RestoreRequest → Record → Option ManagedSession → Option ManagedSession
created_record reader now request record₀ before = elim (reader.created_data record₀.data_raw) [
  | none ↦ before
  | some (backend, worktree) ↦
      let made =
        made_session now (trim_space request.id) backend worktree request.backend_session in
      if is_empty backend || is_empty worktree
      then before
      else some (
          managed_new (record made { created_at = record₀.timestamp })
            (normalize_configuration request.configuration)
            (restored_event_sequence record₀.sequence))
]

-- One round of the loop of `Restore`.
unfoldable pub restore_record :
    RecordData → ℕ → RestoreRequest → Option ManagedSession → Record → Option ManagedSession
restore_record reader now request none record₀ =
    if str_eq record₀.event "session.created"
    then created_record reader now request record₀ none
    else none
restore_record reader now request (some m) record₀ =
    let seen = raise_sequence (restored_event_sequence record₀.sequence) m in
    if str_eq record₀.event "session.created"
    then created_record reader now request record₀ (some seen)
    else some (
        if str_eq record₀.event "session.started"
        then started_record reader record₀ seen
        else if str_eq record₀.event "session.closed"
        then closed_record now seen
        else turn_record reader now record₀ seen)

unfoldable pub restore_records :
    RecordData → ℕ → RestoreRequest → Option ManagedSession → List Record → Option ManagedSession
restore_records reader now request m [] = m
restore_records reader now request m (r ∷ rs) =
    restore_records reader now request (restore_record reader now request m r) rs

-- The session that the request itself describes, if it does.
unfoldable pub requested_session : ℕ → RestoreRequest → Option ManagedSession
requested_session now request =
    let backend = trim_space request.backend in
    let worktree = trim_space request.worktree in
    if not (is_empty backend) && not (is_empty worktree)
    then some (
        managed_new
          (made_session now (trim_space request.id) backend (clean_path worktree)
            request.backend_session)
          (normalize_configuration request.configuration) (pos 0))
    else none

unfoldable pub recovered_fields : Map Value
recovered_fields =
    ("interrupted", flag true)
    ∷ ("reason", text "host_runtime_restarted")
    ∷ ("recovered", flag true)
    ∷ ("retryable", flag true)
    ∷ []

module _ {ℓ} {J : Type ℓ} (json : Json) (marshal : Map Value → Option Bytes)
    (append_record : Appender J) where
  -- `reconcileRecoveredTurn`: a pending interaction is cancelled, and the turn has failed.
  unfoldable pub reconcile_recovered_turn : Clock → String → Runtime J → Runtime J
  reconcile_recovered_turn clock session_id r =
      let id = trim_space session_id in
      elim (lookup id r.sessions) [
        | none ↦ r
        | some m ↦
            let session = m.session.backend_session in
            let cancelled : Runtime J = elim m.pending_interaction [
              | none ↦ r
              | some p ↦
                  let answer : InteractionResponse = record {
                    request_id = p.id;
                    action = "cancel";
                    message = "Interaction cancelled because the host runtime restarted.";
                    others = 0;
                  } in
                  deliver json marshal append_record clock id
                    (turn_event event_interaction_resolved session m.active_turn_id ""
                      (("reason", text "host_runtime_restarted") ∷ ("recovered", flag true) ∷ [])
                      (some answer) m.session.backend)
                    r
            ] in
            if not m.active
            then r
            else deliver json marshal append_record clock id
                (turn_event event_turn_failed session m.active_turn_id
                  (m.session.backend ⧺ " turn interrupted during host runtime restart")
                  recovered_fields none m.session.backend)
                cancelled
      ]

  -- `Restore`, with what the journal answers to `Read`. A session that is there already is left alone.
  unfoldable pub restore :
      RecordData
      → Clock
      → RestoreRequest
      → (String → J → Result String (List Record))
      → Runtime J
      → Result RuntimeError ManagedSession × Runtime J
  restore reader clock request read_records r =
      let id = trim_space request.id in
      elim r.journal [
        | none ↦ (err journal_required, r)
        | some journal ↦ elim (read_records id journal) [
          | err what ↦ (err (external what), r)
          | ok rs ↦
              elim (restore_records reader clock.instant request
                (requested_session clock.instant request) rs) [
                  | none ↦ (err (no_lifecycle id), r)
                  | some m ↦ elim (lookup id r.sessions) [
                    | some there ↦ (ok there, r)
                    | none ↦
                        let r' = reconcile_recovered_turn clock id (put id m r) in
                        elim (lookup id r'.sessions) [
                          | none ↦ (err (session_not_found id), r')
                          | some m' ↦ (ok m', r')
                        ]
                  ]
                ]
        ]
      ]
