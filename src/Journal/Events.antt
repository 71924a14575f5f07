-- ===== src/Journal/Events.antt =====
-- journal/events.go: the names of the events that journals hold, and the records of host events.
pub mod Names
pub mod Data
use durable_acp.Prelude.{
  ℕ, String, Bool, true, false, ◌&&◌, ◌||◌, Option, none, some, List, [], ◌∷◌, str_eq, is_empty,
  trim_space, has_char, lower_is, pos, if◌then◌else◌, Map, lookup, insert,
}
use durable_acp.Host.{
  Event, Value, text, strings, request, response, InteractionRequest, interaction_permission,
  event_message, event_thinking, event_tool_started, event_tool_output, event_permission,
  event_file_changed, event_turn_started, event_turn_complete, event_turn_failed,
  event_process_exited, event_queue_updated, event_trace_updated, event_agent_stalled,
  event_agent_recovered, event_agent_resume_failed, event_plan_update, event_todo_update,
  event_permission_modes, event_models, event_reasoning_levels, event_available_commands,
  event_config_catalog, event_interaction_requested, event_interaction_resolved,
}
use durable_acp.Journal.Record.{Bytes, Record}

abbrev pub user_message : String
user_message = "user.message"

abbrev pub user_request_resolved : String
user_request_resolved = "user.request_resolved"

abbrev pub agent_message : String
agent_message = "agent.message"

abbrev pub agent_permission : String
agent_permission = "agent.permission_requested"

abbrev pub agent_interaction : String
agent_interaction = "agent.interaction_requested"

abbrev pub agent_workspace : String
agent_workspace = "agent.workspace_changed"

abbrev pub agent_turn_started : String
agent_turn_started = "agent.turn_started"

abbrev pub agent_yielded : String
agent_yielded = "agent.yielded"

abbrev pub agent_interrupted : String
agent_interrupted = "agent.interrupted"

abbrev pub agent_turn_failed : String
agent_turn_failed = "agent.turn_failed"

abbrev pub agent_process_exited : String
agent_process_exited = "agent.process_exited"

abbrev pub agent_stalled : String
agent_stalled = "agent.stalled"

abbrev pub agent_recovered : String
agent_recovered = "agent.recovered"

abbrev pub agent_resume_failed : String
agent_resume_failed = "agent.resume_failed"

abbrev pub agent_plan_proposed : String
agent_plan_proposed = "agent.plan_proposed"

abbrev pub agent_todo_updated : String
agent_todo_updated = "agent.todo_updated"

-- The types with one name each.
abbrev pub plain_events : Map String
plain_events =
    (event_permission, agent_permission)
    ∷ (event_interaction_resolved, user_request_resolved)
    ∷ (event_file_changed, agent_workspace)
    ∷ (event_turn_started, agent_turn_started)
    ∷ (event_turn_complete, agent_yielded)
    ∷ (event_turn_failed, agent_turn_failed)
    ∷ (event_process_exited, agent_process_exited)
    ∷ (event_agent_stalled, agent_stalled)
    ∷ (event_agent_recovered, agent_recovered)
    ∷ (event_agent_resume_failed, agent_resume_failed)
    ∷ (event_plan_update, agent_plan_proposed)
    ∷ (event_todo_update, agent_todo_updated)
    ∷ []

unfoldable pub message_name : String → String
message_name role =
    if lower_is role "user"
    then user_message
    else if lower_is role "assistant" || lower_is role "agent"
    then agent_message
    else ""

unfoldable pub interaction_name : Option InteractionRequest → String
interaction_name none = agent_interaction
interaction_name (some r) =
    if str_eq r.kind interaction_permission then agent_permission else agent_interaction

-- `translatedEventName`; the types that are not journaled have the empty name.
unfoldable pub translated_event_name : Event → String
translated_event_name e =
    let name = trim_space e.event_type in
    if has_char 46 name
    then name
    else if str_eq e.event_type event_message
    then message_name (trim_space e.role)
    else if str_eq e.event_type event_interaction_requested
    then interaction_name e.interaction
    else elim (lookup e.event_type plain_events) [ none ↦ "" | some known ↦ known ]

-- The data of the record: the event's, with its message, its interaction, the response to one and its
-- agent added over them where the event has them.
unfoldable pub translated_data : Event → Map Value
translated_data e =
    let data₁ : Map Value =
      if is_empty e.message then e.fields else insert "message" (text e.message) e.fields in
    let data₂ : Map Value = elim e.interaction [
      | none ↦ data₁
      | some r ↦ insert "interaction" (request r) data₁
    ] in
    let data₃ : Map Value = elim e.interaction_response [
      | none ↦ data₂
      | some n ↦ insert "interaction_response" (response n) data₂
    ] in
    let agent : Map String =
      ("backend", e.backend)
      ∷ ("backend_session_id", e.backend_session_id)
      ∷ ("backend_thread_id", e.backend_thread_id)
      ∷ ("backend_turn_id", e.backend_turn_id)
      ∷ [] in
    if is_empty e.backend then data₃ else insert "agent" (strings agent) data₃

-- `Translate`, by the encoding of data.
unfoldable pub translate : (Map Value → Option Bytes) → Event → Option Record
translate marshal e =
    let name = translated_event_name e in
    if is_empty name then none else elim (marshal (translated_data e)) [
      | none ↦ none
      | some raw ↦ some (record {
        schema = "";
        schema_version = pos 0;
        event_version = pos 0;
        event_id = "";
        source_event_id = e.source_event_id;
        sequence = 0;
        timestamp = 0;
        session_id = e.session_id;
        conversation = "";
        event = name;
        turn_id = e.backend_turn_id;
        data_raw = raw;
        presentation = none;
      })
    ]
