-- ===== src/Host.antt =====
-- host/types.go: the events that adapters report.
use durable_acp.Prelude.{ℤ, String, Bool, Option, ℕ, List, Map}

-- A request for an interaction, as far as it is looked at: its identifier and its kind, and the rest
-- by a number.
pub record InteractionRequest : Type 0 where
  pub id : String
  pub kind : String
  pub others : ℕ

-- The response to one, whose option and values are only passed on.
pub record InteractionResponse : Type 0 where
  pub request_id : String
  pub action : String
  pub message : String
  pub others : ℕ

-- A value of an event's data, as far as the code asserts its dynamic type: a string, a Boolean, an
-- object of strings, a pointer to a request or a response, or anything else, which is only passed on.
pub data Value : Type 0 where
  text : String → Value
  flag : Bool → Value
  strings : Map String → Value
  request : InteractionRequest → Value
  response : InteractionResponse → Value
  opaque_value : ℕ → Value

-- The pointer to a tool's display is only passed on. A map that is nil is the empty map.
pub record Event : Type 0 where
  pub source_event_id : String
  pub session_id : String
  pub backend : String
  pub backend_session_id : String
  pub backend_thread_id : String
  pub backend_turn_id : String
  pub seq : ℤ
  pub event_type : String
  pub role : String
  pub message : String
  pub fields : Map Value
  pub tool_display : Option ℕ
  pub interaction : Option InteractionRequest
  pub interaction_response : Option InteractionResponse
  pub time : String
  pub local : Map Value

abbrev pub event_message : String
event_message = "message"

abbrev pub event_thinking : String
event_thinking = "thinking"

abbrev pub event_tool_started : String
event_tool_started = "tool_started"

abbrev pub event_tool_output : String
event_tool_output = "tool_output"

abbrev pub event_permission : String
event_permission = "permission_request"

abbrev pub event_file_changed : String
event_file_changed = "file_changed"

abbrev pub event_turn_started : String
event_turn_started = "turn_started"

abbrev pub event_turn_complete : String
event_turn_complete = "turn_completed"

abbrev pub event_turn_failed : String
event_turn_failed = "turn_failed"

abbrev pub event_process_exited : String
event_process_exited = "process_exited"

abbrev pub event_queue_updated : String
event_queue_updated = "queue_updated"

abbrev pub event_trace_updated : String
event_trace_updated = "trace_updated"

abbrev pub event_agent_stalled : String
event_agent_stalled = "agent_stalled"

abbrev pub event_agent_recovered : String
event_agent_recovered = "agent_recovered"

abbrev pub event_agent_resume_failed : String
event_agent_resume_failed = "agent_resume_failed"

abbrev pub event_plan_update : String
event_plan_update = "plan_update"

abbrev pub event_todo_update : String
event_todo_update = "todo_update"

abbrev pub event_permission_modes : String
event_permission_modes = "permission_modes"

abbrev pub event_models : String
event_models = "models"

abbrev pub event_reasoning_levels : String
event_reasoning_levels = "reasoning_levels"

abbrev pub event_available_commands : String
event_available_commands = "available_commands"

abbrev pub event_config_catalog : String
event_config_catalog = "config_catalog"

abbrev pub event_interaction_requested : String
event_interaction_requested = "interaction_requested"

abbrev pub event_interaction_resolved : String
event_interaction_resolved = "interaction_resolved"

abbrev pub interaction_permission : String
interaction_permission = "permission"

abbrev pub event_local_replay : String
event_local_replay = "durable-acp.replay"

abbrev pub event_local_replay_start : String
event_local_replay_start = "durable-acp.replay_start"

-- What a turn is asked for. An attachment is only passed on.
pub record SendTurnRequest : Type 0 where
  pub session_id : String
  pub prompt : String
  pub ext : List ℕ
  pub attachments : List ℕ
  pub model : String
  pub reasoning : String
  pub permission_mode : String

pub record StartSessionRequest : Type 0 where
  pub backend : String
  pub session_id : String
  pub worktree : String
  pub prompt : String
  pub ext : List ℕ
  pub attachments : List ℕ
  pub model : String
  pub reasoning : String
  pub permission_mode : String
  pub resume_backend_session_id : String

pub record SessionConfiguration : Type 0 where
  pub model : String
  pub reasoning : String
  pub permission_mode : String
