-- ===== src/Tests/Events.antt =====
-- The translation of one event.
use durable_acp.Prelude.{Option, none, some, [], ◌∷◌, pos, Map}
use durable_acp.Host.{Event, Value, text}
use durable_acp.Journal.Record.{Bytes}

abbrev pub answered : Event
answered = record {
  source_event_id = "x";
  session_id = "s";
  backend = "codex";
  backend_session_id = "b";
  backend_thread_id = "";
  backend_turn_id = "t";
  seq = pos 1;
  event_type = "message";
  role = " Assistant";
  message = "done";
  fields = ("provider_event_id", text "p") ∷ [];
  tool_display = none;
  interaction = none;
  interaction_response = none;
  time = "now";
  local = [];
}

abbrev pub some_bytes : Map Value → Option Bytes
some_bytes fields = some (1 ∷ 2 ∷ [])
