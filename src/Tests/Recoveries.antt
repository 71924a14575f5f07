-- ===== src/Tests/Recoveries.antt =====
-- A turn that is restored from its journal.
use durable_acp.Host.{event_message, event_queue_updated}
use durable_acp.Prelude.{
  ℕ, String, Option, none, some, List, [], ◌∷◌, Map, lookup, ◌==◌, if◌then◌else◌, pos,
}
use durable_acp.Host.{
  Event, Value, InteractionRequest, InteractionResponse, event_turn_started, event_turn_complete,
  event_interaction_requested, event_interaction_resolved,
}
use durable_acp.Journal.Record.{Bytes, Record}
use durable_acp.Runtime.Restoring.{RecordData}
use durable_acp.Tests.Runtimes.{started, no_data}

-- The data of an event by one byte: whether it has an interaction, a response, or neither.
abbrev mark : Map Value → Option Bytes
mark fields = elim (lookup "interaction" fields) [
  | some v ↦ some (1 ∷ [])
  | none ↦ elim (lookup "interaction_response" fields) [
    | some v ↦ some (2 ∷ [])
    | none ↦ some (3 ∷ [])
  ]
]

abbrev question : InteractionRequest
question = record { id = "i1"; kind = "permission"; others = 0 }

abbrev reply : InteractionResponse
reply = record { request_id = "i1"; action = "approve"; message = ""; others = 0 }

abbrev marked_data : RecordData
marked_data = record no_data {
  interaction_data =
      λ bs. elim bs [ [] ↦ none | b ∷ rest ↦ some (if b == 1 then some question else none) ];
  response_data =
      λ bs. elim bs [ [] ↦ none | b ∷ rest ↦ some (if b == 2 then some reply else none) ];
}

abbrev bare_event : String → Event
bare_event t = record started { event_type = t; message = ""; backend = ""; fields = [] }

abbrev asked : Event
asked = record (bare_event event_interaction_requested) { interaction = some question }

abbrev replied : Event
replied = record (bare_event event_interaction_resolved) { interaction_response = some reply }

abbrev entry_of : String → Bytes → Record
entry_of name raw = record {
  schema = "";
  schema_version = pos 0;
  event_version = pos 0;
  event_id = "";
  source_event_id = "x";
  sequence = 0;
  timestamp = 0;
  session_id = "s";
  conversation = "";
  event = name;
  turn_id = "t1";
  data_raw = raw;
  presentation = none;
}

abbrev a_turn : List (ℕ × Event × Option Record)
a_turn =
    (1, bare_event event_turn_started, some (entry_of "agent.turn_started" (3 ∷ [])))
    ∷ (
      1,
      record (bare_event event_message) { role = "agent" },
      some (entry_of "agent.message" (3 ∷ [])),
    )
    ∷ (1, bare_event event_queue_updated, none)
    ∷ (2, asked, some (entry_of "agent.permission_requested" (1 ∷ [])))
    ∷ (3, replied, some (entry_of "user.request_resolved" (2 ∷ [])))
    ∷ (4, bare_event event_turn_complete, some (entry_of "agent.yielded" (3 ∷ [])))
    ∷ []
