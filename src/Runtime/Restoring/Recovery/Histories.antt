-- ===== src/Runtime/Restoring/Recovery/Histories.antt =====
-- The turn of a live session, and the one that is restored from the journal of its events.
use durable_acp.Prelude.{str_eq, if◌then◌else◌}
use durable_acp.Host.{event_interaction_requested, event_interaction_resolved}
use durable_acp.Journal.Events.{
  agent_turn_started, agent_interaction, agent_permission, user_request_resolved,
}
use durable_acp.Prelude.{true, false, ◌||◌, none}
use durable_acp.Runtime.Restoring.Recovery.Names.{is_turn_type, is_turn_name}
use durable_acp.Prelude.{
  ℕ, ◌≡◌, true, false, ◌||◌, Option, none, some, List, [], ◌∷◌, str_eq, if◌then◌else◌, Map,
}
use durable_acp.Host.{Event, Value, event_interaction_requested, event_interaction_resolved}
use durable_acp.Journal.Record.{Bytes, Record}
use durable_acp.Journal.Events.{
  translate, agent_turn_started, agent_interaction, agent_permission, user_request_resolved,
}
use durable_acp.Runtime.State.{ManagedSession}
use durable_acp.Runtime.Turns.{on_event}
use durable_acp.Runtime.Restoring.{RecordData, turn_record}
use durable_acp.Runtime.Restoring.Recovery.{view, view_after}
use durable_acp.Runtime.Restoring.Recovery.Names.{IsTurnEvent}

-- The record under which an event was journaled, and what Unmarshal reads from its data: what Marshal
-- has put there.
pub record IsJournaled (marshal : Map Value → Option Bytes) (reader : RecordData) (e : Event)
    (r : Record) : Type 0 where
  pub translation : translate marshal e ≡ some r
  pub interaction : reader.interaction_data r.data_raw ≡ some e.interaction
  pub response : reader.response_data r.data_raw ≡ some e.interaction_response

module _ (marshal : Map Value → Option Bytes) (reader : RecordData) (now : ℕ) where
  abbrev Agrees : Event → Record → Type 0
  Agrees e r = (m : ManagedSession) → view (turn_record reader now r m) ≡ view_after e (view m)

  -- One event of a history and what the journal has of it: an event of a turn with its record; or an
  -- event of another type, which was journaled under a name that concerns no turn, or was not journaled.
  pub data Journaled (e : Event) : Option Record → Type 0 where
    of_turn : (r : Record) → IsTurnEvent e → IsJournaled marshal reader e r → Journaled e (some r)
    beside :
        (r : Record)
        → is_turn_type e.event_type ≡ false
        → is_turn_name r.event ≡ false
        → translate marshal e ≡ some r
        → Journaled e (some r)
    unjournaled : is_turn_type e.event_type ≡ false → translate marshal e ≡ none → Journaled e none

  -- A history: events with the times of their delivery, and their records.
  abbrev pub live_turns : List (ℕ × Event × Option Record) → ManagedSession → ManagedSession
  live_turns [] m = m
  live_turns ((at, e, o) ∷ es) m = live_turns es (on_event at e m).managed

  abbrev pub restored_turns : List (ℕ × Event × Option Record) → ManagedSession → ManagedSession
  restored_turns [] m = m
  restored_turns ((at, e, none) ∷ es) m = restored_turns es m
  restored_turns ((at, e, some r) ∷ es) m = restored_turns es (turn_record reader now r m)

  abbrev pub AreJournaled : List (ℕ × Event × Option Record) → Type 0
  AreJournaled [] = Unit {0}
  AreJournaled ((at, e, o) ∷ es) = Journaled e o × AreJournaled es
