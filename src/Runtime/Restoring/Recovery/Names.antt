-- ===== src/Runtime/Restoring/Recovery/Names.antt =====
-- The records of the events that concern a turn, by their names.
use durable_acp.Prelude.{Bool, str_eq, ◌||◌}
use durable_acp.Runtime.Restoring.{is_terminal_record}
use durable_acp.Prelude.{
  pos, String, ◌≡◌, refl, sym, ap, ◌∙◌, subst, ◌⊎◌, inl, inr, false, Option, none, some, str_eq,
  is_empty, trim_space, has_char, lookup, Bool-cases, Option-cases, some_injective, Map,
}
use durable_acp.Host.{
  Event, Value, InteractionRequest, InteractionResponse, event_turn_started,
  event_interaction_requested, event_interaction_resolved, event_turn_complete, event_turn_failed,
  event_process_exited, interaction_permission,
}
use durable_acp.Journal.Record.{Bytes, Record}
use durable_acp.Journal.Events.{
  translate, translated_event_name, translated_data, agent_turn_started, agent_interaction,
  agent_permission, user_request_resolved, agent_yielded, agent_turn_failed, agent_process_exited,
  interaction_name,
}

-- The record of an event under a name.
abbrev pub record_of : Event → String → Bytes → Record
record_of e name raw = record {
  schema = "";
  schema_version = pos 0;
  event_version = pos 0;
  event_id = "";
  source_event_id = e.source_event_id;
  sequence = 0;
  timestamp = 0;
  session_id = e.session_id;
  conversation = "";
  event = name;
  turn_id = e.backend_turn_id;
  data_raw = raw;
  presentation = none;
}

-- The types of the events that concern a turn.
abbrev pub is_turn_type : String → Bool
is_turn_type t =
    str_eq t "turn_started"
    || str_eq t "interaction_requested"
    || str_eq t "interaction_resolved"
    || str_eq t "turn_completed"
    || str_eq t "turn_failed"
    || str_eq t "process_exited"

-- The names of the records that concern a turn.
abbrev pub is_turn_name : String → Bool
is_turn_name name =
    str_eq name agent_turn_started
    || str_eq name agent_interaction
    || str_eq name agent_permission
    || str_eq name user_request_resolved
    || is_terminal_record name

-- An event of a turn, in the form in which both sides treat it alike: it starts the turn by an
-- identifier without surrounding space, asks for an interaction whose identifier is not blank, answers
-- one with a response that names a request, or ends the turn.
pub data IsTurnEvent (e : Event) : Type 0 where
  starts :
      e.event_type ≡ event_turn_started
      → trim_space e.backend_turn_id ≡ e.backend_turn_id
      → IsTurnEvent e
  asks :
      e.event_type ≡ event_interaction_requested
      → (i : InteractionRequest) → e.interaction ≡ some i
      → is_empty (trim_space i.id) ≡ false
      → IsTurnEvent e
  answers :
      e.event_type ≡ event_interaction_resolved
      → (a : InteractionResponse) → e.interaction_response ≡ some a
      → is_empty a.request_id ≡ false
      → IsTurnEvent e
  completes : e.event_type ≡ event_turn_complete → IsTurnEvent e
  fails : e.event_type ≡ event_turn_failed → IsTurnEvent e
  exits : e.event_type ≡ event_process_exited → IsTurnEvent e

none_ne_some {ℓ} : {A : Type ℓ} {a : A} → ◌≡◌ {A = Option A} none (some a) → ⊥
none_ne_some h = cc

pub named_record :
    (marshal : Map Value → Option Bytes) (e : Event) (r : Record) (name : String)
    → translated_event_name e ≡ name
    → is_empty name ≡ false
    → translate marshal e ≡ some r
    → r ≡ record_of e name r.data_raw
unfolding translate
named_record marshal e r name n full h =
    let there : is_empty (translated_event_name e) ≡ false = ap is_empty n ∙ full in
    elim (Option-cases (marshal (translated_data e))) [
      | inl b ↦
          let nothing : translate marshal e ≡ none = simp (translate, there, b) refl in
          absurd (none_ne_some (sym nothing ∙ h))
      | inr (raw, b) ↦
          let made : translate marshal e ≡ some (record_of e name raw) =
            simp (translate, b, n, full) refl in
          let same : record_of e name raw ≡ r = some_injective (sym made ∙ h) in
          subst (λ (x : Record). x ≡ record_of e name x.data_raw) same refl
    ]

pub started_name :
    (e : Event) → e.event_type ≡ event_turn_started → translated_event_name e ≡ agent_turn_started
unfolding translated_event_name trim_space has_char lookup
started_name e h = rw (translated_event_name, h) refl

pub answered_name :
    (e : Event)
    → e.event_type ≡ event_interaction_resolved
    → translated_event_name e ≡ user_request_resolved
unfolding translated_event_name trim_space has_char lookup
answered_name e h = rw (translated_event_name, h) refl

pub completed_name :
    (e : Event) → e.event_type ≡ event_turn_complete → translated_event_name e ≡ agent_yielded
unfolding translated_event_name trim_space has_char lookup
completed_name e h = rw (translated_event_name, h) refl

pub failed_name :
    (e : Event) → e.event_type ≡ event_turn_failed → translated_event_name e ≡ agent_turn_failed
unfolding translated_event_name trim_space has_char lookup
failed_name e h = rw (translated_event_name, h) refl

pub exited_name :
    (e : Event)
    → e.event_type ≡ event_process_exited
    → translated_event_name e ≡ agent_process_exited
unfolding translated_event_name trim_space has_char lookup
exited_name e h = rw (translated_event_name, h) refl

pub asked_name :
    (e : Event)
    → e.event_type ≡ event_interaction_requested
    → (translated_event_name e ≡ agent_interaction) ⊎ (translated_event_name e ≡ agent_permission)
unfolding translated_event_name trim_space has_char lookup interaction_name
asked_name e h = elim (Option-cases e.interaction) [
  | inl a ↦ inl (rw (translated_event_name, h, a) refl)
  | inr (i, a) ↦ elim (Bool-cases (str_eq i.kind interaction_permission)) [
    | inl p ↦ inr (rw (translated_event_name, h, a, p) refl)
    | inr p ↦ inl (rw (translated_event_name, h, a, p) refl)
  ]
]
