-- ===== src/Journal/Events/Data.antt =====
-- The data of the record that an event is translated to, and the record.
use durable_acp.Prelude.{
  ◌≡◌, ◌⊎◌, inl, inr, refl, ◌∙◌, String, true, false, Option, none, some, [], ◌∷◌, str_eq, is_empty,
  if◌then◌else◌, Map, lookup, insert, lookup-insert, Bool-cases,
}
use durable_acp.Host.{Event, Value, text, strings, request, response}
use durable_acp.Journal.Record.{Bytes, Record}
use durable_acp.Journal.Events.{translated_event_name}
use durable_acp.Journal.Events.Names.{IsNamed}

-- The agent that an event names.
abbrev agent_of : Event → Value
agent_of e = strings (
    ("backend", e.backend)
    ∷ ("backend_session_id", e.backend_session_id)
    ∷ ("backend_thread_id", e.backend_thread_id)
    ∷ ("backend_turn_id", e.backend_turn_id)
    ∷ [])

-- The data of the record of an event: its message, its interaction, the response to one and its agent,
-- where the event has them, under their keys; under these keys otherwise, and under all others, the data
-- of the event.
pub record IsDataOf (e : Event) (fields : Map Value) : Type 0 where
  pub message :
      lookup "message" fields
      ≡ (if is_empty e.message then lookup "message" e.fields else some (text e.message))
  pub interaction : lookup "interaction" fields ≡ elim e.interaction as (λ o. Option Value) [
    | none ↦ lookup "interaction" e.fields
    | some r ↦ some (request r)
  ]
  pub answer :
      lookup "interaction_response" fields ≡ elim e.interaction_response as (λ o. Option Value) [
        | none ↦ lookup "interaction_response" e.fields
        | some n ↦ some (response n)
      ]
  pub agent :
      lookup "agent" fields
      ≡ (if is_empty e.backend then lookup "agent" e.fields else some (agent_of e))
  pub others :
      (key : String)
      → str_eq "message" key ≡ false
      → str_eq "interaction" key ≡ false
      → str_eq "interaction_response" key ≡ false
      → str_eq "agent" key ≡ false
      → lookup key fields ≡ lookup key e.fields

put_if_some :
    {A : Type 0} (o : Option A) (f : A → Value) (key asked : String) (m : Map Value)
    → lookup asked (elim o as (λ x. Map Value) [ none ↦ m | some a ↦ insert key (f a) m ]) ≡ (
        if str_eq key asked
        then elim o as (λ x. Option Value) [ none ↦ lookup asked m | some a ↦ some (f a) ]
        else lookup asked m)
put_if_some none f key asked m = elim (Bool-cases (str_eq key asked)) [
  | inl h ↦ rw h refl
  | inr h ↦ rw h refl
]
put_if_some (some a) f key asked m = lookup-insert key asked (f a) m

module _ (e : Event) where
  abbrev with_message : Map Value
  with_message = if is_empty e.message then e.fields else insert "message" (text e.message) e.fields

  abbrev with_interaction : Map Value
  with_interaction = elim e.interaction as (λ x. Map Value) [
    | none ↦ with_message
    | some r ↦ insert "interaction" (request r) with_message
  ]

  abbrev with_response : Map Value
  with_response = elim e.interaction_response as (λ x. Map Value) [
    | none ↦ with_interaction
    | some n ↦ insert "interaction_response" (response n) with_interaction
  ]

  at_interaction :
      (key : String)
      → lookup key with_interaction ≡ (
          if str_eq "interaction" key
          then elim e.interaction as (λ x. Option Value) [
            | none ↦ lookup key with_message
            | some r ↦ some (request r)
          ]
          else lookup key with_message)
  at_interaction key = put_if_some e.interaction request "interaction" key with_message

  at_response :
      (key : String)
      → lookup key with_response ≡ (
          if str_eq "interaction_response" key
          then elim e.interaction_response as (λ x. Option Value) [
            | none ↦ lookup key with_interaction
            | some n ↦ some (response n)
          ]
          else lookup key with_interaction)
  at_response key =
      put_if_some e.interaction_response response "interaction_response" key with_interaction

  below_interaction :
      (key : String)
      → str_eq "interaction" key ≡ false
      → lookup key with_interaction ≡ lookup key with_message
  below_interaction key h = at_interaction key ∙ rw h refl

  below_response :
      (key : String)
      → str_eq "interaction_response" key ≡ false
      → lookup key with_response ≡ lookup key with_interaction
  below_response key h = at_response key ∙ rw h refl

-- What a record is to its event.
abbrev pub Translated : (Map Value → Option Bytes) → Event → Option Record → Type 0
Translated marshal e none =
    (is_empty (translated_event_name e) ≡ true)
    ⊎ ((fields : Map Value) × (IsDataOf e fields) × (marshal fields ≡ none))
Translated marshal e (some r) =
    IsNamed e r.event
    × ((fields : Map Value) × (IsDataOf e fields) × (marshal fields ≡ some r.data_raw))
    × (r.session_id ≡ e.session_id)
    × (r.turn_id ≡ e.backend_turn_id)
    × (r.source_event_id ≡ e.source_event_id)
