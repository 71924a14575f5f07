-- ===== src/Journal/Events/Names.antt =====
-- The name and the data of the record that an event is translated to.
use durable_acp.Prelude.{
  ◌≡◌, ◌≢◌, some_injective, ◌⊎◌, inl, inr, refl, sym, ◌∙◌, String, Bool, true, false, ◌||◌, Option,
  none, some, [], ◌∷◌, str_eq, eq_iff, subst, is_empty, trim_space, has_char, lower_is,
  if◌then◌else◌, Map, lookup, Bool-cases, Option-cases,
}
use durable_acp.Host.{Event, InteractionRequest}
use durable_acp.Journal.Events.{plain_events, message_name, interaction_name, translated_event_name}

-- The types that have one name each.
abbrev pub name_table : Map String
name_table =
    ("permission_request", "agent.permission_requested")
    ∷ ("interaction_resolved", "user.request_resolved")
    ∷ ("file_changed", "agent.workspace_changed")
    ∷ ("turn_started", "agent.turn_started")
    ∷ ("turn_completed", "agent.yielded")
    ∷ ("turn_failed", "agent.turn_failed")
    ∷ ("process_exited", "agent.process_exited")
    ∷ ("agent_stalled", "agent.stalled")
    ∷ ("agent_recovered", "agent.recovered")
    ∷ ("agent_resume_failed", "agent.resume_failed")
    ∷ ("plan_update", "agent.plan_proposed")
    ∷ ("todo_update", "agent.todo_updated")
    ∷ []

-- A key stands in a table with a value.
abbrev pub InTable : String → String → Map String → Type 0
InTable key value [] = ⊥
InTable key value ((k, v) ∷ m) = ((key ≡ k) × (value ≡ v)) ⊎ InTable key value m

-- The name of the record of an event: a type with a dot is its own name; a message is named by the role
-- of its author, in any case of its letters; a request for an interaction by its kind; and the other types
-- by the table.
pub data IsNamed (e : Event) : String → Type 0 where
  by_type : has_char 46 (trim_space e.event_type) ≡ true → IsNamed e (trim_space e.event_type)
  of_user :
      e.event_type ≡ "message"
      → lower_is (trim_space e.role) "user" ≡ true
      → IsNamed e "user.message"
  of_agent :
      e.event_type ≡ "message"
      → (lower_is (trim_space e.role) "assistant" || lower_is (trim_space e.role) "agent") ≡ true
      → IsNamed e "agent.message"
  of_permission :
      (i : InteractionRequest)
      → e.event_type ≡ "interaction_requested"
      → e.interaction ≡ some i
      → i.kind ≡ "permission"
      → IsNamed e "agent.permission_requested"
  of_question :
      (i : InteractionRequest)
      → e.event_type ≡ "interaction_requested"
      → e.interaction ≡ some i
      → str_eq i.kind "permission" ≡ false
      → IsNamed e "agent.interaction_requested"
  of_nothing :
      e.event_type ≡ "interaction_requested"
      → e.interaction ≡ none
      → IsNamed e "agent.interaction_requested"
  by_table : (name : String) → InTable e.event_type name name_table → IsNamed e name

-- The empty name, or the name that there is.
abbrev pub NamedIf : Event → String → Type 0
NamedIf e name = is_empty name ≡ false → IsNamed e name

no_name : is_empty "" ≢ false
no_name h = cc

same_text : (a b : String) → str_eq a b ≡ true → a ≡ b
same_text a b h = (eq_iff a b).0 h

lookup-InTable :
    (key value : String) (m : Map String) → lookup key m ≡ some value → InTable key value m
unfolding lookup
lookup-InTable key value [] h = cc
lookup-InTable key value ((k, v) ∷ m) h = elim (Bool-cases (str_eq key k)) [
  | inl e ↦
      let found : lookup key ((k, v) ∷ m) ≡ some v = simp (lookup, e) refl in
      inl (same_text key k e, sym (some_injective (sym found ∙ h)))
  | inr e ↦
      let later : lookup key ((k, v) ∷ m) ≡ lookup key m = simp (lookup, e) refl in
      inr (lookup-InTable key value m (sym later ∙ h))
]

either_way-NamedIf :
    (e : Event) (b : Bool) (s t : String)
    → (b ≡ true → NamedIf e s)
    → (b ≡ false → NamedIf e t)
    → NamedIf e (if b then s else t)
either_way-NamedIf e true s t h k = h refl
either_way-NamedIf e false s t h k = k refl

message_name-NamedIf :
    (e : Event) → e.event_type ≡ "message" → NamedIf e (message_name (trim_space e.role))
unfolding message_name
message_name-NamedIf e h =
    either_way-NamedIf e (lower_is (trim_space e.role) "user") _ _ (λ u f. of_user h u)
      (λ n.
        either_way-NamedIf e
          (lower_is (trim_space e.role) "assistant" || lower_is (trim_space e.role) "agent") _ _
          (λ a f. of_agent h a) (λ a f. absurd (no_name f)))

interaction_name-NamedIf :
    (e : Event)
    → e.event_type ≡ "interaction_requested"
    → NamedIf e (interaction_name e.interaction)
unfolding interaction_name
interaction_name-NamedIf e h = elim (Option-cases e.interaction) [
  | inl n ↦
      subst (λ (o : Option InteractionRequest). NamedIf e (interaction_name o)) (sym n)
        (λ f. of_nothing h n)
  | inr (i, n) ↦
      subst (λ (o : Option InteractionRequest). NamedIf e (interaction_name o)) (sym n)
        (either_way-NamedIf e (str_eq i.kind "permission") _ _
          (λ p f. of_permission i h n (same_text i.kind "permission" p))
          (λ p f. of_question i h n p))
]

plain_name-NamedIf :
    (e : Event)
    → NamedIf e (elim (lookup e.event_type plain_events) as (λ o. String) [
      | none ↦ ""
      | some known ↦ known
    ])
plain_name-NamedIf e = elim (Option-cases (lookup e.event_type plain_events)) [
  | inl n ↦ rw n (λ f. absurd (no_name f))
  | inr (known, n) ↦ rw n (λ f. by_table known (lookup-InTable e.event_type known plain_events n))
]

pub translated_event_name-NamedIf : (e : Event) → NamedIf e (translated_event_name e)
unfolding translated_event_name
translated_event_name-NamedIf e =
    either_way-NamedIf e (has_char 46 (trim_space e.event_type)) _ _ (λ d f. by_type d)
      (λ d.
        either_way-NamedIf e (str_eq e.event_type "message") _ _
          (λ t. message_name-NamedIf e (same_text e.event_type "message" t))
          (λ t.
            either_way-NamedIf e (str_eq e.event_type "interaction_requested") _ _
              (λ q. interaction_name-NamedIf e (same_text e.event_type "interaction_requested" q))
              (λ q. plain_name-NamedIf e)))
