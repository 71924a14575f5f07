-- ===== src/Runtime/Restoring/Recovery.antt =====
-- What the events of a session mean for its turn, and what their delivery does to a live session.
pub mod Names
pub mod Histories
use durable_acp.Prelude.{
  ℕ, pos, String, ◌≡◌, refl, sym, ap, ◌∙◌, subst, ◌⊎◌, inl, inr, Bool, true, false, ◌||◌, Option,
  none, some, List, [], ◌∷◌, str_eq, is_empty, trim_space, has_char, lookup, Bool-cases,
  Option-cases, some_injective, if◌then◌else◌, Map,
}
use durable_acp.Session.{Status, active, running, waiting_input}
use durable_acp.Host.{
  Event, Value, InteractionRequest, InteractionResponse, event_turn_started,
  event_interaction_requested, event_interaction_resolved, event_turn_complete, event_turn_failed,
  event_process_exited, event_message, interaction_permission,
}
use durable_acp.Journal.Record.{Bytes, Record}
use durable_acp.Journal.Events.{
  translate, translated_event_name, translated_data, agent_turn_started, agent_interaction,
  agent_permission, user_request_resolved, agent_yielded, agent_turn_failed, agent_process_exited,
  message_name, interaction_name,
}
use durable_acp.Runtime.State.{ManagedSession, move_status}
use durable_acp.Runtime.Turns.{
  Outcome, has_status, quiet, on_turn_started, on_interaction_requested, resolves,
  on_interaction_resolved, terminal_matches, end_turn, on_terminal, is_terminal, on_event,
}
use durable_acp.Runtime.Restoring.{
  RecordData, turn_started_record, interaction_from_record, interaction_record,
  response_from_record, resolved_record, ends_active, terminal_record, is_terminal_record,
  turn_record,
}

-- What a session is at: whether a turn is active, which one, and what it waits for.
pub record TurnView : Type 0 where
  pub active : Bool
  pub turn_id : String
  pub pending : Option InteractionRequest

abbrev pub view : ManagedSession → TurnView
view m = record { active = m.active; turn_id = m.active_turn_id; pending = m.pending_interaction }

abbrev pub no_turn : TurnView
no_turn = record { active = false; turn_id = ""; pending = none }

-- What an event means for the turn.
unfoldable pub begun : String → TurnView → TurnView
begun id v = if is_empty id then v else record { active = true; turn_id = id; pending = v.pending }

unfoldable pub answered : Option InteractionResponse → TurnView → TurnView
answered response v = if resolves response v.pending then record v { pending = none } else v

unfoldable pub over : Bool → String → TurnView → TurnView
over exited id v =
    if exited || is_empty id || is_empty v.turn_id || str_eq id v.turn_id then no_turn else v

unfoldable pub view_after : Event → TurnView → TurnView
view_after e v =
    if str_eq e.event_type event_turn_started
    then begun e.backend_turn_id v
    else if str_eq e.event_type event_interaction_requested
    then record v { pending = e.interaction }
    else if str_eq e.event_type event_interaction_resolved
    then answered e.interaction_response v
    else if is_terminal e
    then over (str_eq e.event_type event_process_exited) e.backend_turn_id v
    else v

pub outcome_view :
    (b : Bool) (o p : Outcome) (v w : TurnView)
    → view o.managed ≡ v
    → view p.managed ≡ w
    → view (if b then o else p).managed ≡ (if b then v else w)
outcome_view true o p v w h k = h
outcome_view false o p v w h k = k

pub session_view :
    (b : Bool) (x y : ManagedSession) (v w : TurnView)
    → view x ≡ v
    → view y ≡ w
    → view (if b then x else y) ≡ (if b then v else w)
session_view true x y v w h k = h
session_view false x y v w h k = k

-- The status does not show.
pub moved_view :
    (b : Bool) (now : ℕ) (s : Status) (m : ManagedSession)
    → view (if b then move_status now s m else m) ≡ view m
unfolding move_status
moved_view true now s m = refl
moved_view false now s m = refl

-- The delivery of an event does to the turn of a live session what the event means.
pub on_event-view :
    (now : ℕ) (e : Event) (m : ManagedSession)
    → view (on_event now e m).managed ≡ view_after e (view m)
unfolding on_event on_turn_started on_interaction_requested on_interaction_resolved on_terminal
    end_turn view_after begun answered over terminal_matches
on_event-view now e m =
    let started : ManagedSession = record m {
      dispatching = false;
      active = true;
      active_turn_id = e.backend_turn_id;
    } in
    let asked : ManagedSession = record m { pending_interaction = e.interaction } in
    let ended : ManagedSession = record m {
      dispatching = false;
      active = false;
      active_turn_id = "";
      pending_interaction = none;
    } in
    outcome_view (str_eq e.event_type event_turn_started) _ _ _ _
      (outcome_view (is_empty e.backend_turn_id) (quiet m) _ (view m) _ refl
        (moved_view (has_status active started) now running started))
      (outcome_view (str_eq e.event_type event_interaction_requested) _ _ _ _
        (moved_view (has_status running asked) now waiting_input asked)
        (outcome_view (str_eq e.event_type event_interaction_resolved) _ _ _ _
          (session_view (resolves e.interaction_response m.pending_interaction) _ m _ (view m) refl
            refl)
          (outcome_view (is_terminal e) _ (quiet m) _ (view m)
            (outcome_view (terminal_matches e m) _ (quiet m) _ (view m)
              (moved_view (has_status running ended || has_status waiting_input ended) now active
                ended)
              refl)
            refl)))

pub view_started :
    (e : Event)
    → e.event_type ≡ event_turn_started
    → (v : TurnView) → view_after e v ≡ begun e.backend_turn_id v
unfolding view_after
view_started e h v = simp (view_after, h) refl

pub view_asked :
    (e : Event)
    → e.event_type ≡ event_interaction_requested
    → (v : TurnView) → view_after e v ≡ record v { pending = e.interaction }
unfolding view_after
view_asked e h v = simp (view_after, h) refl

pub view_answered :
    (e : Event)
    → e.event_type ≡ event_interaction_resolved
    → (v : TurnView) → view_after e v ≡ answered e.interaction_response v
unfolding view_after
view_answered e h v = simp (view_after, h) refl

pub view_completed :
    (e : Event)
    → e.event_type ≡ event_turn_complete
    → (v : TurnView) → view_after e v ≡ over false e.backend_turn_id v
unfolding view_after is_terminal
view_completed e h v = simp (view_after, is_terminal, h) refl

pub view_failed :
    (e : Event)
    → e.event_type ≡ event_turn_failed
    → (v : TurnView) → view_after e v ≡ over false e.backend_turn_id v
unfolding view_after is_terminal
view_failed e h v = simp (view_after, is_terminal, h) refl

pub view_exited :
    (e : Event)
    → e.event_type ≡ event_process_exited
    → (v : TurnView) → view_after e v ≡ over true e.backend_turn_id v
unfolding view_after is_terminal
view_exited e h v = simp (view_after, is_terminal, h) refl
