-- ===== src/Runtime/Turns.antt =====
-- runtime/runtime.go: what a delivered event, a failed submission, a restart and a close do to the turn
-- of a session. Each of them holds the lock throughout.
use durable_acp.Prelude.{
  ℕ, Bool, true, false, ◌&&◌, ◌||◌, not, Option, none, some, [], ltb, length, str_eq, is_empty,
  if◌then◌else◌,
}
use durable_acp.Session.{Status, active, running, waiting_input, closed, is_status, BackendSession}
use durable_acp.Host.{
  Event, InteractionRequest, InteractionResponse, event_turn_started, event_interaction_requested,
  event_interaction_resolved, event_turn_complete, event_turn_failed, event_process_exited,
}
use durable_acp.Runtime.State.{ManagedSession, move_status}

abbrev pub has_status : Status → ManagedSession → Bool
has_status s m = is_status m.session.status s

-- What `deliverNow` knows when it leaves its switch.
pub record Outcome : Type 0 where
  pub managed : ManagedSession
  pub dispatch_next : Bool
  pub queue_changed : Bool

abbrev pub quiet : ManagedSession → Outcome
quiet m = record { managed = m; dispatch_next = false; queue_changed = false }

unfoldable pub on_turn_started : ℕ → Event → ManagedSession → Outcome
on_turn_started now e m =
    let begun = record m {
      dispatching = false;
      active = true;
      active_turn_id = e.backend_turn_id;
    } in
    if is_empty e.backend_turn_id then quiet m else record {
      managed = if has_status active begun then move_status now running begun else begun;
      dispatch_next = false;
      queue_changed = true;
    }

unfoldable pub on_interaction_requested : ℕ → Event → ManagedSession → Outcome
on_interaction_requested now e m =
    let asked = record m { pending_interaction = e.interaction } in
    quiet (if has_status running asked then move_status now waiting_input asked else asked)

-- A response resolves what is pending if it names it; without a response, anything is resolved.
unfoldable pub resolves : Option InteractionResponse → Option InteractionRequest → Bool
resolves none pending = true
resolves (some r) none = true
resolves (some r) (some p) = str_eq r.request_id p.id

unfoldable pub on_interaction_resolved : Event → ManagedSession → Outcome
on_interaction_resolved e m = quiet (
    if resolves e.interaction_response m.pending_interaction
    then record m { pending_interaction = none }
    else m)

unfoldable pub terminal_matches : Event → ManagedSession → Bool
terminal_matches e m =
    str_eq e.event_type event_process_exited
    || is_empty e.backend_turn_id
    || is_empty m.active_turn_id
    || str_eq e.backend_turn_id m.active_turn_id

unfoldable pub end_turn : ℕ → ManagedSession → ManagedSession
end_turn now m =
    let ended = record m {
      dispatching = false;
      active = false;
      active_turn_id = "";
      pending_interaction = none;
    } in
    if has_status running ended || has_status waiting_input ended
    then move_status now active ended
    else ended

unfoldable pub on_terminal : ℕ → Event → ManagedSession → Outcome
on_terminal now e m =
    if terminal_matches e m
    then record {
      managed = end_turn now m;
      dispatch_next = ltb 0 (length m.queue) && not m.dispatch_blocked;
      queue_changed = true;
    }
    else quiet m

unfoldable pub is_terminal : Event → Bool
is_terminal e =
    str_eq e.event_type event_turn_complete
    || str_eq e.event_type event_turn_failed
    || str_eq e.event_type event_process_exited

-- The switch of `deliverNow`.
unfoldable pub on_event : ℕ → Event → ManagedSession → Outcome
on_event now e m =
    if str_eq e.event_type event_turn_started
    then on_turn_started now e m
    else if str_eq e.event_type event_interaction_requested
    then on_interaction_requested now e m
    else if str_eq e.event_type event_interaction_resolved
    then on_interaction_resolved e m
    else if is_terminal e
    then on_terminal now e m
    else quiet m

-- What `failSubmission` does before it delivers the failure.
unfoldable pub submission_failed : ℕ → ManagedSession → ManagedSession
submission_failed now m =
    let ended = record m { dispatching = false; active = false; active_turn_id = "" } in
    if has_status running ended then move_status now active ended else ended

-- What `Restart` does when the adapter has restarted.
unfoldable pub restarted : BackendSession → ManagedSession → ManagedSession
restarted state m = record m {
  session = record m.session { backend_session = state };
  dispatching = false;
  active_turn_id = "";
}

-- What `Close` does when the adapter has closed its session.
unfoldable pub closed_down : ℕ → ManagedSession → ManagedSession
closed_down now m = if has_status closed m then m else record (move_status now closed m) {
  dispatching = false;
  active = false;
  active_turn_id = "";
  queue = [];
}
