-- ===== src/Runtime/State.antt =====
-- runtime/runtime.go and runtime/errors.go: the state of the sessions that a runtime manages, and its
-- errors.
use durable_acp.Prelude.{
  ℕ, ℤ, pos, negsuc, String, Bool, false, ◌&&◌, Option, none, some, List, [], ◌==◌, str_eq,
  if◌then◌else◌, Map, lookup, insert, not, Result, ok, err, or_error,
}
use durable_acp.Session.{Status, Session, BackendSession, transition_to}
use durable_acp.Host.{Event, SendTurnRequest, SessionConfiguration, InteractionRequest}
use durable_acp.Journal.Replay.{ReplayMatcher}
use durable_acp.Runtime.Coalesce.{Coalescer}

pub record QueueEntry : Type 0 where
  pub id : String
  pub request : SendTurnRequest

pub record TurnDispatch : Type 0 where
  pub session_id : String
  pub queue_entry_id : String
  pub request : SendTurnRequest
  pub queued : Bool

pub record SendResult : Type 0 where
  pub session : Option BackendSession
  pub accepted : Bool
  pub queued : Bool
  pub queue_entry_id : String
  pub queue_depth : ℕ

pub record QueueView : Type 0 where
  pub depth : ℕ
  pub active : Bool
  pub active_turn_id : String
  pub dispatch_blocked : Bool

pub record ConfigurationEventVersions : Type 0 where
  pub model : ℕ
  pub reasoning : ℕ
  pub permission : ℕ

-- `managedSession`. `last_queue` is the view that was emitted last, if one was.
pub record ManagedSession : Type 0 where
  pub session : Session
  pub configuration : SessionConfiguration
  pub configuration_event : ConfigurationEventVersions
  pub queue : List QueueEntry
  pub dispatching : Bool
  pub active : Bool
  pub active_turn_id : String
  pub dispatch_blocked : Bool
  pub pending_interaction : Option InteractionRequest
  pub replay : Option ReplayMatcher
  pub next_queue_seq : ℤ
  pub next_seq : ℤ
  pub coalescer : Option Coalescer
  pub last_queue : Option QueueView

-- A session that has just been created or restored, with nothing in it.
abbrev pub managed_new : Session → SessionConfiguration → ℤ → ManagedSession
managed_new session configuration seq = record {
  session = session;
  configuration = configuration;
  configuration_event = record { model = 0; reasoning = 0; permission = 0 };
  queue = [];
  dispatching = false;
  active = false;
  active_turn_id = "";
  dispatch_blocked = false;
  pending_interaction = none;
  replay = none;
  next_queue_seq = pos 0;
  next_seq = seq;
  coalescer = none;
  last_queue = none;
}

-- `_ = managed.session.Transition(next)`.
unfoldable pub move_status : ℕ → Status → ManagedSession → ManagedSession
move_status now next m = record m { session = (transition_to m.session next now).0 }

-- `errors.go`, and the other errors by what they say; an error of an adapter or of the journal is a
-- text.
pub data RuntimeError : Type 0 where
  session_not_found session_exists session_closed not_closed : String → RuntimeError
  queue_full : String → ℕ → ℕ → RuntimeError
  queue_entry_not_found : String → String → RuntimeError
  turn_active : String → String → RuntimeError
  restart_unsupported unsupported_backend no_worktree : String → RuntimeError
  unsupported_operation : String → String → RuntimeError
  session_required prompt_required terminal_required request_required : RuntimeError
  backend_required worktree_required journal_required no_id : RuntimeError
  no_lifecycle : String → RuntimeError
  external : String → RuntimeError

-- Which optional interfaces an adapter implements.
pub record Adapter : Type 0 where
  pub restarts : Bool
  pub responds_interaction : Bool
  pub responds_permission : Bool

-- What a runtime does to the outside, in order: it hands an event to the sink, starts `dispatchQueued`
-- in a goroutine, or panics.
pub data Effect : Type 0 where
  emitted : Event → Effect
  spawned : String → Effect
  panicked : Effect

-- `Runtime`, over a journal of type `J`. `has_sink` tells whether there is an event sink.
pub record Runtime {ℓ} (J : Type ℓ) : Type ℓ where
  pub adapters : Map Adapter
  pub sessions : Map ManagedSession
  pub journal : Option J
  pub journal_writes : Bool
  pub has_sink : Bool
  pub max_queued_turns : ℕ
  pub coalesce_events : Bool
  pub effects : List Effect

-- The time of a call, as the session keeps it and as an event shows it.
pub record Clock : Type 0 where
  pub instant : ℕ
  pub shown : String

abbrev same_bool : Bool → Bool → Bool
same_bool a b = if a then b else not b

unfoldable pub same_view : QueueView → QueueView → Bool
same_view a b =
    a.depth == b.depth
    && same_bool a.active b.active
    && str_eq a.active_turn_id b.active_turn_id
    && same_bool a.dispatch_blocked b.dispatch_blocked

-- `defaultQueueDepth`, and the limit that `New` takes from the configuration.
abbrev pub default_queue_depth : ℕ
default_queue_depth = 16

unfoldable pub queue_limit : ℤ → ℕ
queue_limit (pos n) = if n == 0 then default_queue_depth else n
queue_limit (negsuc n) = default_queue_depth

module _ {ℓ} {J : Type ℓ} where
  unfoldable pub put : String → ManagedSession → Runtime J → Runtime J
  put id m r = record r { sessions = insert id m r.sessions }

  -- `adapterLocked`.
  unfoldable pub adapter_locked :
      String → Runtime J → Result RuntimeError (ManagedSession × Adapter)
  adapter_locked id r = elim (lookup id r.sessions) [
    | none ↦ err (session_not_found id)
    | some m ↦ elim (lookup m.session.backend r.adapters) [
      | none ↦ err (unsupported_backend m.session.backend)
      | some a ↦ ok (m, a)
    ]
  ]

  -- The lookup of the methods that need no adapter.
  unfoldable pub session_of : String → Runtime J → Result RuntimeError ManagedSession
  session_of id r = or_error (lookup id r.sessions) (session_not_found id)
