-- ===== src/Session.antt =====
-- session/session.go: the status of a session and its transitions.
pub mod Lifecycle
use durable_acp.Prelude.{
  ℕ, String, Bool, true, false, Option, none, some, List, [], ◌∷◌, if◌then◌else◌, str_eq,
}

-- `type Status string` with the six named values; `other` is any further text.
pub data Status : Type 0 where
  creating active running waiting_input failed closed : Status
  other : String → Status

pub record BackendSession : Type 0 where
  pub id : String
  pub thread_id : String
  pub turn_id : String

pub record Session : Type 0 where
  pub id : String
  pub backend : String
  pub worktree : String
  pub status : Status
  pub created_at : ℕ
  pub updated_at : ℕ
  pub backend_session : BackendSession

-- The errors that wrap `ErrInvalidTransition`.
pub data TransitionError : Type 0 where
  nil_session : TransitionError
  not_allowed : Status → Status → TransitionError

-- The table `allowedTransitions`: whether the entry of the first status holds the second. A status
-- that is no key has the nil map, which holds nothing.
unfoldable pub allowed : Status → Status → Bool
allowed creating active = true
allowed creating failed = true
allowed creating closed = true
allowed active running = true
allowed active failed = true
allowed active closed = true
allowed running active = true
allowed running waiting_input = true
allowed running failed = true
allowed running closed = true
allowed waiting_input active = true
allowed waiting_input running = true
allowed waiting_input failed = true
allowed waiting_input closed = true
allowed failed closed = true
allowed _ _ = false

-- `New`, at the time `now`.
unfoldable pub new : String → String → String → ℕ → Session
new id backend worktree now = record {
  id = id;
  backend = backend;
  worktree = worktree;
  status = creating;
  created_at = now;
  updated_at = now;
  backend_session = record { id = ""; thread_id = ""; turn_id = "" };
}

-- `Transition` on a session that is there: the new session, and the error if there is one.
unfoldable pub transition_to : Session → Status → ℕ → Session × Option TransitionError
unfolding allowed
transition_to s next now =
    if allowed s.status next
    then (record s { status = next; updated_at = now }, none)
    else (s, some (not_allowed s.status next))

-- `Transition` on a pointer.
unfoldable pub transition : Option Session → Status → ℕ → Option Session × Option TransitionError
unfolding transition_to
transition none next now = (none, some nil_session)
transition (some s) next now = let (s', err) = transition_to s next now in (some s', err)

-- Transitions one after the other, whose errors the caller drops (`_ = s.Transition(next)`).
unfoldable pub run : Session → List (Status × ℕ) → Session
run s [] = s
run s ((next, now) ∷ rest) = run (transition_to s next now).0 rest

-- `==` on statuses.
unfoldable pub is_status : Status → Status → Bool
is_status creating creating = true
is_status active active = true
is_status running running = true
is_status waiting_input waiting_input = true
is_status failed failed = true
is_status closed closed = true
is_status (other a) (other b) = str_eq a b
is_status _ _ = false
