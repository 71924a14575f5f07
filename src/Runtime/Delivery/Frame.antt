-- ===== src/Runtime/Delivery/Frame.antt =====
-- What the delivery of events leaves alone: the queues, whether they are blocked, and which sessions
-- there are and are closed.
use durable_acp.Prelude.{
  ℕ, String, ◌≡◌, refl, sym, ap, ◌∙◌, inl, inr, Bool, true, false, ◌||◌, Option, none, some,
  is_empty, is_pos, increment, trim_space, if◌then◌else◌, Bool-cases, Option-cases, Map, lookup,
}
use durable_acp.Session.{
  Status, creating, active, running, waiting_input, failed, closed, other, Session, allowed,
  transition_to, is_status,
}
use durable_acp.Host.{
  event_local_replay, event_local_replay_start, Event, Value, text, flag, strings, request,
  response, opaque_value,
}
use durable_acp.Journal.Record.{Bytes}
use durable_acp.Journal.Events.{translate}
use durable_acp.Journal.Replay.{Json, ReplayMatcher, reset}
use durable_acp.Runtime.State.{ManagedSession, Clock, move_status}
use durable_acp.Runtime.Configuration.{
  Field, model_field, reasoning_field, permission_field, set_field, reconcile_configuration_value,
  reconcile_configuration,
}
use durable_acp.Runtime.Turns.{
  Outcome, has_status, on_event, on_turn_started, on_interaction_requested, on_interaction_resolved,
  on_terminal, end_turn, submission_failed, is_terminal, terminal_matches, resolves,
}
use durable_acp.Runtime.Delivery.{
  prepare_event, completed_event, check_replay, replay_record, is_flagged,
}

-- The same queue, and the same answer to whether it is blocked and the session closed.
pub record Keeps (m m' : ManagedSession) : Type 0 where
  pub same_queue : m'.queue ≡ m.queue
  pub same_queue_seq : m'.next_queue_seq ≡ m.next_queue_seq
  pub same_blocked : m'.dispatch_blocked ≡ m.dispatch_blocked
  pub same_backend : m'.session.backend ≡ m.session.backend
  pub same_closed : has_status closed m' ≡ has_status closed m

pub Keeps-refl : (m : ManagedSession) → Keeps m m
Keeps-refl m = record {
  same_queue = refl;
  same_queue_seq = refl;
  same_blocked = refl;
  same_backend = refl;
  same_closed = refl;
}

pub Keeps-trans : (a b c : ManagedSession) → Keeps a b → Keeps b c → Keeps a c
Keeps-trans a b c p q = record {
  same_queue = q.same_queue ∙ p.same_queue;
  same_queue_seq = q.same_queue_seq ∙ p.same_queue_seq;
  same_blocked = q.same_blocked ∙ p.same_blocked;
  same_backend = q.same_backend ∙ p.same_backend;
  same_closed = q.same_closed ∙ p.same_closed;
}

-- A transition to a status that is not closed neither closes nor opens a session.
either_open :
    (b : Bool) (s next : Status)
    → is_status s closed ≡ false
    → is_status next closed ≡ false
    → is_status (if b then next else s) closed ≡ is_status s closed
either_open true s next h k = k ∙ sym h
either_open false s next h k = refl

status-closed :
    (s next : Status)
    → is_status next closed ≡ false
    → is_status (if allowed s next then next else s) closed ≡ is_status s closed
unfolding is_status allowed
status-closed creating next h = either_open (allowed creating next) creating next refl h
status-closed active next h = either_open (allowed active next) active next refl h
status-closed running next h = either_open (allowed running next) running next refl h
status-closed waiting_input next h =
    either_open (allowed waiting_input next) waiting_input next refl h
status-closed failed next h = either_open (allowed failed next) failed next refl h
status-closed (other t) next h = either_open (allowed (other t) next) (other t) next refl h
status-closed closed next h = refl

pub move_status-Keeps :
    (now : ℕ) (next : Status) (m : ManagedSession)
    → is_status next closed ≡ false
    → Keeps m (move_status now next m)
unfolding move_status transition_to
move_status-Keeps now next m h = elim (Bool-cases (allowed m.session.status next)) [
  | inl e ↦
      let same = status-closed m.session.status next h in
      rw (move_status, transition_to, e)
        (record {
          same_queue = refl;
          same_queue_seq = refl;
          same_blocked = refl;
          same_backend = refl;
          same_closed =
              sym (ap (λ b. is_status (if b then next else m.session.status) closed) e) ∙ same;
        })
  | inr e ↦ rw (move_status, transition_to, e) (Keeps-refl m)
]

keep_if :
    (b : Bool) (m m' : ManagedSession)
    → Keeps m m'
    → (k : ManagedSession) → Keeps m k
    → Keeps m (if b then m' else k)
keep_if true m m' h k g = h
keep_if false m m' h k g = g

pub plain_change :
    (m m' : ManagedSession)
    → m'.queue ≡ m.queue
    → m'.next_queue_seq ≡ m.next_queue_seq
    → m'.dispatch_blocked ≡ m.dispatch_blocked
    → m'.session ≡ m.session
    → Keeps m m'
plain_change m m' q s b e = record {
  same_queue = q;
  same_queue_seq = s;
  same_blocked = b;
  same_backend = ap (λ (t : Session). t.backend) e;
  same_closed = ap (λ (t : Session). is_status t.status closed) e;
}

-- A change of such fields, and a transition to a status other than closed if the test says so.
change_and_move :
    (now : ℕ) (next : Status) (b : Bool) (m m' : ManagedSession)
    → is_status next closed ≡ false
    → Keeps m m'
    → Keeps m (if b then move_status now next m' else m')
change_and_move now next b m m' h k =
    keep_if b m (move_status now next m')
      (Keeps-trans m m' (move_status now next m') k (move_status-Keeps now next m' h)) m' k

pub end_turn-Keeps : (now : ℕ) (m : ManagedSession) → Keeps m (end_turn now m)
unfolding end_turn is_status
end_turn-Keeps now m =
    let ended : ManagedSession = record m {
      dispatching = false;
      active = false;
      active_turn_id = "";
      pending_interaction = none;
    } in
    change_and_move now active (has_status running ended || has_status waiting_input ended) m ended
      refl (plain_change m ended refl refl refl refl)

pub submission_failed-Keeps : (now : ℕ) (m : ManagedSession) → Keeps m (submission_failed now m)
unfolding submission_failed is_status
submission_failed-Keeps now m =
    let ended : ManagedSession = record m {
      dispatching = false;
      active = false;
      active_turn_id = "";
    } in
    change_and_move now active (has_status running ended) m ended refl
      (plain_change m ended refl refl refl refl)

outcome_if :
    (b : Bool) (m : ManagedSession) (o p : Outcome)
    → Keeps m o.managed
    → Keeps m p.managed
    → Keeps m (if b then o else p).managed
outcome_if true m o p h k = h
outcome_if false m o p h k = k

pub on_event-Keeps : (now : ℕ) (e : Event) (m : ManagedSession) → Keeps m (on_event now e m).managed
unfolding on_event on_turn_started on_interaction_requested on_interaction_resolved on_terminal
    is_status
on_event-Keeps now e m =
    let begun : ManagedSession = record m {
      dispatching = false;
      active = true;
      active_turn_id = e.backend_turn_id;
    } in
    let asked : ManagedSession = record m { pending_interaction = e.interaction } in
    let answered : ManagedSession = record m { pending_interaction = none } in
    outcome_if _ m _ _
      (outcome_if (is_empty e.backend_turn_id) m _ _ (Keeps-refl m) (
        change_and_move now running (has_status active begun) m begun refl
          (plain_change m begun refl refl refl refl)))
      (outcome_if _ m _ _
        (change_and_move now waiting_input (has_status running asked) m asked refl
          (plain_change m asked refl refl refl refl))
        (outcome_if _ m _ _
          (keep_if (resolves e.interaction_response m.pending_interaction) m answered
            (plain_change m answered refl refl refl refl) m (Keeps-refl m))
          (outcome_if (is_terminal e) m _ _
            (outcome_if (terminal_matches e m) m _ _ (end_turn-Keeps now m) (Keeps-refl m))
            (Keeps-refl m))))

set_field-Keeps : (f : Field) (value : String) (m : ManagedSession) → Keeps m (set_field f value m)
unfolding set_field
set_field-Keeps model_field value m =
    plain_change m (set_field model_field value m) refl refl refl refl
set_field-Keeps reasoning_field value m =
    plain_change m (set_field reasoning_field value m) refl refl refl refl
set_field-Keeps permission_field value m =
    plain_change m (set_field permission_field value m) refl refl refl refl

set_value-Keeps :
    (o : Option Value) (f : Field) (m k : ManagedSession)
    → Keeps k m
    → Keeps k (elim o as (λ x. ManagedSession) [
      | none ↦ m
      | some (text value) ↦ set_field f (trim_space value) m
      | some (flag b) ↦ m
      | some (strings s) ↦ m
      | some (request r) ↦ m
      | some (response r) ↦ m
      | some (opaque_value n) ↦ m
    ])
set_value-Keeps none f m k h = h
set_value-Keeps (some (text value)) f m k h =
    Keeps-trans k m (set_field f (trim_space value) m) h (set_field-Keeps f (trim_space value) m)
set_value-Keeps (some (flag b)) f m k h = h
set_value-Keeps (some (strings s)) f m k h = h
set_value-Keeps (some (request r)) f m k h = h
set_value-Keeps (some (response r)) f m k h = h
set_value-Keeps (some (opaque_value n)) f m k h = h

reconcile_configuration-Keeps :
    (e : Event) (m : ManagedSession) → Keeps m (reconcile_configuration e m)
unfolding reconcile_configuration reconcile_configuration_value
reconcile_configuration-Keeps e m =
    keep_if _ m _ (set_value-Keeps (lookup "current_model" e.fields) model_field m m (Keeps-refl m))
      _
      (keep_if _ m _
        (set_value-Keeps (lookup "current_reasoning" e.fields) reasoning_field m m (Keeps-refl m)) _
        (keep_if _ m _
          (set_value-Keeps (lookup "current_mode" e.fields) permission_field m m (Keeps-refl m)) _
          (keep_if _ m _
            (set_value-Keeps (lookup "current_mode" e.fields) permission_field _ m (
              set_value-Keeps (lookup "current_reasoning" e.fields) reasoning_field _ m
                (set_value-Keeps (lookup "current_model" e.fields) model_field m m (Keeps-refl m))))
            m (Keeps-refl m))))

pub prepare_event-Keeps :
    (clock : Clock) (id : String) (coalesces : Bool) (m : ManagedSession) (e : Event)
    → Keeps m (prepare_event clock id coalesces m e).1
unfolding prepare_event
prepare_event-Keeps clock id coalesces m e =
    let e₁ = completed_event clock id m e in
    let seq = increment m.next_seq in
    let fresh = is_pos e₁.seq 0 in
    let numbered : ManagedSession = record m { next_seq = seq } in
    let m₁ : ManagedSession = if fresh then numbered else m in
    let e₂ : Event = if fresh then record e₁ { seq = seq } else e₁ in
    let k₁ : Keeps m m₁ =
      keep_if fresh m numbered (plain_change m numbered refl refl refl refl) m (Keeps-refl m) in
    let k₂ =
      Keeps-trans m m₁ (reconcile_configuration e₂ m₁) k₁ (reconcile_configuration-Keeps e₂ m₁) in
    keep_if coalesces m _
      (Keeps-trans m (reconcile_configuration e₂ m₁) _ k₂
        (plain_change (reconcile_configuration e₂ m₁) _ refl refl refl refl))
      (reconcile_configuration e₂ m₁) k₂

-- A check that suppresses, lets through or panics, on a session.
abbrev pub KeepsChecked : ManagedSession → Option (Bool × ManagedSession) → Type 0
KeepsChecked m none = Unit {0}
KeepsChecked m (some (b, m')) = Keeps m m'

pub check_replay-Keeps :
    (json : Json) (marshal : Map Value → Option Bytes) (e : Event) (m : ManagedSession)
    → KeepsChecked m (check_replay json marshal e m)
unfolding check_replay
check_replay-Keeps json marshal e m = elim (Option-cases m.replay) [
  | inl h ↦ simp (check_replay, h) (Keeps-refl m)
  | inr (matcher, h) ↦ elim (Bool-cases (is_flagged event_local_replay e.local)) [
    | inr live ↦ simp (check_replay, h, live) (Keeps-refl m)
    | inl replayed ↦
        let start : ReplayMatcher =
          if is_flagged event_local_replay_start e.local then reset matcher else matcher in
        elim (Option-cases (translate marshal e)) [
          | inl t ↦
              simp (check_replay, h, replayed, t)
                (plain_change m (record m { replay = some start }) refl refl refl refl)
          | inr (r, t) ↦ elim (Option-cases (replay_record json marshal r start)) [
            | inl p ↦ simp (check_replay, h, replayed, t, p) tt
            | inr ((known, after), p) ↦
                simp (check_replay, h, replayed, t, p)
                  (plain_change m (record m { replay = some after }) refl refl refl refl)
          ]
        ]
  ]
]
