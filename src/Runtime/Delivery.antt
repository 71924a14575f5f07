-- ===== src/Runtime/Delivery.antt =====
-- runtime/runtime.go: how the events of a session are completed, gathered, applied, journaled and
-- emitted. Every function takes the runtime and gives the runtime after it.
pub mod Frame
pub mod Sessions
use Prim.Native.String.{◌++◌ as ◌⧺◌}
use durable_acp.Prelude.{
  ℕ, ℤ, pos, negsuc, ◌+◌, String, Bool, true, false, ◌&&◌, ◌||◌, not, Option, none, some, List, [],
  ◌∷◌, ◌++◌, length, str_eq, is_empty, is_pos, increment, if◌then◌else◌, Map, lookup, insert,
}
use durable_acp.Session.{BackendSession}
use durable_acp.Host.{
  Event, Value, text, flag, strings, request, response, opaque_value, event_turn_started,
  event_queue_updated, event_trace_updated, event_thinking, event_tool_started, event_tool_output,
  event_turn_failed, event_local_replay, event_local_replay_start,
}
use durable_acp.Journal.Record.{Bytes, Record}
use durable_acp.Journal.Events.{translate}
use durable_acp.Journal.Replay.{
  Json, ReplayMatcher, match_replay, matches_completed_turn, record_replay, reset,
}
use durable_acp.Runtime.Coalesce.{Coalescer, decimal, new_delta_coalescer, fire}
use durable_acp.Runtime.Coalesce as Coalesce
use durable_acp.Runtime.State.{
  ManagedSession, QueueView, Effect, emitted, spawned, panicked, Runtime, Clock, put, same_view,
}
use durable_acp.Runtime.Configuration.{reconcile_configuration}
use durable_acp.Runtime.Turns.{Outcome, on_event}

-- `%d` of an `int`.
abbrev pub decimal_int : ℤ → String
decimal_int (pos n) = decimal n
decimal_int (negsuc n) = "-" ⧺ decimal (n + 1)

abbrev pub or_empty : String → String → String
or_empty s default = if is_empty s then default else s

-- The turn of an event that names none: the active one, or, when none is active or on its way, the last
-- one. An event that starts a turn must name it.
unfoldable pub turn_of_event : Event → ManagedSession → String
turn_of_event e m =
    if is_empty e.backend_turn_id && not (str_eq e.event_type event_turn_started)
    then (if not (is_empty m.active_turn_id)
        then m.active_turn_id
        else if not m.active && not m.dispatching
        then m.session.backend_session.turn_id
        else e.backend_turn_id)
    else e.backend_turn_id

-- The fields that `deliver` fills in before the event is numbered.
unfoldable pub completed_event : Clock → String → ManagedSession → Event → Event
completed_event clock session_id m e = record e {
  session_id = or_empty e.session_id session_id;
  backend = or_empty e.backend m.session.backend;
  backend_session_id = or_empty e.backend_session_id m.session.backend_session.id;
  backend_thread_id = or_empty e.backend_thread_id m.session.backend_session.thread_id;
  backend_turn_id = turn_of_event e m;
  time = or_empty e.time clock.shown;
}

-- What `deliver` does under the lock: the event is completed and numbered, a configuration that it
-- reports is taken over, and a coalescer is made if there is none.
unfoldable pub prepare_event :
    Clock → String → Bool → ManagedSession → Event → Event × ManagedSession
prepare_event clock session_id coalesces m e₀ =
    let e₁ = completed_event clock session_id m e₀ in
    let fresh = is_pos e₁.seq 0 in
    let seq = increment m.next_seq in
    let e₂ : Event = if fresh then record e₁ { seq = seq } else e₁ in
    let m₁ : ManagedSession = if fresh then record m { next_seq = seq } else m in
    let m₂ = reconcile_configuration e₂ m₁ in
    let e₃ : Event = record e₂ {
      source_event_id = or_empty e₂.source_event_id (e₂.session_id ⧺ ":" ⧺ decimal_int e₂.seq);
    } in
    let m₃ : ManagedSession =
      if coalesces
      then record m₂ {
        coalescer = elim m₂.coalescer [ none ↦ some new_delta_coalescer | some c ↦ some c ];
      }
      else m₂ in
    (e₃, m₃)

-- `suppressReplayActivity`.
unfoldable pub suppress_replay_activity : String → Bool
suppress_replay_activity t =
    str_eq t event_thinking || str_eq t event_tool_started || str_eq t event_tool_output

-- `data[key] == true`.
unfoldable pub is_flagged : String → Map Value → Bool
is_flagged key fields = elim (lookup key fields) [
  | none ↦ false
  | some (flag b) ↦ b
  | some (text t) ↦ false
  | some (strings s) ↦ false
  | some (request r) ↦ false
  | some (response r) ↦ false
  | some (opaque_value n) ↦ false
]

module _ (json : Json) (marshal : Map Value → Option Bytes) where
  -- A record that a resumed agent replays: whether it is known, and the matcher after it.
  unfoldable pub replay_record : Record → ReplayMatcher → Option (Bool × ReplayMatcher)
  replay_record r matcher = elim (match_replay json matcher r) [
    | none ↦ none
    | some (true, after) ↦ some (true, after)
    | some (false, after) ↦
        if matches_completed_turn json after r
        then some (true, after)
        else some (false, record_replay json after r)
  ]

  -- Whether a replayed event is suppressed; `none` is a panic in the matcher.
  unfoldable pub check_replay : Event → ManagedSession → Option (Bool × ManagedSession)
  check_replay e m = elim m.replay [
    | none ↦ some (false, m)
    | some matcher ↦
        if is_flagged event_local_replay e.local
        then (let start =
              if is_flagged event_local_replay_start e.local then reset matcher else matcher in
            elim (translate marshal e) [
              | none ↦
                  some (suppress_replay_activity e.event_type, record m { replay = some start })
              | some r ↦ elim (replay_record r start) [
                | none ↦ none
                | some (known, after) ↦ some (known, record m { replay = some after })
              ]
            ])
        else some (false, m)
  ]

-- The journal as the runtime sees it: `Append` of a record gives an error or none.
abbrev pub Appender {ℓ} : Type ℓ → Type ℓ
Appender J = Record → J → Option String × J

module _ {ℓ} {J : Type ℓ} (json : Json) (marshal : Map Value → Option Bytes)
    (append_record : Appender J) where
  -- An event that is journaled; an error is put into the data of the event.
  unfoldable pub persist_event : Event → Runtime J → Event × Runtime J
  persist_event e r = elim r.journal [
    | none ↦ (e, r)
    | some journal ↦
        if r.journal_writes
        then elim (translate marshal e) [
          | none ↦ (e, r)
          | some entry ↦
              let (failure, journal') = append_record entry journal in
              let r' = record r { journal = some journal' } in
              elim failure [
                | none ↦ (e, r')
                | some what ↦
                    (record e { fields = insert "persistence_error" (text what) e.fields }, r')
              ]
        ]
        else (e, r)
  ]

  unfoldable pub emit_event : Event → Runtime J → Runtime J
  emit_event e r = if r.has_sink then record r { effects = r.effects ++ emitted e ∷ [] } else r

  unfoldable pub spawn_dispatch : Bool → String → Runtime J → Runtime J
  spawn_dispatch wanted session_id r =
      if wanted then record r { effects = r.effects ++ spawned session_id ∷ [] } else r

  -- `deliverNow` until it emits the queue, and whether it does.
  unfoldable pub deliver_once : Clock → String → Event → Runtime J → Runtime J × Bool
  deliver_once clock session_id e r = elim (lookup session_id r.sessions) [
    | none ↦ (r, false)
    | some m ↦
        let o = on_event clock.instant e m in
        elim (check_replay json marshal e o.managed) [
          | none ↦ (record r { effects = r.effects ++ panicked ∷ [] }, false)
          | some (suppressed, m') ↦
              let r' = put session_id m' r in
              if suppressed
              then (r', false)
              else (let (e', r'') = persist_event e r' in
                  (spawn_dispatch o.dispatch_next session_id (emit_event e' r''), o.queue_changed))
        ]
  ]

  abbrev view_of : ManagedSession → QueueView
  view_of m = record {
    depth = length m.queue;
    active = m.active;
    active_turn_id = m.active_turn_id;
    dispatch_blocked = m.dispatch_blocked;
  }

  -- The event of `emitQueue`; the numbers of its data are only passed on.
  unfoldable pub queue_event : String → QueueView → ℕ → ManagedSession → Event
  queue_event session_id view limit m = record {
    source_event_id = "";
    session_id = session_id;
    backend = m.session.backend;
    backend_session_id = "";
    backend_thread_id = "";
    backend_turn_id = "";
    seq = pos 0;
    event_type = event_queue_updated;
    role = "";
    message = "";
    fields =
        ("queue_depth", opaque_value view.depth)
        ∷ ("active", flag view.active)
        ∷ ("active_turn_id", text view.active_turn_id)
        ∷ ("dispatch_blocked", flag view.dispatch_blocked)
        ∷ ("max_depth", opaque_value limit)
        ∷ [];
    tool_display = none;
    interaction = none;
    interaction_response = none;
    time = "";
    local = [];
  }

  -- `deliver` of an event that goes past the coalescer, and changes no queue.
  unfoldable pub deliver_past : Clock → String → Event → Runtime J → Runtime J
  deliver_past clock session_id e r = elim (lookup session_id r.sessions) [
    | none ↦ r
    | some m ↦
        let (e', m') = prepare_event clock session_id r.coalesce_events m e in
        (deliver_once clock session_id e' (put session_id m' r)).0
  ]

  unfoldable pub is_shown : QueueView → Option QueueView → Bool
  is_shown view none = false
  is_shown view (some last) = same_view last view

  -- `emitQueue`: a view is emitted only if it is not the last one.
  unfoldable pub emit_queue : Clock → String → Runtime J → Runtime J
  emit_queue clock session_id r = elim (lookup session_id r.sessions) [
    | none ↦ r
    | some m ↦
        let view = view_of m in
        if is_shown view m.last_queue
        then r
        else deliver_past clock session_id (queue_event session_id view r.max_queued_turns m)
            (put session_id (record m { last_queue = some view }) r)
  ]

  -- `deliverNow`.
  unfoldable pub deliver_now : Clock → String → Event → Runtime J → Runtime J
  deliver_now clock session_id e r =
      let (r', changed) = deliver_once clock session_id e r in
      if changed then emit_queue clock session_id r' else r'

  unfoldable pub deliver_all : Clock → String → List Event → Runtime J → Runtime J
  deliver_all clock session_id [] r = r
  deliver_all clock session_id (e ∷ es) r =
      deliver_all clock session_id es (deliver_now clock session_id e r)

  -- What the coalescer of a session gives on, for `deliver` and for the timer. The coalescer emits after it
  -- has released its lock; here it does so before the next call of it (`Runtime/Coalesce/Emission` has all
  -- other orders).
  unfoldable pub through_coalescer :
      Clock → String → (Coalescer → List Event × Coalescer) → Runtime J → Runtime J
  through_coalescer clock session_id step r = elim (lookup session_id r.sessions) [
    | none ↦ r
    | some m ↦ elim m.coalescer [
      | none ↦ r
      | some c ↦
          let (events, c') = step c in
          deliver_all clock session_id events (put session_id (record m { coalescer = some c' }) r)
    ]
  ]

  abbrev pub goes_past : Event → Bool
  goes_past e = str_eq e.event_type event_queue_updated || str_eq e.event_type event_trace_updated

  -- `deliver`.
  unfoldable pub deliver : Clock → String → Event → Runtime J → Runtime J
  deliver clock session_id e r = elim (lookup session_id r.sessions) [
    | none ↦ r
    | some m ↦
        let (e', m') = prepare_event clock session_id r.coalesce_events m e in
        let r' = put session_id m' r in
        if not r.coalesce_events || goes_past e'
        then deliver_now clock session_id e' r'
        else through_coalescer clock session_id (Coalesce.handle e') r'
  ]

  -- The timer of a session's coalescer.
  unfoldable pub fire_timer : Clock → String → Runtime J → Runtime J
  fire_timer clock session_id r = through_coalescer clock session_id fire r
