-- ===== src/Runtime/Sending/Waking.antt =====
-- A turn that ends wakes the queue.
use durable_acp.Prelude.{
  String, str_eq, is_empty, ◌++◌, ap, [], ◌∷◌, Map, lookup, Option-cases, append-nil,
}
use durable_acp.Host.{Value}
use durable_acp.Journal.Record.{Bytes}
use durable_acp.Journal.Events.{translate}
use durable_acp.Journal.Replay.{Json}
use durable_acp.Runtime.State.{Runtime, Clock, put, emitted, spawned}
use durable_acp.Runtime.Turns.{Outcome, on_event, is_terminal}
use durable_acp.Runtime.Delivery.{
  Appender, check_replay, persist_event, emit_event, spawn_dispatch, deliver_once,
}
use durable_acp.Prelude.{
  ℕ, ◌≡◌, refl, sym, ◌∙◌, inl, inr, Bool, true, false, not, ◌&&◌, ◌||◌, Option, none, some, List,
  length, ltb, arith, Bool-cases, if◌then◌else◌,
}
use durable_acp.Session.{running, waiting_input, closed}
use durable_acp.Host.{Event}
use durable_acp.Runtime.State.{ManagedSession, QueueEntry, move_status}
use durable_acp.Runtime.Turns.{has_status, end_turn, on_terminal, terminal_matches}
use durable_acp.Runtime.Delivery.Frame.{Keeps, end_turn-Keeps}
use durable_acp.Runtime.Sending.{is_busy, next_turn}
use durable_acp.Runtime.Sending.Dispatching.{List-cases}

-- There is a turn that may be dispatched now.
abbrev pub has_turn : Option (QueueEntry × ManagedSession) → Bool
has_turn none = false
has_turn (some t) = true

-- An idle session, with the turn of its queue.
record Rests (m m' : ManagedSession) : Type 0 where
  not_active : m'.active ≡ false
  not_dispatching : m'.dispatching ≡ false
  kept : Keeps m m'

either_way-Rests :
    (b : Bool) (m x y : ManagedSession) → Rests m x → Rests m y → Rests m (if b then x else y)
either_way-Rests true m x y h k = h
either_way-Rests false m x y h k = k

end_turn-Rests : (now : ℕ) (m : ManagedSession) → Rests m (end_turn now m)
unfolding end_turn move_status
end_turn-Rests now m =
    let kept = end_turn-Keeps now m in
    let ended : ManagedSession = record m {
      dispatching = false;
      active = false;
      active_turn_id = "";
      pending_interaction = none;
    } in
    elim (Bool-cases (has_status running ended || has_status waiting_input ended)) [
      | inl h ↦ record {
        not_active = simp (end_turn, h) refl;
        not_dispatching = simp (end_turn, h) refl;
        kept = kept;
      }
      | inr h ↦ record {
        not_active = simp (end_turn, h) refl;
        not_dispatching = simp (end_turn, h) refl;
        kept = kept;
      }
    ]

-- The turn that an idle session may dispatch, by its fields.
abbrev pub may_dispatch : List QueueEntry → Bool → Bool
may_dispatch queue blocked = ltb 0 (length queue) && not blocked

blocked_only : (a d b c : Bool) → a ≡ false → d ≡ false → c ≡ false → ((a || d || b) || c) ≡ b
blocked_only true d b c h k l = absurd (ground (arith, h))
blocked_only false true b c h k l = absurd (ground (arith, k))
blocked_only false false true c h k l = refl
blocked_only false false false c h k l = l

next_turn-has_turn :
    (m : ManagedSession)
    → m.active ≡ false
    → m.dispatching ≡ false
    → has_status closed m ≡ false
    → may_dispatch m.queue m.dispatch_blocked ≡ has_turn (next_turn m)
unfolding next_turn
next_turn-has_turn m a d c =
    let busy : (is_busy m || has_status closed m) ≡ m.dispatch_blocked =
      blocked_only m.active m.dispatching m.dispatch_blocked (has_status closed m) a d c in
    elim (List-cases m.queue) [
      | inl h ↦ simp (next_turn, h) refl
      | inr (entry, rest, h) ↦ elim (Bool-cases m.dispatch_blocked) [
        | inl b ↦
            let full = busy ∙ b in
            let nothing : has_turn (next_turn m) ≡ false = simp (next_turn, h, full) refl in
            let held : may_dispatch m.queue m.dispatch_blocked ≡ false = rw (h, b) (ground arith) in
            held ∙ sym nothing
        | inr b ↦
            let free = busy ∙ b in
            let first : has_turn (next_turn m) ≡ true = simp (next_turn, h, free) refl in
            let ready : may_dispatch m.queue m.dispatch_blocked ≡ true = rw (h, b) (ground arith) in
            ready ∙ sym first
      ]
    ]

-- A dispatch is wanted exactly if, in the session after the event, there is a turn that may be dispatched.
on_terminal-wakes :
    (now : ℕ) (e : Event) (m : ManagedSession)
    → terminal_matches e m ≡ true
    → has_status closed m ≡ false
    → (on_terminal now e m).dispatch_next ≡ has_turn (next_turn (on_terminal now e m).managed)
unfolding on_terminal
on_terminal-wakes now e m h c =
    let rests = end_turn-Rests now m in
    let k = rests.kept in
    let now_open : has_status closed (end_turn now m) ≡ false = k.same_closed ∙ c in
    let same : may_dispatch m.queue m.dispatch_blocked
        ≡ may_dispatch (end_turn now m).queue (end_turn now m).dispatch_blocked =
      rw (k.same_queue, k.same_blocked) refl in
    simp (on_terminal, h)
      (same ∙ next_turn-has_turn (end_turn now m) rests.not_active rests.not_dispatching now_open)

-- An event that ends a turn by its type.
pub data IsLast (e : Event) : Type 0 where
  by_completion : e.event_type ≡ "turn_completed" → IsLast e
  by_failure : e.event_type ≡ "turn_failed" → IsLast e
  by_exit : e.event_type ≡ "process_exited" → IsLast e

on_event-eq-on_terminal :
    (now : ℕ) (e : Event) (m : ManagedSession) → IsLast e → on_event now e m ≡ on_terminal now e m
unfolding on_event is_terminal
on_event-eq-on_terminal now e m (by_completion h) = simp (on_event, is_terminal, h) refl
on_event-eq-on_terminal now e m (by_failure h) = simp (on_event, is_terminal, h) refl
on_event-eq-on_terminal now e m (by_exit h) = simp (on_event, is_terminal, h) refl

-- The event is of the turn that is active, as far as both are known, or the process has exited.
abbrev pub concerns : Event → ManagedSession → Bool
concerns e m =
    str_eq e.event_type "process_exited"
    || is_empty e.backend_turn_id
    || is_empty m.active_turn_id
    || str_eq e.backend_turn_id m.active_turn_id

concerns_lem : (e : Event) (m : ManagedSession) → terminal_matches e m ≡ concerns e m
unfolding terminal_matches
concerns_lem e m = refl

on_terminal-managed :
    (now : ℕ) (e : Event) (m : ManagedSession)
    → terminal_matches e m ≡ true
    → (on_terminal now e m).managed ≡ end_turn now m
unfolding on_terminal
on_terminal-managed now e m h = simp (on_terminal, h) refl

module _ {ℓ} {J : Type ℓ} (json : Json) (marshal : Map Value → Option Bytes)
    (append_record : Appender J) where
  -- The journal starts nothing.
  abbrev Quiet : Runtime J → Event × Runtime J → Type 0
  Quiet r (e, r') = (r'.effects ≡ r.effects) × (r'.has_sink ≡ r.has_sink)

  persist_event-Quiet :
      (e : Event) (r : Runtime J) → Quiet r (persist_event json marshal append_record e r)
  unfolding persist_event
  persist_event-Quiet e r = elim (Option-cases r.journal) [
    | inl h ↦ simp (persist_event, h) (refl, refl)
    | inr (journal, h) ↦ elim (Bool-cases r.journal_writes) [
      | inr off ↦ simp (persist_event, h, off) (refl, refl)
      | inl on ↦ elim (Option-cases (translate marshal e)) [
        | inl t ↦ simp (persist_event, h, on, t) (refl, refl)
        | inr (entry, t) ↦ elim (Option-cases (append_record entry journal).0) [
          | inl a ↦ simp (persist_event, h, on, t, a) (refl, refl)
          | inr (what, a) ↦ simp (persist_event, h, on, t, a) (refl, refl)
        ]
      ]
    ]
  ]

  emit_event-effects :
      (e : Event) (r : Runtime J)
      → (emit_event json marshal append_record e r).effects
        ≡ r.effects ++ (if r.has_sink then emitted e ∷ [] else [])
  unfolding emit_event
  emit_event-effects e r = elim (Bool-cases r.has_sink) [
    | inl h ↦ simp (emit_event, h) refl
    | inr h ↦ simp (emit_event, h) (sym (append-nil r.effects))
  ]

  spawn_dispatch-effects :
      (wanted : Bool) (id : String) (r : Runtime J)
      → (spawn_dispatch json marshal append_record wanted id r).effects
        ≡ r.effects ++ (if wanted then spawned id ∷ [] else [])
  unfolding spawn_dispatch
  spawn_dispatch-effects true id r = refl
  spawn_dispatch-effects false id r = sym (append-nil r.effects)

  -- An event by whose type a turn ends, and which concerns the turn of a session that is there and not
  -- closed, is delivered, and the replay matcher does not panic. If the matcher suppresses the event,
  -- nothing is handed to the host or started. Otherwise the event is handed to the host, if there is a
  -- sink, and then a dispatch is started exactly if the session, its turn ended, has a turn in its queue
  -- that may be dispatched.
  pub deliver_once-wakes :
      (clock : Clock) (id : String) (e : Event) (r : Runtime J) (m m' : ManagedSession)
      (suppressed : Bool)
      → lookup id r.sessions ≡ some m
      → IsLast e
      → concerns e m ≡ true
      → has_status closed m ≡ false
      → check_replay json marshal e (end_turn clock.instant m) ≡ some (suppressed, m')
      → (deliver_once json marshal append_record clock id e r).0.effects ≡ (
          if suppressed
          then r.effects
          else (r.effects
              ++ (if r.has_sink
                  then emitted (persist_event json marshal append_record e (put id m' r)).0 ∷ []
                  else []))
            ++ (if has_turn (next_turn (end_turn clock.instant m)) then spawned id ∷ [] else []))
  unfolding deliver_once put
  deliver_once-wakes clock id e r m m' suppressed there last this still checked =
      let same = on_event-eq-on_terminal clock.instant e m last in
      let ends = concerns_lem e m ∙ this in
      let managed =
        ap (λ (o : Outcome). o.managed) same ∙ on_terminal-managed clock.instant e m ends in
      let wanted =
        ap (λ (o : Outcome). o.dispatch_next) same
        ∙ on_terminal-wakes clock.instant e m ends still
        ∙ ap (λ (x : ManagedSession). has_turn (next_turn x))
            (on_terminal-managed clock.instant e m ends) in
      let seen : check_replay json marshal e (on_event clock.instant e m).managed
          ≡ some (suppressed, m') =
        ap (check_replay json marshal e) managed ∙ checked in
      let r' = put id m' r in
      let (e', r'') = persist_event json marshal append_record e r' in
      let (effects, sink) = persist_event-Quiet e r' in
      let shown = emit_event json marshal append_record e' r'' in
      let started =
        spawn_dispatch-effects (on_event clock.instant e m).dispatch_next id shown
        ∙ ap
            (λ es.
              es ++ (if (on_event clock.instant e m).dispatch_next then spawned id ∷ [] else []))
            (emit_event-effects e' r''
              ∙ ap (λ es. es ++ (if r''.has_sink then emitted e' ∷ [] else [])) effects
              ∙ ap (λ b. r.effects ++ (if b then emitted e' ∷ [] else [])) sink)
        ∙ ap
            (λ b.
              (r.effects ++ (if r.has_sink then emitted e' ∷ [] else []))
              ++ (if b then spawned id ∷ [] else []))
            wanted in
      elim (Bool-cases suppressed) [
        | inl known ↦ simp (deliver_once, there, seen, known) refl
        | inr fresh ↦ simp (deliver_once, there, seen, fresh) started
      ]
