-- ===== src/Runtime/Bounds/Restored.antt =====
-- A session that is restored keeps a runtime in order.
use durable_acp.Prelude.{
  ℕ, String, ◌≡◌, refl, ap, ◌∙◌, subst, inl, inr, Bool, true, false, not, ◌&&◌, ◌||◌, Option, none,
  some, List, [], ◌∷◌, arith, length, str_eq, is_empty, trim_space, lt_int, Option-cases,
  Result-cases, Result, if◌then◌else◌, Map, lookup,
}
use durable_acp.Session.{Status, active, running, waiting_input, closed}
use durable_acp.Host.{Value}
use durable_acp.Journal.Record.{Bytes, Record}
use durable_acp.Journal.Events.{
  agent_turn_started, agent_interaction, agent_permission, user_request_resolved,
}
use durable_acp.Journal.Replay.{Json}
use durable_acp.Runtime.State.{ManagedSession, Runtime, Clock, put, move_status}
use durable_acp.Runtime.Turns.{has_status}
use durable_acp.Runtime.Delivery.{Appender}
use durable_acp.Runtime.Delivery.Sessions.{
  Frame, Frame-refl, Frame-trans, deliver-Frame, either_way-Frame,
}
use durable_acp.Runtime.Restoring.{
  RecordData, RestoreRequest, turn_started_record, interaction_from_record, interaction_record,
  resolved_record, response_from_record, terminal_record, ends_active, is_terminal_record,
  turn_record, started_record, closed_record, raise_sequence, created_record, restore_record,
  restore_records, requested_session, restored_event_sequence, reconcile_recovered_turn, restore,
}
use durable_acp.Runtime.Bounds.{IsOrderly, IsBounded, Frame-IsBounded, put-IsBounded}

record IsUnqueued (m : ManagedSession) : Type 0 where
  pub none_queued : m.queue ≡ []

either_way-IsUnqueued :
    (b : Bool) (x y : ManagedSession)
    → IsUnqueued x
    → IsUnqueued y
    → IsUnqueued (if b then x else y)
either_way-IsUnqueued true x y h k = h
either_way-IsUnqueued false x y h k = k

-- The queue of another session.
like : (m m' : ManagedSession) → m'.queue ≡ m.queue → IsUnqueued m → IsUnqueued m'
like m m' e h = record { none_queued = e ∙ h.none_queued }

-- A session that moves to another status, or does not.
moved_if :
    (b : Bool) (now : ℕ) (s : Status) (m : ManagedSession)
    → IsUnqueued m
    → IsUnqueued (if b then move_status now s m else m)
unfolding move_status
moved_if b now s m h =
    either_way-IsUnqueued b (move_status now s m) m (like m (move_status now s m) refl h) h

module _ (reader : RecordData) (now : ℕ) where
  interaction_record-IsUnqueued :
      (e : Record) (m : ManagedSession)
      → IsUnqueued m
      → IsUnqueued (interaction_record reader now e m)
  unfolding interaction_record
  interaction_record-IsUnqueued e m h = elim (Option-cases (interaction_from_record reader e)) [
    | inl a ↦ simp (interaction_record, a) h
    | inr (i, a) ↦
        let asked : ManagedSession = record m { pending_interaction = some i } in
        simp (interaction_record, a)
          (moved_if (has_status running asked) now waiting_input asked (like m asked refl h))
  ]

  resolved_record-IsUnqueued :
      (e : Record) (m : ManagedSession) → IsUnqueued m → IsUnqueued (resolved_record reader now e m)
  unfolding resolved_record
  resolved_record-IsUnqueued e m h =
      let answered : ManagedSession = record m { pending_interaction = none } in
      let resumed =
        moved_if (has_status waiting_input answered) now running answered
          (like m answered refl h) in
      elim (Option-cases m.pending_interaction) [
        | inl a ↦ rw (resolved_record, a) h
        | inr (p, a) ↦ elim (Option-cases (response_from_record reader e)) [
          | inl b ↦ simp (resolved_record, a, b) h
          | inr (r, b) ↦
              simp (resolved_record, a, b)
                (either_way-IsUnqueued (is_empty r.request_id || str_eq r.request_id p.id) _ m
                  resumed h)
        ]
      ]

  turn_started_record-IsUnqueued :
      (e : Record) (m : ManagedSession) → IsUnqueued m → IsUnqueued (turn_started_record now e m)
  unfolding turn_started_record
  turn_started_record-IsUnqueued e m h =
      let begun : ManagedSession = record m {
        active = true;
        active_turn_id = trim_space e.turn_id;
      } in
      either_way-IsUnqueued (is_empty (trim_space e.turn_id)) m _ h
        (moved_if (has_status active begun) now running begun (like m begun refl h))

  terminal_record-IsUnqueued :
      (e : Record) (m : ManagedSession) → IsUnqueued m → IsUnqueued (terminal_record now e m)
  unfolding terminal_record
  terminal_record-IsUnqueued e m h =
      let ended : ManagedSession = record m {
        active = false;
        active_turn_id = "";
        pending_interaction = none;
      } in
      either_way-IsUnqueued (ends_active e m) _ m
        (moved_if (has_status running ended || has_status waiting_input ended) now active ended
          (like m ended refl h))
        h

  turn_record-IsUnqueued :
      (e : Record) (m : ManagedSession) → IsUnqueued m → IsUnqueued (turn_record reader now e m)
  unfolding turn_record
  turn_record-IsUnqueued e m h =
      either_way-IsUnqueued (str_eq e.event agent_turn_started) _ _
        (turn_started_record-IsUnqueued e m h)
        (either_way-IsUnqueued (str_eq e.event agent_interaction || str_eq e.event agent_permission)
          _ _ (interaction_record-IsUnqueued e m h)
          (either_way-IsUnqueued (str_eq e.event user_request_resolved) _ _
            (resolved_record-IsUnqueued e m h)
            (either_way-IsUnqueued (is_terminal_record e.event) _ m
              (terminal_record-IsUnqueued e m h) h)))

  started_record-IsUnqueued :
      (e : Record) (m : ManagedSession) → IsUnqueued m → IsUnqueued (started_record reader e m)
  unfolding started_record
  started_record-IsUnqueued e m h = elim (Option-cases (reader.started_data e.data_raw)) [
    | inl a ↦ simp (started_record, a) h
    | inr ((state, c), a) ↦ simp (started_record, a) (like m _ refl h)
  ]

  -- The entry of a session, where there is one.
  abbrev Unqueued : Option ManagedSession → Type 0
  Unqueued none = Unit {0}
  Unqueued (some m) = IsUnqueued m

  either_way-Unqueued :
      (b : Bool) (x y : Option ManagedSession)
      → Unqueued x
      → Unqueued y
      → Unqueued (if b then x else y)
  either_way-Unqueued true x y h k = h
  either_way-Unqueued false x y h k = k

  created_record-Unqueued :
      (request : RestoreRequest) (e : Record) (before : Option ManagedSession)
      → Unqueued before
      → Unqueued (created_record reader now request e before)
  unfolding created_record
  created_record-Unqueued request e before h =
      elim (Option-cases (reader.created_data e.data_raw)) [
        | inl a ↦ simp (created_record, a) h
        | inr ((backend, worktree), a) ↦
            simp (created_record, a)
              (either_way-Unqueued (is_empty backend || is_empty worktree) before _ h
                (record { none_queued = refl }))
      ]

  restore_record-Unqueued :
      (request : RestoreRequest) (before : Option ManagedSession) (e : Record)
      → Unqueued before
      → Unqueued (restore_record reader now request before e)
  unfolding restore_record raise_sequence closed_record move_status
  restore_record-Unqueued request none e h =
      either_way-Unqueued (str_eq e.event "session.created") _ none
        (created_record-Unqueued request e none h) tt
  restore_record-Unqueued request (some m) e h =
      let n = restored_event_sequence e.sequence in
      let seen = raise_sequence n m in
      let still : IsUnqueued seen =
        either_way-IsUnqueued (lt_int m.next_seq n) _ m (like m (record m { next_seq = n }) refl h)
          h in
      let shut : IsUnqueued (closed_record now seen) =
        either_way-IsUnqueued (has_status closed seen) seen _ still
          (like seen (move_status now closed seen) refl still) in
      either_way-Unqueued (str_eq e.event "session.created") _ (some _)
        (created_record-Unqueued request e (some seen) still)
        (either_way-IsUnqueued (str_eq e.event "session.started") _ _
          (started_record-IsUnqueued e seen still)
          (either_way-IsUnqueued (str_eq e.event "session.closed") _ _ shut
            (turn_record-IsUnqueued e seen still)))

  restore_records-Unqueued :
      (request : RestoreRequest) (before : Option ManagedSession) (es : List Record)
      → Unqueued before
      → Unqueued (restore_records reader now request before es)
  unfolding restore_records
  restore_records-Unqueued request before [] h = h
  restore_records-Unqueued request before (e ∷ es) h =
      restore_records-Unqueued request (restore_record reader now request before e) es
        (restore_record-Unqueued request before e h)

  requested_session-Unqueued : (request : RestoreRequest) → Unqueued (requested_session now request)
  unfolding requested_session
  requested_session-Unqueued request =
      either_way-Unqueued
        (not (is_empty (trim_space request.backend))
          && not (is_empty (trim_space request.worktree)))
        (some _) none (record { none_queued = refl }) tt

unqueued-IsOrderly : (limit : ℕ) (m : ManagedSession) → IsUnqueued m → IsOrderly limit m
unqueued-IsOrderly limit m h = record {
  within = omega (arith, ap length h.none_queued);
  empty = λ c. h.none_queued;
}

module _ {ℓ} {J : Type ℓ} (json : Json) (marshal : Map Value → Option Bytes)
    (append_record : Appender J) where
  reconcile_recovered_turn-Frame :
      (clock : Clock) (session_id : String) (r : Runtime J)
      → Frame r (reconcile_recovered_turn json marshal append_record clock session_id r)
  unfolding reconcile_recovered_turn
  reconcile_recovered_turn-Frame clock session_id r =
      let id = trim_space session_id in
      elim (Option-cases (lookup id r.sessions)) [
        | inl h ↦ simp (reconcile_recovered_turn, h) (Frame-refl r)
        | inr (m, h) ↦ elim (Option-cases m.pending_interaction) [
          | inl p ↦
              rw (reconcile_recovered_turn, h, p)
                (either_way-Frame (not m.active) r r _ (Frame-refl r)
                  (deliver-Frame json marshal append_record clock id _ r))
          | inr (i, p) ↦
              rw (reconcile_recovered_turn, h, p)
                (either_way-Frame (not m.active) r r _ (Frame-refl r) (
                  Frame-trans r _ _ (deliver-Frame json marshal append_record clock id _ r)
                    (deliver-Frame json marshal append_record clock id _ _)))
        ]
      ]

  pub restore-IsBounded :
      (reader : RecordData) (clock : Clock) (request : RestoreRequest)
      (read_records : String → J → Result String (List Record)) (r : Runtime J)
      → IsBounded r
      → IsBounded (restore json marshal append_record reader clock request read_records r).1
  unfolding restore
  restore-IsBounded reader clock request read_records r h =
      let id = trim_space request.id in
      let asked = requested_session clock.instant request in
      elim (Option-cases r.journal) [
        | inl j ↦ simp (restore, j) h
        | inr (journal, j) ↦ elim (Result-cases (read_records id journal)) [
          | inr (what, e) ↦ simp (restore, j, e) h
          | inl (es, e) ↦
              let made = restore_records reader clock.instant request asked es in
              let unqueued =
                restore_records-Unqueued reader clock.instant request asked es
                  (requested_session-Unqueued reader clock.instant request) in
              elim (Option-cases made) [
                | inl m ↦ simp (restore, j, e, m) h
                | inr (session, m) ↦ elim (Option-cases (lookup id r.sessions)) [
                  | inr (there, t) ↦ simp (restore, j, e, m, t) h
                  | inl t ↦
                      let r' = put id session r in
                      let r'' = reconcile_recovered_turn json marshal append_record clock id r' in
                      let ordered =
                        Frame-IsBounded r' r''
                          (put-IsBounded id session r h (
                            unqueued-IsOrderly r.max_queued_turns session
                              (subst (Unqueued reader clock.instant) m unqueued)))
                          (reconcile_recovered_turn-Frame clock id r') in
                      elim (Option-cases (lookup id r''.sessions)) [
                        | inl s ↦ simp (restore, j, e, m, t, s) ordered
                        | inr (now, s) ↦ simp (restore, j, e, m, t, s) ordered
                      ]
                ]
              ]
        ]
      ]
