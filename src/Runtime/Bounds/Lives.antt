-- ===== src/Runtime/Bounds/Lives.antt =====
-- Sessions that are created, started, restarted, closed and forgotten keep a runtime in order.
use durable_acp.Prelude.{
  ℕ, String, refl, inl, inr, Bool, true, false, not, ◌||◌, Option, none, some, [], ◌∷◌, arith,
  is_empty, trim_space, clean_path, Bool-cases, Option-cases, Result-cases, ok, err, if◌then◌else◌,
  Map, lookup,
}
use durable_acp.Session.{closed, BackendSession}
use durable_acp.Host.{Value, text, StartSessionRequest}
use durable_acp.Journal.Record.{Bytes}
use durable_acp.Journal.Replay.{Json}
use durable_acp.Runtime.Coalesce.{close_coalescer}
use durable_acp.Runtime.State.{ManagedSession, Runtime, Clock, RuntimeError, put, adapter_locked}
use durable_acp.Runtime.Turns.{has_status, restarted, closed_down}
use durable_acp.Runtime.Delivery.{Appender, through_coalescer}
use durable_acp.Runtime.Delivery.Frame.{Keeps, plain_change}
use durable_acp.Runtime.Delivery.Sessions.{
  Frame, Frame-refl, Frame-trans, put-Frame, same_sessions-Frame, emit_queue-Frame,
  through_coalescer-Frame,
}
use durable_acp.Runtime.Sending.{AdapterCall, update, deliver_each}
use durable_acp.Runtime.Sending.Frames.{update-Frame, deliver_each-Frame}
use durable_acp.Runtime.Sending.Dispatching.{adapter_locked-found}
use durable_acp.Runtime.Lifecycle.{
  CreateRequest, lifecycle_record, append_lifecycle, created_session, create, starting, start,
  restart, close_session, forget, has_first_turn, configuration_of, session_strings,
  configuration_strings,
}
use durable_acp.Runtime.Bounds.{
  IsOrderly, IsBounded, IsBounded-entry, Frame-IsBounded, put-IsBounded, erase-IsBounded,
  either_way-IsBounded,
}

closed_down-IsOrderly :
    (limit now : ℕ) (m : ManagedSession) → IsOrderly limit m → IsOrderly limit (closed_down now m)
unfolding closed_down
closed_down-IsOrderly limit now m o = elim (Bool-cases (has_status closed m)) [
  | inl shut ↦ simp (closed_down, shut) o
  | inr still ↦ simp (closed_down, still) (record { within = omega (arith); empty = λ c. refl })
]

restarted-Keeps : (state : BackendSession) (m : ManagedSession) → Keeps m (restarted state m)
unfolding restarted
restarted-Keeps state m = record {
  same_queue = refl;
  same_queue_seq = refl;
  same_blocked = refl;
  same_backend = refl;
  same_closed = refl;
}

keeps_if :
    (b : Bool) (m x y : ManagedSession) → Keeps m x → Keeps m y → Keeps m (if b then x else y)
keeps_if true m x y h k = h
keeps_if false m x y h k = k

module _ {ℓ} {J : Type ℓ} (json : Json) (marshal : Map Value → Option Bytes)
    (append_record : Appender J) where
  append_lifecycle-Frame :
      (id name : String) (fields : Map Value) (r : Runtime J)
      → Frame r (append_lifecycle json marshal append_record id name fields r).1
  unfolding append_lifecycle
  append_lifecycle-Frame id name fields r = elim (Option-cases r.journal) [
    | inl h ↦ simp (append_lifecycle, h) (Frame-refl r)
    | inr (journal, h) ↦ elim (Bool-cases r.journal_writes) [
      | inr off ↦ simp (append_lifecycle, h, off) (Frame-refl r)
      | inl on ↦ elim (Option-cases (marshal fields)) [
        | inl b ↦ simp (append_lifecycle, h, on, b) (Frame-refl r)
        | inr (raw, b) ↦
            let appended = append_record (lifecycle_record id name raw) journal in
            elim (Option-cases appended.0) [
              | inl f ↦
                  simp (append_lifecycle, h, on, b, f) (same_sessions-Frame r _ refl refl refl)
              | inr (what, f) ↦
                  simp (append_lifecycle, h, on, b, f) (same_sessions-Frame r _ refl refl refl)
            ]
      ]
    ]
  ]

  update-IsBounded :
      (id : String) (change : ManagedSession → ManagedSession) (r : Runtime J)
      → ((m : ManagedSession)
          → IsOrderly r.max_queued_turns m
          → IsOrderly r.max_queued_turns (change m))
      → IsBounded r
      → IsBounded (update json marshal append_record id change r)
  unfolding update
  update-IsBounded id change r keeps h = elim (Option-cases (lookup id r.sessions)) [
    | inl e ↦ simp (update, e) h
    | inr (m, e) ↦
        simp (update, e) (put-IsBounded id (change m) r h (keeps m (IsBounded-entry r id m h e)))
  ]

  starting-Keeps :
      (request : StartSessionRequest) (m : ManagedSession)
      → Keeps m (starting json marshal append_record request m)
  unfolding starting
  starting-Keeps request m =
      keeps_if (has_first_turn request) m _ _ (plain_change m _ refl refl refl refl)
        (plain_change m _ refl refl refl refl)

  created-IsOrderly :
      (limit now : ℕ) (id backend worktree : String)
      → IsOrderly limit (created_session json marshal append_record now id backend worktree)
  unfolding created_session
  created-IsOrderly limit now id backend worktree = record {
    within = omega (arith);
    empty = λ c. refl;
  }

  pub create-IsBounded :
      (clock : Clock) (fresh : Option String) (stat_fails : Bool) (request : CreateRequest)
      (r : Runtime J)
      → IsBounded r
      → IsBounded (create json marshal append_record clock fresh stat_fails request r).1
  unfolding create
  create-IsBounded clock fresh stat_fails request r h =
      let backend = trim_space request.backend in
      let worktree = clean_path (trim_space request.worktree) in
      let asked = trim_space request.id in
      let wanted : Option String = if is_empty asked then fresh else some asked in
      either_way-IsBounded (is_empty backend) _ _ h (
        either_way-IsBounded (is_empty (trim_space request.worktree)) _ _ h (
          either_way-IsBounded stat_fails _ _ h (elim (Option-cases (lookup backend r.adapters)) [
            | inl a ↦ rw a h
            | inr (adapter, a) ↦ elim (Option-cases wanted) [
              | inl w ↦ rw (a, w) h
              | inr (id, w) ↦ elim (Option-cases (lookup id r.sessions)) [
                | inr (taken, t) ↦ rw (a, w, t) h
                | inl t ↦
                    let m =
                      created_session json marshal append_record clock.instant id backend
                        worktree in
                    let fields = ("backend", text backend) ∷ ("worktree", text worktree) ∷ [] in
                    let made =
                      append_lifecycle json marshal append_record id "session.created" fields
                        (put id m r) in
                    let there =
                      Frame-IsBounded (put id m r) made.1
                        (put-IsBounded id m r h
                          (created-IsOrderly r.max_queued_turns clock.instant id backend worktree))
                        (append_lifecycle-Frame id "session.created" fields (put id m r)) in
                    elim (Option-cases made.0) [
                      | inl f ↦ rw (a, w, t, f) there
                      | inr (e, f) ↦ rw (a, w, t, f) (erase-IsBounded id made.1 there)
                    ]
              ]
            ]
          ])))

  pub forget-IsBounded :
      (session_id : String) (r : Runtime J)
      → IsBounded r
      → IsBounded (forget json marshal append_record session_id r).1
  unfolding forget
  forget-IsBounded session_id r h =
      let id = trim_space session_id in
      elim (Option-cases (lookup id r.sessions)) [
        | inl e ↦ simp (forget, e) h
        | inr (m, e) ↦
            simp (forget, e)
              (either_way-IsBounded (has_status closed m) _ _ (erase-IsBounded id r h) h)
      ]

  -- A call that ends with a record in the journal.
  journaled-Frame {ℓ'} :
      {A : Type ℓ'} (answer : Option RuntimeError × Runtime J) (x : RuntimeError → A) (y : A)
      (r : Runtime J)
      → Frame r answer.1
      → Frame r
          (elim answer.0 as (λ t. A × Runtime J) [
            | some e ↦ (x e, answer.1)
            | none ↦ (y, answer.1)
          ]).1
  journaled-Frame (some e, r') x y r f = f
  journaled-Frame (none, r') x y r f = f

  started-Keeps :
      (state : BackendSession) (m : ManagedSession)
      → Keeps m (record m { session = record m.session { backend_session = state } })
  started-Keeps state m = record {
    same_queue = refl;
    same_queue_seq = refl;
    same_blocked = refl;
    same_backend = refl;
    same_closed = refl;
  }

  pub start-IsBounded :
      (clock : Clock) (request : StartSessionRequest) (call : AdapterCall) (r : Runtime J)
      → IsBounded r
      → IsBounded (start json marshal append_record clock request call r).1
  unfolding start
  start-IsBounded clock request call r h =
      let id = trim_space request.session_id in
      either_way-IsBounded (is_empty id) _ _ h (elim (Result-cases (adapter_locked id r)) [
        | inr (e, a) ↦ rw a h
        | inl ((m, adapter), a) ↦
            let there = adapter_locked-found id r m adapter a in
            let asked : StartSessionRequest = record request {
              session_id = id;
              backend = m.session.backend;
              worktree = m.session.worktree;
            } in
            let begun = put id (starting json marshal append_record asked m) r in
            let r' = deliver_each json marshal append_record clock id call.delivered begun in
            let during : Frame r r' =
              Frame-trans r begun r' (put-Frame id m _ r there (starting-Keeps asked m))
                (deliver_each-Frame json marshal append_record clock id call.delivered begun) in
            rw a (
              either_way-IsBounded (has_status closed m) _ _ h (elim (Result-cases call.answer) [
                | inr (what, b) ↦ rw b (
                    Frame-IsBounded r _ h (
                      Frame-trans r r' _ during (
                        update-Frame json marshal append_record id _ r'
                          (λ c. plain_change c _ refl refl refl refl))))
                | inl (state, b) ↦
                    let r'' =
                      update json marshal append_record id
                        (λ (c : ManagedSession). record c {
                          session = record c.session { backend_session = state };
                        })
                        r' in
                    let fields : Map Value =
                      ("backend", text m.session.backend)
                      ∷ ("backend_session", session_strings state)
                      ∷ (
                        "configuration",
                        configuration_strings (configuration_of json marshal append_record id r''),
                      )
                      ∷ [] in
                    rw b (
                      Frame-IsBounded r _ h (
                        journaled-Frame
                          (append_lifecycle json marshal append_record id "session.started" fields
                            r'')
                          err (ok state) r
                          (Frame-trans r r' _ during (
                            Frame-trans r' r'' _
                              (update-Frame json marshal append_record id _ r'
                                (started-Keeps state))
                              (append_lifecycle-Frame id "session.started" fields r'')))))
              ]))
      ])

  pub restart-IsBounded :
      (clock : Clock) (session_id : String) (call : AdapterCall) (r : Runtime J)
      → IsBounded r
      → IsBounded (restart json marshal append_record clock session_id call r).1
  unfolding restart
  restart-IsBounded clock session_id call r h =
      let id = trim_space session_id in
      elim (Result-cases (adapter_locked id r)) [
        | inr (e, a) ↦ simp (restart, a) h
        | inl ((m, adapter), a) ↦
            let r' = deliver_each json marshal append_record clock id call.delivered r in
            let during = deliver_each-Frame json marshal append_record clock id call.delivered r in
            rw (restart, a)
              (either_way-IsBounded (has_status closed m) _ _ h (
                either_way-IsBounded (m.active || m.dispatching) _ _ h (
                  either_way-IsBounded (not adapter.restarts) _ _ h
                    (elim (Result-cases call.answer) [
                      | inr (what, b) ↦ rw b (Frame-IsBounded r r' h during)
                      | inl (state, b) ↦
                          let r'' = update json marshal append_record id (restarted state) r' in
                          let fields : Map Value =
                            ("backend_session", session_strings state) ∷ [] in
                          rw b (
                            Frame-IsBounded r _ h (
                              journaled-Frame
                                (append_lifecycle json marshal append_record id "session.restarted"
                                  fields r'')
                                err (ok state) r
                                (Frame-trans r r' _ during (
                                  Frame-trans r' r'' _
                                    (update-Frame json marshal append_record id _ r'
                                      (restarted-Keeps state))
                                    (append_lifecycle-Frame id "session.restarted" fields r'')))))
                    ]))))
      ]

  pub close_session-IsBounded :
      (clock : Clock) (session_id : String) (failure : Option String) (r : Runtime J)
      → IsBounded r
      → IsBounded (close_session json marshal append_record clock session_id failure r).1
  unfolding close_session
  close_session-IsBounded clock session_id failure r h =
      let id = trim_space session_id in
      elim (Result-cases (adapter_locked id r)) [
        | inr (e, a) ↦ simp (close_session, a) h
        | inl ((m, adapter), a) ↦
            let r' = through_coalescer json marshal append_record clock id close_coalescer r in
            let flushed =
              Frame-IsBounded r r' h
                (through_coalescer-Frame json marshal append_record clock id close_coalescer r) in
            let shut = update json marshal append_record id (closed_down clock.instant) r' in
            let ended = append_lifecycle json marshal append_record id "session.closed" [] shut in
            let now_closed =
              Frame-IsBounded shut ended.1
                (update-IsBounded id _ r' (closed_down-IsOrderly r'.max_queued_turns clock.instant)
                  flushed)
                (append_lifecycle-Frame id "session.closed" [] shut) in
            rw (close_session, a)
              (either_way-IsBounded (has_status closed m) _ _ h (elim (Option-cases failure) [
                | inr (what, f) ↦ rw f flushed
                | inl f ↦ elim (Option-cases ended.0) [
                  | inr (e, u) ↦ rw (f, u) now_closed
                  | inl u ↦
                      rw (f, u)
                        (Frame-IsBounded ended.1 _ now_closed
                          (emit_queue-Frame json marshal append_record clock id ended.1))
                ]
              ]))
      ]
