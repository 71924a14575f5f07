-- ===== src/Runtime/Delivery/Sessions.antt =====
-- The delivery of events to one session, over all the sessions of a runtime.
use durable_acp.Prelude.{
  String, ◌≡◌, refl, sym, ap, ◌∙◌, subst, inl, inr, Bool, true, false, not, ◌||◌, Option, none,
  some, List, [], ◌∷◌, str_eq, eq_iff, if◌then◌else◌, Bool-cases, Option-cases, Map, lookup, insert,
  lookup-insert,
}
use durable_acp.Host.{Event, Value}
use durable_acp.Journal.Record.{Bytes}
use durable_acp.Journal.Events.{translate}
use durable_acp.Journal.Replay.{Json}
use durable_acp.Runtime.Coalesce.{Coalescer, fire}
use durable_acp.Runtime.Coalesce as Coalesce
use durable_acp.Runtime.State.{ManagedSession, Runtime, Clock, put}
use durable_acp.Runtime.Turns.{on_event}
use durable_acp.Runtime.Delivery.{
  Appender, prepare_event, check_replay, persist_event, emit_event, spawn_dispatch, deliver_once,
  deliver_past, view_of, emit_queue, deliver_now, deliver_all, through_coalescer, goes_past,
  deliver, fire_timer,
}
use durable_acp.Runtime.Delivery.Frame.{
  Keeps, Keeps-refl, Keeps-trans, plain_change, on_event-Keeps, prepare_event-Keeps, KeepsChecked,
  check_replay-Keeps,
}

-- A session that is kept, where there was one; and no session where there was none.
abbrev pub KeepsEntry : Option ManagedSession → Option ManagedSession → Type 0
KeepsEntry none none = Unit {0}
KeepsEntry none (some m) = ⊥
KeepsEntry (some m) none = ⊥
KeepsEntry (some m) (some m') = Keeps m m'

KeepsEntry-refl : (o : Option ManagedSession) → KeepsEntry o o
KeepsEntry-refl none = tt
KeepsEntry-refl (some m) = Keeps-refl m

KeepsEntry-trans :
    (a b c : Option ManagedSession) → KeepsEntry a b → KeepsEntry b c → KeepsEntry a c
KeepsEntry-trans none none none p q = tt
KeepsEntry-trans none none (some c) p q = absurd q
KeepsEntry-trans none (some b) c p q = absurd p
KeepsEntry-trans (some a) none c p q = absurd p
KeepsEntry-trans (some a) (some b) none p q = absurd q
KeepsEntry-trans (some a) (some b) (some c) p q = Keeps-trans a b c p q

module _ {ℓ} {J : Type ℓ} where
  -- All sessions are kept, and so are the adapters and the limit.
  pub record Frame (r r' : Runtime J) : Type ℓ where
    pub kept : (id : String) → KeepsEntry (lookup id r.sessions) (lookup id r'.sessions)
    pub same_adapters : r'.adapters ≡ r.adapters
    pub same_limit : r'.max_queued_turns ≡ r.max_queued_turns

  pub Frame-refl : (r : Runtime J) → Frame r r
  Frame-refl r = record {
    kept = λ id. KeepsEntry-refl (lookup id r.sessions);
    same_adapters = refl;
    same_limit = refl;
  }

  pub Frame-trans : (a b c : Runtime J) → Frame a b → Frame b c → Frame a c
  Frame-trans a b c p q = record {
    kept = λ id.
        KeepsEntry-trans (lookup id a.sessions) (lookup id b.sessions) (lookup id c.sessions)
          (p.kept id) (q.kept id);
    same_adapters = q.same_adapters ∙ p.same_adapters;
    same_limit = q.same_limit ∙ p.same_limit;
  }

  -- A session that is changed so that it is kept.
  pub put-Frame :
      (id : String) (m m' : ManagedSession) (r : Runtime J)
      → lookup id r.sessions ≡ some m
      → Keeps m m'
      → Frame r (put id m' r)
  unfolding put
  put-Frame id m m' r h k = record {
    kept = λ j. elim (Bool-cases (str_eq id j)) [
      | inl e ↦
          let same : id ≡ j = (eq_iff id j).0 e in
          let before : lookup j r.sessions ≡ some m =
            ap (λ i. lookup i r.sessions) (sym same) ∙ h in
          let after : lookup j (insert id m' r.sessions) ≡ some m' =
            lookup-insert id j m' r.sessions ∙ rw e refl in
          rw (before, after) k
      | inr e ↦
          let after : lookup j (insert id m' r.sessions) ≡ lookup j r.sessions =
            lookup-insert id j m' r.sessions ∙ rw e refl in
          rw after (KeepsEntry-refl (lookup j r.sessions))
    ];
    same_adapters = refl;
    same_limit = refl;
  }

  -- A change beside the sessions.
  pub same_sessions-Frame :
      (r r' : Runtime J)
      → r'.sessions ≡ r.sessions
      → r'.adapters ≡ r.adapters
      → r'.max_queued_turns ≡ r.max_queued_turns
      → Frame r r'
  same_sessions-Frame r r' s a l = record {
    kept = λ id. rw s (KeepsEntry-refl (lookup id r.sessions));
    same_adapters = a;
    same_limit = l;
  }

  pub either_way-Frame :
      (b : Bool) (r a c : Runtime J) → Frame r a → Frame r c → Frame r (if b then a else c)
  either_way-Frame true r a c p q = p
  either_way-Frame false r a c p q = q

module _ {ℓ} {J : Type ℓ} (json : Json) (marshal : Map Value → Option Bytes)
    (append_record : Appender J) where
  persist_event-sessions :
      (e : Event) (r : Runtime J) → Frame r (persist_event json marshal append_record e r).1
  unfolding persist_event
  persist_event-sessions e r = elim (Option-cases r.journal) [
    | inl h ↦ simp (persist_event, h) (Frame-refl r)
    | inr (journal, h) ↦ elim (Bool-cases r.journal_writes) [
      | inr off ↦ simp (persist_event, h, off) (Frame-refl r)
      | inl on ↦ elim (Option-cases (translate marshal e)) [
        | inl t ↦ simp (persist_event, h, on, t) (Frame-refl r)
        | inr (entry, t) ↦ elim (Option-cases (append_record entry journal).0) [
          | inl a ↦ simp (persist_event, h, on, t, a) (same_sessions-Frame r _ refl refl refl)
          | inr (what, a) ↦
              simp (persist_event, h, on, t, a) (same_sessions-Frame r _ refl refl refl)
        ]
      ]
    ]
  ]

  emit_event-Frame :
      (e : Event) (r : Runtime J) → Frame r (emit_event json marshal append_record e r)
  unfolding emit_event
  emit_event-Frame e r =
      either_way-Frame r.has_sink r _ r (same_sessions-Frame r _ refl refl refl) (Frame-refl r)

  pub spawn_dispatch-Frame :
      (wanted : Bool) (id : String) (r : Runtime J)
      → Frame r (spawn_dispatch json marshal append_record wanted id r)
  unfolding spawn_dispatch
  spawn_dispatch-Frame wanted id r =
      either_way-Frame wanted r _ r (same_sessions-Frame r _ refl refl refl) (Frame-refl r)

  deliver_once-Frame :
      (clock : Clock) (id : String) (e : Event) (r : Runtime J)
      → Frame r (deliver_once json marshal append_record clock id e r).0
  unfolding deliver_once
  deliver_once-Frame clock id e r = elim (Option-cases (lookup id r.sessions)) [
    | inl h ↦ simp (deliver_once, h) (Frame-refl r)
    | inr (m, h) ↦
        let o = on_event clock.instant e m in
        elim (Option-cases (check_replay json marshal e o.managed)) [
          | inl c ↦ simp (deliver_once, h, c) (same_sessions-Frame r _ refl refl refl)
          | inr ((suppressed, m'), c) ↦
              let kept : Keeps m m' =
                Keeps-trans m o.managed m' (on_event-Keeps clock.instant e m) (
                  subst (KeepsChecked o.managed) c (check_replay-Keeps json marshal e o.managed)) in
              let changed = put-Frame id m m' r h kept in
              elim (Bool-cases suppressed) [
                | inl known ↦ simp (deliver_once, h, c, known) changed
                | inr unknown ↦
                    let r' = put id m' r in
                    let (e', r'') = persist_event json marshal append_record e r' in
                    let persisted = Frame-trans r r' r'' changed (persist_event-sessions e r') in
                    let shown = emit_event json marshal append_record e' r'' in
                    simp (deliver_once, h, c, unknown)
                      (Frame-trans r shown
                        (spawn_dispatch json marshal append_record o.dispatch_next id shown)
                        (Frame-trans r r'' shown persisted (emit_event-Frame e' r''))
                        (spawn_dispatch-Frame o.dispatch_next id shown))
              ]
        ]
  ]

  deliver_past-Frame :
      (clock : Clock) (id : String) (e : Event) (r : Runtime J)
      → Frame r (deliver_past json marshal append_record clock id e r)
  unfolding deliver_past
  deliver_past-Frame clock id e r = elim (Option-cases (lookup id r.sessions)) [
    | inl h ↦ simp (deliver_past, h) (Frame-refl r)
    | inr (m, h) ↦
        let p = prepare_event clock id r.coalesce_events m e in
        simp (deliver_past, h)
          (Frame-trans r (put id p.1 r) _
            (put-Frame id m p.1 r h (prepare_event-Keeps clock id r.coalesce_events m e))
            (deliver_once-Frame clock id p.0 (put id p.1 r)))
  ]

  pub emit_queue-Frame :
      (clock : Clock) (id : String) (r : Runtime J)
      → Frame r (emit_queue json marshal append_record clock id r)
  unfolding emit_queue
  emit_queue-Frame clock id r = elim (Option-cases (lookup id r.sessions)) [
    | inl h ↦ simp (emit_queue, h) (Frame-refl r)
    | inr (m, h) ↦
        let seen : ManagedSession = record m {
          last_queue = some (view_of json marshal append_record m);
        } in
        let r' = put id seen r in
        simp (emit_queue, h)
          (either_way-Frame _ r r _ (Frame-refl r) (
            Frame-trans r r' _ (put-Frame id m seen r h (plain_change m seen refl refl refl refl))
              (deliver_past-Frame clock id _ r')))
  ]

  deliver_now-Frame :
      (clock : Clock) (id : String) (e : Event) (r : Runtime J)
      → Frame r (deliver_now json marshal append_record clock id e r)
  unfolding deliver_now
  deliver_now-Frame clock id e r =
      let once = deliver_once json marshal append_record clock id e r in
      either_way-Frame once.1 r _ once.0
        (Frame-trans r once.0 _ (deliver_once-Frame clock id e r)
          (emit_queue-Frame clock id once.0))
        (deliver_once-Frame clock id e r)

  deliver_all-Frame :
      (clock : Clock) (id : String) (es : List Event) (r : Runtime J)
      → Frame r (deliver_all json marshal append_record clock id es r)
  unfolding deliver_all
  deliver_all-Frame clock id [] r = Frame-refl r
  deliver_all-Frame clock id (e ∷ es) r =
      Frame-trans r (deliver_now json marshal append_record clock id e r) _
        (deliver_now-Frame clock id e r)
        (deliver_all-Frame clock id es (deliver_now json marshal append_record clock id e r))

  pub through_coalescer-Frame :
      (clock : Clock) (id : String) (step : Coalescer → List Event × Coalescer) (r : Runtime J)
      → Frame r (through_coalescer json marshal append_record clock id step r)
  unfolding through_coalescer
  through_coalescer-Frame clock id step r = elim (Option-cases (lookup id r.sessions)) [
    | inl h ↦ simp (through_coalescer, h) (Frame-refl r)
    | inr (m, h) ↦ elim (Option-cases m.coalescer) [
      | inl h' ↦ simp (through_coalescer, h, h') (Frame-refl r)
      | inr (c, h') ↦
          let m' : ManagedSession = record m { coalescer = some (step c).1 } in
          simp (through_coalescer, h, h')
            (Frame-trans r (put id m' r) _
              (put-Frame id m m' r h (plain_change m m' refl refl refl refl))
              (deliver_all-Frame clock id (step c).0 (put id m' r)))
    ]
  ]

  -- Whatever event is delivered, and whatever the journal answers, no session appears or disappears, is
  -- closed or opened, and every queue stays as it was, with its numbering, blocked or not; so do the
  -- backends, the adapters and the limit.
  pub deliver-Frame :
      (clock : Clock) (id : String) (e : Event) (r : Runtime J)
      → Frame r (deliver json marshal append_record clock id e r)
  unfolding deliver
  deliver-Frame clock id e r = elim (Option-cases (lookup id r.sessions)) [
    | inl h ↦ simp (deliver, h) (Frame-refl r)
    | inr (m, h) ↦
        let p = prepare_event clock id r.coalesce_events m e in
        let r' = put id p.1 r in
        let prepared =
          put-Frame id m p.1 r h (prepare_event-Keeps clock id r.coalesce_events m e) in
        simp (deliver, h)
          (either_way-Frame (not r.coalesce_events || goes_past json marshal append_record p.0) r _
            _ (Frame-trans r r' _ prepared (deliver_now-Frame clock id p.0 r'))
            (Frame-trans r r' _ prepared
              (through_coalescer-Frame clock id (Coalesce.handle p.0) r')))
  ]

  pub fire_timer-Frame :
      (clock : Clock) (id : String) (r : Runtime J)
      → Frame r (fire_timer json marshal append_record clock id r)
  unfolding fire_timer
  fire_timer-Frame clock id r = through_coalescer-Frame clock id fire r
