-- ===== src/Runtime/Lifecycle.antt =====
-- runtime/runtime.go: sessions that are created, started, restarted, closed and forgotten.
use durable_acp.Prelude.{
  ℕ, pos, String, Bool, true, false, ◌||◌, not, Option, none, some, [], ◌∷◌, is_empty, trim_space,
  clean_path, if◌then◌else◌, Map, lookup, erase, Result, ok, err,
}
use durable_acp.Session.{Status, active, closed, Session, BackendSession, transition_to}
use durable_acp.Session as Session_
use durable_acp.Host.{Value, text, strings, StartSessionRequest, SessionConfiguration}
use durable_acp.Journal.Record.{Bytes, Record}
use durable_acp.Journal.Replay.{Json}
use durable_acp.Runtime.Coalesce.{close_coalescer}
use durable_acp.Runtime.State.{
  ManagedSession, managed_new, Runtime, Clock, put, adapter_locked, RuntimeError, session_exists,
  session_closed, not_closed, turn_active, restart_unsupported, unsupported_backend, no_worktree,
  session_required, backend_required, worktree_required, no_id, external,
}
use durable_acp.Runtime.Configuration.{configuration_from_start, merge_configuration}
use durable_acp.Runtime.Turns.{has_status, restarted, closed_down}
use durable_acp.Runtime.Delivery.{Appender, emit_queue, through_coalescer}
use durable_acp.Runtime.Sending.{AdapterCall, update, deliver_each}

pub record CreateRequest : Type 0 where
  pub id : String
  pub backend : String
  pub worktree : String

-- The record of a step in the life of a session.
unfoldable pub lifecycle_record : String → String → Bytes → Record
lifecycle_record id name raw = record {
  schema = "";
  schema_version = pos 0;
  event_version = pos 0;
  event_id = "";
  source_event_id = "";
  sequence = 0;
  timestamp = 0;
  session_id = id;
  conversation = "";
  event = name;
  turn_id = "";
  data_raw = raw;
  presentation = none;
}

-- A prompt or an attachment that a session is started with.
abbrev pub has_first_turn : StartSessionRequest → Bool
has_first_turn request =
    not (is_empty (trim_space request.prompt))
    || elim request.attachments [ [] ↦ false | a ∷ as' ↦ true ]

abbrev pub session_strings : BackendSession → Value
session_strings s =
    strings (("id", s.id) ∷ ("thread_id", s.thread_id) ∷ ("turn_id", s.turn_id) ∷ [])

abbrev pub configuration_strings : SessionConfiguration → Value
configuration_strings c =
    strings (
      ("model", c.model) ∷ ("reasoning", c.reasoning) ∷ ("permission_mode", c.permission_mode) ∷ [])

module _ {ℓ} {J : Type ℓ} (json : Json) (marshal : Map Value → Option Bytes)
    (append_record : Appender J) where
  -- `appendLifecycle`.
  unfoldable pub append_lifecycle :
      String → String → Map Value → Runtime J → Option RuntimeError × Runtime J
  append_lifecycle id name fields r = elim r.journal [
    | none ↦ (none, r)
    | some journal ↦
        if r.journal_writes
        then elim (marshal fields) [
          | none ↦ (some (external "encode"), r)
          | some raw ↦
              let (failure, journal') = append_record (lifecycle_record id name raw) journal in
              let r' = record r { journal = some journal' } in
              elim failure [ none ↦ (none, r') | some what ↦ (some (external what), r') ]
        ]
        else (none, r)
  ]

  -- The session that `Create` makes.
  unfoldable pub created_session : ℕ → String → String → String → ManagedSession
  created_session now id backend worktree =
      managed_new (transition_to (Session_.new id backend worktree now) active now).0
        (record { model = ""; reasoning = ""; permission_mode = "" }) (pos 0)

  -- `Create`, with the identifier that `newID` makes if none is asked for, and whether `os.Stat` finds the
  -- worktree. The session is taken back if it cannot be journaled.
  unfoldable pub create :
      Clock
      → Option String
      → Bool
      → CreateRequest
      → Runtime J
      → Result RuntimeError ManagedSession × Runtime J
  create clock fresh stat_fails request r =
      let backend = trim_space request.backend in
      let worktree = clean_path (trim_space request.worktree) in
      let asked = trim_space request.id in
      let wanted : Option String = if is_empty asked then fresh else some asked in
      if is_empty backend
      then (err backend_required, r)
      else if is_empty (trim_space request.worktree)
      then (err worktree_required, r)
      else if stat_fails
      then (err (no_worktree worktree), r)
      else elim (lookup backend r.adapters) [
        | none ↦ (err (unsupported_backend backend), r)
        | some adapter ↦ elim wanted [
          | none ↦ (err no_id, r)
          | some id ↦ elim (lookup id r.sessions) [
            | some taken ↦ (err (session_exists id), r)
            | none ↦
                let m = created_session clock.instant id backend worktree in
                let fields = ("backend", text backend) ∷ ("worktree", text worktree) ∷ [] in
                let (failure, r') = append_lifecycle id "session.created" fields (put id m r) in
                elim failure [
                  | some e ↦ (err e, record r' { sessions = erase id r'.sessions })
                  | none ↦ (ok m, r')
                ]
          ]
        ]
      ]

  unfoldable pub configuration_of : String → Runtime J → SessionConfiguration
  configuration_of id r = elim (lookup id r.sessions) [
    | none ↦ record { model = ""; reasoning = ""; permission_mode = "" }
    | some m ↦ m.configuration
  ]

  -- The session while `Start` launches the adapter's.
  unfoldable pub starting : StartSessionRequest → ManagedSession → ManagedSession
  starting request m =
      let configured = record m {
        configuration = merge_configuration m.configuration (configuration_from_start request);
      } in
      if has_first_turn request then record configured { dispatching = true } else configured

  -- `Start`.
  unfoldable pub start :
      Clock
      → StartSessionRequest
      → AdapterCall
      → Runtime J
      → Result RuntimeError BackendSession × Runtime J
  start clock asked call r =
      let id = trim_space asked.session_id in
      if is_empty id then (err session_required, r) else elim (adapter_locked id r) [
        | err e ↦ (err e, r)
        | ok (m, adapter) ↦
            let request = record asked {
              session_id = id;
              backend = m.session.backend;
              worktree = m.session.worktree;
            } in
            let r' =
              deliver_each json marshal append_record clock id call.delivered
                (put id (starting request m) r) in
            if has_status closed m then (err (session_closed id), r) else elim call.answer [
              | err what ↦ (
                err (external what),
                update json marshal append_record id
                    (λ c. record c { dispatching = false; configuration = m.configuration }) r',
              )
              | ok state ↦
                  let r'' =
                    update json marshal append_record id
                      (λ c. record c { session = record c.session { backend_session = state } })
                      r' in
                  let (failure, r₃) =
                    append_lifecycle id "session.started"
                      (("backend", text request.backend)
                        ∷ ("backend_session", session_strings state)
                        ∷ ("configuration", configuration_strings (configuration_of id r''))
                        ∷ [])
                      r'' in
                  elim failure [ some e ↦ (err e, r₃) | none ↦ (ok state, r₃) ]
            ]
      ]

  -- `Restart`.
  unfoldable pub restart :
      Clock → String → AdapterCall → Runtime J → Result RuntimeError BackendSession × Runtime J
  restart clock session_id call r =
      let id = trim_space session_id in
      elim (adapter_locked id r) [
        | err e ↦ (err e, r)
        | ok (m, adapter) ↦
            let r' = deliver_each json marshal append_record clock id call.delivered r in
            if has_status closed m
            then (err (session_closed id), r)
            else if m.active || m.dispatching
            then (err (turn_active id m.active_turn_id), r)
            else if not adapter.restarts
            then (err (restart_unsupported m.session.backend), r)
            else elim call.answer [
              | err what ↦ (err (external what), r')
              | ok state ↦
                  let (failure, r'') =
                    append_lifecycle id "session.restarted"
                      (("backend_session", session_strings state) ∷ [])
                      (update json marshal append_record id (restarted state) r') in
                  elim failure [ some e ↦ (err e, r'') | none ↦ (ok state, r'') ]
            ]
      ]

  -- `Close`, with the error of `CloseSession` if there is one. What the coalescer holds is delivered
  -- first.
  unfoldable pub close_session :
      Clock → String → Option String → Runtime J → Option RuntimeError × Runtime J
  close_session clock session_id failure r =
      let id = trim_space session_id in
      elim (adapter_locked id r) [
        | err e ↦ (some e, r)
        | ok (m, adapter) ↦
            let r' = through_coalescer json marshal append_record clock id close_coalescer r in
            let (unjournaled, r'') =
              append_lifecycle id "session.closed" []
                (update json marshal append_record id (closed_down clock.instant) r') in
            if has_status closed m then (none, r) else elim failure [
              | some what ↦ (some (external what), r')
              | none ↦ elim unjournaled [
                | some e ↦ (some e, r'')
                | none ↦ (none, emit_queue json marshal append_record clock id r'')
              ]
            ]
      ]

  -- `Forget`. The coalescer that it closes delivers to no session any more.
  unfoldable pub forget : String → Runtime J → Option RuntimeError × Runtime J
  forget session_id r =
      let id = trim_space session_id in
      elim (lookup id r.sessions) [
        | none ↦ (none, r)
        | some m ↦
            if has_status closed m
            then (none, record r { sessions = erase id r.sessions })
            else (some (not_closed id), r)
      ]
