-- ===== src/Runtime/Sending/Frames.antt =====
-- The submission of a turn leaves the queues alone, whatever the adapter does.
use durable_acp.Prelude.{
  String, refl, inl, inr, Option, List, [], ◌∷◌, Option-cases, Result-cases, Map, lookup,
}
use durable_acp.Session.{BackendSession}
use durable_acp.Host.{Event, Value, SendTurnRequest}
use durable_acp.Journal.Record.{Bytes}
use durable_acp.Journal.Replay.{Json}
use durable_acp.Runtime.State.{
  ManagedSession, ConfigurationEventVersions, TurnDispatch, Runtime, Clock,
}
use durable_acp.Runtime.Configuration.{merge_unreported_configuration}
use durable_acp.Runtime.Turns.{submission_failed}
use durable_acp.Runtime.Delivery.{Appender, deliver}
use durable_acp.Runtime.Delivery.Frame.{Keeps, submission_failed-Keeps}
use durable_acp.Runtime.Delivery.Sessions.{Frame, Frame-refl, Frame-trans, put-Frame, deliver-Frame}
use durable_acp.Runtime.Sending.{
  Submission, update, failed_event, fail_submission, deliver_each, versions_of, submitted,
  submit_turn,
}

module _ {ℓ} {J : Type ℓ} (json : Json) (marshal : Map Value → Option Bytes)
    (append_record : Appender J) where
  pub update-Frame :
      (id : String) (change : ManagedSession → ManagedSession) (r : Runtime J)
      → ((m : ManagedSession) → Keeps m (change m))
      → Frame r (update json marshal append_record id change r)
  unfolding update
  update-Frame id change r keeps = elim (Option-cases (lookup id r.sessions)) [
    | inl h ↦ simp (update, h) (Frame-refl r)
    | inr (m, h) ↦ simp (update, h) (put-Frame id m (change m) r h (keeps m))
  ]

  fail_submission-Frame :
      (clock : Clock) (id entry what : String) (r : Runtime J)
      → Frame r (fail_submission json marshal append_record clock id entry what r)
  unfolding fail_submission
  fail_submission-Frame clock id entry what r =
      let r' = update json marshal append_record id (submission_failed clock.instant) r in
      Frame-trans r r' _
        (update-Frame id (submission_failed clock.instant) r
          (submission_failed-Keeps clock.instant))
        (deliver-Frame json marshal append_record clock id
          (failed_event json marshal append_record entry what) r')

  pub deliver_each-Frame :
      (clock : Clock) (id : String) (es : List Event) (r : Runtime J)
      → Frame r (deliver_each json marshal append_record clock id es r)
  unfolding deliver_each
  deliver_each-Frame clock id [] r = Frame-refl r
  deliver_each-Frame clock id (e ∷ es) r =
      let r' = deliver json marshal append_record clock id e r in
      Frame-trans r r' _ (deliver-Frame json marshal append_record clock id e r)
        (deliver_each-Frame clock id es r')

  submitted-Keeps :
      (request : SendTurnRequest) (versions : ConfigurationEventVersions) (state : BackendSession)
      (m : ManagedSession)
      → Keeps m (submitted json marshal append_record request versions state m)
  unfolding submitted merge_unreported_configuration
  submitted-Keeps request versions state m = record {
    same_queue = refl;
    same_queue_seq = refl;
    same_blocked = refl;
    same_backend = refl;
    same_closed = refl;
  }

  pub submit_turn-Frame :
      (clock : Clock) (d : TurnDispatch) (out : Submission) (r : Runtime J)
      → Frame r (submit_turn json marshal append_record clock d out r).1
  unfolding submit_turn
  submit_turn-Frame clock d out r = elim (Option-cases out.refused) [
    | inr (what, h) ↦
        simp (submit_turn, h) (fail_submission-Frame clock d.session_id d.queue_entry_id what r)
    | inl h ↦
        let r' = deliver_each json marshal append_record clock d.session_id out.call.delivered r in
        let during = deliver_each-Frame clock d.session_id out.call.delivered r in
        elim (Result-cases out.call.answer) [
          | inr (what, a) ↦
              simp (submit_turn, h, a)
                (Frame-trans r r' _ during
                  (fail_submission-Frame clock d.session_id d.queue_entry_id what r'))
          | inl (state, a) ↦
              let change =
                submitted json marshal append_record d.request
                  (versions_of json marshal append_record d.session_id r) state in
              simp (submit_turn, h, a)
                (Frame-trans r r' _ during (
                  update-Frame d.session_id change r' (
                    submitted-Keeps d.request
                      (versions_of json marshal append_record d.session_id r) state)))
        ]
  ]
