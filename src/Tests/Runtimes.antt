-- ===== src/Tests/Runtimes.antt =====
-- The runtime at concrete sessions and calls.
use durable_acp.Prelude.{
  ℕ, ◌+◌, ◌≡◌, refl, String, true, false, none, some, List, [], ◌∷◌, arith, ok, err, pos, lookup,
  ltb, Result, if◌then◌else◌,
}
use durable_acp.Session.{running, BackendSession, Session}
use durable_acp.Session as Session_
use durable_acp.Host.{
  Event, SendTurnRequest, StartSessionRequest, SessionConfiguration, event_turn_started,
  event_turn_complete,
}
use durable_acp.Journal.Record.{Record}
use durable_acp.Runtime.State.{
  ManagedSession, managed_new, QueueEntry, Adapter, Runtime, Clock, put, emitted, spawned,
  move_status,
}
use durable_acp.Runtime.Configuration.{
  configuration_from_start, configuration_from_turn, fill_start_configuration,
  fill_turn_configuration, merge_configuration,
}
use durable_acp.Runtime.Configuration.Filling.{
  configuration_from_turn-fill_turn_configuration,
  configuration_from_start-fill_start_configuration,
}
use durable_acp.Runtime.Turns.{end_turn}
use durable_acp.Runtime.Delivery.{Appender, deliver, deliver_once, check_replay, persist_event}
use durable_acp.Runtime.Delivery.Sessions.{Frame, deliver-Frame}
use durable_acp.Runtime.Sending.{Submission, dispatch_queued, next_turn}
use durable_acp.Runtime.Sending.Dispatching.{depth_of, dispatch_queued-returns}
use durable_acp.Runtime.Sending.Waking.{by_completion, deliver_once-wakes}
use durable_acp.Runtime.Restoring.{RecordData}
use durable_acp.Runtime.Calls.{
  Config, Call, call_create, call_send, call_send_next, call_dispatch, adapter_event, call_close,
  call_shutdown, new_runtime, perform_all,
}
use durable_acp.Runtime.Bounds.{IsBounded}
use durable_acp.Runtime.Bounds.Histories.{perform_all-IsBounded}
use durable_acp.Prelude.{trim_space}
use durable_acp.Runtime.Queueing.{take_entry}
use durable_acp.Runtime.Queueing.Removing.{Removed, take_entry-Removed}
use durable_acp.Runtime.Sending.{send}
use durable_acp.Runtime.Sending.Placing.{queue_of, queue_after, send-queue}
use durable_acp.Tests.Events.{answered, some_bytes}
use durable_acp.Tests.Replays.{small_json}

-- A journal that only counts its records, and fails on every one from the third on.
abbrev count_record : Appender ℕ
count_record r n = if ltb n 2 then (none, n + 1) else (some "disk full", n)

abbrev noon : Clock
noon = record { instant = 12; shown = "noon" }

abbrev turn : String → SendTurnRequest
turn prompt = record {
  session_id = " s ";
  prompt = prompt;
  ext = [];
  attachments = [];
  model = " m1 ";
  reasoning = "";
  permission_mode = "";
}

abbrev pub started : Event
started = record answered { event_type = event_turn_started; backend_turn_id = "t1"; seq = pos 0 }

abbrev completed : Event
completed = record answered {
  event_type = event_turn_complete;
  backend_turn_id = "t1";
  seq = pos 0;
}

abbrev backend_state : BackendSession
backend_state = record { id = "b"; thread_id = ""; turn_id = "t0" }

-- A submission that is taken, one that the adapter refuses, and one that the host refuses.
abbrev taken : Submission
taken = record {
  refused = none;
  call = record { delivered = started ∷ []; answer = ok backend_state };
}

abbrev rejected : Submission
rejected = record { refused = none; call = record { delivered = []; answer = err "busy" } }

abbrev unwanted : Submission
unwanted = record rejected { refused = some "budget" }

abbrev bare : SessionConfiguration
bare = record { model = "m0"; reasoning = "high"; permission_mode = "" }

abbrev queued : String → QueueEntry
queued id = record { id = id; request = turn "go on" }

-- An open session with two turns in its queue.
abbrev pub waiting : ManagedSession
waiting = record (managed_new (Session_.new "s" "codex" "/w" 1) bare (pos 0)) {
  queue = queued "s:q:1" ∷ queued "s:q:2" ∷ [];
}

abbrev codex : Adapter
codex = record { restarts = true; responds_interaction = true; responds_permission = false }

abbrev two_queued : Runtime ℕ
two_queued = record {
  adapters = ("codex", codex) ∷ [];
  sessions = ("s", waiting) ∷ [];
  journal = some 0;
  journal_writes = true;
  has_sink = true;
  max_queued_turns = 2;
  coalesce_events = true;
  effects = [];
}

abbrev pub no_data : RecordData
no_data = record {
  created_data = λ bs. none;
  started_data = λ bs. none;
  interaction_data = λ bs. none;
  response_data = λ bs. none;
}

abbrev nothing_read : String → ℕ → Result String (List Record)
nothing_read id n = ok []

abbrev one_at_a_time : Config ℕ
one_at_a_time = record {
  journal = some 0;
  has_sink = true;
  max_queued_turns = pos 1;
  disable_coalescing = false;
  disable_journal_writes = false;
}

abbrev history : List (Clock × Call)
history =
    (noon, call_create none false (record { id = "s"; backend = "codex"; worktree = "/w" }))
    ∷ (noon, call_send (turn "first") taken)
    ∷ (noon, call_send (turn "second") taken)
    ∷ (noon, call_send_next (turn "third") taken)
    ∷ (noon, adapter_event "s" completed)
    ∷ (noon, call_dispatch 2 "s" (λ n. rejected))
    ∷ (noon, call_shutdown ("s" ∷ []) (λ id. some "gone"))
    ∷ (noon, call_close "s" none)
    ∷ []

perform_all-IsBounded_example : IsBounded (
    perform_all small_json some_bytes count_record no_data nothing_read history
      (new_runtime one_at_a_time (("codex", codex) ∷ [])))
perform_all-IsBounded_example =
    perform_all-IsBounded small_json some_bytes count_record no_data nothing_read one_at_a_time
      (("codex", codex) ∷ []) history

dispatch_queued-returns_example :
    (dispatch_queued small_json some_bytes count_record 3 noon "s" (λ n. unwanted) two_queued).0
    ≡ true
unfolding depth_of lookup
dispatch_queued-returns_example =
    dispatch_queued-returns small_json some_bytes count_record 3 noon "s" (λ n. unwanted) two_queued
      (ground arith)

deliver-Frame_example :
    Frame two_queued (deliver small_json some_bytes count_record noon "s" completed two_queued)
deliver-Frame_example =
    deliver-Frame small_json some_bytes count_record noon "s" completed two_queued

abbrev busy : ManagedSession
busy = record waiting { active = true; active_turn_id = "t1" }

abbrev at_work : Runtime ℕ
at_work = record two_queued { sessions = ("s", busy) ∷ [] }

deliver_once-wakes_example :
    (deliver_once small_json some_bytes count_record noon "s" completed at_work).0.effects
    ≡ emitted
        (persist_event small_json some_bytes count_record completed
          (put "s" (end_turn 12 busy) at_work)).0
      ∷ spawned "s"
      ∷ []
unfolding lookup check_replay end_turn move_status put next_turn Session_.new Session_.is_status
deliver_once-wakes_example =
    deliver_once-wakes small_json some_bytes count_record noon "s" completed at_work busy
      (end_turn 12 busy) false refl (by_completion refl) refl refl refl

configuration_from_turn-fill_turn_configuration_example :
    configuration_from_turn (fill_turn_configuration (turn "x") bare)
    ≡ merge_configuration bare (configuration_from_turn (turn "x"))
configuration_from_turn-fill_turn_configuration_example =
    configuration_from_turn-fill_turn_configuration (turn "x") bare

abbrev resume : StartSessionRequest
resume = record {
  backend = "codex";
  session_id = "s";
  worktree = "/w";
  prompt = "";
  ext = [];
  attachments = [];
  model = "";
  reasoning = " low";
  permission_mode = "";
  resume_backend_session_id = "b";
}

configuration_from_start-fill_start_configuration_example :
    configuration_from_start
      (fill_start_configuration resume (merge_configuration bare (configuration_from_start resume)))
    ≡ merge_configuration bare (configuration_from_start resume)
configuration_from_start-fill_start_configuration_example =
    configuration_from_start-fill_start_configuration resume bare

-- A session whose dispatch is blocked, with room for one turn more.
abbrev held : ManagedSession
held = record waiting { dispatch_blocked = true }

abbrev held_back : Runtime ℕ
held_back = record two_queued { sessions = ("s", held) ∷ []; max_queued_turns = 3 }

send-queue_example :
    queue_of (
      lookup "s"
        (send small_json some_bytes count_record noon true
          (turn "more")
          taken
          held_back).1.sessions)
    ≡ queue_after small_json some_bytes count_record true (turn "more") held_back
unfolding trim_space
send-queue_example =
    send-queue small_json some_bytes count_record noon true (turn "more") taken held_back

take_entry-Removed_example : Removed "s:q:2" waiting.queue (take_entry "s:q:2" waiting.queue)
take_entry-Removed_example = take_entry-Removed "s:q:2" waiting.queue
