-- ===== src/Tests/Streams.antt =====
-- The coalescer on a short stream.
use mathlib.Core.List.{Perm}
use durable_acp.Runtime.Coalesce.{
  handle, fire, flush, clear, close_coalescer, start_stream, begin_stream, join_stream, in_stream,
  byte_length, char_bytes, stream_data, text_field,
}
use durable_acp.Runtime.Coalesce.Calls.{perform}
use durable_acp.Runtime.Coalesce.Emission.{
  Act, locks, emits, act, act_all, next_event, calls_of, join, pool,
}
use durable_acp.Runtime.Coalesce.Delivered.{
  Delivers, start_with, calls_from, delivered_lem, close_coalescer-final,
}
use durable_acp.Prelude.{◌≡◌, refl, String, none, List, [], ◌∷◌, inl, pos, lookup}
use durable_acp.Host.{Event, text}
use durable_acp.Runtime.Coalesce.{new_delta_coalescer, is_assistant_delta, close_coalescer}
use durable_acp.Runtime.Coalesce.Snapshots.{Move, further, tick, shown, text_of}
use durable_acp.Runtime.Coalesce.Streaming.{next_id}
use durable_acp.Runtime.Coalesce.Calls.{
  Call, handles, ticks, closes, perform_all, IsConsistent, perform_all-IsConsistent,
}

abbrev delta : String → Event
delta t = record {
  source_event_id = "";
  session_id = "s";
  backend = "codex";
  backend_session_id = "";
  backend_thread_id = "";
  backend_turn_id = "t";
  seq = pos 1;
  event_type = "message";
  role = "assistant";
  message = t;
  fields = ("delta", text t) ∷ [];
  tool_display = none;
  interaction = none;
  interaction_response = none;
  time = "now";
  local = [];
}

abbrev moves : List Move
moves = further (delta ", ") ∷ tick ∷ further (delta "world") ∷ []

-- The timer takes the lock before the last delta, and its snapshot is delivered after the one of the close.
abbrev late_timer : List Act
late_timer =
    locks (handles (delta "hello"))
    ∷ emits 0
    ∷ locks (handles (delta ", "))
    ∷ locks ticks
    ∷ locks (handles (delta "world"))
    ∷ locks closes
    ∷ emits 4
    ∷ emits 2
    ∷ []

delivered_lem_example :
    let out = (act_all late_timer (start_with new_delta_coalescer)).delivered in
    Delivers (next_id (delta "hello") new_delta_coalescer) (text_of "hello" moves) out
    × (shown
          (next_id (delta "hello") new_delta_coalescer)
          "earlier"
          (perform_all (calls_of late_timer) new_delta_coalescer).0
        ≡ text_of "hello" moves)
unfolding new_delta_coalescer is_assistant_delta lookup calls_of calls_from act_all act next_event
    join perform handle fire flush clear close_coalescer start_stream begin_stream join_stream
    in_stream byte_length char_bytes stream_data text_field
delivered_lem_example =
    delivered_lem (delta "hello") moves new_delta_coalescer late_timer "earlier" refl refl
      (inl refl) refl ((refl, refl, refl), ((refl, refl, refl), tt)) refl refl

abbrev calls : List Call
calls = handles (delta "hello") ∷ handles (delta "!") ∷ ticks ∷ closes ∷ []

perform_all-IsConsistent_example : IsConsistent (perform_all calls new_delta_coalescer).1
perform_all-IsConsistent_example = perform_all-IsConsistent calls

abbrev acts : List Act
acts = locks (handles (delta "hello")) ∷ locks ticks ∷ emits 0 ∷ []

close_coalescer-final_example :
    Perm
      (pool (act_all acts (act (locks closes) (act_all acts (start_with new_delta_coalescer)))))
      (pool (act (locks closes) (act_all acts (start_with new_delta_coalescer))))
close_coalescer-final_example = close_coalescer-final acts acts
