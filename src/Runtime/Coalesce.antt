-- ===== src/Runtime/Coalesce.antt =====
-- runtime/coalesce.go: the machine that gathers an assistant's deltas into snapshots of the whole
-- message, each of which replaces the one before it. A call returns the events that it delivers.
pub mod Snapshots
pub mod Streaming
pub mod Calls
pub mod Emission
pub mod Delivered
use Prim.Native.Char.{code}
use Prim.Native.String.{◌++◌ as ◌⧺◌}
use durable_acp.Prelude.{
  ℕ, zero, suc, ◌+◌, ◌/◌, ◌%◌, String, Bool, true, false, ◌&&◌, ◌||◌, not, Option, none, some, List,
  [], ◌∷◌, ◌++◌, ltb, ◌==◌, str_eq, is_empty, if◌then◌else◌, lookup, Map,
}
use durable_acp.Host.{
  Event, Value, text, flag, strings, request, response, opaque_value, event_message, event_thinking,
}

-- Go's `len` of a text: its bytes in UTF-8.
unfoldable pub char_bytes : ℕ → ℕ
char_bytes c = if ltb c 0x80 then 1 else if ltb c 0x800 then 2 else if ltb c 0x10000 then 3 else 4

unfoldable pub byte_length : String → ℕ
byte_length String.[] = 0
byte_length (String.◌∷◌ c s) = char_bytes (code c) + byte_length s

-- `%d` of a number, with as much fuel as the number needs at most.
unfoldable pub digit : ℕ → String
digit n =
    if n == 0
    then "0"
    else if n == 1
    then "1"
    else if n == 2
    then "2"
    else if n == 3
    then "3"
    else if n == 4
    then "4"
    else if n == 5
    then "5"
    else if n == 6
    then "6"
    else if n == 7
    then "7"
    else if n == 8
    then "8"
    else "9"

unfoldable pub decimal_with : ℕ → ℕ → String
unfolding digit
decimal_with zero n = digit (n % 10)
decimal_with (suc fuel) n =
    let front = decimal_with fuel (n / 10) in if ltb n 10 then digit n else front ⧺ digit (n % 10)

unfoldable pub decimal : ℕ → String
unfolding decimal_with
decimal n = decimal_with n n

-- `timer` tells whether a timer is set.
pub record Coalescer : Type 0 where
  pub turn_id : String
  pub stream_type : String
  pub message : ℕ
  pub pending : Option Event
  pub flushed : ℕ
  pub timer : Bool
  pub closed : Bool

unfoldable pub text_field : String → Map Value → String
text_field key fields = elim (lookup key fields) [
  | none ↦ ""
  | some (text t) ↦ t
  | some (flag b) ↦ ""
  | some (strings m) ↦ ""
  | some (request r) ↦ ""
  | some (response r) ↦ ""
  | some (opaque_value n) ↦ ""
]

unfoldable pub is_assistant : Event → Bool
is_assistant e =
    (str_eq e.event_type event_message || str_eq e.event_type event_thinking)
    && not (str_eq e.role "user")

unfoldable pub is_assistant_delta : Event → Bool
unfolding is_assistant text_field
is_assistant_delta e = is_assistant e && not (is_empty (text_field "delta" e.fields))

unfoldable pub is_assistant_snapshot : Event → Bool
unfolding is_assistant text_field
is_assistant_snapshot e = is_assistant e && is_empty (text_field "delta" e.fields)

unfoldable pub stream_source_id : String → String → ℕ → String
unfolding decimal
stream_source_id session_id turn_id index =
    session_id ⧺ ":turn:" ⧺ (if is_empty turn_id then "-" else turn_id) ⧺ ":msg:" ⧺ decimal index

unfoldable pub stream_data : Event → Map Value
unfolding text_field
stream_data e =
    let id = text_field "provider_event_id" e.fields in
    if is_empty id
    then ("streaming", flag true) ∷ []
    else ("streaming", flag true) ∷ ("provider_event_id", text id) ∷ []

-- `newDeltaCoalescer`, whose interval and receiver are the caller's.
unfoldable pub new_delta_coalescer : Coalescer
new_delta_coalescer = record {
  turn_id = "";
  stream_type = "";
  message = 0;
  pending = none;
  flushed = 0;
  timer = false;
  closed = false;
}

-- `flushLocked`.
unfoldable pub flush : Coalescer → List Event × Coalescer
flush c = elim c.pending [
  | none ↦ ([], c)
  | some p ↦
      if byte_length p.message == c.flushed
      then ([], c)
      else (record p { fields = stream_data p } ∷ [], record c { flushed = byte_length p.message })
]

-- `clearLocked`.
unfoldable pub clear : Coalescer → Coalescer
clear c = record c { pending = none; flushed = 0; turn_id = ""; stream_type = ""; timer = false }

-- A delta that begins a stream: what is pending is delivered first.
unfoldable pub begin_stream : Event → Coalescer → Coalescer
unfolding clear
begin_stream e c =
    let cleared = clear c in
    let index = cleared.message + 1 in
    record cleared {
      message = index;
      pending = some (record e {
        source_event_id = stream_source_id e.session_id e.backend_turn_id index;
        fields = stream_data e;
      });
      turn_id = e.backend_turn_id;
      stream_type = e.event_type;
      flushed = 0;
    }

unfoldable pub start_stream : Event → Coalescer → List Event × Coalescer
start_stream e c =
    let (before, c') = flush c in
    let (after, c'') = flush (begin_stream e c') in (before ++ after, c'')

-- A delta of the stream that is pending, behind which the timer is set.
unfoldable pub join_stream : Event → Event → Coalescer → List Event × Coalescer
join_stream p e c = (
  [],
  record c {
    pending = some (record p { message = p.message ⧺ e.message; time = e.time });
    timer = true;
  },
)

-- The final text of the stream that is pending.
unfoldable pub finish_stream : Event → Event → Coalescer → List Event × Coalescer
finish_stream p e c =
    let final =
      if ltb (byte_length e.message) (byte_length p.message) then p.message else e.message in
    (record e { message = final; seq = p.seq; source_event_id = p.source_event_id } ∷ [], clear c)

unfoldable pub pass_on : Event → Coalescer → List Event × Coalescer
pass_on e c = let (before, c') = flush c in (before ++ e ∷ [], clear c')

unfoldable pub in_stream : Event → Coalescer → Bool
in_stream e c = str_eq c.turn_id e.backend_turn_id && str_eq c.stream_type e.event_type

-- `Handle` under the lock: the events that it emits once the lock is released, and the coalescer.
unfoldable pub handle : Event → Coalescer → List Event × Coalescer
handle e c =
    if c.closed
    then ([], c)
    else if is_assistant_delta e
    then elim c.pending [
      | none ↦ start_stream e c
      | some p ↦ if in_stream e c then join_stream p e c else start_stream e c
    ]
    else elim c.pending [
      | none ↦ pass_on e c
      | some p ↦
          if is_assistant_snapshot e && in_stream e c then finish_stream p e c else pass_on e c
    ]

-- `Close` under the lock, and the events that it emits once the lock is released.
unfoldable pub close_coalescer : Coalescer → List Event × Coalescer
close_coalescer c =
    if c.closed
    then ([], c)
    else (let (last, c') = flush c in (last, clear (record c' { closed = true })))

-- The timer's function under the lock, and the event that it emits once the lock is released. It may also
-- run when the timer has been stopped too late.
unfoldable pub fire : Coalescer → List Event × Coalescer
fire c = let idle = record c { timer = false } in if c.closed then ([], idle) else flush idle
