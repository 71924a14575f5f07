-- ===== src/Journal/Envelope.antt =====
-- journal/store.go: what `Append` does to a record before it is written, the envelope's defaults and
-- the reducer.
pub mod Laws
use durable_acp.Prelude.{
  ℕ, zero, suc, ◌+◌, ◌%◌, ◌^◌, String, Bool, true, false, ◌||◌, not, Option, none, some, List, [],
  ◌∷◌, get_last?, ◌==◌, str_eq, is_empty, trim_space, ℤ, pos, is_pos, if◌then◌else◌, Result, ok,
  err, ◌>>=◌, ◌>>◌, map_ok, fail_if,
}
use durable_acp.Journal.Record.{Bytes, Record}
use durable_acp.Journal.File.{RepairError, ReadError}

pub data JournalError : Type 0 where
  session_and_event_required unsupported_schema unsupported_version : JournalError
  open_failed chmod_failed replay_failed reduce_failed : JournalError
  reducer_dropped reducer_changed_session encode_failed : JournalError
  repair_failed : RepairError → JournalError
  read_failed : ReadError → JournalError
  -- A failed write or sync, and whether closing the writer failed behind it.
  append_failed : Bool → JournalError
  session_required after_exceeds_through sync_failed limit_not_positive : JournalError

-- `Reducer`: the state that comes next and the record to persist, or an error.
abbrev pub Reducer : Type 0
Reducer = Option Bytes → Record → Option (Option Bytes × Record)

pub record Config : Type 0 where
  pub schema_id : String
  pub reducer : Option Reducer

-- The `writer`: the file is the one at the session's path.
pub record Writer : Type 0 where
  pub seq : ℕ
  pub state : Option Bytes

abbrev pub schema_version : ℤ
schema_version = pos 1

-- `cloneRawMessage`: appending to a nil slice leaves nil where there is nothing to append.
unfoldable pub clone_raw_message : Option Bytes → Option Bytes
clone_raw_message none = none
clone_raw_message (some []) = none
clone_raw_message (some (b ∷ bs)) = some (b ∷ bs)

unfoldable pub default_data : Bytes → Bytes
default_data [] = b'{' ∷ b'}' ∷ []
default_data (b ∷ bs) = b ∷ bs

-- The envelope defaults of `Append`, `fresh` and `now` being what `newID` and `now` return.
unfoldable pub prepare : Config → String → ℕ → Record → Result JournalError Record
prepare config fresh now record₀ = do
  let r = record record₀ {
    session_id = trim_space record₀.session_id;
    event = trim_space record₀.event;
  }
  fail_if (is_empty r.session_id || is_empty r.event) session_and_event_required
  let schema = if is_empty r.schema then config.schema_id else r.schema
  fail_if (not (str_eq schema config.schema_id)) unsupported_schema
  let version = if is_pos r.schema_version 0 then schema_version else r.schema_version
  fail_if (not (is_pos version 1)) unsupported_version
  ok (record r {
    schema = schema;
    schema_version = version;
    event_version = if is_pos r.event_version 0 then pos 1 else r.event_version;
    event_id = if is_empty r.event_id then fresh else r.event_id;
    timestamp = if r.timestamp == 0 then now else r.timestamp;
    data_raw = default_data r.data_raw;
  })

-- `writer.seq + 1` in uint64.
unfoldable pub next_sequence : Writer → ℕ
next_sequence w = (w.seq + 1) % 2 ^ 64

-- What `Append` does to the record that a reducer returned: the envelope is the store's, the session
-- must be the same.
unfoldable pub seal_reduced : Config → Writer → Record → Record → Result JournalError Record
seal_reduced config w expected normalized = do
  let r = record normalized {
    schema = config.schema_id;
    schema_version = schema_version;
    event_version = expected.event_version;
    event_id = expected.event_id;
    source_event_id = expected.source_event_id;
    sequence = next_sequence w;
    timestamp = expected.timestamp;
    session_id = trim_space normalized.session_id;
    event = trim_space normalized.event;
  }
  fail_if (is_empty r.session_id || is_empty r.event) reducer_dropped
  fail_if (not (str_eq r.session_id expected.session_id)) reducer_changed_session
  ok (record r { data_raw = default_data r.data_raw })

-- The next state and the record to persist.
unfoldable pub reduce : Config → Writer → Record → Result JournalError (Option Bytes × Record)
reduce config w record₀ =
    let expected = record record₀ { sequence = next_sequence w } in
    elim config.reducer [
      | none ↦ ok (w.state, expected)
      | some reducer ↦ elim (reducer w.state expected) [
        | none ↦ err reduce_failed
        | some (state, normalized) ↦
            map_ok (λ r. (clone_raw_message state, r)) (seal_reduced config w expected normalized)
      ]
    ]

-- The reducer's state after the records of a journal, from the state before them.
unfoldable pub replay : Option Reducer → Option Bytes → List Record → Option (Option Bytes)
replay none state rs = some state
replay (some reducer) state [] = some state
replay (some reducer) state (r ∷ rs) = elim (reducer state r) [
  | none ↦ none
  | some (state', _) ↦ replay (some reducer) (clone_raw_message state') rs
]

unfoldable pub last_sequence : List Record → ℕ
last_sequence rs = elim (get_last? rs) [ some r ↦ r.sequence | none ↦ 0 ]
