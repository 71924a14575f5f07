-- ===== src/Journal/Record.antt =====
-- journal/record.go: one entry of a journal, and the encoding of entries as lines, which is a
-- parameter (`encoding/json` applied to the struct).
use durable_acp.Prelude.{ℕ, ℤ, String, Bool, ◌≡◌, ◌≢◌, Option, some, List, [], ◌∷◌, ◌++◌}

abbrev pub Bytes : Type 0
Bytes = List ℕ

abbrev pub newline : ℕ
newline = 10

pub record Presentation : Type 0 where
  pub surfaces : List String
  pub label : String
  pub detail : String
  pub attention : Bool

-- A timestamp counts from Go's zero time, so 0 is `time.Time{}`. `data` is raw JSON.
pub record Record : Type 0 where
  pub schema : String
  pub schema_version : ℤ
  pub event_version : ℤ
  pub event_id : String
  pub source_event_id : String
  pub sequence : ℕ
  pub timestamp : ℕ
  pub session_id : String
  pub conversation : String
  pub event : String
  pub turn_id : String
  pub data_raw : Bytes
  pub presentation : Option Presentation

-- `json.Marshal` of a record and `json.Unmarshal` of a line into one; `compact` is what `json.Marshal`
-- makes of the raw JSON that a record carries.
pub record Codec : Type 0 where
  pub compact : Bytes → Bytes
  pub marshal : Record → Option Bytes
  pub unmarshal : Bytes → Option Record

-- The record `b` is `a` as it is read back: all the same, with the raw JSON compacted.
pub record SameRecord (compact : Bytes → Bytes) (a b : Record) : Type 0 where
  pub schema : a.schema ≡ b.schema
  pub schema_version : a.schema_version ≡ b.schema_version
  pub event_version : a.event_version ≡ b.event_version
  pub event_id : a.event_id ≡ b.event_id
  pub source_event_id : a.source_event_id ≡ b.source_event_id
  pub sequence : a.sequence ≡ b.sequence
  pub timestamp : a.timestamp ≡ b.timestamp
  pub session_id : a.session_id ≡ b.session_id
  pub conversation : a.conversation ≡ b.conversation
  pub event : a.event ≡ b.event
  pub turn_id : a.turn_id ≡ b.turn_id
  pub data_raw : b.data_raw ≡ compact a.data_raw
  pub presentation : a.presentation ≡ b.presentation

-- No byte of a text is `b`.
abbrev pub Lacks : ℕ → Bytes → Type 0
Lacks b [] = Unit {0}
Lacks b (c ∷ cs) = (c ≢ b) × Lacks b cs

-- What the journal relies on: an encoded record has no line break, for JSON escapes those in texts
-- and the encoder adds none; and the encoded line, with a line break behind it, is read back as
-- the record that was written, its raw JSON compacted.
pub record IsCodec (c : Codec) : Type 0 where
  pub one_line : (r : Record) (line : Bytes) → c.marshal r ≡ some line → Lacks newline line
  pub reads_back :
      (r : Record) (line : Bytes)
      → c.marshal r ≡ some line
      → (r' : Record) × (c.unmarshal (line ++ newline ∷ []) ≡ some r') × SameRecord c.compact r r'
