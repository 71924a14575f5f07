-- ===== src/Journal/File.antt =====
-- journal/store.go, the journal of one session as a file: the repair of a torn tail and the reader.
-- A file is its list of bytes.
pub mod Repair
pub mod Ring
pub mod Reader
pub mod Lines
pub mod Contents
use durable_acp.Prelude.{
  ℕ, zero, suc, ◌+◌, ◌-◌, ◌%◌, String, Bool, true, false, ◌&&◌, ◌||◌, not, Option, none, some, List,
  [], ◌∷◌, ◌++◌, length, take, drop, set, get_elem?, ltb, leb, ◌==◌, str_eq, is_pos, if◌then◌else◌,
  Result, ok, err, ◌>>=◌, ◌>>◌, fail_if, or_error,
}
use durable_acp.Journal.Record.{Bytes, newline, Record, Codec}

-- What the operating system refuses while a tail is repaired. A read fails by its offset.
pub record RepairFaults : Type 0 where
  pub stat_fails : Bool
  pub read_at_fails : ℕ → Bool
  pub truncate_fails : Bool
  pub sync_fails : Bool

pub data RepairError : Type 0 where
  stat_failed read_failed truncate_failed sync_failed out_of_fuel : RepairError

-- `bytes.LastIndexByte`.
unfoldable pub last_index_byte : ℕ → Bytes → Option ℕ
last_index_byte b [] = none
last_index_byte b (c ∷ cs) = elim (last_index_byte b cs) [
  | some i ↦ some (suc i)
  | none ↦ if c == b then some 0 else none
]

abbrev pub buffer_size : ℕ
buffer_size = 32768

-- The loop of `repairTornTail`: windows of `chunk` bytes are searched backwards from `end`, and the
-- answer is `truncateAt`. The fuel bounds the rounds.
unfoldable pub find_truncation : (ℕ → Bool) → ℕ → ℕ → Bytes → ℕ → Result RepairError ℕ
unfolding last_index_byte
find_truncation bad chunk zero content end = err out_of_fuel
find_truncation bad chunk (suc fuel) content end =
    let start = end - chunk in
    let window = take (end - start) (drop start content) in
    let rest = find_truncation bad chunk fuel content start in
    if end == 0
    then ok 0
    else if bad start
    then err read_failed
    else elim (last_index_byte newline window) [ some index ↦ ok (start + index + 1) | none ↦ rest ]

-- `repairTornTail`, with the content that the file has afterwards. `file.Truncate` cuts it, and a
-- failing `Sync` comes after the cut.
unfoldable pub repair_with : ℕ → RepairFaults → Bytes → Result RepairError (Unit {0}) × Bytes
repair_with chunk io content =
    let end = length content in
    if io.stat_fails
    then (err stat_failed, content)
    else if end == 0
    then (ok tt, content)
    else if io.read_at_fails (end - 1)
    then (err read_failed, content)
    else elim (get_elem? content (end - 1)) [
      | none ↦ (err read_failed, content)
      | some last ↦
          if last == newline
          then (ok tt, content)
          else elim (find_truncation io.read_at_fails chunk (suc end) content end) [
            | err e ↦ (err e, content)
            | ok at ↦
                if io.truncate_fails
                then (err truncate_failed, content)
                else (if io.sync_fails then err sync_failed else ok tt, take at content)
          ]
    ]

unfoldable pub repair_torn_tail : RepairFaults → Bytes → Result RepairError (Unit {0}) × Bytes
unfolding repair_with
repair_torn_tail = repair_with buffer_size

-- The lines that `reader.ReadBytes('\n')` returns one after the other, each with its line break, and
-- what follows the last line break.
abbrev pub onto_first : ℕ → List Bytes × Bytes → List Bytes × Bytes
onto_first b ([], rest) = ([], b ∷ rest)
onto_first b (l ∷ ls, rest) = ((b ∷ l) ∷ ls, rest)

unfoldable pub split_lines : Bytes → List Bytes × Bytes
split_lines [] = ([], [])
split_lines (b ∷ bs) =
    let (ls, rest) = split_lines bs in
    if b == newline then ((b ∷ []) ∷ ls, rest) else onto_first b (ls, rest)

pub data ReadError : Type 0 where
  not_opened broken_read : ReadError
  decode unsupported_schema collision non_monotonic : ℕ → ReadError

-- What a reader asks for.
pub record Query : Type 0 where
  pub schema : String
  pub session_id : String
  pub after : ℕ
  pub through : ℕ
  pub tail : ℕ

-- The variables of the loop of `readJournal`.
pub record Scan : Type 0 where
  pub out : List Record
  pub tail_start : ℕ
  pub last_sequence : ℕ
  pub has_last_sequence : Bool
  pub line_number : ℕ

abbrev pub scan_start : Scan
scan_start = record {
  out = [];
  tail_start = 0;
  last_sequence = 0;
  has_last_sequence = false;
  line_number = 0;
}

-- The record is after the exclusive cursor and up to the inclusive one; 0 leaves that side open.
unfoldable pub in_range : Query → Record → Bool
in_range q r = ltb q.after r.sequence && (q.through == 0 || leb r.sequence q.through)

-- A record that is in range goes to the end, or over the oldest of the last `tail` ones.
unfoldable pub keep : ℕ → Record → Scan → Scan
keep tail r s =
    if ltb 0 tail && length s.out == tail
    then record s { out = set s.out s.tail_start r; tail_start = (s.tail_start + 1) % tail }
    else record s { out = s.out ++ r ∷ [] }

-- The records from the oldest kept one on.
unfoldable pub in_order : Scan → List Record
in_order s =
    if ltb 0 s.tail_start then drop s.tail_start s.out ++ take s.tail_start s.out else s.out

-- The checks of a decoded record on a line, `last` being the sequence before it if there is one.
unfoldable pub check_record : String → String → ℕ → Bool → ℕ → Record → Result ReadError (Unit {0})
check_record schema session_id line has_last last r = do
  fail_if (not (str_eq r.schema schema && is_pos r.schema_version 1)) (unsupported_schema line)
  fail_if (not (str_eq r.session_id session_id)) (collision line)
  fail_if (has_last && leb r.sequence last) (non_monotonic line)

module _ (codec : Codec) (q : Query) where
  -- One round of the loop, on a line that is not empty.
  unfoldable pub scan_line : Scan → Bytes → Result ReadError Scan
  scan_line s line = do
    let number = s.line_number + 1
    r ← or_error (codec.unmarshal line) (decode number)
    check_record q.schema q.session_id number s.has_last_sequence s.last_sequence r
    let seen = record s {
      last_sequence = r.sequence;
      has_last_sequence = true;
      line_number = number;
    }
    ok (if in_range q r then keep q.tail r seen else seen)

  unfoldable pub scan_lines : List Bytes → Scan → Result ReadError Scan
  scan_lines [] s = ok s
  scan_lines (line ∷ lines) s = do s' ← scan_line s line; scan_lines lines s'

  -- The end of the loop at the end of the file, where an unfinished line is dropped, and at a read
  -- error, where it is decoded like any other and the error is returned behind it.
  unfoldable pub finish_scan : Bool → Bytes → Scan → Result ReadError (List Record)
  finish_scan false rest s = ok (in_order s)
  finish_scan true [] s = err broken_read
  finish_scan true (b ∷ bs) s = scan_line s (b ∷ bs) >>= λ _. err broken_read

-- What the operating system refuses while a journal is read: to open it, or to read past a number of
-- bytes.
pub record ReadFaults : Type 0 where
  pub open_fails : Bool
  pub broken_after : Option ℕ

abbrev pub readable : ReadFaults → Bytes → Bytes
readable io content = elim io.broken_after [ none ↦ content | some n ↦ take n content ]

abbrev pub is_broken : ReadFaults → Bool
is_broken io = elim io.broken_after [ none ↦ false | some n ↦ true ]

-- `readJournal`; a file that is not there cannot be opened.
unfoldable pub read_journal :
    Codec → ReadFaults → Query → Option Bytes → Result ReadError (List Record)
read_journal codec io q none = err not_opened
read_journal codec io q (some content) =
    if io.open_fails
    then err not_opened
    else (let (lines, rest) = split_lines (readable io content) in
        do s ← scan_lines codec q lines scan_start; finish_scan codec q (is_broken io) rest s)
