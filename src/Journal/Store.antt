-- ===== src/Journal/Store.antt =====
-- journal/store.go: the store of journals, its open writers and the files below them.
pub mod Opening
pub mod Persisting
pub mod Soundness
pub mod Appending
pub mod Histories
pub mod Reading
use Prim.Native.Char.{Char, code}
use durable_acp.Prelude.{
  ℕ, zero, suc, ◌+◌, ◌%◌, ◌^◌, String, Bool, true, false, ◌&&◌, ◌||◌, not, Option, none, some, List,
  [], ◌∷◌, ◌++◌, map, take, get_last?, ltb, leb, ◌==◌, str_eq, is_empty, trim_space, ℤ, pos, negsuc,
  is_pos, if◌then◌else◌, Result, ok, err, ◌>>=◌, ◌>>◌, map_ok, fail_if, Map, lookup, insert, erase,
}
use durable_acp.Journal.Record.{Bytes, newline, Record, Codec}
use durable_acp.Journal.Paths.{path}
use durable_acp.Journal.Envelope.{
  JournalError, open_failed, chmod_failed, replay_failed, encode_failed, repair_failed, read_failed,
  append_failed, session_required, after_exceeds_through, sync_failed, limit_not_positive, Config,
  Writer, prepare, reduce, replay, last_sequence,
}
use durable_acp.Journal.File.{
  RepairFaults, RepairError, repair_torn_tail, ReadFaults, ReadError, Query, read_journal,
}

-- The `Store` and the directory that it owns. A listener is a number, and `notified` lists the calls
-- of listeners in their order.
pub record Store : Type 0 where
  pub files : Map Bytes
  pub writers : Map Writer
  pub listeners : List ℕ
  pub notified : List (ℕ × Record)

-- What the operating system does to one call of `Append`. `write_stops` tells a write that fails, or
-- comes back short, after a number of bytes.
pub record Faults : Type 0 where
  pub open_fails : Bool
  pub chmod_fails : Bool
  pub repair : RepairFaults
  pub read : ReadFaults
  pub write_stops : Option ℕ
  pub sync_fails : Bool
  pub close_fails : Bool

abbrev pub content_of : Option Bytes → Bytes
content_of none = []
content_of (some content) = content

abbrev pub everything : Config → String → Query
everything config session_id = record {
  schema = config.schema_id;
  session_id = session_id;
  after = 0;
  through = 0;
  tail = 0;
}

module _ (codec : Codec) (config : Config) where
  -- `writerLocked` for a session without a writer: the file is made if it is not there, its torn tail
  -- is cut, and its records are read and replayed.
  unfoldable pub open_writer : String → Faults → Store → Result JournalError Writer × Store
  open_writer session_id io s =
      let name = path session_id in
      let content = content_of (lookup name s.files) in
      let created = record s { files = insert name content s.files } in
      let (repaired, content') = repair_torn_tail io.repair content in
      let s' = record s { files = insert name content' s.files } in
      let read = read_journal codec io.read (everything config session_id) (some content') in
      if io.open_fails
      then (err open_failed, s)
      else if io.chmod_fails
      then (err chmod_failed, created)
      else elim repaired [
        | err e ↦ (err (repair_failed e), s')
        | ok _ ↦ elim read [
          | err e ↦ (err (read_failed e), s')
          | ok events ↦ elim (replay config.reducer none events) [
            | none ↦ (err replay_failed, s')
            | some state ↦
                let w : Writer = record { seq = last_sequence events; state = state } in
                (ok w, record s' { writers = insert session_id w s'.writers })
          ]
        ]
      ]

  -- `writerLocked`.
  unfoldable pub writer_for : String → Faults → Store → Result JournalError Writer × Store
  writer_for session_id io s = elim (lookup session_id s.writers) [
    | some w ↦ (ok w, s)
    | none ↦ open_writer session_id io s
  ]

  -- The write, the sync, and what follows them: the writer moves on, or is closed and dropped.
  unfoldable pub persist :
      Writer → Option Bytes → Record → Faults → Store → Result JournalError Record × Store
  persist w next_state r io s = elim (codec.marshal r) [
    | none ↦ (err encode_failed, s)
    | some encoded ↦
        let line = encoded ++ newline ∷ [] in
        let written : Bytes = elim io.write_stops [ none ↦ line | some n ↦ take n line ] in
        let name = path r.session_id in
        let files = insert name (content_of (lookup name s.files) ++ written) s.files in
        let broken = record s { files = files; writers = erase r.session_id s.writers } in
        elim io.write_stops [
          | some n ↦ (err (append_failed io.close_fails), broken)
          | none ↦ if io.sync_fails then (err (append_failed io.close_fails), broken) else (
            ok r,
            record s {
              files = files;
              writers =
                  insert r.session_id (record { seq = r.sequence; state = next_state }) s.writers;
              notified = s.notified ++ map (λ l. (l, r)) s.listeners;
            },
          )
        ]
  ]

  -- What `Append` does under the lock with the writer.
  unfoldable pub append_with : Record → Faults → Writer → Store → Result JournalError Record × Store
  append_with r io w s = elim (reduce config w r) [
    | err e ↦ (err e, s)
    | ok (state, r') ↦ persist w state r' io s
  ]

  unfoldable pub append : String → ℕ → Record → Faults → Store → Result JournalError Record × Store
  append fresh now record₀ io s = elim (prepare config fresh now record₀) [
    | err e ↦ (err e, s)
    | ok r ↦
        let (opened, s') = writer_for r.session_id io s in
        elim opened [ err e ↦ (err e, s') | ok w ↦ append_with r io w s' ]
  ]

  -- `syncSession` of a session with an open writer.
  unfoldable pub sync_session : String → Bool → Store → Result JournalError (Unit {0})
  sync_session session_id sync_fails s = elim (lookup session_id s.writers) [
    | none ↦ ok tt
    | some w ↦ fail_if sync_fails sync_failed
  ]

  unfoldable pub read_file : ReadFaults → Query → Store → Result JournalError (List Record)
  read_file io q s = elim (read_journal codec io q (lookup (path q.session_id) s.files)) [
    | ok rs ↦ ok rs
    | err e ↦ err (read_failed e)
  ]

  -- The unexported `read`.
  unfoldable pub read_range :
      String → ℕ → ℕ → ℕ → Bool → ReadFaults → Store → Result JournalError (List Record)
  unfolding read_file sync_session
  read_range session after through tail sync_fails io s = do
    let session_id = trim_space session
    fail_if (is_empty session_id) session_required
    fail_if (not (through == 0) && ltb through after) after_exceeds_through
    sync_session session_id sync_fails s
    let q = record (everything config session_id) { after = after; through = through; tail = tail }
    read_file io q s

  -- `Read`, `ReadAfter` and `Tail`; the limit of `Tail` is a Go `int`.
  unfoldable pub read :
      String → ℕ → ℕ → Bool → ReadFaults → Store → Result JournalError (List Record)
  unfolding read_range
  read session after through = read_range session after through 0

  unfoldable pub read_after :
      String → ℕ → Bool → ReadFaults → Store → Result JournalError (List Record)
  unfolding read
  read_after session after = read session after 0

  unfoldable pub tail : String → ℤ → Bool → ReadFaults → Store → Result JournalError (List Record)
  unfolding read_range
  tail session (pos zero) sync_fails io s = err limit_not_positive
  tail session (pos (suc n)) sync_fails io s = read_range session 0 0 (suc n) sync_fails io s
  tail session (negsuc n) sync_fails io s = err limit_not_positive

  -- `LastSequence`.
  unfoldable pub last_sequence_of : String → Bool → ReadFaults → Store → Result JournalError ℕ
  unfolding read_file sync_session last_sequence
  last_sequence_of session sync_fails io s = do
    let session_id = trim_space session
    fail_if (is_empty session_id) session_required
    sync_session session_id sync_fails s
    elim (lookup session_id s.writers) [
      | some w ↦ ok w.seq
      | none ↦
          map_ok last_sequence (read_file io (record (everything config session_id) { tail = 1 }) s)
    ]

-- `Subscribe` of a listener that is not nil.
unfoldable pub subscribe : ℕ → Store → Store
subscribe listener s = record s { listeners = s.listeners ++ listener ∷ [] }

-- `Close`: every writer's file is closed and no writer is left; the errors of the files that do not
-- close are joined.
unfoldable pub close : (String → Bool) → Store → List String × Store
close fails s = (failing s.writers, record s { writers = [] })
  where
    failing : Map Writer → List String
    failing [] = []
    failing ((k, w) ∷ ws) = if fails k then k ∷ failing ws else failing ws
