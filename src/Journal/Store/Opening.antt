-- ===== src/Journal/Store/Opening.antt =====
-- Opening a writer: what becomes of the files, and what the writer knows.
use durable_acp.Prelude.{
  String, ◌≡◌, refl, sym, ap, ◌∙◌, ◌≢◌, inl, inr, false, none, some, List, [], ◌∷◌, arith,
  Bool-cases, Option-cases, Result, Result-cases, ok, err, ok_injective, ok_ne_err, map_ok, Map,
  lookup, insert, lookup-insert, lookup-insert_self, eq_iff,
}
use durable_acp.Journal.Record.{Bytes, Record, Codec}
use durable_acp.Journal.File.{
  ReadFaults, RepairFaults, repair_torn_tail, split_lines, read_journal, in_range,
}
use durable_acp.Journal.File.Repair.{repair_torn_tail-Repaired}
use durable_acp.Journal.File.Ring.{last_n_of_le}
use durable_acp.Journal.File.Reader.{
  decode_all, filter_by, select, calm_read, read_journal_lem, read_journal_broken,
}
use durable_acp.Journal.File.Lines.{IsWhole, split_lines-complete}
use durable_acp.Journal.File.Contents.{IsHistory, end_of, end_of-filter, decode_all-IsHistory}
use durable_acp.Journal.Paths.{path}
use durable_acp.Journal.Envelope.{
  JournalError, open_failed, chmod_failed, repair_failed, read_failed, replay_failed, Config,
  Writer, replay, last_sequence,
}
use durable_acp.Journal.Store.{Store, Faults, content_of, everything, open_writer}

-- The bytes of a session's journal.
abbrev pub content : String → Store → Bytes
content session_id s = content_of (lookup (path session_id) s.files)

-- The records of a session's journal are `rs`.
abbrev pub Reads : Codec → Config → String → Bytes → List Record → Type 0
Reads codec config session_id bytes rs =
    decode_all codec config.schema_id session_id 0 false 0 (split_lines bytes).0 ≡ ok rs

last_sequence_cons : (r : Record) (rs : List Record) → last_sequence (r ∷ rs) ≡ end_of r.sequence rs
unfolding last_sequence end_of
last_sequence_cons r [] = refl
last_sequence_cons r (r' ∷ rs) = last_sequence_cons r' rs

pub last_sequence_lem : (rs : List Record) → last_sequence rs ≡ end_of 0 rs
unfolding end_of
last_sequence_lem [] = unfold last_sequence in refl
last_sequence_lem (r ∷ rs) = last_sequence_cons r rs

-- A read that succeeds met no fault.
read_calm :
    (codec : Codec) (config : Config) (session_id : String) (io : ReadFaults) (bytes : Bytes)
    (events : List Record)
    → read_journal codec io (everything config session_id) (some bytes) ≡ ok events
    → read_journal codec calm_read (everything config session_id) (some bytes) ≡ ok events
read_calm codec config session_id io bytes events h = elim (Option-cases io.broken_after) [
  | inl whole ↦ elim (Bool-cases io.open_fails) [
    | inl closed ↦ unfold read_journal in cc
    | inr opened ↦
        let same : io ≡ calm_read = λ i. record { open_fails = opened i; broken_after = whole i } in
        sym (
          ap (λ (c : ReadFaults). read_journal codec c (everything config session_id) (some bytes))
            same)
        ∙ h
  ]
  | inr (n, cut) ↦
      let (e, failed) = read_journal_broken codec io (everything config session_id) bytes n cut in
      cc
]

select-everything :
    (config : Config) (session_id : String) (rs : List Record)
    → select (everything config session_id) rs
      ≡ filter_by (in_range (everything config session_id)) rs
unfolding select
select-everything config session_id rs =
    last_n_of_le 0 (filter_by (in_range (everything config session_id)) rs)
      (λ p. absurd (omega arith))

-- What is read for a writer: the last sequence is the journal's.
read_for_writer :
    (codec : Codec) (config : Config) (session_id : String) (io : ReadFaults) (bytes : Bytes)
    (events : List Record)
    → read_journal codec io (everything config session_id) (some bytes) ≡ ok events
    → (rs : List Record) × Reads codec config session_id bytes rs
      × (last_sequence events ≡ end_of 0 rs)
read_for_writer codec config session_id io bytes events h =
    let q = everything config session_id in
    let calm =
      sym (read_journal_lem codec q bytes) ∙ read_calm codec config session_id io bytes events h in
    elim (Result-cases
      (decode_all codec config.schema_id session_id 0 false 0 (split_lines bytes).0)) [
        | inl (rs, decoded) ↦ (
          rs,
          decoded,
          selected rs (ok_injective (ap (map_ok (select q)) (sym decoded) ∙ calm))
              (decode_all-IsHistory codec config.schema_id session_id 0 false 0 _ rs decoded),
        )
        | inr (e, failed) ↦ absurd (ok_ne_err (sym calm ∙ ap (map_ok (select q)) failed))
      ]
  where
    selected :
        (rs : List Record)
        → select (everything config session_id) rs ≡ events
        → IsHistory config.schema_id session_id false 0 rs
        → last_sequence events ≡ end_of 0 rs
    selected rs e past =
        last_sequence_lem events
        ∙ ap (end_of 0) (sym e ∙ select-everything config session_id rs)
        ∙ end_of-filter config.schema_id session_id (everything config session_id) refl refl refl
            past

-- A change of one file that its lines survive.
pub record Keeps (name : String) (s s' : Store) : Type 0 where
  pub elsewhere : (n : String) → n ≢ name → lookup n s'.files ≡ lookup n s.files
  pub lines :
      (split_lines (content_of (lookup name s'.files))).0
      ≡ (split_lines (content_of (lookup name s.files))).0

pub Keeps-refl : (name : String) (s : Store) → Keeps name s s
Keeps-refl name s = record { elsewhere = λ n h. refl; lines = refl }

rewritten :
    (name : String) (bytes : Bytes) (s : Store)
    → (split_lines bytes).0 ≡ (split_lines (content_of (lookup name s.files))).0
    → Keeps name s (record s { files = insert name bytes s.files })
rewritten name bytes s h = record {
  elsewhere = λ n ne. lookup-insert name n bytes s.files ∙ ground (arith, eq_iff name n, ne);
  lines = rw (lookup-insert_self name bytes s.files) h;
}

-- What a writer that was just opened knows of its journal.
pub record Fresh (codec : Codec) (config : Config) (session_id : String) (s : Store) (w : Writer)
    : Type 0 where
  pub whole : IsWhole (content session_id s)
  pub records : List Record
  pub reads : Reads codec config session_id (content session_id s) records
  pub seq : w.seq ≡ end_of 0 records

-- The outcome of opening: an error and no new writer, or a writer that knows its journal.
pub data Opened (codec : Codec) (config : Config) (session_id : String) (s s' : Store)
    : Result JournalError Writer → Type 0 where
  refused :
      (e : JournalError) → s'.writers ≡ s.writers → Opened codec config session_id s s' (err e)
  opened :
      (w : Writer)
      → s'.writers ≡ insert session_id w s.writers
      → Fresh codec config session_id s' w
      → Opened codec config session_id s s' (ok w)

repair_lines :
    (io : RepairFaults) (bytes : Bytes)
    → (split_lines (repair_torn_tail io bytes).1).0 ≡ (split_lines bytes).0
repair_lines io bytes =
    let cut = ap (λ (p : List Bytes × Bytes). p.0) (split_lines-complete bytes) in
    elim (repair_torn_tail-Repaired io bytes) [
      | inl (_, e) ↦ rw e cut
      | inr (_, inl e, _) ↦ rw e refl
      | inr (_, inr e, _) ↦ rw e cut
    ]

repair-IsWhole :
    (io : RepairFaults) (bytes : Bytes)
    → (repair_torn_tail io bytes).0 ≡ ok tt
    → IsWhole (repair_torn_tail io bytes).1
repair-IsWhole io bytes h = elim (repair_torn_tail-Repaired io bytes) [
  | inl (_, e) ↦ rw e (ap (λ (p : List Bytes × Bytes). p.1) (split_lines-complete bytes))
  | inr ((e, failed), _, _) ↦ absurd (ok_ne_err (sym h ∙ failed))
]

module _ (codec : Codec) (config : Config) (session_id : String) (io : Faults) (s : Store) where
  abbrev name : String
  name = path session_id

  abbrev before : Bytes
  before = content session_id s

  abbrev after : Bytes
  after = (repair_torn_tail io.repair before).1

  -- The store with other bytes in the session's file, and other writers.
  abbrev with_file : Bytes → Map Writer → Store
  with_file bytes ws = record s { files = insert name bytes s.files; writers = ws }

  abbrev Outcome : Result JournalError Writer × Store → Type 0
  Outcome (r, s') = Keeps name s s' × Opened codec config session_id s s' r

  kept :
      (bytes : Bytes) (ws : Map Writer)
      → (split_lines bytes).0 ≡ (split_lines before).0
      → Keeps name s (with_file bytes ws)
  kept bytes ws h =
      let k = rewritten name bytes s h in record { elsewhere = k.elsewhere; lines = k.lines }

  fresh :
      (w : Writer) (events : List Record)
      → (repair_torn_tail io.repair before).0 ≡ ok tt
      → read_journal codec io.read (everything config session_id) (some after) ≡ ok events
      → w.seq ≡ last_sequence events
      → Fresh codec config session_id (with_file after (insert session_id w s.writers)) w
  fresh w events repaired read e =
      let here : content_of (lookup name (insert name after s.files)) ≡ after =
        ap content_of (lookup-insert_self name after s.files) in
      let (rs, reads, end) = read_for_writer codec config session_id io.read after events read in
      record {
        whole = rw here (repair-IsWhole io.repair before repaired);
        records = rs;
        reads = rw here reads;
        seq = e ∙ end;
      }

  -- Whatever fails, opening a writer leaves every other file alone and the lines of its own as they
  -- were; where it succeeds, the writer knows the last sequence of a file that ends in a line break.
  pub open_writer-Outcome : Outcome (open_writer codec config session_id io s)
  unfolding open_writer
  open_writer-Outcome =
      let cut = repair_lines io.repair before in
      elim (Bool-cases io.open_fails) [
        | inl h ↦ simp h (Keeps-refl name s, refused open_failed refl)
        | inr h ↦ elim (Bool-cases io.chmod_fails) [
          | inl h' ↦ simp (h, h') (kept before s.writers refl, refused chmod_failed refl)
          | inr h' ↦ elim (Result-cases (repair_torn_tail io.repair before).0) [
            | inr (e, bad) ↦
                simp (h, h', bad) (kept after s.writers cut, refused (repair_failed e) refl)
            | inl (_, fine) ↦
                elim (Result-cases
                  (read_journal codec io.read (everything config session_id) (some after))) [
                    | inr (e, bad) ↦
                        simp (h, h', fine, bad)
                          (kept after s.writers cut, refused (read_failed e) refl)
                    | inl (events, read) ↦ elim (Option-cases (replay config.reducer none events)) [
                      | inl bad ↦
                          simp (h, h', fine, read, bad)
                            (kept after s.writers cut, refused replay_failed refl)
                      | inr (state, good) ↦
                          let w : Writer = record { seq = last_sequence events; state = state } in
                          simp (h, h', fine, read, good)
                            (
                              kept after (insert session_id w s.writers) cut,
                              opened w refl (fresh w events fine read refl),
                            )
                    ]
                  ]
          ]
        ]
      ]
