-- ===== src/Journal/Store/Persisting.antt =====
-- Writing a record's line: what becomes of the session's file when the write or the sync fails.
use durable_acp.Prelude.{
  ℕ, ◌+◌, ◌≤◌, String, ◌≡◌, refl, sym, ap, ◌∙◌, ◌≢◌, inl, inr, Bool, false, Option, some, List, [],
  ◌∷◌, ◌++◌, map, arith, length, length-append, take, take_of_length_le, Bool-cases, Option-cases,
  Result, ok, err, Map, lookup, insert, erase, lookup-insert, lookup-insert_self, eq_iff, leb, pos,
}
use durable_acp.Journal.Record.{Bytes, newline, Record, Codec, IsCodec, SameRecord}
use durable_acp.Journal.File.{split_lines}
use durable_acp.Journal.File.Lines.{IsWhole, split_lines-append_line, split_lines-append_partial}
use durable_acp.Journal.File.Contents.{end_of, decode_all-concat}
use durable_acp.Journal.Paths.{path}
use durable_acp.Journal.Envelope.{JournalError, encode_failed, append_failed, Config, Writer}
use durable_acp.Journal.Store.{Store, Faults, content_of, persist}
use durable_acp.Journal.Store.Opening.{content, Reads, Keeps, Fresh}

-- The journal of `r`'s session was `records` and has grown by `r`, as it is read back.
pub record Grown (codec : Codec) (config : Config) (s s' : Store) (r : Record) : Type 0 where
  pub elsewhere : (n : String) → n ≢ path r.session_id → lookup n s'.files ≡ lookup n s.files
  pub whole : IsWhole (content r.session_id s')
  pub records : List Record
  pub stored : Record
  pub reads_before : Reads codec config r.session_id (content r.session_id s) records
  pub reads_after :
      Reads codec config r.session_id (content r.session_id s') (records ++ stored ∷ [])
  pub same : SameRecord codec.compact r stored
  pub follows : r.sequence ≡ end_of 0 records + 1

-- The outcome of persisting `r`: it is stored and acknowledged; or nothing was written; or a call
-- failed, the writer is gone, and the journal either reads as before or holds the record after all.
pub data Persisted (codec : Codec) (config : Config) (s s' : Store) (state : Option Bytes)
    (r : Record) : Result JournalError Record → Type 0 where
  stored :
      Grown codec config s s' r
      → s'.writers ≡ insert r.session_id (record { seq = r.sequence; state = state }) s.writers
      → s'.notified ≡ s.notified ++ map (λ l. (l, r)) s.listeners
      → Persisted codec config s s' state r (ok r)
  not_encoded : s' ≡ s → Persisted codec config s s' state r (err encode_failed)
  torn :
      (b : Bool)
      → Keeps (path r.session_id) s s'
      → s'.writers ≡ erase r.session_id s.writers
      → s'.notified ≡ s.notified
      → Persisted codec config s s' state r (err (append_failed b))
  unacknowledged :
      (b : Bool)
      → Grown codec config s s' r
      → s'.writers ≡ erase r.session_id s.writers
      → s'.notified ≡ s.notified
      → Persisted codec config s s' state r (err (append_failed b))

module _ (codec : Codec) (laws : IsCodec codec) (config : Config) (w : Writer)
    (state : Option Bytes) (r : Record) (io : Faults) (s : Store)
    (fresh : Fresh codec config r.session_id s w) (schema : r.schema ≡ config.schema_id)
    (version : r.schema_version ≡ pos 1) (seq : r.sequence ≡ w.seq + 1) where
  abbrev before : Bytes
  before = content r.session_id s

  abbrev rewrite_with : Bytes → Map Writer → List (ℕ × Record) → Store
  rewrite_with bytes ws calls = record s {
    files = insert (path r.session_id) bytes s.files;
    writers = ws;
    notified = calls;
  }

  here :
      (bytes : Bytes)
      → content_of (lookup (path r.session_id) (insert (path r.session_id) bytes s.files)) ≡ bytes
  here bytes = ap content_of (lookup-insert_self (path r.session_id) bytes s.files)

  others :
      (bytes : Bytes) (n : String)
      → n ≢ path r.session_id
      → lookup n (insert (path r.session_id) bytes s.files) ≡ lookup n s.files
  others bytes n h =
      lookup-insert (path r.session_id) n bytes s.files
      ∙ ground (arith, eq_iff (path r.session_id) n, h)

  grown :
      (encoded : Bytes) (ws : Map Writer) (calls : List (ℕ × Record))
      → codec.marshal r ≡ some encoded
      → Grown codec config s (rewrite_with (before ++ (encoded ++ newline ∷ [])) ws calls) r
  grown encoded ws calls m =
      let bytes = before ++ (encoded ++ newline ∷ []) in
      let split = split_lines-append_line before encoded fresh.whole (laws.one_line r encoded m) in
      let (r', decoded, same) = laws.reads_back r encoded m in
      let past : r.sequence ≡ end_of 0 fresh.records + 1 = omega (arith, fresh.seq, seq) in
      record {
        elsewhere = others bytes;
        whole = rw (here bytes) (ap (λ (p : List Bytes × Bytes). p.1) split);
        records = fresh.records;
        stored = r';
        reads_before = fresh.reads;
        reads_after = rw (here bytes) (
            rw split (
              decode_all-concat codec config.schema_id r.session_id 0 false 0 (split_lines before).0
                fresh.records (encoded ++ newline ∷ []) r' fresh.reads decoded
                (record {
                  same_schema = sym same.schema ∙ schema;
                  version_one = sym same.schema_version ∙ version;
                  same_session = sym same.session_id;
                  later = λ _. omega (arith, past, same.sequence);
                })));
        same = same;
        follows = past;
      }

  -- A write of the first `n` bytes of the line: a part of it, or all of it.
  partly :
      (encoded : Bytes) (n : ℕ) (ws : Map Writer)
      → codec.marshal r ≡ some encoded
      → n ≤ length encoded
      → Keeps
          (path r.session_id)
          s
          (rewrite_with (before ++ take n (encoded ++ newline ∷ [])) ws s.notified)
  partly encoded n ws m h =
      let bytes = before ++ take n (encoded ++ newline ∷ []) in
      record {
        elsewhere = others bytes;
        lines =
            rw (here bytes) (
              split_lines-append_partial before encoded n fresh.whole (laws.one_line r encoded m)
                h);
      }

  stopped :
      (encoded : Bytes) (n : ℕ)
      → codec.marshal r ≡ some encoded
      → Persisted codec config s
          (rewrite_with
            (before ++ take n (encoded ++ newline ∷ []))
            (erase r.session_id s.writers)
            s.notified)
          state
          r
          (err (append_failed io.close_fails))
  stopped encoded n m = elim (Bool-cases (leb n (length encoded))) [
    | inl h ↦
        torn io.close_fails (partly encoded n (erase r.session_id s.writers) m (ground arith)) refl
          refl
    | inr h ↦
        let all : take n (encoded ++ newline ∷ []) ≡ encoded ++ newline ∷ [] =
          take_of_length_le n (encoded ++ newline ∷ [])
            (ground (arith, length-append encoded (newline ∷ []))) in
        rw all (
          unacknowledged io.close_fails (grown encoded (erase r.session_id s.writers) s.notified m)
            refl refl)
  ]

  abbrev pub Outcome : Result JournalError Record × Store → Type 0
  Outcome (res, s') = Persisted codec config s s' state r res

  -- Whatever the operating system does to the write, persisting has one of the four outcomes.
  pub persist-Persisted : Outcome (persist codec config w state r io s)
  unfolding persist
  persist-Persisted = elim (Option-cases (codec.marshal r)) [
    | inl m ↦ simp (persist, m) (not_encoded refl)
    | inr (encoded, m) ↦ elim (Option-cases io.write_stops) [
      | inr (n, part) ↦ simp (persist, m, part) (stopped encoded n m)
      | inl full ↦ elim (Bool-cases io.sync_fails) [
        | inl bad ↦
            simp (persist, m, full, bad)
              (unacknowledged io.close_fails
                (grown encoded (erase r.session_id s.writers) s.notified m) refl refl)
        | inr good ↦ simp (persist, m, full, good) (stored (grown encoded _ _ m) refl refl)
      ]
    ]
  ]
