-- ===== src/Journal/Store/Reading.antt =====
-- What the readers of a store return.
use durable_acp.Prelude.{
  ℕ, suc, ◌+◌, String, ◌≡◌, refl, sym, ap, ◌∙◌, inl, inr, ◌≢◌, false, ◌&&◌, not, Option, some, List,
  [], ◌∷◌, ◌++◌, arith, Option-cases, Result, Result-cases, ok, ok_injective, ok_ne_err, map_ok,
  lookup, is_empty, trim_space, pos, ◌==◌, ltb, subst,
}
use durable_acp.Journal.Record.{Bytes, Record, Codec, IsCodec, SameRecord}
use durable_acp.Journal.Paths.{path, IsSafe}
use durable_acp.Journal.File.{Query, split_lines, read_journal, in_range}
use durable_acp.Journal.File.Ring.{last_n, last_n_of_le}
use durable_acp.Journal.File.Reader.{decode_all, select, filter_by, calm_read, read_journal_lem}
use durable_acp.Journal.Envelope.{JournalError, Config, prepare}
use durable_acp.Journal.Envelope.Laws.{prepare-IsPrepared}
use durable_acp.Journal.File.Contents.{end_of}
use durable_acp.Journal.Store.{
  Store, Faults, content_of, everything, append, sync_session, read_file, read_range, read, tail,
}
use durable_acp.Journal.Store.Opening.{content, Reads}
use durable_acp.Journal.Store.Persisting.{Grown}
use durable_acp.Journal.Store.Soundness.{IsSound, Appended, acknowledged, rejected, late}
use durable_acp.Journal.Store.Appending.{HasRoom, append-Outcome}

no_lines : (codec : Codec) (config : Config) (id : String) → Reads codec config id [] []
unfolding decode_all split_lines
no_lines codec config id = refl

module _ (codec : Codec) (config : Config) where
  sync_calm : (id : String) (s : Store) → sync_session codec config id false s ≡ ok tt
  unfolding sync_session
  sync_calm id s = elim (Option-cases (lookup id s.writers)) [
    | inl closed ↦ simp (sync_session, closed) refl
    | inr (w, open_writer) ↦ simp (sync_session, open_writer) refl
  ]

  read_file_calm :
      (q : Query) (s : Store) (rs : List Record)
      → read_journal codec calm_read q (lookup (path q.session_id) s.files) ≡ ok rs
      → read_file codec config calm_read q s ≡ ok rs
  unfolding read_file
  read_file_calm q s rs h = rw (h, read_file) refl

  -- A read of a session that has a file, when no call fails, selects among the decoded records.
  pub read_range_lem :
      (session : String) (after through limit : ℕ) (s : Store) (bytes : Bytes) (rs : List Record)
      → is_empty (trim_space session) ≡ false
      → (not (through == 0) && ltb through after) ≡ false
      → lookup (path (trim_space session)) s.files ≡ some bytes
      → Reads codec config (trim_space session) bytes rs
      → read_range codec config session after through limit false calm_read s
        ≡ ok (
            select
              (record {
                schema = config.schema_id;
                session_id = trim_space session;
                after = after;
                through = through;
                tail = limit;
              })
              rs)
  unfolding read_range
  read_range_lem session after through limit s bytes rs named cursors file reads =
      let id = trim_space session in
      let q : Query = record {
        schema = config.schema_id;
        session_id = id;
        after = after;
        through = through;
        tail = limit;
      } in
      let file_read =
        read_file_calm q s (select q rs)
          (rw file (read_journal_lem codec q bytes ∙ ap (map_ok (select q)) reads)) in
      rw (named, cursors) (rw (sync_calm id s) file_read)

  in_range_only :
      (q q' : Query) (rs : List Record)
      → q.after ≡ q'.after
      → q.through ≡ q'.through
      → filter_by (in_range q) rs ≡ filter_by (in_range q') rs
  unfolding in_range
  in_range_only q q' rs a t = rw (a, t) refl

  -- `Read` with no cursor returns every record but a first one of sequence 0.
  read_lem :
      (session : String) (s : Store) (bytes : Bytes) (rs : List Record)
      → is_empty (trim_space session) ≡ false
      → lookup (path (trim_space session)) s.files ≡ some bytes
      → Reads codec config (trim_space session) bytes rs
      → read codec config session 0 0 false calm_read s
        ≡ ok (filter_by (in_range (everything config (trim_space session))) rs)
  unfolding read select
  read_lem session s bytes rs named file reads =
      read_range_lem session 0 0 0 s bytes rs named refl file reads
      ∙ ap ok (last_n_of_le 0 _ (λ p. absurd (omega arith)))

  -- `Tail` returns the last `n + 1` of what `Read` returns with no cursor.
  pub tail_lem :
      (session : String) (n : ℕ) (s : Store) (bytes : Bytes) (rs : List Record)
      → is_empty (trim_space session) ≡ false
      → lookup (path (trim_space session)) s.files ≡ some bytes
      → Reads codec config (trim_space session) bytes rs
      → (all : List Record) × (read codec config session 0 0 false calm_read s ≡ ok all)
        × (tail codec config session (pos (suc n)) false calm_read s ≡ ok (last_n (suc n) all))
  unfolding tail select
  tail_lem session n s bytes rs named file reads =
      let id = trim_space session in
      let q = everything config id in
      let q' : Query = record q { tail = suc n } in
      let all = filter_by (in_range q) rs in
      (
        all,
        read_lem session s bytes rs named file reads,
        read_range_lem session 0 0 (suc n) s bytes rs named refl file reads
            ∙ ap ok (ap (last_n (suc n)) (in_range_only q' q rs refl refl)),
      )

  -- What an acknowledged append promises to a reader of the session.
  pub record Readable (session : String) (s s' : Store) (r : Record) : Type 0 where
    pub before : List Record
    pub stored : Record
    pub reads_before :
        Reads codec config (trim_space session) (content (trim_space session) s) before
    pub same : SameRecord codec.compact r stored
    pub follows : r.sequence ≡ end_of 0 before + 1
    pub reads :
        read codec config session 0 0 false calm_read s'
        ≡ ok (filter_by (in_range (everything config (trim_space session))) (before ++ stored ∷ []))

  concat_ne_nil : (rs : List Record) (r : Record) → rs ++ r ∷ [] ≢ []
  concat_ne_nil [] r h = cc
  concat_ne_nil (r₁ ∷ rs) r h = cc

  -- A journal that holds a record is a file.
  file_of_record :
      (id : String) (s : Store) (rs : List Record) (r : Record)
      → Reads codec config id (content id s) (rs ++ r ∷ [])
      → (bytes : Bytes) × (lookup (path id) s.files ≡ some bytes)
        × Reads codec config id bytes (rs ++ r ∷ [])
  file_of_record id s rs r reads = elim (Option-cases (lookup (path id) s.files)) [
    | inr (bytes, h) ↦ (
      bytes,
      h,
      subst (λ (o : Option Bytes). Reads codec config id (content_of o) (rs ++ r ∷ [])) h reads,
    )
    | inl h ↦
        let nothing =
          subst (λ (o : Option Bytes). Reads codec config id (content_of o) (rs ++ r ∷ [])) h
            reads in
        absurd (concat_ne_nil rs r (sym (ok_injective (sym (no_lines codec config id) ∙ nothing))))
  ]

  append_named :
      (fresh : String) (now : ℕ) (r r' : Record) (io : Faults) (s : Store)
      → (append codec config fresh now r io s).0 ≡ ok r'
      → is_empty (trim_space r.session_id) ≡ false
  unfolding append
  append_named fresh now r r' io s h = elim (Result-cases (prepare config fresh now r)) [
    | inr (e, bad) ↦ absurd (ok_ne_err (sym (simp (append, bad) at h)))
    | inl (p, good) ↦
        let known = prepare-IsPrepared config fresh now r p good in
        sym (ap is_empty known.session) ∙ known.named
  ]

  Appended-ok :
      (id : String) (s s' : Store) (res : Result JournalError Record) (r : Record)
      → Appended codec config s s' id res
      → res ≡ ok r
      → (r.session_id ≡ id) × Grown codec config s s' r
  Appended-ok id s s' _ r (acknowledged r' e g) h =
      let same : r' ≡ r = ok_injective h in
      subst (λ (t : Record). (t.session_id ≡ id) × Grown codec config s s' t) same (e, g)
  Appended-ok id s s' _ r (rejected e k) h = absurd (ok_ne_err (sym h))
  Appended-ok id s s' _ r (late b r' e g) h = absurd (ok_ne_err (sym h))

  -- In a sound store, for a session with a safe identifier (one that names its file unchanged) whose next
  -- sequence is below 2 ^ 64: if Append returns a record, the journal of the session has it, all its
  -- fields as they were and its data compacted, behind all earlier records and with the next sequence, and
  -- a Read of the session in which no call fails returns the earlier records and it.
  pub read-append :
      (laws : IsCodec codec) (fresh : String) (now : ℕ) (r r' : Record) (io : Faults) (s : Store)
      → IsSound codec config s
      → IsSafe (trim_space r.session_id)
      → HasRoom codec config (trim_space r.session_id) s
      → (append codec config fresh now r io s).0 ≡ ok r'
      → Readable r.session_id s (append codec config fresh now r io s).1 r'
  read-append laws fresh now r r' io s sound safe room h =
      let id = trim_space r.session_id in
      let s' = (append codec config fresh now r io s).1 in
      let (e, g) =
        Appended-ok id s s' (append codec config fresh now r io s).0 r'
          (append-Outcome codec config laws fresh now r io s sound safe room).0 h in
      let after =
        subst (λ (j : String). Reads codec config j (content j s') (g.records ++ g.stored ∷ [])) e
          g.reads_after in
      let (bytes, file, reads) = file_of_record id s' g.records g.stored after in
      record {
        before = g.records;
        stored = g.stored;
        reads_before =
            subst (λ (j : String). Reads codec config j (content j s) g.records) e g.reads_before;
        same = g.same;
        follows = g.follows;
        reads =
            read_lem r.session_id s' bytes (g.records ++ g.stored ∷ [])
              (append_named fresh now r r' io s h) file reads;
      }
