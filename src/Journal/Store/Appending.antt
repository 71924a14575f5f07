-- ===== src/Journal/Store/Appending.antt =====
-- Appending to a sound store: what each outcome says of the journals, and that the store stays sound.
use native.Mathlib.Nat.{mod-eq_of_lt}
use durable_acp.Prelude.{
  ℕ, ◌+◌, ◌^◌, ◌<◌, String, ◌≡◌, refl, sym, ap, ◌∙◌, inl, inr, false, none, List, arith,
  Option-cases, Result, Result-cases, ok, err, lookup, lookup-insert_self, some_injective, subst,
  trim_space,
}
use durable_acp.Journal.Record.{Bytes, Record, Codec, IsCodec}
use durable_acp.Journal.File.Reader.{decode_all}
use durable_acp.Journal.File.Contents.{end_of}
use durable_acp.Journal.Paths.{path, IsSafe}
use durable_acp.Journal.Envelope.{JournalError, Config, Writer, prepare, reduce, next_sequence}
use durable_acp.Journal.Envelope.Laws.{IsPrepared, prepare-IsPrepared, reduce-IsPrepared}
use durable_acp.Journal.Store.{Store, Faults, open_writer, writer_for, persist, append_with, append}
use durable_acp.Journal.Store.Opening.{
  content, Reads, Keeps, Keeps-refl, Fresh, Opened, refused, opened, open_writer-Outcome,
}
use durable_acp.Journal.Store.Persisting.{Grown, persist-Persisted}
use durable_acp.Journal.Store.Soundness.{
  IsSound, Appended, acknowledged, rejected, late, step-IsSound, some_ne_none, insert_other, settle,
}

next_sequence_lem : (w : Writer) → w.seq + 1 < 2 ^ 64 → next_sequence w ≡ w.seq + 1
unfolding next_sequence
next_sequence_lem w room = mod-eq_of_lt room

module _ (codec : Codec) (config : Config) where
  -- An append's outcome for the session `id`, and a sound store behind it.
  abbrev pub Outcome : String → Store → Result JournalError Record × Store → Type 0
  Outcome id s (res, s') = Appended codec config s s' id res × IsSound codec config s'

  module _ (laws : IsCodec codec) (id : String) (safe : IsSafe id) (io : Faults) where
    append_with-Outcome :
        (r : Record) (w : Writer) (s : Store)
        → IsSound codec config s
        → Fresh codec config id s w
        → IsPrepared config id r
        → w.seq + 1 < 2 ^ 64
        → Outcome id s (append_with codec config r io w s)
    unfolding append_with
    append_with-Outcome r w s sound known p room = elim (Result-cases (reduce config w r)) [
      | inr (e, bad) ↦ simp (append_with, bad) (rejected e (Keeps-refl (path id) s), sound)
      | inl ((state, r'), good) ↦
          let (p', seq) = reduce-IsPrepared config id w r r' state p good in
          simp (append_with, good)
            (settle codec config id s (persist codec config w state r' io s).1 state r'
              (persist codec config w state r' io s).0 p'.session (rw p'.session safe) sound
              (persist-Persisted codec laws config w state r' io s
                (subst (λ (j : String). Fresh codec config j s w) (sym p'.session) known) p'.schema
                p'.version (seq ∙ next_sequence_lem w room)))
    ]

    -- A writer that is in the map, or was just opened.
    data Ready (s s' : Store) : Result JournalError Writer → Type 0 where
      failed :
          (e : JournalError) → Keeps (path id) s s' → IsSound codec config s' → Ready s s' (err e)
      ready :
          (w : Writer)
          → Keeps (path id) s s'
          → IsSound codec config s'
          → Fresh codec config id s' w
          → Ready s s' (ok w)

    abbrev ReadyPair : Store → Result JournalError Writer × Store → Type 0
    ReadyPair s (res, s') = Ready s s' res

    from_Opened :
        (s s' : Store) (res : Result JournalError Writer)
        → IsSound codec config s
        → lookup id s.writers ≡ none
        → Keeps (path id) s s'
        → Opened codec config id s s' res
        → Ready s s' res
    from_Opened s s' _ sound new k (refused e ws) = failed e k (
        step-IsSound codec config id s s' safe sound k.elsewhere (λ j ne. ap (lookup j) ws)
          (λ w h. let n = sym h ∙ ap (lookup id) ws ∙ new in absurd (some_ne_none codec config n)))
    from_Opened s s' _ sound new k (opened w ws f) =
        ready w k
          (step-IsSound codec config id s s' safe sound k.elsewhere
            (λ j ne. ap (lookup j) ws ∙ insert_other codec config id j w s.writers ne)
            (λ w' h.
              let known =
                some_injective (sym h ∙ ap (lookup id) ws ∙ lookup-insert_self id w s.writers) in
              subst (λ (v : Writer). Fresh codec config id s' v) (sym known) f))
          f

    writer_for-Ready :
        (s : Store) → IsSound codec config s → ReadyPair s (writer_for codec config id io s)
    unfolding writer_for
    writer_for-Ready s sound = elim (Option-cases (lookup id s.writers)) [
      | inr (w, h) ↦
          simp (writer_for, h) (ready w (Keeps-refl (path id) s) sound (sound.knows id w h))
      | inl h ↦
          let (k, o) = open_writer-Outcome codec config id io s in
          simp (writer_for, h)
            (from_Opened s (open_writer codec config id io s).1 (open_writer codec config id io s).0
              sound h k o)
    ]

    Keeps-trans : (name : String) (s t u : Store) → Keeps name s t → Keeps name t u → Keeps name s u
    Keeps-trans name s t u a b = record {
      elsewhere = λ n h. b.elsewhere n h ∙ a.elsewhere n h;
      lines = b.lines ∙ a.lines;
    }

    Grown-after :
        (s t u : Store) (r : Record)
        → Keeps (path r.session_id) s t
        → Grown codec config t u r
        → Grown codec config s u r
    Grown-after s t u r k g = record {
      elsewhere = λ n h. g.elsewhere n h ∙ k.elsewhere n h;
      whole = g.whole;
      records = g.records;
      stored = g.stored;
      reads_before =
          subst
            (λ (ls : List Bytes).
              decode_all codec config.schema_id r.session_id 0 false 0 ls ≡ ok g.records)
            k.lines g.reads_before;
      reads_after = g.reads_after;
      same = g.same;
      follows = g.follows;
    }

    Appended-after :
        (s t u : Store) (res : Result JournalError Record)
        → Keeps (path id) s t
        → Appended codec config t u id res
        → Appended codec config s u id res
    Appended-after s t u _ k (acknowledged r e g) =
        acknowledged r e
          (Grown-after s t u r (subst (λ (j : String). Keeps (path j) s t) (sym e) k) g)
    Appended-after s t u _ k (rejected e k') = rejected e (Keeps-trans (path id) s t u k k')
    Appended-after s t u _ k (late b r e g) =
        late b r e (Grown-after s t u r (subst (λ (j : String). Keeps (path j) s t) (sym e) k) g)

  -- The session's sequences have not run out of 64 bits.
  abbrev pub HasRoom : String → Store → Type 0
  HasRoom id s =
      (rs : List Record) → Reads codec config id (content id s) rs → end_of 0 rs + 1 < 2 ^ 64

  behind_writer :
      (laws : IsCodec codec) (id : String) (safe : IsSafe id) (io : Faults) (r : Record)
      (s s' : Store) (res : Result JournalError Writer)
      → IsPrepared config id r
      → HasRoom id s
      → writer_for codec config id io s ≡ (res, s')
      → Ready laws id safe io s s' res
      → Outcome id s (elim res [ err e ↦ (err e, s') | ok w ↦ append_with codec config r io w s' ])
  behind_writer laws id safe io r s s' _ p room h (failed e k sound) = (rejected e k, sound)
  behind_writer laws id safe io r s s' _ p room h (ready w k sound f) =
      let before : Reads codec config id (content id s) f.records =
        subst
          (λ (ls : List Bytes). decode_all codec config.schema_id id 0 false 0 ls ≡ ok f.records)
          k.lines f.reads in
      let (a, sound') =
        append_with-Outcome laws id safe io r w s' sound f p
          (omega (arith, f.seq, room f.records before)) in
      (Appended-after laws id safe io s s' _ _ k a, sound')

  -- In a sound store, for a session with a safe identifier (one that names its file unchanged) whose next
  -- sequence is below 2 ^ 64, whatever the operating system and the reducer do: Append acknowledges a
  -- record that is stored behind all earlier ones, all its fields as they were and its data compacted; or
  -- it fails, and the journal reads as before or holds such a record after all. The journals of the other
  -- files are as they were, and the store stays sound.
  pub append-Outcome :
      (laws : IsCodec codec) (fresh : String) (now : ℕ) (r : Record) (io : Faults) (s : Store)
      → IsSound codec config s
      → IsSafe (trim_space r.session_id)
      → HasRoom (trim_space r.session_id) s
      → Outcome (trim_space r.session_id) s (append codec config fresh now r io s)
  unfolding append
  append-Outcome laws fresh now r io s sound safe room =
      let id = trim_space r.session_id in
      elim (Result-cases (prepare config fresh now r)) [
        | inr (e, bad) ↦ simp (append, bad) (rejected e (Keeps-refl (path id) s), sound)
        | inl (r', good) ↦
            let p = prepare-IsPrepared config fresh now r r' good in
            simp (append, good)
              (subst
                (λ (j : String). Outcome id s (elim (writer_for codec config j io s).0 [
                  | err e ↦ (err e, (writer_for codec config j io s).1)
                  | ok w ↦ append_with codec config r' io w (writer_for codec config j io s).1
                ]))
                (sym p.session)
                (behind_writer laws id safe io r' s (writer_for codec config id io s).1
                  (writer_for codec config id io s).0 p room refl
                  (writer_for-Ready laws id safe io s sound)))
      ]
