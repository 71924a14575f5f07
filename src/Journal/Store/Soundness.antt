-- ===== src/Journal/Store/Soundness.antt =====
-- Sound stores: each open writer knows its journal. What keeps a store sound, and what has become of a
-- record that was persisted in one.
use durable_acp.Prelude.{
  String, ◌≡◌, sym, ap, ◌∙◌, ◌≢◌, inl, inr, Bool, false, Option, none, some, [], ◌∷◌, ◌++◌, arith,
  Bool-cases, Result, ok, err, Map, lookup, insert, erase, lookup-insert, lookup-erase,
  lookup-insert_self, some_injective, eq_iff, eq_refl, str_eq, subst,
}
use durable_acp.Journal.Record.{Bytes, Record, Codec}
use durable_acp.Journal.File.Contents.{end_of-concat}
use durable_acp.Journal.Paths.{path, IsSafe, path-injective}
use durable_acp.Journal.Envelope.{JournalError, encode_failed, append_failed, Config, Writer}
use durable_acp.Journal.Store.{Store, content_of}
use durable_acp.Journal.Store.Opening.{content, Keeps, Keeps-refl, Fresh}
use durable_acp.Journal.Store.Persisting.{
  Grown, Persisted, stored, not_encoded, torn, unacknowledged,
}

-- Every open writer belongs to a safe identifier and knows its journal.
pub record IsSound (codec : Codec) (config : Config) (s : Store) : Type 0 where
  pub safe : (id : String) (w : Writer) → lookup id s.writers ≡ some w → IsSafe id
  pub knows : (id : String) (w : Writer) → lookup id s.writers ≡ some w → Fresh codec config id s w

-- The outcome of an append to the session `id`: acknowledged, with the record stored at the end of the
-- journal; refused, with the journal as it was; or failed behind a complete write, with the record
-- stored and not acknowledged.
pub data Appended (codec : Codec) (config : Config) (s s' : Store) (id : String)
    : Result JournalError Record → Type 0 where
  acknowledged :
      (r : Record)
      → r.session_id ≡ id
      → Grown codec config s s' r
      → Appended codec config s s' id (ok r)
  rejected : (e : JournalError) → Keeps (path id) s s' → Appended codec config s s' id (err e)
  late :
      (b : Bool) (r : Record)
      → r.session_id ≡ id
      → Grown codec config s s' r
      → Appended codec config s s' id (err (append_failed b))

module _ (codec : Codec) (config : Config) where
  Fresh-content :
      {id : String} {s s' : Store} {w : Writer}
      → lookup (path id) s'.files ≡ lookup (path id) s.files
      → Fresh codec config id s w
      → Fresh codec config id s' w
  Fresh-content {id} {s} {s'} e f =
      let same : content id s' ≡ content id s = ap content_of e in
      record { whole = rw same f.whole; records = f.records; reads = rw same f.reads; seq = f.seq }

  -- A step of one session that leaves the other files and writers alone keeps the store sound, if it
  -- does for its own writer.
  pub step-IsSound :
      (id : String) (s s' : Store)
      → IsSafe id
      → IsSound codec config s
      → ((n : String) → n ≢ path id → lookup n s'.files ≡ lookup n s.files)
      → ((j : String) → j ≢ id → lookup j s'.writers ≡ lookup j s.writers)
      → ((w : Writer) → lookup id s'.writers ≡ some w → Fresh codec config id s' w)
      → IsSound codec config s'
  step-IsSound id s s' safe sound files writers own = record {
    safe = λ j w h. elim (Bool-cases (str_eq j id)) [
      | inl e ↦ rw ((eq_iff j id).0 e) safe
      | inr ne ↦ sound.safe j w (sym (writers j (apart j ne)) ∙ h)
    ];
    knows = λ j w h. elim (Bool-cases (str_eq j id)) [
      | inl e ↦
          let same = (eq_iff j id).0 e in
          subst (λ (k : String). Fresh codec config k s' w) (sym same)
            (own w (subst (λ (k : String). lookup k s'.writers ≡ some w) same h))
      | inr ne ↦
          let before = sym (writers j (apart j ne)) ∙ h in
          Fresh-content
            (files (path j) (λ e. apart j ne (path-injective j id (sound.safe j w before) safe e)))
            (sound.knows j w before)
    ];
  }
    where
      apart : (j : String) → str_eq j id ≡ false → j ≢ id
      apart j ne e = ground (arith, eq_iff j id)

  pub some_ne_none : {A : Type 0} {a : A} → ◌≡◌ {A = Option A} (some a) none → ⊥
  some_ne_none h = cc

  erased : (j : String) (ws : Map Writer) → lookup j (erase j ws) ≡ none
  erased j ws = simp (lookup-erase, eq_refl)

  erase_other : (id j : String) (ws : Map Writer) → j ≢ id → lookup j (erase id ws) ≡ lookup j ws
  erase_other id j ws h = lookup-erase id j ws ∙ ground (arith, eq_iff id j)

  pub insert_other :
      (id j : String) (w : Writer) (ws : Map Writer)
      → j ≢ id
      → lookup j (insert id w ws) ≡ lookup j ws
  insert_other id j w ws h = lookup-insert id j w ws ∙ ground (arith, eq_iff id j)

  gone :
      (id : String) (s s' : Store) (w : Writer)
      → lookup id s'.writers ≡ some w
      → s'.writers ≡ erase id s.writers
      → ⊥
  gone id s s' w h ws = let n = sym h ∙ ap (lookup id) ws ∙ erased id s.writers in cc

  -- What a record's persisting says of the session `id` that the record belongs to.
  pub settle :
      (id : String) (s s' : Store) (state : Option Bytes) (r : Record)
      (res : Result JournalError Record)
      → r.session_id ≡ id
      → IsSafe r.session_id
      → IsSound codec config s
      → Persisted codec config s s' state r res
      → Appended codec config s s' id res × IsSound codec config s'
  settle id s s' state r _ e safe sound (stored g ws calls) = (
    acknowledged r e g,
    step-IsSound r.session_id s s' safe sound g.elsewhere
        (λ j ne. ap (lookup j) ws ∙ insert_other r.session_id j _ s.writers ne)
        (λ w h.
          let known =
            some_injective
              (sym h ∙ ap (lookup r.session_id) ws ∙ lookup-insert_self r.session_id _ s.writers) in
          record {
            whole = g.whole;
            records = g.records ++ g.stored ∷ [];
            reads = g.reads_after;
            seq =
                ap (λ (w : Writer). w.seq) known
                ∙ g.same.sequence
                ∙ sym (end_of-concat 0 g.records g.stored);
          }),
  )
  settle id s s' state r _ e safe sound (not_encoded same) =
      (rejected encode_failed (rw same (Keeps-refl (path id) s)), rw same sound)
  settle id s s' state r _ e safe sound (torn b k ws calls) = (
    rejected (append_failed b) (subst (λ (j : String). Keeps (path j) s s') e k),
    step-IsSound r.session_id s s' safe sound k.elsewhere
        (λ j ne. ap (lookup j) ws ∙ erase_other r.session_id j s.writers ne)
        (λ w h. absurd (gone r.session_id s s' w h ws)),
  )
  settle id s s' state r _ e safe sound (unacknowledged b g ws calls) = (
    late b r e g,
    step-IsSound r.session_id s s' safe sound g.elsewhere
        (λ j ne. ap (lookup j) ws ∙ erase_other r.session_id j s.writers ne)
        (λ w h. absurd (gone r.session_id s s' w h ws)),
  )
