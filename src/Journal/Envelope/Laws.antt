-- ===== src/Journal/Envelope/Laws.antt =====
-- What the envelope of a record is once `Append` has prepared it, with and without a reducer.
use durable_acp.Prelude.{
  ℕ, String, ◌≡◌, refl, sym, ap, ◌∙◌, inl, inr, Bool, true, false, Option, List, arith,
  Option-cases, Result-cases, ok, fail_if, eq_iff, is_empty, trim_space, ℤ, pos, is_pos,
}
use durable_acp.Journal.Record.{Record}
use durable_acp.Journal.Envelope.{Config, Writer, prepare, reduce, seal_reduced, next_sequence}

-- What the store has checked of a record of the session `session_id` before it is written.
pub record IsPrepared (config : Config) (session_id : String) (r : Record) : Type 0 where
  pub schema : r.schema ≡ config.schema_id
  pub version : r.schema_version ≡ pos 1
  pub session : r.session_id ≡ session_id
  pub named : is_empty r.session_id ≡ false
  pub event_named : is_empty r.event ≡ false

is_pos_eq : (z : ℤ) (n : ℕ) → is_pos z n ≡ true → z ≡ pos n
is_pos_eq z n h = ground arith

fail_if-eq-ok {ℓ} : {E : Type ℓ} (b : Bool) (e : E) {u : Unit {0}} → fail_if b e ≡ ok u → b ≡ false
fail_if-eq-ok true e h = cc
fail_if-eq-ok false e h = refl

-- `Append` returns an error before anything is opened, or the record has its envelope.
pub prepare-IsPrepared :
    (config : Config) (fresh : String) (now : ℕ) (r r' : Record)
    → prepare config fresh now r ≡ ok r'
    → IsPrepared config (trim_space r.session_id) r'
unfolding prepare
prepare-IsPrepared config fresh now r r' h = record {
  schema =
      ground (arith, eq_iff r.schema config.schema_id, eq_iff config.schema_id config.schema_id);
  version = ground arith;
  session = ground arith;
  named = ground arith;
  event_named = ground arith;
}

seal_reduced-IsPrepared :
    (config : Config) (session_id : String) (w : Writer) (r n r' : Record)
    → r.session_id ≡ session_id
    → seal_reduced config w r n ≡ ok r'
    → IsPrepared config session_id r' × (r'.sequence ≡ next_sequence w)
unfolding seal_reduced
seal_reduced-IsPrepared config session_id w r n r' e h = (
  record {
    schema = ground arith;
    version = ground arith;
    session = ground (arith, eq_iff (trim_space n.session_id) r.session_id);
    named = ground arith;
    event_named = ground arith;
  },
  ground arith,
)

-- A reducer may rewrite the record's contents, and not its place in the journal.
pub reduce-IsPrepared :
    (config : Config) (session_id : String) (w : Writer) (r r' : Record) (state : Option (List ℕ))
    → IsPrepared config session_id r
    → reduce config w r ≡ ok (state, r')
    → IsPrepared config session_id r' × (r'.sequence ≡ next_sequence w)
unfolding reduce
reduce-IsPrepared config session_id w r r' state p h =
    let r₀ = record r { sequence = next_sequence w } in
    elim (Option-cases config.reducer) [
      | inl n ↦
          let e : r₀ ≡ r' = cc (simp (reduce, n) at h) in
          (
            record {
              schema = ap (λ (r : Record). r.schema) (sym e) ∙ p.schema;
              version = ap (λ (r : Record). r.schema_version) (sym e) ∙ p.version;
              session = ap (λ (r : Record). r.session_id) (sym e) ∙ p.session;
              named = ap (λ (r : Record). is_empty r.session_id) (sym e) ∙ p.named;
              event_named = ap (λ (r : Record). is_empty r.event) (sym e) ∙ p.event_named;
            },
            ap (λ (r : Record). r.sequence) (sym e),
          )
      | inr (f, n) ↦ elim (Option-cases (f w.state r₀)) [
        | inl bad ↦ cc (simp (reduce, n, bad) at h)
        | inr ((state', normal), good) ↦ elim (Result-cases (seal_reduced config w r₀ normal)) [
          | inl (r₁, sealed) ↦
              let e : r₁ ≡ r' = cc (simp (reduce, n, good, sealed) at h) in
              seal_reduced-IsPrepared config session_id w r₀ normal r' p.session (sealed ∙ ap ok e)
          | inr (e, failed) ↦ cc (simp (reduce, n, good, failed) at h)
        ]
      ]
    ]
