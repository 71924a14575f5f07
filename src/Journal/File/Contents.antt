-- ===== src/Journal/File/Contents.antt =====
-- What a journal that can be read holds, and how it grows by a record.
use durable_acp.Prelude.{
  ℕ, ◌+◌, ◌<◌, String, ◌≡◌, refl, ap, ◌∙◌, ◌⊎◌, inl, inr, Bool, true, false, some, List, [], ◌∷◌,
  ◌++◌, arith, ok, or_error, >>=-eq-ok, or_error-eq-ok, subst, eq_iff, ℤ, pos, is_pos,
}
use durable_acp.Journal.Record.{Bytes, Record, Codec}
use durable_acp.Journal.File.{Query, decode, check_record, in_range}
use durable_acp.Journal.File.Reader.{decode_all, filter_by, filter_by-true, filter_by-false}

-- The sequence of the last record, or `last` where there is none.
unfoldable pub end_of : ℕ → List Record → ℕ
end_of last [] = last
end_of last (r ∷ rs) = end_of r.sequence rs

pub end_of-concat :
    (last : ℕ) (rs : List Record) (r : Record) → end_of last (rs ++ r ∷ []) ≡ r.sequence
unfolding end_of
end_of-concat last [] r = refl
end_of-concat last (r₁ ∷ rs) r = end_of-concat r₁.sequence rs r

-- The records of one session under one schema, with sequences that grow strictly. `has_last` says that
-- a record of the sequence `last` stands before them.
pub data IsHistory (schema session_id : String) : Bool → ℕ → List Record → Type 0 where
  done : {b : Bool} {last : ℕ} → IsHistory schema session_id b last []
  next :
      {b : Bool} {last : ℕ} (r : Record) {rs : List Record}
      → r.schema ≡ schema
      → r.schema_version ≡ pos 1
      → r.session_id ≡ session_id
      → (b ≡ true → last < r.sequence)
      → IsHistory schema session_id true r.sequence rs
      → IsHistory schema session_id b last (r ∷ rs)

is_pos_eq : (z : ℤ) (n : ℕ) → is_pos z n ≡ true → z ≡ pos n
is_pos_eq z n h = ground arith

-- What a record that passes the checks looks like.
pub record Passes (schema session_id : String) (has_last : Bool) (last : ℕ) (r : Record)
    : Type 0 where
  pub same_schema : r.schema ≡ schema
  pub version_one : r.schema_version ≡ pos 1
  pub same_session : r.session_id ≡ session_id
  pub later : has_last ≡ true → last < r.sequence

module _ (schema session_id : String) (line : ℕ) (has_last : Bool) (last : ℕ) (r : Record) where
  pub check_record_sound :
      check_record schema session_id line has_last last r ≡ ok tt
      → Passes schema session_id has_last last r
  unfolding check_record
  check_record_sound h = record {
    same_schema = ground (arith, eq_iff r.schema schema);
    version_one = is_pos_eq r.schema_version 1 (ground arith);
    same_session = ground (arith, eq_iff r.session_id session_id);
    later = λ b. ground arith;
  }

  pub check_record_complete :
      Passes schema session_id has_last last r
      → check_record schema session_id line has_last last r ≡ ok tt
  unfolding check_record
  check_record_complete p =
      ground (arith, eq_iff r.schema schema, eq_iff r.session_id session_id, p.later)

module _ (codec : Codec) (schema session_id : String) where
  decode_all_inv :
      (n : ℕ) (has_last : Bool) (last : ℕ) (line : Bytes) (lines : List Bytes) (rs : List Record)
      → decode_all codec schema session_id n has_last last (line ∷ lines) ≡ ok rs
      → (r : Record) × (rs' : List Record) × (codec.unmarshal line ≡ some r)
        × Passes schema session_id has_last last r
        × (decode_all codec schema session_id (n + 1) true r.sequence lines ≡ ok rs')
        × (rs ≡ r ∷ rs')
  unfolding decode_all
  decode_all_inv n has_last last line lines rs h =
      let (r, decoded, h1) = >>=-eq-ok (or_error (codec.unmarshal line) (decode (n + 1))) _ h in
      let (_, passed, h2) =
        >>=-eq-ok (check_record schema session_id (n + 1) has_last last r) _ h1 in
      let (rs', behind, h3) =
        >>=-eq-ok (decode_all codec schema session_id (n + 1) true r.sequence lines) _ h2 in
      (
        r,
        rs',
        or_error-eq-ok _ (decode (n + 1)) decoded,
        check_record_sound schema session_id (n + 1) has_last last r passed,
        behind,
        cc,
      )

  decode_all_nil :
      (n : ℕ) (has_last : Bool) (last : ℕ) (rs : List Record)
      → decode_all codec schema session_id n has_last last [] ≡ ok rs
      → rs ≡ []
  unfolding decode_all
  decode_all_nil n has_last last rs h = cc

  decode_all_cons :
      (n : ℕ) (has_last : Bool) (last : ℕ) (line : Bytes) (lines : List Bytes) (r : Record)
      (rs : List Record)
      → codec.unmarshal line ≡ some r
      → Passes schema session_id has_last last r
      → decode_all codec schema session_id (n + 1) true r.sequence lines ≡ ok rs
      → decode_all codec schema session_id n has_last last (line ∷ lines) ≡ ok (r ∷ rs)
  unfolding decode_all
  decode_all_cons n has_last last line lines r rs decoded p behind =
      rw (decoded, check_record_complete schema session_id (n + 1) has_last last r p, behind) refl

  -- What is decoded without an error is a history of the session.
  pub decode_all-IsHistory :
      (n : ℕ) (has_last : Bool) (last : ℕ) (lines : List Bytes) (rs : List Record)
      → decode_all codec schema session_id n has_last last lines ≡ ok rs
      → IsHistory schema session_id has_last last rs
  decode_all-IsHistory n has_last last [] rs h = rw (decode_all_nil n has_last last rs h) done
  decode_all-IsHistory n has_last last (line ∷ lines) rs h =
      let (r, rs', decoded, p, behind, e) = decode_all_inv n has_last last line lines rs h in
      rw e (
        next r p.same_schema p.version_one p.same_session p.later
          (decode_all-IsHistory (n + 1) true r.sequence lines rs' behind))

  -- One more line, with a record that follows the last one, is one more record.
  pub decode_all-concat :
      (n : ℕ) (has_last : Bool) (last : ℕ) (lines : List Bytes) (rs : List Record) (line : Bytes)
      (r : Record)
      → decode_all codec schema session_id n has_last last lines ≡ ok rs
      → codec.unmarshal line ≡ some r
      → Passes schema session_id true (end_of last rs) r
      → decode_all codec schema session_id n has_last last (lines ++ line ∷ []) ≡ ok (rs ++ r ∷ [])
  unfolding end_of
  decode_all-concat n has_last last [] rs line r h decoded p =
      let e = decode_all_nil n has_last last rs h in
      let p' : Passes schema session_id true last r =
        subst (λ (l : List Record). Passes schema session_id true (end_of last l) r) e p in
      rw e (
        decode_all_cons n has_last last line [] r [] decoded
          (record {
            same_schema = p'.same_schema;
            version_one = p'.version_one;
            same_session = p'.same_session;
            later = λ _. p'.later refl;
          })
          (unfold decode_all in refl))
  decode_all-concat n has_last last (l ∷ lines) rs line r h decoded p =
      let (r₁, rs₁, decoded₁, p₁, behind, e) = decode_all_inv n has_last last l lines rs h in
      let p' : Passes schema session_id true (end_of r₁.sequence rs₁) r =
        subst (λ (l : List Record). Passes schema session_id true (end_of last l) r) e p in
      rw e (
        decode_all_cons n has_last last l (lines ++ line ∷ []) r₁ (rs₁ ++ r ∷ []) decoded₁ p₁
          (decode_all-concat (n + 1) true r₁.sequence lines rs₁ line r behind decoded p'))

zero_or_pos : (n : ℕ) → (n ≡ 0) ⊎ (0 < n)
zero_or_pos n = omega arith

-- Without a cursor a record is in range if its sequence is not 0.
in_range_pos :
    (q : Query) (r : Record) → q.after ≡ 0 → q.through ≡ 0 → 0 < r.sequence → in_range q r ≡ true
unfolding in_range
in_range_pos q r a t h = ground arith

in_range_zero : (q : Query) (r : Record) → q.after ≡ 0 → r.sequence ≡ 0 → in_range q r ≡ false
unfolding in_range
in_range_zero q r a h = ground arith

module _ (schema session_id : String) (q : Query) (a : q.after ≡ 0) (t : q.through ≡ 0) where
  filter_history :
      {b : Bool} {last : ℕ} {rs : List Record}
      → b ≡ true
      → IsHistory schema session_id b last rs
      → filter_by (in_range q) rs ≡ rs
  filter_history e done = unfold filter_by in refl
  filter_history e (next r {rs = rs} s v i l h) =
      filter_by-true (in_range q) r (in_range_pos q r a t (omega (arith, l e))) rs
      ∙ ap (λ l. r ∷ l) (filter_history refl h)

  pub end_of-filter :
      {b : Bool} {last : ℕ} {rs : List Record}
      → b ≡ false
      → IsHistory schema session_id b last rs
      → end_of 0 (filter_by (in_range q) rs) ≡ end_of 0 rs
  unfolding end_of
  end_of-filter e done = unfold filter_by in refl
  end_of-filter e (next r {rs = rs} s v i l h) = elim (zero_or_pos r.sequence) [
    | inl z ↦
        rw (filter_by-false (in_range q) r (in_range_zero q r a z) rs)
          (rw (filter_history refl h) (rw z refl))
    | inr p ↦
        rw (filter_by-true (in_range q) r (in_range_pos q r a t p) rs)
          (rw (filter_history refl h) refl)
  ]
