-- ===== src/Tests/Codec.antt =====
-- A small codec that meets the assumptions on the encoding: it encodes the records of one shape, by
-- their sequence, and refuses all others.
use durable_acp.Prelude.{
  false, sym, ==_iff, ℕ, ◌+◌, ◌-◌, ◌≡◌, refl, ap, Bool, true, ◌&&◌, Option, none, some, [], ◌∷◌,
  arith, str_eq, eq_iff, ◌==◌, pos, is_pos, if◌then◌else◌, Bool-cases, inl, inr,
}
use durable_acp.Journal.Record.{Bytes, Record, Presentation, Codec, IsCodec, SameRecord}

abbrev pub sample : ℕ → Record
sample n = record {
  schema = "demo.v1";
  schema_version = pos 1;
  event_version = pos 1;
  event_id = "e";
  source_event_id = "";
  sequence = n;
  timestamp = 7;
  session_id = "s";
  conversation = "";
  event = "user.message";
  turn_id = "";
  data_raw = b'{' ∷ b'}' ∷ [];
  presentation = none;
}

unfoldable pub bytes_eq : Bytes → Bytes → Bool
bytes_eq [] [] = true
bytes_eq [] (b ∷ bs) = false
bytes_eq (a ∷ as') [] = false
bytes_eq (a ∷ as') (b ∷ bs) = a == b && bytes_eq as' bs

both : (a b : Bool) → (a && b) ≡ true → (a ≡ true) × (b ≡ true)
both true b h = (refl, h)
both false b h = cc

bytes_eq_lem : (a b : Bytes) → bytes_eq a b ≡ true → a ≡ b
unfolding bytes_eq
bytes_eq_lem [] [] h = refl
bytes_eq_lem [] (b ∷ bs) h = cc
bytes_eq_lem (a ∷ as') [] h = cc
bytes_eq_lem (a ∷ as') (b ∷ bs) h =
    let (first, rest) = both (a == b) (bytes_eq as' bs) h in
    rw ((==_iff a b).0 first, bytes_eq_lem as' bs rest) refl

unfoldable pub is_none : Option Presentation → Bool
is_none none = true
is_none (some p) = false

is_none_lem : (o : Option Presentation) → is_none o ≡ true → o ≡ none
unfolding is_none
is_none_lem none h = refl
is_none_lem (some p) h = cc

-- The records that are encoded: the samples.
pub fits : Record → Bool
fits r =
    str_eq r.schema "demo.v1"
    && is_pos r.schema_version 1
    && is_pos r.event_version 1
    && str_eq r.event_id "e"
    && str_eq r.source_event_id ""
    && r.timestamp == 7
    && str_eq r.session_id "s"
    && str_eq r.conversation ""
    && str_eq r.event "user.message"
    && str_eq r.turn_id ""
    && is_none r.presentation
    && bytes_eq r.data_raw (b'{' ∷ b'}' ∷ [])

pub demo_marshal : Record → Option Bytes
unfolding fits
demo_marshal r = if fits r then some ((r.sequence + 11) ∷ []) else none

pub demo_unmarshal : Bytes → Option Record
demo_unmarshal [] = none
demo_unmarshal (b ∷ bs) = some (sample (b - 11))

unfoldable pub demo : Codec
unfolding demo_marshal demo_unmarshal
demo = record { compact = λ bs. bs; marshal = demo_marshal; unmarshal = demo_unmarshal }

fits_lem : (r : Record) → fits r ≡ true → SameRecord (λ bs. bs) r (sample r.sequence)
unfolding fits
fits_lem r h = record {
  schema = ground (arith, eq_iff r.schema "demo.v1");
  schema_version = ground arith;
  event_version = ground arith;
  event_id = ground (arith, eq_iff r.event_id "e");
  source_event_id = ground (arith, eq_iff r.source_event_id "");
  sequence = refl;
  timestamp = ground arith;
  session_id = ground (arith, eq_iff r.session_id "s");
  conversation = ground (arith, eq_iff r.conversation "");
  event = ground (arith, eq_iff r.event "user.message");
  turn_id = ground (arith, eq_iff r.turn_id "");
  data_raw = sym (bytes_eq_lem r.data_raw _ (ground (arith, h)));
  presentation = is_none_lem r.presentation (ground (arith, h));
}

demo_line :
    (r : Record) (line : Bytes)
    → demo_marshal r ≡ some line
    → (line ≡ (r.sequence + 11) ∷ []) × (fits r ≡ true)
unfolding demo_marshal
demo_line r line h = elim (Bool-cases (fits r)) [
  | inl f ↦ (cc (rw f at h), f)
  | inr f ↦ cc (rw f at h)
]

pub demo-IsCodec : IsCodec demo
unfolding demo
demo-IsCodec = record {
  one_line = λ r line h. rw (demo_line r line h).0 (omega arith, tt);
  reads_back = λ r line h.
      let (e, f) = demo_line r line h in
      let back : r.sequence + 11 - 11 ≡ r.sequence = omega arith in
      (
        sample r.sequence,
        rw e (unfold demo_unmarshal in ap (λ n. some (sample n)) back),
        fits_lem r f,
      );
}
