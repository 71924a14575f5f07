-- ===== src/Journal/File/Reader.antt =====
-- What `readJournal` returns, against a plain reading of the lines: decode and check them all, then
-- select.
use durable_acp.Prelude.{
  ℕ, ◌+◌, String, ◌≡◌, refl, sym, ap, ◌∙◌, inl, inr, Bool, true, false, none, some, List, [], ◌∷◌,
  ◌++◌, append-nil, append_assoc, take, arith, if◌then◌else◌, Bool-cases, Option-cases, Result,
  Result-cases, ok, err, ◌>>=◌, ◌>>◌, map_ok, or_error,
}
use durable_acp.Journal.Record.{Bytes, Record, Codec}
use durable_acp.Journal.File.{
  ReadFaults, ReadError, decode, not_opened, broken_read, Query, Scan, scan_start, in_range, keep,
  in_order, check_record, split_lines, readable, is_broken, scan_line, scan_lines, finish_scan,
  read_journal,
}
use durable_acp.Journal.File.Ring.{IsRing, last_n, last_n-nil, keep-IsRing}

-- The lines of a journal behind the line `number`, decoded and checked one after the other; `last` is
-- the sequence before them, if there is one.
unfoldable pub decode_all :
    Codec → String → String → ℕ → Bool → ℕ → List Bytes → Result ReadError (List Record)
decode_all codec schema session_id number has_last last [] = ok []
decode_all codec schema session_id number has_last last (line ∷ lines) = do
  r ← or_error (codec.unmarshal line) (decode (number + 1))
  check_record schema session_id (number + 1) has_last last r
  rs ← decode_all codec schema session_id (number + 1) true r.sequence lines
  ok (r ∷ rs)

unfoldable pub filter_by {ℓ} : {A : Type ℓ} → (A → Bool) → List A → List A
filter_by p [] = []
filter_by p (x ∷ xs) = let rest = filter_by p xs in if p x then x ∷ rest else rest

pub filter_by-true {ℓ} :
    {A : Type ℓ} (p : A → Bool) (x : A)
    → p x ≡ true
    → (xs : List A) → filter_by p (x ∷ xs) ≡ x ∷ filter_by p xs
unfolding filter_by
filter_by-true p x h xs = rw h

pub filter_by-false {ℓ} :
    {A : Type ℓ} (p : A → Bool) (x : A)
    → p x ≡ false
    → (xs : List A) → filter_by p (x ∷ xs) ≡ filter_by p xs
unfolding filter_by
filter_by-false p x h xs = rw h

-- What a query selects of all records: those in its range, and of them the last `tail`.
unfoldable pub select : Query → List Record → List Record
unfolding filter_by
select q rs = last_n q.tail (filter_by (in_range q) rs)

keep_fields :
    (tail : ℕ) (r : Record) (s : Scan)
    → ((keep tail r s).line_number ≡ s.line_number)
      × ((keep tail r s).has_last_sequence ≡ s.has_last_sequence)
      × ((keep tail r s).last_sequence ≡ s.last_sequence)
unfolding keep
keep_fields tail r s = ground arith

map_ok-cons {ℓ} :
    {A : Type ℓ} (f : List Record → A) (r : Record) (m : Result ReadError (List Record))
    → map_ok f (m >>= λ rs. ok (r ∷ rs)) ≡ map_ok (λ rs. f (r ∷ rs)) m
map_ok-cons f r (ok rs) = refl
map_ok-cons f r (err e) = refl

module _ (codec : Codec) (q : Query) where
  abbrev decode_from : Scan → List Bytes → Result ReadError (List Record)
  decode_from s =
      decode_all codec q.schema q.session_id s.line_number s.has_last_sequence s.last_sequence

  -- The state after a record that passed the checks.
  abbrev seen : Record → Scan → Scan
  seen r s = record s {
    last_sequence = r.sequence;
    has_last_sequence = true;
    line_number = s.line_number + 1;
  }

  decode_from-keep :
      (tail : ℕ) (r : Record) (s : Scan) → decode_from (keep tail r s) ≡ decode_from s
  decode_from-keep tail r s = let (a, b, c) = keep_fields tail r s in cc (a, b, c)

  again :
      {kept : List Record} {s : Scan} (r : Record)
      → IsRing q.tail kept s
      → IsRing q.tail kept (seen r s)
  unfolding in_order
  again r h = record { view = h.view; size = h.size; bound = h.bound; full = h.full }

  -- The records behind an accepted one: it joins those that are kept if it is in range.
  accepted :
      (lines : List Bytes) (kept : List Record) (r : Record) (s : Scan)
      → IsRing q.tail kept s
      → ((kept' : List Record) (s' : Scan)
          → IsRing q.tail kept' s'
          → map_ok in_order (scan_lines codec q lines s')
            ≡ map_ok
                (λ rs. last_n q.tail (kept' ++ filter_by (in_range q) rs))
                (decode_from s' lines))
      → map_ok in_order
          (scan_lines codec q lines (if in_range q r then keep q.tail r (seen r s) else seen r s))
        ≡ map_ok
            (λ rs. last_n q.tail (kept ++ filter_by (in_range q) (r ∷ rs)))
            (decode_from (seen r s) lines)
  accepted lines kept r s h ih = elim (Bool-cases (in_range q r)) [
    | inl take_it ↦ rw take_it (
        ih (kept ++ r ∷ []) (keep q.tail r (seen r s))
          (keep-IsRing q.tail r kept (seen r s) (again r h))
        ∙ rw (decode_from-keep q.tail r (seen r s))
            (simp (filter_by-true (in_range q) r take_it, append_assoc)))
    | inr leave_it ↦
        rw leave_it
          (ih kept (seen r s) (again r h) ∙ simp (filter_by-false (in_range q) r leave_it))
  ]

  scan_lines_lem :
      (lines : List Bytes) (kept : List Record) (s : Scan)
      → IsRing q.tail kept s
      → map_ok in_order (scan_lines codec q lines s)
        ≡ map_ok (λ rs. last_n q.tail (kept ++ filter_by (in_range q) rs)) (decode_from s lines)
  unfolding scan_lines scan_line decode_all
  scan_lines_lem [] kept s h =
      unfold filter_by in ap ok (h.view ∙ ap (last_n q.tail) (sym (append-nil kept)))
  scan_lines_lem (line ∷ lines) kept s h = elim (Option-cases (codec.unmarshal line)) [
    | inl undecoded ↦ rw undecoded refl
    | inr (r, decoded) ↦
        elim (Result-cases (
          check_record q.schema q.session_id (s.line_number + 1) s.has_last_sequence s.last_sequence
            r)) [
              | inr (e, refused) ↦ rw (decoded, refused) refl
              | inl (_, passed) ↦
                  rw (decoded, passed)
                    (accepted lines kept r s h (λ kept' s' h'. scan_lines_lem lines kept' s' h')
                      ∙ sym (
                          map_ok-cons (λ rs. last_n q.tail (kept ++ filter_by (in_range q) rs)) r
                            (decode_from (seen r s) lines)))
            ]
  ]

-- No call of the operating system fails while the journal is read.
abbrev pub calm_read : ReadFaults
calm_read = record { open_fails = false; broken_after = none }

map_ok-bind {ℓ κ} :
    {A : Type ℓ} {B : Type κ} (f : A → B) (m : Result ReadError A)
    → (m >>= λ a. ok (f a)) ≡ map_ok f m
map_ok-bind f (ok a) = refl
map_ok-bind f (err e) = refl

start-IsRing : (tail : ℕ) → IsRing tail [] scan_start
unfolding in_order
start-IsRing tail = record {
  view = last_n-nil tail;
  size = λ p. omega arith;
  bound = λ p. absurd (omega arith);
  full = λ p. absurd (omega arith);
}

-- `readJournal` decodes and checks all lines that end in a line break, and returns the last `tail` of
-- those records that are in the query's range, or the error of the first line that fails.
pub read_journal_lem :
    (codec : Codec) (q : Query) (content : Bytes)
    → read_journal codec calm_read q (some content)
      ≡ map_ok (select q) (decode_all codec q.schema q.session_id 0 false 0 (split_lines content).0)
unfolding read_journal finish_scan select
read_journal_lem codec q content =
    map_ok-bind in_order (scan_lines codec q (split_lines content).0 scan_start)
    ∙ scan_lines_lem codec q (split_lines content).0 [] scan_start (start-IsRing q.tail)

broken_scan :
    (codec : Codec) (q : Query) (rest : Bytes) (m : Result ReadError Scan)
    → (e : ReadError) × ((m >>= λ s. finish_scan codec q true rest s) ≡ err e)
unfolding finish_scan
broken_scan codec q rest (err e) = (e, refl)
broken_scan codec q [] (ok s) = (broken_read, refl)
broken_scan codec q (b ∷ bs) (ok s) = elim (Result-cases (scan_line codec q s (b ∷ bs))) [
  | inl (_, fine) ↦ (broken_read, rw fine refl)
  | inr (e, failed) ↦ (e, rw failed refl)
]

-- A read that the operating system breaks off returns an error, never the records read so far.
pub read_journal_broken :
    (codec : Codec) (io : ReadFaults) (q : Query) (content : Bytes) (n : ℕ)
    → io.broken_after ≡ some n
    → (e : ReadError) × (read_journal codec io q (some content) ≡ err e)
unfolding read_journal
read_journal_broken codec io q content n h = elim (Bool-cases io.open_fails) [
  | inl closed ↦ (not_opened, rw closed refl)
  | inr opened ↦
      let (lines, rest) = split_lines (take n content) in
      let (e, p) = broken_scan codec q rest (scan_lines codec q lines scan_start) in
      (e, rw opened (rw (h, readable, is_broken) p))
]
