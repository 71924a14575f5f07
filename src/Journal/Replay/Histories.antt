-- ===== src/Journal/Replay/Histories.antt =====
-- A matcher through its life: made from a journal, then matched, extended and reset.
use durable_acp.Prelude.{
  ℕ, ◌+◌, ◌-◌, ◌≤◌, ◌≡◌, refl, sym, subst, inl, inr, Bool, false, not, ◌&&◌, Option, none, some,
  List, [], ◌∷◌, arith, length, length-append, length-set, get_last?, is_empty, str_eq,
  if◌then◌else◌, Bool-cases, Option-cases,
}
use durable_acp.Journal.Record.{Record}
use durable_acp.Journal.Replay.{
  Json, ReplayKey, ReplayMatcher, replay_terminal, same_stream, match_key, push_key, append_key,
  reset, match_replay, record_replay, record_all, new_replay_matcher, replay_key_for,
}
use durable_acp.Journal.Replay.Matching.{IsValid, Matched, recognised, unknown, match_key-Matched}

-- What `Match` answers for a record, which may have no key.
pub data Answered (json : Json) (m : ReplayMatcher) (r : Record)
    : Option (Bool × ReplayMatcher) → Type 0 where
  without_key : replay_key_for json r ≡ none → Answered json m r (some (false, m))
  with_key :
      (key : ReplayKey) (o : Option (Bool × ReplayMatcher))
      → replay_key_for json r ≡ some key
      → Matched m key o
      → Answered json m r o

module _ (json : Json) where
  pub match_replay-Answered :
      (m : ReplayMatcher) (r : Record) → IsValid m → Answered json m r (match_replay json m r)
  unfolding match_replay
  match_replay-Answered m r v = elim (Option-cases (replay_key_for json r)) [
    | inl e ↦ simp (match_replay, e) (without_key e)
    | inr (key, e) ↦
        simp (match_replay, e) (with_key key (match_key m key) e (match_key-Matched m key v))
  ]

-- Matching only moves the start of the window, forward, and past a record that was recognised.
pub record Moved (m : ReplayMatcher) (b : Bool) (m' : ReplayMatcher) : Type 0 where
  pub same_records : m'.records ≡ m.records
  pub same_turns : m'.completed_turns ≡ m.completed_turns
  pub same_limit : m'.limit ≡ m.limit
  pub forward : m.next + (if b then 1 else 0) ≤ m'.next
  pub inside : m'.next ≤ m.limit

-- A panic moves nothing right.
abbrev pub MovesTo : ReplayMatcher → Option (Bool × ReplayMatcher) → Type 0
MovesTo m none = ⊥
MovesTo m (some (b, m')) = Moved m b m'

Matched-Moved :
    (m : ReplayMatcher) (key : ReplayKey) (o : Option (Bool × ReplayMatcher))
    → IsValid m
    → Matched m key o
    → MovesTo m o
Matched-Moved m key _ v (recognised i k l u e why) = record {
  same_records = refl;
  same_turns = refl;
  same_limit = refl;
  forward = omega (arith, l);
  inside = omega (arith, u);
}
Matched-Moved m key _ v (unknown p c) = record {
  same_records = refl;
  same_turns = refl;
  same_limit = refl;
  forward = omega arith;
  inside = v.window;
}

Answered-Moved :
    (json : Json) (m : ReplayMatcher) (r : Record) (o : Option (Bool × ReplayMatcher))
    → IsValid m
    → Answered json m r o
    → MovesTo m o
Answered-Moved json m r _ v (without_key e) = record {
  same_records = refl;
  same_turns = refl;
  same_limit = refl;
  forward = omega arith;
  inside = v.window;
}
Answered-Moved json m r _ v (with_key key o e a) = Matched-Moved m key o v a

MovesTo-total :
    (m : ReplayMatcher) (o : Option (Bool × ReplayMatcher))
    → MovesTo m o
    → (b : Bool) × (m' : ReplayMatcher) × (o ≡ some (b, m')) × Moved m b m'
MovesTo-total m none h = absurd h
MovesTo-total m (some (b, m')) h = (b, m', refl, h)

module _ (json : Json) where
  pub match_replay-Moved :
      (m : ReplayMatcher) (r : Record)
      → IsValid m
      → (b : Bool) × (m' : ReplayMatcher) × (match_replay json m r ≡ some (b, m')) × Moved m b m'
  match_replay-Moved m r v =
      MovesTo-total m (match_replay json m r)
        (Answered-Moved json m r (match_replay json m r) v (match_replay-Answered json m r v))

  Moved-IsValid : (m m' : ReplayMatcher) (b : Bool) → IsValid m → Moved m b m' → IsValid m'
  Moved-IsValid m m' b v h = record {
    window = omega (arith, h.inside, h.same_limit);
    stored =
        subst (λ (rs : List ReplayKey). m'.limit ≤ length rs) (sym h.same_records)
          (omega (arith, h.same_limit, v.stored));
  }

  match_replay-IsValid :
      (m m' : ReplayMatcher) (r : Record) (b : Bool)
      → IsValid m
      → match_replay json m r ≡ some (b, m')
      → IsValid m'
  match_replay-IsValid m m' r b v h = Moved-IsValid m m' b v (
      subst (MovesTo m) h
        (Answered-Moved json m r (match_replay json m r) v (match_replay-Answered json m r v)))

-- Appending leaves the window and drops no record.
pub record Grown (m m' : ReplayMatcher) : Type 0 where
  pub same_next : m'.next ≡ m.next
  pub same_limit : m'.limit ≡ m.limit
  pub longer : length m.records ≤ length m'.records

push_key-Grown : (m : ReplayMatcher) (key : ReplayKey) → Grown m (push_key m key)
unfolding push_key
push_key-Grown m key = elim (Bool-cases (replay_terminal key.event && not (is_empty key.turn))) [
  | inl h ↦
      rw (push_key, h)
        (record {
          same_next = refl;
          same_limit = refl;
          longer = omega (arith, length-append m.records (key ∷ []));
        })
  | inr h ↦
      rw (push_key, h)
        (record {
          same_next = refl;
          same_limit = refl;
          longer = omega (arith, length-append m.records (key ∷ []));
        })
]

append_key-Grown : (m : ReplayMatcher) (key : ReplayKey) → Grown m (append_key m key)
unfolding append_key
append_key-Grown m key = elim (Option-cases (get_last? m.records)) [
  | inl h ↦ rw (append_key, h) (push_key-Grown m key)
  | inr (last, h) ↦
      elim (Bool-cases
        (not (is_empty key.source) && str_eq last.source key.source && same_stream last key)) [
          | inl c ↦
              rw (append_key, h, c)
                (record {
                  same_next = refl;
                  same_limit = refl;
                  longer = omega (arith, length-set m.records (length m.records - 1) key);
                })
          | inr c ↦ rw (append_key, h, c) (push_key-Grown m key)
        ]
]

record_replay-Grown :
    (json : Json) (m : ReplayMatcher) (r : Record) → Grown m (record_replay json m r)
unfolding record_replay
record_replay-Grown json m r = elim (Option-cases (replay_key_for json r)) [
  | inl e ↦
      rw (record_replay, e) (record { same_next = refl; same_limit = refl; longer = omega arith })
  | inr (key, e) ↦ rw (record_replay, e) (append_key-Grown m key)
]

Grown-IsValid : (m m' : ReplayMatcher) → IsValid m → Grown m m' → IsValid m'
Grown-IsValid m m' v g = omega (arith, v.window, v.stored, g.same_next, g.same_limit, g.longer)

pub record_all-Grown :
    (json : Json) (m : ReplayMatcher) (rs : List Record) → Grown m (record_all json m rs)
unfolding record_all
record_all-Grown json m [] = record { same_next = refl; same_limit = refl; longer = omega arith }
record_all-Grown json m (r ∷ rs) =
    let one = record_replay-Grown json m r in
    let more = record_all-Grown json (record_replay json m r) rs in
    omega (
      arith, one.same_next, one.same_limit, one.longer, more.same_next, more.same_limit,
      more.longer,
    )

new_replay_matcher-IsValid : (json : Json) (rs : List Record) → IsValid (new_replay_matcher json rs)
unfolding new_replay_matcher
new_replay_matcher-IsValid json rs =
    let empty : ReplayMatcher = record {
      records = [];
      completed_turns = [];
      next = 0;
      limit = 0;
    } in
    let g = record_all-Grown json empty rs in omega (arith, g.same_next)

-- The life of a matcher: events are matched, appended to the journal and recorded, and it is reset.
pub data Life (json : Json) (m : ReplayMatcher) : ReplayMatcher → Type 0 where
  made : Life json m m
  matches :
      {t : ReplayMatcher} (r : Record) (b : Bool) (t' : ReplayMatcher)
      → Life json m t
      → match_replay json t r ≡ some (b, t')
      → Life json m t'
  records : {t : ReplayMatcher} (r : Record) → Life json m t → Life json m (record_replay json t r)
  resets : {t : ReplayMatcher} → Life json m t → Life json m (reset t)

Life-IsValid : (json : Json) (m t : ReplayMatcher) → IsValid m → Life json m t → IsValid t
unfolding reset
Life-IsValid json m _ v made = v
Life-IsValid json m _ v (matches {t} r b t' life h) =
    match_replay-IsValid json t t' r b (Life-IsValid json m t v life) h
Life-IsValid json m _ v (records {t} r life) =
    Grown-IsValid t (record_replay json t r) (Life-IsValid json m t v life)
      (record_replay-Grown json t r)
Life-IsValid json m _ v (resets {t} life) = record { window = omega arith; stored = omega arith }

-- A matcher that was made from any journal and has been used in any way does not panic on a record. A
-- record without a key is not recognised. One with a key is recognised by the first record in the
-- window of its stream with its provider's identifier, or, if there is none, with its content, and the
-- window then starts behind that record; if there is neither, it is not recognised and the matcher is
-- left as it was.
pub Life-Answered :
    (json : Json) (rs : List Record) (m : ReplayMatcher) (r : Record)
    → Life json (new_replay_matcher json rs) m
    → Answered json m r (match_replay json m r)
Life-Answered json rs m r life =
    match_replay-Answered json m r
      (Life-IsValid json (new_replay_matcher json rs) m (new_replay_matcher-IsValid json rs) life)

-- `Match` of records one after the other, with the answers.
unfoldable pub match_all : Json → ReplayMatcher → List Record → Option (List Bool × ReplayMatcher)
match_all json m [] = some ([], m)
match_all json m (r ∷ rs) = elim (match_replay json m r) [
  | none ↦ none
  | some (b, m') ↦ elim (match_all json m' rs) [ none ↦ none | some (bs, t) ↦ some (b ∷ bs, t) ]
]

pub match_all-cons :
    (json : Json) (m m' t : ReplayMatcher) (r : Record) (rs : List Record) (b : Bool)
    (bs : List Bool)
    → match_replay json m r ≡ some (b, m')
    → match_all json m' rs ≡ some (bs, t)
    → match_all json m (r ∷ rs) ≡ some (b ∷ bs, t)
unfolding match_all
match_all-cons json m m' t r rs b bs e e' = simp (match_all, e, e') refl

unfoldable pub count : List Bool → ℕ
count [] = 0
count (b ∷ bs) = (if b then 1 else 0) + count bs

match_all-count_of_valid :
    (json : Json) (m : ReplayMatcher) (rs : List Record)
    → IsValid m
    → (bs : List Bool) × (t : ReplayMatcher) × (match_all json m rs ≡ some (bs, t))
      × (m.next + count bs ≤ t.next)
      × (t.next ≤ m.limit)
unfolding match_all count
match_all-count_of_valid json m [] v = ([], m, refl, omega arith, v.window)
match_all-count_of_valid json m (r ∷ rs) v =
    let (b, m', e, h) = match_replay-Moved json m r v in
    let (bs, t, e', more, inside) =
      match_all-count_of_valid json m' rs (match_replay-IsValid json m m' r b v e) in
    (
      b ∷ bs,
      t,
      match_all-cons json m m' t r rs b bs e e',
      omega (arith, h.forward, more),
      omega (arith, inside, h.same_limit),
    )

-- However many events a resumed agent replays, no more of them are recognised than the window has
-- records: each record of the journal answers for at most one event until the matcher is reset.
pub match_all-count :
    (json : Json) (rs : List Record) (m : ReplayMatcher) (replayed : List Record)
    → Life json (new_replay_matcher json rs) m
    → (bs : List Bool) × (t : ReplayMatcher) × (match_all json m replayed ≡ some (bs, t))
      × (m.next + count bs ≤ t.next)
      × (t.next ≤ m.limit)
match_all-count json rs m replayed life =
    match_all-count_of_valid json m replayed
      (Life-IsValid json (new_replay_matcher json rs) m (new_replay_matcher-IsValid json rs) life)
