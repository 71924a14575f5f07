-- ===== src/Journal/Replay/Journals.antt =====
-- A matcher that is made from a journal recognises that journal.
use durable_acp.Prelude.{
  ℕ, suc, ◌+◌, ◌≤◌, ◌<◌, ◌≡◌, refl, sym, ap, ◌∙◌, ◌⊎◌, inl, inr, Bool, true, false, not, ◌&&◌, ◌||◌,
  Option, none, some, List, [], ◌∷◌, ◌++◌, append-nil, append_assoc, arith, length, length-append,
  get_elem?, get_last?, is_empty, Bool-cases, Option-cases, map, ltb, ltb→lt,
}
use durable_acp.Journal.Record.{Record}
use durable_acp.Journal.Replay.{
  Json, ReplayKey, ReplayMatcher, replay_terminal, match_key, push_key, append_key, record_replay,
  record_all, new_replay_matcher, replay_key_for,
}
use durable_acp.Journal.Replay.Matching.{
  IsValid, Missed, Matched, recognised, unknown, match_key-Matched, by_provider, by_content,
}
use durable_acp.Journal.Replay.Histories.{match_all, match_all-cons, record_all-Grown}
use durable_acp.Journal.Replay.Keys.{
  by_provider_refl, by_content_refl, by_provider_empty, by_content_empty, true_ne_false,
  HasIdentity, keys, has_key, Sourceless, key_source, keys_skip, keys_take, has_no_key, has_a_key,
  match_skip, match_take,
}

push_key-records :
    (m : ReplayMatcher) (key : ReplayKey) → (push_key m key).records ≡ m.records ++ key ∷ []
unfolding push_key
push_key-records m key = elim (Bool-cases (replay_terminal key.event && not (is_empty key.turn))) [
  | inl h ↦ rw (push_key, h) refl
  | inr h ↦ rw (push_key, h) refl
]

append_key-records :
    (m : ReplayMatcher) (key : ReplayKey)
    → is_empty key.source ≡ true
    → (append_key m key).records ≡ m.records ++ key ∷ []
unfolding append_key
append_key-records m key h = elim (Option-cases (get_last? m.records)) [
  | inl e ↦ rw (append_key, e) (push_key-records m key)
  | inr (last, e) ↦ rw (append_key, e, h) (push_key-records m key)
]

record_all-records :
    (json : Json) (m : ReplayMatcher) (rs : List Record)
    → Sourceless rs
    → (record_all json m rs).records ≡ m.records ++ keys json rs
unfolding record_all keys record_replay HasIdentity
record_all-records json m [] h = sym (append-nil m.records)
record_all-records json m (r ∷ rs) (h, hs) = elim (Option-cases (replay_key_for json r)) [
  | inl e ↦ simp (record_all, record_replay, keys, e) (record_all-records json m rs hs)
  | inr (key, e) ↦
      let no_source : is_empty key.source ≡ true = ap is_empty (key_source json r key e).1 ∙ h in
      simp (record_all, record_replay, keys, e)
        (record_all-records json (append_key m key) rs hs
          ∙ ap (λ l. l ++ keys json rs) (append_key-records m key no_source)
          ∙ append_assoc m.records (key ∷ []) (keys json rs))
]

get_elem?-append_length :
    (done : List ReplayKey) (k : ReplayKey) (rest : List ReplayKey)
    → get_elem? (done ++ k ∷ rest) (length done) ≡ some k
get_elem?-append_length [] k rest = refl
get_elem?-append_length (d ∷ done) k rest = get_elem?-append_length done k rest

-- The answer when the record itself stands in the window: it is recognised, at the latest there.
abbrev Recognises : ReplayMatcher → ℕ → Option (Bool × ReplayMatcher) → Type 0
Recognises m at none = ⊥
Recognises m at (some (b, m')) =
    (b ≡ true) × (m'.next ≤ at + 1) × (m'.records ≡ m.records) × (m'.limit ≡ m.limit)

Identified : ReplayMatcher → ReplayKey → ℕ → Type 0
Identified m key i =
    (test : ReplayKey → Bool) → test key ≡ true → Missed test m.records m.next i → ⊥

-- A search that misses a record does not reach it.
unmissed :
    (m : ReplayMatcher) (key : ReplayKey) (at i : ℕ)
    → m.next ≤ at
    → at < i
    → get_elem? m.records at ≡ some key
    → Identified m key i
unfolding Identified
unmissed m key at i l u here test h others = true_ne_false h (others at key l u here)

not_after :
    (m : ReplayMatcher) (key k : ReplayKey) (i : ℕ)
    → Identified m key i
    → ((by_provider key k ≡ true) × Missed (by_provider key) m.records m.next i)
      ⊎ ((by_content key k ≡ true)
          × Missed (by_content key) m.records m.next i
          × Missed (by_provider key) m.records m.next m.limit)
    → ⊥
unfolding Identified
not_after m key k i found (inl (passes, others)) = elim (Bool-cases (is_empty key.provider_id)) [
  | inl e ↦ true_ne_false passes (by_provider_empty key k e)
  | inr e ↦ found (by_provider key) (by_provider_refl key e) others
]
not_after m key k i found (inr (passes, others, first)) = elim (Bool-cases (is_empty key.content)) [
  | inl e ↦ true_ne_false passes (by_content_empty key k e)
  | inr e ↦ found (by_content key) (by_content_refl key e) others
]

not_unknown :
    (m : ReplayMatcher) (key : ReplayKey)
    → (not (is_empty key.provider_id) || not (is_empty key.content)) ≡ true
    → Identified m key m.limit
    → Missed (by_provider key) m.records m.next m.limit
    → Missed (by_content key) m.records m.next m.limit
    → ⊥
unfolding Identified
not_unknown m key some_way found p c = elim (Bool-cases (is_empty key.provider_id)) [
  | inr e ↦ found (by_provider key) (by_provider_refl key e) p
  | inl e ↦ elim (Bool-cases (is_empty key.content)) [
    | inr e' ↦ found (by_content key) (by_content_refl key e') c
    | inl e' ↦ true_ne_false some_way (simp (e, e'))
  ]
]

Matched-Recognises :
    (m : ReplayMatcher) (r : Record) (key : ReplayKey) (at : ℕ) (o : Option (Bool × ReplayMatcher))
    → HasIdentity r key
    → m.next ≤ at
    → at < m.limit
    → get_elem? m.records at ≡ some key
    → Matched m key o
    → Recognises m at o
unfolding HasIdentity
Matched-Recognises m r key at _ identity l u here (recognised i k l' u' e why) =
    let early : i ≤ at = elim (Bool-cases (ltb at i)) [
      | inl after ↦
          absurd (not_after m key k i (unmissed m key at i l (ltb→lt at i after) here) why)
      | inr before ↦ ground arith
    ] in
    (refl, omega (arith, early), refl, refl)
Matched-Recognises m r key at _ identity l u here (unknown p c) =
    absurd (not_unknown m key identity.0 (unmissed m key at m.limit l u here) p c)

Recognises-total :
    (m : ReplayMatcher) (at : ℕ) (o : Option (Bool × ReplayMatcher))
    → Recognises m at o
    → (m' : ReplayMatcher) × (o ≡ some (true, m')) × Recognises m at (some (true, m'))
Recognises-total m at none h = absurd h
Recognises-total m at (some (b, m')) (e, below, same, limit) =
    (m', ap (λ (v : Bool). some (v, m')) e, (refl, below, same, limit))

recognises_rest :
    (json : Json) (rs : List Record) (m : ReplayMatcher) (done : List ReplayKey)
    → m.records ≡ done ++ keys json rs
    → m.limit ≡ length m.records
    → m.next ≤ length done
    → (t : ReplayMatcher) × (match_all json m rs ≡ some (map (has_key json) rs, t))
unfolding match_all
recognises_rest json [] m done e f l = (m, refl)
recognises_rest json (r ∷ rs) m done e f l = elim (Option-cases (replay_key_for json r)) [
  | inl no_key ↦
      let same = keys_skip json r rs no_key in
      let (t, h) = recognises_rest json rs m done (e ∙ ap (λ k. done ++ k) same) f l in
      (
        t,
        match_all-cons json m m t r rs false (map (has_key json) rs) (match_skip json m r no_key) h
            ∙ ap (λ b. some (b ∷ map (has_key json) rs, t)) (sym (has_no_key json r no_key)),
      )
  | inr (key, e') ↦
      let split : m.records ≡ done ++ key ∷ keys json rs =
        e ∙ ap (λ k. done ++ k) (keys_take json r rs key e') in
      let size : length m.records ≡ length done + suc (length (keys json rs)) =
        ap length split ∙ length-append done (key ∷ keys json rs) in
      let valid : IsValid m = record {
        window = omega (arith, f, l, size);
        stored = omega (arith, f);
      } in
      let here =
        ap (λ rs'. get_elem? rs' (length done)) split
        ∙ get_elem?-append_length done key (keys json rs) in
      let (m', step, next) = Recognises-total m (length done) (match_key m key) (
        Matched-Recognises m r key (length done) (match_key m key) (key_source json r key e') l
          (omega (arith, f, size)) here (match_key-Matched m key valid)) in
      let (t, h) =
        recognises_rest json rs m' (done ++ key ∷ [])
          (next.2 ∙ split ∙ sym (append_assoc done (key ∷ []) (keys json rs)))
          (next.3 ∙ f ∙ ap length (sym next.2))
          (omega (arith, next.1, length-append done (key ∷ []))) in
      (
        t,
        match_all-cons json m m' t r rs true (map (has_key json) rs)
              (match_take json m r key e' ∙ step) h
            ∙ ap (λ b. some (b ∷ map (has_key json) rs, t)) (sym (has_a_key json r key e')),
      )
]

-- A matcher that is made from a journal whose records name no source answers, when that journal is
-- replayed to it in order, that it knows each record that has a key, and does not panic.
pub recognises_journal :
    (json : Json) (rs : List Record)
    → Sourceless rs
    → (t : ReplayMatcher) × (match_all json (new_replay_matcher json rs) rs
        ≡ some (map (has_key json) rs, t))
unfolding new_replay_matcher
recognises_journal json rs h =
    let empty : ReplayMatcher = record {
      records = [];
      completed_turns = [];
      next = 0;
      limit = 0;
    } in
    let m : ReplayMatcher = record (record_all json empty rs) {
      limit = length (record_all json empty rs).records;
    } in
    recognises_rest json rs m [] (record_all-records json empty rs h) refl
      (omega (arith, (record_all-Grown json empty rs).same_next))
