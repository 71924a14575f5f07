-- ===== src/Journal/Replay/Turns.antt =====
-- The turns that a matcher takes for completed are those that the journal has ended.
use durable_acp.Prelude.{
  ◌≡◌, refl, sym, ap, ◌∙◌, inl, inr, Bool, true, false, not, ◌&&◌, ◌||◌, some, List, [], ◌∷◌, ◌++◌,
  String, str_eq, is_empty, Bool-cases, Option-cases, get_last?,
}
use durable_acp.Journal.Record.{Record}
use durable_acp.Journal.Replay.{
  Json, ReplayKey, ReplayTurn, ReplayMatcher, replay_terminal, turn_matches, replay_scope_matches,
  push_key, append_key, any_turn, record_replay, record_all, new_replay_matcher,
  matches_completed_turn, replay_key_for,
}
use durable_acp.Journal.Replay.Keys.{
  HasIdentity, key_source, Sourceless, keys, keys_skip, keys_take,
}

abbrev turn_of : ReplayKey → ReplayTurn
turn_of k = record {
  session = k.session;
  conversation = k.conversation;
  thread = k.thread;
  turn = k.turn;
}

-- Two names of a session, a conversation or a thread that agree: one is unknown, or they are the same.
abbrev pub agree : String → String → Bool
agree a b = is_empty a || is_empty b || str_eq a b

-- The events that end a turn.
abbrev pub is_last_event : String → Bool
is_last_event event =
    str_eq event "agent.yielded"
    || str_eq event "agent.interrupted"
    || str_eq event "agent.turn_failed"
    || str_eq event "agent.process_exited"

-- A record of the journal, by its key `k`, that ends the turn of a key.
unfoldable pub ends_turn : ReplayKey → ReplayKey → Bool
ends_turn key k =
    (is_last_event k.event && not (is_empty k.turn))
    && (str_eq k.turn key.turn
        && agree k.session key.session
        && agree k.conversation key.conversation
        && agree k.thread key.thread)

-- The same, as the matcher tests it.
completes_turn : ReplayKey → ReplayKey → Bool
completes_turn key k =
    (replay_terminal k.event && not (is_empty k.turn)) && turn_matches (turn_of k) key

completes_turn-eq-ends_turn : (key k : ReplayKey) → completes_turn key k ≡ ends_turn key k
unfolding completes_turn ends_turn replay_terminal turn_matches replay_scope_matches
completes_turn-eq-ends_turn key k = refl

unfoldable pub any_key : (ReplayKey → Bool) → List ReplayKey → Bool
any_key test [] = false
any_key test (k ∷ ks) = test k || any_key test ks

any_key-ends_turn :
    (key : ReplayKey) (ks : List ReplayKey)
    → any_key (completes_turn key) ks ≡ any_key (ends_turn key) ks
unfolding any_key
any_key-ends_turn key [] = refl
any_key-ends_turn key (k ∷ ks) =
    rw (completes_turn-eq-ends_turn key k)
      (ap (λ b. ends_turn key k || b) (any_key-ends_turn key ks))

or_assoc : (a b c : Bool) → ((a || b) || c) ≡ (a || (b || c))
or_assoc true b c = refl
or_assoc false b c = refl

or_false : (a : Bool) → (a || false) ≡ a
or_false true = refl
or_false false = refl

any_turn-append :
    (test : ReplayTurn → Bool) (ts us : List ReplayTurn)
    → any_turn test (ts ++ us) ≡ (any_turn test ts || any_turn test us)
unfolding any_turn
any_turn-append test [] us = refl
any_turn-append test (t ∷ ts) us =
    ap (λ b. test t || b) (any_turn-append test ts us)
    ∙ sym (or_assoc (test t) (any_turn test ts) (any_turn test us))

module _ (json : Json) (key : ReplayKey) where
  completes : ReplayMatcher → Bool
  completes m = any_turn (λ turn. turn_matches turn key) m.completed_turns

  push_key-completes :
      (m : ReplayMatcher) (k : ReplayKey)
      → completes (push_key m k) ≡ (completes m || completes_turn key k)
  unfolding completes push_key completes_turn any_turn
  push_key-completes m k = elim (Bool-cases (replay_terminal k.event && not (is_empty k.turn))) [
    | inl h ↦
        rw (push_key, h)
          (any_turn-append (λ turn. turn_matches turn key) m.completed_turns (turn_of k ∷ [])
            ∙ ap (λ b. any_turn (λ turn. turn_matches turn key) m.completed_turns || b)
                (or_false (turn_matches (turn_of k) key)))
    | inr h ↦
        rw (push_key, h)
          (sym (or_false (any_turn (λ turn. turn_matches turn key) m.completed_turns)))
  ]

  append_key-completes :
      (m : ReplayMatcher) (k : ReplayKey)
      → is_empty k.source ≡ true
      → completes (append_key m k) ≡ (completes m || completes_turn key k)
  unfolding append_key
  append_key-completes m k h = elim (Option-cases (get_last? m.records)) [
    | inl e ↦ rw (append_key, e) (push_key-completes m k)
    | inr (last, e) ↦ rw (append_key, e, h) (push_key-completes m k)
  ]

  record_all-completes :
      (m : ReplayMatcher) (rs : List Record)
      → Sourceless rs
      → completes (record_all json m rs)
        ≡ (completes m || any_key (completes_turn key) (keys json rs))
  unfolding record_all record_replay any_key HasIdentity keys
  record_all-completes m [] h = sym (or_false (completes m))
  record_all-completes m (r ∷ rs) (h, hs) = elim (Option-cases (replay_key_for json r)) [
    | inl e ↦
        simp (record_all, record_replay, e)
          (record_all-completes m rs hs
            ∙ ap (λ ks. completes m || any_key (completes_turn key) ks)
                (sym (keys_skip json r rs e)))
    | inr (k, e) ↦
        let no_source = ap is_empty (key_source json r k e).1 ∙ h in
        simp (record_all, record_replay, e)
          (record_all-completes (append_key m k) rs hs
            ∙ ap (λ b. b || any_key (completes_turn key) (keys json rs))
                (append_key-completes m k no_source)
            ∙ or_assoc (completes m) (completes_turn key k)
                (any_key (completes_turn key) (keys json rs))
            ∙ ap (λ ks. completes m || any_key (completes_turn key) ks)
                (sym (keys_take json r rs k e)))
  ]

-- A matcher that is made from a journal whose records name no source takes the turn of a key for
-- completed exactly if the key has a turn and some record of the journal ends it: one with the event
-- agent.yielded, agent.interrupted, agent.turn_failed or agent.process_exited, of the same turn, in a
-- session, a conversation and a thread that agree where both are known.
pub matches_completed_turn_lem :
    (json : Json) (rs : List Record) (r : Record) (key : ReplayKey)
    → Sourceless rs
    → replay_key_for json r ≡ some key
    → matches_completed_turn json (new_replay_matcher json rs) r
      ≡ (not (is_empty key.turn) && any_key (ends_turn key) (keys json rs))
unfolding matches_completed_turn new_replay_matcher completes any_turn
matches_completed_turn_lem json rs r key h e =
    let empty : ReplayMatcher = record {
      records = [];
      completed_turns = [];
      next = 0;
      limit = 0;
    } in
    simp (matches_completed_turn, e)
      (ap (λ b. not (is_empty key.turn) && b)
        (record_all-completes json key empty rs h ∙ any_key-ends_turn key (keys json rs)))
