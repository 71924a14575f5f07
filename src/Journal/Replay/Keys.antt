-- ===== src/Journal/Replay/Keys.antt =====
-- What a key says of itself and of its record, and the keys of a journal.
use durable_acp.Prelude.{
  ◌≡◌, refl, subst, inl, inr, String, Bool, true, false, not, ◌||◌, Option, none, some, List, [],
  ◌∷◌, is_empty, trim_space, eq_refl, Bool-cases, Option-cases,
}
use durable_acp.Journal.Record.{Record}
use durable_acp.Journal.Replay.{
  Json, ReplayKey, ReplayMatcher, replay_scope_matches, same_stream, same_provider, same_content,
  match_key, match_replay, replay_key_for, replay_string, replay_content,
}
use durable_acp.Journal.Replay.Matching.{by_provider, by_content}

replay_scope_matches_refl : (a : String) → replay_scope_matches a a ≡ true
unfolding replay_scope_matches
replay_scope_matches_refl a = elim (Bool-cases (is_empty a)) [
  | inl h ↦ rw h refl
  | inr h ↦ rw (h, eq_refl a) refl
]

same_stream_refl : (k : ReplayKey) → same_stream k k ≡ true
unfolding same_stream
same_stream_refl k = simp (replay_scope_matches_refl, eq_refl)

pub by_provider_refl : (k : ReplayKey) → is_empty k.provider_id ≡ false → by_provider k k ≡ true
unfolding by_provider same_provider
by_provider_refl k h = simp (same_stream_refl, eq_refl, h)

pub by_content_refl : (k : ReplayKey) → is_empty k.content ≡ false → by_content k k ≡ true
unfolding by_content same_content
by_content_refl k h = simp (same_stream_refl, eq_refl, h)

pub by_provider_empty : (k j : ReplayKey) → is_empty k.provider_id ≡ true → by_provider k j ≡ false
unfolding by_provider
by_provider_empty k j h = simp h

pub by_content_empty : (k j : ReplayKey) → is_empty k.content ≡ true → by_content k j ≡ false
unfolding by_content
by_content_empty k j h = simp h

pub true_ne_false : {b : Bool} → b ≡ true → b ≡ false → ⊥
true_ne_false h e = cc

-- A key has an identifier or a content, and its source is that of its record.
unfoldable pub HasIdentity : Record → ReplayKey → Type 0
HasIdentity r k =
    ((not (is_empty k.provider_id) || not (is_empty k.content)) ≡ true)
    × (k.source ≡ trim_space r.source_event_id)

abbrev Keyed : Record → Option ReplayKey → Type 0
Keyed r none = Unit {0}
Keyed r (some k) = HasIdentity r k

replay_key_for-Keyed : (json : Json) (r : Record) → Keyed r (replay_key_for json r)
unfolding replay_key_for HasIdentity
replay_key_for-Keyed json r = elim (Option-cases (json.unmarshal_object r.data_raw)) [
  | inl e ↦ simp (replay_key_for, e) tt
  | inr (fields, e) ↦
      elim (Option-cases (replay_content json fields (trim_space r.event) r.turn_id)) [
        | inl e' ↦ simp (replay_key_for, e, e') tt
        | inr (content, e') ↦
            elim (Bool-cases (
              not (is_empty (replay_string json fields "provider_event_id"))
              || not (is_empty content))) [
                | inl c ↦ simp (replay_key_for, e, e', c) (refl, refl)
                | inr c ↦ simp (replay_key_for, e, e', c) tt
              ]
      ]
]

unfoldable pub keys : Json → List Record → List ReplayKey
keys json [] = []
keys json (r ∷ rs) =
    let others = keys json rs in
    elim (replay_key_for json r) [ none ↦ others | some key ↦ key ∷ others ]

unfoldable pub has_key : Json → Record → Bool
has_key json r = elim (replay_key_for json r) [ none ↦ false | some key ↦ true ]

-- No record names a source, so that none takes the place of another.
abbrev pub Sourceless : List Record → Type 0
Sourceless [] = Unit {0}
Sourceless (r ∷ rs) = (is_empty (trim_space r.source_event_id) ≡ true) × Sourceless rs

pub key_source :
    (json : Json) (r : Record) (key : ReplayKey)
    → replay_key_for json r ≡ some key
    → HasIdentity r key
key_source json r key e = subst (Keyed r) e (replay_key_for-Keyed json r)

module _ (json : Json) (r : Record) where
  pub keys_skip :
      (rs : List Record) → replay_key_for json r ≡ none → keys json (r ∷ rs) ≡ keys json rs
  unfolding keys
  keys_skip rs e = simp (keys, e)

  pub keys_take :
      (rs : List Record) (key : ReplayKey)
      → replay_key_for json r ≡ some key
      → keys json (r ∷ rs) ≡ key ∷ keys json rs
  unfolding keys
  keys_take rs key e = simp (keys, e)

  pub has_no_key : replay_key_for json r ≡ none → has_key json r ≡ false
  unfolding has_key
  has_no_key e = simp (has_key, e)

  pub has_a_key : (key : ReplayKey) → replay_key_for json r ≡ some key → has_key json r ≡ true
  unfolding has_key
  has_a_key key e = simp (has_key, e)

pub match_skip :
    (json : Json) (m : ReplayMatcher) (r : Record)
    → replay_key_for json r ≡ none
    → match_replay json m r ≡ some (false, m)
unfolding match_replay
match_skip json m r e = simp (match_replay, e)

pub match_take :
    (json : Json) (m : ReplayMatcher) (r : Record) (key : ReplayKey)
    → replay_key_for json r ≡ some key
    → match_replay json m r ≡ match_key m key
unfolding match_replay
match_take json m r key e = simp (match_replay, e)
