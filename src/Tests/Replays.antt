-- ===== src/Tests/Replays.antt =====
-- The replay matcher on a small journal.
use durable_acp.Prelude.{
  ℕ, ◌+◌, ◌≤◌, ◌≡◌, refl, String, Bool, not, ◌&&◌, Option, none, some, List, [], ◌∷◌, map, Map,
  ◌==◌, if◌then◌else◌, is_empty, trim_space, lookup,
}
use durable_acp.Journal.Record.{Bytes, Record}
use durable_acp.Journal.Replay.{
  Json, ReplayKey, ReplayMatcher, match_replay, matches_completed_turn, record_replay,
  new_replay_matcher, replay_key_for, replay_content, replay_agent_string,
}
use durable_acp.Journal.Replay.Histories.{
  Answered, Life, made, records, Life-Answered, match_all, count, match_all-count,
}
use durable_acp.Journal.Replay.Keys.{keys, has_key}
use durable_acp.Journal.Replay.Journals.{recognises_journal}
use durable_acp.Journal.Replay.Turns.{any_key, ends_turn, matches_completed_turn_lem}
use durable_acp.Tests.Codec.{sample}

-- An object with the message "one" or "two", by the first byte.
abbrev object_of : Bytes → Option (Map String)
object_of [] = none
object_of (b ∷ bs) = some (("message", if b == 1 then "one" else "two") ∷ [])

abbrev pub small_json : Json
small_json = record {
  Value = String;
  unmarshal_object = object_of;
  as_string = λ (v : String). some v;
  as_object = λ (v : String). none;
  marshal_value = λ (v : Option String). elim v [ none ↦ some "null" | some text ↦ some text ];
}

abbrev said : ℕ → Record
said b = record (sample 1) { data_raw = b ∷ [] }

abbrev yielded : Record
yielded = record (sample 2) { data_raw = 3 ∷ []; event = "agent.yielded"; turn_id = "t" }

abbrev journal : List Record
journal = said 1 ∷ said 2 ∷ yielded ∷ []

abbrev after_use : ReplayMatcher
after_use = record_replay small_json (new_replay_matcher small_json journal) (said 2)

abbrev used : Life small_json (new_replay_matcher small_json journal) after_use
used = records (said 2) made

Life-Answered_example :
    Answered small_json after_use (said 2) (match_replay small_json after_use (said 2))
Life-Answered_example = Life-Answered small_json journal after_use (said 2) used

match_all-count_example :
    (bs : List Bool) × (t : ReplayMatcher) × (match_all small_json after_use (said 2 ∷ said 2 ∷ [])
      ≡ some (bs, t))
    × (after_use.next + count bs ≤ t.next)
    × (t.next ≤ after_use.limit)
match_all-count_example = match_all-count small_json journal after_use (said 2 ∷ said 2 ∷ []) used

recognises_journal_example :
    (t : ReplayMatcher) × (match_all small_json (new_replay_matcher small_json journal) journal
      ≡ some (map (has_key small_json) journal, t))
unfolding trim_space
recognises_journal_example = recognises_journal small_json journal (refl, (refl, (refl, tt)))

abbrev yielded_key : ReplayKey
yielded_key = record {
  session = "s";
  conversation = "";
  thread = "";
  turn = "t";
  event = "agent.yielded";
  provider_id = "";
  content = "t";
  source = "";
}

matches_completed_turn_lem_example :
    matches_completed_turn small_json (new_replay_matcher small_json journal) yielded
    ≡ (not (is_empty yielded_key.turn) && any_key (ends_turn yielded_key) (keys small_json journal))
unfolding trim_space replay_key_for replay_content replay_agent_string lookup
matches_completed_turn_lem_example =
    matches_completed_turn_lem small_json journal yielded yielded_key (refl, (refl, (refl, tt)))
      refl
