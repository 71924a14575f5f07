-- ===== src/Journal/Replay.antt =====
-- journal/replay.go: the matcher that recognises, among the events that a resumed agent replays, those
-- that the journal already holds.
pub mod Matching
pub mod Histories
pub mod Keys
pub mod Journals
pub mod Turns
use durable_acp.Prelude.{
  ℕ, zero, suc, ◌+◌, ◌-◌, String, Bool, true, false, ◌&&◌, ◌||◌, not, Option, none, some, List, [],
  ◌∷◌, ◌++◌, length, set, get_elem?, get_last?, str_eq, is_empty, trim_space, if◌then◌else◌, Map,
  lookup,
}
use durable_acp.Journal.Record.{Bytes, Record}
use durable_acp.Journal.Events.{
  user_message, agent_message, agent_permission, agent_workspace, agent_turn_started, agent_yielded,
  agent_interrupted, agent_turn_failed, agent_process_exited, agent_plan_proposed,
  agent_todo_updated,
}

-- What `encoding/json` makes of raw data: `json.Unmarshal` into a map of values (`null` gives the nil
-- map, which is empty), the assertions of a value's dynamic type, and `json.Marshal` of a value or of
-- nil.
pub record Json : Type 1 where
  pub Value : Type 0
  pub unmarshal_object : Bytes → Option (Map Value)
  pub as_string : Value → Option String
  pub as_object : Value → Option (Map Value)
  pub marshal_value : Option Value → Option String

pub record ReplayKey : Type 0 where
  pub session : String
  pub conversation : String
  pub thread : String
  pub turn : String
  pub event : String
  pub provider_id : String
  pub content : String
  pub source : String

pub record ReplayTurn : Type 0 where
  pub session : String
  pub conversation : String
  pub thread : String
  pub turn : String

pub record ReplayMatcher : Type 0 where
  pub records : List ReplayKey
  pub completed_turns : List ReplayTurn
  pub next : ℕ
  pub limit : ℕ

unfoldable pub replay_scope_matches : String → String → Bool
replay_scope_matches a b = is_empty a || is_empty b || str_eq a b

unfoldable pub same_stream : ReplayKey → ReplayKey → Bool
same_stream a b =
    str_eq a.event b.event
    && replay_scope_matches a.session b.session
    && replay_scope_matches a.conversation b.conversation
    && replay_scope_matches a.thread b.thread

-- The method `matches` of a completed turn.
unfoldable pub turn_matches : ReplayTurn → ReplayKey → Bool
unfolding replay_scope_matches
turn_matches a b =
    str_eq a.turn b.turn
    && replay_scope_matches a.session b.session
    && replay_scope_matches a.conversation b.conversation
    && replay_scope_matches a.thread b.thread

unfoldable pub replay_terminal : String → Bool
replay_terminal event =
    str_eq event agent_yielded
    || str_eq event agent_interrupted
    || str_eq event agent_turn_failed
    || str_eq event agent_process_exited

module _ (json : Json) where
  -- A missing key, and a value that is no string, give the empty text.
  unfoldable pub replay_string : Map json.Value → String → String
  replay_string fields key = elim (lookup key fields) [
    | none ↦ ""
    | some value ↦ elim (json.as_string value) [ none ↦ "" | some text ↦ trim_space text ]
  ]

  unfoldable pub replay_json : Option json.Value → String
  replay_json value = elim (json.marshal_value value) [ none ↦ "" | some raw ↦ raw ]

  unfoldable pub replay_agent_string : Map json.Value → String → String
  unfolding replay_string
  replay_agent_string fields key = elim (lookup "agent" fields) [
    | none ↦ ""
    | some value ↦ elim (json.as_object value) [ none ↦ "" | some agent ↦ replay_string agent key ]
  ]

  -- The content that identifies an event of the given name, if the name is one of those.
  unfoldable pub replay_content : Map json.Value → String → String → Option String
  unfolding replay_string replay_json
  replay_content fields event turn_id =
      if str_eq event user_message || str_eq event agent_message || str_eq event agent_plan_proposed
      then some (replay_string fields "message")
      else if str_eq event agent_todo_updated
      then some (replay_json (lookup "todos" fields))
      else if str_eq event agent_workspace || str_eq event agent_permission
      then some (replay_json (lookup "selected" fields))
      else if str_eq event agent_turn_started
          || str_eq event agent_yielded
          || str_eq event agent_interrupted
          || str_eq event agent_turn_failed
          || str_eq event agent_process_exited
      then some (trim_space turn_id)
      else none

  -- `replayKeyFor`, whose callers drop the key that comes with `false`.
  unfoldable pub replay_key_for : Record → Option ReplayKey
  replay_key_for r = elim (json.unmarshal_object r.data_raw) [
    | none ↦ none
    | some fields ↦
        let event = trim_space r.event in
        let provider_id = replay_string fields "provider_event_id" in
        elim (replay_content fields event r.turn_id) [
          | none ↦ none
          | some content ↦
              if not (is_empty provider_id) || not (is_empty content)
              then some (record {
                session = trim_space r.session_id;
                conversation = trim_space r.conversation;
                thread = replay_agent_string fields "backend_thread_id";
                turn = trim_space r.turn_id;
                event = event;
                provider_id = provider_id;
                content = content;
                source = trim_space r.source_event_id;
              })
              else none
        ]
  ]

-- One of the two loops of `Match`: what it finds from an index on, in a number of steps. Past the end
-- of the list the index is out of range, and Go panics.
pub data Search : Type 0 where
  found_at : ℕ → Search
  not_found index_out_of_range : Search

unfoldable pub search_from : (ReplayKey → Bool) → List ReplayKey → ℕ → ℕ → Search
search_from test records index zero = not_found
search_from test records index (suc steps) =
    let further = search_from test records (suc index) steps in
    elim (get_elem? records index) [
      | none ↦ index_out_of_range
      | some persisted ↦ if test persisted then found_at index else further
    ]

unfoldable pub same_provider : ReplayKey → ReplayKey → Bool
same_provider key persisted =
    same_stream persisted key
    && not (is_empty persisted.provider_id)
    && str_eq persisted.provider_id key.provider_id

unfoldable pub same_content : ReplayKey → ReplayKey → Bool
same_content key persisted = same_stream persisted key && str_eq persisted.content key.content

-- A loop that is run only if the key has what it looks for.
unfoldable pub search_if : Bool → ReplayMatcher → (ReplayKey → Bool) → Search
search_if has m test =
    let found = search_from test m.records m.next (m.limit - m.next) in
    if has then found else not_found

-- The second loop runs when the first one has found nothing.
unfoldable pub or_else : Search → Search → Search
or_else (found_at index) second = found_at index
or_else index_out_of_range second = index_out_of_range
or_else not_found second = second

unfoldable pub move_to : ReplayMatcher → Search → Option (Bool × ReplayMatcher)
move_to m (found_at index) = some (true, record m { next = index + 1 })
move_to m not_found = some (false, m)
move_to m index_out_of_range = none

-- `Match` of a key, first by the provider's identifier and then by content; `none` is a panic.
unfoldable pub match_key : ReplayMatcher → ReplayKey → Option (Bool × ReplayMatcher)
match_key m key =
    let by_provider = search_if (not (is_empty key.provider_id)) m (same_provider key) in
    let by_content = search_if (not (is_empty key.content)) m (same_content key) in
    move_to m (or_else by_provider by_content)

-- `append` of a key: a later form of the last record, from the same source, takes its place.
unfoldable pub push_key : ReplayMatcher → ReplayKey → ReplayMatcher
push_key m key =
    let pushed = record m { records = m.records ++ key ∷ [] } in
    if replay_terminal key.event && not (is_empty key.turn)
    then record pushed {
      completed_turns =
          m.completed_turns
          ++ record {
            session = key.session;
            conversation = key.conversation;
            thread = key.thread;
            turn = key.turn;
          }
            ∷ [];
    }
    else pushed

unfoldable pub append_key : ReplayMatcher → ReplayKey → ReplayMatcher
append_key m key =
    let replaced = record m { records = set m.records (length m.records - 1) key } in
    let pushed = push_key m key in
    elim (get_last? m.records) [
      | none ↦ pushed
      | some last ↦
          if not (is_empty key.source) && str_eq last.source key.source && same_stream last key
          then replaced
          else pushed
    ]

-- `Reset`.
unfoldable pub reset : ReplayMatcher → ReplayMatcher
reset m = record m { next = 0; limit = length m.records }

unfoldable pub any_turn : (ReplayTurn → Bool) → List ReplayTurn → Bool
any_turn test [] = false
any_turn test (t ∷ ts) = test t || any_turn test ts

-- The methods of a matcher that is not nil.
module _ (json : Json) where
  unfoldable pub match_replay : ReplayMatcher → Record → Option (Bool × ReplayMatcher)
  match_replay m r = elim (replay_key_for json r) [
    | none ↦ some (false, m)
    | some key ↦ match_key m key
  ]

  unfoldable pub matches_completed_turn : ReplayMatcher → Record → Bool
  matches_completed_turn m r = elim (replay_key_for json r) [
    | none ↦ false
    | some key ↦
        not (is_empty key.turn) && any_turn (λ turn. turn_matches turn key) m.completed_turns
  ]

  -- `Record`, and the unexported `append`.
  unfoldable pub record_replay : ReplayMatcher → Record → ReplayMatcher
  record_replay m r = elim (replay_key_for json r) [ none ↦ m | some key ↦ append_key m key ]

  unfoldable pub record_all : ReplayMatcher → List Record → ReplayMatcher
  record_all m [] = m
  record_all m (r ∷ rs) = record_all (record_replay m r) rs

  -- `NewReplayMatcher`.
  unfoldable pub new_replay_matcher : List Record → ReplayMatcher
  new_replay_matcher rs =
      let empty : ReplayMatcher = record {
        records = [];
        completed_turns = [];
        next = 0;
        limit = 0;
      } in
      let m = record_all empty rs in record m { limit = length m.records }
