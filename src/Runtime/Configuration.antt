-- ===== src/Runtime/Configuration.antt =====
-- runtime/runtime.go: the configuration of a session, and how requests and events change it.
pub mod Filling
use durable_acp.Prelude.{
  ℕ, ◌+◌, ◌%◌, ◌^◌, String, Bool, true, false, ◌&&◌, not, Option, none, some, ◌==◌, str_eq,
  is_empty, trim_space, if◌then◌else◌, Map, lookup,
}
use durable_acp.Host.{
  Event, Value, text, flag, strings, request, response, opaque_value, SendTurnRequest,
  StartSessionRequest, SessionConfiguration, event_models, event_reasoning_levels,
  event_permission_modes, event_config_catalog,
}
use durable_acp.Runtime.State.{ManagedSession, ConfigurationEventVersions}

unfoldable pub normalize_configuration : SessionConfiguration → SessionConfiguration
normalize_configuration c = record {
  model = trim_space c.model;
  reasoning = trim_space c.reasoning;
  permission_mode = trim_space c.permission_mode;
}

unfoldable pub configuration_from_start : StartSessionRequest → SessionConfiguration
unfolding normalize_configuration
configuration_from_start r =
    normalize_configuration
      (record { model = r.model; reasoning = r.reasoning; permission_mode = r.permission_mode })

unfoldable pub configuration_from_turn : SendTurnRequest → SessionConfiguration
unfolding normalize_configuration
configuration_from_turn r =
    normalize_configuration
      (record { model = r.model; reasoning = r.reasoning; permission_mode = r.permission_mode })

-- The new value, or the old one where there is none.
abbrev pub or_old : String → String → String
or_old update old = if is_empty update then old else update

unfoldable pub merge_configuration :
    SessionConfiguration → SessionConfiguration → SessionConfiguration
merge_configuration current update =
    let u = normalize_configuration update in
    normalize_configuration (record {
      model = or_old u.model current.model;
      reasoning = or_old u.reasoning current.reasoning;
      permission_mode = or_old u.permission_mode current.permission_mode;
    })

-- A field of a request that is blank takes the configured value.
abbrev pub filled : String → String → String
filled asked configured = if is_empty (trim_space asked) then configured else asked

unfoldable pub fill_start_configuration :
    StartSessionRequest → SessionConfiguration → StartSessionRequest
fill_start_configuration r c = record r {
  model = filled r.model c.model;
  reasoning = filled r.reasoning c.reasoning;
  permission_mode = filled r.permission_mode c.permission_mode;
}

unfoldable pub fill_turn_configuration : SendTurnRequest → SessionConfiguration → SendTurnRequest
fill_turn_configuration r c = record r {
  model = filled r.model c.model;
  reasoning = filled r.reasoning c.reasoning;
  permission_mode = filled r.permission_mode c.permission_mode;
}

pub data Field : Type 0 where
  model_field reasoning_field permission_field : Field

-- A `uint64` that counts the events on a field.
abbrev pub next_version : ℕ → ℕ
next_version n = (n + 1) % 2 ^ 64

unfoldable pub set_field : Field → String → ManagedSession → ManagedSession
set_field model_field value m = record m {
  configuration = record m.configuration { model = value };
  configuration_event = record m.configuration_event {
    model = next_version m.configuration_event.model;
  };
}
set_field reasoning_field value m = record m {
  configuration = record m.configuration { reasoning = value };
  configuration_event = record m.configuration_event {
    reasoning = next_version m.configuration_event.reasoning;
  };
}
set_field permission_field value m = record m {
  configuration = record m.configuration { permission_mode = value };
  configuration_event = record m.configuration_event {
    permission = next_version m.configuration_event.permission;
  };
}

-- `reconcileConfigurationValue`: a key that is missing or no string changes nothing.
unfoldable pub reconcile_configuration_value :
    Map Value → String → Field → ManagedSession → ManagedSession
reconcile_configuration_value fields key field m = elim (lookup key fields) [
  | none ↦ m
  | some (text value) ↦ set_field field (trim_space value) m
  | some (flag b) ↦ m
  | some (strings s) ↦ m
  | some (request r) ↦ m
  | some (response r) ↦ m
  | some (opaque_value n) ↦ m
]

unfoldable pub reconcile_configuration : Event → ManagedSession → ManagedSession
reconcile_configuration e m =
    if str_eq e.event_type event_models
    then reconcile_configuration_value e.fields "current_model" model_field m
    else if str_eq e.event_type event_reasoning_levels
    then reconcile_configuration_value e.fields "current_reasoning" reasoning_field m
    else if str_eq e.event_type event_permission_modes
    then reconcile_configuration_value e.fields "current_mode" permission_field m
    else if str_eq e.event_type event_config_catalog
    then reconcile_configuration_value e.fields "current_mode" permission_field (
        reconcile_configuration_value e.fields "current_reasoning" reasoning_field
          (reconcile_configuration_value e.fields "current_model" model_field m))
    else m

-- `mergeUnreportedConfiguration`: what the adapter has reported since is not overwritten.
unfoldable pub merge_unreported_configuration :
    SessionConfiguration → ConfigurationEventVersions → ManagedSession → ManagedSession
merge_unreported_configuration update before m =
    let u = normalize_configuration update in
    let now = m.configuration_event in
    let c = m.configuration in
    record m {
      configuration = record {
        model = if not (is_empty u.model) && now.model == before.model then u.model else c.model;
        reasoning =
            if not (is_empty u.reasoning) && now.reasoning == before.reasoning
            then u.reasoning
            else c.reasoning;
        permission_mode =
            if not (is_empty u.permission_mode) && now.permission == before.permission
            then u.permission_mode
            else c.permission_mode;
      };
    }
