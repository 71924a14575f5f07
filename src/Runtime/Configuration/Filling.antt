-- ===== src/Runtime/Configuration/Filling.antt =====
-- The configuration that a request asks an adapter for, and the one that the session keeps.
use durable_acp.Prelude.{
  String, ◌≡◌, refl, sym, inl, inr, is_empty, trim_space, trim_space-trim_space, Bool-cases,
}
use durable_acp.Host.{SendTurnRequest, StartSessionRequest, SessionConfiguration}
use durable_acp.Runtime.Configuration.{
  normalize_configuration, configuration_from_start, configuration_from_turn, merge_configuration,
  fill_start_configuration, fill_turn_configuration, or_old, filled,
}

filled-or_old :
    (a c : String) → trim_space (filled a c) ≡ trim_space (or_old (trim_space (trim_space a)) c)
filled-or_old a c = rw (trim_space-trim_space a) (elim (Bool-cases (is_empty (trim_space a))) [
  | inl h ↦ rw h refl
  | inr h ↦ rw h (sym (trim_space-trim_space a))
])

filled-merged :
    (a c : String)
    → trim_space (filled a (trim_space (or_old (trim_space (trim_space a)) c)))
      ≡ trim_space (or_old (trim_space (trim_space a)) c)
filled-merged a c = rw (trim_space-trim_space a) (elim (Bool-cases (is_empty (trim_space a))) [
  | inl h ↦ rw h (trim_space-trim_space c)
  | inr h ↦ rw h (sym (trim_space-trim_space a))
])

-- Filling a turn's request from the configuration of its session, and reading the request back, is
-- merging the request's own configuration into the session's.
pub configuration_from_turn-fill_turn_configuration :
    (r : SendTurnRequest) (c : SessionConfiguration)
    → configuration_from_turn (fill_turn_configuration r c)
      ≡ merge_configuration c (configuration_from_turn r)
unfolding configuration_from_turn fill_turn_configuration merge_configuration
    normalize_configuration
configuration_from_turn-fill_turn_configuration r c =
    rw
      (
        filled-or_old r.model c.model,
        filled-or_old r.reasoning c.reasoning,
        filled-or_old r.permission_mode c.permission_mode,
      )
      refl

-- A start's request that is filled from the configuration which the session has after the start was
-- merged into it asks for exactly that configuration.
pub configuration_from_start-fill_start_configuration :
    (r : StartSessionRequest) (c : SessionConfiguration)
    → configuration_from_start
        (fill_start_configuration r (merge_configuration c (configuration_from_start r)))
      ≡ merge_configuration c (configuration_from_start r)
unfolding configuration_from_start fill_start_configuration merge_configuration
    normalize_configuration
configuration_from_start-fill_start_configuration r c =
    rw
      (
        filled-merged r.model c.model,
        filled-merged r.reasoning c.reasoning,
        filled-merged r.permission_mode c.permission_mode,
      )
      refl
