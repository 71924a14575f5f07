-- ===== src/Tests/Sessions.antt =====
-- The status of a session at concrete calls.
use durable_acp.Prelude.{ℕ, ◌≡◌, refl, ◌↔◌, ◌⊎◌, none, some, List, [], ◌∷◌}
use durable_acp.Session.{
  Status, active, running, waiting_input, failed, closed, Session, not_allowed, new, transition_to,
  run,
}
use durable_acp.Session.Lifecycle.{
  ◌⟶◌, transition_to_iff, transition_to_frame, run_closed, close_after_run,
}

abbrev fresh : Session
fresh = new "s" "codex" "/w" 5

abbrev steps : List (Status × ℕ)
steps = (active, 6) ∷ (waiting_input, 7) ∷ (running, 8) ∷ (failed, 9) ∷ []

transition_to_iff_example : ((transition_to fresh active 6).1 ≡ none) ↔ (fresh.status ⟶ active)
transition_to_iff_example = transition_to_iff fresh active 6

transition_to_frame_example :
    ((fresh.status ⟶ running)
      × ((transition_to fresh running 6).1 ≡ none)
      × ((transition_to fresh running 6).0 ≡ record fresh { status = running; updated_at = 6 }))
    ⊎ ((¬ (fresh.status ⟶ running))
        × ((transition_to fresh running 6).1 ≡ some (not_allowed fresh.status running))
        × ((transition_to fresh running 6).0 ≡ fresh))
transition_to_frame_example = transition_to_frame fresh running 6

run_closed_example : run (record fresh { status = closed }) steps ≡ record fresh { status = closed }
run_closed_example = run_closed (record fresh { status = closed }) steps refl

close_after_run_example :
    let s = run (new "s" "codex" "/w" 5) steps in
    (s.status ≡ closed) ⊎ ((transition_to s closed 10).1 ≡ none)
close_after_run_example = close_after_run "s" "codex" "/w" 5 10 steps
