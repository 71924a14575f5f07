-- ===== src/Session/Lifecycle.antt =====
-- The life of a session: which statuses follow which, and what stays as it was.
use durable_acp.Prelude.{
  ℕ, String, ◌≡◌, refl, ◌≢◌, ◌↔◌, ◌⊎◌, inl, inr, Bool, true, false, Bool-cases, none, some, List,
  [], ◌∷◌, arith,
}
use durable_acp.Session.{
  Status, creating, active, running, waiting_input, failed, closed, Session, not_allowed, allowed,
  new, transition_to, run,
}

-- A session that can still take turns.
pub data IsLive : Status → Type 0 where
  active_live : IsLive active
  running_live : IsLive running
  waiting_live : IsLive waiting_input

true_ne_false : {b : Bool} → b ≡ true → b ≡ false → ⊥
true_ne_false h e = cc

-- The diagram of the life of a session, read off the statuses' meaning: it is opened once, takes
-- turns while it is live, waits for input only in a turn, may fail until it is closed, and is closed
-- once.
infix 40 ◌⟶◌
pub data ◌⟶◌ : Status → Status → Type 0 where
  open_up : creating ⟶ active
  begin_turn : active ⟶ running
  end_turn : running ⟶ active
  ask : running ⟶ waiting_input
  answer : waiting_input ⟶ running
  abandon : waiting_input ⟶ active
  fail_early : creating ⟶ failed
  fail : {s : Status} → IsLive s → s ⟶ failed
  close_early : creating ⟶ closed
  close : {s : Status} → IsLive s → s ⟶ closed
  close_failed : failed ⟶ closed

ruleset edges = (
  open_up, begin_turn, end_turn, ask, answer, abandon, fail_early, fail, close_early, close,
  close_failed, active_live, running_live, waiting_live,
)

allowed_of_⟶ : {s t : Status} → s ⟶ t → allowed s t ≡ true
unfolding allowed
allowed_of_⟶ open_up = refl
allowed_of_⟶ begin_turn = refl
allowed_of_⟶ end_turn = refl
allowed_of_⟶ ask = refl
allowed_of_⟶ answer = refl
allowed_of_⟶ abandon = refl
allowed_of_⟶ fail_early = refl
allowed_of_⟶ (fail active_live) = refl
allowed_of_⟶ (fail running_live) = refl
allowed_of_⟶ (fail waiting_live) = refl
allowed_of_⟶ close_early = refl
allowed_of_⟶ (close active_live) = refl
allowed_of_⟶ (close running_live) = refl
allowed_of_⟶ (close waiting_live) = refl
allowed_of_⟶ close_failed = refl

⟶_of_allowed : (s t : Status) → allowed s t ≡ true → s ⟶ t
unfolding allowed
⟶_of_allowed s t h = grind (arith, edges)

-- The table of allowed transitions is the diagram.
allowed_iff : (s t : Status) → (allowed s t ≡ true) ↔ (s ⟶ t)
allowed_iff s t = (⟶_of_allowed s t, allowed_of_⟶)

-- `Transition` returns no error exactly along an edge of the diagram.
pub transition_to_iff :
    (s : Session) (next : Status) (now : ℕ)
    → ((transition_to s next now).1 ≡ none) ↔ (s.status ⟶ next)
unfolding transition_to
transition_to_iff s next now =
    (λ h. ⟶_of_allowed _ _ (ground arith), λ e. ground (arith, allowed_of_⟶ e))

-- Along an edge of the diagram, a transition returns no error and writes the status and the time of the
-- update, and nothing else; where there is no edge, it returns the error and leaves the session as it
-- was.
pub transition_to_frame :
    (s : Session) (next : Status) (now : ℕ)
    → ((s.status ⟶ next)
        × ((transition_to s next now).1 ≡ none)
        × ((transition_to s next now).0 ≡ record s { status = next; updated_at = now }))
      ⊎ ((¬ (s.status ⟶ next))
          × ((transition_to s next now).1 ≡ some (not_allowed s.status next))
          × ((transition_to s next now).0 ≡ s))
unfolding transition_to
transition_to_frame s next now = elim (Bool-cases (allowed s.status next)) [
  | inl h ↦
      inl (⟶_of_allowed s.status next h, simp (transition_to, h) refl, simp (transition_to, h) refl)
  | inr h ↦ inr (
    λ e. true_ne_false (allowed_of_⟶ e) h,
    simp (transition_to, h) refl,
    simp (transition_to, h) refl,
  )
]

-- Paths of the diagram.
infix 40 ◌⟶*◌
pub data ◌⟶*◌ : Status → Status → Type 0 where
  here : {s : Status} → s ⟶* s
  then : {s t u : Status} → s ⟶ t → t ⟶* u → s ⟶* u

transition_to_moves :
    (s : Session) (next : Status) (now : ℕ)
    → (s.status ⟶ (transition_to s next now).0.status) ⊎ ((transition_to s next now).0 ≡ s)
unfolding transition_to
transition_to_moves s next now = elim (Bool-cases (allowed s.status next)) [
  | inl h ↦ inl (rw h (⟶_of_allowed s.status next h))
  | inr h ↦ inr (rw h)
]

-- Whatever transitions are asked for, and whichever of them are refused, the status moves along the
-- diagram.
pub run-⟶* : (s : Session) (steps : List (Status × ℕ)) → s.status ⟶* (run s steps).status
unfolding run
run-⟶* s [] = here
run-⟶* s ((next, now) ∷ rest) = elim (transition_to_moves s next now) [
  | inl e ↦ then e (run-⟶* (transition_to s next now).0 rest)
  | inr same ↦ rw (same, run) (run-⟶* s rest)
]

closed_last : {s t : Status} → s ⟶ t → s ≢ closed
closed_last open_up h = cc
closed_last begin_turn h = cc
closed_last end_turn h = cc
closed_last ask h = cc
closed_last answer h = cc
closed_last abandon h = cc
closed_last fail_early h = cc
closed_last (fail active_live) h = cc
closed_last (fail running_live) h = cc
closed_last (fail waiting_live) h = cc
closed_last close_early h = cc
closed_last (close active_live) h = cc
closed_last (close running_live) h = cc
closed_last (close waiting_live) h = cc
closed_last close_failed h = cc

-- A closed session takes no transition any more: whatever is asked for, it is left as it was.
pub run_closed : (s : Session) (steps : List (Status × ℕ)) → s.status ≡ closed → run s steps ≡ s
unfolding run
run_closed s [] h = refl
run_closed s ((next, now) ∷ rest) h = elim (transition_to_moves s next now) [
  | inl e ↦ absurd (closed_last e h)
  | inr same ↦ rw same (run_closed s rest h)
]

-- The statuses from which a session can still be closed.
pub data IsOpen : Status → Type 0 where
  creating_open : IsOpen creating
  live_open : {s : Status} → IsLive s → IsOpen s
  failed_open : IsOpen failed

IsOpen-⟶ : {s : Status} → IsOpen s → s ⟶ closed
IsOpen-⟶ creating_open = close_early
IsOpen-⟶ (live_open l) = close l
IsOpen-⟶ failed_open = close_failed

⟶-IsOpen : {s t : Status} → s ⟶ t → IsOpen t ⊎ (t ≡ closed)
⟶-IsOpen open_up = inl (live_open active_live)
⟶-IsOpen begin_turn = inl (live_open running_live)
⟶-IsOpen end_turn = inl (live_open active_live)
⟶-IsOpen ask = inl (live_open waiting_live)
⟶-IsOpen answer = inl (live_open running_live)
⟶-IsOpen abandon = inl (live_open active_live)
⟶-IsOpen fail_early = inl failed_open
⟶-IsOpen (fail l) = inl failed_open
⟶-IsOpen close_early = inr refl
⟶-IsOpen (close l) = inr refl
⟶-IsOpen close_failed = inr refl

⟶*-IsOpen : {s t : Status} → IsOpen s ⊎ (s ≡ closed) → s ⟶* t → IsOpen t ⊎ (t ≡ closed)
⟶*-IsOpen h here = h
⟶*-IsOpen h (then e r) = ⟶*-IsOpen (⟶-IsOpen e) r

new-IsOpen : (id backend worktree : String) (now : ℕ) → IsOpen (new id backend worktree now).status
unfolding new
new-IsOpen id backend worktree now = creating_open

-- After any transitions from `New`, a session is closed already or `Transition` to closed succeeds.
pub close_after_run :
    (id backend worktree : String) (start now : ℕ) (steps : List (Status × ℕ))
    → let s = run (new id backend worktree start) steps in
      (s.status ≡ closed) ⊎ ((transition_to s closed now).1 ≡ none)
close_after_run id backend worktree start now steps =
    let s = run (new id backend worktree start) steps in
    elim (⟶*-IsOpen (inl (new-IsOpen id backend worktree start))
      (run-⟶* (new id backend worktree start) steps)) [
        | inl o ↦ inr ((transition_to_iff s closed now).1 (IsOpen-⟶ o))
        | inr c ↦ inl c
      ]
