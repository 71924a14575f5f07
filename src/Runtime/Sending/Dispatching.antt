-- ===== src/Runtime/Sending/Dispatching.antt =====
-- `dispatchQueued` ends, and gives every turn that it takes to the adapter in the order of the queue.
use durable_acp.Prelude.{
  ℕ, zero, suc, ◌<◌, String, ◌≡◌, refl, sym, ap, ◌∙◌, subst, ◌⊎◌, inl, inr, Bool, true, false, ◌||◌,
  Option, none, some, List, [], ◌∷◌, arith, length, Bool-cases, Option-cases, Result-cases, ok, err,
  Result, Map, lookup, lookup-insert_self,
}
use durable_acp.Host.{Value}
use durable_acp.Session.{closed}
use durable_acp.Journal.Record.{Bytes}
use durable_acp.Journal.Replay.{Json}
use durable_acp.Runtime.State.{
  ManagedSession, QueueEntry, TurnDispatch, Adapter, Runtime, Clock, RuntimeError, put,
  adapter_locked,
}
use durable_acp.Runtime.Turns.{has_status}
use durable_acp.Runtime.Delivery.{Appender, emit_queue}
use durable_acp.Runtime.Delivery.Sessions.{Frame-trans, KeepsEntry, emit_queue-Frame}
use durable_acp.Runtime.Sending.{
  Submission, is_busy, begin_dispatch, next_turn, submit_turn, dispatch_once, dispatch_queued,
}
use durable_acp.Runtime.Sending.Frames.{submit_turn-Frame}

-- How many turns wait in a session.
unfoldable pub depth_of : Option ManagedSession → ℕ
depth_of none = 0
depth_of (some m) = length m.queue

depth-kept : (o p : Option ManagedSession) → KeepsEntry o p → depth_of p ≡ depth_of o
unfolding depth_of
depth-kept none none k = refl
depth-kept none (some m) k = absurd k
depth-kept (some m) none k = absurd k
depth-kept (some m) (some m') k = ap length k.same_queue

-- What there is to say of the turn that is taken: the session was idle and open, and the turn was the
-- first of its queue.
pub record Taken (m : ManagedSession) (entry : QueueEntry) (m' : ManagedSession) : Type 0 where
  pub idle : is_busy m ≡ false
  pub still_open : has_status closed m ≡ false
  pub first : m.queue ≡ entry ∷ m'.queue
  pub dispatches : m' ≡ begin_dispatch (record m { queue = m'.queue })

or_false_left : (a b : Bool) → (a || b) ≡ false → a ≡ false
or_false_left true b h = cc
or_false_left false b h = refl

or_false_right : (a b : Bool) → (a || b) ≡ false → b ≡ false
or_false_right true b h = cc
or_false_right false b h = h

abbrev TakenIf : ManagedSession → Option (QueueEntry × ManagedSession) → Type 0
TakenIf m none = Unit {0}
TakenIf m (some (entry, m')) = Taken m entry m'

pub List-cases {ℓ} :
    {A : Type ℓ} (xs : List A) → (xs ≡ []) ⊎ ((x : A) × (ys : List A) × (xs ≡ x ∷ ys))
List-cases [] = inl refl
List-cases (x ∷ xs) = inr (x, xs, refl)

next_turn-TakenIf : (m : ManagedSession) → TakenIf m (next_turn m)
unfolding next_turn begin_dispatch
next_turn-TakenIf m = elim (List-cases m.queue) [
  | inl h ↦ simp (next_turn, h) tt
  | inr (entry, rest, h) ↦ elim (Bool-cases (is_busy m || has_status closed m)) [
    | inl no_turn ↦ simp (next_turn, h, no_turn) tt
    | inr free ↦
        simp (next_turn, h, free)
          (record {
            idle = or_false_left (is_busy m) (has_status closed m) free;
            still_open = or_false_right (is_busy m) (has_status closed m) free;
            first = h;
            dispatches = refl;
          })
  ]
]

pub next_turn-Taken :
    (m : ManagedSession) (entry : QueueEntry) (m' : ManagedSession)
    → next_turn m ≡ some (entry, m')
    → Taken m entry m'
next_turn-Taken m entry m' h = subst (TakenIf m) h (next_turn-TakenIf m)

-- What `adapterLocked` finds.
abbrev Found {ℓ} :
    {J : Type ℓ} → String → Runtime J → Result RuntimeError (ManagedSession × Adapter) → Type 0
Found id r (err e) = Unit {0}
Found id r (ok (m, adapter)) = lookup id r.sessions ≡ some m

adapter_locked-Found {ℓ} :
    {J : Type ℓ} (id : String) (r : Runtime J) → Found id r (adapter_locked id r)
unfolding adapter_locked
adapter_locked-Found id r = elim (Option-cases (lookup id r.sessions)) [
  | inl h ↦ simp (adapter_locked, h) tt
  | inr (m, h) ↦ elim (Option-cases (lookup m.session.backend r.adapters)) [
    | inl a ↦ simp (adapter_locked, h, a) tt
    | inr (adapter, a) ↦ simp (adapter_locked, h, a) refl
  ]
]

pub adapter_locked-found {ℓ} :
    {J : Type ℓ} (id : String) (r : Runtime J) (m : ManagedSession) (adapter : Adapter)
    → adapter_locked id r ≡ ok (m, adapter)
    → lookup id r.sessions ≡ some m
adapter_locked-found id r m adapter h = subst (Found id r) h (adapter_locked-Found id r)

module _ {ℓ} {J : Type ℓ} (json : Json) (marshal : Map Value → Option Bytes)
    (append_record : Appender J) where
  -- A round that goes on has made the queue shorter by one.
  abbrev Progress : String → ℕ → Bool × Runtime J → Type 0
  Progress id n (b, r') = b ≡ true → suc (depth_of (lookup id r'.sessions)) ≡ n

  dispatch_once-Progress :
      (clock : Clock) (id : String) (out : Submission) (r : Runtime J)
      → Progress id
          (depth_of (lookup id r.sessions))
          (dispatch_once json marshal append_record clock id out r)
  unfolding dispatch_once depth_of put
  dispatch_once-Progress clock id out r = elim (Result-cases (adapter_locked id r)) [
    | inr (e, h) ↦ simp (dispatch_once, h) (λ b. cc)
    | inl ((m, adapter), h) ↦ elim (Option-cases (next_turn m)) [
      | inl t ↦ simp (dispatch_once, h, t) (λ b. cc)
      | inr ((entry, m'), t) ↦
          let there = adapter_locked-found id r m adapter h in
          let taken = next_turn-Taken m entry m' t in
          let begun = put id m' r in
          let shown = emit_queue json marshal append_record clock id begun in
          let d : TurnDispatch = record {
            session_id = id;
            queue_entry_id = entry.id;
            request = entry.request;
            queued = true;
          } in
          let sent = (submit_turn json marshal append_record clock d out shown).1 in
          let frame =
            Frame-trans begun shown sent
              (emit_queue-Frame json marshal append_record clock id begun)
              (submit_turn-Frame json marshal append_record clock d out shown) in
          let after =
            depth-kept (lookup id begun.sessions) (lookup id sent.sessions) (frame.kept id)
            ∙ ap depth_of (lookup-insert_self id m' r.sessions) in
          let before = ap depth_of there ∙ ap length taken.first in
          let less = ap suc after ∙ sym before in
          elim (Result-cases (submit_turn json marshal append_record clock d out shown).0) [
            | inl (state, a) ↦ simp (dispatch_once, h, t, a) (λ b. cc)
            | inr (e, a) ↦ simp (dispatch_once, h, t, a) (λ b. less)
          ]
    ]
  ]

  -- `dispatchQueued` returns, whatever the adapter and the host do to the submissions, within one round
  -- more than there are turns in the queue.
  pub dispatch_queued-returns :
      (fuel : ℕ) (clock : Clock) (id : String) (outs : ℕ → Submission) (r : Runtime J)
      → depth_of (lookup id r.sessions) < fuel
      → (dispatch_queued json marshal append_record fuel clock id outs r).0 ≡ true
  unfolding dispatch_queued
  dispatch_queued-returns zero clock id outs r h = absurd (omega (arith, h))
  dispatch_queued-returns (suc fuel) clock id outs r h =
      let once = dispatch_once json marshal append_record clock id (outs fuel) r in
      elim (Bool-cases once.0) [
        | inr done ↦ simp (dispatch_queued, done) refl
        | inl more ↦
            let less = dispatch_once-Progress clock id (outs fuel) r more in
            simp (dispatch_queued, more)
              (dispatch_queued-returns fuel clock id outs once.1 (omega (arith, h, less)))
      ]
