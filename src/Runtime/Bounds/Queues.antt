-- ===== src/Runtime/Bounds/Queues.antt =====
-- The calls that manage the queue of a session keep a runtime in order.
use durable_acp.Prelude.{
  ℕ, ◌+◌, ◌≤◌, String, ◌≡◌, refl, ap, subst, inl, inr, Bool, true, false, Option, none, some, List,
  [], ◌∷◌, arith, length, str_eq, trim_space, Bool-cases, Option-cases, Result-cases, ok, err,
  Result, if◌then◌else◌, Map, lookup,
}
use durable_acp.Host.{Value, SendTurnRequest}
use durable_acp.Journal.Record.{Bytes}
use durable_acp.Journal.Replay.{Json}
use durable_acp.Runtime.State.{
  ManagedSession, QueueEntry, Runtime, Clock, RuntimeError, put, session_of,
}
use durable_acp.Runtime.Configuration.{fill_turn_configuration}
use durable_acp.Runtime.Delivery.{Appender, emit_queue}
use durable_acp.Runtime.Delivery.Sessions.{Frame-trans, emit_queue-Frame, spawn_dispatch-Frame}
use durable_acp.Runtime.Sending.{lacks_prompt}
use durable_acp.Runtime.Queueing.{
  take_entry, replace_entry, remove_queued_turn, replace_queued_turn, block_dispatch,
  unblock_dispatch, is_idle,
}
use durable_acp.Runtime.Bounds.{
  IsOrderly, IsBounded, IsBounded-entry, Frame-IsBounded, put-IsBounded,
}

-- What was taken out of a queue, or replaced in it, by its length.
abbrev Shrinks : ℕ → List QueueEntry → Option (QueueEntry × List QueueEntry) → Type 0
Shrinks n q none = Unit {0}
Shrinks n q (some (entry, others)) = length q ≡ n + length others

later-Shrinks :
    (n : ℕ) (first : QueueEntry) (q : List QueueEntry) (o : Option (QueueEntry × List QueueEntry))
    → Shrinks n q o
    → Shrinks n (first ∷ q) (elim o as (λ x. Option (QueueEntry × List QueueEntry)) [
      | none ↦ none
      | some (found, others) ↦ some (found, first ∷ others)
    ])
later-Shrinks n first q none h = tt
later-Shrinks n first q (some (found, others)) h = omega (arith, h)

either_way-Shrinks :
    (b : Bool) (n : ℕ) (q : List QueueEntry) (o p : Option (QueueEntry × List QueueEntry))
    → Shrinks n q o
    → Shrinks n q p
    → Shrinks n q (if b then o else p)
either_way-Shrinks true n q o p h k = h
either_way-Shrinks false n q o p h k = k

take_entry-Shrinks : (id : String) (q : List QueueEntry) → Shrinks 1 q (take_entry id q)
unfolding take_entry
take_entry-Shrinks id [] = tt
take_entry-Shrinks id (entry ∷ q) =
    either_way-Shrinks (str_eq entry.id id) 1 (entry ∷ q) (some (entry, q)) _ (omega arith)
      (later-Shrinks 1 entry q (take_entry id q) (take_entry-Shrinks id q))

replace_entry-Shrinks :
    (id : String) (request : SendTurnRequest) (q : List QueueEntry)
    → Shrinks 0 q (replace_entry id request q)
unfolding replace_entry
replace_entry-Shrinks id request [] = tt
replace_entry-Shrinks id request (entry ∷ q) =
    let changed : QueueEntry = record entry { request = request } in
    either_way-Shrinks (str_eq entry.id id) 0 (entry ∷ q) (some (changed, changed ∷ q)) _
      (omega arith)
      (later-Shrinks 0 entry q (replace_entry id request q) (replace_entry-Shrinks id request q))

nil_of_length : (q : List QueueEntry) → length q ≤ 0 → q ≡ []
nil_of_length [] h = refl
nil_of_length (x ∷ q) h = elim h [ ]

-- A queue that does not become longer.
pub shorter-IsOrderly :
    (limit : ℕ) (m : ManagedSession) (q : List QueueEntry)
    → IsOrderly limit m
    → length q ≤ length m.queue
    → IsOrderly limit (record m { queue = q })
shorter-IsOrderly limit m q o h = record {
  within = omega (arith, o.within, h);
  empty = λ c. nil_of_length q (omega (arith, h, ap length (o.empty c)));
}

-- What `session_of` finds.
abbrev Found {ℓ} : {J : Type ℓ} → String → Runtime J → Result RuntimeError ManagedSession → Type 0
Found id r (err e) = Unit {0}
Found id r (ok m) = lookup id r.sessions ≡ some m

session_of-Found {ℓ} : {J : Type ℓ} (id : String) (r : Runtime J) → Found id r (session_of id r)
unfolding session_of
session_of-Found id r = elim (Option-cases (lookup id r.sessions)) [
  | inl h ↦ simp (session_of, h) tt
  | inr (m, h) ↦ simp (session_of, h) refl
]

pub session_of-found {ℓ} :
    {J : Type ℓ} (id : String) (r : Runtime J) (m : ManagedSession)
    → session_of id r ≡ ok m
    → lookup id r.sessions ≡ some m
session_of-found id r m h = subst (Found id r) h (session_of-Found id r)

module _ {ℓ} {J : Type ℓ} (json : Json) (marshal : Map Value → Option Bytes)
    (append_record : Appender J) where
  pub remove_queued_turn-IsBounded :
      (clock : Clock) (session_id entry_id : String) (r : Runtime J)
      → IsBounded r
      → IsBounded (remove_queued_turn json marshal append_record clock session_id entry_id r).1
  unfolding remove_queued_turn
  remove_queued_turn-IsBounded clock session_id entry_id r h =
      let id = trim_space session_id in
      elim (Result-cases (session_of id r)) [
        | inr (x, a) ↦ simp (remove_queued_turn, a) h
        | inl (m, a) ↦ elim (Option-cases (take_entry (trim_space entry_id) m.queue)) [
          | inl t ↦ simp (remove_queued_turn, a, t) h
          | inr ((entry, others), t) ↦
              let m' : ManagedSession = record m { queue = others } in
              let less : length m.queue ≡ 1 + length others =
                subst (Shrinks 1 m.queue) t (take_entry-Shrinks (trim_space entry_id) m.queue) in
              let o =
                shorter-IsOrderly r.max_queued_turns m others
                  (IsBounded-entry r id m h (session_of-found id r m a)) (omega (arith, less)) in
              simp (remove_queued_turn, a, t)
                (Frame-IsBounded (put id m' r) _ (put-IsBounded id m' r h o)
                  (emit_queue-Frame json marshal append_record clock id (put id m' r)))
        ]
      ]

  pub replace_queued_turn-IsBounded :
      (clock : Clock) (session_id entry_id : String) (asked : SendTurnRequest) (r : Runtime J)
      → IsBounded r
      → IsBounded
          (replace_queued_turn json marshal append_record clock session_id entry_id asked r).1
  unfolding replace_queued_turn
  replace_queued_turn-IsBounded clock session_id entry_id asked r h =
      let id = trim_space session_id in
      elim (Bool-cases (lacks_prompt asked)) [
        | inl blank ↦ simp (replace_queued_turn, blank) h
        | inr said ↦ elim (Result-cases (session_of id r)) [
          | inr (x, a) ↦ simp (replace_queued_turn, said, a) h
          | inl (m, a) ↦
              let filled =
                fill_turn_configuration (record asked { session_id = id }) m.configuration in
              elim (Option-cases (replace_entry (trim_space entry_id) filled m.queue)) [
                | inl t ↦ simp (replace_queued_turn, said, a, t) h
                | inr ((entry, entries), t) ↦
                    let m' : ManagedSession = record m { queue = entries } in
                    let same : length m.queue ≡ 0 + length entries =
                      subst (Shrinks 0 m.queue) t
                        (replace_entry-Shrinks (trim_space entry_id) filled m.queue) in
                    let o =
                      shorter-IsOrderly r.max_queued_turns m entries
                        (IsBounded-entry r id m h (session_of-found id r m a))
                        (omega (arith, same)) in
                    simp (replace_queued_turn, said, a, t)
                      (Frame-IsBounded (put id m' r) _ (put-IsBounded id m' r h o)
                        (emit_queue-Frame json marshal append_record clock id (put id m' r)))
              ]
        ]
      ]

  blocked-IsOrderly :
      (limit : ℕ) (b : Bool) (m : ManagedSession)
      → IsOrderly limit m
      → IsOrderly limit (record m { dispatch_blocked = b })
  blocked-IsOrderly limit b m o = record { within = o.within; empty = o.empty }

  pub block_dispatch-IsBounded :
      (clock : Clock) (session_id : String) (r : Runtime J)
      → IsBounded r
      → IsBounded (block_dispatch json marshal append_record clock session_id r).1
  unfolding block_dispatch
  block_dispatch-IsBounded clock session_id r h =
      let id = trim_space session_id in
      elim (Result-cases (session_of id r)) [
        | inr (x, a) ↦ simp (block_dispatch, a) h
        | inl (m, a) ↦
            let m' : ManagedSession = record m { dispatch_blocked = true } in
            let o =
              blocked-IsOrderly r.max_queued_turns true m
                (IsBounded-entry r id m h (session_of-found id r m a)) in
            simp (block_dispatch, a)
              (Frame-IsBounded (put id m' r) _ (put-IsBounded id m' r h o)
                (emit_queue-Frame json marshal append_record clock id (put id m' r)))
      ]

  pub unblock_dispatch-IsBounded :
      (clock : Clock) (session_id : String) (r : Runtime J)
      → IsBounded r
      → IsBounded (unblock_dispatch json marshal append_record clock session_id r).1
  unfolding unblock_dispatch
  unblock_dispatch-IsBounded clock session_id r h =
      let id = trim_space session_id in
      elim (Result-cases (session_of id r)) [
        | inr (x, a) ↦ simp (unblock_dispatch, a) h
        | inl (m, a) ↦
            let m' : ManagedSession = record m { dispatch_blocked = false } in
            let r' = put id m' r in
            let shown = emit_queue json marshal append_record clock id r' in
            let o =
              blocked-IsOrderly r.max_queued_turns false m
                (IsBounded-entry r id m h (session_of-found id r m a)) in
            simp (unblock_dispatch, a)
              (Frame-IsBounded r' _ (put-IsBounded id m' r h o) (
                Frame-trans r' shown _ (emit_queue-Frame json marshal append_record clock id r') (
                  spawn_dispatch-Frame json marshal append_record
                    (is_idle json marshal append_record m) id shown)))
      ]
