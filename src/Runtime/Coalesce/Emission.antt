-- ===== src/Runtime/Coalesce/Emission.antt =====
-- runtime/coalesce.go: what the calls of a coalescer produce under its lock is delivered after the lock is
-- released, one event after another, while other calls may go on.
use mathlib.Core.List.{Perm, perm_middle}
use mathlib.Core.List.Perm
use durable_acp.Prelude.{
  ℕ, zero, suc, ◌≡◌, refl, sym, ap, ◌∙◌, subst, inl, inr, Option, none, some, List, [], ◌∷◌, ◌++◌,
  append-nil, append_assoc, Option-cases,
}
use durable_acp.Host.{Event}
use durable_acp.Runtime.Coalesce.{Coalescer}
use durable_acp.Runtime.Coalesce.Calls.{Call, perform, perform_all}

-- A coalescer, the events of the calls that are still to be delivered, call by call, and those that were
-- delivered.
pub record Emission : Type 0 where
  pub coalescer : Coalescer
  pub in_flight : List (List Event)
  pub delivered : List Event

-- A call goes through its section under the lock; or one of the calls delivers its next event.
pub data Act : Type 0 where
  locks : Call → Act
  emits : ℕ → Act

-- The next event of the call at a position.
unfoldable pub next_event : ℕ → List (List Event) → Option (Event × List (List Event))
next_event n [] = none
next_event zero ([] ∷ calls) = none
next_event zero ((e ∷ es) ∷ calls) = some (e, es ∷ calls)
next_event (suc n) (es ∷ calls) = elim (next_event n calls) [
  | none ↦ none
  | some (e, rest) ↦ some (e, es ∷ rest)
]

unfoldable pub act : Act → Emission → Emission
act (locks call) s =
    let (es, c) = perform call s.coalescer in
    record s { coalescer = c; in_flight = s.in_flight ++ es ∷ [] }
act (emits n) s = elim (next_event n s.in_flight) [
  | none ↦ s
  | some (e, rest) ↦ record s { in_flight = rest; delivered = s.delivered ++ e ∷ [] }
]

unfoldable pub act_all : List Act → Emission → Emission
act_all [] s = s
act_all (a ∷ acts) s = act_all acts (act a s)

-- The calls in the order in which they took the lock.
unfoldable pub calls_of : List Act → List Call
calls_of [] = []
calls_of (locks call ∷ acts) = call ∷ calls_of acts
calls_of (emits n ∷ acts) = calls_of acts

unfoldable pub join : List (List Event) → List Event
join [] = []
join (es ∷ calls) = es ++ join calls

-- All that is delivered or on its way.
abbrev pub pool : Emission → List Event
pool s = s.delivered ++ join s.in_flight

join-concat :
    (calls : List (List Event)) (es : List Event) → join (calls ++ es ∷ []) ≡ join calls ++ es
unfolding join
join-concat [] es = append-nil es
join-concat (fs ∷ calls) es =
    ap (λ x. fs ++ x) (join-concat calls es) ∙ sym (append_assoc fs (join calls) es)

abbrev TakenFrom : List (List Event) → Option (Event × List (List Event)) → Type 0
TakenFrom calls none = Unit {0}
TakenFrom calls (some (e, rest)) = Perm (join calls) (e ∷ join rest)

taken_behind :
    (es : List Event) (calls : List (List Event)) (o : Option (Event × List (List Event)))
    → TakenFrom calls o
    → TakenFrom (es ∷ calls) (elim o as (λ x. Option (Event × List (List Event))) [
      | none ↦ none
      | some (e, rest) ↦ some (e, es ∷ rest)
    ])
unfolding join
taken_behind es calls none p = tt
taken_behind es calls (some (e, rest)) p =
    Perm.trans (Perm.append_left es p) (perm_middle es (join rest))

next_event-TakenFrom : (n : ℕ) (calls : List (List Event)) → TakenFrom calls (next_event n calls)
unfolding next_event join
next_event-TakenFrom n [] = tt
next_event-TakenFrom zero ([] ∷ calls) = tt
next_event-TakenFrom zero ((e ∷ es) ∷ calls) = Perm.refl _
next_event-TakenFrom (suc n) (es ∷ calls) =
    taken_behind es calls (next_event n calls) (next_event-TakenFrom n calls)

emits-pool : (n : ℕ) (s : Emission) → Perm (pool (act (emits n) s)) (pool s)
unfolding act
emits-pool n s = elim (Option-cases (next_event n s.in_flight)) [
  | inl h ↦ simp (act, h) (Perm.refl (pool s))
  | inr ((e, rest), h) ↦
      let taken = subst (TakenFrom s.in_flight) h (next_event-TakenFrom n s.in_flight) in
      simp (act, h)
        (subst (λ (l : List Event). Perm l (pool s))
          (sym (append_assoc s.delivered (e ∷ []) (join rest)))
          (Perm.append_left s.delivered (Perm.symm taken)))
]

emits-coalescer : (n : ℕ) (s : Emission) → (act (emits n) s).coalescer ≡ s.coalescer
unfolding act
emits-coalescer n s = elim (Option-cases (next_event n s.in_flight)) [
  | inl h ↦ simp (act, h) refl
  | inr ((e, rest), h) ↦ simp (act, h) refl
]

-- Between the lock and the receiver no event is lost, doubled or made up.
pub act_all-pool :
    (acts : List Act) (s : Emission)
    → Perm (pool (act_all acts s)) (pool s ++ (perform_all (calls_of acts) s.coalescer).0)
unfolding act_all calls_of perform_all act
act_all-pool [] s =
    subst (λ (l : List Event). Perm (pool s) l) (sym (append-nil (pool s))) (Perm.refl (pool s))
act_all-pool (locks call ∷ acts) s =
    let (es, c) = perform call s.coalescer in
    let rest = (perform_all (calls_of acts) c).0 in
    let grown : pool (act (locks call) s) ≡ pool s ++ es =
      ap (λ x. s.delivered ++ x) (join-concat s.in_flight es)
      ∙ sym (append_assoc s.delivered (join s.in_flight) es) in
    let whole = ap (λ x. x ++ rest) grown ∙ append_assoc (pool s) es rest in
    subst (λ (l : List Event). Perm (pool (act_all acts (act (locks call) s))) l) whole
      (act_all-pool acts (act (locks call) s))
act_all-pool (emits n ∷ acts) s =
    let s' = act (emits n) s in
    let same : s'.coalescer ≡ s.coalescer = emits-coalescer n s in
    let rest = (perform_all (calls_of acts) s.coalescer).0 in
    Perm.trans
      (subst
        (λ (c : Coalescer).
          Perm (pool (act_all acts s')) (pool s' ++ (perform_all (calls_of acts) c).0))
        same (act_all-pool acts s'))
      (Perm.append_right rest (emits-pool n s))
