-- ===== src/Runtime/Coalesce/Calls.antt =====
-- A coalescer through any sequence of calls.
use durable_acp.Prelude.{
  ℕ, ◌≤◌, ◌≡◌, refl, ap, ◌∙◌, subst, inl, inr, Bool, true, false, ◌&&◌, Option, none, some, List,
  [], ◌∷◌, ◌++◌, arith, ◌==◌, Bool-cases, Option-cases,
}
use durable_acp.Host.{Event}
use durable_acp.Runtime.Coalesce.{
  byte_length, Coalescer, is_assistant_delta, is_assistant_snapshot, in_stream, flush, clear,
  begin_stream, start_stream, join_stream, finish_stream, pass_on, handle, close_coalescer, fire,
  new_delta_coalescer,
}
use durable_acp.Runtime.Coalesce.Streaming.{flush-closed}
use durable_acp.Runtime.Coalesce.Snapshots.{byte_length-append}

pub data Call : Type 0 where
  handles : Event → Call
  ticks closes : Call

unfoldable pub perform : Call → Coalescer → List Event × Coalescer
perform (handles e) c = handle e c
perform ticks c = fire c
perform closes c = close_coalescer c

unfoldable pub perform_all : List Call → Coalescer → List Event × Coalescer
perform_all [] c = ([], c)
perform_all (k ∷ ks) c =
    let (es, c') = perform k c in let (fs, c'') = perform_all ks c' in (es ++ fs, c'')

-- No more is flushed than is pending, and nothing is pending in a coalescer that is closed.
abbrev Holds : ℕ → Bool → Option Event → Type 0
Holds flushed closed none = flushed ≡ 0
Holds flushed closed (some p) = (flushed ≤ byte_length p.message) × (closed ≡ false)

unfoldable pub IsConsistent : Coalescer → Type 0
IsConsistent c = Holds c.flushed c.closed c.pending

flush-IsConsistent : (c : Coalescer) → IsConsistent c → IsConsistent (flush c).1
unfolding flush IsConsistent
flush-IsConsistent c v = elim (Option-cases c.pending) [
  | inl h ↦ simp (flush, h) (subst (Holds c.flushed c.closed) h v)
  | inr (p, h) ↦
      let (le, still) = subst (Holds c.flushed c.closed) h v in
      elim (Bool-cases (byte_length p.message == c.flushed)) [
        | inl same ↦ simp (flush, h, same) (le, still)
        | inr more ↦ simp (flush, h, more) (omega arith, still)
      ]
]

start_stream-IsConsistent :
    (e : Event) (c : Coalescer) → c.closed ≡ false → IsConsistent (start_stream e c).1
unfolding start_stream begin_stream clear IsConsistent
start_stream-IsConsistent e c h =
    flush-IsConsistent (begin_stream e (flush c).1) (omega arith, flush-closed c ∙ h)

join_stream-IsConsistent :
    (p e : Event) (c : Coalescer)
    → c.pending ≡ some p
    → IsConsistent c
    → IsConsistent (join_stream p e c).1
unfolding join_stream IsConsistent
join_stream-IsConsistent p e c h v =
    let (le, still) = subst (Holds c.flushed c.closed) h v in
    (omega (arith, le, byte_length-append p.message e.message), still)

pass_on-IsConsistent : (e : Event) (c : Coalescer) → IsConsistent (pass_on e c).1
unfolding pass_on clear IsConsistent
pass_on-IsConsistent e c = refl

finish_stream-IsConsistent : (p e : Event) (c : Coalescer) → IsConsistent (finish_stream p e c).1
unfolding finish_stream clear IsConsistent
finish_stream-IsConsistent p e c = refl

clear-IsConsistent : (c : Coalescer) → IsConsistent (clear c)
unfolding clear IsConsistent
clear-IsConsistent c = refl

timer-IsConsistent : (c : Coalescer) → IsConsistent c → IsConsistent (record c { timer = false })
unfolding IsConsistent
timer-IsConsistent c v = v

handle-IsConsistent : (e : Event) (c : Coalescer) → IsConsistent c → IsConsistent (handle e c).1
unfolding handle
handle-IsConsistent e c v = elim (Bool-cases c.closed) [
  | inl shut ↦ simp (handle, shut) v
  | inr still ↦ elim (Bool-cases (is_assistant_delta e)) [
    | inl delta ↦ elim (Option-cases c.pending) [
      | inl h ↦ simp (handle, still, delta, h) (start_stream-IsConsistent e c still)
      | inr (p, h) ↦ elim (Bool-cases (in_stream e c)) [
        | inl inside ↦ simp (handle, still, delta, h, inside) (join_stream-IsConsistent p e c h v)
        | inr outside ↦
            simp (handle, still, delta, h, outside) (start_stream-IsConsistent e c still)
      ]
    ]
    | inr other ↦ elim (Option-cases c.pending) [
      | inl h ↦ simp (handle, still, other, h) (pass_on-IsConsistent e c)
      | inr (p, h) ↦ elim (Bool-cases (is_assistant_snapshot e && in_stream e c)) [
        | inl inside ↦ simp (handle, still, other, h, inside) (finish_stream-IsConsistent p e c)
        | inr outside ↦ simp (handle, still, other, h, outside) (pass_on-IsConsistent e c)
      ]
    ]
  ]
]

close_coalescer-IsConsistent : (c : Coalescer) → IsConsistent c → IsConsistent (close_coalescer c).1
unfolding close_coalescer
close_coalescer-IsConsistent c v = elim (Bool-cases c.closed) [
  | inl shut ↦ simp (close_coalescer, shut) v
  | inr still ↦
      simp (close_coalescer, still) (clear-IsConsistent (record (flush c).1 { closed = true }))
]

fire-IsConsistent : (c : Coalescer) → IsConsistent c → IsConsistent (fire c).1
unfolding fire flush
fire-IsConsistent c v = elim (Bool-cases c.closed) [
  | inl shut ↦
      simp (fire, shut)
        (subst (λ (b : Bool). IsConsistent (record c { timer = false; closed = b })) shut
          (timer-IsConsistent c v))
  | inr still ↦
      simp (fire, still) (flush-IsConsistent (record c { timer = false }) (timer-IsConsistent c v))
]

perform-IsConsistent : (k : Call) (c : Coalescer) → IsConsistent c → IsConsistent (perform k c).1
unfolding perform
perform-IsConsistent (handles e) c v = handle-IsConsistent e c v
perform-IsConsistent ticks c v = fire-IsConsistent c v
perform-IsConsistent closes c v = close_coalescer-IsConsistent c v

perform_all-IsConsistent_from :
    (ks : List Call) (c : Coalescer) → IsConsistent c → IsConsistent (perform_all ks c).1
unfolding perform_all
perform_all-IsConsistent_from [] c v = v
perform_all-IsConsistent_from (k ∷ ks) c v =
    perform_all-IsConsistent_from ks (perform k c).1 (perform-IsConsistent k c v)

-- After any calls on a new coalescer: nothing that is pending has been flushed further than its text
-- goes, something is pending only while the coalescer is open, and without it nothing is flushed.
pub perform_all-IsConsistent :
    (ks : List Call) → IsConsistent (perform_all ks new_delta_coalescer).1
unfolding new_delta_coalescer IsConsistent
perform_all-IsConsistent ks = perform_all-IsConsistent_from ks new_delta_coalescer refl

perform_closed :
    (k : Call) (c : Coalescer)
    → c.closed ≡ true
    → ((perform k c).0 ≡ []) × ((perform k c).1.closed ≡ true)
unfolding perform handle fire close_coalescer
perform_closed (handles e) c h = simp (handle, h) (refl, refl)
perform_closed ticks c h = simp (fire, h) (refl, refl)
perform_closed closes c h = simp (close_coalescer, h) (refl, refl)

-- No call produces an event any more once a coalescer is closed.
pub silent : (ks : List Call) (c : Coalescer) → c.closed ≡ true → (perform_all ks c).0 ≡ []
unfolding perform_all
silent [] c h = refl
silent (k ∷ ks) c h =
    let (none_yet, still) = perform_closed k c h in
    ap (λ es. es ++ (perform_all ks (perform k c).1).0) none_yet ∙ silent ks (perform k c).1 still

pub close_coalescer-closed : (c : Coalescer) → (close_coalescer c).1.closed ≡ true
unfolding close_coalescer clear
close_coalescer-closed c = elim (Bool-cases c.closed) [
  | inl shut ↦ simp (close_coalescer, shut) refl
  | inr still ↦ simp (close_coalescer, still) refl
]
