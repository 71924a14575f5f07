-- ===== src/Runtime/Bounds.antt =====
-- A runtime in order: no queue is longer than the limit, and a closed session has none.
pub mod Turns
pub mod Queues
pub mod Interrupts
pub mod Lives
pub mod Restored
pub mod Histories
use durable_acp.Prelude.{
  ℕ, suc, ◌≤◌, String, ◌≡◌, refl, sym, ap, ◌∙◌, subst, inl, inr, Bool, true, false, Option, none,
  some, List, [], ◌∷◌, arith, length, str_eq, eq_iff, eq_refl, if◌then◌else◌, Bool-cases,
  Option-cases, some_injective, Map, lookup, insert, erase, lookup-insert, lookup-erase,
}
use durable_acp.Session.{closed}
use durable_acp.Runtime.State.{ManagedSession, QueueEntry, Runtime, put}
use durable_acp.Runtime.Turns.{has_status}
use durable_acp.Runtime.Delivery.Frame.{Keeps}
use durable_acp.Runtime.Delivery.Sessions.{Frame, KeepsEntry}

pub record IsOrderly (limit : ℕ) (m : ManagedSession) : Type 0 where
  pub within : length m.queue ≤ limit
  pub empty : has_status closed m ≡ true → m.queue ≡ []

-- A session that is kept stays in order.
pub Keeps-IsOrderly :
    (limit : ℕ) (m m' : ManagedSession) → IsOrderly limit m → Keeps m m' → IsOrderly limit m'
Keeps-IsOrderly limit m m' o k = record {
  within = subst (λ (q : List QueueEntry). length q ≤ limit) (sym k.same_queue) o.within;
  empty = λ c. k.same_queue ∙ o.empty (sym k.same_closed ∙ c);
}

-- The entry of a session, where there is one.
abbrev pub OrderlyEntry : ℕ → Option ManagedSession → Type 0
OrderlyEntry limit none = Unit {0}
OrderlyEntry limit (some m) = IsOrderly limit m

kept-OrderlyEntry :
    (limit : ℕ) (o p : Option ManagedSession)
    → OrderlyEntry limit o
    → KeepsEntry o p
    → OrderlyEntry limit p
kept-OrderlyEntry limit none none h k = tt
kept-OrderlyEntry limit none (some m) h k = absurd k
kept-OrderlyEntry limit (some m) none h k = tt
kept-OrderlyEntry limit (some m) (some m') h k = Keeps-IsOrderly limit m m' h k

module _ {ℓ} {J : Type ℓ} where
  pub record IsBounded (r : Runtime J) : Type ℓ where
    pub entries : (id : String) → OrderlyEntry r.max_queued_turns (lookup id r.sessions)

  pub IsBounded-entry :
      (r : Runtime J) (id : String) (m : ManagedSession)
      → IsBounded r
      → lookup id r.sessions ≡ some m
      → IsOrderly r.max_queued_turns m
  IsBounded-entry r id m h e = subst (OrderlyEntry r.max_queued_turns) e (h.entries id)

  pub Frame-IsBounded : (r r' : Runtime J) → IsBounded r → Frame r r' → IsBounded r'
  Frame-IsBounded r r' h f = record {
    entries = λ id.
        subst (λ (n : ℕ). OrderlyEntry n (lookup id r'.sessions)) (sym f.same_limit)
          (kept-OrderlyEntry r.max_queued_turns (lookup id r.sessions) (lookup id r'.sessions)
            (h.entries id) (f.kept id));
  }

  pub put-IsBounded :
      (id : String) (m : ManagedSession) (r : Runtime J)
      → IsBounded r
      → IsOrderly r.max_queued_turns m
      → IsBounded (put id m r)
  unfolding put
  put-IsBounded id m r h o = record {
    entries = λ j. elim (Bool-cases (str_eq id j)) [
      | inl e ↦
          let now : lookup j (insert id m r.sessions) ≡ some m =
            lookup-insert id j m r.sessions ∙ rw e refl in
          rw now o
      | inr e ↦
          let now : lookup j (insert id m r.sessions) ≡ lookup j r.sessions =
            lookup-insert id j m r.sessions ∙ rw e refl in
          rw now (h.entries j)
    ];
  }

  -- Either way on, as a pair of an answer and a runtime.
  pub either_way-IsBounded {ℓ'} :
      {A : Type ℓ'} (b : Bool) (x y : A × Runtime J)
      → IsBounded x.1
      → IsBounded y.1
      → IsBounded (if b then x else y).1
  either_way-IsBounded true x y h k = h
  either_way-IsBounded false x y h k = k

  pub erase-IsBounded :
      (id : String) (r : Runtime J)
      → IsBounded r
      → IsBounded (record r { sessions = erase id r.sessions })
  erase-IsBounded id r h = record {
    entries = λ j. elim (Bool-cases (str_eq id j)) [
      | inl e ↦
          let now : lookup j (erase id r.sessions) ≡ none =
            lookup-erase id j r.sessions ∙ rw e refl in
          rw now tt
      | inr e ↦
          let now : lookup j (erase id r.sessions) ≡ lookup j r.sessions =
            lookup-erase id j r.sessions ∙ rw e refl in
          rw now (h.entries j)
    ];
  }
