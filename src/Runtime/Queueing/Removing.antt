-- ===== src/Runtime/Queueing/Removing.antt =====
-- The entry that RemoveQueuedTurn takes out of a queue.
use durable_acp.Prelude.{
  String, ◌≡◌, refl, ap, ◌∙◌, subst, inl, inr, Bool, true, false, ◌||◌, Option, none, some, List,
  [], ◌∷◌, ◌++◌, str_eq, Bool-cases, Option-cases,
}
use durable_acp.Runtime.State.{QueueEntry}
use durable_acp.Runtime.Queueing.{take_entry}

-- Some entry has the identifier.
unfoldable pub any_named : String → List QueueEntry → Bool
any_named id [] = false
any_named id (entry ∷ q) = str_eq entry.id id || any_named id q

-- The first entry of an identifier, with the entries around it, which stay in their order.
pub record TakenOut (id : String) (q : List QueueEntry) (entry : QueueEntry)
    (others : List QueueEntry) : Type 0 where
  pub before : List QueueEntry
  pub after : List QueueEntry
  pub whole : q ≡ before ++ entry ∷ after
  pub rest : others ≡ before ++ after
  pub named : str_eq entry.id id ≡ true
  pub first : any_named id before ≡ false

abbrev pub Removed : String → List QueueEntry → Option (QueueEntry × List QueueEntry) → Type 0
Removed id q none = any_named id q ≡ false
Removed id q (some (entry, others)) = TakenOut id q entry others

not_here :
    (id : String) (entry : QueueEntry) (q : List QueueEntry)
    → str_eq entry.id id ≡ false
    → any_named id q ≡ false
    → any_named id (entry ∷ q) ≡ false
unfolding any_named
not_here id entry q h k = ap (λ b. b || any_named id q) h ∙ k

taken_later :
    (id : String) (entry found : QueueEntry) (q others : List QueueEntry)
    → str_eq entry.id id ≡ false
    → TakenOut id q found others
    → TakenOut id (entry ∷ q) found (entry ∷ others)
taken_later id entry found q others h t = record {
  before = entry ∷ t.before;
  after = t.after;
  whole = ap (λ (x : List QueueEntry). entry ∷ x) t.whole;
  rest = ap (λ (x : List QueueEntry). entry ∷ x) t.rest;
  named = t.named;
  first = not_here id entry t.before h t.first;
}

-- The search for an identifier in a queue finds nothing exactly when no entry has it; otherwise it takes
-- out the first entry that has it, and leaves all others in their order.
pub take_entry-Removed : (id : String) (q : List QueueEntry) → Removed id q (take_entry id q)
unfolding take_entry any_named
take_entry-Removed id [] = refl
take_entry-Removed id (entry ∷ q) = elim (Bool-cases (str_eq entry.id id)) [
  | inl e ↦
      simp (take_entry, e)
        (record { before = []; after = q; whole = refl; rest = refl; named = e; first = refl })
  | inr n ↦ elim (Option-cases (take_entry id q)) [
    | inl h ↦ simp (take_entry, n, h) (subst (Removed id q) h (take_entry-Removed id q))
    | inr ((found, others), h) ↦
        simp (take_entry, n, h)
          (taken_later id entry found q others n (subst (Removed id q) h (take_entry-Removed id q)))
  ]
]
