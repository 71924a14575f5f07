-- ===== src/Journal/Replay/Matching.antt =====
-- What `Match` finds: the first record of the window with the provider's identifier, or else the first
-- one with the content; its searches stay inside the list.
use durable_acp.Prelude.{
  ℕ, zero, suc, ◌+◌, ◌-◌, ◌≤◌, ◌<◌, ◌≡◌, refl, sym, ap, ◌∙◌, subst, ◌⊎◌, inl, inr, Bool, true,
  false, ◌&&◌, not, Option, some, List, arith, length, ◌==◌, get_elem?, some_injective,
  get_elem?_of_lt, is_empty, Bool-cases,
}
use durable_acp.Journal.Replay.{
  ReplayKey, ReplayMatcher, Search, found_at, not_found, search_from, same_provider, same_content,
  search_if, or_else, move_to, match_key,
}

-- The window lies inside the list.
pub record IsValid (m : ReplayMatcher) : Type 0 where
  pub window : m.next ≤ m.limit
  pub stored : m.limit ≤ length m.records

-- No record from one index up to another passes a test.
abbrev pub Missed : (ReplayKey → Bool) → List ReplayKey → ℕ → ℕ → Type 0
Missed test records a b =
    (j : ℕ) (k : ReplayKey) → a ≤ j → j < b → get_elem? records j ≡ some k → test k ≡ false

pub data Searched (test : ReplayKey → Bool) (records : List ReplayKey) (a b : ℕ)
    : Search → Type 0 where
  hit :
      (i : ℕ) (k : ReplayKey)
      → a ≤ i
      → i < b
      → get_elem? records i ≡ some k
      → test k ≡ true
      → Missed test records a i
      → Searched test records a b (found_at i)
  miss : Missed test records a b → Searched test records a b not_found

module _ (test : ReplayKey → Bool) (records : List ReplayKey) where
  Missed-further :
      (a b : ℕ) (k : ReplayKey)
      → get_elem? records a ≡ some k
      → test k ≡ false
      → Missed test records (suc a) b
      → Missed test records a b
  Missed-further a b k here fails others j k' l u e = elim (Bool-cases (j == a)) [
    | inl same ↦
        let at_a : get_elem? records j ≡ get_elem? records a =
          ap (get_elem? records) (ground (arith, same)) in
        let one : k ≡ k' = some_injective (sym here ∙ sym at_a ∙ e) in ap test (sym one) ∙ fails
    | inr apart ↦ others j k' (ground arith) u e
  ]

  further-Searched :
      (a b : ℕ) (k : ReplayKey) (s : Search)
      → get_elem? records a ≡ some k
      → test k ≡ false
      → Searched test records (suc a) b s
      → Searched test records a b s
  further-Searched a b k _ here fails (hit i k' l u e passes others) =
      hit i k' (omega (arith, l)) u e passes (Missed-further a i k here fails others)
  further-Searched a b k _ here fails (miss others) = miss (Missed-further a b k here fails others)

  pub search_from-Searched :
      (a n : ℕ)
      → a + n ≤ length records
      → Searched test records a (a + n) (search_from test records a n)
  unfolding search_from
  search_from-Searched a zero room = miss (λ j k l u e. absurd (omega (arith, l, u)))
  search_from-Searched a (suc n) room =
      let (k, here) = get_elem?_of_lt records a (omega (arith, room)) in
      elim (Bool-cases (test k)) [
        | inl passes ↦
            rw (search_from, here, passes)
              (hit a k (omega arith) (omega arith) here passes
                (λ j k l u e. absurd (omega (arith, l, u))))
        | inr fails ↦
            let rest : Searched test records (suc a) (suc a + n)
                (search_from test records (suc a) n) =
              search_from-Searched (suc a) n (omega (arith, room)) in
            rw (search_from, here, fails)
              (further-Searched a (a + suc n) k (search_from test records (suc a) n) here fails (
                subst
                  (λ (e : ℕ). Searched test records (suc a) e (search_from test records (suc a) n))
                  (omega arith) rest))
      ]

-- The two ways in which a persisted record is the event of a key.
unfoldable pub by_provider : ReplayKey → ReplayKey → Bool
by_provider key persisted = not (is_empty key.provider_id) && same_provider key persisted

unfoldable pub by_content : ReplayKey → ReplayKey → Bool
by_content key persisted = not (is_empty key.content) && same_content key persisted

-- What is right to answer for a key: the provider's identifier goes before the content, and the first
-- record of the window is taken.
pub data Matched (m : ReplayMatcher) (key : ReplayKey)
    : Option (Bool × ReplayMatcher) → Type 0 where
  recognised :
      (i : ℕ) (k : ReplayKey)
      → m.next ≤ i
      → i < m.limit
      → get_elem? m.records i ≡ some k
      → ((by_provider key k ≡ true) × Missed (by_provider key) m.records m.next i)
        ⊎ ((by_content key k ≡ true)
            × Missed (by_content key) m.records m.next i
            × Missed (by_provider key) m.records m.next m.limit)
      → Matched m key (some (true, record m { next = i + 1 }))
  unknown :
      Missed (by_provider key) m.records m.next m.limit
      → Missed (by_content key) m.records m.next m.limit
      → Matched m key (some (false, m))

module _ (m : ReplayMatcher) (key : ReplayKey) (v : IsValid m) where
  search_if-Searched :
      (has : Bool) (test : ReplayKey → Bool)
      → Searched (λ k. has && test k) m.records m.next m.limit (search_if has m test)
  unfolding search_if
  search_if-Searched true test =
      subst
        (λ (e : ℕ).
          Searched test m.records m.next e (search_from test m.records m.next (m.limit - m.next)))
        (omega (arith, v.window))
        (search_from-Searched test m.records m.next (m.limit - m.next)
          (omega (arith, v.window, v.stored)))
  search_if-Searched false test = miss (λ j k l u e. refl)

  move_to-Matched :
      (s t : Search)
      → Searched (by_provider key) m.records m.next m.limit s
      → Searched (by_content key) m.records m.next m.limit t
      → Matched m key (move_to m (or_else s t))
  unfolding or_else move_to
  move_to-Matched _ t (hit i k l u e passes others) _ = recognised i k l u e (inl (passes, others))
  move_to-Matched _ _ (miss none_here) (hit i k l u e passes others) =
      recognised i k l u e (inr (passes, others, none_here))
  move_to-Matched _ _ (miss none_here) (miss nor_here) = unknown none_here nor_here

  -- `Match` of a key answers rightly, and in range.
  pub match_key-Matched : Matched m key (match_key m key)
  unfolding match_key by_provider by_content
  match_key-Matched =
      move_to-Matched (search_if (not (is_empty key.provider_id)) m (same_provider key))
        (search_if (not (is_empty key.content)) m (same_content key))
        (search_if-Searched (not (is_empty key.provider_id)) (same_provider key))
        (search_if-Searched (not (is_empty key.content)) (same_content key))
