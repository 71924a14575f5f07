-- ===== src/Journal/File/Repair.antt =====
-- `repairTornTail` cuts exactly what follows the last line break, whatever the size of its window.
use durable_acp.Prelude.{
  ℕ, zero, suc, ◌+◌, ◌-◌, ◌≤◌, ◌<◌, ◌≡◌, refl, sym, ap, ◌∙◌, ◌⊎◌, inl, inr, Bool, true, false, none,
  some, [], ◌∷◌, ◌++◌, arith, length, take, drop, get_elem?, length-take, length-drop,
  take-append-drop, take_of_length_le, get_elem?_of_lt, ==_iff, ◌==◌, if◌then◌else◌, Bool-cases,
  Result, ok, err,
}
use durable_acp.Journal.Record.{Bytes, newline}
use durable_acp.Journal.File.{
  RepairFaults, RepairError, stat_failed, read_failed, truncate_failed, sync_failed,
  last_index_byte, find_truncation, repair_with, repair_torn_tail, buffer_size,
}

-- The number of bytes up to the last line break, and with it.
unfoldable pub last_break : Bytes → ℕ
last_break [] = 0
last_break (b ∷ bs) =
    let k = last_break bs in if k == 0 then (if b == newline then 1 else 0) else suc k

-- The bytes that stay: the lines that are complete.
abbrev pub complete : Bytes → Bytes
complete content = take (last_break content) content

pub last_break-le : (bs : Bytes) → last_break bs ≤ length bs
unfolding last_break
last_break-le [] = omega arith
last_break-le (b ∷ bs) = ground (arith, last_break-le bs)

last_break-append :
    (xs ys : Bytes)
    → last_break (xs ++ ys)
      ≡ (if last_break ys == 0 then last_break xs else length xs + last_break ys)
unfolding last_break
last_break-append [] ys = ground arith
last_break-append (x ∷ xs) ys = ground (arith, last_break-append xs ys)

last_break-last_index_byte :
    (w : Bytes)
    → ((last_index_byte newline w ≡ none) × (last_break w ≡ 0))
      ⊎ ((i : ℕ) × (last_index_byte newline w ≡ some i) × (last_break w ≡ suc i))
unfolding last_break last_index_byte
last_break-last_index_byte [] = inl (refl, refl)
last_break-last_index_byte (c ∷ cs) = elim (last_break-last_index_byte cs) [
  | inl (a, b) ↦ elim (Bool-cases (c == newline)) [
    | inl e ↦ inr (0, ground arith, ground arith)
    | inr e ↦ inl (ground arith, ground arith)
  ]
  | inr (i, a, b) ↦ inr (suc i, rw a, ground arith)
]

-- The content around a window.
window_parts :
    (content : Bytes) (start end : ℕ)
    → content
      ≡ take start content
        ++ (take (end - start) (drop start content) ++ drop (end - start) (drop start content))
window_parts content start end = sym (
    ap (λ (l : Bytes). take start content ++ l)
      (take-append-drop (end - start) (drop start content))
    ∙ take-append-drop start content)

module _ (bad : ℕ → Bool) (chunk : ℕ) (content : Bytes) where
  -- One window: the break that it holds is the last one, or the last one stands before it.
  window_search :
      (start end : ℕ)
      → start ≤ end
      → end ≤ length content
      → last_break content ≤ end
      → let window = take (end - start) (drop start content) in
        ((last_index_byte newline window ≡ none) × (last_break content ≤ start))
        ⊎ ((i : ℕ) × (last_index_byte newline window ≡ some i)
            × (start + i + 1 ≡ last_break content))
  window_search start end se el le =
      let a = take start content in
      let w = take (end - start) (drop start content) in
      let d = drop (end - start) (drop start content) in
      let total : last_break content ≡ last_break (a ++ (w ++ d)) =
        ap last_break (window_parts content start end) in
      let whole = last_break-append a (w ++ d) in
      let inner = last_break-append w d in
      let la = length-take start content in
      let lw = length-take (end - start) (drop start content) in
      let ld = length-drop start content in
      let wl = last_break-le w in
      elim (last_break-last_index_byte w) [
        | inl (none_here, zero_here) ↦ inl (none_here, ground (arith, last_break-le a))
        | inr (i, here, break_here) ↦ inr (i, here, ground arith)
      ]

  find_truncation_lem :
      (fuel end : ℕ)
      → 0 < chunk
      → end < fuel
      → end ≤ length content
      → last_break content ≤ end
      → (find_truncation bad chunk fuel content end ≡ ok (last_break content))
        ⊎ ((find_truncation bad chunk fuel content end ≡ err read_failed)
            × ((o : ℕ) × (bad o ≡ true)))
  unfolding find_truncation
  find_truncation_lem zero end pc lt el le = elim lt [ ]
  find_truncation_lem (suc fuel) end pc lt el le = elim (Bool-cases (end == 0)) [
    | inl done ↦ inl (ground arith)
    | inr more ↦ elim (Bool-cases (bad (end - chunk))) [
      | inl broken ↦ inr (rw more (rw broken refl), (end - chunk, broken))
      | inr fine ↦ elim (window_search (end - chunk) end (omega arith) el le) [
        | inl (none_here, before) ↦ rw more (
            rw fine (
              rw none_here
                (find_truncation_lem fuel (end - chunk) pc (ground arith) (omega arith) before)))
        | inr (i, here, at) ↦ inl (rw more (rw fine (rw here (ap ok at))))
      ]
    ]
  ]

last_break_of_last :
    (bs : Bytes) (n : ℕ) → length bs ≡ suc n → get_elem? bs n ≡ some newline → last_break bs ≡ suc n
unfolding last_break
last_break_of_last [] n e h = absurd (omega arith)
last_break_of_last (b ∷ bs) zero e h = ground (arith, last_break-le bs)
last_break_of_last (b ∷ bs) (suc n) e h = ground (arith, last_break_of_last bs n (omega arith) h)

-- Some call of the operating system fails during the repair.
pub data HasFault (io : RepairFaults) : Type 0 where
  stat_fault : io.stat_fails ≡ true → HasFault io
  read_fault : (o : ℕ) → io.read_at_fails o ≡ true → HasFault io
  truncate_fault : io.truncate_fails ≡ true → HasFault io
  sync_fault : io.sync_fails ≡ true → HasFault io

-- The result of a repair of `content`: it succeeds and leaves the complete lines, or a call failed and
-- the file is either untouched or cut to its complete lines.
abbrev pub Repaired : RepairFaults → Bytes → Result RepairError (Unit {0}) × Bytes → Type 0
Repaired io content (r, content') =
    ((r ≡ ok tt) × (content' ≡ complete content))
    ⊎ (((e : RepairError) × (r ≡ err e))
        × ((content' ≡ content) ⊎ (content' ≡ complete content))
        × HasFault io)

module _ (chunk : ℕ) (io : RepairFaults) (content : Bytes) (pos : 0 < chunk) where
  -- The part of a repair behind the look at the last byte.
  repair_cut :
      (last : ℕ)
      → io.stat_fails ≡ false
      → (length content == 0) ≡ false
      → io.read_at_fails (length content - 1) ≡ false
      → get_elem? content (length content - 1) ≡ some last
      → (last == newline) ≡ false
      → Repaired io content (repair_with chunk io content)
  unfolding repair_with
  repair_cut last s0 e0 r0 g l0 =
      elim (find_truncation_lem io.read_at_fails chunk content (suc (length content))
        (length content) pos (omega arith) (omega arith) (last_break-le content)) [
          | inl found ↦
              simp (s0, e0, r0, g, l0, found)
                (elim (Bool-cases io.truncate_fails) [
                  | inl t ↦ simp t (inr ((truncate_failed, refl), inl refl, truncate_fault t))
                  | inr t ↦ elim (Bool-cases io.sync_fails) [
                    | inl y ↦ simp (t, y) (inr ((sync_failed, refl), inr refl, sync_fault y))
                    | inr y ↦ simp (t, y) (inl (refl, refl))
                  ]
                ])
          | inr (failed, (o, bad)) ↦
              simp (s0, e0, r0, g, l0, failed)
                (inr ((read_failed, refl), inl refl, read_fault o bad))
        ]

  -- Whatever the operating system refuses, a repair succeeds and leaves the complete lines, or it
  -- fails because a call failed, with the file as it was or cut to its complete lines.
  pub repair_with-Repaired : Repaired io content (repair_with chunk io content)
  unfolding repair_with
  repair_with-Repaired = elim (Bool-cases io.stat_fails) [
    | inl s ↦ simp s (inr ((stat_failed, refl), inl refl, stat_fault s))
    | inr s ↦ elim (Bool-cases (length content == 0)) [
      | inl e ↦ simp (s, e) (inl (refl, sym (take_of_length_le _ content (ground arith))))
      | inr e ↦ elim (Bool-cases (io.read_at_fails (length content - 1))) [
        | inl r ↦
            simp (s, e, r) (inr ((read_failed, refl), inl refl, read_fault (length content - 1) r))
        | inr r ↦
            let (last, g) = get_elem?_of_lt content (length content - 1) (ground arith) in
            elim (Bool-cases (last == newline)) [
              | inl l ↦
                  simp (s, e, r, g, l)
                    (inl (
                      refl,
                      sym (
                          take_of_length_le _ content (
                            ground (
                              arith,
                              last_break_of_last content (length content - 1),
                              g,
                              (==_iff last newline).0 l,
                            ))),
                    ))
              | inr l ↦ repair_cut last s e r g l
            ]
      ]
    ]
  ]

-- The window of the program is as good as any.
pub repair_torn_tail-Repaired :
    (io : RepairFaults) (content : Bytes) → Repaired io content (repair_torn_tail io content)
unfolding repair_torn_tail
repair_torn_tail-Repaired io content = repair_with-Repaired buffer_size io content (omega arith)
