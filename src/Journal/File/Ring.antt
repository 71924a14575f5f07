-- ===== src/Journal/File/Ring.antt =====
-- The reader's window on the last `tail` records, written over in a circle, holds the end of what it
-- was given.
use durable_acp.Prelude.{
  ℕ, zero, suc, ◌+◌, ◌-◌, ◌%◌, ◌≤◌, ◌<◌, min, ◌≡◌, refl, sym, ap, ◌∙◌, inl, inr, List, [], ◌∷◌,
  ◌++◌, append-nil, append_assoc, arith, length, take, drop, set, length-append, drop-append_le,
  ltb, lt→ltb, ltb→lt, ◌&&◌, length-set, ◌==◌, if◌then◌else◌, Bool-cases,
}
use native.Mathlib.Nat.{mod-eq_of_lt, mod-eq-sub-mod, mod-lt}
use durable_acp.Journal.Record.{Record}
use durable_acp.Journal.File.{Scan, keep, in_order}

-- The last `n` of a list; 0 stands for no limit.
pub last_n {ℓ} : {A : Type ℓ} → ℕ → List A → List A
last_n n xs = if n == 0 then xs else drop (length xs - n) xs

module _ {ℓ} {A : Type ℓ} where
  drop-one-drop : (m : ℕ) (xs : List A) → drop 1 (drop m xs) ≡ drop (suc m) xs
  drop-one-drop zero xs = refl
  drop-one-drop (suc m) [] = refl
  drop-one-drop (suc m) (x ∷ xs) = drop-one-drop m xs

  -- One more at the end of a list that is long enough pushes one out at its front.
  last_n-concat :
      (n : ℕ) (xs : List A) (y : A)
      → 0 < n
      → n ≤ length xs
      → last_n n (xs ++ y ∷ []) ≡ drop 1 (last_n n xs) ++ y ∷ []
  unfolding last_n
  last_n-concat n xs y p h = elim (Bool-cases (n == 0)) [
    | inl z ↦ absurd (ground arith)
    | inr z ↦
        let e : length (xs ++ y ∷ []) - n ≡ suc (length xs - n) =
          omega (arith, length-append xs (y ∷ [])) in
        rw z (
          rw e (
            drop-append_le (suc (length xs - n)) xs (y ∷ []) (omega arith)
            ∙ ap (λ l. l ++ y ∷ []) (sym (drop-one-drop (length xs - n) xs))))
  ]

  -- A list that is short enough is kept whole.
  pub last_n_of_le : (n : ℕ) (xs : List A) → (0 < n → length xs ≤ n) → last_n n xs ≡ xs
  unfolding last_n
  last_n_of_le n xs h = elim (Bool-cases (n == 0)) [
    | inl z ↦ rw z
    | inr z ↦ let e : length xs - n ≡ 0 = omega (arith, h (ground arith)) in rw z (rw e refl)
  ]

  pub last_n-nil : (n : ℕ) → ◌≡◌ {A = List A} [] (last_n n [])
  last_n-nil n = sym (last_n_of_le n [] (λ p. omega arith))

  split_at :
      (xs : List A) (i : ℕ)
      → i < length xs
      → (a : List A) × (x : A) × (b : List A) × (xs ≡ a ++ x ∷ b) × (length a ≡ i)
  split_at [] i h = elim h [ ]
  split_at (x ∷ xs) zero h = ([], x, xs, refl, refl)
  split_at (x ∷ xs) (suc i) h =
      let (a, y, b, e, l) = split_at xs i (omega arith) in
      (x ∷ a, y, b, ap (λ t. x ∷ t) e, ap suc l)

  set-append : (a b : List A) (x y : A) → set (a ++ x ∷ b) (length a) y ≡ a ++ y ∷ b
  set-append [] b x y = refl
  set-append (c ∷ a) b x y = ap (λ t. c ∷ t) (set-append a b x y)

  drop-append : (a b : List A) → drop (length a) (a ++ b) ≡ b
  drop-append [] b = refl
  drop-append (c ∷ a) b = drop-append a b

  take-append : (a b : List A) → take (length a) (a ++ b) ≡ a
  take-append [] b = refl
  take-append (c ∷ a) b = ap (λ t. c ∷ t) (take-append a b)

  -- A circle that starts behind `a`.
  unroll : ℕ → List A → List A
  unroll start out = if ltb 0 start then drop start out ++ take start out else out

  unroll-append : (a b : List A) → unroll (length a) (a ++ b) ≡ b ++ a
  unfolding unroll
  unroll-append [] b = sym (append-nil b)
  unroll-append (c ∷ a) b =
      rw (lt→ltb 0 (suc (length a)) (omega arith))
        (rw (drop-append a b) (ap (λ t. b ++ c ∷ t) (take-append a b)))

mod_self : (n : ℕ) → 0 < n → n % n ≡ 0
mod_self n h = mod-eq-sub-mod (omega arith) ∙ ap (λ (t : ℕ). t % n) (omega arith) ∙ mod-eq_of_lt h

-- Over a full circle the new element takes the place of the oldest one.
turn_parts {ℓ} :
    {A : Type ℓ} (a b : List A) (x r : A)
    → unroll ((length a + 1) % length (a ++ x ∷ b)) (a ++ r ∷ b)
      ≡ drop 1 (unroll (length a) (a ++ x ∷ b)) ++ r ∷ []
turn_parts a [] x r =
    let l : length (a ++ x ∷ []) ≡ length a + 1 = omega (arith, length-append a (x ∷ [])) in
    let e : (length a + 1) % length (a ++ x ∷ []) ≡ 0 =
      rw l (mod_self (length a + 1) (omega arith)) in
    rw (e, unroll-append a (x ∷ [])) (unfold unroll in refl)
turn_parts a (y ∷ b) x r =
    let e : (length a + 1) % length (a ++ x ∷ y ∷ b) ≡ length (a ++ r ∷ []) =
      mod-eq_of_lt (omega (arith, length-append a (x ∷ y ∷ b)))
      ∙ omega (arith, length-append a (r ∷ [])) in
    rw (e, unroll-append a (x ∷ y ∷ b), ← append_assoc a (r ∷ []) (y ∷ b))
      (unroll-append (a ++ r ∷ []) (y ∷ b) ∙ sym (append_assoc (y ∷ b) a (r ∷ [])))

turn {ℓ} :
    {A : Type ℓ} (start : ℕ) (out : List A) (r : A)
    → start < length out
    → unroll ((start + 1) % length out) (set out start r) ≡ drop 1 (unroll start out) ++ r ∷ []
turn start out r h =
    let (a, x, b, e, l) = split_at out start h in
    rw (e, ← l) (rw (set-append a b x r) (turn_parts a b x r))

-- The circle `s` holds the last `tail` of the records in `kept`.
pub record IsRing (tail : ℕ) (kept : List Record) (s : Scan) : Type 0 where
  pub view : in_order s ≡ last_n tail kept
  pub size : 0 < tail → length s.out ≡ min tail (length kept)
  pub bound : 0 < s.tail_start → s.tail_start < tail
  pub full : 0 < s.tail_start → length s.out ≡ tail

in_order-unroll : (s : Scan) → in_order s ≡ unroll s.tail_start s.out
unfolding in_order unroll
in_order-unroll s = refl

module _ (tail : ℕ) (r : Record) (kept : List Record) (s : Scan) (h : IsRing tail kept s) where
  start_lt : 0 < tail → s.tail_start < tail
  start_lt p = elim (Bool-cases (ltb 0 s.tail_start)) [
    | inl q ↦ h.bound (ltb→lt _ _ q)
    | inr q ↦ ground arith
  ]

  keep_full :
      0 < tail
      → length s.out ≡ tail
      → IsRing tail
          (kept ++ r ∷ [])
          (record s { out = set s.out s.tail_start r; tail_start = (s.tail_start + 1) % tail })
  keep_full p l = record {
    view =
        in_order-unroll _
        ∙ rw (← l) (turn s.tail_start s.out r (omega (arith, start_lt p)))
        ∙ ap (λ t. drop 1 t ++ r ∷ []) (sym (in_order-unroll s) ∙ h.view)
        ∙ sym (last_n-concat tail kept r p (omega (arith, h.size p)));
    size =
        λ _. omega (arith, h.size p, length-set s.out s.tail_start r, length-append kept (r ∷ []));
    bound = λ _. mod-lt (s.tail_start + 1) p;
    full = λ _. omega (arith, l, length-set s.out s.tail_start r);
  }

  keep_short :
      (0 < tail → length s.out < tail)
      → IsRing tail (kept ++ r ∷ []) (record s { out = s.out ++ r ∷ [] })
  keep_short short =
      let z : s.tail_start ≡ 0 = elim (Bool-cases (ltb 0 s.tail_start)) [
        | inl q ↦
            let p = ltb→lt 0 s.tail_start q in
            absurd (omega (arith, h.full p, h.bound p, short (omega (arith, h.bound p))))
        | inr q ↦ ground arith
      ] in
      let whole : s.out ≡ kept =
        sym (in_order-unroll s ∙ rw z (unfold unroll in refl))
        ∙ h.view
        ∙ last_n_of_le tail kept (λ p. omega (arith, h.size p, short p)) in
      record {
        view =
            in_order-unroll _
            ∙ rw (z, whole) (unfold unroll in refl)
            ∙ sym (
                last_n_of_le tail (kept ++ r ∷ [])
                  (λ p. omega (arith, h.size p, short p, length-append kept (r ∷ []))));
        size = λ p.
            omega
              (arith, h.size p, short p, length-append s.out (r ∷ []), length-append kept (r ∷ []));
        bound = λ p. absurd (omega (arith, z));
        full = λ p. absurd (omega (arith, z));
      }

-- Every record that is kept leaves a circle that holds the last `tail` of all that were kept.
pub keep-IsRing :
    (tail : ℕ) (r : Record) (kept : List Record) (s : Scan)
    → IsRing tail kept s
    → IsRing tail (kept ++ r ∷ []) (keep tail r s)
unfolding keep
keep-IsRing tail r kept s h = elim (Bool-cases (ltb 0 tail && length s.out == tail)) [
  | inl full ↦ rw full (keep_full tail r kept s h (ground arith) (ground arith))
  | inr short ↦ rw short (keep_short tail r kept s h (λ p. ground (arith, h.size p)))
]
