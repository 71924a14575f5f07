-- ===== src/Journal/File/Lines.antt =====
-- How the lines of a file follow its growth and its repair.
use durable_acp.Prelude.{
  ℕ, zero, suc, ◌≤◌, ◌≡◌, refl, sym, ap, ◌∙◌, ◌≢◌, ◌⊎◌, inl, inr, false, some, List, [], ◌∷◌, ◌++◌,
  append-nil, arith, length, take, ◌==◌, Bool-cases,
}
use durable_acp.Journal.Record.{Bytes, newline, Lacks, Codec}
use durable_acp.Journal.File.{Query, split_lines, onto_first, read_journal}
use durable_acp.Journal.File.Repair.{last_break, complete}
use durable_acp.Journal.File.Reader.{read_journal_lem, calm_read}

-- A file with no unfinished line.
abbrev pub IsWhole : Bytes → Type 0
IsWhole content = (split_lines content).1 ≡ []

lines_of_last_break :
    (bs : Bytes)
    → ((last_break bs ≡ 0) × ((split_lines bs).0 ≡ []))
      ⊎ ((k : ℕ) × (last_break bs ≡ suc k)
          × (l : Bytes) × (ls : List Bytes) × ((split_lines bs).0 ≡ l ∷ ls))
unfolding last_break split_lines
lines_of_last_break [] = inl (refl, refl)
lines_of_last_break (b ∷ bs) = elim (lines_of_last_break bs) [
  | inl (z, e) ↦ elim (Bool-cases (b == newline)) [
    | inl nl ↦ inr (0, rw (z, nl) refl, b ∷ [], (split_lines bs).0, rw nl refl)
    | inr nl ↦ inl (rw (z, nl) refl, rw (nl, e) refl)
  ]
  | inr (k, p, l, ls, e) ↦ elim (Bool-cases (b == newline)) [
    | inl nl ↦ inr (suc k, ground arith, b ∷ [], (split_lines bs).0, rw nl refl)
    | inr nl ↦ inr (suc k, ground arith, b ∷ l, ls, rw (nl, e) refl)
  ]
]

-- The complete part of a file has the file's lines, and no unfinished one.
pub split_lines-complete : (bs : Bytes) → split_lines (complete bs) ≡ ((split_lines bs).0, [])
unfolding split_lines last_break
split_lines-complete [] = refl
split_lines-complete (b ∷ bs) = elim (lines_of_last_break bs) [
  | inl (z, e) ↦ elim (Bool-cases (b == newline)) [
    | inl nl ↦ rw (z, nl) (rw nl (rw e refl))
    | inr nl ↦ rw (z, nl) (rw e refl)
  ]
  | inr (k, p, l, ls, e) ↦
      let rest : last_break (b ∷ bs) ≡ suc (last_break bs) = ground arith in
      elim (Bool-cases (b == newline)) [
        | inl nl ↦ rw rest (rw nl (rw (split_lines-complete bs) refl))
        | inr nl ↦ rw rest (rw nl (rw (split_lines-complete bs) (rw e refl)))
      ]
]

-- A repair changes nothing that a reader sees: the repaired file reads, under every query, as the
-- torn one does.
pub read_journal-complete :
    (codec : Codec) (q : Query) (content : Bytes)
    → read_journal codec calm_read q (some (complete content))
      ≡ read_journal codec calm_read q (some content)
read_journal-complete codec q content =
    read_journal_lem codec q (complete content)
    ∙ rw (split_lines-complete content) (sym (read_journal_lem codec q content))

onto_first_whole :
    (x : ℕ) (ls : List Bytes) (rest : Bytes)
    → (onto_first x (ls, rest)).1 ≡ []
    → (l : Bytes) × (ls' : List Bytes) × (ls ≡ l ∷ ls') × (rest ≡ [])
onto_first_whole x [] rest h = cc
onto_first_whole x (l ∷ ls) rest h = (l, ls, refl, h)

-- What is appended to a file with no unfinished line adds its own lines.
pub split_lines-append :
    (xs ys : Bytes)
    → IsWhole xs
    → split_lines (xs ++ ys) ≡ ((split_lines xs).0 ++ (split_lines ys).0, (split_lines ys).1)
unfolding split_lines
split_lines-append [] ys h = refl
split_lines-append (x ∷ xs) ys h = elim (Bool-cases (x == newline)) [
  | inl nl ↦ rw nl (rw (split_lines-append xs ys (rw nl at h)) refl)
  | inr nl ↦
      let (l, ls, e, w) = onto_first_whole x (split_lines xs).0 (split_lines xs).1 (rw nl at h) in
      rw nl (rw (split_lines-append xs ys w) (rw e refl))
]

not_newline : (b : ℕ) → b ≢ newline → (b == newline) ≡ false
not_newline b h = ground arith

pub split_lines_line :
    (line : Bytes)
    → Lacks newline line
    → split_lines (line ++ newline ∷ []) ≡ ((line ++ newline ∷ []) ∷ [], [])
unfolding split_lines
split_lines_line [] h = refl
split_lines_line (b ∷ bs) h = rw (not_newline b h.0) (rw (split_lines_line bs h.1) refl)

-- What is left of a line that was written in part has no line break.
split_lines_partial :
    (n : ℕ) (line : Bytes)
    → Lacks newline line
    → n ≤ length line
    → split_lines (take n (line ++ newline ∷ [])) ≡ ([], take n line)
unfolding split_lines
split_lines_partial zero line h l = refl
split_lines_partial (suc n) [] h l = elim l [ ]
split_lines_partial (suc n) (b ∷ bs) h l =
    rw (not_newline b h.0) (rw (split_lines_partial n bs h.1 (omega arith)) refl)

-- A whole line that is appended to a file with no unfinished line is its last line.
pub split_lines-append_line :
    (content line : Bytes)
    → IsWhole content
    → Lacks newline line
    → split_lines (content ++ (line ++ newline ∷ []))
      ≡ ((split_lines content).0 ++ (line ++ newline ∷ []) ∷ [], [])
split_lines-append_line content line w h =
    split_lines-append content (line ++ newline ∷ []) w ∙ rw (split_lines_line line h) refl

-- A line of which only a part was written leaves the lines as they were.
pub split_lines-append_partial :
    (content line : Bytes) (n : ℕ)
    → IsWhole content
    → Lacks newline line
    → n ≤ length line
    → (split_lines (content ++ take n (line ++ newline ∷ []))).0 ≡ (split_lines content).0
split_lines-append_partial content line n w h l =
    ap (λ (p : List Bytes × Bytes). p.0)
      (split_lines-append content (take n (line ++ newline ∷ [])) w)
    ∙ rw (split_lines_partial n line h l) (append-nil (split_lines content).0)
