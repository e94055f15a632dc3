-- ===== src/DirtyRanges/Inserts.antt =====
-- Marking one row keeps the runs separated and marks that row and no other.
use mathlib.Core.Bool.{or_assoc}
use matcha.Common.{
  ℕ, suc, ◌+◌, ◌≤◌, ◌≡◌, refl, sym, ap, ◌∙◌, true, false, ◌&&◌, ◌||◌, List, [], ◌∷◌, ltb, leb, ◌==◌,
  Bool-cases, arith, inl, inr, ltb→lt, partition_point, get_elem?, Option-cases,
}
use matcha.DirtyRanges.{Run, insert, extend_right, insert_at, remove_at, insert_from}
use matcha.DirtyRanges.Sets.{in_run, marked, Separated, marked_below}

extend_right-suc :
    (q : Run) (rs : List Run) (i : ℕ) (r : Run)
    → extend_right (q ∷ rs) (suc i) r ≡ q ∷ extend_right rs i r
unfolding extend_right remove_at
extend_right-suc q rs i r = elim (Option-cases (get_elem? rs (suc i))) [
  | inl e ↦ rw (e, extend_right) refl
  | inr (next, e) ↦ elim (Bool-cases (r.end + 1 == next.start)) [
    | inl t ↦ rw (e, t, extend_right) refl
    | inr t ↦ rw (e, t, extend_right) refl
  ]
]

insert_from-suc :
    (q : Run) (rs : List Run) (row i : ℕ)
    → insert_from (q ∷ rs) row (suc i) ≡ q ∷ insert_from rs row i
unfolding insert_from insert_at
insert_from-suc q rs row i = elim (Option-cases (get_elem? rs i)) [
  | inl e ↦ rw (e, insert_from) refl
  | inr (r, e) ↦ elim (Bool-cases (leb r.start row && ltb row r.end)) [
    | inl t ↦ rw (e, t, insert_from) refl
    | inr t ↦ elim (Bool-cases (r.end == row)) [
      | inl u ↦ rw (e, t, u, insert_from) (extend_right-suc q rs i r)
      | inr u ↦ elim (Bool-cases (r.start == row + 1)) [
        | inl v ↦ rw (e, t, u, v, insert_from) refl
        | inr v ↦ rw (e, t, u, v, insert_from) refl
      ]
    ]
  ]
]

-- Runs that end below the row stay in front.
insert-past :
    (r : Run) (rs : List Run) (row : ℕ)
    → ltb r.end row ≡ true
    → insert (r ∷ rs) row ≡ r ∷ insert rs row
unfolding insert
insert-past r rs row e =
    let i = partition_point (λ (r : Run). ltb r.end row) rs in
    let here : partition_point (λ (r : Run). ltb r.end row) (r ∷ rs) ≡ suc i = rw e refl in
    ap (insert_from (r ∷ rs) row) here ∙ insert_from-suc r rs row i

insert-here :
    (r : Run) (rs : List Run) (row : ℕ)
    → ltb r.end row ≡ false
    → insert (r ∷ rs) row ≡ insert_from (r ∷ rs) row 0
unfolding insert
insert-here r rs row e =
    let here : partition_point (λ (r : Run). ltb r.end row) (r ∷ rs) ≡ 0 = rw e refl in
    ap (insert_from (r ∷ rs) row) here

abbrev Marks : ℕ → List Run → ℕ → List Run → Type 0
Marks at rs row rs' = Separated at rs' × ((p : ℕ) → marked p rs' ≡ (marked p rs || (p == row)))

-- The run found is extended right.
extend_right-Marks :
    (r : Run) (rs : List Run) (at row : ℕ)
    → Separated at (r ∷ rs)
    → r.end ≡ row
    → Marks at (r ∷ rs) row (extend_right (r ∷ rs) 0 r)
unfolding extend_right remove_at marked in_run
extend_right-Marks r [] at row (a, l, s) e = ((a, omega arith, tt), λ p. ground arith)
extend_right-Marks r (next ∷ rs) at row (a, l, (b, k, s)) e =
    elim (Bool-cases (r.end + 1 == next.start)) [
      | inl t ↦ rw t ((a, ground arith, s), λ p. ground (arith, marked_below p rs (suc next.end) s))
      | inr t ↦ rw t ((a, omega arith, (ground arith, k, s)), λ p. ground arith)
    ]

insert_from-Marks :
    (r : Run) (rs : List Run) (at row : ℕ)
    → at ≤ row
    → Separated at (r ∷ rs)
    → ltb r.end row ≡ false
    → Marks at (r ∷ rs) row (insert_from (r ∷ rs) row 0)
unfolding insert_from insert_at marked in_run
insert_from-Marks r rs at row h (a, l, s) e = elim (Bool-cases (leb r.start row && ltb row r.end)) [
  | inl t ↦ rw t ((a, l, s), λ p. ground arith)
  | inr t ↦ elim (Bool-cases (r.end == row)) [
    | inl u ↦ rw (t, u) (extend_right-Marks r rs at row (a, l, s) (ground arith))
    | inr u ↦ elim (Bool-cases (r.start == row + 1)) [
      | inl v ↦ rw (t, u, v) ((h, ground arith, s), λ p. ground arith)
      | inr v ↦ rw (t, u, v) ((h, omega arith, (ground arith, l, s)), λ p. ground arith)
    ]
  ]
]

insert-Marks :
    (rs : List Run) (at row : ℕ) → at ≤ row → Separated at rs → Marks at rs row (insert rs row)
unfolding insert insert_from insert_at marked in_run
insert-Marks [] at row h s = ((h, omega arith, tt), λ p. ground arith)
insert-Marks (r ∷ rs) at row h (a, l, s) = elim (Bool-cases (ltb r.end row)) [
  | inl e ↦
      let ih = insert-Marks rs (suc r.end) row (ltb→lt r.end row e) s in
      rw (insert-past r rs row e) (
        (a, l, ih.0),
        λ p. ap (in_run p r ||◌) (ih.1 p) ∙ sym (or_assoc (in_run p r) (marked p rs) (p == row)),
      )
  | inr e ↦ rw (insert-here r rs row e) (insert_from-Marks r rs at row h (a, l, s) e)
]

-- Marking a row of separated runs leaves separated runs that mark it and the rows marked before.
pub insert-marked :
    (rs : List Run) (row : ℕ)
    → Separated 0 rs
    → Separated 0 (insert rs row)
      × ((p : ℕ) → marked p (insert rs row) ≡ (marked p rs || (p == row)))
insert-marked rs row s = insert-Marks rs 0 row (omega arith) s
