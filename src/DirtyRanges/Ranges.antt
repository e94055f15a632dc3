-- ===== src/DirtyRanges/Ranges.antt =====
-- Marking a range of rows keeps the runs separated and marks those rows and no other.
use matcha.Common.{
  ℕ, zero, suc, ◌-◌, ◌≤◌, ◌<◌, ◌≡◌, refl, sym, ap, ◌∙◌, true, false, ◌||◌, List, [], ◌∷◌, max, min,
  ltb, leb, Bool-cases, arith, inl, inr, ltb→lt, leb→le, leb→lt, partition_point, get_or, drop,
}
use mathlib.Core.Bool.{or_assoc}
use matcha.DirtyRanges.{Run, insert_range, merged_run}
use matcha.DirtyRanges.Sets.{in_run, marked, Separated}

-- The runs that begin at or before `e`, all joined with the rows from `s` to `e`.
absorbed :
    (x : Run) (xs : List Run) (d : Run) (at s e : ℕ)
    → Separated at (x ∷ xs)
    → s ≤ x.start
    → x.start ≤ e
    → s < e
    → let h = partition_point (λ (r : Run). leb r.start e) xs in
      let end = max (get_or (x ∷ xs) h d).end e in
      Separated (suc end) (drop h xs)
      × ((p : ℕ)
          → (in_run p (record { start = s; end = end }) || marked p (drop h xs))
            ≡ (in_run p (record { start = s; end = e }) || marked p (x ∷ xs)))
unfolding marked in_run
absorbed x [] d at s e (a, l, t) h k m = (tt, λ p. ground arith)
absorbed x (y ∷ ys) d at s e (a, l, (b, n, t)) h k m = elim (Bool-cases (leb y.start e)) [
  | inl u ↦
      let ih = absorbed y ys d (suc x.end) s e (b, n, t) (omega arith) (leb→le y.start e u) m in
      rw u (ih.0, λ p. ih.1 p ∙ ground arith)
  | inr u ↦ rw u ((ground arith, n, t), λ p. ground arith)
]

abbrev MarksAll : ℕ → List Run → Run → List Run → Type 0
MarksAll at rs range rs' =
    Separated at rs' × ((p : ℕ) → marked p rs' ≡ (marked p rs || in_run p range))

last_below :
    (r : Run) (rs : List Run) (lo hi : ℕ) (range : Run)
    → merged_run (r ∷ rs) range (suc lo) (suc hi) ≡ merged_run rs range lo hi
unfolding merged_run
last_below r rs lo zero range = ground arith
last_below r rs lo (suc hi) range =
    let a : suc (suc hi) - 1 ≡ suc hi = omega arith in
    let b : suc hi - 1 ≡ hi = omega arith in
    let c : ltb (suc lo) (suc (suc hi)) ≡ ltb lo (suc hi) = ground arith in
    rw (a, b, c, merged_run) refl

insert_range-past :
    (r : Run) (rs : List Run) (range : Run)
    → r.start ≤ range.end
    → ltb r.end range.start ≡ true
    → leb range.end range.start ≡ false
    → insert_range (r ∷ rs) range ≡ r ∷ insert_range rs range
unfolding insert_range
insert_range-past r rs range h e f =
    let lo = partition_point (λ (r : Run). ltb r.end range.start) rs in
    let hi = partition_point (λ (r : Run). leb r.start range.end) rs in
    let below : leb r.start range.end ≡ true = ground arith in
    let joined = last_below r rs lo hi range in rw (e, f, below, insert_range, joined) refl

-- Nothing ends before the range, and the first run begins after it.
insert_range-before :
    (r : Run) (rs : List Run) (range : Run)
    → ltb r.end range.start ≡ false
    → leb range.end range.start ≡ false
    → leb r.start range.end ≡ false
    → insert_range (r ∷ rs) range ≡ range ∷ r ∷ rs
unfolding insert_range merged_run
insert_range-before r rs range e f g = rw (e, f, g, insert_range) refl

-- The first run is joined with the range.
insert_range-joins :
    (r : Run) (rs : List Run) (range : Run)
    → ltb r.end range.start ≡ false
    → leb range.end range.start ≡ false
    → leb r.start range.end ≡ true
    → let h = partition_point (λ (r : Run). leb r.start range.end) rs in
      insert_range (r ∷ rs) range
      ≡ record {
        start = min r.start range.start;
        end = max (get_or (r ∷ rs) h range).end range.end;
      }
        ∷ drop h rs
unfolding insert_range merged_run
insert_range-joins r rs range e f g =
    let h = partition_point (λ (r : Run). leb r.start range.end) rs in
    let below : ltb 0 (suc h) ≡ true = ground arith in
    let last : suc h - 1 ≡ h = omega arith in
    rw (e, f, g, insert_range, merged_run, below, last) refl

insert_range-MarksAll :
    (rs : List Run) (at : ℕ) (range : Run)
    → at ≤ range.start
    → Separated at rs
    → leb range.end range.start ≡ false
    → MarksAll at rs range (insert_range rs range)
unfolding insert_range merged_run marked in_run
insert_range-MarksAll [] at range h s f =
    rw f ((h, leb→lt range.end range.start f, tt), λ p. ground arith)
insert_range-MarksAll (r ∷ rs) at range h (a, l, s) f = elim (Bool-cases (ltb r.end range.start)) [
  | inl e ↦
      let ih = insert_range-MarksAll rs (suc r.end) range (ltb→lt r.end range.start e) s f in
      rw (insert_range-past r rs range (ground arith) e f) (
        (a, l, ih.0),
        λ p.
            ap (in_run p r ||◌) (ih.1 p)
            ∙ sym (or_assoc (in_run p r) (marked p rs) (in_run p range)),
      )
  | inr e ↦ elim (Bool-cases (leb r.start range.end)) [
    | inl g ↦
        let joined =
          absorbed r rs range at (min r.start range.start) range.end (a, l, s) (omega arith)
            (leb→le r.start range.end g) (ground arith) in
        rw (insert_range-joins r rs range e f g)
          ((omega arith, ground arith, joined.0), λ p. joined.1 p ∙ ground arith)
    | inr g ↦
        rw (insert_range-before r rs range e f g)
          ((h, leb→lt range.end range.start f, (ground arith, l, s)), λ p. ground arith)
  ]
]

-- Marking a range of rows in separated runs leaves separated runs that mark the rows of the range and
-- the rows marked before.
pub insert_range-marked :
    (rs : List Run) (range : Run)
    → Separated 0 rs
    → Separated 0 (insert_range rs range)
      × ((p : ℕ) → marked p (insert_range rs range) ≡ (marked p rs || in_run p range))
unfolding insert_range in_run
insert_range-marked rs range s = elim (Bool-cases (leb range.end range.start)) [
  | inl e ↦ rw e (s, λ p. ground arith)
  | inr e ↦ insert_range-MarksAll rs 0 range (omega arith) s e
]
