-- ===== src/Tests/Rows.antt =====
-- Dirty rows at concrete inputs.
use matcha.Common.{true, inl, inr, ℕ, ◌≡◌, refl, false, not, ◌&&◌, ◌||◌, List, [], ◌∷◌, ◌==◌, arith}
use matcha.Common.Int.{pos}
use matcha.DirtyRanges.{
  Run, Span, insert, insert_range, contains, clear_range, apply_splices, deltas, shifted_runs,
  new_spans,
}
use matcha.DirtyRanges.Sets.{Separated, marked, in_run, contains-marked, clear_range-marked}
use matcha.DirtyRanges.Inserts.{insert-marked}
use matcha.DirtyRanges.Ranges.{insert_range-marked}
use matcha.DirtyRanges.Moved.{added, is_new, old_row}
use matcha.DirtyRanges.Stale.{apply_splices-old_row, apply_splices-keeps}

abbrev two_runs : List Run
two_runs = record { start = 2; end = 5 } ∷ record { start = 6; end = 9 } ∷ []

two_runs-Separated : Separated 0 two_runs
two_runs-Separated = (omega arith, omega arith, (omega arith, omega arith, tt))

contains-marked_example : contains two_runs 7 ≡ marked 7 two_runs
contains-marked_example = contains-marked two_runs 0 7 two_runs-Separated

-- Row 5 joins the two runs.
insert-marked_example :
    Separated 0 (insert two_runs 5)
    × ((p : ℕ) → marked p (insert two_runs 5) ≡ (marked p two_runs || (p == 5)))
insert-marked_example = insert-marked two_runs 5 two_runs-Separated

insert_range-marked_example :
    Separated 0 (insert_range two_runs (record { start = 4; end = 7 }))
    × ((p : ℕ)
        → marked p (insert_range two_runs (record { start = 4; end = 7 }))
          ≡ (marked p two_runs || in_run p (record { start = 4; end = 7 })))
insert_range-marked_example =
    insert_range-marked two_runs (record { start = 4; end = 7 }) two_runs-Separated

clear_range-marked_example :
    Separated 0 (clear_range two_runs (record { start = 3; end = 7 }))
    × ((p : ℕ)
        → marked p (clear_range two_runs (record { start = 3; end = 7 }))
          ≡ (marked p two_runs && not (in_run p (record { start = 3; end = 7 }))))
clear_range-marked_example =
    clear_range-marked two_runs (record { start = 3; end = 7 }) two_runs-Separated

abbrev grown : Span
grown = record { pre_start = 3; old_lines = 1; new_lines = 3 }

-- The row 7 was the row 5, outside both runs, and the rows 3 to 5 are new.
apply_splices-old_row_example :
    Separated 0 (apply_splices two_runs (grown ∷ []))
    × ((q : ℕ)
        → marked q (apply_splices two_runs (grown ∷ []))
          ≡ (is_new 0 0 (grown ∷ []) q || marked (old_row 0 0 (grown ∷ []) q) two_runs))
unfolding added
apply_splices-old_row_example =
    apply_splices-old_row two_runs grown [] 20 (omega arith, omega arith) (omega arith)
      (omega arith, omega arith, (omega arith, omega arith, tt))
      ((inl (omega arith), tt), ((inr (omega arith), tt), tt))
      ((inr (omega arith), tt), ((inr (omega arith), tt), tt))

-- A run that ends inside the edit keeps the row before it, and the row 8 is the row 5 now.
abbrev replaced : Span
replaced = record { pre_start = 2; old_lines = 4; new_lines = 1 }

abbrev around : List Run
around = record { start = 1; end = 4 } ∷ record { start = 8; end = 9 } ∷ []

apply_splices-keeps_example : marked 5 (apply_splices around (replaced ∷ [])) ≡ true
unfolding added is_new marked in_run old_row
apply_splices-keeps_example =
    apply_splices-keeps around replaced [] 20 5 (omega arith, omega arith) (omega arith)
      (omega arith, omega arith, (omega arith, omega arith, tt))
      ((inl (omega arith), tt), ((inr (omega arith), tt), tt)) refl

-- Ten lines joined into one by an edit of the rows 0 to 9, with the rows 9 to 19 dirty.
abbrev joined : Span
joined = record { pre_start = 0; old_lines = 10; new_lines = 1 }

-- Row 15, dirty before and outside the edit, is row 6 now and not dirty.
row_lost : contains (apply_splices (record { start = 9; end = 20 } ∷ []) (joined ∷ [])) 6 ≡ false
unfolding contains apply_splices deltas shifted_runs new_spans matcha.Common.Int.◌+ℤ◌
    matcha.Common.Int.◌-ℤ◌
row_lost = refl
