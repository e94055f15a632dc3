-- ===== src/Tests/Selections.antt =====
-- Selections at concrete inputs.
use matcha.Common.{true, ℕ, ◌≡◌, List, [], ◌∷◌, false, none, some, ◌||◌, map, refl, inl, arith}
use matcha.Patch.{Patch}
use matcha.Selection.{
  Selection, SelectionSet, from_anchor, normalize, add_selection, from_ranges, rebase,
}
use matcha.Selection.Normal.{Apart, covered, covers, normalize-Apart}
use matcha.Selection.Rebase.{moved, rebase-moved}
use matcha.Selection.Sets.{add_selection-Apart}
use matcha.Selection.Ranges.{IdsUpTo, any_reaches, has, from_ranges-reaches}

-- A caret and a range behind it.
abbrev two : List Selection
two =
    record { id = 0; start = 1; end = 1; reversed = false; goal = none }
    ∷ record { id = 1; start = 3; end = 6; reversed = false; goal = none }
    ∷ []

-- The same out of order, with a range that overlaps the other.
abbrev three : List Selection
three =
    record { id = 2; start = 5; end = 8; reversed = false; goal = none }
    ∷ record { id = 1; start = 3; end = 6; reversed = false; goal = none }
    ∷ record { id = 0; start = 1; end = 1; reversed = false; goal = none }
    ∷ []

abbrev set_of_two : SelectionSet
set_of_two = record { selections = two; next_id = 2 }

-- Two bytes put in at 1.
abbrev one_edit : Patch
one_edit = record {
  edits = record { old = record { start = 1; end = 1 }; new = record { start = 1; end = 3 } } ∷ [];
}

normalize-Apart_example :
    Apart (normalize three) × ((p : ℕ) → covered p (normalize three) ≡ covered p three)
normalize-Apart_example = normalize-Apart three (omega arith, (omega arith, (omega arith, tt)))

add_selection-Apart_example :
    Apart (add_selection set_of_two 9 5).selections
    × ((p : ℕ)
        → covered p (add_selection set_of_two 9 5).selections
          ≡ (covered p two || covers p (from_anchor 2 9 5)))
add_selection-Apart_example =
    add_selection-Apart set_of_two 9 5 (omega arith, omega arith, inl (omega arith), omega arith)

-- The two ranges overlap, so one selection with the newest id is left.
from_ranges-reaches_example :
    (set : SelectionSet) × (from_ranges ((3, 9) ∷ (1, 4) ∷ []) 1 ≡ some set)
    × Apart set.selections
    × ((p : ℕ) → covered p set.selections ≡ any_reaches p ((3, 9) ∷ (1, 4) ∷ []))
    × (set.next_id ≡ 2)
    × IdsUpTo 1 set.selections
    × (has 1 1 4 set.selections ≡ true)
from_ranges-reaches_example = from_ranges-reaches ((3, 9) ∷ (1, 4) ∷ []) 1 (1, 4) refl

rebase-moved_example :
    ((rebase set_of_two one_edit).selections ≡ normalize (map (moved one_edit) two))
    × Apart (rebase set_of_two one_edit).selections
    × ((rebase set_of_two one_edit).next_id ≡ 2)
rebase-moved_example =
    rebase-moved set_of_two one_edit (omega arith, omega arith, omega arith, omega arith, tt)
      (omega arith) (omega arith, omega arith, (omega arith, omega arith, tt))
