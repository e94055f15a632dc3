-- ===== src/Selection.antt =====
-- Selections and the sorted, disjoint set of them (crates/matcha-core/src/selection.rs). An id is
-- its number.
pub mod Normal
pub mod Rebase
pub mod Sets
pub mod Ranges
use matcha.Common.{
  ℕ, suc, ◌+◌, ◌≤◌, Bool, true, false, not, ◌&&◌, ◌||◌, Option, none, some, List, [], ◌∷◌, ◌++◌,
  map, min, max, length, ltb, leb, ◌==◌, if◌then◌else◌, get_or, get_elem?,
}
use matcha.Coords.{Bias, left, right}
use matcha.Patch.{Patch, map_many}

pub record Selection : Type 0 where
  pub id : ℕ
  pub start : ℕ
  pub end : ℕ
  pub reversed : Bool
  pub goal : Option ℕ

unfoldable pub caret : ℕ → ℕ → Selection
caret id offset = record { id = id; start = offset; end = offset; reversed = false; goal = none }

unfoldable pub from_anchor : ℕ → ℕ → ℕ → Selection
from_anchor id anchor head = record {
  id = id;
  start = min anchor head;
  end = max anchor head;
  reversed = ltb head anchor;
  goal = none;
}

unfoldable pub head : Selection → ℕ
head s = if s.reversed then s.start else s.end

unfoldable pub tail : Selection → ℕ
tail s = if s.reversed then s.end else s.start

unfoldable pub set_head : Selection → ℕ → Selection
set_head s offset = record s {
  start = min (tail s) offset;
  end = max (tail s) offset;
  reversed = ltb offset (tail s);
  goal = none;
}

unfoldable pub collapse_to_head : Selection → Selection
collapse_to_head s = record s { start = head s; end = head s; reversed = false }

unfoldable pub move_to_caret : Selection → ℕ → Selection
move_to_caret s offset = record s { start = offset; end = offset; reversed = false; goal = none }

-- Whether `b`, which starts at or after `a`, merges into it.
unfoldable pub should_merge : Selection → Selection → Bool
should_merge a b =
    if ltb b.start a.end
    then true
    else if a.start == b.start
    then true
    else if b.start == a.end
    then (a.start == a.end) || (b.start == b.end)
    else false

-- What a merge leaves in the place of `prev`.
unfoldable pub merged : Selection → Selection → Selection
merged prev s =
    let newer = if ltb prev.id s.id then s else prev in
    record {
      id = newer.id;
      start = min prev.start s.start;
      end = max prev.end s.end;
      reversed = newer.reversed;
      goal = newer.goal;
    }

-- The order of `(start, end)`.
unfoldable pub before_or_at : Selection → Selection → Bool
before_or_at a b = ltb a.start b.start || ((a.start == b.start) && leb a.end b.end)

-- A stable sort by that order.
unfoldable pub insert_sorted : Selection → List Selection → List Selection
insert_sorted s [] = s ∷ []
insert_sorted s (t ∷ ts) =
    let rest = insert_sorted s ts in if before_or_at s t then s ∷ t ∷ ts else t ∷ rest

unfoldable pub sort_selections : List Selection → List Selection
sort_selections [] = []
sort_selections (s ∷ ss) = insert_sorted s (sort_selections ss)

-- The in-place compaction: `prev` stands at the write cursor.
unfoldable pub compact : Selection → List Selection → List Selection
compact prev [] = prev ∷ []
compact prev (s ∷ ss) = elim (should_merge prev s) [
  | true ↦ compact (merged prev s) ss
  | false ↦ prev ∷ compact s ss
]

unfoldable pub normalize : List Selection → List Selection
unfolding compact
normalize ss = elim (sort_selections ss) [ [] ↦ [] | s ∷ rest ↦ compact s rest ]

pub record SelectionSet : Type 0 where
  pub selections : List Selection
  pub next_id : ℕ

unfoldable pub single_caret : ℕ → SelectionSet
single_caret offset = record { selections = caret 0 offset ∷ []; next_id = 1 }

unfoldable pub add_caret : SelectionSet → ℕ → SelectionSet
add_caret set offset = record {
  selections = normalize (set.selections ++ caret set.next_id offset ∷ []);
  next_id = set.next_id + 1;
}

unfoldable pub add_selection : SelectionSet → ℕ → ℕ → SelectionSet
add_selection set anchor head = record {
  selections = normalize (set.selections ++ from_anchor set.next_id anchor head ∷ []);
  next_id = set.next_id + 1;
}

unfoldable pub set_single : SelectionSet → Selection → SelectionSet
set_single set s = record set { selections = s ∷ [] }

unfoldable pub map_each : SelectionSet → (Selection → Selection) → SelectionSet
map_each set f = record set { selections = normalize (map f set.selections) }

-- One query for a caret, two for a range.
unfoldable pub rebase_queries : List Selection → List (ℕ × Bias)
rebase_queries [] = []
rebase_queries (s ∷ ss) =
    let rest = rebase_queries ss in
    if s.start == s.end then (s.start, right) ∷ rest else (s.start, left) ∷ (s.end, right) ∷ rest

-- The answers in the order of the queries: there is one for each, so that no index is out of range.
unfoldable pub rebase_selections : List Selection → List ℕ → ℕ → List Selection
rebase_selections [] mapped mi = []
rebase_selections (s ∷ ss) mapped mi = elim (s.start == s.end) [
  | true ↦
      let o = get_or mapped mi 0 in
      record s { start = o; end = o; goal = none } ∷ rebase_selections ss mapped (mi + 1)
  | false ↦
      let ns = get_or mapped mi 0 in
      let ne = get_or mapped (mi + 1) 0 in
      record s { start = min ns ne; end = max ne ns; goal = none }
      ∷ rebase_selections ss mapped (mi + 2)
]

unfoldable pub rebase : SelectionSet → Patch → SelectionSet
rebase set patch = record set {
  selections =
      normalize
        (rebase_selections set.selections (map_many patch (rebase_queries set.selections)) 0);
}

-- Carets with the ids from `id` on.
unfoldable pub carets_from : ℕ → List ℕ → List Selection
carets_from id [] = []
carets_from id (o ∷ offsets) = caret id o ∷ carets_from (id + 1) offsets

-- `none` is the panic on an empty set.
unfoldable pub from_offsets : List ℕ → Option SelectionSet
from_offsets [] = none
from_offsets (o ∷ offsets) = some (record {
  selections = normalize (carets_from 0 (o ∷ offsets));
  next_id = length (o ∷ offsets);
})

-- The ranges but the one at `newest`, with the ids from `id` on; `i` is the index of the first.
unfoldable pub other_ranges : ℕ → ℕ → ℕ → List (ℕ × ℕ) → List Selection
other_ranges newest i id [] = []
other_ranges newest i id ((anchor, head) ∷ ranges) = elim (i == newest) [
  | true ↦ other_ranges newest (i + 1) id ranges
  | false ↦ from_anchor id anchor head ∷ other_ranges newest (i + 1) (id + 1) ranges
]

-- `none` is the panic on an empty set or an index out of bounds.
unfoldable pub from_ranges : List (ℕ × ℕ) → ℕ → Option SelectionSet
from_ranges ranges newest = elim (get_elem? ranges newest) [
  | none ↦ none
  | some (anchor, head) ↦
      let others = other_ranges newest 0 0 ranges in
      some (record {
        selections = normalize (others ++ from_anchor (length others) anchor head ∷ []);
        next_id = length others + 1;
      })
]

-- The largest id, the last one of several.
unfoldable pub newest_from : Selection → List Selection → Selection
newest_from best [] = best
newest_from best (s ∷ ss) = newest_from (if leb best.id s.id then s else best) ss

-- The smallest id, the first one of several.
unfoldable pub oldest_from : Selection → List Selection → Selection
oldest_from best [] = best
oldest_from best (s ∷ ss) = oldest_from (if ltb s.id best.id then s else best) ss

unfoldable pub without_id : ℕ → List Selection → List Selection
without_id id [] = []
without_id id (s ∷ ss) = let rest = without_id id ss in if s.id == id then rest else s ∷ rest

-- `none` is the panic on an empty set, which there never is.
unfoldable pub remove_newest : SelectionSet → Option (SelectionSet × Bool)
remove_newest set = elim set.selections [
  | [] ↦ none
  | s ∷ [] ↦ some (set, false)
  | s ∷ t ∷ ss ↦
      some (record set { selections = without_id (newest_from s (t ∷ ss)).id (s ∷ t ∷ ss) }, true)
]

unfoldable pub collapse_to_newest : SelectionSet → Option SelectionSet
collapse_to_newest set = elim set.selections [
  | [] ↦ none
  | s ∷ ss ↦ some (record set { selections = collapse_to_head (newest_from s ss) ∷ [] })
]

unfoldable pub collapse_to_primary : SelectionSet → Option SelectionSet
collapse_to_primary set = elim set.selections [
  | [] ↦ none
  | s ∷ ss ↦ some (record set { selections = collapse_to_head (oldest_from s ss) ∷ [] })
]
