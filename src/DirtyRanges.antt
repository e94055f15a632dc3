-- ===== src/DirtyRanges.antt =====
-- The rows whose highlight state has not yet converged, as runs
-- (crates/matcha-core/src/highlight/dirty_ranges.rs). A run's ends are numbers: a document has fewer
-- than 2 ^ 32 rows, so `row + 1` and `end + 1` do not wrap. `debug_assert_eq!` is left out, as a
-- release build leaves it.
pub mod Sets
pub mod Inserts
pub mod Ranges
pub mod Splices
pub mod Moved
pub mod Stale
use matcha.Common.{
  ℕ, zero, suc, ◌+◌, ◌-◌, ◌≤◌, Bool, true, false, not, ◌&&◌, ◌||◌, Option, none, some, List, [],
  ◌∷◌, ◌++◌, map, min, max, length, ltb, leb, ◌==◌, if◌then◌else◌, get_or, get_elem?, set, take,
  drop, partition_point,
}
use matcha.Common.Int.{ℤ, pos, ◌+ℤ◌, ◌-ℤ◌, as_u32}

-- `Range<u32>`
pub record Run : Type 0 where
  pub start : ℕ
  pub end : ℕ

unfoldable pub all : ℕ → List Run
all n = if ltb 0 n then record { start = 0; end = n } ∷ [] else []

unfoldable pub first : List Run → Option ℕ
first [] = none
first (r ∷ rs) = some r.start

-- `none` is the panic of `self.0[0]` on no runs.
unfoldable pub remove_first : List Run → ℕ → Option (List Run)
remove_first [] row = none
remove_first (r ∷ rs) row =
    some (if leb r.end (r.start + 1) then rs else record r { start = r.start + 1 } ∷ rs)

-- `Vec::insert` and `Vec::remove` within bounds.
unfoldable pub insert_at : List Run → ℕ → Run → List Run
insert_at rs zero v = v ∷ rs
insert_at [] (suc i) v = v ∷ []
insert_at (r ∷ rs) (suc i) v = r ∷ insert_at rs i v

unfoldable pub remove_at : List Run → ℕ → List Run
remove_at [] i = []
remove_at (r ∷ rs) zero = rs
remove_at (r ∷ rs) (suc i) = r ∷ remove_at rs i

-- Run `i`, which is `r`, extended right, and merged into the next one when they now touch.
unfoldable pub extend_right : List Run → ℕ → Run → List Run
unfolding remove_at
extend_right rs i r = elim (get_elem? rs (suc i)) [
  | none ↦ set rs i (record r { end = r.end + 1 })
  | some next ↦
      if r.end + 1 == next.start
      then remove_at (set rs i (record r { end = next.end })) (suc i)
      else set rs i (record r { end = r.end + 1 })
]

-- The body of `insert` after the search, whose result is `i`.
unfoldable pub insert_from : List Run → ℕ → ℕ → List Run
unfolding insert_at extend_right
insert_from rs row i = elim (get_elem? rs i) [
  | none ↦ insert_at rs i (record { start = row; end = row + 1 })
  | some r ↦
      if leb r.start row && ltb row r.end
      then rs
      else if r.end == row
      then extend_right rs i r
      else if r.start == row + 1
      then set rs i (record r { start = row })
      else insert_at rs i (record { start = row; end = row + 1 })
]

unfoldable pub insert : List Run → ℕ → List Run
unfolding insert_from
insert rs row = insert_from rs row (partition_point (λ r. ltb r.end row) rs)

-- The run that `insert_range` puts in place of runs `lo .. hi`. An index out of bounds reads as the new
-- range itself: `lo < hi` keeps both reads in bounds.
unfoldable pub merged_run : List Run → Run → ℕ → ℕ → Run
merged_run rs range lo hi =
    if ltb lo hi
    then record {
      start = min (get_or rs lo range).start range.start;
      end = max (get_or rs (hi - 1) range).end range.end;
    }
    else range

unfoldable pub insert_range : List Run → Run → List Run
unfolding merged_run
insert_range rs range =
    let lo = partition_point (λ r. ltb r.end range.start) rs in
    let hi = partition_point (λ r. leb r.start range.end) rs in
    if leb range.end range.start then rs else take lo rs ++ merged_run rs range lo hi ∷ drop hi rs

unfoldable pub contains : List Run → ℕ → Bool
contains rs row = elim (get_elem? rs (partition_point (λ r. leb r.end row) rs)) [
  | none ↦ false
  | some r ↦ leb r.start row
]

unfoldable pub push_nonempty : Run → List Run → List Run
push_nonempty r rs = if ltb r.start r.end then r ∷ rs else rs

-- The loop of `clear_range`.
unfoldable pub clip_runs : List Run → Run → List Run
unfolding push_nonempty
clip_runs [] range = []
clip_runs (r ∷ rs) range =
    let rest = clip_runs rs range in
    push_nonempty (record { start = r.start; end = min r.end range.start })
      (push_nonempty (record { start = max r.start range.end; end = r.end }) rest)

unfoldable pub clear_range : List Run → Run → List Run
unfolding clip_runs
clear_range rs range = if leb range.end range.start then rs else clip_runs rs range

-- The span `(pre_start, old_lines, new_lines)` of an edit, in lines before it.
pub record Span : Type 0 where
  pub pre_start : ℕ
  pub old_lines : ℕ
  pub new_lines : ℕ

-- `pref`: the line deltas of the spans so far, summed up before each span and after the last.
unfoldable pub deltas : ℤ → List Span → List ℤ
deltas d [] = d ∷ []
deltas d (s ∷ ss) = d ∷ deltas (d +ℤ pos s.new_lines -ℤ pos s.old_lines) ss

unfoldable pub shift_at : List ℤ → List Span → ℕ → ℤ
shift_at pref spans pre =
    get_or pref (partition_point (λ s. leb (s.pre_start + s.old_lines) pre) spans) (pos 0)

-- The loop over the existing runs.
unfoldable pub shifted_runs : List ℤ → List Span → List Run → List Run
unfolding shift_at push_nonempty
shifted_runs pref spans [] = []
shifted_runs pref spans (r ∷ rs) =
    let rest = shifted_runs pref spans rs in
    push_nonempty
      (record {
        start = as_u32 (pos r.start +ℤ shift_at pref spans r.start);
        end = as_u32 (pos r.end +ℤ shift_at pref spans r.end);
      })
      rest

-- The loop over the spans, each with its entry of `pref`.
unfoldable pub new_spans : List ℤ → List Span → List Run
new_spans pref [] = []
new_spans [] (s ∷ ss) = []
new_spans (d ∷ pref) (s ∷ ss) =
    let rest = new_spans pref ss in
    let post_start = as_u32 (pos s.pre_start +ℤ d) in
    if ltb 0 s.new_lines
    then record { start = post_start; end = post_start + s.new_lines } ∷ rest
    else rest

-- `sort_unstable_by_key(|r| r.start)`, in one of the orders it may leave runs of equal start in.
unfoldable pub insert_by_start : Run → List Run → List Run
insert_by_start r [] = r ∷ []
insert_by_start r (q ∷ rs) =
    let rest = insert_by_start r rs in if leb r.start q.start then r ∷ q ∷ rs else q ∷ rest

unfoldable pub sort_by_start : List Run → List Run
unfolding insert_by_start
sort_by_start [] = []
sort_by_start (r ∷ rs) = insert_by_start r (sort_by_start rs)

-- The last loop: `last` is the run pushed last.
unfoldable pub coalesce_from : Run → List Run → List Run
coalesce_from last [] = last ∷ []
coalesce_from last (r ∷ rs) = elim (leb r.start last.end) [
  | true ↦ coalesce_from (record last { end = max last.end r.end }) rs
  | false ↦ last ∷ coalesce_from r rs
]

unfoldable pub coalesce : List Run → List Run
unfolding coalesce_from
coalesce [] = []
coalesce (r ∷ rs) = coalesce_from r rs

unfoldable pub apply_splices : List Run → List Span → List Run
unfolding deltas shifted_runs new_spans sort_by_start coalesce
apply_splices rs [] = rs
apply_splices rs (s ∷ ss) =
    let spans = s ∷ ss in
    let pref = deltas (pos 0) spans in
    coalesce (sort_by_start (shifted_runs pref spans rs ++ new_spans pref spans))
