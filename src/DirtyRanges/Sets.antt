-- ===== src/DirtyRanges/Sets.antt =====
-- The set of rows that a list of runs stands for, and how the queries, `remove_first` and
-- `clear_range` act on it.
use mathlib.Core.Option.{some-injective}
use matcha.Common.{
  ℕ, suc, ◌+◌, ◌≤◌, ◌<◌, ◌≡◌, refl, ap, ◌∙◌, Bool, true, false, not, ◌&&◌, ◌||◌, some, List, [],
  ◌∷◌, max, min, ltb, leb, ◌==◌, Bool-cases, arith, inl, inr, ltb→lt, leb→lt,
}
use matcha.DirtyRanges.{Run, first, remove_first, contains, clear_range, clip_runs, push_nonempty}

unfoldable pub in_run : ℕ → Run → Bool
in_run p r = leb r.start p && ltb p r.end

-- The row is in one of the runs.
unfoldable pub marked : ℕ → List Run → Bool
marked p [] = false
marked p (r ∷ rs) = in_run p r || marked p rs

-- Not empty, ascending from `at`, and with a row between each two: disjoint and not adjacent.
abbrev pub Separated : ℕ → List Run → Type 0
Separated at [] = Unit
Separated at (r ∷ rs) = (at ≤ r.start) × (r.start < r.end) × Separated (suc r.end) rs

pub Separated-le : (rs : List Run) (at from : ℕ) → from ≤ at → Separated at rs → Separated from rs
Separated-le [] at from h s = tt
Separated-le (r ∷ rs) at from h (a, l, s) = (omega arith, l, s)

-- Nothing below the first run is marked.
pub marked_below : (p : ℕ) (rs : List Run) (at : ℕ) → Separated at rs → p < at → marked p rs ≡ false
unfolding marked in_run
marked_below p [] at s h = refl
marked_below p (r ∷ rs) at (a, l, s) h =
    let e = marked_below p rs (suc r.end) s (omega arith) in ground (arith, e)

contains-past :
    (r : Run) (rs : List Run) (row : ℕ)
    → leb r.end row ≡ true
    → contains (r ∷ rs) row ≡ contains rs row
unfolding contains
contains-past r rs row e = rw (e, contains) refl

contains-here :
    (r : Run) (rs : List Run) (row : ℕ)
    → leb r.end row ≡ false
    → contains (r ∷ rs) row ≡ leb r.start row
unfolding contains
contains-here r rs row e = rw (e, contains) refl

-- On separated runs `contains` tells whether the row is in one of the runs.
pub contains-marked :
    (rs : List Run) (at row : ℕ) → Separated at rs → contains rs row ≡ marked row rs
unfolding contains marked in_run
contains-marked [] at row s = refl
contains-marked (r ∷ rs) at row (a, l, s) = elim (Bool-cases (leb r.end row)) [
  | inl e ↦
      let ih = contains-marked rs (suc r.end) row s in
      let past = contains-past r rs row e in past ∙ ih ∙ ground arith
  | inr e ↦
      let above = marked_below row rs (suc r.end) s (ground arith) in
      let here = contains-here r rs row e in here ∙ ground (arith, above)
]

pub marked-push_nonempty :
    (p : ℕ) (r : Run) (rs : List Run) → marked p (push_nonempty r rs) ≡ (in_run p r || marked p rs)
unfolding marked in_run push_nonempty
marked-push_nonempty p r rs = ground arith

Separated-push_nonempty :
    (r : Run) (rs : List Run) (at : ℕ)
    → at ≤ r.start
    → Separated at rs
    → (r.start < r.end → Separated (suc r.end) rs)
    → Separated at (push_nonempty r rs)
unfolding push_nonempty
Separated-push_nonempty r rs at a s f = elim (Bool-cases (ltb r.start r.end)) [
  | inl e ↦ rw e (a, ltb→lt r.start r.end e, f (ltb→lt r.start r.end e))
  | inr e ↦ rw e s
]

-- The two parts of a run that clipping leaves hold its rows outside the range.
clip_one :
    (p : ℕ) (r range : Run)
    → range.start < range.end
    → (in_run p (record { start = r.start; end = min r.end range.start })
        || in_run p (record { start = max r.start range.end; end = r.end }))
      ≡ (in_run p r && not (in_run p range))
unfolding in_run
clip_one p r range h = ground arith

||-&&-distribute :
    (a b c m n : Bool) → (a || b) ≡ (c && n) → (a || (b || (m && n))) ≡ ((c || m) && n)
||-&&-distribute a b c m n h = ground arith

Separated-clip_runs :
    (rs : List Run) (range : Run) (at : ℕ)
    → range.start < range.end
    → Separated at rs
    → Separated at (clip_runs rs range)
unfolding clip_runs
Separated-clip_runs [] range at h s = tt
Separated-clip_runs (r ∷ rs) range at h (a, l, s) =
    let rest = Separated-clip_runs rs range (suc r.end) h s in
    let upper = λ (from : ℕ) (k : from ≤ max r.start range.end) (m : from ≤ suc r.end).
      Separated-push_nonempty (record { start = max r.start range.end; end = r.end })
        (clip_runs rs range) from k (Separated-le (clip_runs rs range) (suc r.end) from m rest)
        (λ _. rest) in
    Separated-push_nonempty (record { start = r.start; end = min r.end range.start })
      (push_nonempty (record { start = max r.start range.end; end = r.end }) (clip_runs rs range))
      at a (upper at (omega arith) (omega arith))
      (λ _. upper (suc (min r.end range.start)) (omega arith) (omega arith))

marked-clip_runs :
    (rs : List Run) (range : Run) (p : ℕ)
    → range.start < range.end
    → marked p (clip_runs rs range) ≡ (marked p rs && not (in_run p range))
unfolding clip_runs marked
marked-clip_runs [] range p h = refl
marked-clip_runs (r ∷ rs) range p h =
    let lo : Run = record { start = r.start; end = min r.end range.start } in
    let hi : Run = record { start = max r.start range.end; end = r.end } in
    let rest = clip_runs rs range in
    marked-push_nonempty p lo (push_nonempty hi rest)
    ∙ ap (in_run p lo ||◌)
        (marked-push_nonempty p hi rest ∙ ap (in_run p hi ||◌) (marked-clip_runs rs range p h))
    ∙ ||-&&-distribute (in_run p lo) (in_run p hi) (in_run p r) (marked p rs) (not (in_run p range))
        (clip_one p r range h)

-- Clearing a range of rows leaves separated runs that mark exactly the rows outside it.
pub clear_range-marked :
    (rs : List Run) (range : Run)
    → Separated 0 rs
    → Separated 0 (clear_range rs range)
      × ((p : ℕ) → marked p (clear_range rs range) ≡ (marked p rs && not (in_run p range)))
unfolding clear_range in_run
clear_range-marked rs range s = elim (Bool-cases (leb range.end range.start)) [
  | inl e ↦ rw e (s, λ p. ground arith)
  | inr e ↦ rw e (
    Separated-clip_runs rs range 0 (leb→lt range.end range.start e) s,
    λ p. marked-clip_runs rs range p (leb→lt range.end range.start e),
  )
]

-- Removing the first dirty row of separated runs leaves separated runs that mark exactly the other
-- rows.
pub remove_first-marked :
    (rs : List Run) (row : ℕ)
    → Separated 0 rs
    → first rs ≡ some row
    → (rs' : List Run) × (remove_first rs row ≡ some rs')
      × Separated 0 rs'
      × ((p : ℕ) → marked p rs' ≡ (marked p rs && not (p == row)))
unfolding first remove_first marked in_run
remove_first-marked [] row s h = cc
remove_first-marked (r ∷ rs) row (a, l, s) h =
    let e = some-injective _ _ h in
    elim (Bool-cases (leb r.end (r.start + 1))) [
      | inl short ↦ rw short (
        rs,
        refl,
        Separated-le rs (suc r.end) 0 (omega arith) s,
        λ p. ground (arith, e, marked_below p rs (suc r.end) s),
      )
      | inr long ↦ rw long (
        record r { start = r.start + 1 } ∷ rs,
        refl,
        (omega arith, ground arith, s),
        λ p. ground (arith, e, marked_below p rs (suc r.end) s),
      )
    ]
