-- ===== src/DirtyRanges/Splices.antt =====
-- What a commit's splices leave: separated runs that hold the shifted runs and the edits' new lines.
use matcha.Common.{
  ℕ, suc, ◌≤◌, ◌<◌, ◌≡◌, refl, sym, ap, ◌∙◌, ◌||◌, List, [], ◌∷◌, ◌++◌, max, ltb, leb, Bool-cases,
  arith, inl, inr, ltb→lt, leb→le, leb→lt,
}
use matcha.Common.Int.{ℤ, pos, as_u32, ◌+ℤ◌}
use mathlib.Core.Bool.{or_assoc}
use matcha.DirtyRanges.{
  Run, Span, deltas, shifted_runs, new_spans, insert_by_start, sort_by_start, coalesce_from,
  coalesce, apply_splices, push_nonempty, shift_at,
}
use matcha.DirtyRanges.Sets.{in_run, marked, Separated}

-- No run is empty.
abbrev Filled : List Run → Type 0
Filled [] = Unit
Filled (r ∷ rs) = (r.start < r.end) × Filled rs

-- In the order of their starts, the first at `at` or later.
abbrev ByStart : ℕ → List Run → Type 0
ByStart at [] = Unit
ByStart at (r ∷ rs) = (at ≤ r.start) × ByStart r.start rs

Filled-append : (xs ys : List Run) → Filled xs → Filled ys → Filled (xs ++ ys)
Filled-append [] ys f g = g
Filled-append (x ∷ xs) ys f g = (f.0, Filled-append xs ys f.1 g)

Filled-shifted_runs :
    (pref : List ℤ) (spans : List Span) (rs : List Run) → Filled (shifted_runs pref spans rs)
unfolding shifted_runs push_nonempty
Filled-shifted_runs pref spans [] = tt
Filled-shifted_runs pref spans (r ∷ rs) =
    let from = as_u32 (pos r.start +ℤ shift_at pref spans r.start) in
    let to = as_u32 (pos r.end +ℤ shift_at pref spans r.end) in
    elim (Bool-cases (ltb from to)) [
      | inl e ↦ rw e (ltb→lt from to e, Filled-shifted_runs pref spans rs)
      | inr e ↦ rw e (Filled-shifted_runs pref spans rs)
    ]

Filled-new_spans : (pref : List ℤ) (spans : List Span) → Filled (new_spans pref spans)
unfolding new_spans
Filled-new_spans pref [] = tt
Filled-new_spans [] (s ∷ ss) = tt
Filled-new_spans (d ∷ pref) (s ∷ ss) = elim (Bool-cases (ltb 0 s.new_lines)) [
  | inl e ↦ rw e (omega (arith, ltb→lt 0 s.new_lines e), Filled-new_spans pref ss)
  | inr e ↦ rw e (Filled-new_spans pref ss)
]

Filled-insert_by_start :
    (r : Run) (rs : List Run) → r.start < r.end → Filled rs → Filled (insert_by_start r rs)
unfolding insert_by_start
Filled-insert_by_start r [] h f = (h, f)
Filled-insert_by_start r (q ∷ rs) h f = elim (Bool-cases (leb r.start q.start)) [
  | inl e ↦ rw e (h, f)
  | inr e ↦ rw e (f.0, Filled-insert_by_start r rs h f.1)
]

Filled-sort_by_start : (rs : List Run) → Filled rs → Filled (sort_by_start rs)
unfolding sort_by_start
Filled-sort_by_start [] f = tt
Filled-sort_by_start (r ∷ rs) f =
    Filled-insert_by_start r (sort_by_start rs) f.0 (Filled-sort_by_start rs f.1)

ByStart-insert_by_start :
    (r : Run) (rs : List Run) (at : ℕ)
    → at ≤ r.start
    → ByStart at rs
    → ByStart at (insert_by_start r rs)
unfolding insert_by_start
ByStart-insert_by_start r [] at h b = (h, b)
ByStart-insert_by_start r (q ∷ rs) at h b = elim (Bool-cases (leb r.start q.start)) [
  | inl e ↦ rw e (h, (leb→le r.start q.start e, b.1))
  | inr e ↦ rw e (b.0, ByStart-insert_by_start r rs q.start (ground arith) b.1)
]

ByStart-sort_by_start : (rs : List Run) → ByStart 0 (sort_by_start rs)
unfolding sort_by_start
ByStart-sort_by_start [] = tt
ByStart-sort_by_start (r ∷ rs) =
    ByStart-insert_by_start r (sort_by_start rs) 0 (omega arith) (ByStart-sort_by_start rs)

marked-insert_by_start :
    (p : ℕ) (r : Run) (rs : List Run)
    → marked p (insert_by_start r rs) ≡ (in_run p r || marked p rs)
unfolding insert_by_start marked in_run
marked-insert_by_start p r [] = refl
marked-insert_by_start p r (q ∷ rs) = let ih = marked-insert_by_start p r rs in ground (arith, ih)

marked-sort_by_start : (p : ℕ) (rs : List Run) → marked p (sort_by_start rs) ≡ marked p rs
unfolding sort_by_start marked
marked-sort_by_start p [] = refl
marked-sort_by_start p (r ∷ rs) =
    marked-insert_by_start p r (sort_by_start rs) ∙ ap (in_run p r ||◌) (marked-sort_by_start p rs)

pub marked-append : (p : ℕ) (xs ys : List Run) → marked p (xs ++ ys) ≡ (marked p xs || marked p ys)
unfolding marked
marked-append p [] ys = refl
marked-append p (x ∷ xs) ys =
    ap (in_run p x ||◌) (marked-append p xs ys)
    ∙ sym (or_assoc (in_run p x) (marked p xs) (marked p ys))

ByStart-le : (rs : List Run) (at from : ℕ) → from ≤ at → ByStart at rs → ByStart from rs
ByStart-le [] at from h b = tt
ByStart-le (r ∷ rs) at from h b = (omega (arith, b.0), b.1)

coalesce_from-marked :
    (last : Run) (rs : List Run) (at : ℕ)
    → at ≤ last.start
    → last.start < last.end
    → ByStart last.start rs
    → Filled rs
    → Separated at (coalesce_from last rs)
      × ((p : ℕ) → marked p (coalesce_from last rs) ≡ (in_run p last || marked p rs))
unfolding coalesce_from marked in_run
coalesce_from-marked last [] at h k b f = ((h, k, tt), λ p. refl)
coalesce_from-marked last (r ∷ rs) at h k b f = elim (Bool-cases (leb r.start last.end)) [
  | inl e ↦
      let ih =
        coalesce_from-marked (record last { end = max last.end r.end }) rs at h (omega arith)
          (ByStart-le rs r.start last.start b.0 b.1) f.1 in
      rw (e, coalesce_from) (ih.0, λ p. ih.1 p ∙ ground (arith, f.0, b.0))
  | inr e ↦
      let ih = coalesce_from-marked r rs (suc last.end) (leb→lt r.start last.end e) f.0 b.1 f.1 in
      rw (e, coalesce_from) ((h, k, ih.0), λ p. ap (in_run p last ||◌) (ih.1 p))
]

-- Runs in order of their starts, none of them empty, coalesce into separated runs of the same rows.
pub coalesce-marked :
    (rs : List Run)
    → ByStart 0 rs
    → Filled rs
    → Separated 0 (coalesce rs) × ((p : ℕ) → marked p (coalesce rs) ≡ marked p rs)
unfolding coalesce marked
coalesce-marked [] b f = (tt, λ p. refl)
coalesce-marked (r ∷ rs) b f = coalesce_from-marked r rs 0 (omega arith) f.0 b.1 f.1

-- A commit with at least one span leaves separated runs, whatever they were, that mark the rows of the
-- shifted runs and of the edits' new lines, and no other row.
pub apply_splices-marked :
    (rs : List Run) (s : Span) (ss : List Span)
    → let pref = deltas (pos 0) (s ∷ ss) in
      Separated 0 (apply_splices rs (s ∷ ss))
      × ((p : ℕ)
          → marked p (apply_splices rs (s ∷ ss))
            ≡ (marked p (shifted_runs pref (s ∷ ss) rs) || marked p (new_spans pref (s ∷ ss))))
unfolding apply_splices
apply_splices-marked rs s ss =
    let pref = deltas (pos 0) (s ∷ ss) in
    let shifted = shifted_runs pref (s ∷ ss) rs in
    let fresh = new_spans pref (s ∷ ss) in
    let joined =
      coalesce-marked (sort_by_start (shifted ++ fresh)) (ByStart-sort_by_start (shifted ++ fresh))
        (Filled-sort_by_start (shifted ++ fresh) (
          Filled-append shifted fresh (Filled-shifted_runs pref (s ∷ ss) rs)
            (Filled-new_spans pref (s ∷ ss)))) in
    (
      joined.0,
      λ p. joined.1 p ∙ marked-sort_by_start p (shifted ++ fresh) ∙ marked-append p shifted fresh,
    )
