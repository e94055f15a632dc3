-- ===== src/Selection/Rebase.antt =====
-- `rebase`: one batch map, read back in the order of the queries, moves every selection by itself.
use matcha.Common.{
  ℕ, suc, ◌+◌, ◌≤◌, ◌<◌, ◌≡◌, refl, sym, ap, ap₂, subst, ◌∙◌, inl, inr, true, false, none, List, [],
  ◌∷◌, map, min, max, ◌==◌, if◌then◌else◌, get_or, u32_mod, Bool-cases, arith,
}
use matcha.Coords.{Bias, left, right}
use matcha.Patch.{Patch, map_offset, map_many}
use matcha.Patch.Spec.{Ascending, old_end}
use matcha.Patch.Batch.{AllU32, map_many-eq-map_offset}
use matcha.Selection.{Selection, SelectionSet, normalize, rebase_queries, rebase_selections, rebase}
use matcha.Selection.Normal.{AllOrdered, Apart, normalize-Apart}

-- A caret follows the text inserted at it; a range keeps what is inserted at its ends.
abbrev pub moved : Patch → Selection → Selection
moved p s =
    if s.start == s.end
    then record s {
      start = map_offset p s.start right;
      end = map_offset p s.start right;
      goal = none;
    }
    else record s {
      start = min (map_offset p s.start left) (map_offset p s.end right);
      end = max (map_offset p s.end right) (map_offset p s.start left);
      goal = none;
    }

abbrev answer : Patch → ℕ × Bias → ℕ
answer p q = map_offset p q.0 q.1

-- From an index on, a list of answers holds these.
abbrev HoldsAt : List ℕ → ℕ → List ℕ → Type 0
HoldsAt m i [] = Unit
HoldsAt m i (x ∷ xs) = (get_or m i 0 ≡ x) × HoldsAt m (suc i) xs

HoldsAt-cons : (y : ℕ) (m xs : List ℕ) (i : ℕ) → HoldsAt m i xs → HoldsAt (y ∷ m) (suc i) xs
HoldsAt-cons y m [] i h = tt
HoldsAt-cons y m (x ∷ xs) i h = (h.0, HoldsAt-cons y m xs (suc i) h.1)

HoldsAt-self : (xs : List ℕ) → HoldsAt xs 0 xs
HoldsAt-self [] = tt
HoldsAt-self (x ∷ xs) = (refl, HoldsAt-cons x xs xs 0 (HoldsAt-self xs))

-- All ends are u32 offsets.
abbrev pub AllEndsU32 : List Selection → Type 0
AllEndsU32 [] = Unit
AllEndsU32 (s ∷ ss) = (s.start < u32_mod) × (s.end < u32_mod) × AllEndsU32 ss

queries_caret :
    (s : Selection) (ss : List Selection)
    → (s.start == s.end) ≡ true
    → rebase_queries (s ∷ ss) ≡ (s.start, right) ∷ rebase_queries ss
unfolding rebase_queries
queries_caret s ss e = rw e refl

queries_range :
    (s : Selection) (ss : List Selection)
    → (s.start == s.end) ≡ false
    → rebase_queries (s ∷ ss) ≡ (s.start, left) ∷ (s.end, right) ∷ rebase_queries ss
unfolding rebase_queries
queries_range s ss e = rw e refl

AllU32-rebase_queries : (ss : List Selection) → AllEndsU32 ss → AllU32 (rebase_queries ss)
AllU32-rebase_queries [] h = unfold rebase_queries in tt
AllU32-rebase_queries (s ∷ ss) h = elim (Bool-cases (s.start == s.end)) [
  | inl e ↦ subst AllU32 (sym (queries_caret s ss e)) (h.0, AllU32-rebase_queries ss h.2)
  | inr e ↦ subst AllU32 (sym (queries_range s ss e)) (h.0, (h.1, AllU32-rebase_queries ss h.2))
]

rebase_caret :
    (s : Selection) (ss : List Selection) (m : List ℕ) (i : ℕ)
    → (s.start == s.end) ≡ true
    → rebase_selections (s ∷ ss) m i
      ≡ record s { start = get_or m i 0; end = get_or m i 0; goal = none }
        ∷ rebase_selections ss m (i + 1)
unfolding rebase_selections
rebase_caret s ss m i e = ground (arith, e)

rebase_range :
    (s : Selection) (ss : List Selection) (m : List ℕ) (i : ℕ)
    → (s.start == s.end) ≡ false
    → rebase_selections (s ∷ ss) m i
      ≡ record s {
        start = min (get_or m i 0) (get_or m (i + 1) 0);
        end = max (get_or m (i + 1) 0) (get_or m i 0);
        goal = none;
      }
        ∷ rebase_selections ss m (i + 2)
unfolding rebase_selections
rebase_range s ss m i e = ground (arith, e)

moved_caret :
    (p : Patch) (s : Selection)
    → (s.start == s.end) ≡ true
    → moved p s ≡ record s {
      start = map_offset p s.start right;
      end = map_offset p s.start right;
      goal = none;
    }
moved_caret p s e = rw e refl

moved_range :
    (p : Patch) (s : Selection)
    → (s.start == s.end) ≡ false
    → moved p s ≡ record s {
      start = min (map_offset p s.start left) (map_offset p s.end right);
      end = max (map_offset p s.end right) (map_offset p s.start left);
      goal = none;
    }
moved_range p s e = rw e refl

rebase_selections-moved :
    (p : Patch) (ss : List Selection) (m : List ℕ) (i : ℕ)
    → HoldsAt m i (map (answer p) (rebase_queries ss))
    → rebase_selections ss m i ≡ map (moved p) ss
rebase_selections-moved p [] m i h = unfold rebase_selections in refl
rebase_selections-moved p (s ∷ ss) m i h = elim (Bool-cases (s.start == s.end)) [
  | inl e ↦
      let h' : HoldsAt m i (map (answer p) ((s.start, right) ∷ rebase_queries ss)) =
        subst (λ (q : List (ℕ × Bias)). HoldsAt m i (map (answer p) q)) (queries_caret s ss e) h in
      let next : suc i ≡ i + 1 = omega arith in
      rebase_caret s ss m i e
      ∙ ap₂ (λ (t : Selection) (ts : List Selection). t ∷ ts)
          (ap (λ o. record s { start = o; end = o; goal = none }) h'.0 ∙ sym (moved_caret p s e))
          (rebase_selections-moved p ss m (i + 1)
            (subst (λ n. HoldsAt m n (map (answer p) (rebase_queries ss))) next h'.1))
  | inr e ↦
      let h' : HoldsAt m i (map (answer p) ((s.start, left) ∷ (s.end, right) ∷ rebase_queries ss)) =
        subst (λ (q : List (ℕ × Bias)). HoldsAt m i (map (answer p) q)) (queries_range s ss e) h in
      let next : suc i ≡ i + 1 = omega arith in
      let after : suc (suc i) ≡ i + 2 = omega arith in
      let second : get_or m (i + 1) 0 ≡ map_offset p s.end right =
        subst (λ n. get_or m n 0 ≡ map_offset p s.end right) next h'.1.0 in
      rebase_range s ss m i e
      ∙ ap₂ (λ (t : Selection) (ts : List Selection). t ∷ ts)
          (ap₂ (λ a c. record s { start = min a c; end = max c a; goal = none }) h'.0 second
            ∙ sym (moved_range p s e))
          (rebase_selections-moved p ss m (i + 2)
            (subst (λ n. HoldsAt m n (map (answer p) (rebase_queries ss))) after h'.1.1))
]

AllOrdered-moved : (p : Patch) (ss : List Selection) → AllOrdered (map (moved p) ss)
AllOrdered-moved p [] = tt
AllOrdered-moved p (s ∷ ss) = elim (Bool-cases (s.start == s.end)) [
  | inl e ↦ (
    subst (λ (t : Selection). t.start ≤ t.end) (sym (moved_caret p s e)) (omega arith),
    AllOrdered-moved p ss,
  )
  | inr e ↦ (
    subst (λ (t : Selection). t.start ≤ t.end) (sym (moved_range p s e)) (omega arith),
    AllOrdered-moved p ss,
  )
]

-- For a patch whose edits ascend and are disjoint in both spaces, and a set whose ends are, like the
-- patch's old offsets, below 2 ^ 32: `rebase` moves each selection by `map_offset`, a caret to the
-- right and a range outwards, without its goal, and normalizes; the selections are then in order
-- and apart, and the next id is kept.
pub rebase-moved :
    (set : SelectionSet) (p : Patch)
    → Ascending 0 0 p.edits
    → old_end 0 p.edits < u32_mod
    → AllEndsU32 set.selections
    → ((rebase set p).selections ≡ normalize (map (moved p) set.selections))
      × Apart (rebase set p).selections
      × ((rebase set p).next_id ≡ set.next_id)
unfolding rebase
rebase-moved set p a h u =
    let qs = rebase_queries set.selections in
    let same : rebase_selections set.selections (map_many p qs) 0 ≡ map (moved p) set.selections =
      ap (λ (m : List ℕ). rebase_selections set.selections m 0)
        (map_many-eq-map_offset p qs a h (AllU32-rebase_queries set.selections u))
      ∙ rebase_selections-moved p set.selections (map (answer p) qs) 0
          (HoldsAt-self (map (answer p) qs)) in
    (
      ap normalize same,
      subst (λ (l : List Selection). Apart (normalize l)) (sym same)
          (normalize-Apart (map (moved p) set.selections) (AllOrdered-moved p set.selections)).0,
      refl,
    )
