-- ===== src/Selection/Sets.antt =====
-- Adding a selection to a set keeps it in order and apart.
use matcha.Common.{
  ℕ, ◌+◌, ◌≤◌, ◌≡◌, refl, ap, ◌∙◌, inl, inr, Bool, true, false, ◌||◌, List, [], ◌∷◌, ◌++◌, ◌==◌,
  Bool-cases, arith,
}
use matcha.Selection.{Selection, SelectionSet, from_anchor, add_selection, other_ranges}
use matcha.Selection.Normal.{AllOrdered, Apart, covers, covered, normalize-Apart}

AllOrdered-Apart : (ss : List Selection) → Apart ss → AllOrdered ss
AllOrdered-Apart [] a = tt
AllOrdered-Apart (s ∷ []) a = (a, tt)
AllOrdered-Apart (s ∷ t ∷ ss) a = (a.0, AllOrdered-Apart (t ∷ ss) a.3)

pub AllOrdered-append :
    (ss : List Selection) (s : Selection)
    → AllOrdered ss
    → s.start ≤ s.end
    → AllOrdered (ss ++ s ∷ [])
AllOrdered-append [] s o h = (h, tt)
AllOrdered-append (t ∷ ss) s o h = (o.0, AllOrdered-append ss s o.1 h)

pub covered-append :
    (p : ℕ) (ss : List Selection) (s : Selection)
    → covered p (ss ++ s ∷ []) ≡ (covered p ss || covers p s)
unfolding covered
covered-append p [] s = elim (Bool-cases (covers p s)) [ inl e ↦ rw e refl | inr e ↦ rw e refl ]
covered-append p (t ∷ ss) s =
    ap (covers p t ||◌) (covered-append p ss s) ∙ or_assoc (covers p t) (covered p ss) (covers p s)
  where
    or_assoc : (a b c : Bool) → (a || (b || c)) ≡ ((a || b) || c)
    or_assoc true b c = refl
    or_assoc false b c = refl

pub from_anchor_ordered :
    (id anchor head : ℕ) → (from_anchor id anchor head).start ≤ (from_anchor id anchor head).end
unfolding from_anchor
from_anchor_ordered id anchor head = omega arith

-- A set in order and apart with a selection added is in order and apart again, and reaches an offset
-- exactly where it did or the new selection, between anchor and head in either order, does.
pub add_selection-Apart :
    (set : SelectionSet) (anchor head : ℕ)
    → Apart set.selections
    → Apart (add_selection set anchor head).selections
      × ((p : ℕ)
          → covered p (add_selection set anchor head).selections
            ≡ (covered p set.selections || covers p (from_anchor set.next_id anchor head)))
unfolding add_selection
add_selection-Apart set anchor head a =
    let s = from_anchor set.next_id anchor head in
    let (apart, same) = normalize-Apart (set.selections ++ s ∷ []) (
      AllOrdered-append set.selections s (AllOrdered-Apart set.selections a)
        (from_anchor_ordered set.next_id anchor head)) in
    (apart, λ p. same p ∙ covered-append p set.selections s)

pub AllOrdered-other_ranges :
    (newest i id : ℕ) (ranges : List (ℕ × ℕ)) → AllOrdered (other_ranges newest i id ranges)
unfolding other_ranges
AllOrdered-other_ranges newest i id [] = tt
AllOrdered-other_ranges newest i id ((anchor, head) ∷ ranges) =
    ordered (AllOrdered-other_ranges newest (i + 1) id ranges)
      (AllOrdered-other_ranges newest (i + 1) (id + 1) ranges) (i == newest)
  where
    ordered :
        AllOrdered (other_ranges newest (i + 1) id ranges)
        → AllOrdered (other_ranges newest (i + 1) (id + 1) ranges)
        → (b : Bool)
        → AllOrdered (elim b [
          | true ↦ other_ranges newest (i + 1) id ranges
          | false ↦ from_anchor id anchor head ∷ other_ranges newest (i + 1) (id + 1) ranges
        ])
    ordered skip keep true = skip
    ordered skip keep false = (from_anchor_ordered id anchor head, keep)
