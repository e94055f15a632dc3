-- ===== src/Selection/Ranges.antt =====
-- A set that is built from ranges reaches what the ranges reach, and the newest one has the largest id.
use matcha.Common.{
  ℕ, suc, ◌+◌, ◌-◌, ◌≤◌, ◌<◌, ◌≡◌, refl, sym, ap, ap₂, ◌∙◌, inl, inr, Bool, true, false, ◌&&◌, ◌||◌,
  Option, none, some, List, [], ◌∷◌, ◌++◌, length, ◌==◌, min, max, leb, ltb, get_elem?, Bool-cases,
  arith, subst,
}
use mathlib.Core.Option.{some-injective}
use matcha.Selection.{
  Selection, SelectionSet, from_anchor, normalize, other_ranges, from_ranges, insert_sorted,
  sort_selections, compact, should_merge, merged, before_or_at,
}
use matcha.Selection.Normal.{Apart, covers, covered, normalize-Apart, compact_merges, compact_keeps}
use matcha.Selection.Sets.{
  AllOrdered-append, covered-append, from_anchor_ordered, AllOrdered-other_ranges,
}

-- Whether an offset is between the anchor and the head of a range, or of one of several.
unfoldable pub reaches : ℕ → ℕ × ℕ → Bool
reaches p r = leb (min r.0 r.1) p && leb p (max r.0 r.1)

unfoldable pub any_reaches : ℕ → List (ℕ × ℕ) → Bool
any_reaches p [] = false
any_reaches p (r ∷ ranges) = reaches p r || any_reaches p ranges

-- Every id is `k` at most, and the selection with the id `k` covers the range `lo` to `hi`.
abbrev pub IdsUpTo : ℕ → List Selection → Type 0
IdsUpTo k [] = Unit
IdsUpTo k (s ∷ ss) = (s.id ≤ k) × IdsUpTo k ss

unfoldable pub holds : ℕ → ℕ → ℕ → Selection → Bool
holds k lo hi s = (s.id == k) && leb s.start lo && leb hi s.end

unfoldable pub has : ℕ → ℕ → ℕ → List Selection → Bool
has k lo hi [] = false
has k lo hi (s ∷ ss) = holds k lo hi s || has k lo hi ss

covers-from_anchor : (p id : ℕ) (r : ℕ × ℕ) → covers p (from_anchor id r.0 r.1) ≡ reaches p r
unfolding covers from_anchor reaches
covers-from_anchor p id r = refl

after_newest :
    (p newest i id : ℕ) (ranges : List (ℕ × ℕ))
    → newest < i
    → (covered p (other_ranges newest i id ranges) ≡ any_reaches p ranges)
      × (length (other_ranges newest i id ranges) ≡ length ranges)
unfolding other_ranges covered any_reaches
after_newest p newest i id [] h = (refl, refl)
after_newest p newest i id (r ∷ ranges) h =
    let e : (i == newest) ≡ false = ground arith in
    let (a, b) = after_newest p newest (i + 1) (id + 1) ranges (omega arith) in
    rw (e, other_ranges) (ap₂ ◌||◌ (covers-from_anchor p id r) a, omega (arith, b))

with_newest :
    (p newest i id : ℕ) (ranges : List (ℕ × ℕ)) (r : ℕ × ℕ)
    → i ≤ newest
    → get_elem? ranges (newest - i) ≡ some r
    → ((covered p (other_ranges newest i id ranges) || reaches p r) ≡ any_reaches p ranges)
      × (length (other_ranges newest i id ranges) + 1 ≡ length ranges)
unfolding other_ranges covered any_reaches
with_newest p newest i id [] r h g = cc
with_newest p newest i id (q ∷ ranges) r h g = elim (Bool-cases (i == newest)) [
  | inl e ↦
      let here : newest - i ≡ 0 = ground (arith, e) in
      let same : q ≡ r = some-injective _ _ (rw here at g) in
      let (a, b) = after_newest p newest (i + 1) id ranges (ground (arith, e)) in
      let both = ap₂ ◌||◌ a (ap (reaches p) (sym same)) in
      rw (e, other_ranges) (both ∙ swap (any_reaches p ranges) (reaches p q), omega (arith, b))
  | inr e ↦
      let later : newest - i ≡ suc (newest - (i + 1)) = ground (arith, e, h) in
      let g' = rw later at g in
      let (a, b) = with_newest p newest (i + 1) (id + 1) ranges r (ground (arith, e, h)) g' in
      rw (e, other_ranges)
        (
          or_assoc (covers p (from_anchor id q.0 q.1))
                (covered p (other_ranges newest (i + 1) (id + 1) ranges)) (reaches p r)
              ∙ ap₂ ◌||◌ (covers-from_anchor p id q) a,
          omega (arith, b),
        )
]
  where
    swap : (a b : Bool) → (a || b) ≡ (b || a)
    swap true true = refl
    swap true false = refl
    swap false true = refl
    swap false false = refl

    or_assoc : (a b c : Bool) → ((a || b) || c) ≡ (a || (b || c))
    or_assoc true b c = refl
    or_assoc false b c = refl

IdsUpTo-other_ranges :
    (k newest i id : ℕ) (ranges : List (ℕ × ℕ))
    → id + length (other_ranges newest i id ranges) ≤ k
    → IdsUpTo k (other_ranges newest i id ranges)
unfolding other_ranges from_anchor
IdsUpTo-other_ranges k newest i id [] h = tt
IdsUpTo-other_ranges k newest i id (r ∷ ranges) h = elim (Bool-cases (i == newest)) [
  | inl e ↦
      let h' = rw (e, other_ranges) at h in
      rw (e, other_ranges) (IdsUpTo-other_ranges k newest (i + 1) id ranges h')
  | inr e ↦
      let h' = rw (e, other_ranges) at h in
      rw (e, other_ranges)
        (
          omega (arith, h'),
          IdsUpTo-other_ranges k newest (i + 1) (id + 1) ranges (omega (arith, h')),
        )
]

IdsUpTo-append :
    (k : ℕ) (ss : List Selection) (s : Selection)
    → IdsUpTo k ss
    → s.id ≤ k
    → IdsUpTo k (ss ++ s ∷ [])
IdsUpTo-append k [] s u h = (h, tt)
IdsUpTo-append k (t ∷ ss) s u h = (u.0, IdsUpTo-append k ss s u.1 h)

IdsUpTo-insert_sorted :
    (k : ℕ) (s : Selection) (ss : List Selection)
    → s.id ≤ k
    → IdsUpTo k ss
    → IdsUpTo k (insert_sorted s ss)
unfolding insert_sorted
IdsUpTo-insert_sorted k s [] h u = (h, tt)
IdsUpTo-insert_sorted k s (t ∷ ts) h u = elim (Bool-cases (before_or_at s t)) [
  | inl e ↦ rw e (h, u)
  | inr e ↦ rw e (u.0, IdsUpTo-insert_sorted k s ts h u.1)
]

IdsUpTo-sort_selections :
    (k : ℕ) (ss : List Selection) → IdsUpTo k ss → IdsUpTo k (sort_selections ss)
unfolding sort_selections
IdsUpTo-sort_selections k [] u = tt
IdsUpTo-sort_selections k (s ∷ ss) u =
    IdsUpTo-insert_sorted k s (sort_selections ss) u.0 (IdsUpTo-sort_selections k ss u.1)

has-append :
    (k lo hi : ℕ) (ss : List Selection) (s : Selection)
    → holds k lo hi s ≡ true
    → has k lo hi (ss ++ s ∷ []) ≡ true
unfolding has
has-append k lo hi [] s h = rw h refl
has-append k lo hi (t ∷ ss) s h = let ih = has-append k lo hi ss s h in ground (arith, ih)

has-insert_sorted :
    (k lo hi : ℕ) (s : Selection) (ss : List Selection)
    → has k lo hi (insert_sorted s ss) ≡ (holds k lo hi s || has k lo hi ss)
unfolding insert_sorted has
has-insert_sorted k lo hi s [] = refl
has-insert_sorted k lo hi s (t ∷ ts) = let ih = has-insert_sorted k lo hi s ts in ground (arith, ih)

has-sort_selections :
    (k lo hi : ℕ) (ss : List Selection) → has k lo hi (sort_selections ss) ≡ has k lo hi ss
unfolding sort_selections has
has-sort_selections k lo hi [] = refl
has-sort_selections k lo hi (s ∷ ss) =
    has-insert_sorted k lo hi s (sort_selections ss)
    ∙ ap (holds k lo hi s ||◌) (has-sort_selections k lo hi ss)

-- A merge keeps the largest id, and covers what its two members cover.
holds-merged :
    (k lo hi : ℕ) (a b : Selection)
    → a.id ≤ k
    → b.id ≤ k
    → (holds k lo hi a || holds k lo hi b) ≡ true
    → holds k lo hi (merged a b) ≡ true
unfolding holds merged
holds-merged k lo hi a b u v h = elim (Bool-cases (ltb a.id b.id)) [
  | inl e ↦ rw e (ground (arith, h, e, u))
  | inr e ↦ rw e (ground (arith, h, e, v))
]

id_merged : (k : ℕ) (a b : Selection) → a.id ≤ k → b.id ≤ k → (merged a b).id ≤ k
unfolding merged
id_merged k a b u v = elim (Bool-cases (ltb a.id b.id)) [ inl e ↦ rw e v | inr e ↦ rw e u ]

either_merged :
    (k lo hi : ℕ) (a b : Selection) (c : Bool)
    → a.id ≤ k
    → b.id ≤ k
    → (holds k lo hi a || (holds k lo hi b || c)) ≡ true
    → (holds k lo hi (merged a b) || c) ≡ true
either_merged k lo hi a b c u v h = elim (Bool-cases (holds k lo hi a || holds k lo hi b)) [
  | inl e ↦ ap (◌|| c) (holds-merged k lo hi a b u v e)
  | inr e ↦ ground (arith, h, e)
]

IdsUpTo-compact :
    (k : ℕ) (prev : Selection) (ss : List Selection)
    → prev.id ≤ k
    → IdsUpTo k ss
    → IdsUpTo k (compact prev ss)
unfolding compact
IdsUpTo-compact k prev [] u v = (u, tt)
IdsUpTo-compact k prev (s ∷ ss) u v = elim (Bool-cases (should_merge prev s)) [
  | inl e ↦
      subst (IdsUpTo k) (sym (compact_merges prev s ss e))
        (IdsUpTo-compact k (merged prev s) ss (id_merged k prev s u v.0) v.1)
  | inr e ↦ subst (IdsUpTo k) (sym (compact_keeps prev s ss e)) (u, IdsUpTo-compact k s ss v.0 v.1)
]

has-compact :
    (k lo hi : ℕ) (prev : Selection) (ss : List Selection)
    → prev.id ≤ k
    → IdsUpTo k ss
    → (holds k lo hi prev || has k lo hi ss) ≡ true
    → has k lo hi (compact prev ss) ≡ true
unfolding compact has
has-compact k lo hi prev [] u v h = h
has-compact k lo hi prev (s ∷ ss) u v h = elim (Bool-cases (should_merge prev s)) [
  | inl e ↦
      ap (has k lo hi) (compact_merges prev s ss e)
      ∙ has-compact k lo hi (merged prev s) ss (id_merged k prev s u v.0) v.1
          (either_merged k lo hi prev s (has k lo hi ss) u v.0 h)
  | inr e ↦
      let rest : (holds k lo hi s || has k lo hi ss) ≡ true → has k lo hi (compact s ss) ≡ true =
        has-compact k lo hi s ss v.0 v.1 in
      ap (has k lo hi) (compact_keeps prev s ss e) ∙ go (holds k lo hi prev) rest h
]
  where
    go : {x y : Bool} → (a : Bool) → (x ≡ true → y ≡ true) → (a || x) ≡ true → (a || y) ≡ true
    go true f h = refl
    go false f h = f h

normalize_keeps :
    (k lo hi : ℕ) (ss : List Selection)
    → IdsUpTo k ss
    → has k lo hi ss ≡ true
    → IdsUpTo k (normalize ss) × (has k lo hi (normalize ss) ≡ true)
unfolding normalize has
normalize_keeps k lo hi ss u h =
    sorted_keeps (sort_selections ss) (IdsUpTo-sort_selections k ss u)
      (has-sort_selections k lo hi ss ∙ h)
  where
    sorted_keeps :
        (sorted : List Selection)
        → IdsUpTo k sorted
        → has k lo hi sorted ≡ true
        → IdsUpTo k (elim sorted [ [] ↦ [] | s ∷ rest ↦ compact s rest ])
          × (has k lo hi (elim sorted [ [] ↦ [] | s ∷ rest ↦ compact s rest ]) ≡ true)
    sorted_keeps [] u h = (tt, h)
    sorted_keeps (s ∷ rest) u h =
        (IdsUpTo-compact k s rest u.0 u.1, has-compact k lo hi s rest u.0 u.1 h)

-- For a range at the index `newest`, `from_ranges` does not panic. The set is in order and apart, and
-- reaches an offset, ends included, exactly where one of the ranges does, whichever way round its ends
-- are. The next id is the number of ranges; every id is below it, and the largest, one less, is that of
-- a selection that spans the range at `newest`.
pub from_ranges-reaches :
    (ranges : List (ℕ × ℕ)) (newest : ℕ) (r : ℕ × ℕ)
    → get_elem? ranges newest ≡ some r
    → (set : SelectionSet) × (from_ranges ranges newest ≡ some set)
      × Apart set.selections
      × ((p : ℕ) → covered p set.selections ≡ any_reaches p ranges)
      × (set.next_id ≡ length ranges)
      × IdsUpTo (length ranges - 1) set.selections
      × (has (length ranges - 1) (min r.0 r.1) (max r.0 r.1) set.selections ≡ true)
unfolding from_ranges from_anchor holds
from_ranges-reaches ranges newest r e =
    let others = other_ranges newest 0 0 ranges in
    let last = from_anchor (length others) r.0 r.1 in
    let start : newest - 0 ≡ newest = omega arith in
    let e' : get_elem? ranges (newest - 0) ≡ some r = rw start e in
    let count : length others + 1 ≡ length ranges =
      (with_newest 0 newest 0 0 ranges r (omega arith) e').1 in
    let k : length ranges - 1 ≡ length others = omega (arith, count) in
    let (apart, exact) = normalize-Apart (others ++ last ∷ []) (
      AllOrdered-append others last (AllOrdered-other_ranges newest 0 0 ranges)
        (from_anchor_ordered (length others) r.0 r.1)) in
    let ids =
      IdsUpTo-append (length ranges - 1) others last
        (IdsUpTo-other_ranges (length ranges - 1) newest 0 0 ranges (omega (arith, k)))
        (omega (arith, k)) in
    let newest_last =
      has-append (length ranges - 1) (min r.0 r.1) (max r.0 r.1) others last (ground (arith, k)) in
    let (low, found) =
      normalize_keeps (length ranges - 1) (min r.0 r.1) (max r.0 r.1) (others ++ last ∷ []) ids
        newest_last in
    (
      record { selections = normalize (others ++ last ∷ []); next_id = length others + 1 },
      ap
          (λ (o : Option (ℕ × ℕ)). elim o [
            | none ↦ none
            | some (anchor, head) ↦ some (record {
              selections = normalize (others ++ from_anchor (length others) anchor head ∷ []);
              next_id = length others + 1;
            })
          ])
          e,
      apart,
      λ p.
          exact p
          ∙ covered-append p others last
          ∙ ap (covered p others ||◌) (covers-from_anchor p (length others) r)
          ∙ (with_newest p newest 0 0 ranges r (omega arith) e').0,
      count,
      low,
      found,
    )
