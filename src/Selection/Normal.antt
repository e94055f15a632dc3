-- ===== src/Selection/Normal.antt =====
-- What `normalize` leaves: selections in order and apart, that cover what was covered.
use matcha.Common.{
  ℕ, ◌≤◌, ◌<◌, ◌≡◌, ◌⊎◌, inl, inr, refl, sym, ap, ◌∙◌, Bool, true, false, ◌&&◌, ◌||◌, List, [], ◌∷◌,
  max, leb, ◌==◌, Bool-cases, arith, subst,
}
use matcha.Selection.{
  Selection, should_merge, merged, before_or_at, insert_sorted, sort_selections, compact, normalize,
}

-- `start <= end` of every selection.
abbrev pub AllOrdered : List Selection → Type 0
AllOrdered [] = Unit
AllOrdered (s ∷ ss) = (s.start ≤ s.end) × AllOrdered ss

-- All start at `at` or later, each at its predecessor's start or later.
abbrev pub Ascending : ℕ → List Selection → Type 0
Ascending at [] = Unit
Ascending at (s ∷ ss) = (at ≤ s.start) × Ascending s.start ss

-- Ordered and apart: the next one starts later and not before the end, and two that touch are ranges.
abbrev pub Apart : List Selection → Type 0
Apart [] = Unit
Apart (a ∷ []) = a.start ≤ a.end
Apart (a ∷ b ∷ ss) =
    (a.start ≤ a.end)
    × (a.start < b.start)
    × ((a.end < b.start) ⊎ ((a.end ≡ b.start) × (a.start < a.end) × (b.start < b.end)))
    × Apart (b ∷ ss)

-- Whether a selection reaches the offset, its ends included.
unfoldable pub covers : ℕ → Selection → Bool
covers p s = leb s.start p && leb p s.end

unfoldable pub covered : ℕ → List Selection → Bool
covered p [] = false
covered p (s ∷ ss) = covers p s || covered p ss

AllOrdered-insert_sorted :
    (s : Selection) (ss : List Selection)
    → s.start ≤ s.end
    → AllOrdered ss
    → AllOrdered (insert_sorted s ss)
unfolding insert_sorted
AllOrdered-insert_sorted s [] h o = (h, tt)
AllOrdered-insert_sorted s (t ∷ ts) h o = elim (Bool-cases (before_or_at s t)) [
  | inl e ↦ rw e (h, o)
  | inr e ↦ rw e (o.0, AllOrdered-insert_sorted s ts h o.1)
]

AllOrdered-sort_selections : (ss : List Selection) → AllOrdered ss → AllOrdered (sort_selections ss)
unfolding sort_selections
AllOrdered-sort_selections [] o = tt
AllOrdered-sort_selections (s ∷ ss) o =
    AllOrdered-insert_sorted s (sort_selections ss) o.0 (AllOrdered-sort_selections ss o.1)

before-start : (a b : Selection) → before_or_at a b ≡ true → a.start ≤ b.start
unfolding before_or_at
before-start a b h = ground arith

after-start : (a b : Selection) → before_or_at a b ≡ false → b.start ≤ a.start
unfolding before_or_at
after-start a b h = ground arith

Ascending-insert_sorted :
    (s : Selection) (ss : List Selection) (at : ℕ)
    → at ≤ s.start
    → Ascending at ss
    → Ascending at (insert_sorted s ss)
unfolding insert_sorted
Ascending-insert_sorted s [] at h a = (h, tt)
Ascending-insert_sorted s (t ∷ ts) at h a = elim (Bool-cases (before_or_at s t)) [
  | inl e ↦ rw e (h, (before-start s t e, a.1))
  | inr e ↦ rw e (a.0, Ascending-insert_sorted s ts t.start (after-start s t e) a.1)
]

Ascending-sort_selections : (ss : List Selection) → Ascending 0 (sort_selections ss)
unfolding sort_selections
Ascending-sort_selections [] = tt
Ascending-sort_selections (s ∷ ss) =
    Ascending-insert_sorted s (sort_selections ss) 0 (omega arith) (Ascending-sort_selections ss)

covered-insert_sorted :
    (p : ℕ) (s : Selection) (ss : List Selection)
    → covered p (insert_sorted s ss) ≡ (covers p s || covered p ss)
unfolding insert_sorted covered
covered-insert_sorted p s [] = refl
covered-insert_sorted p s (t ∷ ts) = ground (arith, covered-insert_sorted p s ts)

covered-sort_selections :
    (p : ℕ) (ss : List Selection) → covered p (sort_selections ss) ≡ covered p ss
unfolding sort_selections covered
covered-sort_selections p [] = refl
covered-sort_selections p (s ∷ ss) =
    covered-insert_sorted p s (sort_selections ss)
    ∙ ap (covers p s ||◌) (covered-sort_selections p ss)

-- A merge covers what its two members cover.
covers-merged :
    (p : ℕ) (a b : Selection)
    → a.start ≤ a.end
    → b.start ≤ b.end
    → a.start ≤ b.start
    → should_merge a b ≡ true
    → covers p (merged a b) ≡ (covers p a || covers p b)
unfolding covers merged should_merge
covers-merged p a b h k l m = ground arith

abbrev Gap : Selection → Selection → Type 0
Gap a b =
    (a.start ≤ a.end)
    × (a.start < b.start)
    × ((a.end < b.start) ⊎ ((a.end ≡ b.start) × (a.start < a.end) × (b.start < b.end)))

merged-start : (a b : Selection) → a.start ≤ b.start → (merged a b).start ≡ a.start
unfolding merged
merged-start a b h = omega arith

merged-end : (a b : Selection) → (merged a b).end ≡ max a.end b.end
unfolding merged
merged-end a b = refl

Gap-merged : (a prev s : Selection) → Gap a prev → prev.start ≤ s.start → Gap a (merged prev s)
Gap-merged a prev s (o, l, inl far) h =
    (o, omega (arith, merged-start prev s h), inl (omega (arith, merged-start prev s h)))
Gap-merged a prev s (o, l, inr (touch, x, y)) h = (
  o,
  omega (arith, merged-start prev s h),
  inr (
    omega (arith, merged-start prev s h),
    x,
    omega (arith, merged-start prev s h, merged-end prev s),
  ),
)

Gap-should_merge :
    (a b : Selection)
    → a.start ≤ a.end
    → b.start ≤ b.end
    → a.start ≤ b.start
    → should_merge a b ≡ false
    → Gap a b
unfolding should_merge
Gap-should_merge a b h k l m = elim (Bool-cases (a.end == b.start)) [
  | inl e ↦ (h, ground arith, inr (ground arith, ground arith, ground arith))
  | inr e ↦ (h, ground arith, inl (ground arith))
]

Ascending-le : (ss : List Selection) (at from : ℕ) → from ≤ at → Ascending at ss → Ascending from ss
Ascending-le [] at from h a = tt
Ascending-le (s ∷ ss) at from h a = (omega (arith, a.0), a.1)

AllOrdered-merged :
    (prev s : Selection)
    → prev.start ≤ prev.end
    → prev.start ≤ s.start
    → (merged prev s).start ≤ (merged prev s).end
AllOrdered-merged prev s o h = omega (arith, merged-start prev s h, merged-end prev s)

pub compact_merges :
    (prev s : Selection) (ss : List Selection)
    → should_merge prev s ≡ true
    → compact prev (s ∷ ss) ≡ compact (merged prev s) ss
unfolding compact
compact_merges prev s ss e =
    ap (λ o. elim o [ true ↦ compact (merged prev s) ss | false ↦ prev ∷ compact s ss ]) e

pub compact_keeps :
    (prev s : Selection) (ss : List Selection)
    → should_merge prev s ≡ false
    → compact prev (s ∷ ss) ≡ prev ∷ compact s ss
unfolding compact
compact_keeps prev s ss e =
    ap (λ o. elim o [ true ↦ compact (merged prev s) ss | false ↦ prev ∷ compact s ss ]) e

Apart-Gap :
    (a prev : Selection) (ss : List Selection)
    → Gap a prev
    → AllOrdered (prev ∷ ss)
    → Ascending prev.start ss
    → Apart (a ∷ compact prev ss)
unfolding compact
Apart-Gap a prev [] g o up = (g.0, g.1, g.2, o.0)
Apart-Gap a prev (s ∷ ss) g o up = elim (Bool-cases (should_merge prev s)) [
  | inl e ↦
      subst (λ (l : List Selection). Apart (a ∷ l)) (sym (compact_merges prev s ss e))
        (Apart-Gap a (merged prev s) ss (Gap-merged a prev s g up.0)
          (AllOrdered-merged prev s o.0 up.0, o.1.1)
          (Ascending-le ss s.start (merged prev s).start
            (omega (arith, merged-start prev s up.0, up.0)) up.1))
  | inr e ↦
      subst (λ (l : List Selection). Apart (a ∷ l)) (sym (compact_keeps prev s ss e))
        (g.0, g.1, g.2, Apart-Gap prev s ss (Gap-should_merge prev s o.0 o.1.0 up.0 e) o.1 up.1)
]

Apart-compact :
    (prev : Selection) (ss : List Selection)
    → AllOrdered (prev ∷ ss)
    → Ascending prev.start ss
    → Apart (compact prev ss)
unfolding compact
Apart-compact prev [] o up = o.0
Apart-compact prev (s ∷ ss) o up = elim (Bool-cases (should_merge prev s)) [
  | inl e ↦ subst Apart (sym (compact_merges prev s ss e)) (
      Apart-compact (merged prev s) ss (AllOrdered-merged prev s o.0 up.0, o.1.1)
        (Ascending-le ss s.start (merged prev s).start
          (omega (arith, merged-start prev s up.0, up.0)) up.1))
  | inr e ↦
      subst Apart (sym (compact_keeps prev s ss e))
        (Apart-Gap prev s ss (Gap-should_merge prev s o.0 o.1.0 up.0 e) o.1 up.1)
]

or_assoc : (a b c : Bool) → ((a || b) || c) ≡ (a || (b || c))
or_assoc true b c = refl
or_assoc false b c = refl

covered-compact :
    (p : ℕ) (prev : Selection) (ss : List Selection)
    → AllOrdered (prev ∷ ss)
    → Ascending prev.start ss
    → covered p (compact prev ss) ≡ (covers p prev || covered p ss)
unfolding compact covered
covered-compact p prev [] o up = refl
covered-compact p prev (s ∷ ss) o up = elim (Bool-cases (should_merge prev s)) [
  | inl e ↦
      ap (covered p) (compact_merges prev s ss e)
      ∙ covered-compact p (merged prev s) ss (AllOrdered-merged prev s o.0 up.0, o.1.1)
          (Ascending-le ss s.start (merged prev s).start
            (omega (arith, merged-start prev s up.0, up.0)) up.1)
      ∙ ap (λ c. c || covered p ss) (covers-merged p prev s o.0 o.1.0 up.0 e)
      ∙ or_assoc (covers p prev) (covers p s) (covered p ss)
  | inr e ↦
      ap (covered p) (compact_keeps prev s ss e)
      ∙ ap (covers p prev ||◌) (covered-compact p s ss o.1 up.1)
]

compact_sorted :
    (p : ℕ) (ss : List Selection)
    → AllOrdered ss
    → Ascending 0 ss
    → Apart (elim ss [ [] ↦ [] | s ∷ rest ↦ compact s rest ])
      × (covered p (elim ss [ [] ↦ [] | s ∷ rest ↦ compact s rest ]) ≡ covered p ss)
unfolding covered
compact_sorted p [] o up = (tt, refl)
compact_sorted p (s ∷ ss) o up = (Apart-compact s ss o up.1, covered-compact p s ss o up.1)

-- For selections with ordered ends, `normalize` leaves selections in ascending order with ordered
-- ends, none starting where another does or before its end, and only ranges touching; and an offset
-- is reached by one of them, ends included, exactly where it was before.
pub normalize-Apart :
    (ss : List Selection)
    → AllOrdered ss
    → Apart (normalize ss) × ((p : ℕ) → covered p (normalize ss) ≡ covered p ss)
unfolding normalize
normalize-Apart ss o =
    let sorted = sort_selections ss in
    let o' = AllOrdered-sort_selections ss o in
    let up = Ascending-sort_selections ss in
    (
      (compact_sorted 0 sorted o' up).0,
      λ p. (compact_sorted p sorted o' up).1 ∙ covered-sort_selections p ss,
    )
