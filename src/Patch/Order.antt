-- ===== src/Patch/Order.antt =====
-- How `map_offset` and `map_range` treat the order of positions, and what undoing a patch does.
use matcha.Common.{
  ℕ, ◌+◌, ◌-◌, ◌≤◌, ◌<◌, ◌≡◌, ◌⊎◌, inl, inr, List, [], ◌∷◌, u32_mod, arith, ◌∙◌, ap,
}
use matcha.Coords.{Bias, left, right}
use matcha.Patch.{Range, Edit, Patch, map_offset, map_range}
use matcha.Patch.Spec.{Chained, old_end, new_end, land, transit, le-new_end, map_offset-transit}

land_bounds :
    (e : Edit) (p : ℕ) (b : Bias)
    → e.new.start ≤ e.new.end
    → (e.new.start ≤ land e p b) × (land e p b ≤ e.new.end)
land_bounds e p left h = ground arith
land_bounds e p right h = ground arith

land-mono_left :
    (e : Edit) (p q : ℕ)
    → e.new.start ≤ e.new.end
    → p ≤ q
    → e.old.start ≤ p
    → land e p left ≤ land e q left
land-mono_left e p q h k lo = ground arith

land-left-le-right : (e : Edit) (p : ℕ) → e.new.start ≤ e.new.end → land e p left ≤ land e p right
land-left-le-right e p h = ground arith

le-transit :
    (es : List Edit) (o n p : ℕ) (b : Bias) → Chained o n es → o ≤ p → n ≤ transit o n es p b
le-transit [] o n p b c h = omega arith
le-transit (e ∷ es) o n p b c h =
    ground (arith, land_bounds e p b c.3, le-transit es e.old.end e.new.end p b c.4)

-- A mapped position is never past the end of the post-edit text.
transit_le :
    (es : List Edit) (o n p len : ℕ) (b : Bias)
    → Chained o n es
    → o ≤ p
    → p ≤ len
    → old_end o es ≤ len
    → transit o n es p b ≤ new_end n es + (len - old_end o es)
transit_le [] o n p len b c h k l = omega arith
transit_le (e ∷ es) o n p len b c h k l = ground (
  arith,
  land_bounds e p b c.3,
  le-new_end e.old.end e.new.end es c.4,
  transit_le es e.old.end e.new.end p len b c.4,
)

transit-mono_left :
    (es : List Edit) (o n p q : ℕ)
    → Chained o n es
    → o ≤ p
    → p ≤ q
    → transit o n es p left ≤ transit o n es q left
transit-mono_left [] o n p q c h k = omega arith
transit-mono_left (e ∷ es) o n p q c h k = ground (
  arith,
  land_bounds e p left c.3,
  land_bounds e q left c.3,
  land-mono_left e p q c.3,
  le-transit es e.old.end e.new.end q left c.4,
  transit-mono_left es e.old.end e.new.end p q c.4,
)

transit-left-le-right :
    (es : List Edit) (o n p : ℕ) → Chained o n es → transit o n es p left ≤ transit o n es p right
transit-left-le-right [] o n p c = omega arith
transit-left-le-right (e ∷ es) o n p c =
    ground (arith, land-left-le-right e p c.3, transit-left-le-right es e.old.end e.new.end p c.4)

-- The patch of the inverse transaction: the two coordinate spaces change places.
abbrev pub mirror : List Edit → List Edit
mirror [] = []
mirror (e ∷ es) = record { old = e.new; new = e.old } ∷ mirror es

-- A position that no edit touches, not even at its boundary.
abbrev pub Untouched : ℕ → List Edit → Type 0
Untouched p [] = Unit
Untouched p (e ∷ es) = ((p < e.old.start) ⊎ (e.old.end < p)) × Untouched p es

Chained-mirror : (es : List Edit) (o n : ℕ) → Chained o n es → Chained n o (mirror es)
Chained-mirror [] o n c = tt
Chained-mirror (e ∷ es) o n c =
    (omega arith, c.3, omega arith, c.1, Chained-mirror es e.old.end e.new.end c.4)

transit_before :
    (e : Edit) (es : List Edit) (o n p : ℕ) (b : Bias)
    → p < e.old.start
    → transit o n (e ∷ es) p b ≡ n + (p - o)
transit_before e es o n p b h = ground arith

transit_after :
    (e : Edit) (es : List Edit) (o n p : ℕ) (b : Bias)
    → e.old.start ≤ e.old.end
    → e.old.end < p
    → transit o n (e ∷ es) p b ≡ transit e.old.end e.new.end es p b
transit_after e es o n p b k h = ground arith

-- Past an edit and untouched, a position stays strictly past it.
lt-transit :
    (es : List Edit) (o n p : ℕ) (b : Bias)
    → Chained o n es
    → o < p
    → Untouched p es
    → n < transit o n es p b
lt-transit [] o n p b c h u = omega arith
lt-transit (e ∷ es) o n p b c h (inl lt, u) = rw (transit_before e es o n p b lt) (omega arith)
lt-transit (e ∷ es) o n p b c h (inr gt, u) =
    rw (transit_after e es o n p b c.1 gt)
      (omega (arith, lt-transit es e.old.end e.new.end p b c.4 gt u))

transit-mirror :
    (es : List Edit) (o n p : ℕ) (b b' : Bias)
    → Chained o n es
    → o ≤ p
    → Untouched p es
    → transit n o (mirror es) (transit o n es p b) b' ≡ p
transit-mirror [] o n p b b' c h u = omega arith
transit-mirror (e ∷ es) o n p b b' c h (inl lt, u) = rw (transit_before e es o n p b lt) (
    rw
      (transit_before (record { old = e.new; new = e.old }) (mirror es) n o (n + (p - o)) b'
        (omega arith))
      (omega arith))
transit-mirror (e ∷ es) o n p b b' c h (inr gt, u) = rw (transit_after e es o n p b c.1 gt) (
    rw
      (transit_after (record { old = e.new; new = e.old }) (mirror es) n o
        (transit e.old.end e.new.end es p b) b' c.3
        (lt-transit es e.old.end e.new.end p b c.4 gt u))
      (transit-mirror es e.old.end e.new.end p b b' c.4 (omega arith) u))

-- What is asked of a patch and a position: the patch is chained from the origin and its old text
-- ends within `len`, as the position does, and the new text is addressed by u32 offsets.
pub record IsMappable (p : Patch) (len : ℕ) : Type 0 where
  pub chained : Chained 0 0 p.edits
  pub within : old_end 0 p.edits ≤ len
  pub fits : new_end 0 p.edits + (len - old_end 0 p.edits) < u32_mod

module _ {p : Patch} {len : ℕ} (v : IsMappable p len) where
  pub map_offset-eq-transit :
      (a : ℕ) (b : Bias) → a ≤ len → map_offset p a b ≡ transit 0 0 p.edits a b
  map_offset-eq-transit a b h = map_offset-transit p a b v.chained (omega (arith, v.fits))

  -- For a patch chained from the origin, over a text whose length before and after fits a u32, a
  -- position within the old text is mapped, on either side, to one within the new text.
  pub map_offset_le :
      (a : ℕ) (b : Bias)
      → a ≤ len
      → map_offset p a b ≤ new_end 0 p.edits + (len - old_end 0 p.edits)
  map_offset_le a b h =
      rw (map_offset-eq-transit a b h)
        (transit_le p.edits 0 0 a len b v.chained (omega arith) h v.within)

  -- For a patch chained from the origin, over a text whose length before and after fits a u32:
  -- ordered positions within the text stay in order, both mapped to the left, or the first to the
  -- left and the second to the right.
  pub map_offset-mono_left :
      (a c : ℕ)
      → a ≤ c
      → c ≤ len
      → (map_offset p a left ≤ map_offset p c left) × (map_offset p a left ≤ map_offset p c right)
  map_offset-mono_left a c h k = omega (
    arith,
    map_offset-eq-transit a left (omega arith),
    map_offset-eq-transit c left k,
    map_offset-eq-transit c right k,
    transit-mono_left p.edits 0 0 a c v.chained (omega arith) h,
    transit-left-le-right p.edits 0 0 c v.chained,
  )

  -- For a patch chained from the origin, over a text whose length before and after fits a u32: a
  -- range that is ordered and within the text, mapped with a left start and a right end, has the two
  -- mapped ends, so that the clamp of the start changes nothing.
  map_range-left_right :
      (r : Range)
      → r.start ≤ r.end
      → r.end ≤ len
      → map_range p r left right
        ≡ record { start = map_offset p r.start left; end = map_offset p r.end right }
  unfolding map_range
  map_range-left_right r h k = ground (arith, map_offset-mono_left r.start r.end h k)

  -- The patch with old and new ranges exchanged maps the image of an untouched position back to it,
  -- whatever the two biases.
  pub map_offset-mirror :
      IsMappable (record { edits = mirror p.edits }) (new_end 0 p.edits + (len - old_end 0 p.edits))
      → (a : ℕ) (b b' : Bias) → a ≤ len
      → Untouched a p.edits
      → map_offset (record { edits = mirror p.edits }) (map_offset p a b) b' ≡ a
  map_offset-mirror w a b b' h u =
      map_offset-transit (record { edits = mirror p.edits }) (map_offset p a b) b' w.chained
        (omega (arith, w.fits, w.within, map_offset_le a b h))
      ∙ ap (λ o. transit 0 0 (mirror p.edits) o b') (map_offset-eq-transit a b h)
      ∙ transit-mirror p.edits 0 0 a b b' v.chained (omega arith) u
