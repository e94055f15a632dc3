-- ===== src/Patch/Spec.antt =====
-- The invariants of a patch, and the position map as a recursion on natural numbers that follows
-- both coordinate spaces at once.
use matcha.Common.{
  ℕ, ◌+◌, ◌-◌, ◌≤◌, ◌<◌, ◌≡◌, List, [], ◌∷◌, ltb, leb, ◌==◌, if◌then◌else◌, sub_u32, u32_mod, arith,
}
use matcha.Common.Int.{
  ℤ, pos, ◌+ℤ◌, ◌-ℤ◌, pos_part, neg_part, as_u32, as_u32_fits, +ℤ_parts, -ℤ_parts,
}
use matcha.Coords.{Bias, left, right}
use matcha.Patch.{Edit, Patch, map_within, map_edits, map_offset}

-- What `push` asserts of consecutive edits, in both coordinate spaces: `o` and `n` are where the
-- edits before end.
abbrev pub Ascending : ℕ → ℕ → List Edit → Type 0
Ascending o n [] = Unit
Ascending o n (e ∷ es) =
    (o ≤ e.old.start)
    × (e.old.start ≤ e.old.end)
    × (n ≤ e.new.start)
    × (e.new.start ≤ e.new.end)
    × Ascending e.old.end e.new.end es

-- Besides, the untouched gaps have the same length in both spaces: `sn == e.new.start`.
abbrev pub Chained : ℕ → ℕ → List Edit → Type 0
Chained o n [] = Unit
Chained o n (e ∷ es) =
    (o ≤ e.old.start)
    × (e.old.start ≤ e.old.end)
    × (e.new.start + o ≡ e.old.start + n)
    × (e.new.start ≤ e.new.end)
    × Chained e.old.end e.new.end es

-- Where the last edit ends, in the post-edit text, and what is before it in the pre-edit one.
abbrev pub old_end : ℕ → List Edit → ℕ
old_end o [] = o
old_end o (e ∷ es) = old_end e.old.end es

abbrev pub new_end : ℕ → List Edit → ℕ
new_end n [] = n
new_end n (e ∷ es) = new_end e.new.end es

-- The transit table for a position within the old range of an edit.
abbrev pub land : Edit → ℕ → Bias → ℕ
land e p left =
    if p == e.old.start
    then e.new.start
    else if ltb p e.old.end
    then (if leb (e.new.start + (p - e.old.start)) e.new.end
        then e.new.start + (p - e.old.start)
        else e.new.end)
    else e.new.end
land e p right =
    if p == e.old.start
    then e.new.end
    else if ltb p e.old.end
    then (if leb (e.new.start + (p - e.old.start)) e.new.end
        then e.new.start + (p - e.old.start)
        else e.new.end)
    else e.new.end

abbrev pub transit : ℕ → ℕ → List Edit → ℕ → Bias → ℕ
transit o n [] p b = n + (p - o)
transit o n (e ∷ es) p b =
    let rest = transit e.old.end e.new.end es p b in
    if ltb p e.old.start then n + (p - o) else if leb p e.old.end then land e p b else rest

within-land :
    (e : Edit) (p : ℕ) (sn : ℤ) (b : Bias)
    → e.old.start ≤ p
    → p ≤ e.old.end
    → e.new.start ≤ e.new.end
    → e.new.end < u32_mod
    → pos_part sn ≡ e.new.start + neg_part sn
    → as_u32 (
        map_within
          (pos p)
          (pos e.old.start)
          (pos e.old.end)
          sn
          (pos (sub_u32 e.new.end e.new.start))
          b)
      ≡ land e p b
unfolding map_within ◌+ℤ◌ ◌-ℤ◌
within-land e p sn left h k w f q = ground arith
within-land e p sn right h k w f q = ground arith

pub le-new_end : (o n : ℕ) (es : List Edit) → Chained o n es → n ≤ new_end n es
le-new_end o n [] c = omega arith
le-new_end o n (e ∷ es) c = omega (arith, le-new_end e.old.end e.new.end es c.4)

pub le-old_end : (es : List Edit) (o n : ℕ) → Ascending o n es → o ≤ old_end o es
le-old_end [] o n a = omega arith
le-old_end (e ∷ es) o n a = omega (arith, le-old_end es e.old.end e.new.end a.4)

pub Chained-Ascending : (es : List Edit) (o n : ℕ) → Chained o n es → Ascending o n es
Chained-Ascending [] o n c = tt
Chained-Ascending (e ∷ es) o n c =
    (c.0, c.1, omega arith, c.3, Chained-Ascending es e.old.end e.new.end c.4)

-- The three places where a position can be, each with the shift in effect there.
module _ (e : Edit) (es : List Edit) (o n p : ℕ) (shift : ℤ) (c : Chained o n (e ∷ es)) (h : o ≤ p)
    (q : pos_part shift + o ≡ n + neg_part shift)
    (f : new_end n (e ∷ es) + (p - old_end o (e ∷ es)) < u32_mod) where
  end-lt-u32_mod : e.new.end < u32_mod
  end-lt-u32_mod = omega (arith, le-new_end e.old.end e.new.end es c.4)

  in_gap : p < e.old.start → as_u32 (pos p +ℤ shift) ≡ n + (p - o)
  in_gap lt =
      as_u32_fits (pos p +ℤ shift) (n + (p - o)) (omega (arith, +ℤ_parts (pos p) shift))
        (omega (arith, end-lt-u32_mod))

  in_edit :
      (b : Bias)
      → e.old.start ≤ p
      → p ≤ e.old.end
      → as_u32 (
          map_within
            (pos p)
            (pos e.old.start)
            (pos e.old.end)
            (pos e.old.start +ℤ shift)
            (pos (sub_u32 e.new.end e.new.start))
            b)
        ≡ land e p b
  in_edit b lo hi =
      within-land e p (pos e.old.start +ℤ shift) b lo hi c.3 end-lt-u32_mod
        (omega (arith, +ℤ_parts (pos e.old.start) shift))

  shift_after :
      pos_part
          (shift +ℤ (pos (sub_u32 e.new.end e.new.start) -ℤ (pos e.old.end -ℤ pos e.old.start)))
        + e.old.end
      ≡ e.new.end
        + neg_part
            (shift +ℤ (pos (sub_u32 e.new.end e.new.start) -ℤ (pos e.old.end -ℤ pos e.old.start)))
  shift_after =
      let gone = pos e.old.end -ℤ pos e.old.start in
      let come = pos (sub_u32 e.new.end e.new.start) in
      omega (
        arith,
        end-lt-u32_mod,
        +ℤ_parts shift (come -ℤ gone),
        -ℤ_parts come gone,
        -ℤ_parts (pos e.old.end) (pos e.old.start),
      )

-- The code's loop computes `transit`: no cast wraps while the mapped position fits a u32.
pub map_edits-transit :
    (es : List Edit) (o n p : ℕ) (shift : ℤ) (b : Bias)
    → Chained o n es
    → o ≤ p
    → pos_part shift + o ≡ n + neg_part shift
    → new_end n es + (p - old_end o es) < u32_mod
    → map_edits es (pos p) shift b ≡ transit o n es p b
unfolding map_edits
map_edits-transit [] o n p shift b c h q f =
    as_u32_fits (pos p +ℤ shift) (n + (p - o)) (omega (arith, +ℤ_parts (pos p) shift)) f
map_edits-transit (e ∷ es) o n p shift b c h q f = ground (
  arith,
  in_gap e es o n p shift c h q f,
  in_edit e es o n p shift c h q f b,
  map_edits-transit es e.old.end e.new.end p
      (shift +ℤ (pos (sub_u32 e.new.end e.new.start) -ℤ (pos e.old.end -ℤ pos e.old.start))) b c.4,
  shift_after e es o n p shift c h q f,
)

-- For a patch that starts at the origin: the map that `map_offset` computes.
pub map_offset-transit :
    (p : Patch) (offset : ℕ) (b : Bias)
    → Chained 0 0 p.edits
    → new_end 0 p.edits + (offset - old_end 0 p.edits) < u32_mod
    → map_offset p offset b ≡ transit 0 0 p.edits offset b
unfolding map_offset
map_offset-transit p offset b c f =
    map_edits-transit p.edits 0 0 offset (pos 0) b c (omega arith) (omega arith) f
