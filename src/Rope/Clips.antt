-- ===== src/Rope/Clips.antt =====
-- Clipping an offset within its chunk is clipping it in the whole text (`clip_in` of
-- crates/matcha-core/src/buffer.rs).
use matcha.Common.{
  ℕ, zero, suc, ◌+◌, ◌-◌, ◌≤◌, ◌<◌, ◌≡◌, refl, sym, ap, ◌∙◌, List, [], ◌∷◌, length, get_elem?, take,
  drop, min, arith,
}
use matcha.Coords.{Bias, left, right, is_char_boundary, snap_char_boundary}
use native.Mathlib.Decide.{dec_lt}
use matcha.Coords.Snap.{
  IsNearest, snap_char_boundary-IsNearest, is_char_boundary-length, is_char_boundary-zero,
}
use matcha.Ropey.{Ropey, IsChunkAt}
use matcha.Rope.{Rope, chunk_at, clip_in}
use matcha.Rope.Edits.{IsRope, view}

-- There is one nearest boundary.
IsNearest-unique :
    (t : List ℕ) (o : ℕ) (b : Bias) (r s : ℕ)
    → o ≤ length t
    → IsNearest t o b r
    → IsNearest t o b s
    → r ≡ s
IsNearest-unique t o left r s h x y = elim (dec_lt r s) [
  | yes lt ↦ cc (x.none_above_left refl s lt (omega (arith, y.below refl)), y.boundary)
  | no ge ↦ elim (dec_lt s r) [
    | yes lt ↦ cc (y.none_above_left refl r lt (omega (arith, x.below refl)), x.boundary)
    | no ge' ↦ omega arith
  ]
]
IsNearest-unique t o right r s h x y = elim (dec_lt r s) [
  | yes lt ↦ cc (y.none_below_right refl r (omega (arith, x.above refl)) lt, x.boundary)
  | no ge ↦ elim (dec_lt s r) [
    | yes lt ↦ cc (x.none_below_right refl s (omega (arith, y.above refl)) lt, y.boundary)
    | no ge' ↦ omega arith
  ]
]

-- The bytes of a chunk are those of the text from where the chunk begins.
get_elem?-chunk :
    (t : List ℕ) (cs n i : ℕ) → i < n → get_elem? (take n (drop cs t)) i ≡ get_elem? t (cs + i)
get_elem?-chunk t cs zero i h = absurd (omega arith)
get_elem?-chunk [] zero (suc n) i h = refl
get_elem?-chunk [] (suc cs) (suc n) i h = refl
get_elem?-chunk (x ∷ t) zero (suc n) zero h = refl
get_elem?-chunk (x ∷ t) zero (suc n) (suc i) h =
    let e : zero + suc i ≡ suc (zero + i) = omega arith in
    rw e (get_elem?-chunk t zero n i (omega arith))
get_elem?-chunk (x ∷ t) (suc cs) (suc n) i h =
    let e : suc cs + i ≡ suc (cs + i) = omega arith in rw e (get_elem?-chunk t cs (suc n) i h)

module _ (t : List ℕ) (b : ℕ) (chunk : List ℕ) (cs : ℕ) (c : IsChunkAt t b chunk cs) where
  boundary_inside :
      (i : ℕ) → 0 < i → i < length chunk → is_char_boundary chunk i ≡ is_char_boundary t (cs + i)
  unfolding is_char_boundary
  boundary_inside i pos h =
      let e : get_elem? chunk i ≡ get_elem? t (cs + i) =
        ap (λ (u : List ℕ). get_elem? u i) (sym c.holds)
        ∙ get_elem?-chunk t cs (length chunk) i h in
      ground (arith, e, c.inside)

  -- Char boundaries of the chunk are those of the text.
  boundary-chunk :
      (i : ℕ) → i ≤ length chunk → is_char_boundary chunk i ≡ is_char_boundary t (cs + i)
  boundary-chunk i h = elim (dec_lt i (length chunk)) [
    | no ge ↦
        let e : i ≡ length chunk = omega arith in
        rw e (is_char_boundary-length chunk ∙ sym c.end_boundary)
    | yes lt ↦ elim (dec_lt 0 i) [
      | yes pos ↦ boundary_inside i pos lt
      | no zero_i ↦
          let e : i ≡ 0 = omega arith in
          let e' : cs + 0 ≡ cs = omega arith in
          rw (e, e') (is_char_boundary-zero chunk ∙ sym c.start_boundary)
    ]
  ]

  pub boundary-back :
      (k : ℕ)
      → cs ≤ k
      → k ≤ cs + length chunk
      → is_char_boundary t k ≡ is_char_boundary chunk (k - cs)
  boundary-back k h h' =
      let e : cs + (k - cs) ≡ k = omega arith in
      sym (boundary-chunk (k - cs) (omega arith) ∙ ap (is_char_boundary t) e)

  -- The nearest boundary within the chunk is the nearest one of the text.
  IsNearest-chunk :
      (bias : Bias) (r : ℕ) → IsNearest chunk (b - cs) bias r → IsNearest t b bias (cs + r)
  IsNearest-chunk bias r n = record {
    boundary = sym (boundary-chunk r n.within) ∙ n.boundary;
    within = omega (arith, n.within, c.inside);
    below = λ e. omega (arith, n.below e, c.begins);
    above = λ e. omega (arith, n.above e, c.begins, c.reaches);
    none_above_left = λ e k lo hi.
        boundary-back k (omega arith) (omega (arith, c.reaches))
        ∙ n.none_above_left e (k - cs) (omega arith) (omega (arith, c.reaches));
    none_below_right = λ e k lo hi.
        boundary-back k (omega (arith, c.begins)) (omega (arith, n.within))
        ∙ n.none_below_right e (k - cs) (omega arith) (omega arith);
  }

snap-min :
    (t : List ℕ) (o : ℕ) (b : Bias)
    → snap_char_boundary t (min o (length t)) b ≡ snap_char_boundary t o b
snap-min t o b = elim (dec_lt o (length t)) [
  | yes lt ↦ ap (λ n. snap_char_boundary t n b) (omega arith)
  | no ge ↦ unfold snap_char_boundary in ground arith
]

module _ (R : Ropey) (r : Rope R) (v : IsRope R r) where
  open R use {chunks_at_byte, chunk_at_byte, chunk_at_byte_lem, next_chunk}

  -- On a rope whose cached length is that of its text, clipping an offset within the chunk that
  -- holds it is snapping it to a char boundary in the whole text.
  pub clip_in-snap :
      (offset : ℕ) (b : Bias) → clip_in R r offset b ≡ snap_char_boundary (view R r) offset b
  unfolding clip_in chunk_at
  clip_in-snap offset b =
      let t = view R r in
      let off = min offset r.len in
      let again : min off r.len ≡ off = omega arith in
      let inside : off ≤ length t = omega (arith, v.len_lem) in
      let found = chunk_at_byte_lem r.text off inside in
      let (chunk, cs) = chunk_at_byte r.text off in
      let near = snap_char_boundary-IsNearest chunk (off - cs) b in
      ap
        (λ o.
          (chunk_at_byte r.text o).1
          + snap_char_boundary (chunk_at_byte r.text o).0 (off - (chunk_at_byte r.text o).1) b)
        again
      ∙ IsNearest-unique t off b (cs + snap_char_boundary chunk (off - cs) b)
          (snap_char_boundary t off b) inside (IsNearest-chunk t off chunk cs found b _ near)
          (snap_char_boundary-IsNearest t off b)
      ∙ ap (λ n. snap_char_boundary t (min offset n) b) v.len_lem
      ∙ snap-min t offset b
