-- ===== src/Coords/Snap.antt =====
-- What `snap_char_boundary` promises: a boundary, on the side of the bias, and the nearest one.
use matcha.Common.{
  ℕ, zero, suc, ◌+◌, ◌-◌, ◌≤◌, ◌<◌, ◌≡◌, refl, true, false, List, length, get_elem?, leb, min,
  leb→le, leb→lt, arith, Bool-cases, inl, inr, [], ◌∷◌, none,
}
use native.Mathlib.Decide.{dec_le}
use matcha.Coords.{Bias, left, right, is_char_boundary, snap_left, snap_right, snap_char_boundary}

get_elem?-length : (t : List ℕ) → get_elem? t (length t) ≡ none
get_elem?-length [] = refl
get_elem?-length (x ∷ t) = get_elem?-length t

-- The end of a text is a boundary.
pub is_char_boundary-length : (t : List ℕ) → is_char_boundary t (length t) ≡ true
unfolding is_char_boundary
is_char_boundary-length t = ground (arith, get_elem?-length t)

-- Offset 0 is a boundary.
pub is_char_boundary-zero : (t : List ℕ) → is_char_boundary t 0 ≡ true
unfolding is_char_boundary
is_char_boundary-zero t = refl

snap_left_boundary :
    (t : List ℕ) (o : ℕ) → (is_char_boundary t (snap_left t o) ≡ true) × (snap_left t o ≤ o)
unfolding snap_left
snap_left_boundary t zero = (is_char_boundary-zero t, omega arith)
snap_left_boundary t (suc o) = ground (arith, snap_left_boundary t o)

-- No boundary is skipped on the way down.
snap_left_nearest :
    (t : List ℕ) (o k : ℕ) → k ≤ o → snap_left t o < k → is_char_boundary t k ≡ false
unfolding snap_left
snap_left_nearest t zero k h l = absurd (omega arith)
snap_left_nearest t (suc o) k h l = elim (Bool-cases (is_char_boundary t (suc o))) [
  | inl e ↦ absurd (ground (arith, e, l, h))
  | inr e ↦ elim (dec_le k o) [
    | yes le ↦ snap_left_nearest t o k le (ground (arith, e, l))
    | no gt ↦ let same : k ≡ suc o = omega arith in rw same e
  ]
]

snap_right_boundary :
    (t : List ℕ) (rounds o : ℕ)
    → o + rounds ≡ length t
    → (is_char_boundary t (snap_right t rounds o) ≡ true)
      × (o ≤ snap_right t rounds o)
      × (snap_right t rounds o ≤ length t)
unfolding snap_right
snap_right_boundary t zero o h =
    let same : o ≡ length t = omega arith in
    (rw same (is_char_boundary-length t), omega arith, omega arith)
snap_right_boundary t (suc rounds) o h = ground (arith, snap_right_boundary t rounds (o + 1))

snap_right_nearest :
    (t : List ℕ) (rounds o k : ℕ)
    → o + rounds ≡ length t
    → o ≤ k
    → k < snap_right t rounds o
    → is_char_boundary t k ≡ false
unfolding snap_right
snap_right_nearest t zero o k h lo hi = absurd (omega arith)
snap_right_nearest t (suc rounds) o k h lo hi = elim (Bool-cases (is_char_boundary t o)) [
  | inl e ↦ absurd (ground (arith, e, hi, lo))
  | inr e ↦ elim (dec_le (suc o) k) [
    | yes le ↦
        snap_right_nearest t rounds (o + 1) k (omega arith) (omega arith) (ground (arith, e, hi))
    | no gt ↦ let same : k ≡ o = omega arith in rw same e
  ]
]

-- `r` is the boundary of `t` nearest to `o`, clamped to the text, on the side of the bias.
pub record IsNearest (t : List ℕ) (o : ℕ) (b : Bias) (r : ℕ) : Type 0 where
  pub boundary : is_char_boundary t r ≡ true
  pub within : r ≤ length t
  pub below : b ≡ left → r ≤ o
  pub above : b ≡ right → min o (length t) ≤ r
  pub none_above_left :
      b ≡ left → (k : ℕ) → r < k → k ≤ min o (length t) → is_char_boundary t k ≡ false
  pub none_below_right : b ≡ right → (k : ℕ) → o ≤ k → k < r → is_char_boundary t k ≡ false

module _ (t : List ℕ) (o : ℕ) where
  -- An offset at or past the end, or on a boundary already.
  clamped-IsNearest :
      (b : Bias) → is_char_boundary t (min o (length t)) ≡ true → IsNearest t o b (min o (length t))
  clamped-IsNearest b e = record {
    boundary = e;
    within = omega arith;
    below = λ _. omega arith;
    above = λ _. omega arith;
    none_above_left = λ _ k lo hi. absurd (omega arith);
    none_below_right = λ _ k lo hi. absurd (omega arith);
  }

  inside_left : o < length t → IsNearest t o left (snap_left t o)
  inside_left h =
      let (b, l) = snap_left_boundary t o in
      record {
        boundary = b;
        within = omega arith;
        below = λ _. l;
        above = λ e. cc;
        none_above_left = λ _ k lo hi. snap_left_nearest t o k (omega arith) lo;
        none_below_right = λ e. cc;
      }

  inside_right : o < length t → IsNearest t o right (snap_right t (length t - o) o)
  inside_right h =
      let (b, lo, hi) = snap_right_boundary t (length t - o) o (omega arith) in
      record {
        boundary = b;
        within = hi;
        below = λ e. cc;
        above = λ _. omega arith;
        none_above_left = λ e. cc;
        none_below_right = λ _ k l r. snap_right_nearest t (length t - o) o k (omega arith) l r;
      }

-- For every text, offset and bias, `snap_char_boundary` gives a char boundary within the text, on
-- the side of the bias of the offset clamped to the text, and no boundary lies strictly between.
pub snap_char_boundary-IsNearest :
    (t : List ℕ) (o : ℕ) (b : Bias) → IsNearest t o b (snap_char_boundary t o b)
snap_char_boundary-IsNearest t o b = elim (Bool-cases (leb (length t) o)) [
  | inl past ↦
      let e : min o (length t) ≡ length t = omega (arith, leb→le (length t) o past) in
      unfold snap_char_boundary in
      rw past (rw e at (clamped-IsNearest t o b (rw e (is_char_boundary-length t))))
  | inr inside ↦
      let e : min o (length t) ≡ o = omega (arith, leb→lt (length t) o inside) in
      elim (Bool-cases (is_char_boundary t o)) [
        | inl on ↦
            unfold snap_char_boundary in
            rw (inside, on) (rw e at (clamped-IsNearest t o b (rw e on)))
        | inr off ↦
            unfold snap_char_boundary in rw (inside, off) (by_bias (leb→lt (length t) o inside) b)
      ]
]
  where
    by_bias :
        o < length t
        → (b : Bias)
        → IsNearest t o b (elim b [ left ↦ snap_left t o | right ↦ snap_right t (length t - o) o ])
    by_bias h left = inside_left t o h
    by_bias h right = inside_right t o h

-- Snapping a boundary within the text leaves it, so snapping twice is snapping once.
pub snap_char_boundary_fixed :
    (t : List ℕ) (o : ℕ) (b : Bias)
    → is_char_boundary t o ≡ true
    → o ≤ length t
    → snap_char_boundary t o b ≡ o
unfolding snap_char_boundary
snap_char_boundary_fixed t o b e h = ground arith
