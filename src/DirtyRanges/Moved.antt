-- ===== src/DirtyRanges/Moved.antt =====
-- What a commit's splices mark, measured against the rows of the document: where the old rows go, and
-- which rows are new.
use matcha.Common.{
  ℕ, ◌+◌, ◌-◌, ◌≤◌, ◌<◌, ◌≡◌, ◌⊎◌, inl, inr, Bool, true, false, List, [], ◌∷◌, ltb, leb,
  if◌then◌else◌, Bool-cases, arith, ltb→lt, ltb→le, leb→le, leb→lt,
}
use matcha.Common.Int.{ℤ, pos, pos_part, neg_part, ◌+ℤ◌, ◌-ℤ◌, +ℤ_parts, -ℤ_parts}
use matcha.DirtyRanges.{Span, deltas, shift_at}

-- The spans ascend, are disjoint from row `at` on, and within `n` rows.
abbrev pub Within : ℕ → ℕ → List Span → Type 0
Within at n [] = at ≤ n
Within at n (s ∷ ss) = (at ≤ s.pre_start) × Within (s.pre_start + s.old_lines) n ss

pub Within-le : (at n : ℕ) (ss : List Span) → Within at n ss → at ≤ n
Within-le at n [] w = w
Within-le at n (s ∷ ss) (a, w) = omega (arith, Within-le (s.pre_start + s.old_lines) n ss w)

unfoldable pub added : List Span → ℕ
added [] = 0
added (s ∷ ss) = s.new_lines + added ss

-- The rows from `at` on are the rows from `now` on after the commit. Whether row `q` after the commit is
-- one of the lines of an edit, and else the row that it was before.
unfoldable pub is_new : ℕ → ℕ → List Span → ℕ → Bool
is_new at now [] q = false
is_new at now (s ∷ ss) q =
    let start = now + (s.pre_start - at) in
    let rest = is_new (s.pre_start + s.old_lines) (start + s.new_lines) ss q in
    if ltb q start then false else if ltb q (start + s.new_lines) then true else rest

unfoldable pub old_row : ℕ → ℕ → List Span → ℕ → ℕ
old_row at now [] q = at + (q - now)
old_row at now (s ∷ ss) q =
    let start = now + (s.pre_start - at) in
    let rest = old_row (s.pre_start + s.old_lines) (start + s.new_lines) ss q in
    if ltb q start then at + (q - now) else rest

-- No span has `x` strictly inside it.
abbrev pub Clear : List Span → ℕ → Type 0
Clear [] x = Unit
Clear (s ∷ ss) x = ((x ≤ s.pre_start) ⊎ (s.pre_start + s.old_lines ≤ x)) × Clear ss x

-- Where the end `x` of a run goes.
unfoldable pub new_end : ℕ → ℕ → List Span → ℕ → ℕ
new_end at now [] x = now + (x - at)
new_end at now (s ∷ ss) x =
    let rest = new_end (s.pre_start + s.old_lines) (now + (s.pre_start - at) + s.new_lines) ss x in
    if leb (s.pre_start + s.old_lines) x then rest else now + (x - at)

now-new_end : (at now : ℕ) (ss : List Span) (x : ℕ) → now ≤ new_end at now ss x
unfolding new_end
now-new_end at now [] x = omega arith
now-new_end at now (s ∷ ss) x =
    let ih =
      now-new_end (s.pre_start + s.old_lines) (now + (s.pre_start - at) + s.new_lines) ss x in
    ground (arith, ih)

at-old_row : (at now n : ℕ) (ss : List Span) (q : ℕ) → Within at n ss → at ≤ old_row at now ss q
unfolding old_row
at-old_row at now n [] q w = omega arith
at-old_row at now n (s ∷ ss) q w =
    let ih =
      at-old_row (s.pre_start + s.old_lines) (now + (s.pre_start - at) + s.new_lines) n ss q w.1 in
    let from = w.0 in ground (arith, ih, from)

-- Of a row that is not new and after the lines of the first edit, the others say whether it is new.
later :
    (at now : ℕ) (s : Span) (ss : List Span) (q : ℕ)
    → let now' = now + (s.pre_start - at) + s.new_lines in
      ltb q (now + (s.pre_start - at)) ≡ false
      → is_new at now (s ∷ ss) q ≡ false
      → (now' ≤ q) × (is_new (s.pre_start + s.old_lines) now' ss q ≡ false)
unfolding is_new
later at now s ss q f e =
    let now' = now + (s.pre_start - at) + s.new_lines in
    let e1 = rw (f, is_new) at e in
    elim (Bool-cases (ltb q now')) [
      | inl g ↦ let no = rw g at e1 in cc
      | inr g ↦ (ltb→le _ _ g, rw g at e1)
    ]

-- An end outside the edits goes where the rows after it go.
pub new_end-order :
    (at now n : ℕ) (ss : List Span) (x q : ℕ)
    → Within at n ss
    → at ≤ x
    → now ≤ q
    → Clear ss x
    → is_new at now ss q ≡ false
    → leb (new_end at now ss x) q ≡ leb x (old_row at now ss q)
unfolding new_end old_row
new_end-order at now n [] x q w h k c e = ground arith
new_end-order at now n (s ∷ ss) x q w h k c e =
    let start = now + (s.pre_start - at) in
    let at' = s.pre_start + s.old_lines in
    let now' = start + s.new_lines in
    let far = now-new_end at' now' ss x in
    let late = at-old_row at' now' n ss q w.1 in
    let from = w.0 in
    let outside = c.0 in
    elim (Bool-cases (ltb q start)) [
      | inl f ↦ elim (Bool-cases (leb at' x)) [
        | inl g ↦ rw (f, g, new_end, old_row) (ground (arith, far, from, f, g))
        | inr g ↦ rw (f, g, new_end, old_row) (ground (arith, from, f, g))
      ]
      | inr f ↦
          let (past, e') = later at now s ss q f e in
          elim (Bool-cases (leb at' x)) [
            | inl g ↦
                rw (f, g, new_end, old_row)
                  (new_end-order at' now' n ss x q w.1 (leb→le _ _ g) past c.1 e')
            | inr g ↦ rw (f, g, new_end, old_row) (ground (arith, from, f, g, late, past, outside))
          ]
    ]

-- An end after the old place of a row goes after the row, also from the inside of an edit.
pub new_end-after :
    (at now n : ℕ) (ss : List Span) (x q : ℕ)
    → Within at n ss
    → now ≤ q
    → is_new at now ss q ≡ false
    → old_row at now ss q < x
    → q < new_end at now ss x
unfolding new_end old_row
new_end-after at now n [] x q w k e h = omega arith
new_end-after at now n (s ∷ ss) x q w k e h =
    let start = now + (s.pre_start - at) in
    let at' = s.pre_start + s.old_lines in
    let now' = start + s.new_lines in
    let far = now-new_end at' now' ss x in
    let late = at-old_row at' now' n ss q w.1 in
    let from = w.0 in
    elim (Bool-cases (ltb q start)) [
      | inl f ↦
          let h' = rw (f, old_row) at h in
          elim (Bool-cases (leb at' x)) [
            | inl g ↦ rw (g, new_end) (omega (arith, far, ltb→lt _ _ f))
            | inr g ↦ rw (g, new_end) (omega (arith, from, h'))
          ]
      | inr f ↦
          let h' = rw (f, old_row) at h in
          let (past, e') = later at now s ss q f e in
          elim (Bool-cases (leb at' x)) [
            | inl g ↦ rw (g, new_end) (new_end-after at' now' n ss x q w.1 past e' h')
            | inr g ↦ absurd (omega (arith, late, h', leb→lt _ _ g))
          ]
    ]

-- The shift that the code adds to the end of a run, when the shift so far is from `at` to `now`.
pub shift_at-new_end :
    (d : ℤ) (at now n : ℕ) (ss : List Span) (x : ℕ)
    → pos_part d + at ≡ now + neg_part d
    → at ≤ x
    → Within at n ss
    → let shift = shift_at (deltas d ss) ss x in
      pos_part shift + x ≡ new_end at now ss x + neg_part shift
unfolding shift_at deltas new_end
shift_at-new_end d at now n [] x e h w = omega (arith, e)
shift_at-new_end d at now n (s ∷ ss) x e h w =
    let from = w.0 in
    let d' = d +ℤ pos s.new_lines -ℤ pos s.old_lines in
    let plus = +ℤ_parts d (pos s.new_lines) in
    let minus = -ℤ_parts (d +ℤ pos s.new_lines) (pos s.old_lines) in
    elim (Bool-cases (leb (s.pre_start + s.old_lines) x)) [
      | inl g ↦
          rw (g, new_end)
            (shift_at-new_end d' (s.pre_start + s.old_lines)
              (now + (s.pre_start - at) + s.new_lines) n ss x (omega (arith, e, plus, minus, from))
              (leb→le _ _ g) w.1)
      | inr g ↦ rw (g, new_end) (omega (arith, e))
    ]

pub new_end_le :
    (at now n : ℕ) (ss : List Span) (x : ℕ)
    → Within at n ss
    → x ≤ n
    → new_end at now ss x ≤ now + (n - at) + added ss
unfolding new_end added
new_end_le at now n [] x w h = omega arith
new_end_le at now n (s ∷ ss) x w h =
    let at' = s.pre_start + s.old_lines in
    let ih = new_end_le at' (now + (s.pre_start - at) + s.new_lines) n ss x w.1 h in
    let from = w.0 in
    let inside = Within-le at' n ss w.1 in
    elim (Bool-cases (leb at' x)) [
      | inl g ↦ rw (g, new_end) (omega (arith, ih, from, inside))
      | inr g ↦ rw (g, new_end) (omega (arith, from))
    ]
