-- ===== src/TextEdits/Trimmed.antt =====
-- A narrowed edit makes the same text.
use mathlib.Core.List.{reverse_aux, reverse-append, reverse-reverse}
use matcha.Common.{
  ℕ, zero, suc, ◌+◌, ◌-◌, ◌≤◌, ◌≡◌, inl, inr, refl, sym, ap, ap₂, ◌∙◌, true, ◌&&◌, List, [], ◌∷◌,
  ◌++◌, length, take, drop, reverse, ◌==◌, Bool-cases, arith, append_assoc, length-append,
  length-take, length-drop, take-append_of_eq, drop-append2_of_eq, take-append-drop,
}
use matcha.Coords.{is_char_boundary}
use matcha.Patch.{Range}
use matcha.Text.{replace_in}
use matcha.Transaction.{EditOp}
use matcha.TextEdits.Boundaries.{trim_front-boundary, trim_back-boundary}
use matcha.TextEdits.{shared_front, trim_front, trim_back, trim_op}

trim_front_le : (old new : List ℕ) (n : ℕ) → trim_front old new n ≤ n
unfolding trim_front
trim_front_le old new zero = omega arith
trim_front_le old new (suc n) =
    let ih = trim_front_le old new n in
    elim (Bool-cases (is_char_boundary old (suc n) && is_char_boundary new (suc n))) [
      | inl e ↦ rw (e, trim_front) (omega arith)
      | inr e ↦ rw (e, trim_front) (omega (arith, ih))
    ]

trim_back_le : (old new : List ℕ) (n : ℕ) → trim_back old new n ≤ n
unfolding trim_back
trim_back_le old new zero = omega arith
trim_back_le old new (suc n) =
    let ih = trim_back_le old new n in
    elim (Bool-cases
      (is_char_boundary old (length old - suc n) && is_char_boundary new (length new - suc n))) [
        | inl e ↦ rw (e, trim_back) (omega arith)
        | inr e ↦ rw (e, trim_back) (omega (arith, ih))
      ]

-- Two lists agree up to any length within what they share.
shared_front-take :
    (xs ys : List ℕ) (m : ℕ)
    → m ≤ shared_front xs ys
    → (take m xs ≡ take m ys) × (m ≤ length xs) × (m ≤ length ys)
unfolding shared_front
shared_front-take xs ys zero h = (refl, omega arith, omega arith)
shared_front-take [] ys (suc m) h = absurd (omega arith)
shared_front-take (x ∷ xs) [] (suc m) h = absurd (omega arith)
shared_front-take (x ∷ xs) (y ∷ ys) (suc m) h = elim (Bool-cases (x == y)) [
  | inl e ↦
      let k = rw (e, shared_front) at h in
      let (a, b, c) = shared_front-take xs ys m (omega (arith, k)) in
      let same : x ≡ y = ground (arith, e) in (ap₂ ◌∷◌ same a, omega arith, omega arith)
  | inr e ↦ absurd (let k = rw (e, shared_front) at h in omega (arith, k))
]

length-reverse_aux : (xs ys : List ℕ) → length (reverse_aux xs ys) ≡ length xs + length ys
length-reverse_aux [] ys = omega arith
length-reverse_aux (x ∷ xs) ys = omega (arith, length-reverse_aux xs (x ∷ ys))

length-reverse : (xs : List ℕ) → length (reverse xs) ≡ length xs
length-reverse xs = omega (arith, length-reverse_aux xs [])

take-reverse :
    (m : ℕ) (xs : List ℕ) → m ≤ length xs → take m (reverse xs) ≡ reverse (drop (length xs - m) xs)
take-reverse m xs h =
    let front = take (length xs - m) xs in
    let back = drop (length xs - m) xs in
    let whole : reverse xs ≡ reverse back ++ reverse front =
      ap reverse (sym (take-append-drop (length xs - m) xs)) ∙ reverse-append front back in
    ap (take m) whole
    ∙ take-append_of_eq m (reverse back) (reverse front)
        (omega (arith, length-reverse back, length-drop (length xs - m) xs))

shared_back-drop :
    (xs ys : List ℕ) (m : ℕ)
    → m ≤ shared_front (reverse xs) (reverse ys)
    → (drop (length xs - m) xs ≡ drop (length ys - m) ys) × (m ≤ length xs) × (m ≤ length ys)
shared_back-drop xs ys m h =
    let (a, b, c) = shared_front-take (reverse xs) (reverse ys) m h in
    let b' : m ≤ length xs = omega (arith, b, length-reverse xs) in
    let c' : m ≤ length ys = omega (arith, c, length-reverse ys) in
    let e = sym (take-reverse m xs b') ∙ a ∙ take-reverse m ys c' in
    (sym (reverse-reverse _) ∙ ap reverse e ∙ reverse-reverse _, b', c')

-- What a narrowed edit keeps on both sides, and what it replaces by what.
abbrev Narrowed : List ℕ → EditOp → EditOp → Type 0
Narrowed old op op' =
    (front : List ℕ) × (middle : List ℕ) × (back : List ℕ) × (old ≡ front ++ (middle ++ back))
    × (op.text ≡ front ++ (op'.text ++ back))
    × (op'.range.start ≡ op.range.start + length front)
    × (op'.range.end ≡ op.range.end - length back)
    × (is_char_boundary old (length front) ≡ true)
    × (is_char_boundary op.text (length front) ≡ true)
    × (is_char_boundary (drop (length front) old) (length middle) ≡ true)
    × (is_char_boundary (drop (length front) op.text) (length op'.text) ≡ true)

trim_op-Narrowed : (old : List ℕ) (op : EditOp) → Narrowed old op (trim_op old op)
unfolding trim_op
trim_op-Narrowed old op =
    let new = op.text in
    let prefix = trim_front old new (shared_front old new) in
    let (a, b, c) =
      shared_front-take old new prefix (trim_front_le old new (shared_front old new)) in
    let old1 = drop prefix old in
    let new1 = drop prefix new in
    let shared = shared_front (reverse old1) (reverse new1) in
    let suffix = trim_back old1 new1 shared in
    let (d, e, f) = shared_back-drop old1 new1 suffix (trim_back_le old1 new1 shared) in
    let size : length (take prefix old) ≡ prefix = omega (arith, b, length-take prefix old) in
    let middle : length (take (length old1 - suffix) old1) ≡ length old1 - suffix =
      omega (arith, length-take (length old1 - suffix) old1) in
    let middle' : length (take (length new1 - suffix) new1) ≡ length new1 - suffix =
      omega (arith, length-take (length new1 - suffix) new1) in
    let starts = trim_front-boundary old new (shared_front old new) in
    let ends = trim_back-boundary old1 new1 shared in
    (
      take prefix old,
      take (length old1 - suffix) old1,
      drop (length old1 - suffix) old1,
      sym (take-append-drop prefix old)
          ∙ ap (take prefix old ++◌) (sym (take-append-drop (length old1 - suffix) old1)),
      sym (take-append-drop prefix new)
          ∙ ap₂ ◌++◌ (sym a) (
              sym (take-append-drop (length new1 - suffix) new1)
              ∙ ap (take (length new1 - suffix) new1 ++◌) (sym d)),
      omega (arith, b, length-take prefix old),
      omega (arith, e, length-drop (length old1 - suffix) old1),
      ap (is_char_boundary old) size ∙ starts.0,
      ap (is_char_boundary new) size ∙ starts.1,
      ap₂ (λ n m. is_char_boundary (drop n old) m) size middle ∙ ends.0,
      ap₂ (λ n m. is_char_boundary (drop n new) m) size middle' ∙ ends.1,
    )

regroup :
    (before front middle back after : List ℕ)
    → before ++ ((front ++ (middle ++ back)) ++ after)
      ≡ (before ++ front) ++ (middle ++ (back ++ after))
regroup before front middle back after =
    ap (before ++◌)
      (append_assoc front (middle ++ back) after ∙ ap (front ++◌) (append_assoc middle back after))
    ∙ sym (append_assoc before front (middle ++ (back ++ after)))

replace_middle :
    (before front middle text back after : List ℕ) (r : Range)
    → r.start ≡ length before + length front
    → r.end ≡ length before + length front + length middle
    → replace_in r text (before ++ ((front ++ (middle ++ back)) ++ after))
      ≡ before ++ ((front ++ (text ++ back)) ++ after)
replace_middle before front middle text back after r h k =
    let head = before ++ front in
    let tail = back ++ after in
    let size = length-append before front in
    let start : take r.start (head ++ (middle ++ tail)) ≡ head =
      take-append_of_eq r.start head (middle ++ tail) (omega (arith, size)) in
    let rest : drop r.end (head ++ (middle ++ tail)) ≡ tail =
      drop-append2_of_eq r.end head middle tail (omega (arith, size)) in
    ap (replace_in r text) (regroup before front middle back after)
    ∙ ap₂ (λ x y. x ++ (text ++ y)) start rest
    ∙ sym (regroup before front text back after)

-- In a text that has `old` at the range of the op, the narrowed op makes the same text as the op, which
-- is the text with the op's text in place of `old`; its range lies within the range of the op; and what is
-- cut from the front and then from the back of `old` and of the op's text is cut at char boundaries.
pub replace_in-trim_op :
    (before old after : List ℕ) (op : EditOp)
    → op.range.start ≡ length before
    → op.range.end ≡ length before + length old
    → let op' = trim_op old op in
      (replace_in op'.range op'.text (before ++ (old ++ after)) ≡ before ++ (op.text ++ after))
      × (op.range.start ≤ op'.range.start)
      × (op'.range.start ≤ op'.range.end)
      × (op'.range.end ≤ op.range.end)
      × (let cut = op'.range.start - op.range.start in
          (is_char_boundary old cut ≡ true)
          × (is_char_boundary op.text cut ≡ true)
          × (is_char_boundary (drop cut old) (op'.range.end - op'.range.start) ≡ true)
          × (is_char_boundary (drop cut op.text) (length op'.text) ≡ true))
replace_in-trim_op before old after op h k =
    let (front, middle, back, a, b, c, d, u, v, w, x) = trim_op-Narrowed old op in
    let size : length old ≡ length front + (length middle + length back) =
      ap length a
      ∙ length-append front (middle ++ back)
      ∙ ap (length front +◌) (length-append middle back) in
    let cut : (trim_op old op).range.start - op.range.start ≡ length front = omega (arith, c) in
    let inner : (trim_op old op).range.end - (trim_op old op).range.start ≡ length middle =
      omega (arith, c, d, size) in
    (
      ap (λ o. replace_in (trim_op old op).range (trim_op old op).text (before ++ (o ++ after))) a
          ∙ replace_middle before front middle (trim_op old op).text back after
              (trim_op old op).range (omega (arith, c)) (omega (arith, d, size))
          ∙ ap (λ n. before ++ (n ++ after)) (sym b),
      omega (arith, c),
      omega (arith, c, d, size),
      omega (arith, d),
      (
        ap (is_char_boundary old) cut ∙ u,
        ap (is_char_boundary op.text) cut ∙ v,
        ap₂ (λ n m. is_char_boundary (drop n old) m) cut inner ∙ w,
        ap (λ n. is_char_boundary (drop n op.text) (length (trim_op old op).text)) cut ∙ x,
      ),
    )
