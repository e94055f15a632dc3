-- ===== src/Text/Inverse.antt =====
-- Laws of `splice`: its length, its inverse, and the order in which replacements may be made.
use matcha.Common.{
  ℕ, zero, suc, ◌+◌, ◌-◌, ◌≤◌, ◌≡◌, refl, sym, ap, List, [], ◌∷◌, ◌++◌, append_assoc, length, take,
  drop, length-append, length-take, length-drop, take-append-drop, take-append_of_eq,
  drop-append2_of_eq, take-take-drop, take-append_le, drop-drop, drop-append_of_eq, take-nil, arith,
}
use matcha.Text.{Splice, splice, Disjoint, unsplice, spliced_length, replace_in}

pub Disjoint-le : (ops : List Splice) (at len : ℕ) → Disjoint at len ops → at ≤ len
Disjoint-le [] at len d = d
Disjoint-le ((r, x) ∷ ops) at len d = omega (arith, Disjoint-le ops r.end len d.2)

pub length-splice :
    (ops : List Splice) (at len : ℕ) (t : List ℕ)
    → Disjoint at len ops
    → at + length t ≡ len
    → length (splice at ops t) ≡ spliced_length at len ops
unfolding splice spliced_length
length-splice [] at len t d h = omega arith
length-splice ((r, x) ∷ ops) at len t d h = omega (
  arith,
  length-append (take (r.start - at) t) (x ++ splice r.end ops (drop (r.end - at) t)),
  length-append x (splice r.end ops (drop (r.end - at) t)),
  length-take (r.start - at) t,
  length-drop (r.end - at) t,
  Disjoint-le ops r.end len d.2,
  length-splice ops r.end len (drop (r.end - at) t) d.2
      (omega (arith, length-drop (r.end - at) t, Disjoint-le ops r.end len d.2)),
)

-- The batch that `unsplice` gives takes the edited text back.
pub splice-unsplice :
    (ops : List Splice) (at now len : ℕ) (t : List ℕ)
    → Disjoint at len ops
    → at + length t ≡ len
    → splice now (unsplice at now ops t) (splice at ops t) ≡ t
unfolding splice unsplice
splice-unsplice [] at now len t d h = refl
splice-unsplice ((r, x) ∷ ops) at now len t d h =
    let tail = drop (r.end - at) t in
    let start = now + (r.start - at) in
    let stop = start + length x in
    let kept = length-take (r.start - at) t in
    let inside = Disjoint-le ops r.end len d.2 in
    let gap : r.end - r.start ≡ (r.end - at) - (r.start - at) = omega arith in
    rw
      (
        take-append_of_eq (start - now) (take (r.start - at) t) (x ++ splice r.end ops tail)
            (omega arith),
        drop-append2_of_eq (stop - now) (take (r.start - at) t) x (splice r.end ops tail)
            (omega arith),
        splice-unsplice ops r.end stop len tail d.2 (omega (arith, length-drop (r.end - at) t)),
        gap,
      )
      (take-take-drop (r.start - at) (r.end - at) t (omega arith))

-- The inverse batch is ascending and disjoint within the edited text.
pub Disjoint-unsplice :
    (ops : List Splice) (at now len : ℕ) (t : List ℕ)
    → Disjoint at len ops
    → at + length t ≡ len
    → Disjoint now (now + spliced_length at len ops) (unsplice at now ops t)
unfolding unsplice spliced_length
Disjoint-unsplice [] at now len t d h = omega arith
Disjoint-unsplice ((r, x) ∷ ops) at now len t d h =
    let stop = now + (r.start - at) + length x in
    let e : now + (r.start - at + length x + spliced_length r.end len ops)
        ≡ stop + spliced_length r.end len ops =
      omega arith in
    (
      omega arith,
      omega arith,
      rw e (
          Disjoint-unsplice ops r.end stop len (drop (r.end - at) t) d.2
            (omega (arith, length-drop (r.end - at) t, Disjoint-le ops r.end len d.2))),
    )

-- The replacements made one by one, the last one first.
unfoldable pub replace_descending : List Splice → List ℕ → List ℕ
replace_descending [] t = t
replace_descending ((r, x) ∷ ops) t = replace_in r x (replace_descending ops t)

pub take-take_le : (a b : ℕ) (t : List ℕ) → a ≤ b → take a (take b t) ≡ take a t
take-take_le zero b t h = refl
take-take_le (suc a) zero t h = absurd (omega arith)
take-take_le (suc a) (suc b) [] h = refl
take-take_le (suc a) (suc b) (x ∷ t) h = ap (x ∷◌) (take-take_le a b t (omega arith))

take-split : (a b : ℕ) (t : List ℕ) → a ≤ b → take b t ≡ take a t ++ take (b - a) (drop a t)
take-split zero b t h = let e : b - 0 ≡ b = omega arith in rw e
take-split (suc a) zero t h = absurd (omega arith)
take-split (suc a) (suc b) [] h = rw (take-nil (suc b - suc a))
take-split (suc a) (suc b) (x ∷ t) h =
    let e : suc b - suc a ≡ b - a = omega arith in rw e (ap (x ∷◌) (take-split a b t (omega arith)))

-- Made last one first, ascending disjoint replacements do what the batch does.
pub replace_descending-splice :
    (ops : List Splice) (at len : ℕ) (t : List ℕ)
    → Disjoint at len ops
    → length t ≡ len
    → replace_descending ops t ≡ take at t ++ splice at ops (drop at t)
unfolding replace_descending splice
replace_descending-splice [] at len t d h = sym (take-append-drop at t)
replace_descending-splice ((r, x) ∷ ops) at len t d h =
    let inside = Disjoint-le ops r.end len d.2 in
    let back : r.end ≡ at + (r.end - at) = omega arith in
    rw (
      replace_descending-splice ops r.end len t d.2 h,
      drop-append_of_eq r.end (take r.end t) (splice r.end ops (drop r.end t))
          (omega (arith, length-take r.end t)),
      take-append_le r.start (take r.end t) (splice r.end ops (drop r.end t))
          (omega (arith, length-take r.end t)),
      take-take_le r.start r.end t d.1,
      drop-drop (r.end - at) at t,
      ← back,
      take-split at r.start t d.0,
      append_assoc,
    )
