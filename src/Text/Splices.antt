-- ===== src/Text/Splices.antt =====
-- Batches of replacements at char boundaries: what they leave begins a character, and how much they
-- insert.
use matcha.Common.{
  ℕ, zero, suc, ◌+◌, ◌-◌, ◌≤◌, ◌<◌, ◌≡◌, refl, true, some, List, [], ◌∷◌, ◌++◌, length, get_elem?,
  take, drop, drop-drop, arith, length-append, length-take, length-drop,
}
use native.Mathlib.Decide.{dec_lt}
use matcha.Coords.{is_char_boundary, StartsChar}
use matcha.Text.{Splice, splice, Disjoint, spliced_length, unsplice}
use matcha.Text.Inverse.{Disjoint-le}
use matcha.Text.Boundary.{
  AtBoundaries, StartsChar-drop, StartsChar-take, StartsChar-append, is_char_boundary-append_at,
}

abbrev pub AllStartChar : List Splice → Type 0
AllStartChar [] = Unit
AllStartChar ((r, x) ∷ ops) = StartsChar x × AllStartChar ops

abbrev pub inserted : List Splice → ℕ
inserted [] = 0
inserted ((r, x) ∷ ops) = length x + inserted ops

abbrev pub removed : List Splice → ℕ
removed [] = 0
removed ((r, x) ∷ ops) = (r.end - r.start) + removed ops

-- What comes in and what goes out balance the lengths.
pub spliced_length-removed :
    (ops : List Splice) (at len : ℕ)
    → Disjoint at len ops
    → spliced_length at len ops + removed ops ≡ (len - at) + inserted ops
unfolding spliced_length
spliced_length-removed [] at len d = omega arith
spliced_length-removed ((r, x) ∷ ops) at len d =
    omega (arith, Disjoint-le ops r.end len d.2, spliced_length-removed ops r.end len d.2)

-- The inverse batch inserts what the batch removed.
pub inserted-unsplice :
    (ops : List Splice) (at now len : ℕ) (t : List ℕ)
    → Disjoint at len ops
    → at + length t ≡ len
    → inserted (unsplice at now ops t) ≡ removed ops
unfolding unsplice
inserted-unsplice [] at now len t d h = refl
inserted-unsplice ((r, x) ∷ ops) at now len t d h = omega (
  arith,
  Disjoint-le ops r.end len d.2,
  length-take (r.end - r.start) (drop (r.start - at) t),
  length-drop (r.start - at) t,
  length-drop (r.end - at) t,
  inserted-unsplice ops r.end (now + (r.start - at) + length x) len (drop (r.end - at) t) d.2
      (omega (arith, length-drop (r.end - at) t, Disjoint-le ops r.end len d.2)),
)

pub drop-to : (at end : ℕ) (t : List ℕ) → at ≤ end → drop (end - at) (drop at t) ≡ drop end t
drop-to at end t h = let e : at + (end - at) ≡ end = omega arith in rw drop-drop (rw e)

pub StartsChar-splice :
    (ops : List Splice) (at len : ℕ) (t : List ℕ)
    → Disjoint at len ops
    → StartsChar t
    → is_char_boundary t at ≡ true
    → AtBoundaries t ops
    → AllStartChar ops
    → StartsChar (splice at ops (drop at t))
unfolding splice
StartsChar-splice [] at len t d s b bs xs = StartsChar-drop t at s b
StartsChar-splice ((r, x) ∷ ops) at len t d s b bs xs = rw (drop-to at r.end t (omega arith)) (
    StartsChar-append (take (r.start - at) (drop at t)) (x ++ splice r.end ops (drop r.end t))
      (StartsChar-take (r.start - at) (drop at t) (StartsChar-drop t at s b))
      (StartsChar-append x (splice r.end ops (drop r.end t)) xs.0
        (StartsChar-splice ops r.end len t d.2 s bs.1 bs.2 xs.1)))

get_elem?-take :
    (t ys : List ℕ) (n o : ℕ) → o < n → n ≤ length t → get_elem? (take n t ++ ys) o ≡ get_elem? t o
get_elem?-take t ys zero o h k = absurd (omega arith)
get_elem?-take [] ys (suc n) o h k = absurd (omega arith)
get_elem?-take (x ∷ t) ys (suc n) zero h k = refl
get_elem?-take (x ∷ t) ys (suc n) (suc o) h k = get_elem?-take t ys n o (omega arith) (omega arith)

get_elem?_past : (t : List ℕ) (o : ℕ) {x : ℕ} → get_elem? t o ≡ some x → o < length t
get_elem?_past [] o h = cc
get_elem?_past (y ∷ t) zero h = omega arith
get_elem?_past (y ∷ t) (suc o) h = omega (arith, get_elem?_past t o h)

boundary_below :
    (t ys : List ℕ) (n o : ℕ)
    → o < n
    → n ≤ length t
    → is_char_boundary t o ≡ true
    → is_char_boundary (take n t ++ ys) o ≡ true
unfolding is_char_boundary
boundary_below t ys n o h k b =
    ground (arith, get_elem?-take t ys n o h k, length-append (take n t) ys, length-take n t)

-- A boundary of a text up to where its tail is exchanged stays one.
pub boundary-take :
    (t ys : List ℕ) (n o : ℕ)
    → o ≤ n
    → n ≤ length t
    → is_char_boundary t o ≡ true
    → StartsChar ys
    → is_char_boundary (take n t ++ ys) o ≡ true
boundary-take t ys n o h k b s = elim (dec_lt o n) [
  | yes lt ↦ boundary_below t ys n o lt k b
  | no ge ↦ is_char_boundary-append_at o (take n t) ys (omega (arith, length-take n t)) s
]
