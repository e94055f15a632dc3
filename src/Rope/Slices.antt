-- ===== src/Rope/Slices.antt =====
-- Reads of a `str` between char boundaries (crates/matcha-core/src/rope.rs), and the boundaries of texts
-- that are cut.
use matcha.Common.{
  ℕ, zero, suc, ◌+◌, ◌-◌, ◌≤◌, ◌<◌, ◌≡◌, refl, ap, ◌∙◌, true, Option, some, List, [], ◌∷◌, ◌++◌,
  length, get_elem?, take, drop, arith, length-append, length-drop,
}
use native.Mathlib.Decide.{dec_lt}
use matcha.Coords.{is_char_boundary}
use matcha.Coords.Snap.{is_char_boundary-length, is_char_boundary-zero}
use matcha.Rope.{str_slice}

pub str_slice-some :
    (s : List ℕ) (start end : ℕ)
    → start ≤ end
    → is_char_boundary s start ≡ true
    → is_char_boundary s end ≡ true
    → str_slice s start end ≡ some (take (end - start) (drop start s))
unfolding str_slice
str_slice-some s start end h a b = rw (a, b) (ground arith)

-- The bytes of a `str` up to a char boundary.
pub str_slice-take :
    (s : List ℕ) (n : ℕ) → is_char_boundary s n ≡ true → str_slice s 0 n ≡ some (take n s)
str_slice-take s n b =
    let whole : n - 0 ≡ n = omega arith in
    str_slice-some s 0 n (omega arith) (is_char_boundary-zero s) b
    ∙ ap (λ m. let o : Option (List ℕ) = some (take m s) in o) whole

-- A boundary inside the first of two texts is one of both together, and the other way round.
get_elem?-first : (xs ys : List ℕ) (i : ℕ) → i < length xs → get_elem? (xs ++ ys) i ≡ get_elem? xs i
get_elem?-first [] ys i h = absurd (omega arith)
get_elem?-first (x ∷ xs) ys zero h = refl
get_elem?-first (x ∷ xs) ys (suc i) h = get_elem?-first xs ys i (omega arith)

boundary_of_first :
    (xs ys : List ℕ) (i : ℕ)
    → i < length xs
    → is_char_boundary (xs ++ ys) i ≡ true
    → is_char_boundary xs i ≡ true
unfolding is_char_boundary
boundary_of_first xs ys i lt b =
    let e = get_elem?-first xs ys i lt in ground (arith, e, b, length-append xs ys)

pub boundary-first :
    (xs ys : List ℕ) (i : ℕ)
    → i ≤ length xs
    → is_char_boundary (xs ++ ys) i ≡ true
    → is_char_boundary xs i ≡ true
boundary-first xs ys i h b = elim (dec_lt i (length xs)) [
  | no ge ↦ let e : i ≡ length xs = omega arith in rw e (is_char_boundary-length xs)
  | yes lt ↦ boundary_of_first xs ys i lt b
]

get_elem?-past : (t : List ℕ) (k i : ℕ) → get_elem? (drop k t) i ≡ get_elem? t (k + i)
get_elem?-past t zero i = ap (get_elem? t) (omega arith)
get_elem?-past [] (suc k) i = refl
get_elem?-past (x ∷ t) (suc k) i =
    let e : suc k + i ≡ suc (k + i) = omega arith in rw e (get_elem?-past t k i)

-- A boundary of a text is one of what is left of the text after fewer bytes.
pub boundary-past :
    (t : List ℕ) (k i : ℕ)
    → k ≤ i
    → is_char_boundary t i ≡ true
    → is_char_boundary (drop k t) (i - k) ≡ true
unfolding is_char_boundary
boundary-past t k i h b =
    let e : get_elem? (drop k t) (i - k) ≡ get_elem? t i =
      get_elem?-past t k (i - k) ∙ ap (get_elem? t) (omega arith) in
    let l = length-drop k t in ground (arith, e, l, b)

boundary_of_past :
    (t : List ℕ) (k i : ℕ)
    → 0 < i
    → k ≤ length t
    → is_char_boundary (drop k t) i ≡ true
    → is_char_boundary t (k + i) ≡ true
unfolding is_char_boundary
boundary_of_past t k i h l b =
    let e = get_elem?-past t k i in let m = length-drop k t in ground (arith, e, m, b)

-- Past a boundary `here` of a chunk, the boundaries of what follows in it and after it are boundaries of
-- the chunk as far as that goes.
pub boundary_in_chunk :
    (chunk rest : List ℕ) (here i : ℕ)
    → here + i ≤ length chunk
    → is_char_boundary chunk here ≡ true
    → is_char_boundary (drop here chunk ++ rest) i ≡ true
    → is_char_boundary chunk (here + i) ≡ true
boundary_in_chunk chunk rest here i h a b = elim (dec_lt 0 i) [
  | no z ↦ let e : here + i ≡ here = omega arith in ap (is_char_boundary chunk) e ∙ a
  | yes some_left ↦
      boundary_of_past chunk here i some_left (omega arith)
        (boundary-first (drop here chunk) rest i (omega (arith, length-drop here chunk)) b)
]

-- What is a boundary counted from `pos` is one counted from `stop`, or lies before that.
pub boundary_later :
    (t : List ℕ) (pos stop o : ℕ)
    → pos ≤ stop
    → is_char_boundary t (o - pos) ≡ true
    → is_char_boundary (drop (stop - pos) t) (o - stop) ≡ true
boundary_later t pos stop o h b = elim (dec_lt stop o) [
  | no le ↦
      let e : o - stop ≡ 0 = omega arith in
      ap (is_char_boundary (drop (stop - pos) t)) e ∙ is_char_boundary-zero (drop (stop - pos) t)
  | yes lt ↦
      let e : o - stop ≡ o - pos - (stop - pos) = omega arith in
      ap (is_char_boundary (drop (stop - pos) t)) e
      ∙ boundary-past t (stop - pos) (o - pos) (omega arith) b
]
