-- ===== src/Text/Boundary.antt =====
-- Char boundaries of texts that are cut and joined.
use matcha.Common.{
  ℕ, zero, suc, ◌≡◌, refl, sym, subst, true, some, List, [], ◌∷◌, ◌++◌, length, get_elem?, take,
  drop, arith, length-append,
}
use matcha.Coords.{is_char_boundary, StartsChar}
use matcha.Text.{Splice}

-- A boundary that an edit leaves: the text before it is there, and what follows begins a character.
abbrev pub AtBoundaries : List ℕ → List Splice → Type 0
AtBoundaries t [] = Unit
AtBoundaries t ((r, x) ∷ ops) =
    (is_char_boundary t r.start ≡ true) × (is_char_boundary t r.end ≡ true) × AtBoundaries t ops

get_elem?-drop :
    (t : List ℕ) (n : ℕ) (x : ℕ) (xs : List ℕ) → drop n t ≡ x ∷ xs → get_elem? t n ≡ some x
get_elem?-drop t zero x xs h = cc
get_elem?-drop [] (suc n) x xs h = cc
get_elem?-drop (y ∷ t) (suc n) x xs h = get_elem?-drop t n x xs h

get_elem?-append_length : (xs ys : List ℕ) → get_elem? (xs ++ ys) (length xs) ≡ get_elem? ys 0
get_elem?-append_length [] [] = refl
get_elem?-append_length [] (y ∷ ys) = refl
get_elem?-append_length (x ∷ xs) ys = get_elem?-append_length xs ys

-- A cut whose second part begins a character is a boundary.
pub is_char_boundary-append :
    (xs ys : List ℕ) → StartsChar ys → is_char_boundary (xs ++ ys) (length xs) ≡ true
unfolding is_char_boundary
is_char_boundary-append xs [] h = ground (arith, get_elem?-append_length xs [], length-append xs [])
is_char_boundary-append xs (y ∷ ys) h = ground (arith, get_elem?-append_length xs (y ∷ ys), h)

-- What follows a boundary past the first byte begins a character.
pub StartsChar-drop :
    (t : List ℕ) (o : ℕ) → StartsChar t → is_char_boundary t o ≡ true → StartsChar (drop o t)
unfolding is_char_boundary
StartsChar-drop t zero s h = s
StartsChar-drop t (suc o) s h = by_rest (drop (suc o) t) refl
  where
    by_rest : (rest : List ℕ) → drop (suc o) t ≡ rest → StartsChar rest
    by_rest [] e = tt
    by_rest (x ∷ xs) e = ground (arith, get_elem?-drop t (suc o) x xs e, h)

pub StartsChar-take : (n : ℕ) (t : List ℕ) → StartsChar t → StartsChar (take n t)
StartsChar-take zero t s = tt
StartsChar-take (suc n) [] s = tt
StartsChar-take (suc n) (x ∷ t) s = s

pub StartsChar-append : (xs ys : List ℕ) → StartsChar xs → StartsChar ys → StartsChar (xs ++ ys)
StartsChar-append [] ys s s' = s'
StartsChar-append (x ∷ xs) ys s s' = s

pub is_char_boundary-append_at :
    (n : ℕ) (xs ys : List ℕ) → n ≡ length xs → StartsChar ys → is_char_boundary (xs ++ ys) n ≡ true
is_char_boundary-append_at n xs ys e h =
    subst (λ k. is_char_boundary (xs ++ ys) k ≡ true) (sym e) (is_char_boundary-append xs ys h)
