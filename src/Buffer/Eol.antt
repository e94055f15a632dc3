-- ===== src/Buffer/Eol.antt =====
-- Line endings: what normalization to LF does, and that saving and loading keep the text.
use matcha.Common.{
  ℕ, suc, ◌≤◌, ◌≡◌, refl, sym, ap, ◌∙◌, false, ◌&&◌, List, [], ◌∷◌, ◌++◌, map, length, ◌==◌, arith,
  Bool-cases, inl, inr,
}
use matcha.Coords.{is_continuation, StartsChar}
use matcha.Ropey.{Ropey, concat}
use matcha.Rope.Edits.{view}
use matcha.Buffer.{
  Buffer, begins_lf, contains_cr, crlf_to_lf, cr_to_lf, normalize_eol, expand_lf, serialize, lf,
  crlf,
}

lf_starts : is_continuation 10 ≡ false
unfolding is_continuation
lf_starts = refl

StartsChar-cr_to_lf : (t : List ℕ) → StartsChar t → StartsChar (cr_to_lf t)
unfolding cr_to_lf
StartsChar-cr_to_lf [] s = tt
StartsChar-cr_to_lf (x ∷ t) s = ground (arith, lf_starts, s)

StartsChar-crlf_to_lf : (t : List ℕ) → StartsChar t → StartsChar (crlf_to_lf t)
unfolding crlf_to_lf
StartsChar-crlf_to_lf [] s = tt
StartsChar-crlf_to_lf (x ∷ []) s = ground (arith, s)
StartsChar-crlf_to_lf (x ∷ y ∷ t) s = elim (Bool-cases (x == 13 && y == 10)) [
  | inl e ↦
      let line : y ≡ 10 = ground (arith, e) in
      let kept : (y == 13 && begins_lf t) ≡ false = ground (arith, line) in
      rw (e, kept, line) lf_starts
  | inr e ↦ rw e s
]

-- Normalized text is a `&str` again.
pub StartsChar-normalize_eol : (t : List ℕ) → StartsChar t → StartsChar (normalize_eol t)
unfolding normalize_eol
StartsChar-normalize_eol t s = elim (Bool-cases (contains_cr t)) [
  | inl e ↦ rw e (StartsChar-cr_to_lf (crlf_to_lf t) (StartsChar-crlf_to_lf t s))
  | inr e ↦ rw e s
]

length-cr_to_lf : (t : List ℕ) → length (cr_to_lf t) ≡ length t
unfolding cr_to_lf
length-cr_to_lf [] = refl
length-cr_to_lf (x ∷ t) = ap suc (length-cr_to_lf t)

length-crlf_to_lf : (t : List ℕ) → length (crlf_to_lf t) ≤ length t
unfolding crlf_to_lf
length-crlf_to_lf [] = omega arith
length-crlf_to_lf (x ∷ t) = ground (arith, length-crlf_to_lf t)

-- Normalization only shrinks.
pub length-normalize_eol : (t : List ℕ) → length (normalize_eol t) ≤ length t
unfolding normalize_eol
length-normalize_eol t = ground (arith, length-cr_to_lf (crlf_to_lf t), length-crlf_to_lf t)

contains_cr-cr_to_lf : (t : List ℕ) → contains_cr (cr_to_lf t) ≡ false
unfolding contains_cr cr_to_lf
contains_cr-cr_to_lf [] = refl
contains_cr-cr_to_lf (x ∷ t) = ground (arith, contains_cr-cr_to_lf t)

-- No `\r` is left.
pub contains_cr-normalize_eol : (t : List ℕ) → contains_cr (normalize_eol t) ≡ false
unfolding normalize_eol
contains_cr-normalize_eol t = ground (arith, contains_cr-cr_to_lf (crlf_to_lf t))

-- Text without `\r` is left as it is.
pub normalize_eol_fixed : (t : List ℕ) → contains_cr t ≡ false → normalize_eol t ≡ t
unfolding normalize_eol
normalize_eol_fixed t h = rw h

expand_lf-append : (xs ys : List ℕ) → expand_lf (xs ++ ys) ≡ expand_lf xs ++ expand_lf ys
unfolding expand_lf
expand_lf-append [] ys = refl
expand_lf-append (x ∷ xs) ys = ground (arith, expand_lf-append xs ys)

pub concat-map-expand_lf : (cs : List (List ℕ)) → concat (map expand_lf cs) ≡ expand_lf (concat cs)
concat-map-expand_lf [] = unfold expand_lf in refl
concat-map-expand_lf (c ∷ cs) =
    ap (expand_lf c ++◌) (concat-map-expand_lf cs) ∙ sym (expand_lf-append c (concat cs))

begins_lf-expand_lf : (t : List ℕ) → begins_lf (expand_lf t) ≡ false
unfolding begins_lf expand_lf
begins_lf-expand_lf [] = refl
begins_lf-expand_lf (x ∷ t) = ground arith

crlf_to_lf-expand_lf : (t : List ℕ) → contains_cr t ≡ false → crlf_to_lf (expand_lf t) ≡ t
unfolding crlf_to_lf expand_lf contains_cr
crlf_to_lf-expand_lf [] h = refl
crlf_to_lf-expand_lf (x ∷ t) h = ground (arith, crlf_to_lf-expand_lf t, begins_lf-expand_lf t, h)

cr_to_lf_fixed : (t : List ℕ) → contains_cr t ≡ false → cr_to_lf t ≡ t
unfolding cr_to_lf contains_cr
cr_to_lf_fixed [] h = refl
cr_to_lf_fixed (x ∷ t) h = ground (arith, cr_to_lf_fixed t, h)

contains_cr-expand_lf : (t : List ℕ) → contains_cr (expand_lf t) ≡ false → expand_lf t ≡ t
unfolding contains_cr expand_lf
contains_cr-expand_lf [] h = refl
contains_cr-expand_lf (x ∷ t) h = ground (arith, contains_cr-expand_lf t, h)

normalize_eol-expand_lf : (t : List ℕ) → contains_cr t ≡ false → normalize_eol (expand_lf t) ≡ t
unfolding normalize_eol
normalize_eol-expand_lf t h = elim (Bool-cases (contains_cr (expand_lf t))) [
  | inl e ↦ rw e (ap cr_to_lf (crlf_to_lf-expand_lf t h) ∙ cr_to_lf_fixed t h)
  | inr e ↦ rw e (contains_cr-expand_lf t e)
]

module _ (R : Ropey) (b : Buffer R) where
  -- For a buffer without `\r`, the text saved with either line-ending flavor is normalized on load
  -- to the buffer's text.
  pub normalize_eol-serialize :
      contains_cr (view R b.text) ≡ false
      → (normalize_eol (serialize R b lf) ≡ view R b.text)
        × (normalize_eol (serialize R b crlf) ≡ view R b.text)
  unfolding serialize
  normalize_eol-serialize h = (
    normalize_eol_fixed (view R b.text) h,
    ap normalize_eol (concat-map-expand_lf (R.chunks b.text.text))
        ∙ normalize_eol-expand_lf (view R b.text) h,
  )
