-- ===== src/Tests/Flat.antt =====
-- A rope of one chunk: the interface `Ropey` at a concrete function, for the tests.
use matcha.Common.{
  ℕ, zero, suc, ◌==◌, ◌+◌, ◌≤◌, ◌≡◌, refl, sym, ap, ap₂, subst, ◌∙◌, true, List, [], ◌∷◌, ◌++◌,
  append-nil, length, take, drop, if◌then◌else◌, arith, Bool-cases, inl, inr,
}
use matcha.Coords.{is_char_boundary, is_continuation, StartsChar}
use matcha.Coords.Snap.{is_char_boundary-length, is_char_boundary-zero}
use matcha.Text.Boundary.{StartsChar-drop}
use matcha.Ropey.{Ropey, IsChunkAt, concat}

-- How many characters begin in a text.
unfoldable pub char_count : List ℕ → ℕ
char_count [] = 0
char_count (x ∷ t) = if is_continuation x then char_count t else suc (char_count t)

-- Where the character of an index begins.
unfoldable pub char_start : List ℕ → ℕ → ℕ
char_start [] n = 0
char_start (x ∷ t) zero = if is_continuation x then suc (char_start t zero) else 0
char_start (x ∷ t) (suc n) = suc (char_start t (if is_continuation x then suc n else n))

char_start_inside :
    (x : ℕ) (t : List ℕ) (n : ℕ)
    → is_continuation x ≡ true
    → char_start (x ∷ t) n ≡ suc (char_start t n)
unfolding char_start
char_start_inside x t zero e = rw e
char_start_inside x t (suc n) e = rw e

char_start-char_count :
    (t : List ℕ) (o : ℕ)
    → StartsChar (drop o t)
    → o ≤ length t
    → char_start t (char_count (take o t)) ≡ o
unfolding char_start char_count
char_start-char_count [] zero s h = refl
char_start-char_count [] (suc o) s h = absurd (omega arith)
char_start-char_count (x ∷ t) zero s h = rw s
char_start-char_count (x ∷ t) (suc o) s h = elim (Bool-cases (is_continuation x)) [
  | inr e ↦ rw (e, e) (ap suc (char_start-char_count t o s (omega arith)))
  | inl e ↦ rw e (
      char_start_inside x t (char_count (take o t)) e
      ∙ ap suc (char_start-char_count t o s (omega arith)))
]

-- The index of a boundary leads back to it.
char_start_boundary :
    (t : List ℕ) (o : ℕ)
    → StartsChar t
    → o ≤ length t
    → is_char_boundary t o ≡ true
    → char_start t (char_count (take o t)) ≡ o
char_start_boundary t o s h b = char_start-char_count t o (StartsChar-drop t o s b) h

unfoldable pub remove_chars : List ℕ → ℕ → ℕ → List ℕ
remove_chars t a b = take (char_start t a) t ++ drop (char_start t b) t

unfoldable pub insert_chars : List ℕ → ℕ → List ℕ → List ℕ
insert_chars t a x = take (char_start t a) t ++ (x ++ drop (char_start t a) t)

unfoldable pub count_lf : List ℕ → ℕ
count_lf [] = 0
count_lf (x ∷ t) = if x == b'\n' then suc (count_lf t) else count_lf t

pub remove_chars_lem :
    (t u : List ℕ) (s e : ℕ)
    → u ≡ t
    → StartsChar u
    → s ≤ e
    → e ≤ length u
    → is_char_boundary u s ≡ true
    → is_char_boundary u e ≡ true
    → remove_chars t (char_count (take s t)) (char_count (take e t)) ≡ take s u ++ drop e u
unfolding remove_chars
remove_chars_lem t u s e same st h k bs be =
    ap₂ (λ a b. take a t ++ drop b t)
      (char_start_boundary t s (subst StartsChar same st) (omega (arith, ap length same))
        (ap (λ (w : List ℕ). is_char_boundary w s) (sym same) ∙ bs))
      (char_start_boundary t e (subst StartsChar same st) (omega (arith, ap length same))
        (ap (λ (w : List ℕ). is_char_boundary w e) (sym same) ∙ be))
    ∙ ap (λ (w : List ℕ). take s w ++ drop e w) (sym same)

pub insert_chars_lem :
    (t u : List ℕ) (i : ℕ) (x : List ℕ)
    → u ≡ t
    → StartsChar u
    → i ≤ length u
    → is_char_boundary u i ≡ true
    → insert_chars t (char_count (take i t)) x ≡ take i u ++ (x ++ drop i u)
unfolding insert_chars
insert_chars_lem t u i x same st h b =
    ap (λ a. take a t ++ (x ++ drop a t))
      (char_start_boundary t i (subst StartsChar same st) (omega (arith, ap length same))
        (ap (λ (w : List ℕ). is_char_boundary w i) (sym same) ∙ b))
    ∙ ap (λ (w : List ℕ). take i w ++ (x ++ drop i w)) (sym same)

take_self : (t : List ℕ) → take (length t) t ≡ t
take_self [] = refl
take_self (x ∷ t) = ap (x ∷◌) (take_self t)

pub whole_chunk : (t u : List ℕ) (b : ℕ) → u ≡ t → b ≤ length u → IsChunkAt u b t 0
whole_chunk t u b same h = record {
  holds = ap (take (length t)) same ∙ take_self t;
  begins = omega arith;
  reaches = omega (arith, ap length same);
  covers = λ lt. omega (arith, ap length same);
  inside = omega (arith, ap length same);
  start_boundary = is_char_boundary-zero u;
  end_boundary =
      let e : 0 + length t ≡ length u = omega (arith, ap length same) in
      rw e (is_char_boundary-length u);
}

abbrev pub flat : Ropey
flat = record {
  Tree = List ℕ;
  from_str = λ s. s;
  build = concat;
  chunks = λ t. t ∷ [];
  len_bytes = length;
  len_lines = λ t. count_lf t + 1;
  byte_to_char = λ t b. char_count (take b t);
  remove = remove_chars;
  insert = insert_chars;
  chunk_at_byte = λ t b. (t, 0);
  chunks_at_byte = λ t b. t ∷ [];
  from_str_lem = append-nil;
  build_lem = λ ps. append-nil (concat ps);
  len_bytes_lem = λ t. sym (ap length (append-nil t));
  remove_lem = λ t s e st h k bs be.
      append-nil _ ∙ remove_chars_lem t (t ++ []) s e (append-nil t) st h k bs be;
  insert_lem =
      λ t i x st h b. append-nil _ ∙ insert_chars_lem t (t ++ []) i x (append-nil t) st h b;
  byte_to_char_prefix =
      λ t u i h. ap char_count (sym (ap (take i) (append-nil t)) ∙ h ∙ ap (take i) (append-nil u));
  chunk_at_byte_lem = λ t b h. whole_chunk t (t ++ []) b (append-nil t) h;
  next_chunk = λ t b lt. absurd (omega (arith, ap length (append-nil t)));
}
