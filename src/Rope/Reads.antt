-- ===== src/Rope/Reads.antt =====
-- Reads of a rope through its chunks are reads of the whole text.
use matcha.Common.{
  ℕ, zero, suc, Option, none, some, length-append, ◌+◌, ◌-◌, ◌≤◌, ◌<◌, ◌≡◌, refl, sym, ap, ap₂, ◌∙◌,
  true, false, List, [], ◌∷◌, ◌++◌, append-nil, length, take, drop, min, leb, leb→le, leb→lt, ◌==◌,
  ==_iff, if◌then◌else◌, arith, Bool-cases, inl, inr, length-drop, drop-drop, take-nil,
  take-append_le, drop-append_of_eq, take-take-drop_add,
}
use matcha.Coords.{is_char_boundary}
use native.Mathlib.Decide.{dec_lt}
use matcha.Coords.Snap.{is_char_boundary-length}
use matcha.Patch.{Range}
use matcha.Text.{bytes_in}
use matcha.Text.Inverse.{take-take_le}
use matcha.Ropey.{Ropey, concat}
use matcha.Rope.{Rope, str_slice, gather, chunk_at, slice}
use matcha.Rope.Slices.{str_slice-some, str_slice-take, boundary-first, boundary-past}
use matcha.Rope.Edits.{IsRope, view}
use matcha.Rope.Clips.{boundary-back}

-- The chunk loop of `slice` reads up to `end`.
gather-take :
    (cs : List (List ℕ)) (pos end : ℕ)
    → pos ≤ end
    → end - pos ≤ length (concat cs)
    → is_char_boundary (concat cs) (end - pos) ≡ true
    → gather cs pos end ≡ some (take (end - pos) (concat cs))
unfolding gather
gather-take [] pos end h k b = ap some (sym (take-nil (end - pos)))
gather-take (c ∷ cs) pos end h k b = elim (dec_lt (length c) (end - pos)) [
  | yes lt ↦
      let n : min (end - pos) (length c) ≡ length c = omega arith in
      let go_on : (pos + length c == end) ≡ false = ground arith in
      let left : length c + (end - (pos + length c)) ≡ end - pos = omega arith in
      let piece = str_slice-take c (length c) (is_char_boundary-length c) in
      let after : drop (length c) (c ++ concat cs) ≡ concat cs =
        drop-append_of_eq (length c) c (concat cs) refl in
      let b' : is_char_boundary (concat cs) (end - (pos + length c)) ≡ true =
        ap₂ is_char_boundary (sym after) (omega arith)
        ∙ boundary-past (c ++ concat cs) (length c) (end - pos) (omega arith) b in
      let rest =
        gather-take cs (pos + length c) end (omega arith)
          (omega (arith, length-append c (concat cs))) b' in
      rw (gather, n, piece, n, go_on, rest)
        (ap some (
          ap₂ (λ (a b : List ℕ). a ++ b)
            (sym (take-append_le (length c) c (concat cs) (omega arith)))
            (ap (take (end - (pos + length c)))
              (sym (drop-append_of_eq (length c) c (concat cs) refl)))
          ∙ take-take-drop_add (length c) (end - (pos + length c)) (c ++ concat cs)
          ∙ ap (λ m. take m (c ++ concat cs)) left))
  | no ge ↦
      let n : min (end - pos) (length c) ≡ end - pos = omega arith in
      let stops : (pos + (end - pos) == end) ≡ true = ground arith in
      let piece =
        str_slice-take c (end - pos) (boundary-first c (concat cs) (end - pos) (omega arith) b) in
      rw (gather, n, piece, n, stops)
        (ap some (
          append-nil (take (end - pos) c)
          ∙ sym (take-append_le (end - pos) c (concat cs) (omega arith))))
]

take-drop-take :
    (t : List ℕ) (m a n : ℕ) → a + n ≤ m → take n (drop a (take m t)) ≡ take n (drop a t)
take-drop-take t m zero n h = take-take_le n m t (omega arith)
take-drop-take t zero (suc a) n h = absurd (omega arith)
take-drop-take [] (suc m) (suc a) n h = refl
take-drop-take (x ∷ t) (suc m) (suc a) n h = take-drop-take t m a n (omega arith)

-- A part of a chunk is a part of the text.
part-chunk :
    (t chunk : List ℕ) (cs a n : ℕ)
    → take (length chunk) (drop cs t) ≡ chunk
    → a + n ≤ length chunk
    → take n (drop a chunk) ≡ take n (drop (cs + a) t)
part-chunk t chunk cs a n h f =
    ap (λ (u : List ℕ). take n (drop a u)) (sym h)
    ∙ take-drop-take (drop cs t) (length chunk) a n f
    ∙ ap (take n) (drop-drop a cs t)

take_all : (t : List ℕ) (n : ℕ) → length t ≤ n → take n t ≡ t
take_all [] n h = take-nil n
take_all (x ∷ t) zero h = absurd (omega arith)
take_all (x ∷ t) (suc n) h = ap (x ∷◌) (take_all t n (omega arith))

module _ (R : Ropey) (r : Rope R) (v : IsRope R r) where
  open R use {chunks_at_byte, chunk_at_byte, chunk_at_byte_lem, next_chunk}

  -- `slice` with its range clamped.
  abbrev slice_between : ℕ → ℕ → ℕ → Option (List ℕ)
  slice_between at start end =
      let (chunk, cs) = chunk_at_byte r.text at in
      if start == end
      then some []
      else if leb end (cs + length chunk)
      then str_slice chunk (start - cs) (end - cs)
      else elim (str_slice chunk (start - cs) (length chunk)) [
        | none ↦ none
        | some first ↦
            elim (gather (chunks_at_byte r.text (cs + length chunk)) (cs + length chunk) end) [
              | none ↦ none
              | some out ↦ some (first ++ out)
            ]
      ]

  -- The part that runs on into later chunks.
  across_chunks :
      (start end : ℕ)
      → start ≤ end
      → end ≤ length (view R r)
      → (chunk_at_byte r.text start).1 + length (chunk_at_byte r.text start).0 < end
      → is_char_boundary (view R r) end ≡ true
      → (rest : List ℕ) × (gather
            (chunks_at_byte r.text
              ((chunk_at_byte r.text start).1 + length (chunk_at_byte r.text start).0))
            ((chunk_at_byte r.text start).1 + length (chunk_at_byte r.text start).0)
            end
          ≡ some rest)
        × (drop (start - (chunk_at_byte r.text start).1) (chunk_at_byte r.text start).0 ++ rest
            ≡ take (end - start) (drop start (view R r)))
  across_chunks start end h k long bound =
      let t = view R r in
      let found = chunk_at_byte_lem r.text start (omega arith) in
      let (chunk, cs) = chunk_at_byte r.text start in
      let here = start - cs in
      let stop = cs + length chunk in
      let all_here : take (stop - start) (drop here chunk) ≡ drop here chunk =
        take_all (drop here chunk) (stop - start)
          (omega (arith, length-drop here chunk, found.begins, found.reaches)) in
      let at_start : cs + here ≡ start = omega (arith, found.begins) in
      let at_stop : start + (stop - start) ≡ stop = omega (arith, found.reaches) in
      let later : concat (chunks_at_byte r.text stop) ≡ drop stop t =
        next_chunk r.text start (omega arith) in
      (
        take (end - stop) (concat (chunks_at_byte r.text stop)),
        gather-take (chunks_at_byte r.text stop) stop end (omega arith)
            (omega (arith, ap length later, length-drop stop t))
            (ap (λ (u : List ℕ). is_char_boundary u (end - stop)) later
              ∙ boundary-past t stop end (omega arith) bound),
        ap₂ (λ (a b : List ℕ). a ++ b)
              (sym all_here
                ∙ part-chunk t chunk cs here (stop - start) found.holds
                    (omega (arith, found.begins, found.reaches))
                ∙ ap (λ n. take (stop - start) (drop n t)) at_start)
              (ap (take (end - stop))
                (later ∙ ap (λ n. drop n t) (sym at_stop) ∙ sym (drop-drop (stop - start) start t)))
            ∙ take-take-drop_add (stop - start) (end - stop) (drop start t)
            ∙ ap (λ n. take n (drop start t)) (omega (arith, found.reaches)),
      )

  slice_between-bytes :
      (start end : ℕ)
      → start ≤ end
      → end ≤ length (view R r)
      → is_char_boundary (view R r) start ≡ true
      → is_char_boundary (view R r) end ≡ true
      → slice_between start start end ≡ some (take (end - start) (drop start (view R r)))
  slice_between-bytes start end h k a b = elim (Bool-cases (start == end)) [
    | inl e ↦ let same : end - start ≡ 0 = omega (arith, (==_iff start end).0 e) in rw (e, same)
    | inr e ↦
        let (chunk, cs) = chunk_at_byte r.text start in
        let found = chunk_at_byte_lem r.text start (omega arith) in
        let at_start : cs + (start - cs) ≡ start = omega (arith, found.begins) in
        let a' : is_char_boundary chunk (start - cs) ≡ true =
          sym (boundary-back (view R r) start chunk cs found start found.begins found.reaches)
          ∙ a in
        elim (Bool-cases (leb end (cs + length chunk))) [
          | inl near ↦
              let close_ = leb→le end (cs + length chunk) near in
              let b' : is_char_boundary chunk (end - cs) ≡ true =
                sym (
                  boundary-back (view R r) start chunk cs found end (omega (arith, found.begins))
                    close_)
                ∙ b in
              let piece = str_slice-some chunk (start - cs) (end - cs) (omega arith) a' b' in
              let size : end - cs - (start - cs) ≡ end - start = omega (arith, found.begins) in
              rw (e, near)
                (piece
                  ∙ ap some (
                      ap (λ n. take n (drop (start - cs) chunk)) size
                      ∙ part-chunk (view R r) chunk cs (start - cs) (end - start) found.holds
                          (omega (arith, found.begins, close_))
                      ∙ ap (λ n. take (end - start) (drop n (view R r))) at_start))
          | inr far ↦
              let (rest, more, all) =
                across_chunks start end h k (leb→lt end (cs + length chunk) far) b in
              let first =
                str_slice-some chunk (start - cs) (length chunk) (omega (arith, found.reaches)) a'
                  (is_char_boundary-length chunk) in
              let whole : take (length chunk - (start - cs)) (drop (start - cs) chunk)
                  ≡ drop (start - cs) chunk =
                take_all (drop (start - cs) chunk) (length chunk - (start - cs))
                  (omega (arith, length-drop (start - cs) chunk)) in
              rw (e, far, first, more) (ap some (ap (λ (u : List ℕ). u ++ rest) whole ∙ all))
        ]
  ]

  -- On a rope whose cached length is that of its text, `slice` of a range, the ends of which are,
  -- once clamped to the text, on char boundaries, does not panic and gives the bytes of the clamped
  -- range, whether they lie in one chunk or in several, and none for an inverted range.
  pub slice-bytes :
      (range : Range)
      → let end = min range.end (length (view R r)) in
        let start = min range.start end in
        is_char_boundary (view R r) start ≡ true
        → is_char_boundary (view R r) end ≡ true
        → slice R r range ≡ some (bytes_in (record { start = start; end = end }) (view R r))
  unfolding slice chunk_at
  slice-bytes range a b =
      let end = min range.end (length (view R r)) in
      let start = min range.start end in
      let same : min range.end r.len ≡ end = omega (arith, v.len_lem) in
      let at : min (min range.start (min range.end r.len)) r.len ≡ start =
        omega (arith, v.len_lem) in
      ap₂ (λ n e. slice_between n (min range.start e) e) at same
      ∙ slice_between-bytes start end (omega arith) (omega arith) a b
