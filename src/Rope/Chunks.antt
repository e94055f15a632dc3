-- ===== src/Rope/Chunks.antt =====
-- One round of the copy loop of `rebuild_with` (crates/matcha-core/src/rope.rs), and the step to the next
-- chunk.
use matcha.Common.{
  ℕ, if◌then◌else◌, ◌+◌, ◌-◌, ◌≤◌, ◌<◌, ◌≡◌, refl, sym, ap, ◌∙◌, ◌⊎◌, true, some, List, [], ◌∷◌,
  ◌++◌, append-nil, append_assoc, length, take, drop, min, ltb, ltb→lt, ltb→le, ◌==◌, ==_iff, arith,
  Bool-cases, inl, inr, length-append, length-drop, drop-drop, drop-append_le, take-append_le,
}
use native.Mathlib.Decide.{dec_le}
use matcha.Ropey.{concat}
use matcha.Coords.{is_char_boundary}
use matcha.Coords.Snap.{is_char_boundary-length, is_char_boundary-zero}
use matcha.Rope.Slices.{str_slice-some, boundary_in_chunk}
use matcha.Rope.{Copy, next_chunk_at_end, copy_chunk}

-- The text that is still to be read.
abbrev pub ahead : Copy → List ℕ
ahead c = drop (c.pos - c.cs) c.chunk ++ concat c.rest

abbrev pub OnChunk : Copy → Type 0
OnChunk c = (c.cs ≤ c.pos) × (c.pos ≤ c.cs + length c.chunk)

pub concat-append : (xs ys : List (List ℕ)) → concat (xs ++ ys) ≡ concat xs ++ concat ys
concat-append [] ys = refl
concat-append (x ∷ xs) ys = rw (concat-append xs ys) (sym (append_assoc x (concat xs) (concat ys)))

drop-length : (t : List ℕ) → drop (length t) t ≡ []
drop-length [] = refl
drop-length (x ∷ t) = drop-length t

-- What a round of copying makes of the state.
unfoldable pub copied_chunk : ℕ → ℕ → Copy → Copy
copied_chunk start end c =
    let stop = min end (c.cs + length c.chunk) in
    let piece = take (min stop start - c.pos) (drop (c.pos - c.cs) c.chunk) in
    record c { pos = stop; out = if ltb c.pos start then c.out ++ piece ∷ [] else c.out }

-- The position and the ends of a gap are on char boundaries.
abbrev pub Cut : Copy → Type 0
Cut c = is_char_boundary c.chunk (c.pos - c.cs) ≡ true

abbrev pub CutAt : Copy → ℕ → Type 0
CutAt c o = is_char_boundary (ahead c) (o - c.pos) ≡ true

-- One round of copying, inside the current chunk.
module _ (start end : ℕ) (c : Copy) (on : OnChunk c) (before : c.pos ≤ end) where
  unfoldable pub stop : ℕ
  stop = min end (c.cs + length c.chunk)

  pub ahead-copied_chunk : ahead (copied_chunk start end c) ≡ drop (stop - c.pos) (ahead c)
  unfolding copied_chunk stop
  ahead-copied_chunk =
      let here = c.pos - c.cs in
      let e : here + (stop - c.pos) ≡ stop - c.cs = omega arith in
      sym (
        drop-append_le (stop - c.pos) (drop here c.chunk) (concat c.rest)
          (omega (arith, length-drop here c.chunk))
        ∙ ap (λ (t : List ℕ). t ++ concat c.rest)
            (drop-drop (stop - c.pos) here c.chunk ∙ ap (λ n. drop n c.chunk) e))

  pub out-copied_chunk :
      concat (copied_chunk start end c).out
      ≡ concat c.out ++ take (min stop start - c.pos) (ahead c)
  unfolding copied_chunk stop
  out-copied_chunk = elim (Bool-cases (ltb c.pos start)) [
    | inl e ↦
        let piece = take (min stop start - c.pos) (drop (c.pos - c.cs) c.chunk) in
        rw (
          e,
          concat-append c.out (piece ∷ []),
          append-nil piece,
          take-append_le (min stop start - c.pos) (drop (c.pos - c.cs) c.chunk) (concat c.rest)
              (omega (arith, length-drop (c.pos - c.cs) c.chunk)),
        )
    | inr e ↦
        let none_left : min stop start - c.pos ≡ 0 = omega (arith, ltb→le c.pos start e) in
        rw (e, none_left) (sym (append-nil (concat c.out)))
  ]

  -- A cut within the chunk is a cut of the chunk.
  within_chunk :
      (o : ℕ)
      → c.pos ≤ o
      → o ≤ c.cs + length c.chunk
      → Cut c
      → CutAt c o
      → is_char_boundary c.chunk (o - c.cs) ≡ true
  within_chunk o h l a b =
      let e : o - c.cs ≡ c.pos - c.cs + (o - c.pos) = omega arith in
      ap (is_char_boundary c.chunk) e
      ∙ boundary_in_chunk c.chunk (concat c.rest) (c.pos - c.cs) (o - c.pos) (omega arith) a b

  pub Cut-copied_chunk : Cut c → CutAt c end → Cut (copied_chunk start end c)
  unfolding copied_chunk
  Cut-copied_chunk a b = elim (dec_le end (c.cs + length c.chunk)) [
    | yes le ↦
        let e : min end (c.cs + length c.chunk) ≡ end = omega arith in
        ap (λ o. is_char_boundary c.chunk (o - c.cs)) e ∙ within_chunk end before le a b
    | no gt ↦
        let e : min end (c.cs + length c.chunk) - c.cs ≡ length c.chunk = omega arith in
        ap (is_char_boundary c.chunk) e ∙ is_char_boundary-length c.chunk
  ]

  pub copy_chunk-copied_chunk :
      start ≤ end
      → Cut c
      → CutAt c start
      → CutAt c end
      → copy_chunk start end c ≡ some (copied_chunk start end c)
  unfolding copy_chunk copied_chunk
  copy_chunk-copied_chunk h a b b' = elim (Bool-cases (ltb c.pos start)) [
    | inr e ↦ rw e refl
    | inl e ↦
        let lt = ltb→lt c.pos start e in
        let stop = min end (c.cs + length c.chunk) in
        let at_end : is_char_boundary c.chunk (min stop start - c.cs) ≡ true =
          elim (dec_le start (c.cs + length c.chunk)) [
            | yes le ↦
                let k : min stop start ≡ start = omega arith in
                ap (λ o. is_char_boundary c.chunk (o - c.cs)) k
                ∙ within_chunk start (omega arith) le a b
            | no gt ↦
                let k : min stop start - c.cs ≡ length c.chunk = omega arith in
                ap (is_char_boundary c.chunk) k ∙ is_char_boundary-length c.chunk
          ] in
        let size : min stop start - c.cs - (c.pos - c.cs) ≡ min stop start - c.pos = omega arith in
        rw
          (
            e,
            str_slice-some c.chunk (c.pos - c.cs) (min stop start - c.cs) (omega arith) a at_end,
            size,
          )
          refl
  ]

  pub OnChunk-copied_chunk : OnChunk (copied_chunk start end c)
  unfolding copied_chunk
  OnChunk-copied_chunk = omega arith

-- What the step to the next chunk leaves as it was.
abbrev Steps : Copy → Copy → Type 0
Steps c c1 =
    OnChunk c1
    × (c1.pos ≡ c.pos)
    × (c1.out ≡ c.out)
    × (ahead c1 ≡ ahead c)
    × (((c.pos ≡ c.cs + length c.chunk) × (length c1.rest + 1 ≡ length c.rest))
        ⊎ ((c.pos < c.cs + length c.chunk) × (length c1.rest ≡ length c.rest)))

abbrev pub copy_at : List (List ℕ) → List ℕ → ℕ → ℕ → List (List ℕ) → Copy
copy_at rest chunk cs pos out = record { rest = rest; chunk = chunk; cs = cs; pos = pos; out = out }

unfoldable pub Advances : Copy → Type 0
Advances c = (c1 : Copy) × (next_chunk_at_end c ≡ some c1) × Steps c c1 × (Cut c → Cut c1)

at_chunk_end :
    (rest : List (List ℕ)) (chunk : List ℕ) (cs pos : ℕ) (out : List (List ℕ))
    → pos ≡ cs + length chunk
    → (pos == cs + length chunk) ≡ true
    → 0 < length (ahead (copy_at rest chunk cs pos out))
    → Advances (copy_at rest chunk cs pos out)
unfolding next_chunk_at_end Advances
at_chunk_end rest chunk cs pos out at_end e = by_rest rest
  where
    read : drop (pos - cs) chunk ≡ []
    read = let k : pos - cs ≡ length chunk = omega arith in rw k (drop-length chunk)

    by_rest :
        (rest : List (List ℕ))
        → 0 < length (ahead (copy_at rest chunk cs pos out))
        → Advances (copy_at rest chunk cs pos out)
    by_rest [] some_left =
        absurd (omega (arith, ap length read, length-append (drop (pos - cs) chunk) []))
    by_rest (next ∷ rest) some_left =
        let here : pos - (cs + length chunk) ≡ 0 = omega arith in
        (
          copy_at rest next (cs + length chunk) pos out,
          rw e,
          (omega arith, refl, refl, rw (here, read), inl (at_end, omega arith)),
          λ cut. ap (is_char_boundary next) here ∙ is_char_boundary-zero next,
        )

-- While text is ahead there is a chunk to read.
pub next_chunk_lem : (c : Copy) → OnChunk c → 0 < length (ahead c) → Advances c
unfolding next_chunk_at_end Advances
next_chunk_lem c on some_left = elim (Bool-cases (c.pos == c.cs + length c.chunk)) [
  | inl e ↦
      at_chunk_end c.rest c.chunk c.cs c.pos c.out ((==_iff c.pos (c.cs + length c.chunk)).0 e) e
        some_left
  | inr e ↦ (c, rw e, (on, refl, refl, refl, inr (ground (arith, e), refl)), λ cut. cut)
]
