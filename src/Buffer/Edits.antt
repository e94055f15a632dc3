-- ===== src/Buffer/Edits.antt =====
-- A buffer's edits and reads, on the text that it holds.
use matcha.Common.{
  ℕ, ◌-◌, ◌≤◌, ◌≡◌, refl, ap, ap₂, ◌∙◌, Option, none, some, List, [], ◌∷◌, ◌++◌, length, take, drop,
  min, true, arith,
}
use matcha.Coords.{Bias, snap_char_boundary, is_char_boundary}
use matcha.Patch.{Range}
use matcha.Text.{Splice, splice, bytes_in}
use matcha.Ropey.{Ropey}
use matcha.Rope.{Rope}
use matcha.Rope.Edits.{IsRope, IsBatch, view, view-replace, view-edit_many}
use matcha.Rope.Clips.{clip_in-snap}
use matcha.Rope.Reads.{slice-bytes}
use matcha.Buffer.{Buffer, clip_offset, buffer_slice, buffer_splice, buffer_edit_many}

module _ (R : Ropey) where
  abbrev pub content : Buffer R → List ℕ
  content b = view R b.text

  abbrev pub IsBuffer : Buffer R → Type 0
  IsBuffer b = IsRope R b.text

  pub clip_offset-snap :
      (b : Buffer R) (offset : ℕ) (bias : Bias)
      → IsBuffer b
      → clip_offset R b offset bias ≡ snap_char_boundary (content b) offset bias
  unfolding clip_offset
  clip_offset-snap b offset bias v = clip_in-snap R b.text v offset bias

  pub buffer_slice-bytes :
      (b : Buffer R) (range : Range)
      → IsBuffer b
      → range.start ≤ range.end
      → range.end ≤ length (content b)
      → is_char_boundary (content b) range.start ≡ true
      → is_char_boundary (content b) range.end ≡ true
      → buffer_slice R b range ≡ some (bytes_in range (content b))
  unfolding buffer_slice
  buffer_slice-bytes b range v h k at_start at_end =
      let low : min range.start (min range.end (length (content b))) ≡ range.start = omega arith in
      let high : min range.end (length (content b)) ≡ range.end = omega arith in
      slice-bytes R b.text v range (ap (is_char_boundary (content b)) low ∙ at_start)
        (ap (is_char_boundary (content b)) high ∙ at_end)
      ∙ ap₂ (λ s e. let o : Option (List ℕ) = some (take (e - s) (drop s (content b))) in o) low
          high

  -- On a well-formed buffer and for a proper batch (ascending, disjoint, in bounds, on char
  -- boundaries, `&str` texts, room below 2 ^ 32), `edit_many` does not panic for no edit, one or
  -- several: the buffer is well formed again, its text is the one splice of the batch, and the
  -- revision stays.
  pub content-buffer_edit_many :
      (b : Buffer R) (ops : List Splice)
      → IsBuffer b
      → IsBatch R (content b) ops
      → (b' : Buffer R) × (buffer_edit_many R b ops ≡ some b')
        × IsBuffer b'
        × (content b' ≡ splice 0 ops (content b))
        × (b'.revision ≡ b.revision)
  unfolding buffer_edit_many buffer_splice splice
  content-buffer_edit_many b [] v k = (b, refl, v, refl, refl)
  content-buffer_edit_many b ((range, text) ∷ []) v k =
      let (v', e) =
        view-replace R b.text range v k.disjoint.1 k.disjoint.2 k.boundaries.0 k.boundaries.1 text
          k.texts.0 (omega (arith, k.room)) in
      (
        buffer_splice R b range text,
        refl,
        v',
        e
            ∙ ap₂ (λ n m. take n (content b) ++ (text ++ drop m (content b))) (omega arith)
                (omega arith),
        refl,
      )
  content-buffer_edit_many b (e ∷ f ∷ edits) v k =
      let (r', done, v', text') = view-edit_many R b.text (e ∷ f ∷ edits) v k in
      (
        record b { text = r' },
        ap
            (λ (o : Option (Rope R)). elim o [
              | none ↦ none
              | some text ↦ some (record b { text = text })
            ])
            done,
        v',
        text',
        refl,
      )
