-- ===== src/Transaction/Prepared.antt =====
-- Ops that are prepared already, clipped, sorted and disjoint, are committed as they are; so are the
-- inverse ops of a commit after it, and its forward ops before it.
use matcha.Common.{
  ℕ, ◌+◌, ◌-◌, ◌<◌, ◌≡◌, refl, sym, ap, ap₂, subst, ◌∙◌, Option, none, some, List, [], ◌∷◌, map,
  length, take, drop, u32_mod, u32_max, arith, length-take, length-drop,
}
use mathlib.Core.Path.{subst₂}
use matcha.Coords.Snap.{is_char_boundary-zero}
use matcha.Patch.{Range, Edit}
use matcha.Text.{Splice, splice, unsplice, spliced_length, Disjoint}
use matcha.Text.Inverse.{Disjoint-le, splice-unsplice, Disjoint-unsplice, length-splice}
use matcha.Text.Splices.{inserted, inserted-unsplice, spliced_length-removed}
use matcha.Ropey.{Ropey}
use matcha.Buffer.{Buffer}
use matcha.Buffer.Edits.{content}
use matcha.Transaction.{
  EditOp, Committed, Outcome, ok, empty_committed, sort_ops, find_overlap, post_len, batch, commit,
  apply,
}
use matcha.Transaction.Normal.{AllClipped, total_text, Disjoint-batch, inserted-batch}
use matcha.Transaction.Chain.{patch_of, to_op, post_len-spliced}
use matcha.Transaction.Fixed.{
  AllLf, AllLf-unsplice, batch-to_op, sort_ops_fixed, find_overlap_fixed, clip_ops_fixed,
  AllClipped-unsplice,
}
use matcha.Transaction.Apply.{IsDocument, Applied, commit-Applied}
use matcha.Patch.Order.{mirror}

mirror-patch_of :
    (ops : List Splice) (at now len : ℕ) (t : List ℕ)
    → Disjoint at len ops
    → at + length t ≡ len
    → patch_of now at (unsplice at now ops t) ≡ mirror (patch_of at now ops)
unfolding patch_of unsplice
mirror-patch_of [] at now len t d h = refl
mirror-patch_of ((r, x) ∷ ops) at now len t d h =
    let inside = Disjoint-le ops r.end len d.2 in
    let start = now + (r.start - at) in
    let old = take (r.end - r.start) (drop (r.start - at) t) in
    let s : at + (start - now) ≡ r.start = omega arith in
    let e : at + (start - now) + length old ≡ r.end = omega (
      arith,
      length-take (r.end - r.start) (drop (r.start - at) t),
      length-drop (r.start - at) t,
    ) in
    ap₂
      (λ (n : Range) (es : List Edit).
        (let edit : Edit = record {
          old = record { start = start; end = start + length x };
          new = n;
        } in
          edit)
        ∷ es)
      (λ i. record { start = s i; end = e i })
      (ap
          (λ n.
            patch_of (start + length x) n
              (unsplice r.end (start + length x) ops (drop (r.end - at) t)))
          e
        ∙ mirror-patch_of ops r.end (start + length x) len (drop (r.end - at) t) d.2
            (omega (arith, length-drop (r.end - at) t)))

some_inverse :
    (op : EditOp) (ops : List EditOp) (t : List ℕ)
    → 0 < length (map to_op (unsplice 0 0 (batch (op ∷ ops)) t))
unfolding unsplice
some_inverse op ops t = omega arith

module _ (R : Ropey) where
  -- Ops that are clipped, disjoint and fit are committed as they are.
  pub apply-prepared :
      (b : Buffer R) (op : EditOp) (ops : List EditOp)
      → IsDocument R b
      → AllClipped (content R b) (op ∷ ops)
      → AllLf (op ∷ ops)
      → Disjoint 0 (length (content R b)) (batch (op ∷ ops))
      → length (content R b) + total_text (op ∷ ops) < u32_mod
      → spliced_length 0 (length (content R b)) (batch (op ∷ ops)) < u32_max
      → (b' : Buffer R) × (c : Committed) × (apply R b (op ∷ ops) ≡ some (b', ok c))
        × Applied R b (op ∷ ops) b' c
  unfolding apply
  apply-prepared b op ops v cs lf d room short =
      let l = op ∷ ops in
      let len = length (content R b) in
      let size : post_len b.text.len l ≡ spliced_length 0 len (batch l) =
        ap (λ n. post_len n l) v.buffer.len_lem
        ∙ post_len-spliced l len d (omega (arith, inserted-batch l)) in
      let (b', c, e, a) =
        commit-Applied R b l v cs lf room (find_overlap_fixed l 0 len d)
          (rw size (unfold commit in ground arith)) in
      (
        b',
        c,
        ap (after_clip b) (clip_ops_fixed R b v.buffer l cs lf)
            ∙ ap (commit R b) (sort_ops_fixed l 0 len d)
            ∙ e,
        a,
      )
    where
      after_clip : Buffer R → List EditOp → Option (Buffer R × Outcome)
      after_clip b l = elim l [
        | [] ↦ some (b, ok empty_committed)
        | op ∷ norm ↦ commit R b (sort_ops (op ∷ norm))
      ]

  prepared_list :
      (b : Buffer R) (l : List EditOp)
      → 0 < length l
      → IsDocument R b
      → AllClipped (content R b) l
      → AllLf l
      → Disjoint 0 (length (content R b)) (batch l)
      → length (content R b) + total_text l < u32_mod
      → spliced_length 0 (length (content R b)) (batch l) < u32_max
      → (b' : Buffer R) × (c : Committed) × (apply R b l ≡ some (b', ok c)) × Applied R b l b' c
  prepared_list b [] some_op v cs lf d room short = absurd (omega arith)
  prepared_list b (op ∷ ops) some_op v cs lf d room short =
      apply-prepared b op ops v cs lf d room short

  -- What the ops of a committed batch do again, on any document that holds the text they expect.
  pub replay_inverse :
      (b b2 : Buffer R) (op : EditOp) (ops : List EditOp)
      → IsDocument R b
      → AllClipped (content R b) (op ∷ ops)
      → find_overlap (op ∷ ops) ≡ none
      → length (content R b) + total_text (op ∷ ops) < u32_mod
      → IsDocument R b2
      → content R b2 ≡ splice 0 (batch (op ∷ ops)) (content R b)
      → (b'' : Buffer R) × (c'' : Committed) × (apply R b2
            (map to_op (unsplice 0 0 (batch (op ∷ ops)) (content R b)))
          ≡ some (b'', ok c''))
        × IsDocument R b''
        × (content R b'' ≡ content R b)
        × (c''.patch.edits ≡ mirror (patch_of 0 0 (batch (op ∷ ops))))
  replay_inverse b b2 op ops v cs apart room v2 text2 =
      let t = content R b in
      let l = batch (op ∷ ops) in
      let len = length t in
      let back = unsplice 0 0 l t in
      let d = Disjoint-batch t (op ∷ ops) cs apart in
      let size : length (content R b2) ≡ spliced_length 0 len l =
        ap length text2 ∙ length-splice l 0 len t d (omega arith) in
      let d' = Disjoint-unsplice l 0 0 len t d (omega arith) in
      let same = batch-to_op back in
      let balance = spliced_length-removed l 0 len d in
      let puts = inserted-unsplice l 0 0 len t d (omega arith) in
      let cs' =
        subst (λ (u : List ℕ). AllClipped u (map to_op back)) (sym text2)
          (AllClipped-unsplice (op ∷ ops) 0 0 t [] refl cs d v.buffer.starts
            (is_char_boundary-zero t)) in
      let d'' : Disjoint 0 (length (content R b2)) (batch (map to_op back)) =
        subst₂ (λ n (o : List Splice). Disjoint 0 n o) (omega arith) (sym same) d' in
      let restored : splice 0 (batch (map to_op back)) (content R b2) ≡ t =
        ap₂ (λ (o : List Splice) (u : List ℕ). splice 0 o u) same text2
        ∙ splice-unsplice l 0 0 len t d (omega arith) in
      let again =
        length-splice (batch (map to_op back)) 0 (length (content R b2)) (content R b2) d''
          (omega arith) in
      let (b'', c'', e, u) =
        prepared_list b2 (map to_op back) (some_inverse op ops t) v2 cs'
          (AllLf-unsplice l 0 0 t v.lf_only) d''
          (omega
            (arith, inserted-batch (map to_op back), ap inserted same, inserted-batch (op ∷ ops)))
          (omega (arith, again, ap length restored, v.bounded)) in
      (
        b'',
        c'',
        e,
        u.document,
        u.text ∙ restored,
        u.edits ∙ ap (patch_of 0 0) same ∙ mirror-patch_of l 0 0 len t d (omega arith),
      )

  pub replay_forward :
      (b b2 : Buffer R) (op : EditOp) (ops : List EditOp)
      → AllClipped (content R b) (op ∷ ops)
      → AllLf (op ∷ ops)
      → find_overlap (op ∷ ops) ≡ none
      → length (content R b) + total_text (op ∷ ops) < u32_mod
      → length (splice 0 (batch (op ∷ ops)) (content R b)) < u32_max
      → IsDocument R b2
      → content R b2 ≡ content R b
      → (b'' : Buffer R) × (c'' : Committed) × (apply R b2 (op ∷ ops) ≡ some (b'', ok c''))
        × IsDocument R b''
        × (content R b'' ≡ splice 0 (batch (op ∷ ops)) (content R b))
        × (c''.patch.edits ≡ patch_of 0 0 (batch (op ∷ ops)))
  replay_forward b b2 op ops cs lf apart room short v2 text2 =
      let t = content R b in
      let l = op ∷ ops in
      let d = Disjoint-batch t l cs apart in
      let cs' = subst (λ (u : List ℕ). AllClipped u l) (sym text2) cs in
      let d' = subst (λ (u : List ℕ). Disjoint 0 (length u) (batch l)) (sym text2) d in
      let size = length-splice (batch l) 0 (length t) t d (omega arith) in
      let fits : spliced_length 0 (length (content R b2)) (batch l)
          ≡ spliced_length 0 (length t) (batch l) =
        ap (λ (u : List ℕ). spliced_length 0 (length u) (batch l)) text2 in
      let (b'', c'', e, u) =
        apply-prepared b2 op ops v2 cs' lf d' (omega (arith, ap length text2))
          (omega (arith, size, fits, short)) in
      (b'', c'', e, u.document, u.text ∙ ap (splice 0 (batch l)) text2, u.edits)
