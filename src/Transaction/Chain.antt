-- ===== src/Transaction/Chain.antt =====
-- Step (4): the chained patch and inverse are those of the batch.
use matcha.Common.{
  ℕ, Option, none, some, ◌+◌, ◌-◌, ◌<◌, ◌≡◌, sym, ap, ap₂, ◌∙◌, List, [], ◌∷◌, ◌++◌, append-nil,
  append_assoc, map, length, take, drop, add_u32, u32_mod, arith, drop-drop, ◌^◌,
}
use matcha.Common.Int.{
  ℤ, pos, ◌+ℤ◌, ◌-ℤ◌, pos_part, neg_part, as_u32, as_u32_fits, as_u64_fits, +ℤ_parts, -ℤ_parts,
}
use matcha.Patch.{Edit, Patch, push}
use matcha.Patch.Spec.{Chained}
use matcha.Text.Boundary.{AtBoundaries}
use matcha.Text.{Splice, Disjoint, unsplice, spliced_length}
use matcha.Text.Inverse.{Disjoint-le}
use matcha.Text.Splices.{removed, inserted, spliced_length-removed}
use matcha.Ropey.{Ropey}
use matcha.Buffer.{Buffer, buffer_slice}
use matcha.Buffer.Edits.{content, IsBuffer, buffer_slice-bytes}
use matcha.Transaction.{EditOp, batch, chain, length_delta, post_len}

-- The patch of a batch: `at` in the old text is `now` in the new one.
unfoldable pub patch_of : ℕ → ℕ → List Splice → List Edit
patch_of at now [] = []
patch_of at now ((r, x) ∷ ops) =
    let start = now + (r.start - at) in
    record { old = r; new = record { start = start; end = start + length x } }
    ∷ patch_of r.end (start + length x) ops

pub patch_of-Chained :
    (ops : List Splice) (at now len : ℕ)
    → Disjoint at len ops
    → Chained at now (patch_of at now ops)
unfolding patch_of
patch_of-Chained [] at now len d = tt
patch_of-Chained ((r, x) ∷ ops) at now len d = (
  d.0,
  d.1,
  omega arith,
  omega arith,
  patch_of-Chained ops r.end (now + (r.start - at) + length x) len d.2,
)

abbrev pub to_op : Splice → EditOp
to_op (r, x) = record { range = r; text = x }

module _ (R : Ropey) (b : Buffer R) (v : IsBuffer R b) where
  -- On a well-formed buffer, for ops that ascend and are disjoint, in bounds and on char boundaries from `at` on,
  -- where the running delta takes `at` to `now` and the new text's end fits a u32: step (4) adds
  -- to the patch and to the inverse ops so far those of the batch, with the replaced bytes read
  -- from the buffer.
  pub chain-batch :
      (ops : List EditOp) (at now : ℕ) (delta : ℤ) (patch : Patch) (inverse : List EditOp)
      → Disjoint at (length (content R b)) (batch ops)
      → AtBoundaries (content R b) (batch ops)
      → pos_part delta + at ≡ now + neg_part delta
      → now + spliced_length at (length (content R b)) (batch ops) < u32_mod
      → chain R b ops delta patch inverse
        ≡ some (
          record { edits = patch.edits ++ patch_of at now (batch ops) },
          inverse ++ map to_op (unsplice at now (batch ops) (drop at (content R b))),
        )
  unfolding chain patch_of unsplice spliced_length push
  chain-batch [] at now delta patch inverse d bs q f =
      ap₂
        (λ (es : List Edit) (is : List EditOp).
          let p : Option (Patch × List EditOp) = some (record { edits = es }, is) in p)
        (sym (append-nil patch.edits)) (sym (append-nil inverse))
  chain-batch (op ∷ ops) at now delta patch inverse d bs q f =
      let t = content R b in
      let s = op.range.start in
      let e = op.range.end in
      let x = op.text in
      let start = now + (s - at) in
      let inside = Disjoint-le (batch ops) e (length t) d.2 in
      let delta' = delta +ℤ (pos (length x) -ℤ (pos e -ℤ pos s)) in
      let chain_from = λ (ns : ℕ) (ne : ℕ) (o : Option (List ℕ)).
        let r : Option (Patch × List EditOp) = elim o [
          | none ↦ none
          | some old ↦
              chain R b ops delta'
                (push patch (record { old = op.range; new = record { start = ns; end = ne } }))
                (inverse ++ (record { range = record { start = ns; end = ne }; text = old }) ∷ [])
        ] in
        r in
      let ns_lem : as_u32 (pos s +ℤ delta) ≡ start =
        as_u32_fits (pos s +ℤ delta) start (omega (arith, +ℤ_parts (pos s) delta)) (omega arith) in
      let ne_lem : add_u32 start (length x) ≡ start + length x = omega arith in
      let old_lem : buffer_slice R b op.range ≡ some (take (e - s) (drop (s - at) (drop at t))) =
        buffer_slice-bytes R b op.range v d.1 inside bs.0 bs.1
        ∙ sym (
            ap (λ (u : List ℕ). let o : Option (List ℕ) = some (take (e - s) u) in o)
              (drop-drop (s - at) at t ∙ ap (λ n. drop n t) (omega arith))) in
      let rest_lem : drop (e - at) (drop at t) ≡ drop e t =
        drop-drop (e - at) at t ∙ ap (λ n. drop n t) (omega arith) in
      let ops_lem =
        chain-batch ops e (start + length x) delta'
          (push patch
            (record { old = op.range; new = record { start = start; end = start + length x } }))
          (inverse
            ++ (record {
              range = record { start = start; end = start + length x };
              text = take (e - s) (drop (s - at) (drop at t));
            })
              ∷ [])
          d.2 bs.2
          (omega (
            arith,
            +ℤ_parts delta (pos (length x) -ℤ (pos e -ℤ pos s)),
            -ℤ_parts (pos (length x)) (pos e -ℤ pos s),
            -ℤ_parts (pos e) (pos s),
          ))
          (omega arith) in
      ap₂ (λ ns (old : Option (List ℕ)). chain_from ns (add_u32 ns (length x)) old) ns_lem old_lem
      ∙ ap (λ ne. chain_from start ne (some (take (e - s) (drop (s - at) (drop at t))))) ne_lem
      ∙ ops_lem
      ∙ ap₂
          (λ (es : List Edit) (is : List EditOp).
            let p : Option (Patch × List EditOp) = some (record { edits = es }, is) in p)
          (append_assoc patch.edits _ (patch_of e (start + length x) (batch ops)))
          (append_assoc inverse _ (map to_op (unsplice e (start + length x) (batch ops) (drop e t)))
            ∙ ap
                (λ (u : List ℕ).
                  inverse
                  ++ (record {
                    range = record { start = start; end = start + length x };
                    text = take (e - s) (drop (s - at) (drop at t));
                  })
                    ∷ map to_op (unsplice e (start + length x) (batch ops) u))
                (sym rest_lem))

length_delta_parts :
    (ops : List EditOp) (at len : ℕ)
    → Disjoint at len (batch ops)
    → pos_part (length_delta ops) + removed (batch ops)
      ≡ inserted (batch ops) + neg_part (length_delta ops)
unfolding length_delta
length_delta_parts [] at len d = omega arith
length_delta_parts (op ∷ ops) at len d =
    let gone = pos op.range.end -ℤ pos op.range.start in
    let net = pos (length op.text) -ℤ gone in
    omega (
      arith,
      d.1,
      length_delta_parts ops op.range.end len d.2,
      -ℤ_parts (pos op.range.end) (pos op.range.start),
      -ℤ_parts (pos (length op.text)) gone,
      +ℤ_parts net (length_delta ops),
    )

-- For ops that ascend, are disjoint and within a text of `len` bytes, with `len` and all inserted
-- bytes together below 2 ^ 64, `post_len` computes the length of the spliced text.
pub post_len-spliced :
    (ops : List EditOp) (len : ℕ)
    → Disjoint 0 len (batch ops)
    → len + inserted (batch ops) < 2 ^ 64
    → post_len len ops ≡ spliced_length 0 len (batch ops)
unfolding post_len
post_len-spliced ops len d f =
    as_u64_fits (pos len +ℤ length_delta ops) (spliced_length 0 len (batch ops))
      (omega (
        arith,
        +ℤ_parts (pos len) (length_delta ops),
        length_delta_parts ops 0 len d,
        spliced_length-removed (batch ops) 0 len d,
      ))
      (omega (arith, spliced_length-removed (batch ops) 0 len d))
