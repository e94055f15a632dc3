-- ===== src/Transaction/Apply.antt =====
-- What `apply` does to a document: it refuses and changes nothing, or commits one splice whose
-- inverse ops take it back.
use matcha.Common.{
  ◌+◌, ◌<◌, ◌≡◌, refl, sym, ap, subst, ◌∙◌, inl, inr, false, Option, none, some, List, [], ◌∷◌, map,
  length, leb, leb→lt, u32_mod, u32_max, arith, Bool-cases, Option-cases, ◌≤◌, ◌^◌, leb→le, true, ℕ,
}
use matcha.Common.Int.{pos}
use matcha.Patch.{Range, Edit, Patch}
use matcha.Patch
use matcha.Text.{splice, unsplice, spliced_length}
use matcha.Text.Inverse.{length-splice}
use matcha.Ropey.{Ropey}
use matcha.Buffer.{Buffer, contains_cr, buffer_edit_many, bump_revision}
use matcha.Buffer.Edits.{content, IsBuffer, content-buffer_edit_many}
use matcha.Buffer.Eol.{contains_cr-normalize_eol}
use matcha.Transaction.{
  EditOp, Committed, overlap, would_overflow, Outcome, ok, err, empty_committed, sort_ops,
  insert_op, find_overlap, post_len, batch, clip_ops, chain, commit, apply, is_no_op,
}
use matcha.Transaction.Normal.{
  AllClipped, AllStr, total_text, IsBatch-batch, Disjoint-batch, clip_ops-AllClipped,
  AllClipped-sort_ops, total_text-sort_ops, inserted-batch, clip_ops-cons, clipped,
}
use matcha.Transaction.Chain.{patch_of, to_op, chain-batch, post_len-spliced}
use matcha.Transaction.Fixed.{AllLf, contains_cr-splice}

AllLf-insert_op :
    (op : EditOp) (l : List EditOp) → contains_cr op.text ≡ false → AllLf l → AllLf (insert_op op l)
unfolding insert_op
AllLf-insert_op op [] h hs = (h, tt)
AllLf-insert_op op (o ∷ l) h hs = elim (Bool-cases (leb op.range.start o.range.start)) [
  | inl e ↦ rw e (h, hs)
  | inr e ↦ rw e (hs.0, AllLf-insert_op op l h hs.1)
]

AllLf-sort_ops : (ops : List EditOp) → AllLf ops → AllLf (sort_ops ops)
unfolding sort_ops
AllLf-sort_ops [] h = tt
AllLf-sort_ops (op ∷ ops) (h, hs) = AllLf-insert_op op (sort_ops ops) h (AllLf-sort_ops ops hs)

module _ (R : Ropey) where
  -- The invariant of a document's buffer.
  pub record IsDocument (b : Buffer R) : Type 0 where
    pub buffer : IsBuffer R b
    pub bounded : length (content R b) < u32_max
    pub lf_only : contains_cr (content R b) ≡ false

  -- What a committed transaction has done.
  pub record Applied (b : Buffer R) (norm : List EditOp) (b' : Buffer R) (c : Committed)
      : Type 0 where
    pub document : IsDocument b'
    pub text : content R b' ≡ splice 0 (batch norm) (content R b)
    pub revision : b'.revision ≡ b.revision + 1
    pub forward : c.forward ≡ norm
    pub inverse : c.inverse ≡ map to_op (unsplice 0 0 (batch norm) (content R b))
    pub edits : c.patch.edits ≡ patch_of 0 0 (batch norm)

  commit_accepts :
      (b b' : Buffer R) (norm : List EditOp) (patch : Patch) (inverse : List EditOp)
      → find_overlap norm ≡ none
      → leb u32_max (post_len b.text.len norm) ≡ false
      → buffer_edit_many R b (batch norm) ≡ some b'
      → chain R b norm (pos 0) Patch.new [] ≡ some (patch, inverse)
      → commit R b norm
        ≡ some
            (bump_revision R b', ok (record { patch = patch; inverse = inverse; forward = norm }))
  unfolding commit
  commit_accepts b b' norm patch inverse a l e k = ground (arith, a, l, e, k)

  -- The overflow guard reads the length that the text would have.
  post_len_lem :
      (b : Buffer R) (norm : List EditOp)
      → IsDocument b
      → AllClipped (content R b) norm
      → find_overlap norm ≡ none
      → length (content R b) + total_text norm < 2 ^ 64
      → post_len b.text.len norm ≡ spliced_length 0 (length (content R b)) (batch norm)
  post_len_lem b norm v cs apart room =
      ap (λ n. post_len n norm) v.buffer.len_lem
      ∙ post_len-spliced norm (length (content R b)) (Disjoint-batch (content R b) norm cs apart)
          (omega (arith, inserted-batch norm))

  module _ (b : Buffer R) (norm : List EditOp) (v : IsDocument b)
      (cs : AllClipped (content R b) norm) (lf : AllLf norm)
      (room : length (content R b) + total_text norm < u32_mod) where
    -- Without an overlap and an overflow the batch is committed.
    pub commit-Applied :
        find_overlap norm ≡ none
        → leb u32_max (post_len b.text.len norm) ≡ false
        → (b' : Buffer R) × (c : Committed) × (commit R b norm ≡ some (b', ok c))
          × Applied b norm b' c
    unfolding bump_revision
    commit-Applied apart small =
        let t = content R b in
        let d = Disjoint-batch t norm cs apart in
        let (b', done, v', text', rev') =
          content-buffer_edit_many R b (batch norm) v.buffer
            (IsBatch-batch R t norm cs apart room) in
        let size = length-splice (batch norm) 0 (length t) t d (omega arith) in
        let fits : post_len b.text.len norm ≡ spliced_length 0 (length t) (batch norm) =
          post_len_lem b norm v cs apart (omega arith) in
        let short = leb→lt u32_max (post_len b.text.len norm) small in
        let chained =
          chain-batch R b v.buffer norm 0 0 (pos 0) Patch.new [] d
            (IsBatch-batch R t norm cs apart room).boundaries (omega arith) (omega arith) in
        (
          bump_revision R b',
          record {
            patch = record { edits = patch_of 0 0 (batch norm) };
            inverse = map to_op (unsplice 0 0 (batch norm) t);
            forward = norm;
          },
          commit_accepts b b' norm _ _ apart small done chained,
          record {
            document = record {
              buffer = v';
              bounded = omega (arith, ap length text');
              lf_only = ap contains_cr text' ∙ contains_cr-splice norm 0 t lf v.lf_only;
            };
            text = text';
            revision = ap (λ n. n + 1) rev';
            forward = refl;
            inverse = refl;
            edits = refl;
          },
        )

  pub clip_ops-AllLf : (b : Buffer R) (ops : List EditOp) → AllLf (clip_ops R b ops)
  clip_ops-AllLf b [] = unfold clip_ops in tt
  clip_ops-AllLf b (op ∷ ops) =
      subst AllLf (sym (clip_ops-cons R b op ops)) (elim (Bool-cases (is_no_op (clipped R b op))) [
        | inl e ↦ rw e (clip_ops-AllLf b ops)
        | inr e ↦ rw e (contains_cr-normalize_eol op.text, clip_ops-AllLf b ops)
      ])

  -- All that `apply` can come to, where the proper ops in order are `norm`.
  pub data Done (b : Buffer R) (norm : List EditOp) : Option (Buffer R × Outcome) → Type 0 where
    nothing : norm ≡ [] → Done b norm (some (b, ok empty_committed))
    overlapping :
        (first second : Range)
        → find_overlap norm ≡ some (first, second)
        → Done b norm (some (b, err (overlap first second)))
    overflowing :
        find_overlap norm ≡ none
        → u32_max ≤ spliced_length 0 (length (content R b)) (batch norm)
        → Done b norm
            (some (b, err (would_overflow (spliced_length 0 (length (content R b)) (batch norm)))))
    applied :
        (b' : Buffer R) (c : Committed)
        → AllClipped (content R b) norm
        → AllLf norm
        → find_overlap norm ≡ none
        → length (content R b) + total_text norm < u32_mod
        → Applied b norm b' c
        → Done b norm (some (b', ok c))

  commit_overflows :
      (b : Buffer R) (norm : List EditOp)
      → find_overlap norm ≡ none
      → leb u32_max (post_len b.text.len norm) ≡ true
      → commit R b norm ≡ some (b, err (would_overflow (post_len b.text.len norm)))
  unfolding commit
  commit_overflows b norm apart big = ground (arith, apart, big)

  commit-Done :
      (b : Buffer R) (norm : List EditOp)
      → IsDocument b
      → AllClipped (content R b) norm
      → AllLf norm
      → length (content R b) + total_text norm < u32_mod
      → Done b norm (commit R b norm)
  commit-Done b norm v cs lf room = elim (Option-cases (find_overlap norm)) [
    | inr found ↦
        let e : commit R b norm ≡ some (b, err (overlap found.0.0 found.0.1)) =
          unfold commit in ground (arith, found.1) in
        rw e (overlapping found.0.0 found.0.1 found.1)
    | inl apart ↦ elim (Bool-cases (leb u32_max (post_len b.text.len norm))) [
      | inl big ↦
          let l = post_len_lem b norm v cs apart (omega arith) in
          rw (commit_overflows b norm apart big) (
            rw l
              (overflowing apart (omega (arith, leb→le u32_max (post_len b.text.len norm) big, l))))
      | inr small ↦
          let (b', c, e, a) = commit-Applied b norm v cs lf room apart small in
          rw e (applied b' c cs lf apart room a)
    ]
  ]

  Done-sort_ops :
      (b : Buffer R) (ops : List EditOp)
      → IsDocument b
      → AllClipped (content R b) ops
      → AllLf ops
      → length (content R b) + total_text ops < u32_mod
      → Done b (sort_ops ops) (elim ops [
        | [] ↦ some (b, ok empty_committed)
        | op ∷ norm ↦ commit R b (sort_ops (op ∷ norm))
      ])
  Done-sort_ops b [] v cs lf room = nothing (unfold sort_ops in refl)
  Done-sort_ops b (op ∷ ops) v cs lf room =
      commit-Done b (sort_ops (op ∷ ops)) v (AllClipped-sort_ops (content R b) (op ∷ ops) cs)
        (AllLf-sort_ops (op ∷ ops) lf) (omega (arith, total_text-sort_ops (op ∷ ops)))

  -- On a document, with ops whose texts are `&str` and fit a u32 together with the document, `apply`
  -- never panics. It answers by the sorted proper ops: it does nothing where there are none; it
  -- refuses, with the buffer as it was, the first two that overlap, or else a length of `u32::MAX` or
  -- more; and otherwise it commits. Then the text is the one splice of the batch, again a document,
  -- the revision is one further, and patch, inverse and forward ops are those of the batch.
  pub apply-Done :
      (b : Buffer R) (ops : List EditOp)
      → IsDocument b
      → AllStr ops
      → length (content R b) + total_text ops < u32_mod
      → Done b (sort_ops (clip_ops R b ops)) (apply R b ops)
  unfolding apply
  apply-Done b ops v s room =
      let (cs, shorter) = clip_ops-AllClipped R b ops v.buffer s in
      Done-sort_ops b (clip_ops R b ops) v cs (clip_ops-AllLf b ops) (omega arith)

  -- The refusal of a batch for the length that it would give.
  abbrev pub too_large : Buffer R → List EditOp → Option (Buffer R × Outcome)
  too_large b norm =
      some (b, err (would_overflow (spliced_length 0 (length (content R b)) (batch norm))))

  too_large_by_ops :
      (b : Buffer R) (ops : List EditOp)
      → IsDocument b
      → AllClipped (content R b) ops
      → length (content R b) + total_text ops < 2 ^ 64
      → find_overlap (sort_ops ops) ≡ none
      → u32_max ≤ spliced_length 0 (length (content R b)) (batch (sort_ops ops))
      → too_large b (sort_ops ops) ≡ elim ops [
        | [] ↦ some (b, ok empty_committed)
        | op ∷ norm ↦ commit R b (sort_ops (op ∷ norm))
      ]
  too_large_by_ops b [] v cs room apart big =
      absurd (unfold sort_ops spliced_length in omega (arith, big, v.bounded))
  too_large_by_ops b (op ∷ ops) v cs room apart big =
      let norm = sort_ops (op ∷ ops) in
      let l =
        post_len_lem b norm v (AllClipped-sort_ops (content R b) (op ∷ ops) cs) apart
          (omega (arith, total_text-sort_ops (op ∷ ops))) in
      ap (λ n. let r : Option (Buffer R × Outcome) = some (b, err (would_overflow n)) in r) (sym l)
      ∙ sym (
          commit_overflows b norm apart
            (leb_big (post_len b.text.len norm) (omega (arith, l, big))))
    where
      leb_big : (n : ℕ) → u32_max ≤ n → leb u32_max n ≡ true
      leb_big n h = ground arith

  -- On a document, ops whose texts are `&str` of less than 2 ^ 64 bytes in all, document included,
  -- and of which the proper ones do not overlap, are refused with `WouldOverflow` and the buffer as
  -- it was if the text would grow to `u32::MAX` bytes or more; the error tells that length.
  pub apply-would_overflow :
      (b : Buffer R) (ops : List EditOp)
      → IsDocument b
      → AllStr ops
      → length (content R b) + total_text ops < 2 ^ 64
      → find_overlap (sort_ops (clip_ops R b ops)) ≡ none
      → u32_max ≤ spliced_length 0 (length (content R b)) (batch (sort_ops (clip_ops R b ops)))
      → apply R b ops ≡ too_large b (sort_ops (clip_ops R b ops))
  unfolding apply
  apply-would_overflow b ops v s room apart big =
      let (cs, shorter) = clip_ops-AllClipped R b ops v.buffer s in
      sym (too_large_by_ops b (clip_ops R b ops) v cs (omega arith) apart big)
