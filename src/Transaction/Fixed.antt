-- ===== src/Transaction/Fixed.antt =====
-- Ops that are clipped, sorted and disjoint already pass steps (1) to (3) unchanged, and the inverse
-- ops of a transaction are such ops.
use matcha.Common.{
  ℕ, zero, suc, ◌+◌, ◌-◌, ◌≤◌, ◌≡◌, refl, sym, ap, subst, ◌∙◌, Bool, true, false, none, List, [],
  ◌∷◌, ◌++◌, append_assoc, map, length, take, drop, min, max, leb, if◌then◌else◌, arith,
  length-append, length-take, length-drop,
}
use mathlib.Core.Path.{subst₂}
use matcha.Coords.{left, right, is_char_boundary, StartsChar}
use matcha.Coords.Snap.{snap_char_boundary_fixed}
use matcha.Text.{Splice, splice, unsplice, Disjoint}
use matcha.Text.Inverse.{Disjoint-le}
use matcha.Text.Boundary.{
  StartsChar-drop, StartsChar-take, StartsChar-append, is_char_boundary-append_at,
}
use matcha.Text.Splices.{StartsChar-splice, drop-to}
use matcha.Ropey.{Ropey}
use matcha.Buffer.{Buffer, contains_cr, clip_offset}
use matcha.Buffer.Edits.{content, IsBuffer, clip_offset-snap}
use matcha.Buffer.Eol.{normalize_eol_fixed}
use matcha.Transaction.{
  EditOp, is_nil, is_no_op, insert_op, sort_ops, find_overlap, batch, clip_ops,
}
use matcha.Transaction.Normal.{
  IsClipped, AllClipped, clipped, clip_ops-cons, boundaries_batch, texts_batch,
}
use matcha.Transaction.Chain.{to_op}

contains_cr-take : (t : List ℕ) (n : ℕ) → contains_cr t ≡ false → contains_cr (take n t) ≡ false
unfolding contains_cr
contains_cr-take t zero h = refl
contains_cr-take [] (suc n) h = refl
contains_cr-take (x ∷ t) (suc n) h = ground (arith, h, contains_cr-take t n)

contains_cr-drop : (t : List ℕ) (n : ℕ) → contains_cr t ≡ false → contains_cr (drop n t) ≡ false
unfolding contains_cr
contains_cr-drop t zero h = h
contains_cr-drop [] (suc n) h = refl
contains_cr-drop (x ∷ t) (suc n) h = contains_cr-drop t n (ground (arith, h))

contains_cr-append :
    (s t : List ℕ) → contains_cr s ≡ false → contains_cr t ≡ false → contains_cr (s ++ t) ≡ false
unfolding contains_cr
contains_cr-append [] t h k = k
contains_cr-append (x ∷ s) t h k = ground (arith, h, contains_cr-append s t)

abbrev pub AllLf : List EditOp → Type 0
AllLf [] = Unit
AllLf (op ∷ ops) = (contains_cr op.text ≡ false) × AllLf ops

pub contains_cr-splice :
    (ops : List EditOp) (at : ℕ) (t : List ℕ)
    → AllLf ops
    → contains_cr t ≡ false
    → contains_cr (splice at (batch ops) t) ≡ false
unfolding splice
contains_cr-splice [] at t h k = k
contains_cr-splice (op ∷ ops) at t (h, hs) k =
    contains_cr-append (take (op.range.start - at) t) _ (contains_cr-take t (op.range.start - at) k)
      (contains_cr-append op.text _ h (
        contains_cr-splice ops op.range.end (drop (op.range.end - at) t) hs
          (contains_cr-drop t (op.range.end - at) k)))

-- The texts that an undo puts back come from the text, which has no `\r`.
pub AllLf-unsplice :
    (ops : List Splice) (at now : ℕ) (t : List ℕ)
    → contains_cr t ≡ false
    → AllLf (map to_op (unsplice at now ops t))
unfolding unsplice
AllLf-unsplice [] at now t h = tt
AllLf-unsplice ((r, x) ∷ ops) at now t h = (
  contains_cr-take (drop (r.start - at) t) (r.end - r.start) (contains_cr-drop t (r.start - at) h),
  AllLf-unsplice ops r.end (now + (r.start - at) + length x) (drop (r.end - at) t)
      (contains_cr-drop t (r.end - at) h),
)

pub batch-to_op : (ops : List Splice) → batch (map to_op ops) ≡ ops
batch-to_op [] = refl
batch-to_op ((r, x) ∷ ops) = ap ((r, x) ∷◌) (batch-to_op ops)

pub sort_ops_fixed :
    (ops : List EditOp) (at len : ℕ) → Disjoint at len (batch ops) → sort_ops ops ≡ ops
unfolding sort_ops
sort_ops_fixed [] at len d = refl
sort_ops_fixed (op ∷ ops) at len d =
    ap (insert_op op) (sort_ops_fixed ops op.range.end len d.2) ∙ first ops d
  where
    first : (ops : List EditOp) → Disjoint at len (batch (op ∷ ops)) → insert_op op ops ≡ op ∷ ops
    first [] d = unfold insert_op in refl
    first (o ∷ ops) d =
        let e : leb op.range.start o.range.start ≡ true = ground arith in unfold insert_op in rw e

pub find_overlap_fixed :
    (ops : List EditOp) (at len : ℕ) → Disjoint at len (batch ops) → find_overlap ops ≡ none
unfolding find_overlap
find_overlap_fixed [] at len d = refl
find_overlap_fixed (a ∷ []) at len d = refl
find_overlap_fixed (a ∷ b ∷ ops) at len d =
    ground (arith, find_overlap_fixed (b ∷ ops) a.range.end len d.2)

module _ (R : Ropey) (b : Buffer R) (v : IsBuffer R b) where
  clipped_fixed :
      (op : EditOp) → IsClipped (content R b) op → contains_cr op.text ≡ false → clipped R b op ≡ op
  clipped_fixed op c h =
      let t = content R b in
      let lo : min op.range.start op.range.end ≡ op.range.start = omega (arith, c.ordered) in
      let hi : max op.range.start op.range.end ≡ op.range.end = omega (arith, c.ordered) in
      let s : clip_offset R b (min op.range.start op.range.end) left ≡ op.range.start =
        ap (λ n. clip_offset R b n left) lo
        ∙ clip_offset-snap R b op.range.start left v
        ∙ snap_char_boundary_fixed t op.range.start left c.at_start
            (omega (arith, c.ordered, c.inside)) in
      let e : clip_offset R b (max op.range.start op.range.end) right ≡ op.range.end =
        ap (λ n. clip_offset R b n right) hi
        ∙ clip_offset-snap R b op.range.end right v
        ∙ snap_char_boundary_fixed t op.range.end right c.at_end c.inside in
      λ i. record {
        range = record { start = s i; end = e i };
        text = normalize_eol_fixed op.text h i;
      }

  -- Clipping leaves such ops alone.
  pub clip_ops_fixed :
      (ops : List EditOp) → AllClipped (content R b) ops → AllLf ops → clip_ops R b ops ≡ ops
  clip_ops_fixed [] cs hs = unfold clip_ops in refl
  clip_ops_fixed (op ∷ ops) (c, cs) (h, hs) =
      let same = clipped_fixed op c h in
      clip_ops-cons R b op ops
      ∙ ap (λ (o : EditOp). if is_no_op o then clip_ops R b ops else o ∷ clip_ops R b ops) same
      ∙ ap (λ (n : Bool). if n then clip_ops R b ops else op ∷ clip_ops R b ops) c.changes
      ∙ ap (op ∷◌) (clip_ops_fixed ops cs hs)

is_nil-length : (t : List ℕ) → is_nil t ≡ true → length t ≡ 0
is_nil-length [] h = refl
is_nil-length (x ∷ t) h = cc

length-is_nil : (t : List ℕ) → length t ≡ 0 → is_nil t ≡ true
length-is_nil [] h = refl
length-is_nil (x ∷ t) h = absurd (omega arith)

-- What changes the text is undone by what changes it.
inverse_changes :
    (op : EditOp) (start : ℕ) (old : List ℕ)
    → op.range.start ≤ op.range.end
    → length old ≡ op.range.end - op.range.start
    → is_no_op op ≡ false
    → is_no_op (to_op (record { start = start; end = start + length op.text }, old)) ≡ false
inverse_changes op start old h k c = ground (arith, is_nil-length old, length-is_nil op.text, c)

-- One inverse op: `front` is the new text before it and `rest` the new text after it.
inverse-IsClipped :
    (op : EditOp) (front rest old : List ℕ)
    → op.range.start ≤ op.range.end
    → is_no_op op ≡ false
    → StartsChar op.text
    → StartsChar rest
    → StartsChar old
    → length old ≡ op.range.end - op.range.start
    → IsClipped
        (front ++ (op.text ++ rest))
        (to_op (record { start = length front; end = length front + length op.text }, old))
inverse-IsClipped op front rest old h c s r o k = record {
  ordered = omega arith;
  inside = omega (arith, length-append front (op.text ++ rest), length-append op.text rest);
  at_start =
      is_char_boundary-append_at (length front) front (op.text ++ rest) refl
        (StartsChar-append op.text rest s r);
  at_end =
      subst (λ (u : List ℕ). is_char_boundary u (length front + length op.text) ≡ true)
        (append_assoc front op.text rest)
        (is_char_boundary-append_at (length front + length op.text) (front ++ op.text) rest
          (sym (length-append front op.text)) r);
  starts = o;
  changes = inverse_changes op (length front) old h k c;
}

-- The inverse ops are clipped ops of the new text. `done` is its part before `now`.
pub AllClipped-unsplice :
    (ops : List EditOp) (at now : ℕ) (t done : List ℕ)
    → now ≡ length done
    → AllClipped t ops
    → Disjoint at (length t) (batch ops)
    → StartsChar t
    → is_char_boundary t at ≡ true
    → AllClipped
        (done ++ splice at (batch ops) (drop at t))
        (map to_op (unsplice at now (batch ops) (drop at t)))
unfolding unsplice splice
AllClipped-unsplice [] at now t done n cs d s b = tt
AllClipped-unsplice (op ∷ ops) at now t done n (c, cs) d s b =
    let start = op.range.start in
    let end = op.range.end in
    let inside = Disjoint-le (batch ops) end (length t) d.2 in
    let seg = take (start - at) (drop at t) in
    let rest = splice end (batch ops) (drop end t) in
    let old = take (end - start) (drop (start - at) (drop at t)) in
    let tail : StartsChar rest =
      StartsChar-splice (batch ops) end (length t) t d.2 s c.at_end (boundaries_batch t ops cs)
        (texts_batch t ops cs) in
    let old_start : StartsChar old =
      subst (λ (u : List ℕ). StartsChar (take (end - start) u)) (sym (drop-to at start t d.0))
        (StartsChar-take (end - start) (drop start t) (StartsChar-drop t start s c.at_start)) in
    let here : now + (start - at) ≡ length (done ++ seg) =
      omega
        (arith, length-append done seg, length-take (start - at) (drop at t), length-drop at t) in
    let first =
      inverse-IsClipped op (done ++ seg) rest old c.ordered c.changes c.starts tail old_start (
        omega (
          arith,
          length-take (end - start) (drop (start - at) (drop at t)),
          length-drop (start - at) (drop at t),
          length-drop at t,
        )) in
    let others =
      AllClipped-unsplice ops end (now + (start - at) + length op.text) t ((done ++ seg) ++ op.text)
        (omega (arith, length-append (done ++ seg) op.text)) cs d.2 s c.at_end in
    subst
      (λ (u : List ℕ). AllClipped (done ++ (seg ++ (op.text ++ splice end (batch ops) u))) (
        to_op
          (record { start = now + (start - at); end = now + (start - at) + length op.text }, old)
        ∷ map to_op (unsplice end (now + (start - at) + length op.text) (batch ops) u)))
      (sym (drop-to at end t (omega arith)))
      (
        subst₂
            (λ (u : List ℕ) m.
              IsClipped u (to_op (record { start = m; end = m + length op.text }, old)))
            (append_assoc done seg (op.text ++ rest)) (sym here) first,
        subst
            (λ (u : List ℕ). AllClipped u (
              map to_op
                (unsplice end (now + (start - at) + length op.text) (batch ops) (drop end t))))
            (append_assoc (done ++ seg) op.text rest ∙ append_assoc done seg (op.text ++ rest))
            others,
      )
