-- ===== src/Transaction/Normal.antt =====
-- Steps (1) to (3): what clipping, sorting and the overlap test leave for the batch.
use matcha.Common.{
  ℕ, ◌+◌, ◌≤◌, ◌<◌, ◌≡◌, refl, sym, ap, subst, ◌∙◌, Bool, true, false, Option, none, some, List, [],
  ◌∷◌, length, min, max, leb, if◌then◌else◌, u32_mod, arith, Bool-cases, inl, inr,
}
use matcha.Coords.{left, right, is_char_boundary, StartsChar}
use matcha.Coords.Snap.{snap_char_boundary-IsNearest}
use matcha.Text.{Disjoint}
use matcha.Text.Boundary.{AtBoundaries}
use matcha.Text.Splices.{AllStartChar, inserted}
use matcha.Ropey.{Ropey}
use matcha.Rope.Edits.{IsBatch}
use matcha.Buffer.{Buffer, normalize_eol, clip_offset}
use matcha.Buffer.Edits.{content, IsBuffer, clip_offset-snap}
use matcha.Buffer.Eol.{StartsChar-normalize_eol, length-normalize_eol}
use matcha.Transaction.{
  EditOp, is_no_op, insert_op, sort_ops, find_overlap, batch, clip_op, clip_ops,
}

-- An op that step (1) lets through, over the text `t`.
pub record IsClipped (t : List ℕ) (op : EditOp) : Type 0 where
  pub ordered : op.range.start ≤ op.range.end
  pub inside : op.range.end ≤ length t
  pub at_start : is_char_boundary t op.range.start ≡ true
  pub at_end : is_char_boundary t op.range.end ≡ true
  pub starts : StartsChar op.text
  pub changes : is_no_op op ≡ false

abbrev pub AllClipped : List ℕ → List EditOp → Type 0
AllClipped t [] = Unit
AllClipped t (op ∷ ops) = IsClipped t op × AllClipped t ops

abbrev pub AllStr : List EditOp → Type 0
AllStr [] = Unit
AllStr (op ∷ ops) = StartsChar op.text × AllStr ops

abbrev pub total_text : List EditOp → ℕ
total_text [] = 0
total_text (op ∷ ops) = length op.text + total_text ops

AllClipped-insert_op :
    (t : List ℕ) (op : EditOp) (ops : List EditOp)
    → IsClipped t op
    → AllClipped t ops
    → AllClipped t (insert_op op ops)
unfolding insert_op
AllClipped-insert_op t op [] c cs = (c, tt)
AllClipped-insert_op t op (o ∷ ops) c cs = elim (Bool-cases (leb op.range.start o.range.start)) [
  | inl e ↦ rw e (c, cs)
  | inr e ↦ rw e (cs.0, AllClipped-insert_op t op ops c cs.1)
]

pub AllClipped-sort_ops :
    (t : List ℕ) (ops : List EditOp) → AllClipped t ops → AllClipped t (sort_ops ops)
unfolding sort_ops
AllClipped-sort_ops t [] cs = tt
AllClipped-sort_ops t (op ∷ ops) (c, cs) =
    AllClipped-insert_op t op (sort_ops ops) c (AllClipped-sort_ops t ops cs)

total_text-insert_op :
    (op : EditOp) (ops : List EditOp)
    → total_text (insert_op op ops) ≡ length op.text + total_text ops
unfolding insert_op
total_text-insert_op op [] = refl
total_text-insert_op op (o ∷ ops) = ground (arith, total_text-insert_op op ops)

pub total_text-sort_ops : (ops : List EditOp) → total_text (sort_ops ops) ≡ total_text ops
unfolding sort_ops
total_text-sort_ops [] = refl
total_text-sort_ops (op ∷ ops) =
    total_text-insert_op op (sort_ops ops) ∙ ap (length op.text +◌) (total_text-sort_ops ops)

-- Neighbours that do not overlap make an ascending, disjoint batch.
Disjoint-find_overlap :
    (t : List ℕ) (at : ℕ) (op : EditOp) (ops : List EditOp)
    → AllClipped t (op ∷ ops)
    → find_overlap (op ∷ ops) ≡ none
    → at ≤ op.range.start
    → Disjoint at (length t) (batch (op ∷ ops))
unfolding find_overlap
Disjoint-find_overlap t at op [] (c, cs) h k = (k, c.ordered, c.inside)
Disjoint-find_overlap t at op (o ∷ ops) (c, cs) h k = (
  k,
  c.ordered,
  Disjoint-find_overlap t op.range.end o ops cs (ground (arith, h)) (ground (arith, h)),
)

pub boundaries_batch :
    (t : List ℕ) (ops : List EditOp) → AllClipped t ops → AtBoundaries t (batch ops)
boundaries_batch t [] cs = tt
boundaries_batch t (op ∷ ops) (c, cs) = (c.at_start, c.at_end, boundaries_batch t ops cs)

pub texts_batch : (t : List ℕ) (ops : List EditOp) → AllClipped t ops → AllStartChar (batch ops)
texts_batch t [] cs = tt
texts_batch t (op ∷ ops) (c, cs) = (c.starts, texts_batch t ops cs)

pub inserted-batch : (ops : List EditOp) → inserted (batch ops) ≡ total_text ops
inserted-batch [] = refl
inserted-batch (op ∷ ops) = ap (length op.text +◌) (inserted-batch ops)

pub Disjoint-batch :
    (t : List ℕ) (ops : List EditOp)
    → AllClipped t ops
    → find_overlap ops ≡ none
    → Disjoint 0 (length t) (batch ops)
Disjoint-batch t [] cs h = omega arith
Disjoint-batch t (op ∷ ops) cs h = Disjoint-find_overlap t 0 op ops cs h (omega arith)

module _ (R : Ropey) where
  pub IsBatch-batch :
      (t : List ℕ) (ops : List EditOp)
      → AllClipped t ops
      → find_overlap ops ≡ none
      → length t + total_text ops < u32_mod
      → IsBatch R t (batch ops)
  IsBatch-batch t ops cs h f = record {
    disjoint = Disjoint-batch t ops cs h;
    boundaries = boundaries_batch t ops cs;
    texts = texts_batch t ops cs;
    room = omega (arith, inserted-batch ops);
  }

  abbrev pub clipped : Buffer R → EditOp → EditOp
  clipped b op = record {
    range = record {
      start = clip_offset R b (min op.range.start op.range.end) left;
      end = clip_offset R b (max op.range.start op.range.end) right;
    };
    text = normalize_eol op.text;
  }

  -- Clipping goes outward to the nearest boundaries.
  clipped-IsClipped :
      (b : Buffer R) (op : EditOp)
      → IsBuffer R b
      → StartsChar op.text
      → is_no_op (clipped b op) ≡ false
      → IsClipped (content R b) (clipped b op)
  clipped-IsClipped b op v s h =
      let lo = min op.range.start op.range.end in
      let hi = max op.range.start op.range.end in
      let t = content R b in
      let at_lo = clip_offset-snap R b lo left v in
      let at_hi = clip_offset-snap R b hi right v in
      let l = snap_char_boundary-IsNearest t lo left in
      let r = snap_char_boundary-IsNearest t hi right in
      record {
        ordered = omega (arith, at_lo, at_hi, l.below refl, l.within, r.above refl);
        inside = omega (arith, at_hi, r.within);
        at_start = rw at_lo l.boundary;
        at_end = rw at_hi r.boundary;
        starts = StartsChar-normalize_eol op.text s;
        changes = h;
      }

  pub clip_ops-cons :
      (b : Buffer R) (op : EditOp) (ops : List EditOp)
      → clip_ops R b (op ∷ ops)
        ≡ (if is_no_op (clipped b op) then clip_ops R b ops else clipped b op ∷ clip_ops R b ops)
  unfolding clip_ops clip_op
  clip_ops-cons b op ops = elim (Bool-cases (is_no_op (clipped b op))) [
    | inl e ↦
        ap
          (λ (o : Option EditOp). elim o [
            | none ↦ clip_ops R b ops
            | some c ↦ c ∷ clip_ops R b ops
          ])
          (ap (λ (n : Bool). if n then none else some (clipped b op)) e)
        ∙ sym (ap (λ (n : Bool). if n then clip_ops R b ops else clipped b op ∷ clip_ops R b ops) e)
    | inr e ↦
        ap
          (λ (o : Option EditOp). elim o [
            | none ↦ clip_ops R b ops
            | some c ↦ c ∷ clip_ops R b ops
          ])
          (ap (λ (n : Bool). if n then none else some (clipped b op)) e)
        ∙ sym (ap (λ (n : Bool). if n then clip_ops R b ops else clipped b op ∷ clip_ops R b ops) e)
  ]

  pub clip_ops-AllClipped :
      (b : Buffer R) (ops : List EditOp)
      → IsBuffer R b
      → AllStr ops
      → AllClipped (content R b) (clip_ops R b ops)
        × (total_text (clip_ops R b ops) ≤ total_text ops)
  clip_ops-AllClipped b [] v s = unfold clip_ops in (tt, omega arith)
  clip_ops-AllClipped b (op ∷ ops) v (s, ss) =
      let (cs, shorter) = clip_ops-AllClipped b ops v ss in
      subst
        (λ (l : List EditOp). AllClipped (content R b) l × (total_text l ≤ total_text (op ∷ ops)))
        (sym (clip_ops-cons b op ops))
        (elim (Bool-cases (is_no_op (clipped b op))) [
          | inl e ↦ rw e (cs, omega arith)
          | inr e ↦ rw e (
            (clipped-IsClipped b op v s e, cs),
            omega (arith, shorter, length-normalize_eol op.text),
          )
        ])
