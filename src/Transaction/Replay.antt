-- ===== src/Transaction/Replay.antt =====
-- Ops that were committed once are committed again on any document with the text that they expect.
use mathlib.Core.Path.{subst, subst₂}
use matcha.Common.{
  ℕ, ◌≡◌, refl, sym, ap, ◌∙◌, some, none, List, [], ◌∷◌, length, ◌+◌, ◌<◌, u32_mod, arith, Option,
}
use matcha.Ropey.{Ropey}
use matcha.Buffer.{Buffer}
use matcha.Buffer.Edits.{content}
use matcha.Text.{splice, unsplice}
use matcha.Transaction.{
  EditOp, Committed, Outcome, ok, apply, clip_ops, sort_ops, find_overlap, err, empty_committed,
}
use matcha.Transaction.Normal.{AllClipped, AllStr, total_text}
use matcha.Transaction.Fixed.{AllLf}
use matcha.Transaction.Apply.{
  IsDocument, Applied, Done, nothing, overlapping, overflowing, applied, apply-Done,
}
use matcha.Transaction.Prepared.{replay_inverse, replay_forward}

module _ (R : Ropey) where
  -- On every document with the text `t`, the ops are committed and give a document with the text `u`.
  abbrev pub Takes : List EditOp → List ℕ → List ℕ → Type 0
  Takes ops t u =
      (b : Buffer R)
      → IsDocument R b
      → content R b ≡ t
      → (b' : Buffer R) × (c : Committed) × (apply R b ops ≡ some (b', ok c))
        × IsDocument R b'
        × (content R b' ≡ u)

  -- What a commit leaves behind for redo and undo.
  pub record IsReplayable (b b' : Buffer R) (c : Committed) : Type 0 where
    pub document : IsDocument R b'
    pub forth : Takes c.forward (content R b) (content R b')
    pub back : Takes c.inverse (content R b') (content R b)

  IsReplayable-batch :
      (b b' : Buffer R) (op : EditOp) (ops : List EditOp) (c : Committed)
      → IsDocument R b
      → AllClipped (content R b) (op ∷ ops)
      → AllLf (op ∷ ops)
      → find_overlap (op ∷ ops) ≡ none
      → length (content R b) + total_text (op ∷ ops) < u32_mod
      → Applied R b (op ∷ ops) b' c
      → IsReplayable b b' c
  IsReplayable-batch b b' op ops c v cs lf apart room a = record {
    document = a.document;
    forth = λ b2 v2 e.
        let (b3, c3, done, v3, text, edits) =
          replay_forward R b b2 op ops cs lf apart room
            (omega (arith, ap length a.text, a.document.bounded)) v2 e in
        (b3, c3, ap (apply R b2) a.forward ∙ done, v3, text ∙ sym a.text);
    back = λ b2 v2 e.
        let (b3, c3, done, v3, text, edits) =
          replay_inverse R b b2 op ops v cs apart room v2 (e ∙ a.text) in
        (b3, c3, ap (apply R b2) a.inverse ∙ done, v3, text);
  }

  Takes-nothing : (t : List ℕ) → Takes [] t t
  unfolding apply clip_ops
  Takes-nothing t b v e = (b, empty_committed, refl, v, e)

  IsReplayable-list :
      (b b' : Buffer R) (norm : List EditOp) (c : Committed)
      → IsDocument R b
      → AllClipped (content R b) norm
      → AllLf norm
      → find_overlap norm ≡ none
      → length (content R b) + total_text norm < u32_mod
      → Applied R b norm b' c
      → IsReplayable b b' c
  IsReplayable-list b b' [] c v cs lf apart room a =
      let same : content R b' ≡ content R b = unfold splice in a.text in
      let none_left : c.inverse ≡ [] = unfold unsplice in a.inverse in
      record {
        document = a.document;
        forth =
            subst₂ (λ (o : List EditOp) (u : List ℕ). Takes o (content R b) u) (sym a.forward)
              (sym same) (Takes-nothing (content R b));
        back =
            subst₂ (λ (o : List EditOp) (u : List ℕ). Takes o u (content R b)) (sym none_left)
              (sym same) (Takes-nothing (content R b));
      }
  IsReplayable-list b b' (op ∷ ops) c v cs lf apart room a =
      IsReplayable-batch b b' op ops c v cs lf apart room a

  abbrev Replayable : Buffer R → Option (Buffer R × Outcome) → Type 0
  Replayable b none = ⊥
  Replayable b (some (b', err e)) = b' ≡ b
  Replayable b (some (b', ok c)) = IsReplayable b b' c

  IsReplayable-outcome :
      (b : Buffer R) (norm : List EditOp) {r : Option (Buffer R × Outcome)}
      → IsDocument R b
      → Done R b norm r
      → Replayable b r
  IsReplayable-outcome b norm v (nothing e) = record {
    document = v;
    forth = Takes-nothing (content R b);
    back = Takes-nothing (content R b);
  }
  IsReplayable-outcome b norm v (overlapping first second e) = refl
  IsReplayable-outcome b norm v (overflowing apart e) = refl
  IsReplayable-outcome b norm v (applied b' c cs lf apart room a) =
      IsReplayable-list b b' norm c v cs lf apart room a

  -- On a document, with ops whose texts are `&str` and fit a u32 together with the document: where
  -- they are committed, the forward ops are committed again on every document with the text from
  -- before, and the inverse ops on every document with the text from after, whatever their ropes and
  -- revisions, and each gives a document with the other text.
  pub apply-IsReplayable :
      (b b' : Buffer R) (ops : List EditOp) (c : Committed)
      → IsDocument R b
      → AllStr ops
      → length (content R b) + total_text ops < u32_mod
      → apply R b ops ≡ some (b', ok c)
      → IsReplayable b b' c
  apply-IsReplayable b b' ops c v s room e =
      subst (Replayable b) e
        (IsReplayable-outcome b (sort_ops (clip_ops R b ops)) v (apply-Done R b ops v s room))
