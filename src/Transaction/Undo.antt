-- ===== src/Transaction/Undo.antt =====
-- Undo: the inverse ops of a transaction take the text back.
use matcha.Common.{
  ◌+◌, ◌<◌, ◌≡◌, refl, sym, ap, ◌∙◌, Option, none, some, List, [], ◌∷◌, length, u32_mod,
}
use matcha.Text.{splice, unsplice}
use matcha.Ropey.{Ropey}
use matcha.Buffer.{Buffer}
use matcha.Buffer.Edits.{content}
use matcha.Transaction.{
  EditOp, Committed, Outcome, ok, err, empty_committed, sort_ops, find_overlap, clip_ops, apply,
}
use matcha.Transaction.Normal.{AllClipped, AllStr, total_text}
use matcha.Transaction.Chain.{patch_of}
use matcha.Transaction.Apply.{
  IsDocument, Applied, Done, overlapping, overflowing, nothing, applied, apply-Done,
}
use matcha.Patch.Order.{mirror}
use matcha.Transaction.Prepared.{replay_inverse}

module _ (R : Ropey) where
  -- A second transaction takes the first one's text back, one revision on, by the mirrored patch.
  pub record Undone (b : Buffer R) (c : Committed) (b'' : Buffer R) (c'' : Committed) : Type 0 where
    pub document : IsDocument R b''
    pub text : content R b'' ≡ content R b
    pub patch : c''.patch.edits ≡ mirror c.patch.edits

  undo_ops :
      (b b' : Buffer R) (op : EditOp) (ops : List EditOp) (c : Committed)
      → IsDocument R b
      → AllClipped (content R b) (op ∷ ops)
      → find_overlap (op ∷ ops) ≡ none
      → length (content R b) + total_text (op ∷ ops) < u32_mod
      → Applied R b (op ∷ ops) b' c
      → (b'' : Buffer R) × (c'' : Committed) × (apply R b' c.inverse ≡ some (b'', ok c''))
        × Undone b c b'' c''
  undo_ops b b' op ops c v cs apart room a =
      let (b'', c'', e, v'', text, edits) =
        replay_inverse R b b' op ops v cs apart room a.document a.text in
      (
        b'',
        c'',
        ap (apply R b') a.inverse ∙ e,
        record { document = v''; text = text; patch = edits ∙ ap mirror (sym a.edits) },
      )

  -- `apply` can be taken back: what a refusal leaves is the same buffer, and the inverse ops of a
  -- commit are committed in turn and undo it.
  abbrev pub Undoable : Buffer R → Option (Buffer R × Outcome) → Type 0
  Undoable b none = ⊥
  Undoable b (some (b', err e)) = b' ≡ b
  Undoable b (some (b', ok c)) =
      (b'' : Buffer R) × (c'' : Committed) × (apply R b' c.inverse ≡ some (b'', ok c''))
      × Undone b c b'' c''

  undo_nothing :
      (b b' : Buffer R) (c : Committed)
      → IsDocument R b'
      → content R b' ≡ content R b
      → c.inverse ≡ []
      → c.patch.edits ≡ []
      → Undoable b (some (b', ok c))
  undo_nothing b b' c v same none_left no_edits = (
    b',
    empty_committed,
    ap (apply R b') none_left ∙ (unfold apply clip_ops in refl),
    record { document = v; text = same; patch = ap mirror (sym no_edits) },
  )

  undo_list :
      (b b' : Buffer R) (l : List EditOp) (c : Committed)
      → IsDocument R b
      → AllClipped (content R b) l
      → find_overlap l ≡ none
      → length (content R b) + total_text l < u32_mod
      → Applied R b l b' c
      → Undoable b (some (b', ok c))
  undo_list b b' [] c v cs apart room a =
      undo_nothing b b' c a.document (unfold splice in a.text) (unfold unsplice in a.inverse)
        (unfold patch_of in a.edits)
  undo_list b b' (op ∷ ops) c v cs apart room a = undo_ops b b' op ops c v cs apart room a

  Undoable-Done :
      (b : Buffer R) (norm : List EditOp) {r : Option (Buffer R × Outcome)}
      → IsDocument R b
      → Done R b norm r
      → Undoable b r
  Undoable-Done b norm v (nothing e) = undo_nothing b b empty_committed v refl refl refl
  Undoable-Done b norm v (overlapping first second e) = refl
  Undoable-Done b norm v (overflowing apart e) = refl
  Undoable-Done b norm v (applied b' c cs lf apart room a) = undo_list b b' norm c v cs apart room a

  -- On a document, with ops whose texts are `&str` and fit a u32 together with the document: `apply`
  -- does not panic; what it refuses leaves the buffer as it was; and what it commits can be taken
  -- back, since applying the inverse ops is committed in turn, gives a document with the text from
  -- before, and has for its patch the first patch with old and new ranges exchanged.
  pub apply-Undoable :
      (b : Buffer R) (ops : List EditOp)
      → IsDocument R b
      → AllStr ops
      → length (content R b) + total_text ops < u32_mod
      → Undoable b (apply R b ops)
  apply-Undoable b ops v s room =
      Undoable-Done b (sort_ops (clip_ops R b ops)) v (apply-Done R b ops v s room)
