-- ===== src/Tests/Edits.antt =====
-- Edits and transactions at concrete inputs.
use matcha.Buffer.Load.{load-serialize}
use matcha.Common.{◌≡◌, refl, List, some, map, arith, false}
use matcha.Coords.{is_char_boundary, is_continuation}
use matcha.Text.{splice, bytes_in}
use matcha.Rope.{Rope, edit_many, slice}
use matcha.Rope.Edits.{IsRope, view, view-edit_many}
use matcha.Rope.Reads.{slice-bytes}
use matcha.Buffer.{Buffer, crlf, serialize, buffer_edit_many, ok, load, contains_cr, expand_lf}
use matcha.Buffer.Edits.{content, IsBuffer, content-buffer_edit_many}
use matcha.Transaction.{EditOp, apply, clip_ops, sort_ops}
use matcha.Transaction.Chain.{to_op}
use matcha.Transaction.Apply.{Done, apply-Done}
use matcha.Transaction.Undo.{Undoable, apply-Undoable}
use matcha.Tests.Flat.{flat}
use matcha.Tests.Documents.{
  doc, doc-IsDocument, two_ops, two_ops-AllStr, two_splices, two_splices-IsBatch,
}

apply-Undoable_example : Undoable flat doc (apply flat doc two_ops)
apply-Undoable_example = apply-Undoable flat doc two_ops doc-IsDocument two_ops-AllStr (omega arith)

apply-Done_example : Done flat doc (sort_ops (clip_ops flat doc two_ops)) (apply flat doc two_ops)
apply-Done_example = apply-Done flat doc two_ops doc-IsDocument two_ops-AllStr (omega arith)

view-edit_many_example :
    (r' : Rope flat) × (edit_many flat doc.text two_splices ≡ some r')
    × IsRope flat r'
    × (view flat r' ≡ splice 0 two_splices (view flat doc.text))
view-edit_many_example =
    view-edit_many flat doc.text two_splices doc-IsDocument.buffer two_splices-IsBatch

content-buffer_edit_many_example :
    (b' : Buffer flat) × (buffer_edit_many flat doc two_splices ≡ some b')
    × IsBuffer flat b'
    × (content flat b' ≡ splice 0 two_splices (content flat doc))
    × (b'.revision ≡ doc.revision)
content-buffer_edit_many_example =
    content-buffer_edit_many flat doc two_splices doc-IsDocument.buffer two_splices-IsBatch

slice-bytes_example :
    slice flat doc.text (record { start = 1; end = 3 })
    ≡ some (bytes_in (record { start = 1; end = 3 }) (view flat doc.text))
unfolding is_char_boundary is_continuation
slice-bytes_example =
    slice-bytes flat doc.text doc-IsDocument.buffer (record { start = 1; end = 3 }) refl refl

abbrev sorted_ops : List EditOp
sorted_ops = map to_op two_splices

load-serialize_example :
    (b' : Buffer flat) × (load flat 2 (serialize flat doc crlf) ≡ ok b')
    × IsBuffer flat b'
    × (content flat b' ≡ content flat doc)
    × (contains_cr (content flat b') ≡ false)
    × (b'.revision ≡ 0)
unfolding serialize expand_lf
load-serialize_example =
    load-serialize flat 2 doc crlf doc-IsDocument.buffer doc-IsDocument.lf_only (omega arith)
